-- ===== src/Session/Batch/Sound.antt =====
-- applyBatchLocked as a whole: where the ring has room for the tombstones of the batch, a batch
-- that was validated and paid for is applied without a panic, and the invariant holds.
use tproxy_server.Base.{
  length, ℕ, ◌+◌, ◌≤◌, ◌≡◌, refl, Bool, true, false, ◌&&◌, some, List, [], ◌∷◌, arith, ◌==◌,
  if◌then◌else◌, All, Bool-cases, Option-cases, inl, inr, Returns, Returns-bind, Returns-if,
}
use tproxy_server.Base.Table.{number_key, Table, lookup}
use tproxy_server.Frame.{
  Frame, Kind, opens, sends, closes, widens, pongs, other, kind, max_stream_id, pong_type,
}
use tproxy_server.Session.{Session, Hooks}
use tproxy_server.Session.Laws.{HookLaws}
use tproxy_server.Session.Invariant.{IsSound}
use tproxy_server.Session.Apply.{
  snapshots, keys_of, validate_batch, backend_write_reservation, Trial, Charge, reservation,
  live_after, write_charge, plus_charge, try_frame, try_batch,
}
use tproxy_server.Session.Batch.{Batch, apply_frame, apply_frames, apply_batch}
use tproxy_server.Session.Batch.Tracking.{gone, Agrees, apart, start-agrees}
use tproxy_server.Session.Batch.Members.{has-snapshots, has-keys_of}
use tproxy_server.Session.Tidy.{IsTidy}
use tproxy_server.Session.Close.{has}
use tproxy_server.Session.Batch.Steps.{Tracks, Goes, tomb, sends-Goes, widens-Goes}
use tproxy_server.Session.Batch.Trials.{try_opens, try_sends, try_widens, try_closes}
use tproxy_server.Session.Batch.Ends.{closes-Goes}
use tproxy_server.Session.Batch.Opens.{opens-Goes}

-- How many tombstones a batch may leave.
abbrev pub departures : List Frame → ℕ
departures [] = 0
departures (f ∷ frames) =
    (if f.stream_id == 0 then 0 else tomb (kind f.type_code)) + departures frames

module _ {W : Type 0} ⦃h : Hooks W⦄ (laws : HookLaws W h) (before : Table (Unit {0})) where
  step :
      (k : Kind) (f : Frame) (charge : Charge) (leaving : ℕ) (r r' : Trial)
      (paid : Table (Unit {0})) (b : Batch W)
      → f.stream_id ≤ max_stream_id
      → try_frame k (gone f.stream_id before r) f r ≡ some r'
      → Tracks laws before
          (plus_charge (write_charge k f.stream_id f.payload paid) charge)
          (tomb k + leaving)
          r
          paid
          b
      → Returns
          (apply_frame k f b)
          (Goes laws before charge leaving r' (live_after k f.stream_id paid))
  unfolding try_frame
  step opens f charge leaving r r' paid b fits e v =
      let o = try_opens (gone f.stream_id before r) f r r' e in
      opens-Goes laws before f charge leaving r r' paid b fits o.idle o.new o.live o.closed v
  step sends f charge leaving r r' paid b fits e v =
      let o = try_sends (gone f.stream_id before r) f r r' e in
      sends-Goes laws before f charge leaving r r' paid b fits o.there o.live o.closed v
  step widens f charge leaving r r' paid b fits e v =
      let o = try_widens (gone f.stream_id before r) f r r' e in
      widens-Goes laws before f charge leaving r r' paid b fits o.there o.live o.closed v
  step closes f charge leaving r r' paid b fits e v =
      let o = try_closes before f r r' (gone f.stream_id before r) refl e in
      closes-Goes laws before f charge leaving r r' paid b o.there o.live o.closed o.goes v
  step pongs f charge leaving r r' paid b fits e v = cc
  step other f charge leaving r r' paid b fits e v = cc

  abbrev pub Whole : Batch W → Type 0
  Whole b =
      IsSound laws b.cost b.items b.session
      × (b.applied ≡ true → IsTidy b.session.streams b.session.closed_streams)

  -- A frame of stream 0 takes nothing of what is kept.
  skipped :
      (f : Frame) (frames : List Frame) (r : Trial) (paid : Table (Unit {0})) (b : Batch W)
      → (f.stream_id == 0) ≡ true
      → Tracks laws before (reservation (f ∷ frames) paid) (departures (f ∷ frames)) r paid b
      → Tracks laws before (reservation frames paid) (departures frames) r paid b
  unfolding reservation
  skipped f frames r paid b x v = record {
    sound = v.sound;
    tracked = v.tracked;
    once = v.once;
    cost_funded = omega (arith, rw (x, reservation) at v.cost_funded);
    items_funded = omega (arith, rw (x, reservation) at v.items_funded);
    room = omega (arith, rw x at v.room);
  }

  kept :
      (f : Frame) (frames : List Frame) (r : Trial) (paid : Table (Unit {0})) (b : Batch W)
      → (f.stream_id == 0) ≡ false
      → Tracks laws before (reservation (f ∷ frames) paid) (departures (f ∷ frames)) r paid b
      → Tracks laws before
          (plus_charge
            (write_charge (kind f.type_code) f.stream_id f.payload paid)
            (reservation frames (live_after (kind f.type_code) f.stream_id paid)))
          (tomb (kind f.type_code) + departures frames)
          r
          paid
          b
  unfolding reservation
  kept f frames r paid b x v = record {
    sound = v.sound;
    tracked = v.tracked;
    once = v.once;
    cost_funded = rw (x, reservation) at v.cost_funded;
    items_funded = rw (x, reservation) at v.items_funded;
    room = rw x at v.room;
  }

  pub apply_frames-Whole :
      (frames : List Frame) (r : Trial) (paid : Table (Unit {0})) (b : Batch W)
      → All (λ f. f.stream_id ≤ max_stream_id) frames
      → try_batch before frames r ≡ true
      → Tracks laws before (reservation frames paid) (departures frames) r paid b
      → Returns (apply_frames frames b) Whole
  unfolding apply_frames try_batch
  apply_frames-Whole [] r paid b fits e v = (
    v.sound,
    λ a. record {
      once = v.once;
      apart = λ id.
          apart (has id b.session.streams) (has id b.session.closed_streams) (has id r.live)
            (gone id before r) (has id paid) (v.tracked id);
    },
  )
  apply_frames-Whole (f ∷ frames) r paid b fits e v = elim (Bool-cases (f.stream_id == 0)) [
    | inl x ↦ rw x (
        apply_frames-Whole frames r paid b fits.1 (second (f.type_code == pong_type) _ (rw x at e))
          (skipped f frames r paid b x v))
    | inr x ↦ elim (Option-cases (try_frame (kind f.type_code) (gone f.stream_id before r) f r)) [
      | inl y ↦ cc (rw (x, y, try_batch) at e)
      | inr (r', y) ↦ rw x (
          Returns-bind
            (Goes laws before (reservation frames (live_after (kind f.type_code) f.stream_id paid))
              (departures frames) r' (live_after (kind f.type_code) f.stream_id paid))
            Whole (apply_frame (kind f.type_code) f b)
            (λ b'. (let rest = apply_frames frames b' in if b'.applied then rest else some b'))
            (step (kind f.type_code) f
              (reservation frames (live_after (kind f.type_code) f.stream_id paid))
              (departures frames) r r' paid b fits.0 y (kept f frames r paid b x v))
            (λ b' g.
              ending (live_after (kind f.type_code) f.stream_id paid) r' b'
                (apply_frames-Whole frames r' (live_after (kind f.type_code) f.stream_id paid) b'
                  fits.1 (rw (x, y) at e))
                g))
    ]
  ]
    where
      second : (a b : Bool) → (a && b) ≡ true → b ≡ true
      second true b h = h
      second false b h = cc

      ending :
          (paid' : Table (Unit {0})) (r' : Trial) (b' : Batch W)
          → (Tracks laws before (reservation frames paid') (departures frames) r' paid' b'
              → Returns (apply_frames frames b') Whole)
          → Goes laws before (reservation frames paid') (departures frames) r' paid' b'
          → Returns
              (let rest = apply_frames frames b' in if b'.applied then rest else some b')
              Whole
      ending paid' r' b' go g =
          Returns-if Whole b'.applied (apply_frames frames b') (some b') (λ z. go (g.1 z))
            (λ z. (g.0, λ a. cc))

module _ {W : Type 0} where
  -- What the validation and the reservation start with is what the session has.
  start_Agrees :
      (s : Session W)
      → IsTidy s.streams s.closed_streams
      → (id : ℕ)
      → Agrees s.closed_streams
          (record { live = snapshots s.streams; closed = [] })
          (keys_of s.streams)
          s
          id
  unfolding lookup
  start_Agrees s v id =
      rw (has-snapshots id s.streams, has-keys_of id s.streams)
        (start-agrees (has id s.streams) (has id s.closed_streams) (v.apart id))

module _ {W : Type 0} ⦃h : Hooks W⦄ (laws : HookLaws W h) where
  pub apply_batch-Whole :
      (frames : List Frame) (s : Session W)
      → All (λ f. f.stream_id ≤ max_stream_id) frames
      → validate_batch frames s ≡ true
      → length s.closed_order + departures frames ≤ s.limits.max_closed_stream_ids
      → IsTidy s.streams s.closed_streams
      → IsSound laws
          (backend_write_reservation frames s).cost
          (backend_write_reservation frames s).items
          s
      → Returns
          (apply_batch frames (backend_write_reservation frames s) s)
          (Whole laws s.closed_streams)
  unfolding apply_batch validate_batch backend_write_reservation
  apply_batch-Whole frames s fits e room tidy v =
      apply_frames-Whole laws s.closed_streams frames
        (record { live = snapshots s.streams; closed = [] }) (keys_of s.streams) _ fits e
        (record {
          sound = v;
          tracked = start_Agrees s tidy;
          once = tidy.once;
          cost_funded = omega arith;
          items_funded = omega arith;
          room = room;
        })
