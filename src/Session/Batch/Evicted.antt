-- ===== src/Session/Batch/Evicted.antt =====
-- A batch that names a stream whose tombstone an earlier frame of the batch evicts. The check on
-- the batch still finds the tombstone; the loop that applies it finds neither tombstone nor stream.
use tproxy_server.Base.{
  ℕ, ◌≡◌, ◌≢◌, refl, ap, sym, subst, ◌∙◌, Bool, true, false, Option, none, some, List, [], ◌∷◌,
  ◌++◌, arith, ◌==◌, ltb, length, get_elem?, set, suc, ◌%◌, if◌then◌else◌, Every, Every-bind,
  panics-bind, Bool-cases, Option-cases, inl, inr,
}
use tproxy_server.Base.Table.{number_key, number_iff, lookup, insert, delete}
use tproxy_server.Frame.{Frame, closes, close_type, data_type, kind}
use tproxy_server.Session.{Session, Hooks, StreamState}
use tproxy_server.Session.Tables.{
  SameTables, drop_lane-SameTables, wake_lane-SameTables, release-SameTables,
}
use tproxy_server.Session.Close.{
  has, retire_stream, remember_closed, evict_oldest, drop_lane, wake_lane, release_stream_writes,
}
use tproxy_server.Session.Apply.{Charge, validate_batch, try_batch, try_frame}
use tproxy_server.Session.Batch.{Batch, apply_batch, apply_frames, apply_frame}
use tproxy_server.Session.Batch.Members.{
  Unique, has-delete_self, has-delete_ne, has-snapshots, Unique-insert,
}

abbrev pub closing : ℕ → Frame
closing id = record { type_code = close_type; stream_id = id; payload = [] }

abbrev pub sending : ℕ → List ℕ → Frame
sending id payload = record { type_code = data_type; stream_id = id; payload = payload }

-- The stream `a` is live, and the ring is full with the tombstone of `x` as its oldest.
pub record IsEvicting {W : Type 0} (a x : ℕ) (s : Session W) : Type 0 where
  pub a_numbered : a ≢ 0
  pub x_numbered : x ≢ 0
  pub a_live : has a s.streams ≡ true
  pub a_open : has a s.closed_streams ≡ false
  pub x_gone : has x s.streams ≡ false
  pub x_closed : has x s.closed_streams ≡ true
  pub once : Unique s.closed_streams
  pub full : ltb (length s.closed_order) s.limits.max_closed_stream_ids ≡ false
  pub oldest : get_elem? s.closed_order s.closed_start ≡ some x

module _ {W : Type 0} ⦃h : Hooks W⦄ where
  abbrev Lost : ℕ → Session W → Type 0
  Lost x s = (has x s.closed_streams ≡ false) × (has x s.streams ≡ false)

  -- The eviction of the oldest tombstone, `x`, forgets it.
  evict_oldest-Lost :
      (a x : ℕ) (s : Session W)
      → get_elem? s.closed_order s.closed_start ≡ some x
      → Unique s.closed_streams
      → has x s.streams ≡ false
      → Every (evict_oldest a s) (Lost x)
  unfolding evict_oldest
  evict_oldest-Lost a x s e u n =
      rw (e, evict_oldest, Every)
        (Every-bind (SameTables without) (Lost x) (drop_lane x without)
          (λ s'. some (record s' {
            closed_order = set s'.closed_order s'.closed_start a;
            closed_start = suc s'.closed_start % length s'.closed_order;
          }))
          (drop_lane-SameTables x without)
          (λ s' k. (
            ap (has x) k.same_tombs ∙ has-delete_self x s.closed_streams u,
            ap (has x) k.same_streams ∙ n,
          )))
    where
      without : Session W
      without = record s { closed_streams = delete x s.closed_streams }

  remember_closed-Lost :
      (a x : ℕ) (s : Session W)
      → has a s.closed_streams ≡ false
      → ltb (length s.closed_order) s.limits.max_closed_stream_ids ≡ false
      → get_elem? s.closed_order s.closed_start ≡ some x
      → Unique s.closed_streams
      → has x s.streams ≡ false
      → Every (remember_closed a s) (Lost x)
  unfolding remember_closed
  remember_closed-Lost a x s e full o u n =
      rw (e, full, Every)
        (Every-bind (Lost x) (Lost x) (evict_oldest a entered) (λ s'. some (wake_lane a s'))
          (evict_oldest-Lost a x entered o (Unique-insert a tt s.closed_streams u) n)
          (λ s' k. (
            ap (has x) (wake_lane-SameTables a s').same_tombs ∙ k.0,
            ap (has x) (wake_lane-SameTables a s').same_streams ∙ k.1,
          )))
    where
      entered : Session W
      entered = record s { closed_streams = insert a tt s.closed_streams }

  retire_stream-Lost :
      (a x : ℕ) (t : StreamState) (s : Session W)
      → (a == x) ≡ false
      → IsEvicting a x s
      → Every (retire_stream a t s) (Lost x)
  unfolding retire_stream
  retire_stream-Lost a x t s n v =
      Every-bind (SameTables without) (Lost x) (release_stream_writes t without) (remember_closed a)
        (release-SameTables t.pending_write_cost t.pending_write_items without)
        (λ s' k.
          remember_closed-Lost a x s' (ap (has a) k.same_tombs ∙ v.a_open)
            (ap (λ l. ltb (length s'.closed_order) l.max_closed_stream_ids) k.same_limits
              ∙ ap (λ o. ltb (length o) s.limits.max_closed_stream_ids) k.same_order
              ∙ v.full)
            (ap (get_elem? s'.closed_order) k.same_start
              ∙ ap (λ o. get_elem? o s.closed_start) k.same_order
              ∙ v.oldest)
            (subst Unique (sym k.same_tombs) v.once)
            (ap (has x) k.same_streams ∙ has-delete_ne x a s.streams n ∙ v.x_gone))
    where
      without : Session W
      without = record s { streams = delete a s.streams }

  others : (a x : ℕ) (s : Session W) → IsEvicting a x s → (a == x) ≡ false
  others a x s v = elim (Bool-cases (a == x)) [
    | inl e ↦ cc (subst (λ n. has n s.streams ≡ true) ((number_iff a x).0 e) v.a_live, v.x_gone)
    | inr e ↦ e
  ]

  accepted_frames :
      (a x : ℕ) (payload : List ℕ) (s : Session W)
      → IsEvicting a x s
      → validate_batch (closing a ∷ sending x payload ∷ []) s ≡ true
  unfolding validate_batch try_batch try_frame kind
  accepted_frames a x payload s v =
      ground (
        arith,
        v.a_numbered,
        v.x_numbered,
        v.a_open,
        v.x_closed,
        has-snapshots a s.streams,
        v.a_live,
      )

  forgotten_frame :
      (x : ℕ) (payload : List ℕ) (b : Batch W)
      → x ≢ 0
      → Lost x b.session
      → apply_frames (sending x payload ∷ []) b ≡ none
  unfolding apply_frames apply_frame kind
  forgotten_frame x payload b n l = ground (arith, n, l.0, l.1)

  abbrev Doomed : ℕ → Batch W → Type 0
  Doomed x b = Lost x b.session × (b.applied ≡ true)

  abbrev gone_on : ℕ → List ℕ → Batch W → Option (Batch W)
  gone_on x payload b =
      let rest = apply_frames (sending x payload ∷ []) b in if b.applied then rest else some b

  on_true : (c : Bool) (m n : Option (Batch W)) → c ≡ true → m ≡ none → (if c then m else n) ≡ none
  on_true true m n e k = k
  on_true false m n e k = cc

  closing-Doomed :
      (a x : ℕ) (b : Batch W)
      → b.applied ≡ true
      → IsEvicting a x b.session
      → Every (apply_frame closes (closing a) b) (Doomed x)
  unfolding apply_frame
  closing-Doomed a x b e v = elim (Option-cases (lookup a b.session.streams)) [
    | inl y ↦ rw (v.a_open, y, Every) tt
    | inr (t, y) ↦
        rw (v.a_open, y, Every)
          (Every-bind (Lost x) (Doomed x) (retire_stream a t b.session)
            (λ s. some (record b { session = s; closed = b.closed ++ (t.backend ∷ []) }))
            (retire_stream-Lost a x t b.session (others a x b.session v) v) (λ s k. (k, e)))
  ]

  -- Where the ring of tombstones is full and no number has two tombstones, a batch that closes
  -- a live stream, which has no tombstone, and then sends DATA for the stream of the oldest
  -- tombstone, which is not live, passes the validation, and its application panics, whatever
  -- was reserved for it; neither stream is number 0.
  pub evicted_batch :
      (a x : ℕ) (payload : List ℕ) (reserved : Charge) (s : Session W)
      → IsEvicting a x s
      → (validate_batch (closing a ∷ sending x payload ∷ []) s ≡ true)
        × (apply_batch (closing a ∷ sending x payload ∷ []) reserved s ≡ none)
  unfolding apply_batch apply_frames kind
  evicted_batch a x payload reserved s v = (
    accepted_frames a x payload s v,
    rw numbered (
        panics-bind (Doomed x) (apply_frame closes (closing a) start) (gone_on x payload)
          (closing-Doomed a x start refl v)
          (λ b k. on_true b.applied _ _ k.1 (forgotten_frame x payload b v.x_numbered k.0))),
  )
    where
      numbered : (a == 0) ≡ false
      numbered = ground (arith, v.a_numbered)

      start : Batch W
      start = record {
        session = s;
        opened = [];
        closed = [];
        cost = reserved.cost;
        items = reserved.items;
        applied = true;
      }
