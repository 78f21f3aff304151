-- ===== src/Session/Batch/Ends.antt =====
-- The rounds that end a stream or begin one: CLOSE, and OPEN with its admission.
use tproxy_server.Base.{
  ℕ, ◌+◌, ◌≡◌, refl, sym, ap, subst, true, false, some, [], ◌∷◌, ◌++◌, arith, ◌==◌, leb, Bool-cases,
  inl, inr, ◌⊎◌, Returns, Returns-bind, Returns-Every,
}
use tproxy_server.Base.Table.{number_key, Table, lookup, delete, size}
use tproxy_server.Config.{Limits}
use tproxy_server.Frame.{Frame, closes}
use tproxy_server.Session.{Session, Hooks, StreamState}
use tproxy_server.Session.Laws.{HookLaws}
use tproxy_server.Session.Invariant.{IsSound}
use tproxy_server.Session.Leaving.{retire_stream-IsSound}
use tproxy_server.Session.Queueing.{Stays}
use tproxy_server.Session.Tables.{SameTables-refl}
use tproxy_server.Session.Close.{has, retire_stream}
use tproxy_server.Session.Apply.{Trial, Charge, no_charge, plus_charge}
use tproxy_server.Session.Batch.{Batch, apply_frame, admit_stream, retired}
use tproxy_server.Session.Batch.Members.{Unique, has-delete_ne, Unique-delete}
use tproxy_server.Session.Batch.Tombs.{Retired, retire_stream-Retired}
use tproxy_server.Session.Batch.Tracking.{Agrees, Agrees-moves, gone, buried, closed-agrees}
use tproxy_server.Session.Batch.Steps.{Tracks, Goes, skip, stream_of, departed}

module _ {W : Type 0} ⦃h : Hooks W⦄ (laws : HookLaws W h) (before : Table (Unit {0})) where
  -- A second CLOSE: the stream has its tombstone.
  buried_twice :
      (id : ℕ) (r r' : Trial) (paid : Table (Unit {0})) (s : Session W)
      → has id s.closed_streams ≡ true
      → ((j : ℕ) → (id == j) ≡ false → has j r'.live ≡ has j r.live)
      → ((j : ℕ) → (id == j) ≡ false → has j r'.closed ≡ has j r.closed)
      → gone id before r' ≡ true
      → ((j : ℕ) → Agrees before r paid s j)
      → (j : ℕ) → Agrees before r' (delete id paid) s j
  buried_twice id r r' paid s e l k g a =
      Agrees-moves id before r r' paid (delete id paid) s s
        (record {
          streams = λ j x. refl;
          tombs = λ j x. refl;
          live = l;
          closed = k;
          paid_for = λ j x. has-delete_ne j id paid x;
        })
        (rw
          (
            buried (has id s.streams) (has id s.closed_streams) (has id r.live) (gone id before r)
                (has id paid) (a id) e,
            e,
            g,
          )
          (closed-agrees (has id r'.live) (has id (delete id paid))))
        a

  pub closes-Goes :
      (f : Frame) (charge : Charge) (leaving : ℕ) (r r' : Trial) (paid : Table (Unit {0}))
      (b : Batch W)
      → (gone f.stream_id before r ≡ true) ⊎ (has f.stream_id r.live ≡ true)
      → ((j : ℕ) → (f.stream_id == j) ≡ false → has j r'.live ≡ has j r.live)
      → ((j : ℕ) → (f.stream_id == j) ≡ false → has j r'.closed ≡ has j r.closed)
      → gone f.stream_id before r' ≡ true
      → Tracks laws before (plus_charge no_charge charge) (1 + leaving) r paid b
      → Returns
          (apply_frame closes f b)
          (Goes laws before charge leaving r' (delete f.stream_id paid))
  unfolding apply_frame
  closes-Goes f charge leaving r r' paid b there l k g v =
      elim (Bool-cases (has f.stream_id b.session.closed_streams)) [
        | inl e ↦
            rw (e, Returns)
              (
                v.sound,
                λ a.
                    skip laws before no_charge charge 1 leaving r r' paid (delete f.stream_id paid)
                      b (buried_twice f.stream_id r r' paid b.session e l k g v.tracked) v,
              )
        | inr e ↦
            let q =
              stream_of laws before f.stream_id r paid b.session (v.tracked f.stream_id) there e in
            rw (e, q.1, Returns) (leave e q.0 q.1)
      ]
    where
      leave :
          has f.stream_id b.session.closed_streams ≡ false
          → (t : StreamState) → lookup f.stream_id b.session.streams ≡ some t
          → Returns
              (retired f.stream_id t b)
              (Goes laws before charge leaving r' (delete f.stream_id paid))
      leave e t y =
          Returns-bind (λ s. IsSound laws b.cost b.items s × Retired f.stream_id b.session s)
            (Goes laws before charge leaving r' (delete f.stream_id paid))
            (retire_stream f.stream_id t b.session)
            (λ s. some (record b { session = s; closed = b.closed ++ (t.backend ∷ []) }))
            (Returns-Every (IsSound laws b.cost b.items) (Retired f.stream_id b.session)
              (retire_stream f.stream_id t b.session)
              (retire_stream-IsSound laws b.cost b.items f.stream_id t b.session y v.sound)
              (retire_stream-Retired f.stream_id t b.session e (omega (arith, v.room))))
            (λ s d. (
              d.0,
              λ a. record {
                sound = d.0;
                tracked =
                    departed laws before f.stream_id r r' paid b.session s d.1 v.once l k g
                      v.tracked;
                once =
                    subst Unique (sym d.1.streams)
                      (Unique-delete f.stream_id b.session.streams v.once);
                cost_funded = omega (arith, v.cost_funded);
                items_funded = omega (arith, v.items_funded);
                room = omega (
                  arith,
                  v.room,
                  d.1.longer,
                  ap (λ (m : Limits). m.max_closed_stream_ids) d.1.limits,
                );
              },
            ))

  pub admit-Stays :
      (c i : ℕ) (s : Session W) → IsSound laws c i s → Stays laws c i s (admit_stream s)
  unfolding admit_stream
  admit-Stays c i s v = elim (Bool-cases (leb s.limits.max_streams_per_session (size s.streams))) [
    | inl e ↦ rw e (v, SameTables-refl s)
    | inr e ↦ rw e (
      record {
        accounted = record {
          cost_exact = v.accounted.cost_exact;
          items_exact = v.accounted.items_exact;
          held = laws.acquire_holds s.pending_cost s.pending_items s.world v.accounted.held;
        };
        main_queue = v.main_queue;
        lane_queues = v.lane_queues;
        numbers_fit = v.numbers_fit;
        ring = v.ring;
      },
      record {
        same_streams = refl;
        same_tombs = refl;
        same_order = refl;
        same_start = refl;
        same_limits = refl;
      },
    )
  ]
