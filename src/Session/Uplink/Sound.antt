-- ===== src/Session/Uplink/Sound.antt =====
-- session.go: the reservation, the application and the settlement of an upload keep the invariant.
use tproxy_server.Base.{
  ℕ, ap, sym, ◌∙◌, ◌+◌, ◌≤◌, ◌≡◌, subst, Bool, true, false, ◌&&◌, Option, none, some, List, [], All,
  arith, ◌==◌, length, Bool-cases, inl, inr, Returns, Returns-bind, Returns-Every, Returns-if,
  ◌>>=◌,
}
use tproxy_server.Base.Table.{Table}
use tproxy_server.Base.Table.{Table}
use tproxy_server.Frame.{Frame, max_stream_id}
use tproxy_server.Session.{Session, Hooks, SessionError, uplink, closed}
use tproxy_server.Session.Laws.{HookLaws, added}
use tproxy_server.Session.Invariant.{
  IsSound, IsSound-ap, SameParts, SameParts-refl, IsSound-moves, release-IsSound, reserve-SameParts,
}
use tproxy_server.Session.Charges.{reserve-Accounted}
use tproxy_server.Session.Closing.{close_locked-IsSound, close_backends-IsSound}
use tproxy_server.Session.Tables.{SameTables-parts}
use tproxy_server.Session.Tidy.{
  IsTidy, IsReady, same-IsTidy, close_backends-SameTables, close_locked-is_closed,
}
use tproxy_server.Session.Budget.{reserve_pending, release_pending}
use tproxy_server.Session.Close.{close_backends, close, close_locked}
use tproxy_server.Session.Apply.{
  Charge, reservation, keys_of, snapshots, try_batch, validate_batch, backend_write_reservation,
}
use tproxy_server.Session.Batch.{Batch, apply_batch}
use tproxy_server.Session.Batch.Sound.{departures, Whole, apply_batch-Whole}
use tproxy_server.Session.Uplink.{
  Replied, accepted, answer, failing, settle, deliver, reserve_upload, pay,
}

module _ {W : Type 0} ⦃h : Hooks W⦄ (laws : HookLaws W h) where
  abbrev pub Ready : Replied W → Type 0
  Ready r = IsReady laws r.session

  -- A failure that closes the session.
  pub closing-Ready :
      (e : SessionError) (s : Session W)
      → IsSound laws 0 0 s
      → Returns (failing e (close_locked s)) Ready
  closing-Ready e s v = go (close_locked s) (
      Returns-Every (IsSound laws 0 0) (λ t. t.is_closed ≡ true) (close_locked s)
        (close_locked-IsSound laws s v) (close_locked-is_closed s))
    where
      go :
          (o : Option (Session W))
          → Returns o (λ t. IsSound laws 0 0 t × (t.is_closed ≡ true))
          → Returns (failing e o) Ready
      go none x = absurd x
      go (some t) x = record { sound = x.0; tidy = λ y. cc (x.1, y) }

  running-IsSound :
      (n : ℕ) (s : Session W) → IsSound laws 0 0 s → IsSound laws 0 0 (record s { running = n })
  running-IsSound n s v = record {
    accounted = record {
      cost_exact = v.accounted.cost_exact;
      items_exact = v.accounted.items_exact;
      held = v.accounted.held;
    };
    main_queue = v.main_queue;
    lane_queues = v.lane_queues;
    numbers_fit = v.numbers_fit;
    ring = v.ring;
  }

  up-IsSound :
      (n : ℕ) (s : Session W)
      → IsSound laws 0 0 s
      → IsSound laws 0 0 (record s { world = h.on_up n s.world })
  up-IsSound n s v = record {
    accounted = record {
      cost_exact = v.accounted.cost_exact;
      items_exact = v.accounted.items_exact;
      held = laws.up_holds n s.pending_cost s.pending_items s.world v.accounted.held;
    };
    main_queue = v.main_queue;
    lane_queues = v.lane_queues;
    numbers_fit = v.numbers_fit;
    ring = v.ring;
  }

  -- `record_upload` writes into a lane, and keeps the invariant.
  module _ (sequence : ℕ) (body : List ℕ) (record_upload : Session W → Session W)
      (recording : (t : Session W) → IsReady laws t → IsReady laws (record_upload t)) where
    accepted-Ready :
        (t : Session W)
        → IsReady laws t
        → IsReady laws
            (record (record_upload t) { world = h.on_up (length body) (record_upload t).world })
    accepted-Ready t v = record {
      sound = up-IsSound (length body) (record_upload t) (recording t v).sound;
      tidy = (recording t v).tidy;
    }

    settle-Ready :
        (before : Table (Unit {0})) (b : Batch W)
        → Whole laws before b
        → Returns (settle sequence body record_upload b) Ready
    unfolding settle
    settle-Ready before b v =
        Returns-bind (λ t. IsSound laws 0 0 t × SameParts b.session t) Ready
          (release_pending b.cost b.items b.session) _
          (release-IsSound laws 0 0 b.cost b.items b.session (
            IsSound-ap laws b.cost b.items (0 + b.cost) (0 + b.items) b.session (omega arith)
              (omega arith) v.0))
          (λ t x.
            (let u = started t in
              Returns-if Ready b.applied
                (answer (accepted sequence) (record (record_upload u) {
                  world = h.on_up (length body) (record_upload u).world;
                }))
                (failing closed (close u))
                (λ e. accepted-Ready u (record {
                  sound = whole t x.0;
                  tidy = λ y.
                      same-IsTidy (running t) u (close_backends-SameTables b.closed (running t))
                        (same-IsTidy b.session t (SameTables-parts b.session t x.1) (v.1 e));
                }))
                (λ e. closing-Ready closed u (whole t x.0))))
      where
        running : Session W → Session W
        running t = record t { running = t.running + length b.opened }

        started : Session W → Session W
        started t = close_backends b.closed (running t)

        whole : (t : Session W) → IsSound laws 0 0 t → IsSound laws 0 0 (started t)
        whole t x =
            close_backends-IsSound laws 0 0 b.closed (running t)
              (running-IsSound (t.running + length b.opened) t x)

    reserved-IsSound :
        (c : Charge) (s : Session W)
        → IsSound laws 0 0 s
        → let r = reserve_upload c s in
          IsSound laws (added r.0 c.cost 0) (added r.0 c.items 0) r.1 × SameParts s r.1
    reserved-IsSound c s v = elim (Bool-cases ((c.cost == 0) && (c.items == 0))) [
      | inl e ↦
          rw (e, reserve_upload)
            (
              IsSound-ap laws 0 0 (0 + c.cost) (0 + c.items) s (ground (arith, e))
                  (ground (arith, e)) v,
              SameParts-refl s,
            )
      | inr e ↦
          rw (e, reserve_upload)
            (
              IsSound-moves laws 0 0 (added (reserve_pending c.cost c.items uplink s).0 c.cost 0)
                  (added (reserve_pending c.cost c.items uplink s).0 c.items 0) s
                  (reserve_pending c.cost c.items uplink s).1 v
                  (reserve-SameParts c.cost c.items uplink s)
                  (reserve-Accounted laws 0 0 c.cost c.items uplink s v.accounted),
              reserve-SameParts c.cost c.items uplink s,
            )
    ]

    -- The batch is applied to a session that differs from the validated one in its budget.
    paid-Ready :
        (frames : List Frame) (s t : Session W)
        → All (λ f. f.stream_id ≤ max_stream_id) frames
        → validate_batch frames s ≡ true
        → length s.closed_order + departures frames ≤ s.limits.max_closed_stream_ids
        → IsTidy s.streams s.closed_streams
        → SameParts s t
        → IsSound laws
            (backend_write_reservation frames s).cost
            (backend_write_reservation frames s).items
            t
        → Returns
            (apply_batch frames (backend_write_reservation frames s) t
              >>= settle sequence body record_upload)
            Ready
    unfolding validate_batch backend_write_reservation
    paid-Ready frames s t fits e room tidy p v =
        let same : backend_write_reservation frames s ≡ backend_write_reservation frames t =
          ap (λ m. reservation frames (keys_of m)) (sym p.same_streams) in
        Returns-bind (Whole laws t.closed_streams) Ready
          (apply_batch frames (backend_write_reservation frames s) t)
          (settle sequence body record_upload)
          (subst (λ c. Returns (apply_batch frames c t) (Whole laws t.closed_streams)) (sym same)
            (apply_batch-Whole laws frames t fits
              (ap
                  (λ m.
                    try_batch t.closed_streams frames (record { live = snapshots m; closed = [] }))
                  p.same_streams
                ∙ ap (λ m. try_batch m frames (record { live = snapshots s.streams; closed = [] }))
                    p.same_tombs
                ∙ e)
              (omega (
                arith,
                room,
                ap length p.same_order,
                ap (λ l. l.max_closed_stream_ids) p.same_limits,
              ))
              (same-IsTidy s t (SameTables-parts s t p) tidy)
              (subst (λ c. IsSound laws c.cost c.items t) same v)))
          (λ b w. settle-Ready t.closed_streams b w)

    pub deliver-Ready :
        (frames : List Frame) (s : Session W)
        → All (λ f. f.stream_id ≤ max_stream_id) frames
        → validate_batch frames s ≡ true
        → length s.closed_order + departures frames ≤ s.limits.max_closed_stream_ids
        → IsTidy s.streams s.closed_streams
        → IsSound laws 0 0 s
        → Returns (deliver sequence body frames record_upload s) Ready
    unfolding deliver
    deliver-Ready frames s fits e room tidy v =
        go (reserve_upload (backend_write_reservation frames s) s)
          (reserved-IsSound (backend_write_reservation frames s) s v)
      where
        go :
            (r : Bool × Session W)
            → IsSound laws
                (added r.0 (backend_write_reservation frames s).cost 0)
                (added r.0 (backend_write_reservation frames s).items 0)
                r.1
              × SameParts s r.1
            → Returns
                (pay sequence body frames (backend_write_reservation frames s) record_upload r)
                Ready
        go (false, t) x = record {
          sound = x.0;
          tidy = λ y. same-IsTidy s t (SameTables-parts s t x.1) tidy;
        }
        go (true, t) x = paid-Ready frames s t fits e room tidy x.1 (
            IsSound-ap laws (0 + (backend_write_reservation frames s).cost)
              (0 + (backend_write_reservation frames s).items)
              (backend_write_reservation frames s).cost (backend_write_reservation frames s).items t
              (omega arith) (omega arith) x.0)
