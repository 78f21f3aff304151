-- ===== src/Session/Queueing.antt =====
-- The invariant over queueFrameLocked, the tombstones, the release of lanes and streams, and the
-- close.
use tproxy_server.Base.{
  ℕ, ◌+◌, ◌≤◌, ◌≡◌, ap, ◌∙◌, Option, none, some, List, arith, Bool-cases, Option-cases, inl, inr,
  Returns, Returns-map, Bool,
}
use tproxy_server.Base.Table.{number_key, lookup, value_or}
use tproxy_server.Frame.{max_stream_id}
use tproxy_server.Session.{Session, Hooks, Lane, lane_cost, lane_items}
use tproxy_server.Session.Laws.{HookLaws}
use tproxy_server.Session.Invariant.{IsSound, IsSound-moves}
use tproxy_server.Session.Moves.{main-IsSound, lane-IsSound, lane_at}
use tproxy_server.Session.Tables.{SameTables, SameTables-refl}
use tproxy_server.Session.Queue.{
  Queued, queue_on, queue_frame, queue_lane_frame, into_main, into_lane, uses_carrier_lanes,
}
use tproxy_server.Session.Queue.Growth.{Grown, HasShape, IsWritable, queue_on-Grown}

module _ {W : Type 0} ⦃h : Hooks W⦄ (laws : HookLaws W h) where
  -- The invariant, and the tables as they were.
  abbrev pub Stays : ℕ → ℕ → Session W → Bool × Session W → Type 0
  Stays rc ri s r = IsSound laws rc ri r.1 × SameTables s r.1

  queued-IsSound :
      (rc ri : ℕ) (s : Session W) (lane : Lane) (q : Queued W)
      → IsSound laws rc ri s
      → (g : Grown laws rc ri s lane q) → IsSound laws (rc + g.cost) (ri + g.items) q.session
  queued-IsSound rc ri s lane q v g =
      IsSound-moves laws rc ri (rc + g.cost) (ri + g.items) s q.session v g.parts g.accounted

  into_main-IsSound :
      (rc ri : ℕ) (s : Session W) (o : Option (Queued W))
      → IsSound laws rc ri s
      → Returns o (Grown laws rc ri s s.main)
      → Returns (into_main o) (Stays rc ri s)
  into_main-IsSound rc ri s none v r = absurd r
  into_main-IsSound rc ri s (some q) v g = (
    main-IsSound laws (rc + g.cost) (ri + g.items) rc ri q.session q.lane
        (omega (arith, g.cost_grown, ap lane_cost g.parts.same_main))
        (omega (arith, g.items_grown, ap lane_items g.parts.same_main)) g.queue
        (queued-IsSound rc ri s s.main q v g),
    record {
      same_streams = g.parts.same_streams;
      same_tombs = g.parts.same_tombs;
      same_order = g.parts.same_order;
      same_start = g.parts.same_start;
      same_limits = g.parts.same_limits;
    },
  )

  into_lane-IsSound :
      (rc ri id : ℕ) (s : Session W) (lane : Lane) (o : Option (Queued W))
      → lookup id s.lanes ≡ some lane
      → IsSound laws rc ri s
      → Returns o (Grown laws rc ri s lane)
      → Returns (into_lane id o) (Stays rc ri s)
  into_lane-IsSound rc ri id s lane none e v r = absurd r
  into_lane-IsSound rc ri id s lane (some q) e v g = (
    lane-IsSound laws (rc + g.cost) (ri + g.items) rc ri q.session id q.lane
        (omega (arith, g.cost_grown, ap (value_or lane_cost) there))
        (omega (arith, g.items_grown, ap (value_or lane_items) there)) g.queue
        (queued-IsSound rc ri s lane q v g),
    record {
      same_streams = g.parts.same_streams;
      same_tombs = g.parts.same_tombs;
      same_order = g.parts.same_order;
      same_start = g.parts.same_start;
      same_limits = g.parts.same_limits;
    },
  )
    where
      there : lookup id q.session.lanes ≡ some lane
      there = ap (lookup id) g.parts.same_lanes ∙ e

  queue_lane_frame-IsSound :
      (rc ri t id : ℕ) (payload : List ℕ) (s : Session W)
      → id ≤ max_stream_id
      → IsWritable t s
      → HasShape t payload
      → IsSound laws rc ri s
      → Returns (queue_lane_frame t id payload s) (Stays rc ri s)
  unfolding queue_lane_frame
  queue_lane_frame-IsSound rc ri t id payload s fits made shape v =
      elim (Option-cases (lookup id s.lanes)) [
        | inl e ↦ rw (e, queue_lane_frame, Returns) (v, SameTables-refl s)
        | inr (lane, e) ↦
            rw (e, queue_lane_frame, Returns)
              (into_lane-IsSound rc ri id s lane (queue_on t id payload s lane) e v (
                queue_on-Grown laws rc ri t id payload s lane fits made shape
                  (lane_at id lane s.lanes e v.lane_queues) v.accounted))
      ]

  pub queue_frame-Stays :
      (rc ri t id : ℕ) (payload : List ℕ) (s : Session W)
      → id ≤ max_stream_id
      → IsWritable t s
      → HasShape t payload
      → IsSound laws rc ri s
      → Returns (queue_frame t id payload s) (Stays rc ri s)
  unfolding queue_frame
  queue_frame-Stays rc ri t id payload s fits made shape v =
      elim (Bool-cases (uses_carrier_lanes s.carrier)) [
        | inl e ↦ rw (e, Returns) (queue_lane_frame-IsSound rc ri t id payload s fits made shape v)
        | inr e ↦
            rw (e, Returns)
              (into_main-IsSound rc ri s (queue_on t id payload s s.main) v (
                queue_on-Grown laws rc ri t id payload s s.main fits made shape v.main_queue
                  v.accounted))
      ]

  -- Queueing a frame for a stream number of 24 bits, with the 4 bytes of an amount where it is
  -- a WINDOW, does not panic where it is none or the session is open, and keeps the invariant,
  -- accepted or not, on both kinds of carrier.
  pub queue_frame-IsSound :
      (rc ri t id : ℕ) (payload : List ℕ) (s : Session W)
      → id ≤ max_stream_id
      → IsWritable t s
      → HasShape t payload
      → IsSound laws rc ri s
      → Returns (queue_frame t id payload s) (λ r. IsSound laws rc ri r.1)
  queue_frame-IsSound rc ri t id payload s fits made shape v =
      Returns-map (Stays rc ri s) (λ r. IsSound laws rc ri r.1) (queue_frame t id payload s)
        (λ r k. k.0) (queue_frame-Stays rc ri t id payload s fits made shape v)
