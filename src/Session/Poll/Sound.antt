-- ===== src/Session/Poll/Sound.antt =====
-- Poll, from its entry through any number of waits, keeps the invariant and never panics.
use tproxy_server.Base.{
  ℕ, suc, ◌+◌, ◌≡◌, refl, ap, Bool, true, false, not, Option, none, some, arith, if◌then◌else◌,
  length, Returns, Returns-if, Returns-map,
}
use tproxy_server.Session.{Session, Hooks, Lane, lane_cost, lane_items}
use tproxy_server.Session.Laws.{HookLaws}
use tproxy_server.Session.Invariant.{IsSound, IsQueue, SameParts, release-IsSound}
use tproxy_server.Session.Moves.{main-IsSound}
use tproxy_server.Session.Closing.{close_locked-IsSound}
use tproxy_server.Session.Close.{protocol_failure}
use tproxy_server.Session.Budget.{release_pending}
use tproxy_server.Session.Queue.{take_down_batch, uses_carrier_lanes}
use tproxy_server.Session.Poll.{
  Polled, Wake, dropped, taken_over, session_done, deadline, signalled, Entry, replays, goes_on,
  acknowledges, breaks, enter, poll, poll_wake, poll_loop, park, unparked, acked, delivered,
  is_mine, is_empty, if_mine, signalled_lane, deliver_main, enter_main, parking, failing,
}
use tproxy_server.Session.Poll.Lanes.{
  unparked-IsQueue, notify-IsQueue, if_mine-IsQueue, if_mine-cost, if_mine-items, acked-cost,
  acked-items, acked-IsQueue, parked-IsQueue, mine-free, delivered-IsQueue, delivered-cost,
  delivered-items,
}

module _ {W : Type 0} ⦃h : Hooks W⦄ (laws : HookLaws W h) where
  -- What is neither charged nor queued may change.
  pub down-IsSound :
      (n : ℕ) (s : Session W)
      → IsSound laws 0 0 s
      → IsSound laws 0 0 (record s { world = h.on_down n s.world })
  down-IsSound n s v = record {
    accounted = record {
      cost_exact = v.accounted.cost_exact;
      items_exact = v.accounted.items_exact;
      held = laws.down_holds n s.pending_cost s.pending_items s.world v.accounted.held;
    };
    main_queue = v.main_queue;
    lane_queues = v.lane_queues;
    numbers_fit = v.numbers_fit;
    ring = v.ring;
  }

  pub active-IsSound :
      (now next : ℕ) (s : Session W)
      → IsSound laws 0 0 s
      → IsSound laws 0 0 (record s { last_activity = now; next_poll = next })
  active-IsSound now next s v = record {
    accounted = record {
      cost_exact = v.accounted.cost_exact;
      items_exact = v.accounted.items_exact;
      held = v.accounted.held;
    };
    main_queue = v.main_queue;
    lane_queues = v.lane_queues;
    numbers_fit = v.numbers_fit;
    ring = v.ring;
  }

  abbrev Fine : Polled W → Type 0
  Fine p = IsSound laws 0 0 p.session

  same_charges :
      (l : Lane) (s : Session W)
      → lane_cost l ≡ lane_cost s.main
      → lane_items l ≡ lane_items s.main
      → IsQueue l
      → IsSound laws 0 0 s
      → IsSound laws 0 0 (record s { main = l })
  same_charges l s c i q v = main-IsSound laws 0 0 0 0 s l (omega (arith, c)) (omega (arith, i)) q v

  Fine-if :
      (b : Bool) (m n : Polled W)
      → (b ≡ true → Fine m)
      → (b ≡ false → Fine n)
      → Fine (if b then m else n)
  Fine-if true m n f g = f refl
  Fine-if false m n f g = g refl

  poll_loop-Fine :
      (mine cursor : ℕ) (s : Session W) → IsSound laws 0 0 s → Fine (poll_loop mine cursor s)
  unfolding poll_loop
  poll_loop-Fine mine cursor s v =
      Fine-if (not (is_mine mine s.main.superseded)) _ _ (λ e. v)
        (λ e.
          Fine-if (not (is_empty s.main.pending_frames)) _ _
            (λ x. deliver (ground (arith, e)) (ground (arith, x)))
            (λ x.
              Fine-if s.is_closed _ _
                (λ c.
                  same_charges (unparked s.main) s refl refl (unparked-IsQueue s.main v.main_queue)
                    v)
                (λ c. v)))
    where
      limit : ℕ
      limit = s.limits.carrier_batch_bytes

      deliver :
          is_mine mine s.main.superseded ≡ true
          → is_empty s.main.pending_frames ≡ false
          → Fine (deliver_main cursor s (take_down_batch limit s.main))
      deliver m e =
          let f = mine-free mine s.main m v.main_queue in
          down-IsSound (length (take_down_batch limit s.main).0.body) _ (
            same_charges
              (delivered cursor (take_down_batch limit s.main).0 (take_down_batch limit s.main).1) s
              (delivered-cost limit cursor s.main f.0) (delivered-items limit cursor s.main f.1)
              (delivered-IsQueue limit cursor s.main e v.main_queue) v)

  abbrev Kept : Option (Polled W) → Type 0
  Kept o = Returns o Fine

  park-Kept :
      (cursor : ℕ) (s : Session W)
      → length s.main.unacked ≡ 0
      → IsSound laws 0 0 s
      → Fine (park cursor s)
  unfolding park
  park-Kept cursor s e v = poll_loop-Fine s.next_poll cursor _ (
      same_charges (record s.main { superseded = some s.next_poll; down_active = true })
        (record s { next_poll = suc s.next_poll }) refl refl
        (parked-IsQueue s.main s.next_poll e v.main_queue)
        (active-IsSound s.last_activity (suc s.next_poll) s v))

  parking-Kept :
      (cursor : ℕ) (o : Option (Session W))
      → Returns o (λ s. (length s.main.unacked ≡ 0) × IsSound laws 0 0 s)
      → Kept (parking cursor o)
  parking-Kept cursor none r = absurd r
  parking-Kept cursor (some s) (e, v) = park-Kept cursor s e v

  failing-Kept : (o : Option (Session W)) → Returns o (IsSound laws 0 0) → Kept (failing o)
  failing-Kept none r = absurd r
  failing-Kept (some s) v = v

  -- The acknowledged batch is given back, and its lane has nothing left to acknowledge.
  acknowledge-Returns :
      (s : Session W)
      → IsSound laws 0 0 s
      → Returns
          (release_pending s.main.unacked_cost s.main.unacked_items
            (record s { main = acked s.main }))
          (λ t. (length t.main.unacked ≡ 0) × IsSound laws 0 0 t)
  acknowledge-Returns s v =
      Returns-map (λ t. IsSound laws 0 0 t × SameParts (record s { main = acked s.main }) t)
        (λ t. (length t.main.unacked ≡ 0) × IsSound laws 0 0 t)
        (release_pending s.main.unacked_cost s.main.unacked_items
          (record s { main = acked s.main }))
        (λ t k. (ap (λ m. length m.unacked) k.1.same_main, k.0))
        (release-IsSound laws 0 0 s.main.unacked_cost s.main.unacked_items
          (record s { main = acked s.main })
          (main-IsSound laws 0 0 (0 + s.main.unacked_cost) (0 + s.main.unacked_items) s
            (acked s.main) (acked-cost s.main) (acked-items s.main)
            (acked-IsQueue s.main v.main_queue) v))

  enter_main-Kept :
      (cursor : ℕ) (s : Session W) (x : Entry)
      → enter cursor s.main ≡ x
      → IsSound laws 0 0 s
      → Kept (enter_main cursor s x)
  unfolding enter
  enter_main-Kept cursor s replays e v = v
  enter_main-Kept cursor s goes_on e v = park-Kept cursor s (ground (arith, e)) v
  enter_main-Kept cursor s acknowledges e v = parking-Kept cursor _ (acknowledge-Returns s v)
  enter_main-Kept cursor s breaks e v =
      failing-Kept (protocol_failure s) (close_locked-IsSound laws s v)

  -- A call of Poll on a session whose invariant holds does not panic, and the invariant holds
  -- when it returns or parks, whatever its cursor.
  pub poll-IsSound :
      (now cursor : ℕ) (s : Session W)
      → IsSound laws 0 0 s
      → Returns (poll now cursor s) (λ p. IsSound laws 0 0 p.session)
  unfolding poll
  poll-IsSound now cursor s v =
      Returns-if Fine (uses_carrier_lanes s.carrier) _ _ (λ c. v)
        (λ c.
          Returns-if Fine s.is_closed _ _ (λ c. v)
            (λ c.
              enter_main-Kept cursor (record s { last_activity = now }) (enter cursor s.main) refl
                (active-IsSound now s.next_poll s v)))

  -- A parked poll that wakes, for whatever reason and whatever its number, keeps the invariant.
  pub poll_wake-IsSound :
      (w : Wake) (now mine cursor : ℕ) (s : Session W)
      → IsSound laws 0 0 s
      → IsSound laws 0 0 (poll_wake w now mine cursor s).session
  unfolding poll_wake
  poll_wake-IsSound dropped now mine cursor s v =
      main-IsSound laws 0 0 0 0 s (if_mine mine s.main) (if_mine-cost mine s.main)
        (if_mine-items mine s.main) (if_mine-IsQueue mine s.main v.main_queue) v
  poll_wake-IsSound taken_over now mine cursor s v =
      same_charges (signalled_lane s.main) s refl refl (notify-IsQueue s.main true v.main_queue) v
  poll_wake-IsSound session_done now mine cursor s v = v
  poll_wake-IsSound deadline now mine cursor s v =
      Fine-if (not (is_mine mine s.main.superseded)) _ _
        (λ e.
          same_charges (signalled_lane s.main) s refl refl (notify-IsQueue s.main true v.main_queue)
            v)
        (λ e.
          Fine-if (not (is_empty s.main.pending_frames)) _ _ (λ x. poll_loop-Fine mine cursor s v)
            (λ x.
              same_charges (unparked s.main) (record s { last_activity = now }) refl refl
                (unparked-IsQueue s.main v.main_queue) (active-IsSound now s.next_poll s v)))
  poll_wake-IsSound signalled now mine cursor s v = poll_loop-Fine mine cursor _ (
      same_charges (record s.main { notify = not (is_mine mine s.main.superseded) }) s refl refl
        (notify-IsQueue s.main (not (is_mine mine s.main.superseded)) v.main_queue) v)
