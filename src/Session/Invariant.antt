-- ===== src/Session/Invariant.antt =====
-- What holds of a session whenever its lock is free: the accounting is exact, the queues are well
-- formed, the stream numbers fit 24 bits and the ring of tombstones stays in its slice.
use tproxy_server.Base.{
  ℕ, ◌+◌, ◌≤◌, ◌<◌, ◌≡◌, refl, sym, subst, Bool, true, false, All, length, arith, some, inl, inr,
  Bool-cases, Returns, Returns-map, Returns-with,
}
use tproxy_server.Base.Table.{number_key}
use tproxy_server.Frame.{header_size, max_stream_id}
use tproxy_server.Session.{Session, Hooks, Lane, PendingClass}
use tproxy_server.Session.Laws.{HookLaws, Accounted}
use tproxy_server.Session.Charges.{release-Accounted}
use tproxy_server.Session.Budget.{reserve_pending, release_pending, fits, charge, class_limits}
use tproxy_server.Session.Queue.Windows.{Indexed}
use tproxy_server.Session.Queue.Departures.{Distinct}

-- A queue: its index of WINDOW frames is right, and every frame has its header.
pub record IsQueue (l : Lane) : Type 0 where
  pub indexed : Indexed l.pending_frames l.pending_windows
  pub distinct : Distinct l.pending_windows
  pub long : All (λ q. header_size ≤ length q.encoded) l.pending_frames
  -- Nothing is charged for a batch that is not there, and a poll waits only where none is.
  pub free : length l.unacked ≡ 0 → (l.unacked_cost ≡ 0) × (l.unacked_items ≡ 0)
  pub idle : (id : ℕ) → l.superseded ≡ some id → length l.unacked ≡ 0

-- The ring fills up to its limit, and then `closed_start` goes round.
pub record IsRing (limit size start : ℕ) : Type 0 where
  pub positive : 0 < limit
  pub within : size ≤ limit
  pub at_start : size < limit → start ≡ 0
  pub inside : start < limit

pub record IsSound {W : Type 0} {h : Hooks W} (laws : HookLaws W h) (rc ri : ℕ) (s : Session W)
    : Type 0 where
  pub accounted : Accounted laws rc ri s
  pub main_queue : IsQueue s.main
  pub lane_queues : All (λ p. IsQueue p.1) s.lanes
  pub numbers_fit : All (λ p. p.0 ≤ max_stream_id) s.streams
  pub ring : IsRing s.limits.max_closed_stream_ids (length s.closed_order) s.closed_start

-- What a change of the budget leaves alone: all of a session but the pending cost and items, the
-- notification of room and the shared budget.
pub record SameParts {W : Type 0} (s t : Session W) : Type 0 where
  pub same_limits : t.limits ≡ s.limits
  pub same_carrier : t.carrier ≡ s.carrier
  pub same_streams : t.streams ≡ s.streams
  pub same_main : t.main ≡ s.main
  pub same_lanes : t.lanes ≡ s.lanes
  pub same_tombs : t.closed_streams ≡ s.closed_streams
  pub same_order : t.closed_order ≡ s.closed_order
  pub same_start : t.closed_start ≡ s.closed_start
  pub same_closed : t.is_closed ≡ s.is_closed
  pub same_activity : t.last_activity ≡ s.last_activity
  pub same_next_poll : t.next_poll ≡ s.next_poll
  pub same_next_backend : t.next_backend ≡ s.next_backend
  pub same_cancelled : t.cancelled ≡ s.cancelled
  pub same_running : t.running ≡ s.running
  pub same_finish : t.finish_started ≡ s.finish_started

module _ {W : Type 0} where
  pub SameParts-refl : (s : Session W) → SameParts s s
  SameParts-refl s = record {
    same_limits = refl;
    same_carrier = refl;
    same_streams = refl;
    same_main = refl;
    same_lanes = refl;
    same_tombs = refl;
    same_order = refl;
    same_start = refl;
    same_closed = refl;
    same_activity = refl;
    same_next_poll = refl;
    same_next_backend = refl;
    same_cancelled = refl;
    same_running = refl;
    same_finish = refl;
  }

module _ {W : Type 0} ⦃h : Hooks W⦄ where
  charge-SameParts : (c i : ℕ) (s : Session W) (r : Bool × W) → SameParts s (charge c i s r).1
  charge-SameParts c i s (true, w) = record {
    same_limits = refl;
    same_carrier = refl;
    same_streams = refl;
    same_main = refl;
    same_lanes = refl;
    same_tombs = refl;
    same_order = refl;
    same_start = refl;
    same_closed = refl;
    same_activity = refl;
    same_next_poll = refl;
    same_next_backend = refl;
    same_cancelled = refl;
    same_running = refl;
    same_finish = refl;
  }
  charge-SameParts c i s (false, w) = record {
    same_limits = refl;
    same_carrier = refl;
    same_streams = refl;
    same_main = refl;
    same_lanes = refl;
    same_tombs = refl;
    same_order = refl;
    same_start = refl;
    same_closed = refl;
    same_activity = refl;
    same_next_poll = refl;
    same_next_backend = refl;
    same_cancelled = refl;
    same_running = refl;
    same_finish = refl;
  }

  pub reserve-SameParts :
      (c i : ℕ) (k : PendingClass) (s : Session W) → SameParts s (reserve_pending c i k s).1
  unfolding reserve_pending
  reserve-SameParts c i k s = elim (Bool-cases (fits c i (class_limits k s.limits) s)) [
    | inl e ↦ rw e (charge-SameParts c i s (h.take c i k s.world))
    | inr e ↦ rw e (SameParts-refl s)
  ]

  pub released-SameParts :
      (c i : ℕ) (s t : Session W) → release_pending c i s ≡ some t → SameParts s t
  unfolding release_pending
  released-SameParts c i s t e = ground arith

module _ {W : Type 0} ⦃h : Hooks W⦄ (laws : HookLaws W h) where
  -- The invariant goes along with a change of the budget.
  pub IsSound-moves :
      (a b rc ri : ℕ) (s t : Session W)
      → IsSound laws a b s
      → SameParts s t
      → Accounted laws rc ri t
      → IsSound laws rc ri t
  IsSound-moves a b rc ri s t v p x = record {
    accounted = x;
    main_queue = subst IsQueue (sym p.same_main) v.main_queue;
    lane_queues = subst (All (λ q. IsQueue q.1)) (sym p.same_lanes) v.lane_queues;
    numbers_fit = subst (All (λ q. q.0 ≤ max_stream_id)) (sym p.same_streams) v.numbers_fit;
    ring =
        subst (λ l. IsRing l.max_closed_stream_ids (length t.closed_order) t.closed_start)
          (sym p.same_limits)
          (subst (λ o. IsRing s.limits.max_closed_stream_ids (length o) t.closed_start)
            (sym p.same_order)
            (subst (IsRing s.limits.max_closed_stream_ids (length s.closed_order))
              (sym p.same_start) v.ring));
  }

  -- The same amount in hand, written otherwise.
  pub IsSound-ap :
      (a b rc ri : ℕ) (s : Session W) → a ≡ rc → b ≡ ri → IsSound laws a b s → IsSound laws rc ri s
  IsSound-ap a b rc ri s e f v =
      subst (λ n. IsSound laws n ri s) e (subst (λ n. IsSound laws a n s) f v)

  -- Giving back what is in hand does not panic, keeps the invariant and leaves everything but
  -- the budget alone.
  pub release-IsSound :
      (rc ri c i : ℕ) (s : Session W)
      → IsSound laws (rc + c) (ri + i) s
      → Returns (release_pending c i s) (λ t. IsSound laws rc ri t × SameParts s t)
  release-IsSound rc ri c i s v =
      Returns-map (λ t. Accounted laws rc ri t × SameParts s t)
        (λ t. IsSound laws rc ri t × SameParts s t) (release_pending c i s)
        (λ t x. (IsSound-moves (rc + c) (ri + i) rc ri s t v x.1 x.0, x.1))
        (Returns-with (Accounted laws rc ri) (SameParts s) (release_pending c i s)
          (release-Accounted laws rc ri c i s v.accounted) (released-SameParts c i s))
