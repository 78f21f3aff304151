-- ===== src/Session/Closing.antt =====
-- closeLocked gives back all that the session holds, and leaves nothing charged.
use tproxy_server.Base.{
  false, ℕ, ◌+◌, ◌≡◌, refl, subst, true, Option, some, List, [], ◌∷◌, All, arith, ◌==◌, Bool-cases,
  inl, inr, Returns, Returns-bind, Returns-if, ◌>>=◌, ◌&&◌,
}
use tproxy_server.Base.Table.{number_key, Table, sum}
use tproxy_server.Session.{Session, Hooks, Lane, lane_cost, lane_items}
use tproxy_server.Session.Laws.{HookLaws}
use tproxy_server.Session.Invariant.{IsSound, IsQueue}
use tproxy_server.Session.Close.{
  emptied, emptied_lanes, backends_of, close_backend, close_backends, close_locked, give_all,
}

emptied-free :
    (lanes : Table Lane)
    → (sum lane_cost (emptied_lanes lanes) ≡ 0) × (sum lane_items (emptied_lanes lanes) ≡ 0)
emptied-free [] = (refl, refl)
emptied-free ((id, lane) ∷ lanes) =
    (omega (arith, (emptied-free lanes).0), omega (arith, (emptied-free lanes).1))

emptied-IsQueue : (lane : Lane) → IsQueue (emptied lane)
emptied-IsQueue lane = record {
  indexed = tt;
  distinct = tt;
  long = tt;
  free = λ e. (refl, refl);
  idle = λ id e. refl;
}

emptied_lanes-IsQueue : (lanes : Table Lane) → All (λ p. IsQueue p.1) (emptied_lanes lanes)
emptied_lanes-IsQueue [] = tt
emptied_lanes-IsQueue ((id, lane) ∷ lanes) = (emptied-IsQueue lane, emptied_lanes-IsQueue lanes)

module _ {W : Type 0} ⦃h : Hooks W⦄ (laws : HookLaws W h) where
  pub close_backend-IsSound :
      (rc ri b : ℕ) (s : Session W) → IsSound laws rc ri s → IsSound laws rc ri (close_backend b s)
  close_backend-IsSound rc ri b s v = record {
    accounted = record {
      cost_exact = v.accounted.cost_exact;
      items_exact = v.accounted.items_exact;
      held = v.accounted.held;
    };
    main_queue = v.main_queue;
    lane_queues = v.lane_queues;
    numbers_fit = v.numbers_fit;
    ring = v.ring;
  }

  pub close_backends-IsSound :
      (rc ri : ℕ) (bs : List ℕ) (s : Session W)
      → IsSound laws rc ri s
      → IsSound laws rc ri (close_backends bs s)
  close_backends-IsSound rc ri [] s v = v
  close_backends-IsSound rc ri (b ∷ bs) s v =
      close_backends-IsSound rc ri bs (close_backend b s) (close_backend-IsSound rc ri b s v)

  give_all-Holds :
      (s : Session W)
      → laws.Holds s.pending_cost s.pending_items s.world
      → Returns (give_all s) (laws.Holds 0 0)
  give_all-Holds s a = elim (Bool-cases ((s.pending_cost == 0) && (s.pending_items == 0))) [
    | inl e ↦
        rw (e, Returns)
          (subst (λ n. laws.Holds n 0 s.world) (ground arith)
            (subst (λ n. laws.Holds s.pending_cost n s.world) (ground arith) a))
    | inr e ↦
        rw (e, Returns)
          (laws.give_holds 0 0 s.pending_cost s.pending_items s.world (
            subst (λ n. laws.Holds n (0 + s.pending_items) s.world) (omega arith)
              (subst (λ n. laws.Holds s.pending_cost n s.world) (omega arith) a)))
  ]

  abbrev emptied_session : Session W → W → Session W
  emptied_session s w = record s {
    is_closed = true;
    lanes = emptied_lanes s.lanes;
    streams = [];
    main = emptied s.main;
    pending_cost = 0;
    pending_items = 0;
    finish_started = true;
    world = w;
  }

  -- closeLocked on a session whose invariant holds does not panic, and the invariant holds
  -- after it.
  pub close_locked-IsSound :
      (s : Session W) → IsSound laws 0 0 s → Returns (close_locked s) (IsSound laws 0 0)
  unfolding close_locked
  close_locked-IsSound s v =
      Returns-if (IsSound laws 0 0) s.is_closed (some s) (give_all s >>= closing) (λ e. v)
        (λ e.
          Returns-bind (laws.Holds 0 0) (IsSound laws 0 0) (give_all s) closing
            (give_all-Holds s v.accounted.held)
            (λ w g.
              close_backends-IsSound 0 0 (backends_of s.streams) (emptied_session s w) (record {
                accounted = record {
                  cost_exact = omega (arith, (emptied-free s.lanes).0);
                  items_exact = omega (arith, (emptied-free s.lanes).1);
                  held = g;
                };
                main_queue = emptied-IsQueue s.main;
                lane_queues = emptied_lanes-IsQueue s.lanes;
                numbers_fit = tt;
                ring = v.ring;
              })))
    where
      closing : W → Option (Session W)
      closing w = some (close_backends (backends_of s.streams) (emptied_session s w))

  IsRefunded : Session W → Type 0
  IsRefunded t = laws.Holds 0 0 t.world

  close_backends-IsRefunded :
      (bs : List ℕ) (s : Session W) → IsRefunded s → IsRefunded (close_backends bs s)
  unfolding IsRefunded
  close_backends-IsRefunded [] s g = g
  close_backends-IsRefunded (b ∷ bs) s g = close_backends-IsRefunded bs (close_backend b s) g

  -- A session that closes gives all that it holds back to the shared budget.
  pub close_locked-IsRefunded :
      (s : Session W)
      → s.is_closed ≡ false
      → IsSound laws 0 0 s
      → Returns (close_locked s) (λ t. laws.Holds 0 0 t.world)
  unfolding close_locked IsRefunded
  close_locked-IsRefunded s e v =
      rw (e, close_locked)
        (Returns-bind (laws.Holds 0 0) (λ t. laws.Holds 0 0 t.world) (give_all s)
          (λ w. some (close_backends (backends_of s.streams) (emptied_session s w)))
          (give_all-Holds s v.accounted.held)
          (λ w g. close_backends-IsRefunded (backends_of s.streams) (emptied_session s w) g))
