-- ===== src/Session/Moves.antt =====
-- How the invariant goes along with a change of one part of a session: what the part gains or
-- loses is what the amount in hand loses or gains.
use tproxy_server.Base.{
  ℕ, ◌+◌, ◌≤◌, ◌≡◌, subst, true, some, [], ◌∷◌, All, arith, ◌==◌, Bool-cases, inl, inr,
}
use tproxy_server.Base.Table.{
  number_key, Table, lookup, insert, delete, value_or, sum-insert, sum-delete,
}
use tproxy_server.Frame.{max_stream_id}
use tproxy_server.Session.{Session, Hooks, Lane, StreamState, lane_cost, lane_items}
use tproxy_server.Session.Laws.{HookLaws}
use tproxy_server.Session.Invariant.{IsSound, IsQueue}

module _ {V : Type 0} (P : ℕ × V → Type 0) where
  pub All-insert :
      (k : ℕ) (v : V) (m : Table V)
      → ((j : ℕ) → (j == k) ≡ true → P (j, v))
      → P (k, v)
      → All P m
      → All P (insert k v m)
  unfolding insert
  All-insert k v [] f p h = (p, tt)
  All-insert k v ((j, w) ∷ m) f p h = elim (Bool-cases (j == k)) [
    | inl e ↦ rw e (f j e, h.1)
    | inr e ↦ rw e (h.0, All-insert k v m f p h.1)
  ]

  pub All-delete : (k : ℕ) (m : Table V) → All P m → All P (delete k m)
  unfolding delete
  All-delete k [] h = tt
  All-delete k ((j, w) ∷ m) h = elim (Bool-cases (j == k)) [
    | inl e ↦ rw e (h.1)
    | inr e ↦ rw e (h.0, All-delete k m h.1)
  ]

  pub All-lookup :
      (k : ℕ) (v : V) (m : Table V)
      → ((j : ℕ) → P (j, v) → P (k, v))
      → lookup k m ≡ some v
      → All P m
      → P (k, v)
  unfolding lookup
  All-lookup k v [] f e h = cc
  All-lookup k v ((j, w) ∷ m) f e h = elim (Bool-cases (j == k)) [
    | inl x ↦ f j (subst (λ y. P (j, y)) (ground arith) h.0)
    | inr x ↦ All-lookup k v m f (rw x at e) h.1
  ]

-- The two charges of a stream.
abbrev pub stream_cost : StreamState → ℕ
stream_cost t = t.pending_write_cost

abbrev pub stream_items : StreamState → ℕ
stream_items t = t.pending_write_items

pub lane_at :
    (id : ℕ) (lane : Lane) (lanes : Table Lane)
    → lookup id lanes ≡ some lane
    → All (λ p. IsQueue p.1) lanes
    → IsQueue lane
lane_at id lane lanes e h = All-lookup (λ p. IsQueue p.1) id lane lanes (λ j x. x) e h

pub number_at :
    (id : ℕ) (t : StreamState) (streams : Table StreamState)
    → lookup id streams ≡ some t
    → All (λ p. p.0 ≤ max_stream_id) streams
    → id ≤ max_stream_id
unfolding lookup
number_at id t [] e h = cc
number_at id t ((j, w) ∷ m) e h = elim (Bool-cases (j == id)) [
  | inl x ↦ ground (arith, h.0)
  | inr x ↦ number_at id t m (rw x at e) h.1
]

module _ {W : Type 0} ⦃h : Hooks W⦄ (laws : HookLaws W h) (a b rc ri : ℕ) (s : Session W) where
  pub main-IsSound :
      (l : Lane)
      → lane_cost l + rc ≡ lane_cost s.main + a
      → lane_items l + ri ≡ lane_items s.main + b
      → IsQueue l
      → IsSound laws a b s
      → IsSound laws rc ri (record s { main = l })
  main-IsSound l c i q v = record {
    accounted = record {
      cost_exact = omega (arith, c, v.accounted.cost_exact);
      items_exact = omega (arith, i, v.accounted.items_exact);
      held = v.accounted.held;
    };
    main_queue = q;
    lane_queues = v.lane_queues;
    numbers_fit = v.numbers_fit;
    ring = v.ring;
  }

  pub lane-IsSound :
      (id : ℕ) (l : Lane)
      → lane_cost l + rc ≡ value_or lane_cost (lookup id s.lanes) + a
      → lane_items l + ri ≡ value_or lane_items (lookup id s.lanes) + b
      → IsQueue l
      → IsSound laws a b s
      → IsSound laws rc ri (record s { lanes = insert id l s.lanes })
  lane-IsSound id l c i q v = record {
    accounted = record {
      cost_exact = omega (arith, c, v.accounted.cost_exact, sum-insert lane_cost id l s.lanes);
      items_exact = omega (arith, i, v.accounted.items_exact, sum-insert lane_items id l s.lanes);
      held = v.accounted.held;
    };
    main_queue = v.main_queue;
    lane_queues = All-insert (λ p. IsQueue p.1) id l s.lanes (λ j e. q) q v.lane_queues;
    numbers_fit = v.numbers_fit;
    ring = v.ring;
  }

  pub no_lane-IsSound :
      (id : ℕ)
      → rc ≡ value_or lane_cost (lookup id s.lanes) + a
      → ri ≡ value_or lane_items (lookup id s.lanes) + b
      → IsSound laws a b s
      → IsSound laws rc ri (record s { lanes = delete id s.lanes })
  no_lane-IsSound id c i v = record {
    accounted = record {
      cost_exact = omega (arith, c, v.accounted.cost_exact, sum-delete lane_cost id s.lanes);
      items_exact = omega (arith, i, v.accounted.items_exact, sum-delete lane_items id s.lanes);
      held = v.accounted.held;
    };
    main_queue = v.main_queue;
    lane_queues = All-delete (λ p. IsQueue p.1) id s.lanes v.lane_queues;
    numbers_fit = v.numbers_fit;
    ring = v.ring;
  }

  pub stream-IsSound :
      (id : ℕ) (t : StreamState)
      → stream_cost t + rc ≡ value_or stream_cost (lookup id s.streams) + a
      → stream_items t + ri ≡ value_or stream_items (lookup id s.streams) + b
      → id ≤ max_stream_id
      → IsSound laws a b s
      → IsSound laws rc ri (record s { streams = insert id t s.streams })
  stream-IsSound id t c i n v = record {
    accounted = record {
      cost_exact = omega (arith, c, v.accounted.cost_exact, sum-insert stream_cost id t s.streams);
      items_exact =
          omega (arith, i, v.accounted.items_exact, sum-insert stream_items id t s.streams);
      held = v.accounted.held;
    };
    main_queue = v.main_queue;
    lane_queues = v.lane_queues;
    numbers_fit =
        All-insert (λ p. p.0 ≤ max_stream_id) id t s.streams (λ j e. ground arith) n v.numbers_fit;
    ring = v.ring;
  }

  pub no_stream-IsSound :
      (id : ℕ)
      → rc ≡ value_or stream_cost (lookup id s.streams) + a
      → ri ≡ value_or stream_items (lookup id s.streams) + b
      → IsSound laws a b s
      → IsSound laws rc ri (record s { streams = delete id s.streams })
  no_stream-IsSound id c i v = record {
    accounted = record {
      cost_exact = omega (arith, c, v.accounted.cost_exact, sum-delete stream_cost id s.streams);
      items_exact = omega (arith, i, v.accounted.items_exact, sum-delete stream_items id s.streams);
      held = v.accounted.held;
    };
    main_queue = v.main_queue;
    lane_queues = v.lane_queues;
    numbers_fit = All-delete (λ p. p.0 ≤ max_stream_id) id s.streams v.numbers_fit;
    ring = v.ring;
  }
