-- ===== src/Session/Leaving.antt =====
-- The invariant over the tombstones, the release of lanes and streams, and the close.
use tproxy_server.Base.{
  ℕ, zero, suc, ◌+◌, ◌%◌, ◌<◌, ◌≡◌, refl, sym, ap, subst, ◌∙◌, false, Option, some, List, [], ◌∷◌,
  ◌++◌, arith, ltb, if◌then◌else◌, Bool-cases, Option-cases, inl, inr, length, get_elem?, set,
  length-set, length-append, Returns, Returns-map, Returns-bind,
}
use tproxy_server.Base.Table.{number_key, Table, lookup, insert, delete, value_or}
use tproxy_server.Session.{Session, Hooks, StreamState, lane_cost, lane_items}
use tproxy_server.Session.Laws.{HookLaws}
use tproxy_server.Session.Invariant.{IsSound, IsRing, SameParts, release-IsSound}
use tproxy_server.Session.Budget.{release_pending}
use tproxy_server.Session.Moves.{
  lane-IsSound, no_lane-IsSound, no_stream-IsSound, stream_cost, stream_items, lane_at,
}
use tproxy_server.Session.Close.{
  has, woken, release_lane, drop_lane, wake_lane, evict_oldest, remember_closed, retire_stream,
}

-- The ring of tombstones and its limit stay as they are.
pub record SameRing {W : Type 0} (s t : Session W) : Type 0 where
  pub same_limits : t.limits ≡ s.limits
  pub same_order : t.closed_order ≡ s.closed_order
  pub same_start : t.closed_start ≡ s.closed_start

in_ring : (xs : List ℕ) (i : ℕ) → i < length xs → (x : ℕ) × (get_elem? xs i ≡ some x)
in_ring [] i e = absurd (omega arith)
in_ring (x ∷ xs) zero e = (x, refl)
in_ring (x ∷ xs) (suc i) e = in_ring xs i (omega arith)

turn-IsRing :
    (limit size start : ℕ)
    → IsRing limit size start
    → (ltb size limit) ≡ false
    → IsRing limit size (suc start % size)
turn-IsRing limit size start r full = record {
  positive = r.positive;
  within = r.within;
  at_start = ground (arith, r.within);
  inside = ground (arith, r.within, r.positive);
}

module _ {W : Type 0} ⦃h : Hooks W⦄ (laws : HookLaws W h) (rc ri : ℕ) where
  abbrev Kept : Session W → Session W → Type 0
  Kept s t = IsSound laws rc ri t × SameRing s t

  -- What is given back by a part that has left.
  given_back :
      (c i : ℕ) (s : Session W)
      → IsSound laws (rc + c) (ri + i) s
      → Returns (release_pending c i s) (Kept s)
  given_back c i s v =
      Returns-map (λ t. IsSound laws rc ri t × SameParts s t) (Kept s) (release_pending c i s)
        (λ t x. (
          x.0,
          record {
            same_limits = x.1.same_limits;
            same_order = x.1.same_order;
            same_start = x.1.same_start;
          },
        ))
        (release-IsSound laws rc ri c i s v)

  pub drop_lane-Kept :
      (id : ℕ) (s : Session W) → IsSound laws rc ri s → Returns (drop_lane id s) (Kept s)
  unfolding drop_lane
  drop_lane-Kept id s v = elim (Option-cases (lookup id s.lanes)) [
    | inl e ↦
        rw (e, drop_lane, Returns)
          (v, record { same_limits = refl; same_order = refl; same_start = refl })
    | inr (lane, e) ↦
        rw (e, drop_lane, Returns)
          (Returns-map (Kept (record s { lanes = delete id s.lanes })) (Kept s)
            (release_lane lane (record s { lanes = delete id s.lanes }))
            (λ t x. (
              x.0,
              record {
                same_limits = x.1.same_limits;
                same_order = x.1.same_order;
                same_start = x.1.same_start;
              },
            ))
            (given_back (lane_cost lane) (lane_items lane) (record s { lanes = delete id s.lanes })
              (no_lane-IsSound laws rc ri (rc + lane_cost lane) (ri + lane_items lane) s id
                (omega (arith, ap (value_or lane_cost) e))
                (omega (arith, ap (value_or lane_items) e)) v)))
  ]

  ring-IsSound :
      (s : Session W) (tombs : Table (Unit {0})) (order : List ℕ) (start : ℕ)
      → IsRing s.limits.max_closed_stream_ids (length order) start
      → IsSound laws rc ri s
      → IsSound laws rc ri
          (record s { closed_streams = tombs; closed_order = order; closed_start = start })
  ring-IsSound s tombs order start r v = record {
    accounted = record {
      cost_exact = v.accounted.cost_exact;
      items_exact = v.accounted.items_exact;
      held = v.accounted.held;
    };
    main_queue = v.main_queue;
    lane_queues = v.lane_queues;
    numbers_fit = v.numbers_fit;
    ring = r;
  }

  wake_lane-IsSound :
      (id : ℕ) (s : Session W) → IsSound laws rc ri s → IsSound laws rc ri (wake_lane id s)
  wake_lane-IsSound id s v = elim (Option-cases (lookup id s.lanes)) [
    | inl e ↦ rw (e, wake_lane) v
    | inr (lane, e) ↦
        rw (e, wake_lane)
          (lane-IsSound laws rc ri rc ri s id (woken lane)
            (omega (arith, ap (value_or lane_cost) e)) (omega (arith, ap (value_or lane_items) e))
            (let q = lane_at id lane s.lanes e v.lane_queues in
              record {
                indexed = q.indexed;
                distinct = q.distinct;
                long = q.long;
                free = q.free;
                idle = q.idle;
              })
            v)
  ]

  evict_oldest-IsSound :
      (id : ℕ) (s : Session W)
      → ltb (length s.closed_order) s.limits.max_closed_stream_ids ≡ false
      → IsSound laws rc ri s
      → Returns (evict_oldest id s) (IsSound laws rc ri)
  unfolding evict_oldest
  evict_oldest-IsSound id s full v =
      let old = in_ring s.closed_order s.closed_start (ground (arith, v.ring.inside, full)) in
      rw (old.1, evict_oldest, Returns)
        (Returns-bind (Kept (without old.0)) (IsSound laws rc ri) (drop_lane old.0 (without old.0))
          (λ s'. some (record s' {
            closed_order = set s'.closed_order s'.closed_start id;
            closed_start = suc s'.closed_start % length s'.closed_order;
          }))
          (drop_lane-Kept old.0 (without old.0)
            (ring-IsSound s (delete old.0 s.closed_streams) s.closed_order s.closed_start v.ring v))
          (λ s' k.
            ring-IsSound s' s'.closed_streams (set s'.closed_order s'.closed_start id)
              (suc s'.closed_start % length s'.closed_order)
              (subst
                (λ n.
                  IsRing s'.limits.max_closed_stream_ids n
                    (suc s'.closed_start % length s'.closed_order))
                (sym (length-set s'.closed_order s'.closed_start id))
                (turn-IsRing s'.limits.max_closed_stream_ids (length s'.closed_order)
                  s'.closed_start k.0.ring
                  (ap (λ o. ltb (length o) s'.limits.max_closed_stream_ids) k.1.same_order
                    ∙ ap (λ l. ltb (length s.closed_order) l.max_closed_stream_ids) k.1.same_limits
                    ∙ full)))
              k.0))
    where
      without : ℕ → Session W
      without old = record s { closed_streams = delete old s.closed_streams }

  -- Remembering a closed stream does not index outside the ring, does not panic and keeps the
  -- invariant.
  pub remember_closed-IsSound :
      (id : ℕ) (s : Session W)
      → IsSound laws rc ri s
      → Returns (remember_closed id s) (IsSound laws rc ri)
  unfolding remember_closed
  remember_closed-IsSound id s v = elim (Bool-cases (has id s.closed_streams)) [
    | inl e ↦ rw (e, Returns) v
    | inr e ↦
        rw (e, Returns)
          (Returns-bind (IsSound laws rc ri) (IsSound laws rc ri) next
            (λ s'. some (wake_lane id s')) entry (λ s' k. wake_lane-IsSound id s' k))
  ]
    where
      entered : Session W
      entered = record s { closed_streams = insert id tt s.closed_streams }

      next : Option (Session W)
      next =
          if ltb (length s.closed_order) s.limits.max_closed_stream_ids
          then some (record entered { closed_order = s.closed_order ++ (id ∷ []) })
          else evict_oldest id entered

      entered-IsSound : IsSound laws rc ri entered
      entered-IsSound =
          ring-IsSound s (insert id tt s.closed_streams) s.closed_order s.closed_start v.ring v

      longer : length (s.closed_order ++ (id ∷ [])) ≡ suc (length s.closed_order)
      longer = omega (arith, length-append s.closed_order (id ∷ []))

      entry : Returns next (IsSound laws rc ri)
      entry = elim (Bool-cases (ltb (length s.closed_order) s.limits.max_closed_stream_ids)) [
        | inl x ↦
            rw (x, Returns)
              (ring-IsSound s (insert id tt s.closed_streams) (s.closed_order ++ (id ∷ []))
                s.closed_start
                (record {
                  positive = v.ring.positive;
                  within = ground (arith, longer, x);
                  at_start = λ y. v.ring.at_start (omega (arith, longer, y));
                  inside = v.ring.inside;
                })
                v)
        | inr x ↦ rw (x, Returns) (evict_oldest-IsSound id entered x entered-IsSound)
      ]

  -- Retiring a stream that the session has does not panic and keeps the invariant, over any
  -- amount in hand.
  pub retire_stream-IsSound :
      (id : ℕ) (t : StreamState) (s : Session W)
      → lookup id s.streams ≡ some t
      → IsSound laws rc ri s
      → Returns (retire_stream id t s) (IsSound laws rc ri)
  unfolding retire_stream
  retire_stream-IsSound id t s e v =
      Returns-bind (Kept without) (IsSound laws rc ri)
        (release_pending t.pending_write_cost t.pending_write_items without) (remember_closed id)
        (given_back t.pending_write_cost t.pending_write_items without (
          no_stream-IsSound laws rc ri (rc + t.pending_write_cost) (ri + t.pending_write_items) s id
            (omega (arith, ap (value_or stream_cost) e))
            (omega (arith, ap (value_or stream_items) e)) v))
        (λ s' k. remember_closed-IsSound id s' k.0)
    where
      without : Session W
      without = record s { streams = delete id s.streams }
