-- ===== src/Session/Queue/Growth.antt =====
-- Queueing a frame, whole: what a queue gains is what the session is charged.
use tproxy_server.Base.{
  ℕ, ◌+◌, ◌-◌, ◌≤◌, ◌≡◌, ◌≢◌, refl, sym, ap, ◌∙◌, ◌&&◌, subst, Bool, true, false, none, some, List,
  [], ◌∷◌, ◌++◌, All-append, arith, length, get_elem?, total-append, length-append, ◌==◌,
  Bool-cases, Option-cases, inl, inr, Returns,
}
use tproxy_server.Base.Table.{number_key}
use tproxy_server.Frame.{window_type, max_stream_id, encode, frame_bytes}
use tproxy_server.Frame.Encoding.{length-frame_bytes}
use tproxy_server.Session.{
  Session, Hooks, QueuedFrame, Lane, lane_cost, lane_items, queue_item_cost, downlink,
}
use tproxy_server.Session.Laws.{HookLaws, Accounted, added}
use tproxy_server.Session.Charges.{reserve-Accounted}
use tproxy_server.Session.Budget.{reserve_pending}
use tproxy_server.Session.Invariant.{IsQueue, SameParts, SameParts-refl, reserve-SameParts}
use tproxy_server.Session.Queue.{
  Queued, Merge, panics, apart, merged, merge_window, extend_last, joins_last, join_last,
  append_frame, push_frame, push_data, queue_on, stored, refused, class_of,
}
use tproxy_server.Session.Queue.Windows.{
  Points, Indexed, IsWindowOf, Indexed-append, Indexed-insert, get_elem?-append_end,
}
use tproxy_server.Session.Queue.Departures.{Distinct-insert}
use tproxy_server.Session.Queue.Sound.{IsMerge, merge_window-IsMerge, extend_last-IsMerge, IsLong}

-- A WINDOW has a payload of 4 bytes.
abbrev pub HasShape : ℕ → List ℕ → Type 0
HasShape t payload = t ≡ window_type → length payload ≡ 4

-- Go writes to a map of a WINDOW's index, and the maps of a closed session are nil.
abbrev pub IsWritable : {W : Type 0} → ℕ → Session W → Type 0
IsWritable t s = ((t == window_type) && s.is_closed) ≡ false

encode_fits :
    (t id : ℕ) (payload : List ℕ)
    → id ≤ max_stream_id
    → encode t id payload ≡ some (frame_bytes t id payload)
unfolding encode
encode_fits t id payload fits = ground arith

module _ {W : Type 0} ⦃h : Hooks W⦄ (laws : HookLaws W h) where
  -- The queue gained `cost` and `items`, which the session has in hand over `rc` and `ri`.
  pub record Grown (rc ri : ℕ) (s : Session W) (lane : Lane) (q : Queued W) : Type 0 where
    pub cost : ℕ
    pub items : ℕ
    pub cost_grown : lane_cost q.lane ≡ lane_cost lane + cost
    pub items_grown : lane_items q.lane ≡ lane_items lane + items
    pub accounted : Accounted laws (rc + cost) (ri + items) q.session
    pub queue : IsQueue q.lane
    pub parts : SameParts s q.session

  refused-Grown :
      (rc ri : ℕ) (s t : Session W) (lane : Lane)
      → IsQueue lane
      → SameParts s t
      → Accounted laws rc ri t
      → Returns (refused t lane) (Grown rc ri s lane)
  refused-Grown rc ri s t lane v p a = record {
    cost = 0;
    items = 0;
    cost_grown = omega arith;
    items_grown = omega arith;
    accounted = record {
      cost_exact = omega (arith, a.cost_exact);
      items_exact = omega (arith, a.items_exact);
      held = a.held;
    };
    queue = v;
    parts = p;
  }

  stored-Grown :
      (rc ri extra : ℕ) (s t : Session W) (lane : Lane) (m : Merge)
      → IsQueue lane
      → SameParts s t
      → Accounted laws (rc + extra) (ri + 0) t
      → IsMerge lane extra m
      → m ≢ apart
      → Returns (stored t lane m) (Grown rc ri s lane)
  stored-Grown rc ri extra s t lane panics v p a m n = absurd m
  stored-Grown rc ri extra s t lane apart v p a m n = absurd (n refl)
  stored-Grown rc ri extra s t lane (merged frames) v p a m n = record {
    cost = extra;
    items = 0;
    cost_grown = omega (arith, m.dearer);
    items_grown = omega (arith, m.as_many);
    accounted = a;
    queue = record {
      indexed = m.indexed;
      distinct = v.distinct;
      long = m.long;
      free = v.free;
      idle = v.idle;
    };
    parts = p;
  }

  append_frame-Grown :
      (rc ri t id : ℕ) (payload : List ℕ) (s : Session W) (lane : Lane) (r : Bool × Session W)
      → IsWritable t s
      → HasShape t payload
      → IsQueue lane
      → SameParts s r.1
      → Accounted laws
          (added r.0 (length (frame_bytes t id payload) + queue_item_cost) rc)
          (added r.0 1 ri)
          r.1
      → Returns (append_frame t id (frame_bytes t id payload) lane r) (Grown rc ri s lane)
  append_frame-Grown rc ri t id payload s lane (false, u) made shape v p a =
      refused-Grown rc ri s u lane v p a
  append_frame-Grown rc ri t id payload s lane (true, u) made shape v p a =
      rw (writable, append_frame, Returns)
        (record {
          cost = length (frame_bytes t id payload) + queue_item_cost;
          items = 1;
          cost_grown = omega (arith, total-append (λ q. q.cost) lane.pending_frames (q ∷ []));
          items_grown = omega (arith, length-append lane.pending_frames (q ∷ []));
          accounted = a;
          queue = record {
            indexed = elim (Bool-cases (t == window_type)) [
              | inl x ↦ rw x (
                  Indexed-insert _ lane.pending_windows id (length lane.pending_frames)
                    (subst (Points id) (sym (get_elem?-append_end lane.pending_frames q))
                      (points x))
                    old)
              | inr x ↦ rw x old
            ];
            distinct = elim (Bool-cases (t == window_type)) [
              | inl x ↦
                  rw x (
                    Distinct-insert id (length lane.pending_frames) lane.pending_windows v.distinct)
              | inr x ↦ rw x v.distinct
            ];
            long =
                All-append IsLong lane.pending_frames (q ∷ []) v.long
                  (omega (arith, length-frame_bytes t id payload), tt);
            free = v.free;
            idle = v.idle;
          };
          parts = p;
        })
    where
      writable : ((t == window_type) && u.is_closed) ≡ false
      writable = ap (λ b. (t == window_type) && b) p.same_closed ∙ made

      q : QueuedFrame
      q = record {
        encoded = frame_bytes t id payload;
        type_code = t;
        stream_id = id;
        cost = length (frame_bytes t id payload) + queue_item_cost;
      }

      old : Indexed (lane.pending_frames ++ (q ∷ [])) lane.pending_windows
      old = Indexed-append lane.pending_frames (q ∷ []) lane.pending_windows v.indexed

      points : (t == window_type) ≡ true → IsWindowOf id q
      points x = record {
        window = ground arith;
        stream = refl;
        long = omega (arith, length-frame_bytes t id payload, shape (ground arith));
      }

  push_frame-Grown :
      (rc ri t id : ℕ) (payload : List ℕ) (s : Session W) (lane : Lane)
      → id ≤ max_stream_id
      → IsWritable t s
      → HasShape t payload
      → IsQueue lane
      → Accounted laws rc ri s
      → Returns (push_frame t id payload s lane) (Grown rc ri s lane)
  unfolding push_frame
  push_frame-Grown rc ri t id payload s lane fits made shape v a =
      rw (encode_fits t id payload fits, push_frame, Returns)
        (append_frame-Grown rc ri t id payload s lane
          (reserve_pending (length (frame_bytes t id payload) + queue_item_cost) 1 (class_of t) s)
          made shape v
          (reserve-SameParts (length (frame_bytes t id payload) + queue_item_cost) 1 (class_of t) s)
          (reserve-Accounted laws rc ri (length (frame_bytes t id payload) + queue_item_cost) 1
            (class_of t) s a))

  join_last-Grown :
      (rc ri : ℕ) (payload : List ℕ) (s : Session W) (lane : Lane) (last : QueuedFrame)
      (r : Bool × Session W)
      → IsQueue lane
      → get_elem? lane.pending_frames (length lane.pending_frames - 1) ≡ some last
      → SameParts s r.1
      → Accounted laws (added r.0 (length payload) rc) (added r.0 0 ri) r.1
      → Returns (join_last payload lane last r) (Grown rc ri s lane)
  join_last-Grown rc ri payload s lane last (false, u) v e p a = refused-Grown rc ri s u lane v p a
  join_last-Grown rc ri payload s lane last (true, u) v e p a =
      let m = extend_last-IsMerge payload lane last v e in
      stored-Grown rc ri (length payload) s u lane (extend_last payload lane.pending_frames last) v
        p a m.0 m.1

  push_data-Grown :
      (rc ri t id : ℕ) (payload : List ℕ) (s : Session W) (lane : Lane)
      → id ≤ max_stream_id
      → IsWritable t s
      → HasShape t payload
      → IsQueue lane
      → Accounted laws rc ri s
      → Returns (push_data t id payload s lane) (Grown rc ri s lane)
  unfolding push_data
  push_data-Grown rc ri t id payload s lane fits made shape v a =
      elim (Option-cases (get_elem? lane.pending_frames (length lane.pending_frames - 1))) [
        | inl e ↦
            rw (e, push_data, Returns)
              (push_frame-Grown rc ri t id payload s lane fits made shape v a)
        | inr (last, e) ↦
            rw (e, push_data, Returns)
              (elim (Bool-cases (joins_last t id payload s.limits.max_frame_payload last)) [
                | inl x ↦ rw x (
                    join_last-Grown rc ri payload s lane last
                      (reserve_pending (length payload) 0 downlink s) v e
                      (reserve-SameParts (length payload) 0 downlink s)
                      (reserve-Accounted laws rc ri (length payload) 0 downlink s a))
                | inr x ↦ rw x (push_frame-Grown rc ri t id payload s lane fits made shape v a)
              ])
      ]

  -- Queueing on a well-formed queue does not panic, and charges what the queue gains.
  pub queue_on-Grown :
      (rc ri t id : ℕ) (payload : List ℕ) (s : Session W) (lane : Lane)
      → id ≤ max_stream_id
      → IsWritable t s
      → HasShape t payload
      → IsQueue lane
      → Accounted laws rc ri s
      → Returns (queue_on t id payload s lane) (Grown rc ri s lane)
  unfolding queue_on
  queue_on-Grown rc ri t id payload s lane fits made shape v a =
      go (merge_window t id payload lane) (merge_window-IsMerge t id payload lane v)
    where
      a' : Accounted laws (rc + 0) (ri + 0) s
      a' = record {
        cost_exact = omega (arith, a.cost_exact);
        items_exact = omega (arith, a.items_exact);
        held = a.held;
      }

      go :
          (m : Merge)
          → IsMerge lane 0 m
          → Returns
              (elim m [
                | panics ↦ none
                | apart ↦ push_data t id payload s lane
                | merged frames ↦ stored s lane (merged frames)
              ])
              (Grown rc ri s lane)
      go panics m = absurd m
      go apart m = push_data-Grown rc ri t id payload s lane fits made shape v a
      go (merged frames) m =
          stored-Grown rc ri 0 s s lane (merged frames) v (SameParts-refl s) a' m (λ p. cc)
