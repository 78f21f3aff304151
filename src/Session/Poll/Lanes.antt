-- ===== src/Session/Poll/Lanes.antt =====
-- What a poll does to its lane: each change keeps the queue well formed, and its charges are known.
use tproxy_server.Base.{
  ℕ, ◌+◌, ◌≤◌, ◌≡◌, refl, Bool, true, false, some, List, [], ◌∷◌, All, arith, Bool-cases,
  Option-cases, inl, inr, length, length-append, take,
}
use tproxy_server.Frame.{header_size}
use tproxy_server.Session.{Lane, QueuedFrame, lane_cost, lane_items}
use tproxy_server.Session.Invariant.{IsQueue}
use tproxy_server.Session.Queue.{take_down_batch, batch_length, joined}
use tproxy_server.Session.Queue.Sound.{IsLong}
use tproxy_server.Session.Queue.Delivery.{take_down_batch-Departed, take_down_batch-IsQueue}
use tproxy_server.Session.Poll.{unparked, acked, delivered, is_mine, is_empty, if_mine}

pub unparked-IsQueue : (l : Lane) → IsQueue l → IsQueue (unparked l)
unparked-IsQueue l v = record {
  indexed = v.indexed;
  distinct = v.distinct;
  long = v.long;
  free = v.free;
  idle = λ id e. cc;
}

pub notify-IsQueue : (l : Lane) (b : Bool) → IsQueue l → IsQueue (record l { notify = b })
notify-IsQueue l b v = record {
  indexed = v.indexed;
  distinct = v.distinct;
  long = v.long;
  free = v.free;
  idle = v.idle;
}

pub if_mine-IsQueue : (mine : ℕ) (l : Lane) → IsQueue l → IsQueue (if_mine mine l)
if_mine-IsQueue mine l v = elim (Bool-cases (is_mine mine l.superseded)) [
  | inl e ↦ rw e (unparked-IsQueue l v)
  | inr e ↦ rw e v
]

pub if_mine-cost : (mine : ℕ) (l : Lane) → lane_cost (if_mine mine l) + 0 ≡ lane_cost l + 0
if_mine-cost mine l = elim (Bool-cases (is_mine mine l.superseded)) [
  | inl e ↦ rw e refl
  | inr e ↦ rw e refl
]

pub if_mine-items : (mine : ℕ) (l : Lane) → lane_items (if_mine mine l) + 0 ≡ lane_items l + 0
if_mine-items mine l = elim (Bool-cases (is_mine mine l.superseded)) [
  | inl e ↦ rw e refl
  | inr e ↦ rw e refl
]

pub acked-cost : (l : Lane) → lane_cost (acked l) + (0 + l.unacked_cost) ≡ lane_cost l + 0
acked-cost l = omega arith

pub acked-items : (l : Lane) → lane_items (acked l) + (0 + l.unacked_items) ≡ lane_items l + 0
acked-items l = omega arith

pub acked-IsQueue : (l : Lane) → IsQueue l → IsQueue (acked l)
acked-IsQueue l v = record {
  indexed = v.indexed;
  distinct = v.distinct;
  long = v.long;
  free = λ e. (refl, refl);
  idle = λ id e. refl;
}

pub parked-IsQueue :
    (l : Lane) (id : ℕ)
    → length l.unacked ≡ 0
    → IsQueue l
    → IsQueue (record l { superseded = some id; down_active = true })
parked-IsQueue l id e v = record {
  indexed = v.indexed;
  distinct = v.distinct;
  long = v.long;
  free = v.free;
  idle = λ j x. e;
}

-- The poll that a queue waits for finds nothing unacknowledged there.
pub mine-free :
    (mine : ℕ) (l : Lane)
    → is_mine mine l.superseded ≡ true
    → IsQueue l
    → (l.unacked_cost ≡ 0) × (l.unacked_items ≡ 0)
mine-free mine l e v = elim (Option-cases l.superseded) [
  | inl x ↦ absurd (ground (arith, x, e))
  | inr (id, x) ↦ v.free (v.idle id x)
]

pub body_long :
    (limit : ℕ) (frames : List QueuedFrame)
    → is_empty frames ≡ false
    → All IsLong frames
    → header_size ≤ length (joined (take (batch_length limit 0 0 frames) frames))
unfolding batch_length
body_long limit [] e h = cc
body_long limit (q ∷ frames) e h = omega (
  arith,
  h.0,
  length-append q.encoded
      (joined (take (batch_length limit 1 (0 + length q.encoded) frames) frames)),
)

pub delivered-IsQueue :
    (limit cursor : ℕ) (l : Lane)
    → is_empty l.pending_frames ≡ false
    → IsQueue l
    → IsQueue (delivered cursor (take_down_batch limit l).0 (take_down_batch limit l).1)
unfolding take_down_batch
delivered-IsQueue limit cursor l e v =
    let q = take_down_batch-IsQueue limit l v in
    record {
      indexed = q.indexed;
      distinct = q.distinct;
      long = q.long;
      free = λ x. absurd (omega (arith, x, body_long limit l.pending_frames e v.long));
      idle = λ id x. cc;
    }

pub delivered-cost :
    (limit cursor : ℕ) (l : Lane)
    → l.unacked_cost ≡ 0
    → lane_cost (delivered cursor (take_down_batch limit l).0 (take_down_batch limit l).1)
      ≡ lane_cost l
delivered-cost limit cursor l e = omega (arith, e, (take_down_batch-Departed limit l).cost)

pub delivered-items :
    (limit cursor : ℕ) (l : Lane)
    → l.unacked_items ≡ 0
    → lane_items (delivered cursor (take_down_batch limit l).0 (take_down_batch limit l).1)
      ≡ lane_items l
delivered-items limit cursor l e = omega (arith, e, (take_down_batch-Departed limit l).items)
