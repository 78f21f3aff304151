-- ===== src/Session/Queue/Delivery.antt =====
-- What takeDownBatchLocked takes: a front part of the queue, whole frames in order, within the
-- size and number of a batch.
use tproxy_server.Base.{
  ℕ, zero, suc, ◌+◌, ◌≤◌, ◌<◌, ◌≡◌, ◌≢◌, refl, sym, ap, ◌∙◌, Bool, not, ◌&&◌, ◌||◌, List, [], ◌∷◌,
  ◌++◌, All, arith, length, length-append, take, drop, total, total-append, take-append-drop,
  length-drop, ◌==◌, ltb, Bool-cases, ◌⊎◌, inl, inr,
}
use mathlib.Core.List.{append_assoc}
use tproxy_server.Frame.{max_batch_frames}
use tproxy_server.Session.{QueuedFrame, Lane}
use tproxy_server.Session.Invariant.{IsQueue}
use tproxy_server.Session.Queue.{batch_length, joined, take_down_batch, DownBatch}
use tproxy_server.Session.Queue.Departures.{Indexed-departure}
use tproxy_server.Session.Queue.Sound.{IsLong}

pub batch_length-le :
    (limit count size : ℕ) (frames : List QueuedFrame)
    → batch_length limit count size frames ≤ length frames
unfolding batch_length
batch_length-le limit count size [] = omega arith
batch_length-le limit count size (q ∷ frames) =
    ground (arith, batch_length-le limit (suc count) (size + length q.encoded) frames)

batch_length-few :
    (limit count size : ℕ) (frames : List QueuedFrame)
    → count ≤ max_batch_frames
    → count + batch_length limit count size frames ≤ max_batch_frames
unfolding batch_length
batch_length-few limit count size [] h = omega arith
batch_length-few limit count size (q ∷ frames) h =
    ground (arith, batch_length-few limit (suc count) (size + length q.encoded) frames)

joined-append : (xs ys : List QueuedFrame) → joined (xs ++ ys) ≡ joined xs ++ joined ys
joined-append [] ys = refl
joined-append (q ∷ xs) ys =
    ap (◌++◌ q.encoded) (joined-append xs ys) ∙ sym (append_assoc q.encoded (joined xs) (joined ys))

-- The bytes of the frames that `batch_length` counts.
batch_bytes : ℕ → ℕ → ℕ → List QueuedFrame → ℕ
batch_bytes limit count size frames =
    total (λ q. length q.encoded) (take (batch_length limit count size frames) frames)

batch_bytes-le :
    (limit count size : ℕ) (frames : List QueuedFrame)
    → (count ≢ 0)
    → size ≤ limit
    → size + batch_bytes limit count size frames ≤ limit
unfolding batch_length batch_bytes
batch_bytes-le limit count size [] c h = omega arith
batch_bytes-le limit count size (q ∷ frames) c h = elim (Bool-cases (stops)) [
  | inl e ↦ rw e (omega arith)
  | inr e ↦ rw e (
      omega (
        arith,
        batch_bytes-le limit (suc count) (size + length q.encoded) frames (λ z. omega arith)
            (ground arith),
      ))
]
  where
    stops : Bool
    stops = count == max_batch_frames || (not (count == 0) && ltb limit (size + length q.encoded))

length-joined :
    (frames : List QueuedFrame) → length (joined frames) ≡ total (λ q. length q.encoded) frames
length-joined [] = refl
length-joined (q ∷ frames) =
    omega (arith, length-append q.encoded (joined frames), length-joined frames)

-- A first frame beyond the limit goes alone.
alone :
    (limit : ℕ) (q : QueuedFrame) (frames : List QueuedFrame)
    → limit < length q.encoded
    → batch_length limit 0 0 (q ∷ frames) ≡ 1
unfolding batch_length
alone limit q [] h = ground arith
alone limit q (r ∷ frames) h = ground arith

first_fits :
    (limit : ℕ) (q : QueuedFrame) (frames : List QueuedFrame)
    → length q.encoded ≤ limit
    → 0 + length q.encoded + batch_bytes limit 1 (0 + length q.encoded) frames ≤ limit
    → batch_bytes limit 0 0 (q ∷ frames) ≤ limit
unfolding batch_bytes batch_length
first_fits limit q frames h k = ground arith

batch_of :
    (limit : ℕ) (frames : List QueuedFrame)
    → (batch_bytes limit 0 0 frames ≤ limit) ⊎ (batch_length limit 0 0 frames ≡ 1)
batch_of limit [] = inl (unfold batch_bytes batch_length in omega arith)
batch_of limit (q ∷ frames) = elim (Bool-cases (ltb limit (length q.encoded))) [
  | inl big ↦ inr (alone limit q frames (ground (arith, big)))
  | inr small ↦ inl (
      first_fits limit q frames (ground (arith, small)) (
        batch_bytes-le limit 1 (0 + length q.encoded) frames (λ z. omega arith)
          (ground (arith, small))))
]

-- What leaves and what stays is the queue, byte for byte and in order; a queue that is not empty
-- gives at least one frame.
pub record Departed (limit : ℕ) (lane : Lane) (b : DownBatch) (rest : Lane) : Type 0 where
  pub bytes : b.body ++ joined rest.pending_frames ≡ joined lane.pending_frames
  pub cost :
      b.cost + total (λ q. q.cost) rest.pending_frames ≡ total (λ q. q.cost) lane.pending_frames
  pub items : b.items + length rest.pending_frames ≡ length lane.pending_frames
  pub few : b.items ≤ max_batch_frames
  pub within : (length b.body ≤ limit) ⊎ (b.items ≡ 1)
  pub progress : lane.pending_frames ≢ [] → 0 < b.items
  pub same_unacked : rest.unacked ≡ lane.unacked
  pub same_cursor : rest.down_cursor ≡ lane.down_cursor

split_total :
    (n : ℕ) (frames : List QueuedFrame)
    → total (λ q. q.cost) (take n frames) + total (λ q. q.cost) (drop n frames)
      ≡ total (λ q. q.cost) frames
split_total n frames =
    sym (total-append (λ q. q.cost) (take n frames) (drop n frames))
    ∙ ap (total (λ q. q.cost)) (take-append-drop n frames)

batch_length-pos :
    (limit : ℕ) (frames : List QueuedFrame) → frames ≢ [] → 0 < batch_length limit 0 0 frames
unfolding batch_length
batch_length-pos limit [] h = absurd (h refl)
batch_length-pos limit (q ∷ frames) h = ground arith

-- A batch is a front part of its queue: the bytes, the costs and the numbers of the batch and
-- of the rest add up to those of the queue, a batch has at most 4096 frames and, unless it is
-- one frame, at most the limit of bytes, and a queue that is not empty gives one frame at
-- least.
pub take_down_batch-Departed :
    (limit : ℕ) (lane : Lane)
    → Departed limit lane (take_down_batch limit lane).0 (take_down_batch limit lane).1
unfolding take_down_batch batch_bytes
take_down_batch-Departed limit lane = record {
  bytes =
      sym (joined-append (take n lane.pending_frames) (drop n lane.pending_frames))
      ∙ ap joined (take-append-drop n lane.pending_frames);
  cost = split_total n lane.pending_frames;
  items =
      omega
        (arith, length-drop n lane.pending_frames, batch_length-le limit 0 0 lane.pending_frames);
  few = omega (arith, batch_length-few limit 0 0 lane.pending_frames (omega arith));
  within = elim (batch_of limit lane.pending_frames) [
    | inl fits ↦ inl (omega (arith, fits, length-joined (take n lane.pending_frames)))
    | inr one ↦ inr one
  ];
  progress = batch_length-pos limit lane.pending_frames;
  same_unacked = refl;
  same_cursor = refl;
}
  where
    n : ℕ
    n = batch_length limit 0 0 lane.pending_frames

IsLong-drop : (n : ℕ) (frames : List QueuedFrame) → All IsLong frames → All IsLong (drop n frames)
IsLong-drop zero frames h = h
IsLong-drop (suc n) [] h = tt
IsLong-drop (suc n) (q ∷ frames) h = IsLong-drop n frames h.1

pub take_down_batch-IsQueue :
    (limit : ℕ) (lane : Lane) → IsQueue lane → IsQueue (take_down_batch limit lane).1
unfolding take_down_batch
take_down_batch-IsQueue limit lane v =
    let d =
      Indexed-departure (batch_length limit 0 0 lane.pending_frames) lane.pending_frames
        lane.pending_windows (batch_length-le limit 0 0 lane.pending_frames) v.indexed v.distinct in
    record {
      indexed = d.0;
      distinct = d.1;
      long = IsLong-drop (batch_length limit 0 0 lane.pending_frames) lane.pending_frames v.long;
      free = v.free;
      idle = v.idle;
    }
