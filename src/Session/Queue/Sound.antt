-- ===== src/Session/Queue/Sound.antt =====
-- queueFrameLocked keeps the queue well formed, charges what it adds, and does not panic.
use tproxy_server.Base.{
  ℕ, zero, suc, ◌+◌, ◌-◌, ◌≤◌, ◌≡◌, ◌≢◌, refl, Option, none, some, List, [], ◌∷◌, ◌++◌, All, arith,
  length, get_elem?, set, take, drop, total, total-set, length-set, length-append, length-take,
  length-drop, ◌==◌, leb, Bool-cases, inl, inr,
}
use tproxy_server.Base.Table.{number_key, lookup}
use tproxy_server.Frame.{header_size, window_type, put_uint32, window_value}
use tproxy_server.Session.{QueuedFrame, Lane}
use tproxy_server.Session.Invariant.{IsQueue}
use tproxy_server.Session.Queue.{
  Merge, panics, apart, merged, write_uint32, merge_window, add_window, extend_last, max_uint32,
}
use tproxy_server.Session.Queue.Windows.{Points, Indexed, Keeps, lookup-Points, Indexed-set}

-- A write inside the slice succeeds and keeps the length.
write_uint32_lem :
    (at value : ℕ) (encoded : List ℕ)
    → at + 4 ≤ length encoded
    → (bytes : List ℕ) × (write_uint32 at value encoded ≡ some bytes)
      × (length bytes ≡ length encoded)
unfolding write_uint32 put_uint32
write_uint32_lem at value encoded fits = (
  take at encoded ++ (put_uint32 value ++ drop (at + 4) encoded),
  ground arith,
  omega (
    arith,
    length-append (take at encoded) (put_uint32 value ++ drop (at + 4) encoded),
    length-take at encoded (omega arith),
    length-drop (at + 4) encoded,
  ),
)

abbrev pub IsLong : QueuedFrame → Type 0
IsLong q = header_size ≤ length q.encoded

IsLong-at :
    (frames : List QueuedFrame) (i : ℕ) (q : QueuedFrame)
    → All IsLong frames
    → get_elem? frames i ≡ some q
    → IsLong q
IsLong-at [] i q h e = cc
IsLong-at (x ∷ frames) zero q h e = ground (arith, h.0)
IsLong-at (x ∷ frames) (suc i) q h e = IsLong-at frames i q h.1 e

IsLong-set :
    (frames : List QueuedFrame) (i : ℕ) (q : QueuedFrame)
    → All IsLong frames
    → IsLong q
    → All IsLong (set frames i q)
IsLong-set [] i q h k = tt
IsLong-set (x ∷ frames) zero q h k = (k, h.1)
IsLong-set (x ∷ frames) (suc i) q h k = (h.0, IsLong-set frames i q h.1 k)

-- The frames after a coalescing: the queue with one frame replaced, dearer by `extra`.
pub record Merged (lane : Lane) (extra : ℕ) (frames : List QueuedFrame) : Type 0 where
  pub indexed : Indexed frames lane.pending_windows
  pub long : All IsLong frames
  pub dearer : total (λ q. q.cost) frames ≡ total (λ q. q.cost) lane.pending_frames + extra
  pub as_many : length frames ≡ length lane.pending_frames

replaced-Merged :
    (lane : Lane) (i extra : ℕ) (q r : QueuedFrame)
    → IsQueue lane
    → get_elem? lane.pending_frames i ≡ some q
    → Keeps q r
    → r.cost ≡ q.cost + extra
    → Merged lane extra (set lane.pending_frames i r)
replaced-Merged lane i extra q r v e k c = record {
  indexed = Indexed-set lane.pending_frames i q r lane.pending_windows e k v.indexed;
  long =
      IsLong-set lane.pending_frames i r v.long
        (omega (arith, k.longer, IsLong-at lane.pending_frames i q v.long e));
  dearer = omega (arith, c, total-set (λ x. x.cost) lane.pending_frames i q r e);
  as_many = length-set lane.pending_frames i r;
}

abbrev pub IsMerge : Lane → ℕ → Merge → Type 0
IsMerge lane extra panics = ⊥
IsMerge lane extra apart = Unit {0}
IsMerge lane extra (merged frames) = Merged lane extra frames

add_window-IsMerge :
    (lane : Lane) (id i : ℕ) (payload : List ℕ) (o : Option QueuedFrame)
    → IsQueue lane
    → get_elem? lane.pending_frames i ≡ o
    → Points id o
    → IsMerge lane 0 (add_window i payload lane.pending_frames o)
add_window-IsMerge lane id i payload none v e p = absurd p
add_window-IsMerge lane id i payload (some q) v e p = elim (Bool-cases (leb sum max_uint32)) [
  | inl x ↦
      let w = write_uint32_lem header_size sum q.encoded p.long in
      rw (x, w.1)
        (replaced-Merged lane i 0 q (record q { encoded = w.0 }) v e
          (record { same_type = refl; same_stream = refl; longer = omega (arith, w.2) })
          (omega arith))
  | inr x ↦ rw x tt
]
  where
    sum : ℕ
    sum = window_value (drop header_size q.encoded) + window_value payload

pub merge_window-IsMerge :
    (t id : ℕ) (payload : List ℕ) (lane : Lane)
    → IsQueue lane
    → IsMerge lane 0 (merge_window t id payload lane)
unfolding merge_window
merge_window-IsMerge t id payload lane v = elim (Bool-cases (t == window_type)) [
  | inl x ↦ rw x (go (lookup id lane.pending_windows) refl)
  | inr x ↦ rw x tt
]
  where
    go :
        (o : Option ℕ)
        → lookup id lane.pending_windows ≡ o
        → IsMerge lane 0 (elim o [
          | none ↦ apart
          | some index ↦
              add_window index payload lane.pending_frames (get_elem? lane.pending_frames index)
        ])
    go none e = tt
    go (some i) e =
        add_window-IsMerge lane id i payload (get_elem? lane.pending_frames i) v refl
          (lookup-Points lane.pending_frames lane.pending_windows id i v.indexed e)

pub extend_last-IsMerge :
    (payload : List ℕ) (lane : Lane) (last : QueuedFrame)
    → IsQueue lane
    → get_elem? lane.pending_frames (length lane.pending_frames - 1) ≡ some last
    → IsMerge lane (length payload) (extend_last payload lane.pending_frames last)
      × (extend_last payload lane.pending_frames last ≢ apart)
unfolding extend_last
extend_last-IsMerge payload lane last v e =
    let w =
      write_uint32_lem 4 (length last.encoded + length payload - header_size)
        (last.encoded ++ payload) (omega (arith, longer, long)) in
    rw w.1 (
      replaced-Merged lane (length lane.pending_frames - 1) (length payload) last
          (record last { encoded = w.0; cost = last.cost + length payload }) v e
          (record { same_type = refl; same_stream = refl; longer = omega (arith, w.2, longer) })
          refl,
      λ p. cc,
    )
  where
    long : header_size ≤ length last.encoded
    long = IsLong-at lane.pending_frames (length lane.pending_frames - 1) last v.long e

    longer : length (last.encoded ++ payload) ≡ length last.encoded + length payload
    longer = length-append last.encoded payload
