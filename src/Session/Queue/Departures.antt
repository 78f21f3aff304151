-- ===== src/Session/Queue/Departures.antt =====
-- The index of queued WINDOW frames when a batch leaves the front of the queue.
use tproxy_server.Base.{
  ℕ, zero, suc, ◌+◌, ◌-◌, ◌≤◌, ◌≡◌, ◌≢◌, refl, sym, ap, subst, false, Option, none, some, List, [],
  ◌∷◌, arith, length, get_elem?, take, drop, length-take, ◌∙◌, ◌==◌, Bool-cases, inl, inr,
}
use tproxy_server.Base.Table.{number_key, Table, lookup, insert, delete}
use tproxy_server.Frame.{window_type}
use tproxy_server.Session.{QueuedFrame}
use tproxy_server.Session.Queue.{forget_at, forget_window, forget_windows, shift_windows}
use tproxy_server.Session.Queue.Windows.{Points, Indexed}

abbrev Absent : ℕ → Table ℕ → Type 0
Absent id [] = Unit {0}
Absent id ((j, at) ∷ windows) = (j ≢ id) × Absent id windows

-- Every stream has one entry at most.
abbrev pub Distinct : Table ℕ → Type 0
Distinct [] = Unit {0}
Distinct ((id, at) ∷ windows) = Absent id windows × Distinct windows

-- Every index is at least `n`.
abbrev pub Above : ℕ → Table ℕ → Type 0
Above n [] = Unit {0}
Above n ((id, at) ∷ windows) = (n ≤ at) × Above n windows

-- An entry that points at `i` is of the stream `k`.
abbrev OnlyAt : ℕ → ℕ → Table ℕ → Type 0
OnlyAt i k [] = Unit {0}
OnlyAt i k ((id, at) ∷ windows) = (at ≡ i → id ≡ k) × OnlyAt i k windows

Absent-insert :
    (id k index : ℕ) (windows : Table ℕ)
    → id ≢ k
    → Absent id windows
    → Absent id (insert k index windows)
unfolding insert
Absent-insert id k index [] e h = (λ p. e (sym p), tt)
Absent-insert id k index ((j, at) ∷ windows) e h = elim (Bool-cases (j == k)) [
  | inl p ↦ rw p (h.0, h.1)
  | inr p ↦ rw p (h.0, Absent-insert id k index windows e h.1)
]

pub Distinct-insert :
    (k index : ℕ) (windows : Table ℕ) → Distinct windows → Distinct (insert k index windows)
unfolding insert
Distinct-insert k index [] h = (tt, tt)
Distinct-insert k index ((j, at) ∷ windows) h = elim (Bool-cases (j == k)) [
  | inl p ↦ rw p (h.0, h.1)
  | inr p ↦
      rw p (
        Absent-insert j k index windows (λ e. ground arith) h.0,
        Distinct-insert k index windows h.1,
      )
]

Absent-delete : (id k : ℕ) (windows : Table ℕ) → Absent id windows → Absent id (delete k windows)
unfolding delete
Absent-delete id k [] h = tt
Absent-delete id k ((j, at) ∷ windows) h = elim (Bool-cases (j == k)) [
  | inl p ↦ rw p (h.1)
  | inr p ↦ rw p (h.0, Absent-delete id k windows h.1)
]

Distinct-delete : (k : ℕ) (windows : Table ℕ) → Distinct windows → Distinct (delete k windows)
unfolding delete
Distinct-delete k [] h = tt
Distinct-delete k ((j, at) ∷ windows) h = elim (Bool-cases (j == k)) [
  | inl p ↦ rw p (h.1)
  | inr p ↦ rw p (Absent-delete j k windows h.0, Distinct-delete k windows h.1)
]

Indexed-delete :
    (frames : List QueuedFrame) (k : ℕ) (windows : Table ℕ)
    → Indexed frames windows
    → Indexed frames (delete k windows)
unfolding delete
Indexed-delete frames k [] h = tt
Indexed-delete frames k ((j, at) ∷ windows) h = elim (Bool-cases (j == k)) [
  | inl p ↦ rw p (h.1)
  | inr p ↦ rw p (h.0, Indexed-delete frames k windows h.1)
]

beyond : {i at : ℕ} → i ≤ at → at ≢ i → suc i ≤ at
beyond h e = omega arith

ne_of_test : {j k : ℕ} → (j == k) ≡ false → j ≢ k
ne_of_test p e = ground arith

Above-others :
    (i k : ℕ) (windows : Table ℕ)
    → Absent k windows
    → OnlyAt i k windows
    → Above i windows
    → Above (suc i) windows
Above-others i k [] a o h = tt
Above-others i k ((j, at) ∷ windows) a o h =
    (beyond h.0 (λ e. a.0 (o.0 e)), Above-others i k windows a.1 o.1 h.1)

Above-deleted :
    (i k : ℕ) (windows : Table ℕ)
    → Distinct windows
    → OnlyAt i k windows
    → Above i windows
    → Above (suc i) (delete k windows)
unfolding delete
Above-deleted i k [] d o h = tt
Above-deleted i k ((j, at) ∷ windows) d o h = elim (Bool-cases (j == k)) [
  | inl p ↦
      rw p (Above-others i k windows (subst (λ n. Absent n windows) (ground arith) d.0) o.1 h.1)
  | inr p ↦ rw p (beyond h.0 (λ e. ne_of_test p (o.0 e)), Above-deleted i k windows d.1 o.1 h.1)
]

Above-kept :
    (i k : ℕ) (windows : Table ℕ)
    → Distinct windows
    → OnlyAt i k windows
    → Above i windows
    → lookup k windows ≢ some i
    → Above (suc i) windows
unfolding lookup
Above-kept i k [] d o h n = tt
Above-kept i k ((j, at) ∷ windows) d o h n = elim (Bool-cases (j == k)) [
  | inl p ↦ (
    beyond h.0 (λ e. n (rw p (ap some e))),
    Above-others i k windows (subst (λ m. Absent m windows) (ground arith) d.0) o.1 h.1,
  )
  | inr p ↦
      (beyond h.0 (λ e. ne_of_test p (o.0 e)), Above-kept i k windows d.1 o.1 h.1 (λ e. n (rw p e)))
]

-- No entry points at a frame that is no WINDOW.
Above-none :
    (i : ℕ) (windows : Table ℕ) (frames : List QueuedFrame) (q : QueuedFrame)
    → get_elem? frames i ≡ some q
    → q.type_code ≢ window_type
    → Indexed frames windows
    → Above i windows
    → Above (suc i) windows
Above-none i [] frames q e t x h = tt
Above-none i ((j, at) ∷ windows) frames q e t x h = (
  beyond h.0 (λ p. t (subst (Points j) (ap (get_elem? frames) p ∙ e) x.0).window),
  Above-none i windows frames q e t x.1 h.1,
)

Indexed-OnlyAt :
    (i : ℕ) (windows : Table ℕ) (frames : List QueuedFrame) (q : QueuedFrame)
    → get_elem? frames i ≡ some q
    → Indexed frames windows
    → OnlyAt i q.stream_id windows
Indexed-OnlyAt i [] frames q e x = tt
Indexed-OnlyAt i ((j, at) ∷ windows) frames q e x = (
  λ p. sym (subst (Points j) (ap (get_elem? frames) p ∙ e) x.0).stream,
  Indexed-OnlyAt i windows frames q e x.1,
)

-- What is kept while the frames of a batch are taken from the front, up to the index `i`.
pub record Leaving (frames : List QueuedFrame) (i : ℕ) (windows : Table ℕ) : Type 0 where
  pub indexed : Indexed frames windows
  pub distinct : Distinct windows
  pub above : Above i windows

forget_at-Leaving :
    (frames : List QueuedFrame) (i : ℕ) (q : QueuedFrame) (windows : Table ℕ) (o : Option ℕ)
    → get_elem? frames i ≡ some q
    → lookup q.stream_id windows ≡ o
    → Leaving frames i windows
    → Leaving frames (suc i) (forget_at q.stream_id i windows o)
forget_at-Leaving frames i q windows none e l v = record {
  indexed = v.indexed;
  distinct = v.distinct;
  above =
      Above-kept i q.stream_id windows v.distinct (Indexed-OnlyAt i windows frames q e v.indexed)
        v.above (λ p. cc);
}
forget_at-Leaving frames i q windows (some at) e l v = elim (Bool-cases (at == i)) [
  | inl p ↦ rw p (record {
    indexed = Indexed-delete frames q.stream_id windows v.indexed;
    distinct = Distinct-delete q.stream_id windows v.distinct;
    above =
        Above-deleted i q.stream_id windows v.distinct
          (Indexed-OnlyAt i windows frames q e v.indexed) v.above;
  })
  | inr p ↦ rw p (record {
    indexed = v.indexed;
    distinct = v.distinct;
    above =
        Above-kept i q.stream_id windows v.distinct (Indexed-OnlyAt i windows frames q e v.indexed)
          v.above (λ z. ground arith);
  })
]

forget_window-Leaving :
    (frames : List QueuedFrame) (i : ℕ) (q : QueuedFrame) (windows : Table ℕ)
    → get_elem? frames i ≡ some q
    → Leaving frames i windows
    → Leaving frames (suc i) (forget_window i q windows)
forget_window-Leaving frames i q windows e v = elim (Bool-cases (q.type_code == window_type)) [
  | inl p ↦ rw p (forget_at-Leaving frames i q windows (lookup q.stream_id windows) e refl v)
  | inr p ↦ rw p (record {
    indexed = v.indexed;
    distinct = v.distinct;
    above = Above-none i windows frames q e (ne_of_test p) v.indexed v.above;
  })
]

-- `part` stands in `frames` from the index `i` on.
abbrev StandsAt : List QueuedFrame → ℕ → List QueuedFrame → Type 0
StandsAt frames i [] = Unit {0}
StandsAt frames i (q ∷ part) = (get_elem? frames i ≡ some q) × StandsAt frames (suc i) part

StandsAt-cons :
    (x : QueuedFrame) (frames part : List QueuedFrame) (i : ℕ)
    → StandsAt frames i part
    → StandsAt (x ∷ frames) (suc i) part
StandsAt-cons x frames [] i h = tt
StandsAt-cons x frames (q ∷ part) i h = (h.0, StandsAt-cons x frames part (suc i) h.1)

StandsAt-take : (n : ℕ) (frames : List QueuedFrame) → StandsAt frames 0 (take n frames)
StandsAt-take zero frames = tt
StandsAt-take (suc n) [] = tt
StandsAt-take (suc n) (x ∷ frames) =
    (refl, StandsAt-cons x frames (take n frames) 0 (StandsAt-take n frames))

forget_windows-Leaving :
    (frames part : List QueuedFrame) (i : ℕ) (windows : Table ℕ)
    → StandsAt frames i part
    → Leaving frames i windows
    → Leaving frames (i + length part) (forget_windows i part windows)
unfolding forget_windows
forget_windows-Leaving frames [] i windows p v =
    subst (λ n. Leaving frames n windows) (omega arith) v
forget_windows-Leaving frames (q ∷ part) i windows p v =
    subst (λ n. Leaving frames n (forget_windows (suc i) part (forget_window i q windows)))
      (omega arith)
      (forget_windows-Leaving frames part (suc i) (forget_window i q windows) p.1
        (forget_window-Leaving frames i q windows p.0 v))

get_elem?-drop {ℓ} :
    {A : Type ℓ} (n i : ℕ) (xs : List A) → n ≤ i → get_elem? (drop n xs) (i - n) ≡ get_elem? xs i
get_elem?-drop zero i xs h = ap (get_elem? xs) (omega arith)
get_elem?-drop (suc n) i [] h = refl
get_elem?-drop (suc n) zero (x ∷ xs) h = absurd (omega arith)
get_elem?-drop (suc n) (suc i) (x ∷ xs) h =
    ap (get_elem? (drop n xs)) (omega arith) ∙ get_elem?-drop n i xs (omega arith)

Absent-shift :
    (n id : ℕ) (windows : Table ℕ) → Absent id windows → Absent id (shift_windows n windows)
unfolding shift_windows
Absent-shift n id [] h = tt
Absent-shift n id ((j, at) ∷ windows) h = (h.0, Absent-shift n id windows h.1)

Distinct-shift : (n : ℕ) (windows : Table ℕ) → Distinct windows → Distinct (shift_windows n windows)
unfolding shift_windows
Distinct-shift n [] h = tt
Distinct-shift n ((j, at) ∷ windows) h =
    (Absent-shift n j windows h.0, Distinct-shift n windows h.1)

Indexed-shift :
    (n : ℕ) (frames : List QueuedFrame) (windows : Table ℕ)
    → Above n windows
    → Indexed frames windows
    → Indexed (drop n frames) (shift_windows n windows)
unfolding shift_windows
Indexed-shift n frames [] a h = tt
Indexed-shift n frames ((j, at) ∷ windows) a h = (
  subst (Points j) (sym (get_elem?-drop n at frames a.0)) h.0,
  Indexed-shift n frames windows a.1 h.1,
)

-- A batch of `n` frames leaves: the index of what stays is right again.
pub Indexed-departure :
    (n : ℕ) (frames : List QueuedFrame) (windows : Table ℕ)
    → n ≤ length frames
    → Indexed frames windows
    → Distinct windows
    → Indexed (drop n frames) (shift_windows n (forget_windows 0 (take n frames) windows))
      × Distinct (shift_windows n (forget_windows 0 (take n frames) windows))
Indexed-departure n frames windows h x d = (
  Indexed-shift n frames _
      (subst (λ m. Above m (forget_windows 0 (take n frames) windows)) (length-take n frames h)
        above)
      v.indexed,
  Distinct-shift n _ v.distinct,
)
  where
    zero_above : (w : Table ℕ) → Above 0 w
    zero_above [] = tt
    zero_above ((j, at) ∷ w) = (omega arith, zero_above w)

    v : Leaving frames (0 + length (take n frames)) (forget_windows 0 (take n frames) windows)
    v =
        forget_windows-Leaving frames (take n frames) 0 windows (StandsAt-take n frames)
          (record { indexed = x; distinct = d; above = zero_above windows })

    above : Above (length (take n frames)) (forget_windows 0 (take n frames) windows)
    above = subst (λ m. Above m (forget_windows 0 (take n frames) windows)) (omega arith) v.above
