-- ===== src/Session/Queue/Windows.antt =====
-- The index of queued WINDOW frames: each entry of `pendingWindows` points at the WINDOW that is
-- queued for its stream, so no look through the index leaves the queue.
use tproxy_server.Base.{
  ℕ, zero, suc, ◌+◌, ◌≤◌, ◌≡◌, refl, sym, subst, Option, none, some, List, [], ◌∷◌, ◌++◌, arith,
  length, get_elem?, set, ◌==◌, Bool-cases, Option-cases, inl, inr,
}
use tproxy_server.Base.Table.{number_key, Table, lookup, insert}
use tproxy_server.Frame.{header_size, window_type}
use tproxy_server.Session.{QueuedFrame}

-- A queued frame is a WINDOW of the stream, with room for its amount.
pub record IsWindowOf (id : ℕ) (q : QueuedFrame) : Type 0 where
  pub window : q.type_code ≡ window_type
  pub stream : q.stream_id ≡ id
  pub long : header_size + 4 ≤ length q.encoded

abbrev pub Points : ℕ → Option QueuedFrame → Type 0
Points id none = ⊥
Points id (some q) = IsWindowOf id q

abbrev pub Indexed : List QueuedFrame → Table ℕ → Type 0
Indexed frames [] = Unit {0}
Indexed frames ((id, index) ∷ windows) = Points id (get_elem? frames index) × Indexed frames windows

pub lookup-Points :
    (frames : List QueuedFrame) (windows : Table ℕ) (id index : ℕ)
    → Indexed frames windows
    → lookup id windows ≡ some index
    → Points id (get_elem? frames index)
unfolding lookup
lookup-Points frames [] id index h e = cc
lookup-Points frames ((j, at) ∷ windows) id index h e = elim (Bool-cases (j == id)) [
  | inl p ↦
      subst (λ n. Points n (get_elem? frames index)) (ground arith)
        (subst (λ n. Points j (get_elem? frames n)) (ground arith) h.0)
  | inr p ↦ lookup-Points frames windows id index h.1 (rw p at e)
]

get_elem?-append {ℓ} :
    {A : Type ℓ} (xs ys : List A) (i : ℕ) (x : A)
    → get_elem? xs i ≡ some x
    → get_elem? (xs ++ ys) i ≡ some x
get_elem?-append [] ys i x h = cc
get_elem?-append (y ∷ xs) ys zero x h = h
get_elem?-append (y ∷ xs) ys (suc i) x h = get_elem?-append xs ys i x h

pub get_elem?-append_end {ℓ} :
    {A : Type ℓ} (xs : List A) (x : A) → get_elem? (xs ++ (x ∷ [])) (length xs) ≡ some x
get_elem?-append_end [] x = refl
get_elem?-append_end (y ∷ xs) x = get_elem?-append_end xs x

Points-append :
    (frames more : List QueuedFrame) (id index : ℕ)
    → Points id (get_elem? frames index)
    → Points id (get_elem? (frames ++ more) index)
Points-append frames more id index h = elim (Option-cases (get_elem? frames index)) [
  | inl e ↦ absurd (subst (Points id) e h)
  | inr (q, e) ↦
      subst (Points id) (sym (get_elem?-append frames more index q e)) (subst (Points id) e h)
]

-- New frames at the end leave the index right.
pub Indexed-append :
    (frames more : List QueuedFrame) (windows : Table ℕ)
    → Indexed frames windows
    → Indexed (frames ++ more) windows
Indexed-append frames more [] h = tt
Indexed-append frames more ((id, index) ∷ windows) h =
    (Points-append frames more id index h.0, Indexed-append frames more windows h.1)

pub Indexed-insert :
    (frames : List QueuedFrame) (windows : Table ℕ) (id index : ℕ)
    → Points id (get_elem? frames index)
    → Indexed frames windows
    → Indexed frames (insert id index windows)
unfolding insert
Indexed-insert frames [] id index p h = (p, tt)
Indexed-insert frames ((j, at) ∷ windows) id index p h = elim (Bool-cases (j == id)) [
  | inl e ↦ rw e (subst (λ n. Points n (get_elem? frames index)) (ground arith) p, h.1)
  | inr e ↦ rw e (h.0, Indexed-insert frames windows id index p h.1)
]

-- A frame replaced by one that keeps its type and stream, and does not get shorter.
pub record Keeps (q r : QueuedFrame) : Type 0 where
  pub same_type : r.type_code ≡ q.type_code
  pub same_stream : r.stream_id ≡ q.stream_id
  pub longer : length q.encoded ≤ length r.encoded

Points-set :
    (frames : List QueuedFrame) (at : ℕ) (q r : QueuedFrame) (id index : ℕ)
    → get_elem? frames at ≡ some q
    → Keeps q r
    → Points id (get_elem? frames index)
    → Points id (get_elem? (set frames at r) index)
Points-set [] at q r id index e k h = h
Points-set (x ∷ frames) zero q r id zero e k h = ground (arith, k)
Points-set (x ∷ frames) zero q r id (suc index) e k h = h
Points-set (x ∷ frames) (suc at) q r id zero e k h = h
Points-set (x ∷ frames) (suc at) q r id (suc index) e k h = Points-set frames at q r id index e k h

pub Indexed-set :
    (frames : List QueuedFrame) (at : ℕ) (q r : QueuedFrame) (windows : Table ℕ)
    → get_elem? frames at ≡ some q
    → Keeps q r
    → Indexed frames windows
    → Indexed (set frames at r) windows
Indexed-set frames at q r [] e k h = tt
Indexed-set frames at q r ((id, index) ∷ windows) e k h =
    (Points-set frames at q r id index e k h.0, Indexed-set frames at q r windows e k h.1)
