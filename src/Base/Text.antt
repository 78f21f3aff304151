-- ===== src/Base/Text.antt =====
-- Go strings as lists of bytes: strings.Split and its inverse strings.Join on one byte, the tests
-- for a first and a last byte, and strings.ContainsAny.
use Prim.Native.Nat.{ℕ, ◌≤◌}
use mathlib.Core.Path.{◌≡◌, sym, refl, ap, ◌∙◌}
use mathlib.Core.Logic.{inl, inr}
use mathlib.Core.Bool.{Bool, true, false, ◌||◌}
use mathlib.Core.List.{List, [], ◌∷◌, ◌++◌}
use native.Mathlib.Omega.{arith}
use tproxy_server.Base.Tests.{if◌then◌else◌, ◌==◌, Bool-cases}
use tproxy_server.Base.Lists.{length, length-append, All}

unfoldable pub contains : ℕ → List ℕ → Bool
contains c [] = false
contains c (x ∷ xs) = (x == c) || contains c xs

unfoldable pub contains_any : List ℕ → List ℕ → Bool
unfolding contains
contains_any cs [] = false
contains_any cs (x ∷ xs) = contains x cs || contains_any cs xs

unfoldable pub starts : ℕ → List ℕ → Bool
starts c [] = false
starts c (x ∷ xs) = x == c

unfoldable pub ends : ℕ → List ℕ → Bool
ends c [] = false
ends c (x ∷ []) = x == c
ends c (x ∷ y ∷ xs) = ends c (y ∷ xs)

abbrev prepend : ℕ → List (List ℕ) → List (List ℕ)
prepend c [] = (c ∷ []) ∷ []
prepend c (p ∷ ps) = (c ∷ p) ∷ ps

unfoldable pub split : ℕ → List ℕ → List (List ℕ)
split sep [] = [] ∷ []
split sep (c ∷ cs) = if c == sep then [] ∷ split sep cs else prepend c (split sep cs)

unfoldable pub join : ℕ → List (List ℕ) → List ℕ
join sep [] = []
join sep (p ∷ []) = p
join sep (p ∷ q ∷ ps) = p ++ (sep ∷ join sep (q ∷ ps))

pub ends-cons : (c d : ℕ) (xs : List ℕ) → 1 ≤ length xs → ends c (d ∷ xs) ≡ ends c xs
unfolding ends
ends-cons c d [] h = absurd (omega (arith, h))
ends-cons c d (x ∷ xs) h = refl

pub ends-append : (c : ℕ) (xs ys : List ℕ) → 1 ≤ length ys → ends c (xs ++ ys) ≡ ends c ys
ends-append c [] ys h = refl
ends-append c (x ∷ xs) ys h =
    ends-cons c x (xs ++ ys) (omega (arith, length-append xs ys, h)) ∙ ends-append c xs ys h

-- The bytes are joined, and the parts are what was joined.
module _ (sep : ℕ) where
  abbrev pub IsPart : List ℕ → Type 0
  IsPart p = contains sep p ≡ false

  join-prepend : (c : ℕ) (ps : List (List ℕ)) → join sep (prepend c ps) ≡ c ∷ join sep ps
  unfolding join
  join-prepend c [] = refl
  join-prepend c (p ∷ []) = refl
  join-prepend c (p ∷ q ∷ ps) = refl

  prepend-cons :
      (c : ℕ) (l : List (List ℕ)) → (p : List ℕ) × (ps : List (List ℕ)) × (prepend c l ≡ p ∷ ps)
  prepend-cons c [] = (c ∷ [], [], refl)
  prepend-cons c (p ∷ ps) = (c ∷ p, ps, refl)

  prepend-IsPart :
      (c : ℕ) (l : List (List ℕ)) → (c == sep) ≡ false → All IsPart l → All IsPart (prepend c l)
  unfolding contains
  prepend-IsPart c [] e h = (rw e refl, tt)
  prepend-IsPart c (p ∷ ps) e h = (rw e h.0, h.1)

  split-cons : (s : List ℕ) → (p : List ℕ) × (ps : List (List ℕ)) × (split sep s ≡ p ∷ ps)
  unfolding split
  split-cons [] = ([], [], refl)
  split-cons (c ∷ cs) = elim (Bool-cases (c == sep)) [
    | inl e ↦ rw e ([], split sep cs, refl)
    | inr e ↦ rw e (prepend-cons c (split sep cs))
  ]

  pub join-split : (s : List ℕ) → join sep (split sep s) ≡ s
  unfolding join split
  join-split [] = refl
  join-split (c ∷ cs) = elim (Bool-cases (c == sep)) [
    | inl e ↦
        let q = split-cons cs in
        let same : sep ≡ c = ground (arith, e) in
        rw (e, q.2)
          (ap (λ n. n ∷ join sep (q.0 ∷ q.1)) same
            ∙ ap (λ l. c ∷ l) (ap (join sep) (sym q.2) ∙ join-split cs))
    | inr e ↦ rw e (join-prepend c (split sep cs) ∙ ap (λ l. c ∷ l) (join-split cs))
  ]

  pub split-IsPart : (s : List ℕ) → All IsPart (split sep s)
  unfolding split contains
  split-IsPart [] = (refl, tt)
  split-IsPart (c ∷ cs) = elim (Bool-cases (c == sep)) [
    | inl e ↦ rw e (refl, split-IsPart cs)
    | inr e ↦ rw e (prepend-IsPart c (split sep cs) e (split-IsPart cs))
  ]

  split-append : (p s : List ℕ) → IsPart p → split sep (p ++ (sep ∷ s)) ≡ p ∷ split sep s
  unfolding split contains
  split-append [] s h = ground arith
  split-append (c ∷ p) s h = elim (Bool-cases (c == sep)) [
    | inl e ↦ cc (rw e at h)
    | inr e ↦ rw (e, split-append p s (rw e at h)) refl
  ]

  split-part : (p : List ℕ) → IsPart p → split sep p ≡ p ∷ []
  unfolding split contains
  split-part [] h = refl
  split-part (c ∷ p) h = elim (Bool-cases (c == sep)) [
    | inl e ↦ cc (rw e at h)
    | inr e ↦ rw (e, split-part p (rw e at h)) refl
  ]

  pub split-join :
      (p : List ℕ) (ps : List (List ℕ))
      → All IsPart (p ∷ ps)
      → split sep (join sep (p ∷ ps)) ≡ p ∷ ps
  unfolding join
  split-join p [] h = split-part p h.0
  split-join p (q ∷ ps) h =
      split-append p (join sep (q ∷ ps)) h.0 ∙ ap (◌∷◌ p) (split-join q ps h.1)

  several_parts :
      (s : List ℕ) (l : List (List ℕ))
      → contains sep s ≡ true
      → All IsPart l
      → join sep l ≡ s
      → 2 ≤ length l
  unfolding join contains
  several_parts s [] h a e = cc (h, e)
  several_parts s (p ∷ []) h a e = cc (h, e, a.0)
  several_parts s (p ∷ q ∷ l) h a e = omega arith

  -- A separator makes two parts at least.
  pub split-several : (s : List ℕ) → contains sep s ≡ true → 2 ≤ length (split sep s)
  split-several s h = several_parts s (split sep s) h (split-IsPart s) (join-split s)
