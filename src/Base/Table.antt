-- ===== src/Base/Table.antt =====
-- Go maps as association lists. An entry is replaced in place and a key is stored once; the order
-- of iteration, which Go leaves open, is the order of the list. `Table` has numbers for keys.
use Prim.Native.Nat.{ℕ, suc, ◌+◌}
use Prim.Native.String.{String}
use text.Mathlib.Text.{◌==◌ as str_eq}
use text.Mathlib.TextEquality.{eq_iff}
use mathlib.Core.Path.{◌≡◌, refl}
use mathlib.Core.Logic.{◌↔◌}
use mathlib.Core.Bool.{Bool, true, false}
use mathlib.Core.Option.{Option, none, some}
use mathlib.Core.List.{List, [], ◌∷◌}
use native.Mathlib.Omega.{arith}
use tproxy_server.Base.Tests.{if◌then◌else◌, ◌==◌, bytes_equal}

-- A type of keys, compared by `==` in Go.
pub record Key {ℓ} (K : Type ℓ) : Type ℓ where
  pub same : K → K → Bool
  pub same_iff : (a b : K) → (same a b ≡ true) ↔ (a ≡ b)

pub number_iff : (a b : ℕ) → ((a == b) ≡ true) ↔ (a ≡ b)
number_iff a b = ground arith

instance abbrev pub number_key : Key ℕ
number_key = record { same = ◌==◌; same_iff = number_iff }

instance abbrev pub text_key : Key String
text_key = record { same = str_eq; same_iff = eq_iff }

bytes→eq : (xs ys : List ℕ) → bytes_equal xs ys ≡ true → xs ≡ ys
unfolding bytes_equal
bytes→eq [] [] h = refl
bytes→eq [] (y ∷ ys) h = cc
bytes→eq (x ∷ xs) [] h = cc
bytes→eq (x ∷ xs) (y ∷ ys) h = ground (arith, bytes→eq xs ys)

bytes_refl : (xs : List ℕ) → bytes_equal xs xs ≡ true
unfolding bytes_equal
bytes_refl [] = refl
bytes_refl (x ∷ xs) = ground (arith, bytes_refl xs)

pub bytes_equal_iff : (xs ys : List ℕ) → (bytes_equal xs ys ≡ true) ↔ (xs ≡ ys)
bytes_equal_iff xs ys = (bytes→eq xs ys, λ e. rw e (bytes_refl ys))

instance abbrev pub bytes_key : Key (List ℕ)
bytes_key = record { same = bytes_equal; same_iff = bytes_equal_iff }

abbrev pub Map {ℓ κ} : Type ℓ → Type κ → Type (ℓ ⊔ κ)
Map K V = List (K × V)

abbrev pub Table {ℓ} : Type ℓ → Type ℓ
Table V = Map ℕ V

module _ {ℓ κ} {K : Type ℓ} {V : Type κ} where
  abbrev pub size : Map K V → ℕ
  size [] = 0
  size ((k, v) ∷ m) = suc (size m)

  -- The sum of `f` over the values.
  abbrev pub sum : (V → ℕ) → Map K V → ℕ
  sum f [] = 0
  sum f ((k, v) ∷ m) = f v + sum f m

abbrev pub value_or {κ} : {V : Type κ} → (V → ℕ) → Option V → ℕ
value_or f none = 0
value_or f (some v) = f v

module _ {ℓ κ} {K : Type ℓ} {V : Type κ} ⦃e : Key K⦄ where
  unfoldable pub lookup : K → Map K V → Option V
  lookup k [] = none
  lookup k ((j, v) ∷ m) = if e.same j k then some v else lookup k m

  -- `_, ok := m[k]`
  abbrev pub has : K → Map K V → Bool
  has k m = elim (lookup k m) [ none ↦ false | some v ↦ true ]

  unfoldable pub insert : K → V → Map K V → Map K V
  insert k v [] = (k, v) ∷ []
  insert k v ((j, w) ∷ m) = if e.same j k then (j, v) ∷ m else (j, w) ∷ insert k v m

  unfoldable pub delete : K → Map K V → Map K V
  delete k [] = []
  delete k ((j, w) ∷ m) = if e.same j k then m else (j, w) ∷ delete k m

  pub sum-insert :
      (f : V → ℕ) (k : K) (v : V) (m : Map K V)
      → sum f (insert k v m) + value_or f (lookup k m) ≡ sum f m + f v
  unfolding lookup insert
  sum-insert f k v [] = omega arith
  sum-insert f k v ((i, w) ∷ m) = ground (arith, sum-insert f k v m)

  pub sum-delete :
      (f : V → ℕ) (k : K) (m : Map K V) → sum f (delete k m) + value_or f (lookup k m) ≡ sum f m
  unfolding lookup delete
  sum-delete f k [] = omega arith
  sum-delete f k ((i, w) ∷ m) = ground (arith, sum-delete f k m)

  pub lookup-insert :
      (k j : K) (v : V) (m : Map K V)
      → lookup j (insert k v m) ≡ (if e.same k j then some v else lookup j m)
  unfolding lookup insert
  lookup-insert k j v [] = refl
  lookup-insert k j v ((i, w) ∷ m) =
      ground (arith, lookup-insert k j v m, e.same_iff i k, e.same_iff i j, e.same_iff k j)

  pub lookup-delete_ne :
      (k j : K) (m : Map K V) → e.same k j ≡ false → lookup j (delete k m) ≡ lookup j m
  unfolding lookup delete
  lookup-delete_ne k j [] h = refl
  lookup-delete_ne k j ((i, w) ∷ m) h =
      ground (arith, lookup-delete_ne k j m, e.same_iff i k, e.same_iff i j, e.same_iff k j)
