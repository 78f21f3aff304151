-- ===== src/Base/Tests.antt =====
-- Boolean tests on numbers and bytes, the conditional, and programs that may panic.
use Prim.Native.Nat.{ℕ, compare, Ordering}
use mathlib.Core.Path.{◌≡◌, refl}
use mathlib.Core.Logic.{◌⊎◌, inl, inr}
use mathlib.Core.Bool.{Bool, true, false, ◌&&◌}
use mathlib.Core.Option.{Option, none, some}
use mathlib.Core.List.{List, [], ◌∷◌}

infix 1 if◌then◌else◌
abbrev pub if◌then◌else◌ {ℓ} : {A : Type ℓ} → Bool → A → A → A
if true then a else b = a
if false then a else b = b

infix 50 ◌==◌
abbrev pub ◌==◌ : ℕ → ℕ → Bool
m == n = elim (compare m n) [ Ordering.eq ↦ true | _ ↦ false ]

abbrev pub leb : ℕ → ℕ → Bool
leb m n = elim (compare m n) [ Ordering.gt ↦ false | _ ↦ true ]

abbrev pub ltb : ℕ → ℕ → Bool
ltb m n = elim (compare m n) [ Ordering.lt ↦ true | _ ↦ false ]

pub Bool-cases : (b : Bool) → (b ≡ true) ⊎ (b ≡ false)
Bool-cases true = inl refl
Bool-cases false = inr refl

pub Option-cases {ℓ} : {A : Type ℓ} (o : Option A) → (o ≡ none) ⊎ ((a : A) × (o ≡ some a))
Option-cases none = inl refl
Option-cases (some a) = inr (a, refl)

-- bytes.Equal
unfoldable pub bytes_equal : List ℕ → List ℕ → Bool
bytes_equal [] [] = true
bytes_equal [] (y ∷ ys) = false
bytes_equal (x ∷ xs) [] = false
bytes_equal (x ∷ xs) (y ∷ ys) = (x == y) && bytes_equal xs ys

-- A panic ends the process: nothing comes back, `none`.
infixl 5 ◌>>=◌
abbrev pub ◌>>=◌ {ℓ κ} : {A : Type ℓ} {B : Type κ} → Option A → (A → Option B) → Option B
none >>= f = none
some a >>= f = f a

-- The program ends without a panic, and its result meets `P`.
abbrev pub Returns {ℓ} : {A : Type ℓ} → Option A → (A → Type 0) → Type 0
Returns none P = ⊥
Returns (some a) P = P a

pub Returns-bind {ℓ κ} :
    {A : Type ℓ} {B : Type κ} (P : A → Type 0) (Q : B → Type 0) (m : Option A) (f : A → Option B)
    → Returns m P
    → ((a : A) → P a → Returns (f a) Q)
    → Returns (m >>= f) Q
Returns-bind P Q none f h k = absurd h
Returns-bind P Q (some a) f h k = k a h

pub Returns-map {ℓ} :
    {A : Type ℓ} (P : A → Type 0) (Q : A → Type 0) (m : Option A)
    → ((a : A) → P a → Q a)
    → Returns m P
    → Returns m Q
Returns-map P Q none k h = absurd h
Returns-map P Q (some a) k h = k a h

-- What is known of any result joins what is known of it on return.
pub Returns-with {ℓ} :
    {A : Type ℓ} (P Q : A → Type 0) (m : Option A)
    → Returns m P
    → ((a : A) → m ≡ some a → Q a)
    → Returns m (λ a. P a × Q a)
Returns-with P Q none h k = absurd h
Returns-with P Q (some a) h k = (h, k a refl)

-- Both branches, each with its test known.
pub Returns-if {ℓ} :
    {A : Type ℓ} (P : A → Type 0) (b : Bool) (m n : Option A)
    → (b ≡ true → Returns m P)
    → (b ≡ false → Returns n P)
    → Returns (if b then m else n) P
Returns-if P true m n f g = f refl
Returns-if P false m n f g = g refl

-- The same for any predicate of the result.
pub on_if {ℓ κ} :
    {A : Type ℓ} (P : A → Type κ) (b : Bool) (m n : A)
    → (b ≡ true → P m)
    → (b ≡ false → P n)
    → P (if b then m else n)
on_if P true m n f g = f refl
on_if P false m n f g = g refl

-- Both cases of a map read.
pub Returns-option {ℓ κ} :
    {A : Type ℓ} {B : Type κ} (P : A → Type 0) (o : Option B) (m : Option A) (f : B → Option A)
    → (o ≡ none → Returns m P)
    → ((b : B) → o ≡ some b → Returns (f b) P)
    → Returns (elim o [ none ↦ m | some b ↦ f b ]) P
Returns-option P none m f g k = g refl
Returns-option P (some b) m f g k = k b refl

-- If the program ends without a panic, its result meets `P`.
abbrev pub Every {ℓ} : {A : Type ℓ} → Option A → (A → Type 0) → Type 0
Every none P = Unit {0}
Every (some a) P = P a

pub Every-bind {ℓ κ} :
    {A : Type ℓ} {B : Type κ} (P : A → Type 0) (Q : B → Type 0) (m : Option A) (f : A → Option B)
    → Every m P
    → ((a : A) → P a → Every (f a) Q)
    → Every (m >>= f) Q
Every-bind P Q none f h k = tt
Every-bind P Q (some a) f h k = k a h

-- A return, with what is known of any result.
pub Returns-Every {ℓ} :
    {A : Type ℓ} (P Q : A → Type 0) (m : Option A)
    → Returns m P
    → Every m Q
    → Returns m (λ a. P a × Q a)
Returns-Every P Q none h k = absurd h
Returns-Every P Q (some a) h k = (h, k)

-- A program that can only go on to a panic panics.
pub panics-bind {ℓ κ} :
    {A : Type ℓ} {B : Type κ} (P : A → Type 0) (m : Option A) (f : A → Option B)
    → Every m P
    → ((a : A) → P a → f a ≡ none)
    → (m >>= f) ≡ none
panics-bind P none f h k = refl
panics-bind P (some a) f h k = k a h

pub Every-map {ℓ} :
    {A : Type ℓ} (P Q : A → Type 0) (m : Option A) → ((a : A) → P a → Q a) → Every m P → Every m Q
Every-map P Q none k h = tt
Every-map P Q (some a) k h = k a h
