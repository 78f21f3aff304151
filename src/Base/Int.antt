-- ===== src/Base/Int.antt =====
-- Go's int where a number may be negative, over the native numbers, and what the resolving of
-- limits needs of a kind of numbers.
use tproxy_server.Base.{ℕ, suc, ◌+◌, ◌≤◌, Bool, ltb, leb, ◌==◌}

-- `negsuc n` is -(n + 1).
pub data ℤ : Type 0 where
  pos negsuc : ℕ → ℤ

abbrev pub pos_part : ℤ → ℕ
pos_part (pos n) = n
pos_part (negsuc n) = 0

abbrev pub neg_part : ℤ → ℕ
neg_part (pos n) = 0
neg_part (negsuc n) = suc n

infix 50 ◌≤ℤ◌
abbrev pub ◌≤ℤ◌ : ℤ → ℤ → Type 0
a ≤ℤ b = pos_part a + neg_part b ≤ pos_part b + neg_part a

abbrev pub ltb_ℤ : ℤ → ℤ → Bool
ltb_ℤ a b = ltb (pos_part a + neg_part b) (pos_part b + neg_part a)

abbrev pub leb_ℤ : ℤ → ℤ → Bool
leb_ℤ a b = leb (pos_part a + neg_part b) (pos_part b + neg_part a)

-- The tests `n == 0` and `m < n`.
pub record Number (N : Type 0) : Type 0 where
  pub is_zero : N → Bool
  pub less : N → N → Bool

instance abbrev pub natural : Number ℕ
natural = record { is_zero = λ n. n == 0; less = ltb }

instance abbrev pub signed : Number ℤ
signed = record { is_zero = λ z. pos_part z == neg_part z; less = ltb_ℤ }
