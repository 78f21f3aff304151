-- ===== src/Base/Sets.antt =====
-- Go's sets: maps into the unit type.
use mathlib.Core.Path.{◌≡◌, ◌∙◌, refl, sym, subst}
use mathlib.Core.Logic.{◌≢◌, ◌⊎◌, inl, inr}
use mathlib.Core.Bool.{true, false}
use tproxy_server.Base.Tests.{if◌then◌else◌, Bool-cases}
use tproxy_server.Base.Table.{Key, Map, insert, has, lookup-insert}

module _ {K : Type 0} ⦃e : Key K⦄ where
  has-insert :
      (j k : K) (m : Map K (Unit {0}))
      → has j (insert k tt m) ≡ (if e.same k j then true else has j m)
  has-insert j k m = elim (Bool-cases (e.same k j)) [
    | inl x ↦ rw (lookup-insert k j tt m, x, has) refl
    | inr x ↦ rw (lookup-insert k j tt m, x, has) refl
  ]

  -- A key is there after it is put in, and stays.
  pub has-put : (k : K) (m : Map K (Unit {0})) → has k (insert k tt m) ≡ true
  has-put k m = has-insert k k m ∙ rw ((e.same_iff k k).1 refl) refl

  pub has-kept : (j k : K) (m : Map K (Unit {0})) → has j m ≡ true → has j (insert k tt m) ≡ true
  has-kept j k m h = elim (Bool-cases (e.same k j)) [
    | inl x ↦ has-insert j k m ∙ rw x refl
    | inr x ↦ has-insert j k m ∙ rw (x, h) refl
  ]

  pub other_key : (j k : K) (m : Map K (Unit {0})) → has j m ≡ true → has k m ≡ false → j ≢ k
  other_key j k m h n x = cc (subst (λ i. has i m ≡ true) x h, n)

  -- A key that is absent after another was put in is another key, and was absent before.
  pub still_absent :
      (j k : K) (m : Map K (Unit {0})) → has j (insert k tt m) ≡ false → (j ≢ k) × (has j m ≡ false)
  still_absent j k m h = (
    λ x. cc (subst (λ i. has i (insert k tt m) ≡ true) (sym x) (has-put k m), h),
    absent (Bool-cases (has j m)),
  )
    where
      absent : (has j m ≡ true) ⊎ (has j m ≡ false) → has j m ≡ false
      absent (inl y) = cc (has-kept j k m y, h)
      absent (inr y) = y
