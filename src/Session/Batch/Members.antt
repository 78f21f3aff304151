-- ===== src/Session/Batch/Members.antt =====
-- Membership in the tables that a batch works on: the streams, the tombstones and the sets that
-- validateBatchLocked and backendWriteReservationLocked keep.
use tproxy_server.Base.{
  ℕ, ◌≡◌, ◌≢◌, refl, sym, subst, ◌∙◌, true, false, some, [], ◌∷◌, arith, ◌==◌, if◌then◌else◌,
  Bool-cases, inl, inr,
}
use tproxy_server.Base.Table.{
  number_key, number_iff, Table, lookup, insert, delete, lookup-insert, lookup-delete_ne,
}
use tproxy_server.Session.{StreamState}
use tproxy_server.Session.Close.{has}
use tproxy_server.Session.Apply.{snapshots, keys_of}

module _ {V : Type 0} where
  -- The key is stored nowhere, and every key once.
  abbrev pub Absent : ℕ → Table V → Type 0
  Absent id [] = Unit {0}
  Absent id ((j, v) ∷ m) = (j ≢ id) × Absent id m

  abbrev pub Unique : Table V → Type 0
  Unique [] = Unit {0}
  Unique ((j, v) ∷ m) = Absent j m × Unique m

  pub has-insert :
      (j k : ℕ) (v : V) (m : Table V) → has j (insert k v m) ≡ (if k == j then true else has j m)
  unfolding lookup
  has-insert j k v m = ground (arith, lookup-insert k j v m)

  pub has-insert_self : (k : ℕ) (v : V) (m : Table V) → has k (insert k v m) ≡ true
  has-insert_self k v m = ground (arith, has-insert k k v m)

  -- A key that is there is there before and after.
  pub has-insert_old :
      (j k : ℕ) (v : V) (m : Table V) → has k m ≡ true → has j (insert k v m) ≡ has j m
  has-insert_old j k v m e = elim (Bool-cases (k == j)) [
    | inl x ↦
        (has-insert j k v m ∙ rw x refl)
        ∙ sym (subst (λ n. has n m ≡ true) ((number_iff k j).0 x) e)
    | inr x ↦ has-insert j k v m ∙ rw x refl
  ]

  pub has-lookup : (k : ℕ) (v : V) (m : Table V) → lookup k m ≡ some v → has k m ≡ true
  has-lookup k v m e = rw (e, has) refl

  pub has-Absent : (j : ℕ) (m : Table V) → Absent j m → has j m ≡ false
  unfolding lookup
  has-Absent j [] h = refl
  has-Absent j ((i, v) ∷ m) h = ground (arith, has-Absent j m h.1)

  Absent-insert : (j k : ℕ) (v : V) (m : Table V) → k ≢ j → Absent j m → Absent j (insert k v m)
  unfolding insert
  Absent-insert j k v [] n h = (n, tt)
  Absent-insert j k v ((i, w) ∷ m) n h = elim (Bool-cases (i == k)) [
    | inl e ↦ rw e (h.0, h.1)
    | inr e ↦ rw e (h.0, Absent-insert j k v m n h.1)
  ]

  pub Unique-insert : (k : ℕ) (v : V) (m : Table V) → Unique m → Unique (insert k v m)
  unfolding insert
  Unique-insert k v [] h = (tt, tt)
  Unique-insert k v ((i, w) ∷ m) h = elim (Bool-cases (i == k)) [
    | inl e ↦ rw e (h.0, h.1)
    | inr e ↦ rw e (Absent-insert i k v m (λ x. ground arith) h.0, Unique-insert k v m h.1)
  ]

  Absent-delete : (j k : ℕ) (m : Table V) → Absent j m → Absent j (delete k m)
  unfolding delete
  Absent-delete j k [] h = tt
  Absent-delete j k ((i, w) ∷ m) h = elim (Bool-cases (i == k)) [
    | inl e ↦ rw e (h.1)
    | inr e ↦ rw e (h.0, Absent-delete j k m h.1)
  ]

  pub Unique-delete : (k : ℕ) (m : Table V) → Unique m → Unique (delete k m)
  unfolding delete
  Unique-delete k [] h = tt
  Unique-delete k ((i, w) ∷ m) h = elim (Bool-cases (i == k)) [
    | inl e ↦ rw e (h.1)
    | inr e ↦ rw e (Absent-delete i k m h.0, Unique-delete k m h.1)
  ]

  pub has-delete_self : (k : ℕ) (m : Table V) → Unique m → has k (delete k m) ≡ false
  unfolding delete lookup
  has-delete_self k [] h = refl
  has-delete_self k ((i, w) ∷ m) h = elim (Bool-cases (i == k)) [
    | inl e ↦ rw e (has-Absent k m (subst (λ n. Absent n m) (ground arith) h.0))
    | inr e ↦ ground (arith, e, has-delete_self k m h.1)
  ]

  pub has-delete_ne : (j k : ℕ) (m : Table V) → (k == j) ≡ false → has j (delete k m) ≡ has j m
  has-delete_ne j k m e = ground (arith, e, lookup-delete_ne k j m)

  -- A deleted key was there before.
  pub has-delete : (j k : ℕ) (m : Table V) → has j (delete k m) ≡ true → has j m ≡ true
  unfolding delete lookup
  has-delete j k [] h = h
  has-delete j k ((i, w) ∷ m) h = ground (arith, has-delete j k m)

pub has-snapshots : (j : ℕ) (m : Table StreamState) → has j (snapshots m) ≡ has j m
unfolding snapshots lookup
has-snapshots j [] = refl
has-snapshots j ((i, t) ∷ m) = ground (arith, has-snapshots j m)

pub has-keys_of : (j : ℕ) (m : Table StreamState) → has j (keys_of m) ≡ has j m
unfolding lookup
has-keys_of j [] = refl
has-keys_of j ((i, t) ∷ m) = ground (arith, has-keys_of j m)

pub Unique-keys_of : (m : Table StreamState) → Unique m → Unique (keys_of m)
Unique-keys_of [] h = tt
Unique-keys_of ((i, t) ∷ m) h = (absent i m h.0, Unique-keys_of m h.1)
  where
    absent : (j : ℕ) (l : Table StreamState) → Absent j l → Absent j (keys_of l)
    absent j [] h = tt
    absent j ((k, t) ∷ l) h = (h.0, absent j l h.1)
