-- ===== src/Keys/Checked.antt =====
-- keys-panel/store.go: what Apply's loop over the keys accepts.
use tproxy_server.Base.{
  ℕ, suc, ◌+◌, ◌≤◌, ◌≡◌, ◌≢◌, ap, subst, true, false, none, List, [], ◌∷◌, arith, if◌then◌else◌,
  All, Bool-cases, Option-cases, inl, inr, bytes_equal,
}
use tproxy_server.Base.Sets.{still_absent}
use tproxy_server.Base.Table.{bytes_key, bytes_equal_iff, lookup, insert, has, lookup-insert}
use tproxy_server.Keys.{
  Profile, BackendInfo, Seen, seen_after, used, one_more, Usage, max_secrets_per_backend,
  matches_name, matches_secret, valid_carrier, registered, check_key, check_keys,
}

-- A key that may stand alone.
pub record IsKey (registry : List BackendInfo) (p : Profile) : Type 0 where
  pub named : matches_name p.name ≡ true
  pub secret : matches_secret p.secret ≡ true
  pub carrier : valid_carrier p.carrier_mode ≡ true
  pub on_backend : has p.backend (registered registry) ≡ true

abbrev Apart : Profile → Profile → Type 0
Apart p q = (q.name ≢ p.name) × (q.secret ≢ p.secret)

-- No two keys share a name or a secret.
abbrev pub Distinct : List Profile → Type 0
Distinct [] = Unit {0}
Distinct (p ∷ ps) = All (Apart p) ps × Distinct ps

-- How many keys sit on a backend.
abbrev pub on_address : List ℕ → List Profile → ℕ
on_address address [] = 0
on_address address (p ∷ ps) =
    (if bytes_equal p.backend address then 1 else 0) + on_address address ps

pub record IsKeySet (registry : List BackendInfo) (ps : List Profile) : Type 0 where
  pub each : All (IsKey registry) ps
  pub distinct : Distinct ps
  pub few : (address : List ℕ) → on_address address ps ≤ max_secrets_per_backend

pub used-one_more :
    (address b : List ℕ) (usage : Usage)
    → used address (one_more b usage)
      ≡ (if bytes_equal b address then 1 else 0) + used address usage
used-one_more address b usage = elim (Bool-cases (bytes_equal b address)) [
  | inl x ↦
      rw (lookup-insert b address (suc (used b usage)) usage, x, used)
        (omega (arith, ap (λ a. used a usage) ((bytes_equal_iff b address).0 x)))
  | inr x ↦ rw (lookup-insert b address (suc (used b usage)) usage, x, used) (omega arith)
]

-- What one round shows of its key.
record Passed (registry : List BackendInfo) (p : Profile) (seen : Seen) : Type 0 where
  key : IsKey registry p
  new_name : has p.name seen.names ≡ false
  new_secret : has p.secret seen.secrets ≡ false
  room : used p.backend (one_more p.backend seen.per_backend) ≤ max_secrets_per_backend

check_key-Passed :
    (registry : List BackendInfo) (p : Profile) (seen : Seen)
    → check_key registry p seen ≡ none
    → Passed registry p seen
unfolding check_key
check_key-Passed registry p seen e = record {
  key = record {
    named = ground (arith, e);
    secret = ground (arith, e);
    carrier = ground (arith, e);
    on_backend = ground (arith, e);
  };
  new_name = ground (arith, e);
  new_secret = ground (arith, e);
  room = ground (arith, e);
}

-- The keys that pass are new to what was seen before them.
record Fits (registry : List BackendInfo) (ps : List Profile) (seen : Seen) : Type 0 where
  each : All (IsKey registry) ps
  distinct : Distinct ps
  new : All (λ p. (has p.name seen.names ≡ false) × (has p.secret seen.secrets ≡ false)) ps
  few :
      (address : List ℕ)
      → used address seen.per_backend ≤ max_secrets_per_backend
      → on_address address ps + used address seen.per_backend ≤ max_secrets_per_backend

abbrev NewAfter : Profile → Seen → Profile → Type 0
NewAfter p seen q =
    (has q.name (insert p.name tt seen.names) ≡ false)
    × (has q.secret (insert p.secret tt seen.secrets) ≡ false)

still_few :
    (p : Profile) (seen : Seen) (address : List ℕ)
    → used p.backend (one_more p.backend seen.per_backend) ≤ max_secrets_per_backend
    → used address seen.per_backend ≤ max_secrets_per_backend
    → used address (one_more p.backend seen.per_backend) ≤ max_secrets_per_backend
still_few p seen address room h = elim (Bool-cases (bytes_equal p.backend address)) [
  | inl x ↦
      subst (λ a. used a (one_more p.backend seen.per_backend) ≤ max_secrets_per_backend)
        ((bytes_equal_iff p.backend address).0 x) room
  | inr x ↦ omega (arith, h, rw x at (used-one_more address p.backend seen.per_backend))
]

check_keys-Fits :
    (registry : List BackendInfo) (ps : List Profile) (seen : Seen)
    → check_keys registry ps seen ≡ none
    → Fits registry ps seen
unfolding check_keys
check_keys-Fits registry [] seen e = record {
  each = tt;
  distinct = tt;
  new = tt;
  few = λ address h. omega (arith, h);
}
check_keys-Fits registry (p ∷ ps) seen e = elim (Option-cases (check_key registry p seen)) [
  | inr (error, x) ↦ cc (rw (x, check_keys) at e)
  | inl x ↦
      let passed = check_key-Passed registry p seen x in
      let later = check_keys-Fits registry ps (seen_after p seen) (rw (x, check_keys) at e) in
      record {
        each = (passed.key, later.each);
        distinct = (apart ps later.new, later.distinct);
        new = ((passed.new_name, passed.new_secret), absent ps later.new);
        few = λ address h. omega (
          arith,
          later.few address (still_few p seen address passed.room h),
          used-one_more address p.backend seen.per_backend,
        );
      }
]
  where
    apart : (qs : List Profile) → All (NewAfter p seen) qs → All (Apart p) qs
    apart [] h = tt
    apart (q ∷ qs) h = (
      (
        (still_absent q.name p.name seen.names h.0.0).0,
        (still_absent q.secret p.secret seen.secrets h.0.1).0,
      ),
      apart qs h.1,
    )

    absent :
        (qs : List Profile)
        → All (NewAfter p seen) qs
        → All (λ q. (has q.name seen.names ≡ false) × (has q.secret seen.secrets ≡ false)) qs
    absent [] h = tt
    absent (q ∷ qs) h = (
      (
        (still_absent q.name p.name seen.names h.0.0).1,
        (still_absent q.secret p.secret seen.secrets h.0.1).1,
      ),
      absent qs h.1,
    )

abbrev pub nothing_seen : Seen
nothing_seen = record { names = []; secrets = []; per_backend = [] }

-- The keys that pass the loop of Apply have valid names, secrets and carriers, sit on
-- registered backends, share neither names nor secrets, and are 16 at most on any backend.
pub check_keys-IsKeySet :
    (registry : List BackendInfo) (ps : List Profile)
    → check_keys registry ps nothing_seen ≡ none
    → IsKeySet registry ps
unfolding lookup
check_keys-IsKeySet registry ps e =
    let fits = check_keys-Fits registry ps nothing_seen e in
    record {
      each = fits.each;
      distinct = fits.distinct;
      few = λ address. omega (arith, fits.few address (omega arith));
    }
