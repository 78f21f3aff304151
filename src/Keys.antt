-- ===== src/Keys.antt =====
-- keys-panel/store.go: the keys of the panel, the backends that they sit on, and the checks that
-- Apply makes of a set of keys.
pub mod Applying
pub mod Checked
pub mod Adding
pub mod Editing
pub mod Secrets
mod Tests
use tproxy_server.Base.{
  ℕ, suc, Bool, true, false, not, ◌&&◌, ◌||◌, Option, none, some, List, [], ◌∷◌, ltb, leb, ◌==◌,
  if◌then◌else◌, length, drop, take, bytes_equal,
}
use tproxy_server.Base.Table.{Map, bytes_key, lookup, insert, has}
use tproxy_server.Token.{codes}

-- One entry of the profiles file. `limits` is kept as it is.
pub record Profile : Type 0 where
  pub name : List ℕ
  pub secret : List ℕ
  pub backend : List ℕ
  pub carrier_mode : List ℕ
  pub limits : List ℕ

pub record BackendInfo : Type 0 where
  pub address : List ℕ
  pub unit : List ℕ
  pub env_file : List ℕ

abbrev pub max_secrets_per_backend : ℕ
max_secrets_per_backend = 16

-- A Go map of counters, where a missing key counts 0.
abbrev pub Usage : Type 0
Usage = Map (List ℕ) ℕ

abbrev pub used : List ℕ → Usage → ℕ
used address usage = elim (lookup address usage) [ none ↦ 0 | some n ↦ n ]

-- `usage[address]++`
abbrev pub one_more : List ℕ → Usage → Usage
one_more address usage = insert address (suc (used address usage)) usage

abbrev pub usage_from : List Profile → Usage → Usage
usage_from [] usage = usage
usage_from (p ∷ profiles) usage = usage_from profiles (one_more p.backend usage)

unfoldable pub backend_usage : List Profile → Usage
backend_usage profiles = usage_from profiles []

-- `none` is errBackendsFull.
unfoldable pub pick_backend : List BackendInfo → Usage → Option (List ℕ)
pick_backend [] usage = none
pick_backend (b ∷ registry) usage =
    if ltb (used b.address usage) max_secrets_per_backend
    then some b.address
    else pick_backend registry usage

abbrev is_alphanumeric : ℕ → Bool
is_alphanumeric c = (leb 97 c && leb c 122) || ((leb 65 c && leb c 90) || (leb 48 c && leb c 57))

-- "_", "." and "-"
abbrev is_name_byte : ℕ → Bool
is_name_byte c = is_alphanumeric c || ((c == 95) || ((c == 46) || (c == 45)))

abbrev is_hex : ℕ → Bool
is_hex c = (leb 48 c && leb c 57) || (leb 97 c && leb c 102)

abbrev pub every : (ℕ → Bool) → List ℕ → Bool
every test [] = true
every test (c ∷ cs) = test c && every test cs

-- nameRE, `^[a-zA-Z0-9][a-zA-Z0-9_.-]{0,63}$`
unfoldable pub matches_name : List ℕ → Bool
matches_name [] = false
matches_name (c ∷ cs) = is_alphanumeric c && (every is_name_byte cs && leb (length cs) 63)

abbrev starts_dd : List ℕ → Bool
starts_dd secret = bytes_equal (take 2 secret) (codes "dd")

-- secretRE, `^(dd)?[0-9a-f]{32}$`
unfoldable pub matches_secret : List ℕ → Bool
matches_secret secret =
    ((length secret == 32) && every is_hex secret)
    || ((length secret == 34) && (starts_dd secret && every is_hex (drop 2 secret)))

unfoldable pub valid_carrier : List ℕ → Bool
valid_carrier mode =
    bytes_equal mode []
    || (bytes_equal mode (codes "https")
        || (bytes_equal mode (codes "https-lanes")
            || (bytes_equal mode (codes "websocket")
                || bytes_equal mode (codes "websocket-lanes"))))

unfoldable pub backend_secret : List ℕ → List ℕ
backend_secret secret = if (length secret == 34) && starts_dd secret then drop 2 secret else secret

abbrev pub registered : List BackendInfo → Map (List ℕ) (Unit {0})
registered [] = []
registered (b ∷ registry) = insert b.address tt (registered registry)

-- The errors of the loop in Apply, in the order of its tests.
pub data KeyError : Type 0 where
  bad_name bad_secret bad_carrier same_name same_secret unregistered backend_full : KeyError

-- seenName, seenSecret and perBackend.
pub record Seen : Type 0 where
  pub names : Map (List ℕ) (Unit {0})
  pub secrets : Map (List ℕ) (Unit {0})
  pub per_backend : Usage

abbrev pub seen_after : Profile → Seen → Seen
seen_after p seen = record {
  names = insert p.name tt seen.names;
  secrets = insert p.secret tt seen.secrets;
  per_backend = one_more p.backend seen.per_backend;
}

-- The tests before the counter, `none` where all pass.
unfoldable pub check_key : List BackendInfo → Profile → Seen → Option KeyError
unfolding matches_name matches_secret valid_carrier
check_key registry p seen =
    if not (matches_name p.name)
    then some bad_name
    else if not (matches_secret p.secret)
    then some bad_secret
    else if not (valid_carrier p.carrier_mode)
    then some bad_carrier
    else if has p.name seen.names
    then some same_name
    else if has p.secret seen.secrets
    then some same_secret
    else if not (has p.backend (registered registry))
    then some unregistered
    else if ltb max_secrets_per_backend (used p.backend (one_more p.backend seen.per_backend))
    then some backend_full
    else none

unfoldable pub check_keys : List BackendInfo → List Profile → Seen → Option KeyError
unfolding check_key
check_keys registry [] seen = none
check_keys registry (p ∷ profiles) seen = elim (check_key registry p seen) [
  | some e ↦ some e
  | none ↦ check_keys registry profiles (seen_after p seen)
]
