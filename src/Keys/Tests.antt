-- ===== src/Keys/Tests.antt =====
-- A panel over a host that is a table of files, where every service starts.
use tproxy_server.Base.{
  ℕ, ◌≤◌, ◌≡◌, ◌≢◌, refl, ap, subst, true, false, Option, none, some, List, [], ◌∷◌, ◌++◌, arith,
  length, bytes_equal, All, Bool-cases, inl, inr,
}
use tproxy_server.Base.Table.{Map, bytes_key, bytes_equal_iff, lookup, insert, lookup-insert}
use tproxy_server.Base.Text.{join, contains}
use tproxy_server.Token.{codes}
use tproxy_server.Keys.{
  Profile, BackendInfo, max_secrets_per_backend, matches_name, matches_secret, valid_carrier,
  check_key, check_keys, backend_usage, pick_backend,
}
use tproxy_server.Keys.Checked.{IsKeySet, nothing_seen, check_keys-IsKeySet, on_address}
use tproxy_server.Keys.Secrets.{newline, upsert_secret_args}
use tproxy_server.Keys.Secrets.Lines.{IsUpdate, upsert-upsert}
use tproxy_server.Keys.Applying.{Read, content, missing, System, apply}
use tproxy_server.Keys.Applying.Rollback.{SystemLaws, Leaves, apply-Leaves}
use tproxy_server.Keys.Editing.{Panel}
use tproxy_server.Keys.Adding.{NewKeyRequest, assign, choose_backend}
use tproxy_server.Keys.Adding.Assigned.{assign-few}

abbrev Files : Type 0
Files = Map (List ℕ) (List ℕ)

abbrev path : List ℕ
path = codes "/etc/tproxy-server/profiles.json"

abbrev backend : BackendInfo
backend = record {
  address = codes "127.0.0.1:2398";
  unit = codes "mtproxy.service";
  env_file = codes "/etc/mtproxy/mtproxy-keys.env";
}

abbrev key : List ℕ → List ℕ → Profile
key name secret = record {
  name = name;
  secret = secret;
  backend = backend.address;
  carrier_mode = codes "https";
  limits = [];
}

abbrev two_keys : List Profile
two_keys =
    key (codes "home") (codes "00112233445566778899aabbccddeeff")
    ∷ key (codes "office") (codes "ddffeeddccbbaa99887766554433221100")
    ∷ []

two_keys-checked : check_keys (backend ∷ []) two_keys nothing_seen ≡ none
unfolding check_keys check_key matches_name matches_secret valid_carrier lookup insert bytes_equal
two_keys-checked = refl

check_keys-IsKeySet_example : IsKeySet (backend ∷ []) two_keys
check_keys-IsKeySet_example = check_keys-IsKeySet (backend ∷ []) two_keys two_keys-checked

abbrev env : List ℕ
env = codes "MTPROXY_CLIENT_PORT=2399" ++ (newline ∷ [])

upsert-upsert_example :
    IsUpdate env (codes "-S 00") (upsert_secret_args env (codes "-S 00"))
    × (upsert_secret_args (upsert_secret_args env (codes "-S 00")) (codes "-S 11")
        ≡ upsert_secret_args env (codes "-S 11"))
unfolding contains
upsert-upsert_example = upsert-upsert env (codes "-S 00") (codes "-S 11") refl

abbrev found : Option (List ℕ) → Read
found none = missing
found (some bytes) = content bytes

instance abbrev host : System Files
host = record {
  load_backends = λ w. some (backend ∷ []);
  max_profiles = λ w. 32;
  marshal = λ ps. some (join newline (names ps));
  unmarshal = λ bytes. some [];
  read_file = λ p w. found (lookup p w);
  write_file = λ p c w. (true, insert p c w);
  relay_accepts = λ c w. (true, w);
  restart = λ u w. (true, w);
  await_ready = λ w. (true, w);
}
  where
    names : List Profile → List (List ℕ)
    names [] = []
    names (p ∷ ps) = p.name ∷ names ps

host-SystemLaws : SystemLaws Files host
host-SystemLaws = record {
  reads_written = λ p c w e. written p c w;
  reads_elsewhere = λ p q c w n. elsewhere p q c w n;
  reads_unwritten = λ p c w e. cc;
  reads_checked = λ c q w. refl;
  reads_restarted = λ u q w. refl;
  reads_ready = λ q w. refl;
}
  where
    written : (p c : List ℕ) (w : Files) → found (lookup p (insert p c w)) ≡ content c
    written p c w = rw (lookup-insert p p c w, (bytes_equal_iff p p).1 refl) refl

    elsewhere :
        (p q c : List ℕ) (w : Files) → p ≢ q → found (lookup q (insert p c w)) ≡ found (lookup q w)
    elsewhere p q c w n = elim (Bool-cases (bytes_equal p q)) [
      | inl x ↦ absurd (n ((bytes_equal_iff p q).0 x))
      | inr x ↦ rw (lookup-insert p q c w, x) refl
    ]

abbrev files : Files
files = (path, codes "old") ∷ []

other_path : backend.env_file ≢ path
other_path x = omega (arith, ap length x)

elsewhere :
    (registry : List BackendInfo)
    → host.load_backends files ≡ some registry
    → All (λ b. b.env_file ≢ path) registry
elsewhere registry e =
    let same : (backend ∷ []) ≡ registry = cc e in
    subst (All (λ b. b.env_file ≢ path)) same (other_path, tt)

apply-Leaves_example : Leaves host-SystemLaws path two_keys files (apply path two_keys files)
apply-Leaves_example = apply-Leaves host-SystemLaws path (λ c w. refl) two_keys files elsewhere

instance abbrev panel : Panel Files
panel = record {
  load_profiles = λ w. some two_keys;
  load_meta = λ w. [];
  save_meta = λ m w. (true, w);
  provision = λ w. (false, w);
  new_secret = λ w. (some (codes "0123456789abcdef0123456789abcdef"), w);
  now = λ w. codes "2026-01-01T00:00:00Z";
  trim = λ s. s;
}

abbrev request : NewKeyRequest
request = record { name = codes "travel"; label = []; group = []; mode = codes "https" }

abbrev third : Profile
third = key (codes "travel") (codes "0123456789abcdef0123456789abcdef")

assigned :
    assign (request ∷ []) (backend ∷ []) (backend_usage two_keys) files ≡ (some (third ∷ []), files)
unfolding assign choose_backend pick_backend backend_usage lookup insert bytes_equal
assigned = refl

two_keys-few : (address : List ℕ) → on_address address two_keys ≤ max_secrets_per_backend
two_keys-few address = ground arith

assign-few_example :
    (length (third ∷ []) ≡ length (request ∷ []))
    × ((address : List ℕ) → on_address address (two_keys ++ (third ∷ [])) ≤ max_secrets_per_backend)
assign-few_example =
    assign-few (request ∷ []) (backend ∷ []) two_keys (third ∷ []) files files two_keys-few assigned
