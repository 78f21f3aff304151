-- ===== src/Manager.antt =====
-- internal/session/manager.go: the state that all sessions share. Times are nanoseconds; a session
-- is the number that its pointer has.
pub mod Rate
pub mod Tests
pub mod Bootstraps
pub mod Sessions
pub mod Capacity
use Prim.Native.String.{String}
use tproxy_server.Base.{
  ℕ, suc, ◌+◌, ◌-◌, Bool, true, false, not, ◌&&◌, ◌||◌, Option, none, some, List, [], ◌∷◌, ltb, leb,
  ◌==◌, if◌then◌else◌, bytes_equal, length,
}
use tproxy_server.Base.Table.{Map, lookup, insert, delete, value_or, text_key, bytes_key, Key}
use tproxy_server.Base.Int.{natural}
use tproxy_server.Config.{Limits, Profile, ProfileLimits, resolve, with_default}
use Rate.{Floats, RateState, fresh_rate}

pub record Bootstrap : Type 0 where
  pub expires : ℕ
  pub profile : Profile
  pub issuance_ip : String
  pub body_digest : List ℕ
  pub session_token : List ℕ
  pub session : Option ℕ
  pub used : Bool

-- What the manager reads of a session: the pointer, the client's address, the profile's name.
pub record SessionRef : Type 0 where
  pub id : ℕ
  pub client_ip : String
  pub profile_name : String

pub record Metrics : Type 0 where
  pub sessions_created : ℕ
  pub sessions_closed : ℕ
  pub streams_opened : ℕ
  pub streams_rejected : ℕ
  pub backend_dial_failures : ℕ
  pub bytes_up : ℕ
  pub bytes_down : ℕ
  pub limit_hits : ℕ

abbrev pub no_metrics : Metrics
no_metrics = record {
  sessions_created = 0;
  sessions_closed = 0;
  streams_opened = 0;
  streams_rejected = 0;
  backend_dial_failures = 0;
  bytes_up = 0;
  bytes_down = 0;
  limit_hits = 0;
}

pub record Manager : Type 0 where
  pub limits : Limits
  pub profiles : List Profile
  pub bootstrap_lifetime : ℕ
  pub reconnect_grace : ℕ
  pub token_key : List ℕ
  pub bootstraps : Map (List ℕ) Bootstrap
  pub bootstraps_per_ip : Map String ℕ
  pub sessions : Map (List ℕ) SessionRef
  pub closed_tokens : Map (List ℕ) ℕ
  pub sessions_per_ip : Map String ℕ
  pub sessions_per_profile : Map String ℕ
  pub streams_per_profile : Map String ℕ
  pub dials_per_profile : Map String ℕ
  -- The arithmetic of the buckets. No operation changes it.
  pub floats : Floats
  pub bootstrap_rate : RateState
  pub session_rate : RateState
  pub stream_rate : RateState
  pub profile_session_rates : Map String RateState
  pub profile_stream_rates : Map String RateState
  pub streams_live : ℕ
  pub backend_dials_in_flight : ℕ
  pub pending_global_cost : ℕ
  pub pending_global_items : ℕ
  pub is_closed : Bool
  pub metrics : Metrics
  -- The number of the next session.
  pub next_session : ℕ

abbrev resolved_profile : Limits → Profile → Profile
resolved_profile l p = record p {
  carrier_mode = with_default p.carrier_mode;
  limits = resolve p.limits l;
}

abbrev resolved_profiles : Limits → List Profile → List Profile
resolved_profiles l [] = []
resolved_profiles l (p ∷ profiles) = resolved_profile l p ∷ resolved_profiles l profiles

unfoldable pub new_manager : Floats → Limits → List Profile → ℕ → ℕ → List ℕ → Manager
unfolding resolve with_default
new_manager floats limits profiles lifetime grace key = record {
  limits = limits;
  profiles = resolved_profiles limits profiles;
  bootstrap_lifetime = lifetime;
  reconnect_grace = grace;
  token_key = key;
  bootstraps = [];
  bootstraps_per_ip = [];
  sessions = [];
  closed_tokens = [];
  sessions_per_ip = [];
  sessions_per_profile = [];
  streams_per_profile = [];
  dials_per_profile = [];
  floats = floats;
  bootstrap_rate = fresh_rate;
  session_rate = fresh_rate;
  stream_rate = fresh_rate;
  profile_session_rates = [];
  profile_stream_rates = [];
  streams_live = 0;
  backend_dials_in_flight = 0;
  pending_global_cost = 0;
  pending_global_items = 0;
  is_closed = false;
  metrics = no_metrics;
  next_session = 0;
}

-- A map of counters: a missing key counts 0.
abbrev pub count : String → Map String ℕ → ℕ
count name m = value_or (λ n. n) (lookup name m)

abbrev pub count_up : String → Map String ℕ → Map String ℕ
count_up name m = insert name (suc (count name m)) m

-- `m[name]--`, and a counter that reaches 0 leaves the map. It is positive wherever the program
-- counts down.
abbrev pub count_down : String → Map String ℕ → Map String ℕ
count_down name m = if leb (count name m) 1 then delete name m else insert name (count name m - 1) m

abbrev pub hit_limit : Manager → Manager
hit_limit m = record m { metrics = record (m.metrics) { limit_hits = suc m.metrics.limit_hits } }

-- The last profile whose capability is the value: the loop goes through all of them.
abbrev matching : List ℕ → Option Profile → List Profile → Option Profile
matching value found [] = found
matching value found (p ∷ profiles) =
    matching value (if bytes_equal value p.capability then some p else found) profiles

unfoldable pub match_capability : List ℕ → Manager → Option Profile
match_capability value m = if length value == 32 then matching value none m.profiles else none
