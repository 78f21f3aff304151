-- ===== src/Config/Tests.antt =====
-- A configuration with two profiles, over stand-ins for the packages net, crypto and encoding.
use tproxy_server.Base.{
  ℕ, ◌+◌, ◌*◌, ◌-◌, ◌≡◌, ◌↔◌, refl, true, false, ◌&&◌, leb, Option, none, some, List, [], ◌∷◌, ◌++◌,
  if◌then◌else◌, take, bytes_equal,
}
use tproxy_server.Base.Int.{ℤ, pos, signed}
use tproxy_server.Base.Text.{split, contains, contains_any, starts, ends}
use tproxy_server.Base.Table.{lookup, insert}
use tproxy_server.Token.{codes}
use tproxy_server.Config.{
  ProfileLimitsOf, LimitsOf, ProfileOf, default_limits, resolve, min_int, validate_limits,
  validate_profile_limits, all_positive, all_in_range, is_valid, with_default, websocket, unset,
}
use tproxy_server.Config.Hostname.{validate_hostname, check_labels, is_ascii, host_bytes}
use tproxy_server.Config.Hostname.Accepted.{IsHostname, validate_hostname_iff}
use tproxy_server.Config.BasePath.{validate_base_path, check_segments, segment_bytes, later_bytes}
use tproxy_server.Config.BasePath.Accepted.{IsPath, validate_base_path_iff}
use tproxy_server.Config.Addresses.{validate_loopback_address}
use tproxy_server.Config.Capability.{decode_secret, derive_capability, capability_message}
use tproxy_server.Config.Capability.Binding.{append_inj}
use tproxy_server.Config.Loading.{
  Outside, Settings, ProfileInput, ProfilesFile, Loaded, loaded, refused, validate, load_profile,
  load_all, load_profiles,
}
use tproxy_server.Config.Loading.Validity.{IsWithin, resolve-IsWithin}
use tproxy_server.Config.Loading.Profiles.{IsLoaded, load_profiles-IsLoaded}
use tproxy_server.Config.Loading.Accepted.{accepted_capabilities}

abbrev pair : List (List ℕ) → Option (List ℕ × List ℕ)
pair (host ∷ port ∷ []) = some (host, port)
pair other = none

abbrev digits : ℕ → List ℕ → Option ℕ
digits n [] = some n
digits n (c ∷ cs) = if leb 48 c && leb c 57 then digits (n * 10 + (c - 48)) cs else none

abbrev localhost : List ℕ
localhost = codes "127.0.0.1"

abbrev outside : Outside
outside = record {
  net = record {
    split_host_port = λ a. pair (split 58 a);
    is_ip = λ h. bytes_equal h localhost;
    is_loopback = λ h. bytes_equal h localhost;
    atoi = digits 0;
    parse_url = λ u. none;
  };
  crypto = record {
    base64_encode = λ x. x;
    base64_decode = λ x. some x;
    sha256 = λ x. x;
    hmac = λ key message. key ++ message;
  };
  decoders = record {
    hex = λ s. some (take 16 s);
    raw_url = λ s. some s;
    url = λ s. some s;
    trim_space = λ s. s;
  };
  is_directory = λ d. true;
  has_index = λ d. true;
  to_lower = λ s. s;
  utf8 = codes;
}

validate_hostname_iff_example :
    (validate_hostname (λ h. false) (codes "relay.example.org") ≡ none)
    ↔ IsHostname (λ h. false) (codes "relay.example.org")
validate_hostname_iff_example = validate_hostname_iff (λ h. false) (codes "relay.example.org")

validate_base_path_iff_example :
    (validate_base_path (codes "relay/v1") ≡ none) ↔ IsPath (codes "relay/v1")
validate_base_path_iff_example = validate_base_path_iff (codes "relay/v1")

-- The defaults as a file gives them.
abbrev signed_limits : LimitsOf ℤ
signed_limits = record {
  max_header_bytes = pos default_limits.max_header_bytes;
  max_body_bytes = pos default_limits.max_body_bytes;
  max_frame_payload = pos default_limits.max_frame_payload;
  carrier_batch_bytes = pos default_limits.carrier_batch_bytes;
  max_streams_per_session = pos default_limits.max_streams_per_session;
  max_closed_stream_ids = pos default_limits.max_closed_stream_ids;
  max_pending_per_session = pos default_limits.max_pending_per_session;
  max_pending_global = pos default_limits.max_pending_global;
  max_pending_items_per_session = pos default_limits.max_pending_items_per_session;
  max_pending_items_global = pos default_limits.max_pending_items_global;
  max_sessions_per_ip = pos default_limits.max_sessions_per_ip;
  max_sessions_global = pos default_limits.max_sessions_global;
  max_streams_global = pos default_limits.max_streams_global;
  max_backend_dials_in_flight = pos default_limits.max_backend_dials_in_flight;
  new_sessions_per_minute = pos default_limits.new_sessions_per_minute;
  new_sessions_burst = pos default_limits.new_sessions_burst;
  new_streams_per_minute = pos default_limits.new_streams_per_minute;
  new_streams_burst = pos default_limits.new_streams_burst;
  max_bootstraps_per_ip = pos default_limits.max_bootstraps_per_ip;
  max_bootstraps_global = pos default_limits.max_bootstraps_global;
  new_bootstraps_per_minute = pos default_limits.new_bootstraps_per_minute;
  new_bootstraps_burst = pos default_limits.new_bootstraps_burst;
  max_profiles = pos default_limits.max_profiles;
}

abbrev few : ProfileLimitsOf ℤ
few = record {
  max_sessions = pos 0;
  max_streams = pos 64;
  max_backend_dials_in_flight = pos 0;
  new_sessions_per_minute = pos 0;
  new_sessions_burst = pos 0;
  new_streams_per_minute = pos 0;
  new_streams_burst = pos 0;
  max_streams_per_session = pos 0;
  max_pending_per_session = pos 0;
}

few-passes :
    (validate_limits signed_limits ≡ true) × (validate_profile_limits few signed_limits ≡ true)
unfolding validate_limits validate_profile_limits resolve min_int all_positive all_in_range
few-passes = (refl, refl)

resolve-IsWithin_example : IsWithin (resolve few signed_limits) signed_limits
resolve-IsWithin_example = resolve-IsWithin few signed_limits few-passes.0 few-passes.1

abbrev settings : Settings
settings = record {
  listen = codes "127.0.0.1:8080";
  admin_listen = codes "127.0.0.1:8081";
  public_hostname = codes "relay.example.org";
  base_path = codes "relay/v1";
  public_dir = codes "/srv/www";
  public_upstream = [];
  static_routes = codes "legacy";
  profiles_file = codes "/etc/profiles.json";
  limits = signed_limits;
  timeouts = record {
    backend_dial = pos 5;
    long_poll = pos 25;
    reconnect_grace = pos 120;
    bootstrap_lifetime = pos 120;
    read_header = pos 10;
    idle = pos 75;
    shutdown = pos 15;
  };
}

settings-valid : validate outside settings ≡ none
unfolding validate validate_hostname check_labels is_ascii host_bytes validate_base_path
    check_segments segment_bytes later_bytes validate_loopback_address validate_limits all_positive
    split contains contains_any starts ends bytes_equal
settings-valid = refl

accepted_capabilities_example :
    (settings.public_hostname ≡ settings.public_hostname)
    × (settings.base_path ≡ settings.base_path)
accepted_capabilities_example =
    accepted_capabilities outside settings settings (codes "0123456789abcdef") settings-valid
      settings-valid (append_inj (codes "0123456789abcdef") _ _) refl

abbrev inputs : List ProfileInput
inputs =
    record {
      name = "home";
      backend = "127.0.0.1:443";
      carrier_mode = unset;
      secret = codes "0123456789abcdef";
      limits = few;
    }
    ∷ record {
      name = "office";
      backend = "127.0.0.1:444";
      carrier_mode = websocket;
      secret = codes "fedcba9876543210";
      limits = few;
    }
    ∷ []

abbrev file : ProfilesFile
file = record { permissions = some 384; is_credential = false; entries = some inputs }

abbrev profiles_of : Loaded (List (ProfileOf ℤ)) → List (ProfileOf ℤ)
profiles_of (loaded ps) = ps
profiles_of (refused e) = []

abbrev loaded_profiles : List (ProfileOf ℤ)
loaded_profiles =
    profiles_of
      (load_profiles outside settings.public_hostname settings.base_path signed_limits file)

file-loads :
    load_profiles outside settings.public_hostname settings.base_path signed_limits file
    ≡ loaded loaded_profiles
unfolding load_profiles load_all load_profile resolve min_int validate_profile_limits all_in_range
    is_valid with_default decode_secret derive_capability capability_message
    validate_loopback_address split lookup insert bytes_equal
file-loads = refl

load_profiles-IsLoaded_example :
    IsLoaded outside settings.public_hostname settings.base_path signed_limits inputs
      loaded_profiles
load_profiles-IsLoaded_example =
    load_profiles-IsLoaded outside settings.public_hostname settings.base_path signed_limits file
      inputs loaded_profiles few-passes.0 refl file-loads
