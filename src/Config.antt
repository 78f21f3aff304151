-- ===== src/Config.antt =====
-- internal/config/config.go: the limits, profiles and carrier modes that the relay works with.
pub mod Addresses
pub mod BasePath
pub mod Capability
pub mod Hostname
pub mod Loading
mod Tests
use Prim.Native.String.{String}
use tproxy_server.Base.{ℕ, ◌*◌, Bool, true, false, ◌&&◌, ◌||◌, not, List, [], ◌∷◌, if◌then◌else◌}
use tproxy_server.Base.Int.{ℤ, pos, ltb_ℤ, leb_ℤ, Number, signed}

-- The four modes by name, the empty string of an omitted setting, and any other string.
pub data CarrierMode : Type 0 where
  https https_lanes websocket websocket_lanes unset unknown : CarrierMode

unfoldable pub is_valid : CarrierMode → Bool
is_valid https = true
is_valid https_lanes = true
is_valid websocket = true
is_valid websocket_lanes = true
is_valid unset = false
is_valid unknown = false

unfoldable pub with_default : CarrierMode → CarrierMode
with_default unset = https
with_default mode = mode

-- The limits over a kind of numbers: as the file gives them, over the integers, and, once
-- accepted, over the natural numbers.
pub record LimitsOf (N : Type 0) : Type 0 where
  pub max_header_bytes : N
  pub max_body_bytes : N
  pub max_frame_payload : N
  pub carrier_batch_bytes : N
  pub max_streams_per_session : N
  pub max_closed_stream_ids : N
  pub max_pending_per_session : N
  pub max_pending_global : N
  pub max_pending_items_per_session : N
  pub max_pending_items_global : N
  pub max_sessions_per_ip : N
  pub max_sessions_global : N
  pub max_streams_global : N
  pub max_backend_dials_in_flight : N
  pub new_sessions_per_minute : N
  pub new_sessions_burst : N
  pub new_streams_per_minute : N
  pub new_streams_burst : N
  pub max_bootstraps_per_ip : N
  pub max_bootstraps_global : N
  pub new_bootstraps_per_minute : N
  pub new_bootstraps_burst : N
  pub max_profiles : N

pub record ProfileLimitsOf (N : Type 0) : Type 0 where
  pub max_sessions : N
  pub max_streams : N
  pub max_backend_dials_in_flight : N
  pub new_sessions_per_minute : N
  pub new_sessions_burst : N
  pub new_streams_per_minute : N
  pub new_streams_burst : N
  pub max_streams_per_session : N
  pub max_pending_per_session : N

pub record ProfileOf (N : Type 0) : Type 0 where
  pub name : String
  pub backend : String
  pub carrier_mode : CarrierMode
  pub capability : List ℕ
  pub limits : ProfileLimitsOf N

abbrev pub Limits : Type 0
Limits = LimitsOf ℕ

abbrev pub ProfileLimits : Type 0
ProfileLimits = ProfileLimitsOf ℕ

abbrev pub Profile : Type 0
Profile = ProfileOf ℕ

module _ {N : Type 0} ⦃n : Number N⦄ where
  unfoldable pub min_int : N → N → N
  min_int first second = if n.less first second then first else second

  abbrev pub or_else : N → N → N
  or_else value fallback = if n.is_zero value then fallback else value

  -- ProfileLimits.WithDefaults: a zero takes the global value; two defaults are capped by
  -- MaxStreams as already resolved.
  unfoldable pub resolve : ProfileLimitsOf N → LimitsOf N → ProfileLimitsOf N
  unfolding min_int
  resolve limits global = record {
    max_sessions = or_else limits.max_sessions global.max_sessions_global;
    max_streams = streams;
    max_backend_dials_in_flight =
        or_else limits.max_backend_dials_in_flight
          (min_int global.max_backend_dials_in_flight streams);
    new_sessions_per_minute = or_else limits.new_sessions_per_minute global.new_sessions_per_minute;
    new_sessions_burst = or_else limits.new_sessions_burst global.new_sessions_burst;
    new_streams_per_minute = or_else limits.new_streams_per_minute global.new_streams_per_minute;
    new_streams_burst = or_else limits.new_streams_burst global.new_streams_burst;
    max_streams_per_session =
        or_else limits.max_streams_per_session (min_int global.max_streams_per_session streams);
    max_pending_per_session = or_else limits.max_pending_per_session global.max_pending_per_session;
  }
    where
      streams : N
      streams = or_else limits.max_streams global.max_streams_global

-- The loop over the checks: no value is below 0 or above its limit.
unfoldable pub all_in_range : List (ℤ × ℤ) → Bool
all_in_range [] = true
all_in_range ((value, limit) ∷ checks) =
    not (ltb_ℤ value (pos 0) || ltb_ℤ limit value) && all_in_range checks

abbrev pub limit_checks : ProfileLimitsOf ℤ → LimitsOf ℤ → List (ℤ × ℤ)
limit_checks value global =
    (value.max_sessions, global.max_sessions_global)
    ∷ (value.max_streams, global.max_streams_global)
    ∷ (value.max_backend_dials_in_flight, global.max_backend_dials_in_flight)
    ∷ (value.new_sessions_per_minute, global.new_sessions_per_minute)
    ∷ (value.new_sessions_burst, global.new_sessions_burst)
    ∷ (value.new_streams_per_minute, global.new_streams_per_minute)
    ∷ (value.new_streams_burst, global.new_streams_burst)
    ∷ (value.max_streams_per_session, global.max_streams_per_session)
    ∷ (value.max_pending_per_session, global.max_pending_per_session)
    ∷ []

-- validateProfileLimits, as the test that it passes.
unfoldable pub validate_profile_limits : ProfileLimitsOf ℤ → LimitsOf ℤ → Bool
unfolding resolve all_in_range
validate_profile_limits value global =
    all_in_range (limit_checks value global)
    && (leb_ℤ resolved.max_streams_per_session resolved.max_streams
        && leb_ℤ resolved.max_backend_dials_in_flight resolved.max_streams)
  where
    resolved : ProfileLimitsOf ℤ
    resolved = resolve value global

unfoldable pub all_positive : List ℤ → Bool
all_positive [] = true
all_positive (value ∷ values) = ltb_ℤ (pos 0) value && all_positive values

abbrev pub max_carrier_batch_bytes : ℤ
max_carrier_batch_bytes = pos (2 * 1024 * 1024)

abbrev pub resource_limits : LimitsOf ℤ → List ℤ
resource_limits l =
    l.max_streams_per_session ∷ l.max_closed_stream_ids ∷ l.max_pending_per_session
    ∷ l.max_pending_global ∷ l.max_pending_items_per_session ∷ l.max_pending_items_global
    ∷ l.max_sessions_global ∷ l.max_streams_global ∷ l.max_backend_dials_in_flight
    ∷ l.new_sessions_per_minute ∷ l.new_sessions_burst ∷ l.new_streams_per_minute
    ∷ l.new_streams_burst ∷ l.max_bootstraps_global ∷ l.new_bootstraps_per_minute
    ∷ l.new_bootstraps_burst ∷ l.max_profiles ∷ []

-- Config.validate, its part on the limits, as the test that it passes. The two per-IP limits may
-- be 0, which switches them off.
unfoldable pub validate_limits : LimitsOf ℤ → Bool
unfolding all_positive
validate_limits l =
    frame_limits
    && (leb_ℤ l.carrier_batch_bytes max_carrier_batch_bytes
        && (all_positive (resource_limits l) && (per_ip && ordered)))
  where
    frame_limits : Bool
    frame_limits = not (
        ltb_ℤ l.max_header_bytes (pos 4096)
        || (ltb_ℤ l.max_body_bytes (pos 1024)
            || (leb_ℤ l.max_frame_payload (pos 0)
                || (ltb_ℤ (pos (1024 * 1024)) l.max_frame_payload
                    || (ltb_ℤ l.carrier_batch_bytes (pos (256 * 1024))
                        || ltb_ℤ l.max_body_bytes l.carrier_batch_bytes)))))

    per_ip : Bool
    per_ip = not (ltb_ℤ l.max_sessions_per_ip (pos 0) || ltb_ℤ l.max_bootstraps_per_ip (pos 0))

    ordered : Bool
    ordered = not (
        ltb_ℤ l.max_pending_global l.max_pending_per_session
        || (ltb_ℤ l.max_pending_items_global l.max_pending_items_per_session
            || (ltb_ℤ l.max_sessions_global l.max_sessions_per_ip
                || (ltb_ℤ l.max_streams_global l.max_streams_per_session
                    || (ltb_ℤ l.max_streams_global l.max_backend_dials_in_flight
                        || ltb_ℤ l.max_bootstraps_global l.max_bootstraps_per_ip)))))

-- Defaults().Limits
abbrev pub default_limits : Limits
default_limits = record {
  max_header_bytes = 16 * 1024;
  max_body_bytes = 2 * 1024 * 1024;
  max_frame_payload = 1024 * 1024;
  carrier_batch_bytes = 2 * 1024 * 1024;
  max_streams_per_session = 128;
  max_closed_stream_ids = 4096;
  max_pending_per_session = 32 * 1024 * 1024;
  max_pending_global = 512 * 1024 * 1024;
  max_pending_items_per_session = 16 * 1024;
  max_pending_items_global = 256 * 1024;
  max_sessions_per_ip = 0;
  max_sessions_global = 128;
  max_streams_global = 4096;
  max_backend_dials_in_flight = 256;
  new_sessions_per_minute = 600;
  new_sessions_burst = 128;
  new_streams_per_minute = 6000;
  new_streams_burst = 512;
  max_bootstraps_per_ip = 0;
  max_bootstraps_global = 512;
  new_bootstraps_per_minute = 1200;
  new_bootstraps_burst = 256;
  max_profiles = 32;
}
