-- ===== src/Config/Loading/Validity.antt =====
-- config.go: what Config.validate and validateProfileLimits leave of the limits.
use tproxy_server.Base.{◌≡◌, Bool, true, not, ◌&&◌, ◌||◌, List, [], ◌∷◌, All, arith}
use tproxy_server.Base.Int.{ℤ, pos, ◌≤ℤ◌, ltb_ℤ, leb_ℤ, signed}
use tproxy_server.Config.{
  LimitsOf, ProfileLimitsOf, all_in_range, limit_checks, resource_limits, or_else, min_int, resolve,
  validate_limits, validate_profile_limits, all_positive,
}

-- The limits of a profile, each at least 1 and within the global one.
pub record IsWithin (l : ProfileLimitsOf ℤ) (global : LimitsOf ℤ) : Type 0 where
  pub sessions : (pos 1 ≤ℤ l.max_sessions) × (l.max_sessions ≤ℤ global.max_sessions_global)
  pub streams : (pos 1 ≤ℤ l.max_streams) × (l.max_streams ≤ℤ global.max_streams_global)
  pub dials :
      (pos 1 ≤ℤ l.max_backend_dials_in_flight)
      × (l.max_backend_dials_in_flight ≤ℤ global.max_backend_dials_in_flight)
      × (l.max_backend_dials_in_flight ≤ℤ l.max_streams)
  pub session_rate :
      (pos 1 ≤ℤ l.new_sessions_per_minute)
      × (l.new_sessions_per_minute ≤ℤ global.new_sessions_per_minute)
      × (pos 1 ≤ℤ l.new_sessions_burst)
      × (l.new_sessions_burst ≤ℤ global.new_sessions_burst)
  pub stream_rate :
      (pos 1 ≤ℤ l.new_streams_per_minute)
      × (l.new_streams_per_minute ≤ℤ global.new_streams_per_minute)
      × (pos 1 ≤ℤ l.new_streams_burst)
      × (l.new_streams_burst ≤ℤ global.new_streams_burst)
  pub session_streams :
      (pos 1 ≤ℤ l.max_streams_per_session)
      × (l.max_streams_per_session ≤ℤ global.max_streams_per_session)
      × (l.max_streams_per_session ≤ℤ l.max_streams)
  pub pending :
      (pos 1 ≤ℤ l.max_pending_per_session)
      × (l.max_pending_per_session ≤ℤ global.max_pending_per_session)

and_lem : (a b : Bool) → (a && b) ≡ true → (a ≡ true) × (b ≡ true)
and_lem a b e = (ground (arith, e), ground (arith, e))

in_range_lem :
    (value limit : ℤ)
    → not (ltb_ℤ value (pos 0) || ltb_ℤ limit value) ≡ true
    → (pos 0 ≤ℤ value) × (value ≤ℤ limit)
in_range_lem value limit e = (ground (arith, e), ground (arith, e))

abbrev InRange : ℤ × ℤ → Type 0
InRange c = (pos 0 ≤ℤ c.0) × (c.0 ≤ℤ c.1)

all_in_range_lem : (checks : List (ℤ × ℤ)) → all_in_range checks ≡ true → All InRange checks
unfolding all_in_range
all_in_range_lem [] e = tt
all_in_range_lem ((value, limit) ∷ checks) e =
    let parts = and_lem (not (ltb_ℤ value (pos 0) || ltb_ℤ limit value)) (all_in_range checks) e in
    (in_range_lem value limit parts.0, all_in_range_lem checks parts.1)

above_lem : (value : ℤ) → ltb_ℤ (pos 0) value ≡ true → pos 1 ≤ℤ value
above_lem value e = ground (arith, e)

all_positive_lem : (values : List ℤ) → all_positive values ≡ true → All (λ v. pos 1 ≤ℤ v) values
unfolding all_positive
all_positive_lem [] e = tt
all_positive_lem (value ∷ values) e =
    let parts = and_lem (ltb_ℤ (pos 0) value) (all_positive values) e in
    (above_lem value parts.0, all_positive_lem values parts.1)

least : (a : ℤ) → a ≤ℤ a
least a = omega arith

leb_lem : (a b : ℤ) → leb_ℤ a b ≡ true → a ≤ℤ b
leb_lem a b e = ground (arith, e)

or_else_lem :
    (value fallback global : ℤ)
    → InRange (value, global)
    → pos 1 ≤ℤ fallback
    → fallback ≤ℤ global
    → (pos 1 ≤ℤ or_else value fallback) × (or_else value fallback ≤ℤ global)
or_else_lem value fallback global h k f = (ground (arith, h, k, f), ground (arith, h, k, f))

min_int_lem :
    (a b : ℤ)
    → pos 1 ≤ℤ a
    → pos 1 ≤ℤ b
    → (pos 1 ≤ℤ min_int a b) × (min_int a b ≤ℤ a) × (min_int a b ≤ℤ b)
unfolding min_int
min_int_lem a b h k = (ground (arith, h, k), ground arith, ground arith)

-- The global limits that a profile's are measured by: each is at least 1.
pub record IsPositive (l : LimitsOf ℤ) : Type 0 where
  pub sessions : pos 1 ≤ℤ l.max_sessions_global
  pub streams : pos 1 ≤ℤ l.max_streams_global
  pub dials : pos 1 ≤ℤ l.max_backend_dials_in_flight
  pub session_rate : (pos 1 ≤ℤ l.new_sessions_per_minute) × (pos 1 ≤ℤ l.new_sessions_burst)
  pub stream_rate : (pos 1 ≤ℤ l.new_streams_per_minute) × (pos 1 ≤ℤ l.new_streams_burst)
  pub session_streams : pos 1 ≤ℤ l.max_streams_per_session
  pub pending : pos 1 ≤ℤ l.max_pending_per_session

pub validate_limits-IsPositive : (l : LimitsOf ℤ) → validate_limits l ≡ true → IsPositive l
unfolding validate_limits all_positive
validate_limits-IsPositive l e =
    let body = (and_lem _ _ e).1 in
    let rest = (and_lem _ _ body).1 in
    let all = all_positive_lem (resource_limits l) (and_lem _ _ rest).0 in
    record {
      session_streams = all.0;
      pending = all.1.1.0;
      sessions = all.1.1.1.1.1.1.0;
      streams = all.1.1.1.1.1.1.1.0;
      dials = all.1.1.1.1.1.1.1.1.0;
      session_rate = (all.1.1.1.1.1.1.1.1.1.0, all.1.1.1.1.1.1.1.1.1.1.0);
      stream_rate = (all.1.1.1.1.1.1.1.1.1.1.1.0, all.1.1.1.1.1.1.1.1.1.1.1.1.0);
    }

-- Where the global limits are validated and the limits of a profile pass their check, each
-- resolved limit is positive and within the global one, and the streams of the profile bound
-- its dials and the streams of one session.
pub resolve-IsWithin :
    (l : ProfileLimitsOf ℤ) (global : LimitsOf ℤ)
    → validate_limits global ≡ true
    → validate_profile_limits l global ≡ true
    → IsWithin (resolve l global) global
unfolding validate_profile_limits resolve
resolve-IsWithin l global g e =
    let parts = and_lem _ _ e in
    let inside = all_in_range_lem (limit_checks l global) parts.0 in
    let under_streams = and_lem _ _ parts.1 in
    let p = validate_limits-IsPositive global g in
    let streams =
      or_else_lem l.max_streams global.max_streams_global global.max_streams_global inside.1.0
        p.streams (least global.max_streams_global) in
    let fewer_dials =
      min_int_lem global.max_backend_dials_in_flight
        (or_else l.max_streams global.max_streams_global) p.dials streams.0 in
    let fewer_streams =
      min_int_lem global.max_streams_per_session (or_else l.max_streams global.max_streams_global)
        p.session_streams streams.0 in
    let dials =
      or_else_lem l.max_backend_dials_in_flight
        (min_int global.max_backend_dials_in_flight
          (or_else l.max_streams global.max_streams_global))
        global.max_backend_dials_in_flight inside.1.1.0 fewer_dials.0 fewer_dials.1 in
    let session_streams =
      or_else_lem l.max_streams_per_session
        (min_int global.max_streams_per_session (or_else l.max_streams global.max_streams_global))
        global.max_streams_per_session inside.1.1.1.1.1.1.1.0 fewer_streams.0 fewer_streams.1 in
    let per_minute =
      or_else_lem l.new_sessions_per_minute global.new_sessions_per_minute
        global.new_sessions_per_minute inside.1.1.1.0 p.session_rate.0
        (least global.new_sessions_per_minute) in
    let burst =
      or_else_lem l.new_sessions_burst global.new_sessions_burst global.new_sessions_burst
        inside.1.1.1.1.0 p.session_rate.1 (least global.new_sessions_burst) in
    let streams_per_minute =
      or_else_lem l.new_streams_per_minute global.new_streams_per_minute
        global.new_streams_per_minute inside.1.1.1.1.1.0 p.stream_rate.0
        (least global.new_streams_per_minute) in
    let streams_burst =
      or_else_lem l.new_streams_burst global.new_streams_burst global.new_streams_burst
        inside.1.1.1.1.1.1.0 p.stream_rate.1 (least global.new_streams_burst) in
    record {
      sessions =
          or_else_lem l.max_sessions global.max_sessions_global global.max_sessions_global inside.0
            p.sessions (least global.max_sessions_global);
      streams = streams;
      dials = (
        dials.0,
        dials.1,
        leb_lem (resolve l global).max_backend_dials_in_flight (resolve l global).max_streams
            under_streams.1,
      );
      session_rate = (per_minute.0, per_minute.1, burst.0, burst.1);
      stream_rate = (streams_per_minute.0, streams_per_minute.1, streams_burst.0, streams_burst.1);
      session_streams = (
        session_streams.0,
        session_streams.1,
        leb_lem (resolve l global).max_streams_per_session (resolve l global).max_streams
            under_streams.0,
      );
      pending =
          or_else_lem l.max_pending_per_session global.max_pending_per_session
            global.max_pending_per_session inside.1.1.1.1.1.1.1.1.0 p.pending
            (least global.max_pending_per_session);
    }
