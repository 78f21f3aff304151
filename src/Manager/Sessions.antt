-- ===== src/Manager/Sessions.antt =====
-- manager.go: sessions, from Create to sessionFinished, and their tokens.
use Prim.Native.String.{String}
use tproxy_server.Base.{
  ℕ, suc, Bool, true, false, not, ◌&&◌, ◌||◌, Option, none, some, List, [], ltb, leb, ◌==◌,
  if◌then◌else◌, bytes_equal,
}
use tproxy_server.Base.Table.{Map, lookup, insert, size, text_key, bytes_key}
use tproxy_server.Config.{Limits, Profile}
use tproxy_server.Frame.{parse_hello, frame_bytes, welcome_type, Result}
use tproxy_server.Session.{authentication, limit, protocol, random_failure}
use tproxy_server.Session.Close.{has}
use tproxy_server.Token.{Crypto, NewToken, new_token, token_hash, session}
use tproxy_server.Manager.{Manager, Bootstrap, SessionRef, count, count_up, hit_limit}
use tproxy_server.Manager.Rate.{Floats, RateState, take_rate, fresh_rate}
use tproxy_server.Manager.Bootstraps.{Outcome, ok, err, release_unused_bootstrap}

-- `session` is the pointer. The limits and the carrier are those that newSession is given.
pub record CreateResult : Type 0 where
  pub token : List ℕ
  pub welcome : List ℕ
  pub session : ℕ

abbrev rate_of : String → Map String RateState → RateState
rate_of name m = elim (lookup name m) [ none ↦ fresh_rate | some r ↦ r ]

-- Both buckets are tried, and change only where both allow.
pub record Buckets : Type 0 where
  pub global : RateState
  pub profiles : Map String RateState

abbrev both : Buckets → String → RateState × Bool → RateState × Bool → Buckets × Bool
both b name (g, allowed) (p, allowed_too) =
    if not allowed || not allowed_too
    then (b, false)
    else (record { global = g; profiles = insert name p b.profiles }, true)

unfoldable pub allow_profile_rate : Floats → Buckets → String → ℕ → ℕ → ℕ → ℕ → ℕ → Buckets × Bool
allow_profile_rate f b name now global_per_minute global_burst profile_per_minute profile_burst =
    both b name (take_rate f now global_per_minute global_burst b.global)
      (take_rate f now profile_per_minute profile_burst (rate_of name b.profiles))

-- The limits of the session that Create makes.
unfoldable pub session_limits : Profile → Manager → Limits
session_limits p m = record (m.limits) {
  max_streams_per_session = p.limits.max_streams_per_session;
  max_pending_per_session = p.limits.max_pending_per_session;
}

abbrev welcome_body : List ℕ
welcome_body = frame_bytes welcome_type 0 []

abbrev over_limit : Bootstrap → String → Manager → Bool
over_limit b ip m =
    m.is_closed
    || (leb m.limits.max_sessions_global (size m.sessions)
        || (leb b.profile.limits.max_sessions (count b.profile.name m.sessions_per_profile)
            || (not (m.limits.max_sessions_per_ip == 0)
                && leb m.limits.max_sessions_per_ip (count ip m.sessions_per_ip))))

abbrev counted_created : Manager → Manager
counted_created m = record m {
  metrics = record (m.metrics) { sessions_created = suc m.metrics.sessions_created };
}

abbrev registered : Bootstrap → String → NewToken → Manager → Manager
registered b ip t m = record m {
  sessions =
      insert t.hash (record { id = m.next_session; client_ip = ip; profile_name = b.profile.name })
        m.sessions;
  sessions_per_ip = count_up ip m.sessions_per_ip;
  sessions_per_profile = count_up b.profile.name m.sessions_per_profile;
  next_session = suc m.next_session;
}

abbrev consumed : List ℕ → Bootstrap → List ℕ → NewToken → ℕ → Manager → Manager
consumed hash b digest t id m = record m {
  bootstraps =
      insert hash
        (record b { used = true; body_digest = digest; session_token = t.token; session = some id })
        m.bootstraps;
}

abbrev replayed : Bootstrap → List ℕ → Option ℕ → Manager → Outcome CreateResult × Manager
replayed b digest none m = (err authentication, m)
replayed b digest (some id) m =
    if bytes_equal b.body_digest digest
    then (ok (record { token = b.session_token; welcome = welcome_body; session = id }), m)
    else (err authentication, m)

module _ (c : Crypto) where
  abbrev created :
      List ℕ
      → Bootstrap
      → String
      → List ℕ
      → Option NewToken
      → Manager
      → Outcome CreateResult × Manager
  created hash b ip digest none m = (err random_failure, m)
  created hash b ip digest (some t) m = (
    ok (record { token = t.token; welcome = welcome_body; session = m.next_session }),
    counted_created (
        consumed hash b digest t m.next_session (release_unused_bootstrap b (registered b ip t m))),
  )

  abbrev rate_checked :
      List ℕ
      → Bootstrap
      → String
      → List ℕ
      → Option (List ℕ)
      → Manager
      → Buckets × Bool
      → Outcome CreateResult × Manager
  rate_checked hash b ip digest random m (buckets, false) = (err limit, hit_limit m)
  rate_checked hash b ip digest random m (buckets, true) =
      created hash b ip digest (new_token c m.token_key session random)
        (record m { session_rate = buckets.global; profile_session_rates = buckets.profiles })

  abbrev create_from :
      ℕ
      → List ℕ
      → Bootstrap
      → String
      → List ℕ
      → Option (List ℕ)
      → Manager
      → Outcome CreateResult × Manager
  create_from now hash b ip digest random m =
      if ltb b.expires now
      then (err authentication, m)
      else if b.used
      then replayed b digest b.session m
      else if over_limit b ip m
      then (err limit, hit_limit m)
      else rate_checked hash b ip digest random m (
          allow_profile_rate m.floats
            (record { global = m.session_rate; profiles = m.profile_session_rates }) b.profile.name
            now m.limits.new_sessions_per_minute m.limits.new_sessions_burst
            b.profile.limits.new_sessions_per_minute b.profile.limits.new_sessions_burst)

  abbrev create_hashed :
      ℕ
      → Option (List ℕ)
      → String
      → List ℕ
      → Option (List ℕ)
      → Manager
      → Outcome CreateResult × Manager
  create_hashed now none ip body random m = (err authentication, m)
  create_hashed now (some hash) ip body random m = elim (lookup hash m.bootstraps) [
    | none ↦ (err authentication, m)
    | some b ↦ create_from now hash b ip (c.sha256 body) random m
  ]

  unfoldable pub create :
      ℕ → List ℕ → String → List ℕ → Option (List ℕ) → Manager → Outcome CreateResult × Manager
  unfolding allow_profile_rate release_unused_bootstrap
  create now token ip body random m = elim (parse_hello body) [
    | Result.ok u ↦ create_hashed now (token_hash c token) ip body random m
    | _ ↦ (err protocol, m)
  ]

  -- The session behind a token.
  unfoldable pub get : List ℕ → Manager → Option SessionRef
  get token m = elim (token_hash c token) [ none ↦ none | some hash ↦ lookup hash m.sessions ]

-- What CloseToken does: an error, nothing for a token that is closed already, or the close of the
-- session.
pub data CloseTarget : Type 0 where
  refuses already_closed : CloseTarget
  closes : ℕ → CloseTarget

unfoldable pub close_token : Crypto → List ℕ → Manager → CloseTarget
close_token c token m = elim (token_hash c token) [
  | none ↦ refuses
  | some hash ↦ elim (lookup hash m.sessions) [
    | some s ↦ closes s.id
    | none ↦ if has hash m.closed_tokens then already_closed else refuses
  ]
]
