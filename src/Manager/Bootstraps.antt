-- ===== src/Manager/Bootstraps.antt =====
-- manager.go: bootstraps, from IssueBootstrap to their eviction and expiry.
use Prim.Native.String.{String}
use tproxy_server.Base.{
  ℕ, ◌+◌, Bool, true, false, not, ◌&&◌, ◌||◌, Option, none, some, List, [], ◌∷◌, ltb, leb, ◌==◌,
  if◌then◌else◌,
}
use tproxy_server.Base.Table.{Map, lookup, insert, delete, size, text_key, bytes_key}
use tproxy_server.Config.{Profile}
use tproxy_server.Session.{SessionError, authentication, limit, closed, random_failure}
use tproxy_server.Token.{Crypto, NewToken, new_token, token_hash, bootstrap}
use tproxy_server.Manager.{
  Manager, Bootstrap, count, count_up, count_down, hit_limit, match_capability,
}
use tproxy_server.Manager.Rate.{RateState, take_rate}

-- A result and the manager that it leaves.
pub data Outcome (A : Type 0) : Type 0 where
  ok : A → Outcome A
  err : SessionError → Outcome A

unfoldable pub release_unused_bootstrap : Bootstrap → Manager → Manager
release_unused_bootstrap b m =
    if b.used
    then m
    else record m { bootstraps_per_ip = count_down b.issuance_ip m.bootstraps_per_ip }

unfoldable pub remove_bootstrap : List ℕ → Bootstrap → Manager → Manager
unfolding release_unused_bootstrap
remove_bootstrap hash b m = record released { bootstraps = delete hash released.bootstraps }
  where
    released : Manager
    released = release_unused_bootstrap b m

-- The entry that `entry` is replaced by, in the search for the oldest unused one: the first of
-- those that expire first.
abbrev older : Option (List ℕ × Bootstrap) → List ℕ → Bootstrap → Option (List ℕ × Bootstrap)
older none hash b = if b.used then none else some (hash, b)
older (some (oldest, o)) hash b =
    if b.used || not (ltb b.expires o.expires) then some (oldest, o) else some (hash, b)

unfoldable pub oldest_unused :
    Option (List ℕ × Bootstrap) → Map (List ℕ) Bootstrap → Option (List ℕ × Bootstrap)
oldest_unused found [] = found
oldest_unused found ((hash, b) ∷ rest) = oldest_unused (older found hash b) rest

unfoldable pub evict_oldest_unused_bootstrap : Manager → Bool × Manager
unfolding oldest_unused remove_bootstrap
evict_oldest_unused_bootstrap m = elim (oldest_unused none m.bootstraps) [
  | none ↦ (false, m)
  | some (hash, b) ↦ (true, remove_bootstrap hash b m)
]

-- The loops over the two maps, as they stood when the loops began.
unfoldable pub expire_bootstraps : ℕ → Map (List ℕ) Bootstrap → Manager → Manager
unfolding remove_bootstrap
expire_bootstraps now [] m = m
expire_bootstraps now ((hash, b) ∷ rest) m =
    expire_bootstraps now rest (if ltb b.expires now then remove_bootstrap hash b m else m)

unfoldable pub expire_tokens : ℕ → Map (List ℕ) ℕ → Map (List ℕ) ℕ
expire_tokens now [] = []
expire_tokens now ((hash, expires) ∷ rest) =
    let kept = expire_tokens now rest in if ltb expires now then kept else (hash, expires) ∷ kept

unfoldable pub remove_expired_bootstraps : ℕ → Manager → Manager
unfolding expire_bootstraps expire_tokens
remove_expired_bootstraps now m = record expired {
  closed_tokens = expire_tokens now expired.closed_tokens;
}
  where
    expired : Manager
    expired = expire_bootstraps now m.bootstraps m

module _ (c : Crypto) where
  abbrev stored : ℕ → Profile → String → NewToken → Manager → Outcome (List ℕ) × Manager
  stored now profile ip t m = (
    ok t.token,
    record m {
      bootstraps =
          insert t.hash
            (record {
              expires = now + m.bootstrap_lifetime;
              profile = profile;
              issuance_ip = ip;
              body_digest = [];
              session_token = [];
              session = none;
              used = false;
            })
            m.bootstraps;
      bootstraps_per_ip = count_up ip m.bootstraps_per_ip;
    },
  )

  abbrev make_room : ℕ → Profile → String → NewToken → Bool × Manager → Outcome (List ℕ) × Manager
  make_room now profile ip t (true, m) = stored now profile ip t m
  make_room now profile ip t (false, m) = (err limit, hit_limit m)

  abbrev rated :
      ℕ → Profile → String → NewToken → Manager → RateState × Bool → Outcome (List ℕ) × Manager
  rated now profile ip t m (rate, false) =
      (err limit, hit_limit (record m { bootstrap_rate = rate }))
  rated now profile ip t m (rate, true) =
      if leb m.limits.max_bootstraps_global (size m.bootstraps)
      then make_room now profile ip t
          (evict_oldest_unused_bootstrap (record m { bootstrap_rate = rate }))
      else stored now profile ip t (record m { bootstrap_rate = rate })

  abbrev ip_full : String → Manager → Bool
  ip_full ip m =
      not (m.limits.max_bootstraps_per_ip == 0)
      && leb m.limits.max_bootstraps_per_ip (count ip m.bootstraps_per_ip)

  -- With the lock held. The address is tested first, and then no rate is used up.
  unfoldable pub issue_locked :
      ℕ → Profile → String → NewToken → Manager → Outcome (List ℕ) × Manager
  unfolding evict_oldest_unused_bootstrap
  issue_locked now profile ip t m =
      if ip_full ip m
      then (err limit, hit_limit m)
      else rated now profile ip t m (
          take_rate m.floats now m.limits.new_bootstraps_per_minute m.limits.new_bootstraps_burst
            m.bootstrap_rate)

  abbrev issue_with : ℕ → Profile → String → Option NewToken → Manager → Outcome (List ℕ) × Manager
  issue_with now profile ip none m = (err random_failure, m)
  issue_with now profile ip (some t) m =
      if m.is_closed
      then (err closed, m)
      else issue_locked now profile ip t (remove_expired_bootstraps now m)

  abbrev issue_for :
      ℕ → String → Option (List ℕ) → Option Profile → Manager → Outcome (List ℕ) × Manager
  issue_for now ip random none m = (err authentication, m)
  issue_for now ip random (some profile) m =
      issue_with now profile ip (new_token c m.token_key bootstrap random) m

  unfoldable pub issue_bootstrap :
      ℕ → Option Profile → String → Option (List ℕ) → Manager → Outcome (List ℕ) × Manager
  unfolding issue_locked remove_expired_bootstraps
  issue_bootstrap now none ip random m = (err authentication, m)
  issue_bootstrap now (some p) ip random m =
      issue_for now ip random (match_capability p.capability m) m

  unfoldable pub has_bootstrap : ℕ → List ℕ → Manager → Bool
  has_bootstrap now token m = elim (token_hash c token) [
    | none ↦ false
    | some hash ↦ elim (lookup hash m.bootstraps) [
      | none ↦ false
      | some b ↦ not (ltb b.expires now)
    ]
  ]
