-- ===== src/Manager/Capacity.antt =====
-- manager.go: what the callbacks of a session change, and the end of a session.
pub mod Counters
pub mod Shared
use tproxy_server.Base.{
  ℕ, suc, ◌+◌, ◌-◌, ◌*◌, ◌/◌, Bool, true, false, not, ◌&&◌, ◌||◌, Option, none, some, List, [], ◌∷◌,
  ltb, leb, ◌==◌, if◌then◌else◌,
}
use tproxy_server.Base.Table.{Map, insert, delete, size, text_key, bytes_key}
use tproxy_server.Config.{Limits, Profile}
use tproxy_server.Session.{PendingClass, uplink, downlink, control, Hooks}
use tproxy_server.Session.Budget.{Amount, pending_control_reserve}
use tproxy_server.Manager.{
  Manager, Bootstrap, SessionRef, Metrics, count, count_up, count_down, hit_limit,
}
use tproxy_server.Manager.Sessions.{Buckets, allow_profile_rate}
use tproxy_server.Manager.Bootstraps.{remove_bootstrap}

-- The global limit that is left when every session keeps its control reserve.
abbrev less_reserve : ℕ → ℕ → ℕ → ℕ
less_reserve total reserve sessions =
    if ltb (total / sessions) reserve then 0 else total - reserve * sessions

-- The limits are positive, so no division is by 0.
unfoldable pub global_limits : PendingClass → Limits → Amount
global_limits control l = record { cost = l.max_pending_global; items = l.max_pending_items_global }
global_limits uplink l = record {
  cost = less_reserve l.max_pending_global (pending_control_reserve l).cost l.max_sessions_global;
  items =
      less_reserve l.max_pending_items_global (pending_control_reserve l).items
        l.max_sessions_global;
}
global_limits downlink l = record {
  cost = less_reserve l.max_pending_global (pending_control_reserve l).cost l.max_sessions_global;
  items =
      less_reserve l.max_pending_items_global (pending_control_reserve l).items
        l.max_sessions_global;
}

abbrev pub exceeds : ℕ → ℕ → ℕ → Bool
exceeds delta total spent = ltb total delta || ltb (total - delta) spent

-- changePendingBudget with amounts that are not negative.
unfoldable pub take_budget : ℕ → ℕ → PendingClass → Manager → Bool × Manager
unfolding global_limits
take_budget cost items class m =
    if (not (cost == 0) || not (items == 0))
      && (exceeds cost (global_limits class m.limits).cost m.pending_global_cost
          || exceeds items (global_limits class m.limits).items m.pending_global_items)
    then (false, hit_limit m)
    else (
      true,
      record m {
        pending_global_cost = m.pending_global_cost + cost;
        pending_global_items = m.pending_global_items + items;
      },
    )

-- changePendingBudget with amounts that are not positive; `none` is the panic on a sum below 0.
unfoldable pub give_budget : ℕ → ℕ → Manager → Option Manager
give_budget cost items m =
    if ltb m.pending_global_cost cost || ltb m.pending_global_items items
    then none
    else some (record m {
      pending_global_cost = m.pending_global_cost - cost;
      pending_global_items = m.pending_global_items - items;
    })

abbrev pub stream_blocked : Profile → Manager → Bool
stream_blocked p m =
    m.is_closed
    || (leb m.limits.max_streams_global m.streams_live
        || (leb m.limits.max_backend_dials_in_flight m.backend_dials_in_flight
            || (leb p.limits.max_streams (count p.name m.streams_per_profile)
                || leb p.limits.max_backend_dials_in_flight (count p.name m.dials_per_profile))))

abbrev pub stream_acquired : Profile → Manager → Buckets × Bool → Bool × Manager
stream_acquired p m (b, false) = (false, m)
stream_acquired p m (b, true) = (
  true,
  record m {
    stream_rate = b.global;
    profile_stream_rates = b.profiles;
    streams_live = suc m.streams_live;
    backend_dials_in_flight = suc m.backend_dials_in_flight;
    streams_per_profile = count_up p.name m.streams_per_profile;
    dials_per_profile = count_up p.name m.dials_per_profile;
    metrics = record (m.metrics) { streams_opened = suc m.metrics.streams_opened };
  },
)

unfoldable pub acquire_stream : ℕ → Profile → Manager → Bool × Manager
unfolding allow_profile_rate
acquire_stream now p m =
    if stream_blocked p m
    then (false, m)
    else stream_acquired p m (
        allow_profile_rate m.floats
          (record { global = m.stream_rate; profiles = m.profile_stream_rates }) p.name now
          m.limits.new_streams_per_minute m.limits.new_streams_burst p.limits.new_streams_per_minute
          p.limits.new_streams_burst)

abbrev dial_failure : Bool → Metrics → Metrics
dial_failure true x = record x { backend_dial_failures = suc x.backend_dial_failures }
dial_failure false x = x

-- `none` is the panic on a count that is 0.
unfoldable pub backend_dial_finished : Profile → Bool → Manager → Option Manager
backend_dial_finished p failed m =
    if (m.backend_dials_in_flight == 0) || (count p.name m.dials_per_profile == 0)
    then none
    else some (record m {
      backend_dials_in_flight = m.backend_dials_in_flight - 1;
      dials_per_profile = count_down p.name m.dials_per_profile;
      metrics = dial_failure failed m.metrics;
    })

unfoldable pub stream_finished : Profile → Manager → Option Manager
stream_finished p m =
    if (m.streams_live == 0) || (count p.name m.streams_per_profile == 0)
    then none
    else some (record m {
      streams_live = m.streams_live - 1;
      streams_per_profile = count_down p.name m.streams_per_profile;
    })

abbrev stream_rejected : Manager → Manager
stream_rejected m = record m {
  metrics = record (m.metrics) {
    streams_rejected = suc m.metrics.streams_rejected;
    limit_hits = suc m.metrics.limit_hits;
  };
}

-- The callbacks that Create gives to a session of the profile; `now` is the time of the call.
abbrev pub hooks : ℕ → Profile → Hooks Manager
hooks now p = record {
  take = take_budget;
  give = give_budget;
  acquire_stream = acquire_stream now p;
  stream_rejected = stream_rejected;
  backend_dial_finished = backend_dial_finished p;
  stream_finished = stream_finished p;
  on_up = λ n m. record m { metrics = record (m.metrics) { bytes_up = m.metrics.bytes_up + n } };
  on_down =
      λ n m. record m { metrics = record (m.metrics) { bytes_down = m.metrics.bytes_down + n } };
}

-- The token that closed first, the first of several.
unfoldable pub oldest_token : Option (List ℕ × ℕ) → Map (List ℕ) ℕ → Option (List ℕ × ℕ)
oldest_token found [] = found
oldest_token none ((hash, expires) ∷ rest) = oldest_token (some (hash, expires)) rest
oldest_token (some (oldest, first)) ((hash, expires) ∷ rest) =
    oldest_token (if ltb expires first then some (hash, expires) else some (oldest, first)) rest

abbrev without_oldest : Map (List ℕ) ℕ → Map (List ℕ) ℕ
without_oldest tokens = elim (oldest_token none tokens) [
  | none ↦ tokens
  | some (hash, expires) ↦ delete hash tokens
]

abbrev find_session : ℕ → Map (List ℕ) SessionRef → Option (List ℕ × SessionRef)
find_session id [] = none
find_session id ((hash, s) ∷ rest) = if s.id == id then some (hash, s) else find_session id rest

abbrev forget_session : ℕ → List ℕ × SessionRef → Manager → Manager
forget_session now (hash, s) m = record m {
  sessions = delete hash m.sessions;
  closed_tokens = insert hash (now + m.bootstrap_lifetime) (
      if leb (m.limits.max_sessions_global * 16) (size m.closed_tokens)
      then without_oldest m.closed_tokens
      else m.closed_tokens);
  sessions_per_ip = count_down s.client_ip m.sessions_per_ip;
  sessions_per_profile = count_down s.profile_name m.sessions_per_profile;
}

abbrev belongs_to : ℕ → Bootstrap → Bool
belongs_to id b = elim b.session [ none ↦ false | some other ↦ other == id ]

unfoldable pub forget_bootstraps : ℕ → Map (List ℕ) Bootstrap → Manager → Manager
unfolding remove_bootstrap
forget_bootstraps id [] m = m
forget_bootstraps id ((hash, b) ∷ rest) m =
    forget_bootstraps id rest (if belongs_to id b then remove_bootstrap hash b m else m)

abbrev counted_closed : Manager → Manager
counted_closed m = record m {
  metrics = record (m.metrics) { sessions_closed = suc m.metrics.sessions_closed };
}

unfoldable pub session_finished : ℕ → ℕ → Manager → Manager
unfolding oldest_token forget_bootstraps
session_finished now id m = counted_closed (forget_bootstraps id forgotten.bootstraps forgotten)
  where
    forgotten : Manager
    forgotten = elim (find_session id m.sessions) [ none ↦ m | some e ↦ forget_session now e m ]
