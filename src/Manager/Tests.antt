-- ===== src/Manager/Tests.antt =====
-- The theorems on the manager, applied to one that has a stream, a dial and a session at work.
use tproxy_server.Base.{
  ◌+◌, ◌-◌, ◌*◌, ◌/◌, ltb, ◌≤◌, ◌≡◌, refl, true, false, [], ◌∷◌, arith, Returns,
}
use tproxy_server.Base.Table.{lookup, text_key}
use tproxy_server.Config.{Profile, https, default_limits}
use tproxy_server.Session.{Session, uplink}
use tproxy_server.Session.Budget.{pending_control_reserve}
use tproxy_server.Session.Close.{close_locked}
use tproxy_server.Session.Invariant.{IsSound}
use tproxy_server.Session.Tests.{busy, main-IsQueue}
use tproxy_server.Manager.{Manager, new_manager}
use tproxy_server.Manager.Rate.{Floats}
use tproxy_server.Manager.Capacity.{
  acquire_stream, stream_finished, backend_dial_finished, take_budget, global_limits, hooks,
}
use tproxy_server.Manager.Capacity.Counters.{
  IsCounted, acquire_stream-IsCounted, stream_finished-IsCounted, backend_dial_finished-IsCounted,
}
use tproxy_server.Manager.Capacity.Shared.{
  IsWithin, Shares, take_budget-IsWithin, take_budget-within, manager-HookLaws, close_locked-Shares,
}

-- Exact numbers, in units of 1 over 60 * 10^9, stand in for float64.
abbrev whole : Floats
whole = record {
  of_int = λ n. n * 60000000000;
  seconds = λ n. n * 60;
  add = ◌+◌;
  subtract = ◌-◌;
  multiply = λ a b. a * b / 60000000000;
  divide = λ a b. a * 60000000000 / b;
  less = ltb;
}

abbrev profile : Profile
profile = record {
  name = "home";
  backend = "127.0.0.1:443";
  carrier_mode = https;
  capability = [];
  limits = record {
    max_sessions = 128;
    max_streams = 4096;
    max_backend_dials_in_flight = 256;
    new_sessions_per_minute = 600;
    new_sessions_burst = 128;
    new_streams_per_minute = 6000;
    new_streams_burst = 512;
    max_streams_per_session = 128;
    max_pending_per_session = 33554432;
  };
}

-- Besides the session `busy`, other sessions hold 1000 bytes and 3 items.
abbrev manager : Manager
manager = record (new_manager whole default_limits (profile ∷ []) 60 60 []) {
  streams_per_profile = ("home", 1) ∷ [];
  dials_per_profile = ("home", 1) ∷ [];
  streams_live = 1;
  backend_dials_in_flight = 1;
  pending_global_cost = 1535;
  pending_global_items = 5;
}

manager-IsCounted : IsCounted manager
unfolding new_manager
manager-IsCounted = record {
  streams = refl;
  dials = refl;
  streams_within = omega arith;
  dials_within = omega arith;
}

acquire_stream-IsCounted_example : IsCounted (acquire_stream 100 profile manager).1
acquire_stream-IsCounted_example = acquire_stream-IsCounted 100 profile manager manager-IsCounted

stream_finished-IsCounted_example : Returns (stream_finished profile manager) IsCounted
unfolding new_manager lookup
stream_finished-IsCounted_example =
    stream_finished-IsCounted profile manager (omega arith) manager-IsCounted

backend_dial_finished-IsCounted_example :
    Returns (backend_dial_finished profile true manager) IsCounted
unfolding new_manager lookup
backend_dial_finished-IsCounted_example =
    backend_dial_finished-IsCounted profile true manager (omega arith) manager-IsCounted

manager-IsWithin : IsWithin manager
unfolding new_manager
manager-IsWithin = record { cost = omega arith; items = omega arith }

take_budget-IsWithin_example : IsWithin (take_budget 300 1 uplink manager).1
take_budget-IsWithin_example = take_budget-IsWithin 300 1 uplink manager manager-IsWithin

granted_budget : (take_budget 300 1 uplink manager).0 ≡ true
unfolding new_manager take_budget global_limits pending_control_reserve
granted_budget = refl

take_budget-within_example :
    ((take_budget 300 1 uplink manager).1.pending_global_cost
      ≤ (global_limits uplink manager.limits).cost)
    × ((take_budget 300 1 uplink manager).1.pending_global_items
        ≤ (global_limits uplink manager.limits).items)
take_budget-within_example = take_budget-within 300 1 uplink manager (omega arith) granted_budget

abbrev managed : Session Manager
managed = record {
  limits = busy.limits;
  carrier = busy.carrier;
  streams = busy.streams;
  closed_streams = [];
  closed_order = [];
  closed_start = 0;
  main = busy.main;
  pending_cost = 535;
  pending_items = 2;
  is_closed = false;
  last_activity = 0;
  budget_notify = 0;
  lanes = [];
  next_poll = 1;
  next_backend = 8;
  cancelled = [];
  running = 1;
  finish_started = false;
  world = manager;
}

managed-IsSound : IsSound {h = hooks 100 profile} (manager-HookLaws 1000 3 100 profile) 0 0 managed
unfolding new_manager manager-HookLaws
managed-IsSound = record {
  accounted = record { cost_exact = refl; items_exact = refl; held = (refl, refl) };
  main_queue = main-IsQueue;
  lane_queues = tt;
  numbers_fit = (omega arith, tt);
  ring = record {
    positive = omega arith;
    within = omega arith;
    at_start = λ e. refl;
    inside = omega arith;
  };
}

close_locked-Shares_example :
    Returns (close_locked ⦃h = hooks 100 profile⦄ managed) (λ t. Shares 1000 3 0 0 t.world)
close_locked-Shares_example = close_locked-Shares 1000 3 100 profile managed refl managed-IsSound
