-- ===== src/Session/Tests.antt =====
-- A session at work over a budget that is a pair of counters, and the theorems applied to it.
use tproxy_server.Base.{
  ℕ, ◌+◌, ◌-◌, ◌≡◌, refl, true, false, Option, none, some, [], ◌∷◌, arith, ltb, ◌||◌, if◌then◌else◌,
  Returns,
}
use tproxy_server.Base.Table.{lookup}
use tproxy_server.Frame.{data_type}
use tproxy_server.Config.{default_limits, https}
use tproxy_server.Session.{Session, Hooks, StreamState, QueuedFrame, downlink, new_lane}
use tproxy_server.Session.Laws.{HookLaws, Accounted, added}
use tproxy_server.Session.Invariant.{IsQueue, IsSound, SameParts, release-IsSound}
use tproxy_server.Session.Charges.{reserve-Accounted}
use tproxy_server.Session.Budget.{reserve_pending, release_pending}
use tproxy_server.Session.Closing.{close_locked-IsSound}
use tproxy_server.Session.Close.{close_locked, retire_stream, remember_closed}
use tproxy_server.Session.Leaving.{retire_stream-IsSound, remember_closed-IsSound}
use tproxy_server.Session.Queue.{queue_frame, take_down_batch}
use tproxy_server.Session.Queueing.{queue_frame-IsSound}
use tproxy_server.Session.Queue.Delivery.{take_down_batch-Departed, Departed}
use tproxy_server.Session.Backend.{
  backend_drained, backend_write_finished, backend_data, backend_closed,
}
use tproxy_server.Session.Backend.Sound.{
  backend_drained-IsSound, backend_write_finished-IsSound, backend_data-IsSound,
  backend_closed-IsSound,
}
use tproxy_server.Session.Poll.{poll, poll_wake, deadline, signalled, park}
use tproxy_server.Session.Poll.Newest.{HasBody, park-NoBody}
use tproxy_server.Session.Poll.Sound.{poll-IsSound, poll_wake-IsSound}

pub record Ledger : Type 0 where
  pub cost : ℕ
  pub items : ℕ

abbrev pay_back : ℕ → ℕ → Ledger → Option Ledger
pay_back c i w =
    if ltb w.cost c || ltb w.items i
    then none
    else some (record { cost = w.cost - c; items = w.items - i })

instance abbrev pub ledger : Hooks Ledger
ledger = record {
  take = λ c i k w. (true, record { cost = w.cost + c; items = w.items + i });
  give = pay_back;
  acquire_stream = λ w. (true, w);
  stream_rejected = λ w. w;
  backend_dial_finished = λ b w. some w;
  stream_finished = λ w. some w;
  on_up = λ n w. w;
  on_down = λ n w. w;
}

abbrev Exactly : ℕ → ℕ → Ledger → Type 0
Exactly c i w = (w.cost ≡ c) × (w.items ≡ i)

pub pay_back-Exactly :
    (c i dc di : ℕ) (w : Ledger)
    → Exactly (c + dc) (i + di) w
    → Returns (pay_back dc di w) (Exactly c i)
pay_back-Exactly c i dc di w (e, f) = ground (arith, e, f)

abbrev pub ledger-HookLaws : HookLaws Ledger ledger
ledger-HookLaws = record {
  Holds = Exactly;
  take_holds = λ c i dc di k w x. (omega (arith, x.0), omega (arith, x.1));
  give_holds = pay_back-Exactly;
  acquire_holds = λ c i w x. x;
  rejected_holds = λ c i w x. x;
  up_holds = λ n c i w x. x;
  down_holds = λ n c i w x. x;
}

-- Stream 3 has 10 bytes on their way to its backend, and 5 bytes wait for the client.
abbrev stream : StreamState
stream = record {
  backend = 7;
  receive_window = 4194294;
  send_credit = 4194304;
  pending_write_bytes = 10;
  pending_write_cost = 266;
  pending_write_items = 1;
  credit_notify = false;
  writes = (1 ∷ 2 ∷ 3 ∷ 4 ∷ 5 ∷ 6 ∷ 7 ∷ 8 ∷ 9 ∷ 10 ∷ []) ∷ [];
  write_notify = true;
}

abbrev waiting : QueuedFrame
waiting = record {
  encoded = 2 ∷ 0 ∷ 0 ∷ 3 ∷ 0 ∷ 0 ∷ 0 ∷ 5 ∷ 104 ∷ 101 ∷ 108 ∷ 108 ∷ 111 ∷ [];
  type_code = 2;
  stream_id = 3;
  cost = 269;
}

abbrev pub busy : Session Ledger
busy = record {
  limits = default_limits;
  carrier = https;
  streams = (3, stream) ∷ [];
  closed_streams = [];
  closed_order = [];
  closed_start = 0;
  main = record new_lane { pending_frames = waiting ∷ [] };
  pending_cost = 535;
  pending_items = 2;
  is_closed = false;
  last_activity = 0;
  budget_notify = 0;
  lanes = [];
  next_poll = 1;
  next_backend = 8;
  cancelled = [];
  running = 1;
  finish_started = false;
  world = record { cost = 535; items = 2 };
}

pub main-IsQueue : IsQueue busy.main
main-IsQueue = record {
  indexed = tt;
  distinct = tt;
  long = (omega arith, tt);
  free = λ e. (refl, refl);
  idle = λ id e. refl;
}

pub busy-IsSound : IsSound ledger-HookLaws 0 0 busy
busy-IsSound = record {
  accounted = record { cost_exact = refl; items_exact = refl; held = (refl, refl) };
  main_queue = main-IsQueue;
  lane_queues = tt;
  numbers_fit = (omega arith, tt);
  ring = record {
    positive = omega arith;
    within = omega arith;
    at_start = λ e. refl;
    inside = omega arith;
  };
}

poll-IsSound_example : Returns (poll 100 0 busy) (λ p. IsSound ledger-HookLaws 0 0 p.session)
poll-IsSound_example = poll-IsSound ledger-HookLaws 100 0 busy busy-IsSound

poll_wake-IsSound_example : IsSound ledger-HookLaws 0 0 (poll_wake deadline 100 0 0 busy).session
poll_wake-IsSound_example = poll_wake-IsSound ledger-HookLaws deadline 100 0 0 busy busy-IsSound

close_locked-IsSound_example : Returns (close_locked busy) (IsSound ledger-HookLaws 0 0)
close_locked-IsSound_example = close_locked-IsSound ledger-HookLaws busy busy-IsSound

queue_frame-IsSound_example :
    Returns (queue_frame data_type 3 (33 ∷ []) busy) (λ r. IsSound ledger-HookLaws 0 0 r.1)
queue_frame-IsSound_example =
    queue_frame-IsSound ledger-HookLaws 0 0 data_type 3 (33 ∷ []) busy (omega arith) refl
      (λ e. absurd (omega (arith, e))) busy-IsSound

backend_drained-IsSound_example :
    Returns (backend_drained 3 10 busy) (λ r. IsSound ledger-HookLaws 0 0 r.1)
backend_drained-IsSound_example = backend_drained-IsSound ledger-HookLaws 3 10 busy busy-IsSound

backend_write_finished-IsSound_example :
    Returns (backend_write_finished 3 busy) (λ r. IsSound ledger-HookLaws 0 0 r.1)
backend_write_finished-IsSound_example =
    backend_write_finished-IsSound ledger-HookLaws 3 busy busy-IsSound

backend_data-IsSound_example :
    Returns (backend_data 3 (33 ∷ []) busy) (λ r. IsSound ledger-HookLaws 0 0 r.1)
backend_data-IsSound_example = backend_data-IsSound ledger-HookLaws 3 (33 ∷ []) busy busy-IsSound

backend_closed-IsSound_example : Returns (backend_closed 3 7 busy) (IsSound ledger-HookLaws 0 0)
backend_closed-IsSound_example = backend_closed-IsSound ledger-HookLaws 3 7 busy busy-IsSound

take_down_batch-Departed_example :
    Departed 10 busy.main (take_down_batch 10 busy.main).0 (take_down_batch 10 busy.main).1
take_down_batch-Departed_example = take_down_batch-Departed 10 busy.main

retire_stream-IsSound_example : Returns (retire_stream 3 stream busy) (IsSound ledger-HookLaws 0 0)
unfolding lookup
retire_stream-IsSound_example =
    retire_stream-IsSound ledger-HookLaws 0 0 3 stream busy refl busy-IsSound

remember_closed-IsSound_example : Returns (remember_closed 5 busy) (IsSound ledger-HookLaws 0 0)
remember_closed-IsSound_example = remember_closed-IsSound ledger-HookLaws 0 0 5 busy busy-IsSound

reserve-Accounted_example :
    Accounted ledger-HookLaws
      (added (reserve_pending 300 1 downlink busy).0 300 0)
      (added (reserve_pending 300 1 downlink busy).0 1 0)
      (reserve_pending 300 1 downlink busy).1
reserve-Accounted_example =
    reserve-Accounted ledger-HookLaws 0 0 300 1 downlink busy busy-IsSound.accounted

-- The stream's charge in hand, as where its writes have left it.
abbrev relieved : Session Ledger
relieved = record busy {
  streams = (3, record stream { pending_write_cost = 0; pending_write_items = 0 }) ∷ [];
}

relieved-IsSound : IsSound ledger-HookLaws 266 1 relieved
relieved-IsSound = record {
  accounted = record { cost_exact = refl; items_exact = refl; held = (refl, refl) };
  main_queue = busy-IsSound.main_queue;
  lane_queues = tt;
  numbers_fit = (omega arith, tt);
  ring = busy-IsSound.ring;
}

release-IsSound_example :
    Returns
      (release_pending 266 1 relieved)
      (λ t. IsSound ledger-HookLaws 0 0 t × SameParts relieved t)
release-IsSound_example = release-IsSound ledger-HookLaws 0 0 266 1 relieved relieved-IsSound

-- Nothing is queued when the poll 1 parks, and then a frame is.
abbrev quiet : Session Ledger
quiet = record busy { next_poll = 1; main = record busy.main { pending_frames = [] } }

abbrev queued_since : Session Ledger
queued_since = record busy {
  next_poll = 2;
  main = record busy.main { superseded = (park 0 quiet).session.main.superseded };
}

park-NoBody_example : ¬ HasBody (poll_wake signalled 100 0 0 queued_since).turn
park-NoBody_example =
    park-NoBody signalled 100 0 0 0 quiet queued_since (λ e. absurd (omega (arith, e))) refl
