-- ===== src/Session/Poll.antt =====
-- session.go: Poll and PollLane. A poll takes the lock once to enter and once after each wait;
-- each critical section is a function here, and `parked id` says that the poll waits with the
-- channel `id`. A wait may end by any of the events, in any order.
pub mod Newest
pub mod Lanes
pub mod Sound
use tproxy_server.Base.{
  ℕ, suc, ◌+◌, ◌%◌, ◌^◌, Bool, true, false, not, ◌&&◌, ◌||◌, Option, none, some, List, [], ◌∷◌, ltb,
  ◌==◌, if◌then◌else◌, length,
}
use tproxy_server.Base.Table.{number_key, lookup, insert}
use tproxy_server.Frame.{max_stream_id}
use tproxy_server.Session.{Session, Hooks, Lane, SessionError, protocol, closed, context_done}
use tproxy_server.Session.Budget.{release_pending}
use tproxy_server.Session.Close.{has, protocol_failure}
use tproxy_server.Session.Queue.{DownBatch, take_down_batch, uses_carrier_lanes}
use tproxy_server.Session.Uplink.{lane_protocol_failure}

-- What a poll returns: a body with the next cursor, or no body with its own cursor. `retired` is
-- PollLane's third result, that the lane is gone for good.
pub data PollReply : Type 0 where
  body : List ℕ → ℕ → PollReply
  nothing : PollReply
  retired : PollReply
  failed : SessionError → PollReply

pub data PollTurn : Type 0 where
  parked : ℕ → PollTurn
  reply : PollReply → PollTurn

-- What ends a wait: the request was dropped, a newer poll took over, the session ended, the long
-- poll ran out, or a signal came.
pub data Wake : Type 0 where
  dropped taken_over session_done deadline signalled : Wake

pub record Polled (W : Type 0) : Type 0 where
  pub turn : PollTurn
  pub session : Session W

abbrev pub is_mine : ℕ → Option ℕ → Bool
is_mine id none = false
is_mine id (some other) = other == id

abbrev pub unparked : Lane → Lane
unparked lane = record lane { down_active = false; superseded = none }

abbrev pub acked : Lane → Lane
acked lane = record lane { unacked = []; unacked_cost = 0; unacked_items = 0 }

-- A cursor is a uint64.
abbrev pub next_cursor : ℕ → ℕ
next_cursor n = (n + 1) % 2 ^ 64

-- The lane after a batch left for the cursor.
abbrev pub delivered : ℕ → DownBatch → Lane → Lane
delivered cursor batch lane = record lane {
  down_cursor = next_cursor lane.down_cursor;
  unacked_base = cursor;
  unacked = batch.body;
  unacked_cost = batch.cost;
  unacked_items = batch.items;
  down_active = false;
  superseded = none;
}

-- How a poll enters on its lane: a replay of the unacknowledged batch, a cursor that is neither
-- the batch's base nor the position after it, or a poll that goes on, with what it acknowledges.
pub data Entry : Type 0 where
  replays goes_on acknowledges breaks : Entry

unfoldable pub enter : ℕ → Lane → Entry
enter cursor lane =
    if length lane.unacked == 0
    then (if cursor == lane.down_cursor then goes_on else breaks)
    else if cursor == lane.unacked_base
    then replays
    else if cursor == lane.down_cursor
    then acknowledges
    else breaks

abbrev pub is_empty {ℓ} : {A : Type ℓ} → List A → Bool
is_empty [] = true
is_empty (x ∷ xs) = false

abbrev pub if_mine : ℕ → Lane → Lane
if_mine mine lane = if is_mine mine lane.superseded then unparked lane else lane

abbrev pub signalled_lane : Lane → Lane
signalled_lane lane = record lane { notify = true }

module _ {W : Type 0} where
  abbrev pub turned : PollTurn → Session W → Option (Polled W)
  turned t s = some (record { turn = t; session = s })

  abbrev pub failing : Option (Session W) → Option (Polled W)
  failing none = none
  failing (some s) = turned (reply (failed protocol)) s

module _ {W : Type 0} ⦃h : Hooks W⦄ where
  -- `onDown` runs after the unlock.
  abbrev pub deliver_main : ℕ → Session W → DownBatch × Lane → Polled W
  deliver_main cursor s (batch, lane) = record {
    turn = reply (body batch.body (next_cursor lane.down_cursor));
    session = record s {
      main = delivered cursor batch lane;
      world = h.on_down (length batch.body) s.world;
    };
  }

  -- The head of the loop, with the lock held: the poll `mine` returns or parks.
  unfoldable pub poll_loop : ℕ → ℕ → Session W → Polled W
  poll_loop mine cursor s =
      if not (is_mine mine s.main.superseded)
      then record { turn = reply nothing; session = s }
      else if not (is_empty s.main.pending_frames)
      then deliver_main cursor s (take_down_batch s.limits.carrier_batch_bytes s.main)
      else if s.is_closed
      then record { turn = reply (failed closed); session = record s { main = unparked s.main } }
      else record { turn = parked mine; session = s }

  -- The newest poll wins: it becomes `superseded`, and an older one finds that it is not.
  unfoldable pub park : ℕ → Session W → Polled W
  unfolding poll_loop
  park cursor s = poll_loop s.next_poll cursor (record s {
    next_poll = suc s.next_poll;
    main = record s.main { superseded = some s.next_poll; down_active = true };
  })

  abbrev pub parking : ℕ → Option (Session W) → Option (Polled W)
  parking cursor none = none
  parking cursor (some s) = some (park cursor s)

  abbrev pub enter_main : ℕ → Session W → Entry → Option (Polled W)
  enter_main cursor s replays = turned (reply (body s.main.unacked s.main.down_cursor)) s
  enter_main cursor s goes_on = parking cursor (some s)
  enter_main cursor s acknowledges =
      parking cursor (
        release_pending s.main.unacked_cost s.main.unacked_items (record s { main = acked s.main }))
  enter_main cursor s breaks = failing (protocol_failure s)

  unfoldable pub poll : ℕ → ℕ → Session W → Option (Polled W)
  unfolding park
  poll now cursor s =
      if uses_carrier_lanes s.carrier
      then turned (reply (failed protocol)) s
      else if s.is_closed
      then turned (reply (failed closed)) s
      else enter_main cursor (record s { last_activity = now }) (enter cursor s.main)

  -- A wait of Poll ends. It does not wait on `done`: a close fills `notify`.
  unfoldable pub poll_wake : Wake → ℕ → ℕ → ℕ → Session W → Polled W
  unfolding poll_loop
  poll_wake dropped now mine cursor s = record {
    turn = reply (failed context_done);
    session = record s { main = if_mine mine s.main };
  }
  poll_wake taken_over now mine cursor s = record {
    turn = reply nothing;
    session = record s { main = signalled_lane s.main };
  }
  poll_wake session_done now mine cursor s = record { turn = parked mine; session = s }
  poll_wake deadline now mine cursor s =
      if not (is_mine mine s.main.superseded)
      then record { turn = reply nothing; session = record s { main = signalled_lane s.main } }
      else if not (is_empty s.main.pending_frames)
      then poll_loop mine cursor s
      else record {
        turn = reply nothing;
        session = record s { main = unparked s.main; last_activity = now };
      }
  poll_wake signalled now mine cursor s =
      poll_loop mine cursor
        (record s { main = record s.main { notify = not (is_mine mine s.main.superseded) } })
