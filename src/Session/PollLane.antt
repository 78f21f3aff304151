-- ===== src/Session/PollLane.antt =====
-- session.go: PollLane, as Poll, on a lane of the session.
use tproxy_server.Base.{
  ℕ, suc, Bool, true, not, ◌&&◌, ◌||◌, Option, none, some, ltb, ◌==◌, if◌then◌else◌, length,
}
use tproxy_server.Base.Table.{number_key, lookup, insert}
use tproxy_server.Frame.{max_stream_id}
use tproxy_server.Session.{Session, Hooks, Lane, protocol, closed, context_done}
use tproxy_server.Session.Budget.{release_pending}
use tproxy_server.Session.Close.{has}
use tproxy_server.Session.Queue.{DownBatch, take_down_batch, uses_carrier_lanes}
use tproxy_server.Session.Uplink.{lane_protocol_failure}
use tproxy_server.Session.Poll.{
  Polled, parked, reply, body, nothing, retired, failed, Wake, dropped, taken_over, session_done,
  deadline, signalled, Entry, replays, goes_on, acknowledges, breaks, enter, is_mine, unparked,
  acked, delivered, next_cursor, is_empty, if_mine, signalled_lane, turned, failing,
}

module _ {W : Type 0} where
  abbrev put_lane : ℕ → Lane → Session W → Session W
  put_lane id lane s = record s { lanes = insert id lane s.lanes }

  -- A lane whose stream is closed and remembered has nothing more to come.
  abbrev finished : ℕ → Session W → Bool
  finished id s = not (id == 0) && (not (has id s.streams) && has id s.closed_streams)

module _ {W : Type 0} ⦃h : Hooks W⦄ where
  abbrev deliver_lane : ℕ → ℕ → Session W → DownBatch × Lane → Polled W
  deliver_lane id cursor s (batch, lane) = record {
    turn = reply (body batch.body (next_cursor lane.down_cursor));
    session = record (put_lane id (delivered cursor batch lane) s) {
      world = h.on_down (length batch.body) s.world;
    };
  }

  -- The head of the loop, for a lane that the map still has.
  unfoldable pub poll_lane_loop : ℕ → ℕ → ℕ → Lane → Session W → Polled W
  poll_lane_loop id mine cursor lane s =
      if not (is_mine mine lane.superseded)
      then record { turn = reply nothing; session = s }
      else if not (is_empty lane.pending_frames)
      then deliver_lane id cursor s (take_down_batch s.limits.carrier_batch_bytes lane)
      else if s.is_closed
      then record { turn = reply (failed closed); session = put_lane id (unparked lane) s }
      else if finished id s
      then record { turn = reply retired; session = put_lane id (unparked lane) s }
      else record { turn = parked mine; session = s }

  -- The pointer outlives the map's entry. A lane that was dropped from the map is empty, and what
  -- the poll writes to it is seen by nobody; only a poll of the same lane could have replaced it.
  -- A lane that is made anew under the number, while a poll is parked on the dropped one, counts
  -- as the same lane here.
  unfoldable pub poll_lane_look : ℕ → ℕ → ℕ → Session W → Polled W
  unfolding poll_lane_loop
  poll_lane_look id mine cursor s = elim (lookup id s.lanes) [
    | some lane ↦ poll_lane_loop id mine cursor lane s
    | none ↦ record { turn = reply (if s.is_closed then failed closed else retired); session = s }
  ]

  unfoldable pub park_lane : ℕ → ℕ → Lane → Session W → Polled W
  unfolding poll_lane_look
  park_lane id cursor lane s =
      poll_lane_look id s.next_poll cursor
        (record (put_lane id (record lane { superseded = some s.next_poll; down_active = true })
          s) { next_poll = suc s.next_poll })

  abbrev parking : ℕ → ℕ → Lane → Option (Session W) → Option (Polled W)
  parking id cursor lane none = none
  parking id cursor lane (some s) = some (park_lane id cursor lane s)

  abbrev enter_lane : ℕ → ℕ → ℕ → Lane → Session W → Entry → Option (Polled W)
  enter_lane now id cursor lane s replays = turned (reply (body lane.unacked lane.down_cursor)) s
  enter_lane now id cursor lane s goes_on = parking id cursor lane (some s)
  enter_lane now id cursor lane s acknowledges =
      parking id cursor (acked lane)
        (release_pending lane.unacked_cost lane.unacked_items (put_lane id (acked lane) s))
  enter_lane now id cursor lane s breaks = failing (lane_protocol_failure now id s)

  unfoldable pub poll_lane : ℕ → ℕ → ℕ → Session W → Option (Polled W)
  unfolding park_lane
  poll_lane now id cursor s =
      if not (uses_carrier_lanes s.carrier) || ltb max_stream_id id
      then turned (reply (failed protocol)) s
      else if s.is_closed
      then turned (reply (failed closed)) s
      else elim (lookup id s.lanes) [
        | none ↦ turned (reply (failed protocol)) s
        | some lane ↦
            enter_lane now id cursor lane (record s { last_activity = now }) (enter cursor lane)
      ]

  abbrev on_lane : ℕ → (Lane → Lane) → Session W → Session W
  on_lane id change s = elim (lookup id s.lanes) [
    | none ↦ s
    | some lane ↦ put_lane id (change lane) s
  ]

  abbrev deadline_on : ℕ → ℕ → ℕ → ℕ → Lane → Session W → Polled W
  deadline_on id now mine cursor lane s =
      if not (is_mine mine lane.superseded)
      then record { turn = reply nothing; session = put_lane id (signalled_lane lane) s }
      else if not (is_empty lane.pending_frames)
      then poll_lane_loop id mine cursor lane s
      else record {
        turn = reply nothing;
        session = record (put_lane id (unparked lane) s) { last_activity = now };
      }

  -- A wait of PollLane ends.
  unfoldable pub poll_lane_wake : Wake → ℕ → ℕ → ℕ → ℕ → Session W → Polled W
  unfolding poll_lane_look
  poll_lane_wake dropped id now mine cursor s = record {
    turn = reply (failed context_done);
    session = on_lane id (if_mine mine) s;
  }
  poll_lane_wake taken_over id now mine cursor s = record {
    turn = reply nothing;
    session = on_lane id signalled_lane s;
  }
  poll_lane_wake session_done id now mine cursor s = record {
    turn = reply (failed closed);
    session = on_lane id (if_mine mine) s;
  }
  poll_lane_wake deadline id now mine cursor s = elim (lookup id s.lanes) [
    | none ↦ record { turn = reply nothing; session = record s { last_activity = now } }
    | some lane ↦ deadline_on id now mine cursor lane s
  ]
  poll_lane_wake signalled id now mine cursor s =
      poll_lane_look id mine cursor
        (on_lane id (λ lane. record lane { notify = not (is_mine mine lane.superseded) }) s)
