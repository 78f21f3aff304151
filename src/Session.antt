-- ===== src/Session.antt =====
-- internal/session/session.go: the state of a session. A Go function that holds the mutex is one
-- step; its result is the new session. Channels appear by what they carry: a `notify` channel of
-- one slot is the Boolean that says whether the slot is filled, the channel that a parked poll
-- waits on is the number of that poll, and a backend stream is the number that its pointer has.
pub mod Budget
pub mod Closing
pub mod Leaving
pub mod Queueing
pub mod Moves
pub mod Invariant
pub mod Tables
pub mod Tidy
pub mod Laws
pub mod Charges
pub mod PollLane
pub mod Poll
pub mod ProcessUp
pub mod Backend
pub mod Batch
pub mod Uplink
pub mod Apply
pub mod Close
pub mod Queue
pub mod Tests
use tproxy_server.Base.{ℕ, Bool, true, false, List, [], Option, none, length, total, ◌+◌, ◌≡◌, ◌≤◌}
use tproxy_server.Base.Table.{Table, sum}
use tproxy_server.Config.{Limits, CarrierMode}

pub data PendingClass : Type 0 where
  uplink downlink control : PendingClass

pub data SessionError : Type 0 where
  authentication backpressure limit protocol concurrent closed context_done random_failure :
      SessionError

pub record StreamState : Type 0 where
  pub backend : ℕ
  pub receive_window : ℕ
  pub send_credit : ℕ
  pub pending_write_bytes : ℕ
  pub pending_write_cost : ℕ
  pub pending_write_items : ℕ
  pub credit_notify : Bool
  pub writes : List (List ℕ)
  pub write_notify : Bool

pub record QueuedFrame : Type 0 where
  pub encoded : List ℕ
  pub type_code : ℕ
  pub stream_id : ℕ
  pub cost : ℕ

-- carrierLane. The session holds the same fourteen fields for a carrier without lanes: they are
-- its `main` lane.
pub record Lane : Type 0 where
  pub last_up_sequence : ℕ
  pub last_up_digest : List ℕ
  pub up_active : Bool
  pub websocket_active : Bool
  pub pending_frames : List QueuedFrame
  pub pending_windows : Table ℕ
  pub unacked : List ℕ
  pub unacked_cost : ℕ
  pub unacked_items : ℕ
  pub unacked_base : ℕ
  pub down_cursor : ℕ
  pub down_active : Bool
  pub superseded : Option ℕ
  pub notify : Bool

abbrev pub new_lane : Lane
new_lane = record {
  last_up_sequence = 0;
  last_up_digest = [];
  up_active = false;
  websocket_active = false;
  pending_frames = [];
  pending_windows = [];
  unacked = [];
  unacked_cost = 0;
  unacked_items = 0;
  unacked_base = 0;
  down_cursor = 0;
  down_active = false;
  superseded = none;
  notify = false;
}

-- The callbacks of sessionOptions, over a state `W` that the sessions share. `take` and `give` are
-- `budget` called with positive and with negative amounts; `none` is a panic.
pub record Hooks (W : Type 0) : Type 0 where
  pub take : ℕ → ℕ → PendingClass → W → Bool × W
  pub give : ℕ → ℕ → W → Option W
  pub acquire_stream : W → Bool × W
  pub stream_rejected : W → W
  pub backend_dial_finished : Bool → W → Option W
  pub stream_finished : W → Option W
  pub on_up : ℕ → W → W
  pub on_down : ℕ → W → W

pub record Session (W : Type 0) : Type 0 where
  pub limits : Limits
  pub carrier : CarrierMode
  pub streams : Table StreamState
  pub closed_streams : Table (Unit {0})
  pub closed_order : List ℕ
  pub closed_start : ℕ
  pub main : Lane
  pub pending_cost : ℕ
  pub pending_items : ℕ
  pub is_closed : Bool
  pub last_activity : ℕ
  -- How often `budgetNotify` was closed and made anew.
  pub budget_notify : ℕ
  pub lanes : Table Lane
  -- The number of the next parked poll, and of the next backend stream.
  pub next_poll : ℕ
  pub next_backend : ℕ
  -- The backend streams that were closed, and how many run (`backendWG`).
  pub cancelled : Table (Unit {0})
  pub running : ℕ
  -- `finishOnce` has started `onFinished`.
  pub finish_started : Bool
  pub world : W

-- The bytes that an entry is charged for in a queue, over its own.
abbrev pub queue_item_cost : ℕ
queue_item_cost = 256

-- What a lane has charged: its queued frames and the batch that awaits its acknowledgement.
abbrev pub lane_cost : Lane → ℕ
lane_cost l = total (λ q. q.cost) l.pending_frames + l.unacked_cost

abbrev pub lane_items : Lane → ℕ
lane_items l = length l.pending_frames + l.unacked_items

module _ {W : Type 0} where
  -- What the parts of a session have charged, together.
  abbrev pub owed_cost : Session W → ℕ
  owed_cost s = lane_cost s.main + sum lane_cost s.lanes + sum (λ t. t.pending_write_cost) s.streams

  abbrev pub owed_items : Session W → ℕ
  owed_items s =
      lane_items s.main + sum lane_items s.lanes + sum (λ t. t.pending_write_items) s.streams
