-- ===== src/Session/Batch.antt =====
-- session.go: applyBatchLocked and appendBackendWriteLocked.
pub mod Members
pub mod Sound
pub mod Trials
pub mod Opens
pub mod Ends
pub mod Tombs
pub mod Steps
pub mod Tracking
pub mod Evicted
mod Tests
use tproxy_server.Base.{
  ℕ, suc, ◌+◌, ◌-◌, Bool, true, false, ◌||◌, Option, none, some, List, [], ◌∷◌, ◌++◌, ltb, leb,
  ◌==◌, if◌then◌else◌, length, get_elem?, set, ◌>>=◌,
}
use tproxy_server.Base.Table.{number_key, lookup, insert, size}
use tproxy_server.Frame.{
  Frame, Kind, opens, sends, closes, widens, pongs, other, kind, close_type, initial_stream_window,
  data_chunk, window_value,
}
use tproxy_server.Session.{Session, Hooks, StreamState, queue_item_cost}
use tproxy_server.Session.Close.{has, retire_stream, remember_closed}
use tproxy_server.Session.Queue.{queue_frame}
use tproxy_server.Session.Apply.{Charge, credited, sub_uint32}

-- Whether a payload joins the last write that waits: both together are one chunk at most.
abbrev pub joins_write : List ℕ → List (List ℕ) → Bool
joins_write payload writes = elim (get_elem? writes (length writes - 1)) [
  | none ↦ false
  | some last ↦ leb (length last + length payload) data_chunk
]

abbrev pub joined_write : List ℕ → List (List ℕ) → List (List ℕ)
joined_write payload writes = elim (get_elem? writes (length writes - 1)) [
  | none ↦ writes
  | some last ↦ set writes (length writes - 1) (last ++ payload)
]

abbrev pub write_cost : List ℕ → List (List ℕ) → Charge
write_cost payload writes =
    if joins_write payload writes
    then record { cost = length payload; items = 0 }
    else record { cost = length payload + queue_item_cost; items = 1 }

unfoldable pub append_backend_write : StreamState → List ℕ → StreamState
append_backend_write t payload = record t {
  writes =
      if joins_write payload t.writes
      then joined_write payload t.writes
      else t.writes ++ (payload ∷ []);
  pending_write_bytes = t.pending_write_bytes + length payload;
  pending_write_cost = t.pending_write_cost + (write_cost payload t.writes).cost;
  pending_write_items = t.pending_write_items + (write_cost payload t.writes).items;
}

abbrev pub new_stream : ℕ → StreamState
new_stream backend = record {
  backend = backend;
  receive_window = initial_stream_window;
  send_credit = initial_stream_window;
  pending_write_bytes = 0;
  pending_write_cost = 0;
  pending_write_items = 0;
  credit_notify = false;
  writes = [];
  write_notify = false;
}

-- The five results of applyBatchLocked, with the session: `cost` and `items` are what is left of
-- the reservation, and `applied` is false where a CLOSE could not be queued.
pub record Batch (W : Type 0) : Type 0 where
  pub session : Session W
  pub opened : List ℕ
  pub closed : List ℕ
  pub cost : ℕ
  pub items : ℕ
  pub applied : Bool

module _ {W : Type 0} where
  abbrev put_stream : ℕ → StreamState → Session W → Session W
  put_stream id t s = record s { streams = insert id t s.streams }

  -- The reservation never goes below 0 without a panic: releasePendingLocked, which is given what
  -- is left of it, panics on a negative amount. `none` stands for that panic.
  unfoldable pub write_stream : Frame → StreamState → Batch W → Option (Batch W)
  unfolding append_backend_write
  write_stream f t b =
      if ltb b.cost (write_cost f.payload t.writes).cost
        || ltb b.items (write_cost f.payload t.writes).items
      then none
      else some (record b {
        cost = b.cost - (write_cost f.payload t.writes).cost;
        items = b.items - (write_cost f.payload t.writes).items;
        session =
            put_stream f.stream_id
              (record (append_backend_write t f.payload) {
                receive_window = sub_uint32 t.receive_window (length f.payload);
                write_notify = true;
              })
              b.session;
      })

  unfoldable pub widen_stream : Frame → StreamState → Batch W → Batch W
  widen_stream f t b = record b {
    session =
        put_stream f.stream_id
          (record t {
            send_credit = credited t.send_credit (window_value f.payload);
            credit_notify = true;
          })
          b.session;
  }

  abbrev pub start_stream : ℕ → Batch W → Session W → Batch W
  start_stream id b s = record b {
    opened = b.opened ++ (s.next_backend ∷ []);
    session =
        put_stream id (new_stream s.next_backend) (record s { next_backend = suc s.next_backend });
  }

module _ {W : Type 0} ⦃h : Hooks W⦄ where
  -- `len(s.streams) >= limit || !s.acquireStream()`, negated: the callback runs only where there
  -- is room.
  abbrev acquired : Session W → Bool × W → Bool × Session W
  acquired s (b, w) = (b, record s { world = w })

  unfoldable pub admit_stream : Session W → Bool × Session W
  admit_stream s =
      if leb s.limits.max_streams_per_session (size s.streams)
      then (false, s)
      else acquired s (h.acquire_stream s.world)

  abbrev pub rejected : Batch W → Bool × Session W → Batch W
  rejected b (queued, s) = record b { session = s; applied = queued }

  -- A stream that is not admitted is remembered as closed, counted, and answered with CLOSE.
  unfoldable pub reject_stream : ℕ → Batch W → Session W → Option (Batch W)
  reject_stream id b s = remember_closed id s >>= λ s'.
      queue_frame close_type id [] (record s' { world = h.stream_rejected s'.world }) >>= λ q.
      some (rejected b q)

  abbrev pub admitted : ℕ → Batch W → Bool × Session W → Option (Batch W)
  admitted id b (true, s) = some (start_stream id b s)
  admitted id b (false, s) = reject_stream id b s

  abbrev pub retired : ℕ → StreamState → Batch W → Option (Batch W)
  retired id t b = retire_stream id t b.session >>= λ s.
      some (record b { session = s; closed = b.closed ++ (t.backend ∷ []) })

  -- One round of the loop, behind the test for stream 0. A missing stream is a nil pointer, and
  -- `none` its panic.
  unfoldable pub apply_frame : Kind → Frame → Batch W → Option (Batch W)
  unfolding admit_stream reject_stream write_stream widen_stream
  apply_frame opens f b = admitted f.stream_id b (admit_stream b.session)
  apply_frame sends f b =
      if has f.stream_id b.session.closed_streams
      then some b
      else elim (lookup f.stream_id b.session.streams) [ none ↦ none | some t ↦ write_stream f t b ]
  apply_frame widens f b =
      if has f.stream_id b.session.closed_streams
      then some b
      else elim (lookup f.stream_id b.session.streams) [
        | none ↦ none
        | some t ↦ some (widen_stream f t b)
      ]
  apply_frame closes f b =
      if has f.stream_id b.session.closed_streams
      then some b
      else elim (lookup f.stream_id b.session.streams) [
        | none ↦ none
        | some t ↦ retired f.stream_id t b
      ]
  apply_frame pongs f b = some b
  apply_frame other f b = some b

  unfoldable pub apply_frames : List Frame → Batch W → Option (Batch W)
  unfolding apply_frame
  apply_frames [] b = some b
  apply_frames (f ∷ frames) b =
      if f.stream_id == 0
      then apply_frames frames b
      else apply_frame (kind f.type_code) f b >>= λ b'.
          (let rest = apply_frames frames b' in if b'.applied then rest else some b')

  unfoldable pub apply_batch : List Frame → Charge → Session W → Option (Batch W)
  unfolding apply_frames
  apply_batch frames reserved s = apply_frames frames (record {
    session = s;
    opened = [];
    closed = [];
    cost = reserved.cost;
    items = reserved.items;
    applied = true;
  })
