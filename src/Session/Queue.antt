-- ===== src/Session/Queue.antt =====
-- session.go: the queue of frames for the client, its coalescing and its batches. A lane's queue
-- and the session's own queue run the same code on different fields.
pub mod Windows
pub mod Delivery
pub mod Growth
pub mod Sound
pub mod Departures
use tproxy_server.Base.{
  ℕ, suc, ◌+◌, ◌-◌, ◌^◌, Bool, true, false, not, ◌&&◌, ◌||◌, Option, none, some, List, [], ◌∷◌,
  ◌++◌, ltb, leb, ◌==◌, if◌then◌else◌, length, take, drop, get_elem?, set, total,
}
use tproxy_server.Base.Table.{number_key, Table, lookup, insert, delete}
use tproxy_server.Frame.{
  header_size, max_batch_frames, window_type, data_type, window_value, put_uint32, encode,
}
use tproxy_server.Config.{
  CarrierMode, https_lanes, websocket_lanes, https, websocket, unset, unknown,
}
use tproxy_server.Session.{
  Session, Hooks, Lane, QueuedFrame, PendingClass, downlink, control, queue_item_cost,
}
use tproxy_server.Session.Budget.{reserve_pending}

abbrev pub max_uint32 : ℕ
max_uint32 = 2 ^ 32 - 1

-- binary.BigEndian.PutUint32(encoded[at:at+4], value); `none` is the panic on a short slice.
unfoldable pub write_uint32 : ℕ → ℕ → List ℕ → Option (List ℕ)
write_uint32 at value encoded =
    if ltb (length encoded) (at + 4)
    then none
    else some (take at encoded ++ (put_uint32 value ++ drop (at + 4) encoded))

unfoldable pub uses_carrier_lanes : CarrierMode → Bool
uses_carrier_lanes https_lanes = true
uses_carrier_lanes websocket_lanes = true
uses_carrier_lanes https = false
uses_carrier_lanes websocket = false
uses_carrier_lanes unset = false
uses_carrier_lanes unknown = false

-- What an attempt at coalescing ends in: the process panics, nothing was done, or the queue's
-- frames were replaced.
pub data Merge : Type 0 where
  panics apart : Merge
  merged : List QueuedFrame → Merge

abbrev rewritten : ℕ → List QueuedFrame → QueuedFrame → Option (List ℕ) → Merge
rewritten index frames q none = panics
rewritten index frames q (some bytes) = merged (set frames index (record q { encoded = bytes }))

abbrev add_window : ℕ → List ℕ → List QueuedFrame → Option QueuedFrame → Merge
add_window index payload frames none = panics
add_window index payload frames (some q) =
    if leb (window_value (drop header_size q.encoded) + window_value payload) max_uint32
    then rewritten index frames q (
        write_uint32 header_size (window_value (drop header_size q.encoded) + window_value payload)
          q.encoded)
    else apart

-- A WINDOW joins the one that is queued for its stream, unless the sum passes 32 bits.
unfoldable pub merge_window : ℕ → ℕ → List ℕ → Lane → Merge
merge_window t id payload lane =
    if t == window_type
    then elim (lookup id lane.pending_windows) [
      | none ↦ apart
      | some index ↦
          add_window index payload lane.pending_frames (get_elem? lane.pending_frames index)
    ]
    else apart

-- Whether a DATA joins the last frame: DATA of the same stream, and room up to the frame limit.
-- Go compares len(encoded) - 8 + len(payload) with the limit.
abbrev pub joins_last : ℕ → ℕ → List ℕ → ℕ → QueuedFrame → Bool
joins_last t id payload limit last =
    last.type_code == data_type
    && (t == data_type
        && (last.stream_id == id
            && leb (length last.encoded + length payload) (limit + header_size)))

abbrev grown : List ℕ → List QueuedFrame → QueuedFrame → Option (List ℕ) → Merge
grown payload frames last none = panics
grown payload frames last (some bytes) = merged (
    set frames (length frames - 1)
      (record last { encoded = bytes; cost = last.cost + length payload }))

-- The frames with `payload` at the end of the last one, and its length field rewritten.
unfoldable pub extend_last : List ℕ → List QueuedFrame → QueuedFrame → Merge
extend_last payload frames last =
    grown payload frames last (
      write_uint32 4 (length last.encoded + length payload - header_size) (last.encoded ++ payload))

abbrev pub class_of : ℕ → PendingClass
class_of t = if t == data_type then downlink else control

-- The result of queueing: whether it was accepted, and the state.
pub record Queued (W : Type 0) : Type 0 where
  pub accepted : Bool
  pub session : Session W
  pub lane : Lane

module _ {W : Type 0} where
  abbrev pub refused : Session W → Lane → Option (Queued W)
  refused s lane = some (record { accepted = false; session = s; lane = lane })

  abbrev pub stored : Session W → Lane → Merge → Option (Queued W)
  stored s lane panics = none
  stored s lane apart = refused s lane
  stored s lane (merged frames) = some (record {
    accepted = true;
    session = s;
    lane = record lane { pending_frames = frames; notify = true };
  })

  abbrev pub join_last : List ℕ → Lane → QueuedFrame → Bool × Session W → Option (Queued W)
  join_last payload lane last (false, s) = refused s lane
  join_last payload lane last (true, s) =
      stored s lane (extend_last payload lane.pending_frames last)

  -- closeLocked sets the maps of WINDOW frames to nil, and only there, so a write to one panics in a
  -- closed session.
  abbrev pub append_frame : ℕ → ℕ → List ℕ → Lane → Bool × Session W → Option (Queued W)
  append_frame t id encoded lane (false, s) = refused s lane
  append_frame t id encoded lane (true, s) =
      if (t == window_type) && s.is_closed
      then none
      else some (record {
        accepted = true;
        session = s;
        lane = record lane {
          pending_frames =
              lane.pending_frames
              ++ (record {
                encoded = encoded;
                type_code = t;
                stream_id = id;
                cost = length encoded + queue_item_cost;
              }
                  ∷ []);
          pending_windows =
              if t == window_type
              then insert id (length lane.pending_frames) lane.pending_windows
              else lane.pending_windows;
          notify = true;
        };
      })

  abbrev pub into_lane : ℕ → Option (Queued W) → Option (Bool × Session W)
  into_lane id none = none
  into_lane id (some q) =
      some (q.accepted, record q.session { lanes = insert id q.lane q.session.lanes })

  abbrev pub into_main : Option (Queued W) → Option (Bool × Session W)
  into_main none = none
  into_main (some q) = some (q.accepted, record q.session { main = q.lane })

module _ {W : Type 0} ⦃h : Hooks W⦄ where
  unfoldable pub push_frame : ℕ → ℕ → List ℕ → Session W → Lane → Option (Queued W)
  push_frame t id payload s lane = elim (encode t id payload) [
    | none ↦ none
    | some encoded ↦
        append_frame t id encoded lane
          (reserve_pending (length encoded + queue_item_cost) 1 (class_of t) s)
  ]

  unfoldable pub push_data : ℕ → ℕ → List ℕ → Session W → Lane → Option (Queued W)
  unfolding push_frame
  push_data t id payload s lane =
      elim (get_elem? lane.pending_frames (length lane.pending_frames - 1)) [
        | none ↦ push_frame t id payload s lane
        | some last ↦
            if joins_last t id payload s.limits.max_frame_payload last
            then join_last payload lane last (reserve_pending (length payload) 0 downlink s)
            else push_frame t id payload s lane
      ]

  -- The body of queueFrameLocked and of queueLaneFrameLocked, on the fields of one queue.
  unfoldable pub queue_on : ℕ → ℕ → List ℕ → Session W → Lane → Option (Queued W)
  unfolding push_data merge_window
  queue_on t id payload s lane = elim (merge_window t id payload lane) [
    | panics ↦ none
    | apart ↦ push_data t id payload s lane
    | merged frames ↦ stored s lane (merged frames)
  ]

  unfoldable pub queue_lane_frame : ℕ → ℕ → List ℕ → Session W → Option (Bool × Session W)
  queue_lane_frame t id payload s = elim (lookup id s.lanes) [
    | none ↦ some (false, s)
    | some lane ↦ into_lane id (queue_on t id payload s lane)
  ]

  unfoldable pub queue_frame : ℕ → ℕ → List ℕ → Session W → Option (Bool × Session W)
  unfolding queue_lane_frame uses_carrier_lanes
  queue_frame t id payload s =
      if uses_carrier_lanes s.carrier
      then queue_lane_frame t id payload s
      else into_main (queue_on t id payload s s.main)

-- How many of the frames behind the first `count` ones, `size` bytes, join a batch.
unfoldable pub batch_length : ℕ → ℕ → ℕ → List QueuedFrame → ℕ
batch_length limit count size [] = 0
batch_length limit count size (q ∷ frames) =
    let more = suc (batch_length limit (suc count) (size + length q.encoded) frames) in
    if count == max_batch_frames || (not (count == 0) && ltb limit (size + length q.encoded))
    then 0
    else more

abbrev pub joined : List QueuedFrame → List ℕ
joined [] = []
joined (q ∷ frames) = q.encoded ++ joined frames

-- Each WINDOW that leaves takes its entry of `pendingWindows` along, if that is its index. A map
-- read of a missing key gives 0 in Go, and then the delete does nothing.
abbrev pub forget_at : ℕ → ℕ → Table ℕ → Option ℕ → Table ℕ
forget_at id index windows none = windows
forget_at id index windows (some at) = if at == index then delete id windows else windows

abbrev pub forget_window : ℕ → QueuedFrame → Table ℕ → Table ℕ
forget_window index q windows =
    if q.type_code == window_type
    then forget_at q.stream_id index windows (lookup q.stream_id windows)
    else windows

unfoldable pub forget_windows : ℕ → List QueuedFrame → Table ℕ → Table ℕ
forget_windows index [] windows = windows
forget_windows index (q ∷ frames) windows =
    forget_windows (suc index) frames (forget_window index q windows)

-- The entries that stay belong to frames that stay, so their index is at least `count`.
unfoldable pub shift_windows : ℕ → Table ℕ → Table ℕ
shift_windows count [] = []
shift_windows count ((id, index) ∷ windows) = (id, index - count) ∷ shift_windows count windows

pub record DownBatch : Type 0 where
  pub body : List ℕ
  pub cost : ℕ
  pub items : ℕ

-- The batch, and the lane without it. takeDownBatchLocked and takeLaneDownBatchLocked.
unfoldable pub take_down_batch : ℕ → Lane → DownBatch × Lane
unfolding batch_length forget_windows shift_windows
take_down_batch limit lane = (
  record {
    body = joined (take count lane.pending_frames);
    cost = total (λ q. q.cost) (take count lane.pending_frames);
    items = count;
  },
  record lane {
    pending_frames = drop count lane.pending_frames;
    pending_windows =
        shift_windows count
          (forget_windows 0 (take count lane.pending_frames) lane.pending_windows);
  },
)
  where
    count : ℕ
    count = batch_length limit 0 0 lane.pending_frames
