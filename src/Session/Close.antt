-- ===== src/Session/Close.antt =====
-- session.go: tombstones of closed streams, what a stream or a lane gives back, and the close.
pub use tproxy_server.Base.Table.{has}
use tproxy_server.Base.{
  ℕ, suc, ◌%◌, true, ◌&&◌, Option, none, some, List, [], ◌∷◌, ◌++◌, ltb, ◌==◌, if◌then◌else◌,
  length, get_elem?, set, ◌>>=◌,
}
use tproxy_server.Base.Table.{number_key, Table, lookup, insert, delete}
use tproxy_server.Session.{Session, Hooks, Lane, StreamState, lane_cost, lane_items}
use tproxy_server.Session.Budget.{release_pending}

-- A lane with nothing queued and nothing unacknowledged, and its poller woken. Its map of WINDOW
-- frames is nil in Go, which reads like an empty one; what is written to it panics, see append_frame
-- in Queue.antt.
abbrev pub emptied : Lane → Lane
emptied lane = record lane {
  pending_frames = [];
  pending_windows = [];
  unacked = [];
  unacked_cost = 0;
  unacked_items = 0;
  notify = true;
}

abbrev pub woken : Lane → Lane
woken lane = record lane { notify = true }

-- A stream after releaseStreamWritesLocked.
abbrev pub without_writes : StreamState → StreamState
without_writes t = record t {
  pending_write_bytes = 0;
  pending_write_cost = 0;
  pending_write_items = 0;
  writes = [];
}

abbrev pub backends_of : Table StreamState → List ℕ
backends_of [] = []
backends_of ((id, t) ∷ streams) = t.backend ∷ backends_of streams

abbrev pub emptied_lanes : Table Lane → Table Lane
emptied_lanes [] = []
emptied_lanes ((id, lane) ∷ lanes) = (id, emptied lane) ∷ emptied_lanes lanes

module _ {W : Type 0} where
  abbrev pub wake_lane : ℕ → Session W → Session W
  wake_lane id s = elim (lookup id s.lanes) [
    | none ↦ s
    | some lane ↦ record s { lanes = insert id (woken lane) s.lanes }
  ]

  -- backendStream.close: it takes effect once.
  abbrev pub close_backend : ℕ → Session W → Session W
  close_backend backend s = record s { cancelled = insert backend tt s.cancelled }

  abbrev pub close_backends : List ℕ → Session W → Session W
  close_backends [] s = s
  close_backends (b ∷ backends) s = close_backends backends (close_backend b s)

module _ {W : Type 0} ⦃h : Hooks W⦄ where
  -- releaseLaneLocked gives the lane's charges back. Its callers then drop the lane from the map,
  -- and what it leaves in the lane is `emptied`.
  unfoldable pub release_lane : Lane → Session W → Option (Session W)
  release_lane lane s = release_pending (lane_cost lane) (lane_items lane) s

  unfoldable pub release_stream_writes : StreamState → Session W → Option (Session W)
  release_stream_writes t s = release_pending t.pending_write_cost t.pending_write_items s

  -- releaseLaneLocked and delete, where the lane is there.
  unfoldable pub drop_lane : ℕ → Session W → Option (Session W)
  unfolding release_lane
  drop_lane id s = elim (lookup id s.lanes) [
    | none ↦ some s
    | some lane ↦ release_lane lane (record s { lanes = delete id s.lanes })
  ]

  -- The oldest tombstone makes room. `none` is the panic on an index out of range.
  unfoldable pub evict_oldest : ℕ → Session W → Option (Session W)
  unfolding drop_lane
  evict_oldest id s = elim (get_elem? s.closed_order s.closed_start) [
    | none ↦ none
    | some old ↦ drop_lane old (record s { closed_streams = delete old s.closed_streams }) >>= λ s'.
        some (record s' {
          closed_order = set s'.closed_order s'.closed_start id;
          closed_start = suc s'.closed_start % length s'.closed_order;
        })
  ]

  unfoldable pub remember_closed : ℕ → Session W → Option (Session W)
  unfolding evict_oldest
  remember_closed id s =
      if has id s.closed_streams
      then some s
      else (if ltb (length s.closed_order) s.limits.max_closed_stream_ids
          then some (record entered { closed_order = s.closed_order ++ (id ∷ []) })
          else evict_oldest id entered)
        >>= λ s'. some (wake_lane id s')
    where
      entered : Session W
      entered = record s { closed_streams = insert id tt s.closed_streams }

  -- The budget callback of closeLocked, made only where something is charged.
  abbrev pub give_all : Session W → Option W
  give_all s =
      if (s.pending_cost == 0) && (s.pending_items == 0)
      then some s.world
      else h.give s.pending_cost s.pending_items s.world

  unfoldable pub close_locked : Session W → Option (Session W)
  close_locked s =
      if s.is_closed
      then some s
      else give_all s >>= λ w. some (
          close_backends (backends_of s.streams) (record s {
            is_closed = true;
            lanes = emptied_lanes s.lanes;
            streams = [];
            main = emptied s.main;
            pending_cost = 0;
            pending_items = 0;
            finish_started = true;
            world = w;
          }))

  -- Session.Close and protocolFailure
  abbrev pub close : Session W → Option (Session W)
  close s = close_locked s

  abbrev pub protocol_failure : Session W → Option (Session W)
  protocol_failure s = close_locked s

  -- A live stream leaves: its writes are given back and its number is remembered.
  unfoldable pub retire_stream : ℕ → StreamState → Session W → Option (Session W)
  unfolding release_stream_writes remember_closed
  retire_stream id t s =
      release_stream_writes t (record s { streams = delete id s.streams }) >>= λ s'.
      remember_closed id s'
