-- ===== src/Session/Backend.antt =====
-- session.go: what the goroutines of a backend stream ask of the session, and the carriers' claims
-- on a WebSocket. A wait is the value `wait`: the goroutine parks and asks again when woken.
pub mod Sound
use tproxy_server.Base.{
  ℕ, suc, ◌+◌, ◌-◌, Bool, true, false, not, ◌&&◌, ◌||◌, Option, none, some, List, [], ◌∷◌, ltb, leb,
  ◌==◌, if◌then◌else◌, length, ◌>>=◌,
}
use tproxy_server.Base.Table.{number_key, Table, lookup, insert, delete, size}
use tproxy_server.Frame.{
  initial_stream_window, data_chunk, window_type, data_type, close_type, window_payload,
  max_stream_id,
}
use tproxy_server.Config.{
  CarrierMode, websocket, websocket_lanes, https, https_lanes, unset, unknown,
}
use tproxy_server.Session.{Session, Hooks, Lane, StreamState, new_lane, queue_item_cost}
use tproxy_server.Session.Budget.{release_pending, data_frame_allowance}
use tproxy_server.Session.Close.{has, close_locked, close_backend, retire_stream}
use tproxy_server.Session.Queue.{queue_frame}
use tproxy_server.Session.Uplink.{is_websocket_lanes}

-- The answer to a goroutine: it stops, parks, or goes on with a value.
pub data Turn (A : Type 0) : Type 0 where
  stop wait : Turn A
  go : A → Turn A

abbrev pub chunk : ℕ → ℕ
chunk credit = if ltb data_chunk credit then data_chunk else credit

abbrev pub allowed : ℕ → Turn ℕ
allowed n = if n == 0 then wait else go n

abbrev pub drains : ℕ → StreamState → Bool
drains amount t = not (
    amount == 0
    || (ltb t.pending_write_bytes amount
        || (ltb t.pending_write_cost amount
            || ltb initial_stream_window (t.receive_window + amount))))

module _ {W : Type 0} where
  abbrev pub put_stream : ℕ → StreamState → Session W → Session W
  put_stream id t s = record s { streams = insert id t s.streams }

  abbrev next_write_of : ℕ → StreamState → List (List ℕ) → Session W → Turn (List ℕ) × Session W
  next_write_of id t [] s = (wait, s)
  next_write_of id t (w ∷ writes) s = (go w, put_stream id (record t { writes = writes }) s)

  -- One look of nextWrite at the session.
  unfoldable pub next_write : ℕ → Session W → Turn (List ℕ) × Session W
  next_write id s =
      if s.is_closed
      then (stop, s)
      else elim (lookup id s.streams) [ none ↦ (stop, s) | some t ↦ next_write_of id t t.writes s ]

  -- One look of nextReadAllowance.
  unfoldable pub next_read_allowance : ℕ → Session W → Turn ℕ
  next_read_allowance id s = if s.is_closed then stop else elim (lookup id s.streams) [
    | none ↦ stop
    | some t ↦
        if t.send_credit == 0 then wait else allowed (data_frame_allowance (chunk t.send_credit) s)
  ]

module _ {W : Type 0} ⦃h : Hooks W⦄ where
  -- `amount` bytes reached the backend: their charge is given back, the client's window grows, and
  -- a WINDOW tells it.
  unfoldable pub backend_drained : ℕ → ℕ → Session W → Option (Bool × Session W)
  backend_drained id amount s =
      if s.is_closed then some (false, s) else elim (lookup id s.streams) [
        | none ↦ some (false, s)
        | some t ↦
            if drains amount t
            then release_pending amount 0 (
                put_stream id
                  (record t {
                    pending_write_bytes = t.pending_write_bytes - amount;
                    pending_write_cost = t.pending_write_cost - amount;
                    receive_window = t.receive_window + amount;
                  })
                  s)
              >>= queue_frame window_type id (window_payload amount)
            else some (false, s)
      ]

  abbrev pub done : Option (Session W) → Option (Bool × Session W)
  done none = none
  done (some s) = some (true, s)

  unfoldable pub backend_write_finished : ℕ → Session W → Option (Bool × Session W)
  backend_write_finished id s =
      if s.is_closed then some (false, s) else elim (lookup id s.streams) [
        | none ↦ some (false, s)
        | some t ↦
            if (t.pending_write_items == 0) || ltb t.pending_write_cost queue_item_cost
            then some (false, s)
            else done (
                release_pending queue_item_cost 1 (
                  put_stream id
                    (record t {
                      pending_write_items = t.pending_write_items - 1;
                      pending_write_cost = t.pending_write_cost - queue_item_cost;
                    })
                    s))
      ]

  -- Bytes that were read from the backend: they use up credit and are queued as DATA.
  unfoldable pub backend_data : ℕ → List ℕ → Session W → Option (Bool × Session W)
  backend_data id bytes s = if s.is_closed then some (false, s) else elim (lookup id s.streams) [
    | none ↦ some (false, s)
    | some t ↦
        if (length bytes == 0) || ltb t.send_credit (length bytes)
        then some (false, s)
        else queue_frame data_type id bytes
            (put_stream id (record t { send_credit = t.send_credit - length bytes }) s)
  ]

  abbrev pub or_close : Bool × Session W → Option (Session W)
  or_close (true, s) = some s
  or_close (false, s) = close_locked s

  -- The backend stream ended. Only the stream that it still belongs to leaves; the client is told
  -- by CLOSE, and a CLOSE that cannot be queued closes the session.
  abbrev pub leave : ℕ → ℕ → StreamState → Session W → Option (Session W)
  leave id backend t s =
      if t.backend == backend
      then (retire_stream id t s >>= λ s'. queue_frame close_type id [] s' >>= or_close)
      else some s

  unfoldable pub backend_closed : ℕ → ℕ → Session W → Option (Session W)
  backend_closed id backend s = left >>= λ s'. some (close_backend backend s')
    where
      left : Option (Session W)
      left =
          if s.is_closed
          then some s
          else elim (lookup id s.streams) [ none ↦ some s | some t ↦ leave id backend t s ]

abbrev is_websocket : CarrierMode → Bool
is_websocket websocket = true
is_websocket websocket_lanes = false
is_websocket https = false
is_websocket https_lanes = false
is_websocket unset = false
is_websocket unknown = false

module _ {W : Type 0} where
  unfoldable pub acquire_websocket : Session W → Bool × Session W
  acquire_websocket s =
      if s.is_closed || (not (is_websocket s.carrier) || s.main.websocket_active)
      then (false, s)
      else (true, record s { main = record s.main { websocket_active = true } })

  abbrev claim : ℕ → ℕ → Lane → Session W → Bool × Session W
  claim now id lane s = if lane.websocket_active then (false, s) else (
    true,
    record s {
      lanes = insert id (record lane { websocket_active = true }) s.lanes;
      last_activity = now;
    },
  )

  unfoldable pub acquire_websocket_lane : ℕ → ℕ → Session W → Bool × Session W
  acquire_websocket_lane now id s =
      if s.is_closed || (not (is_websocket_lanes s.carrier) || ((id == 0) || ltb max_stream_id id))
      then (false, s)
      else if has id s.closed_streams
      then (false, s)
      else elim (lookup id s.lanes) [
        | some lane ↦ claim now id lane s
        | none ↦
            if leb s.limits.max_streams_per_session (size s.lanes)
            then (false, s)
            else claim now id new_lane (record s { lanes = insert id new_lane s.lanes })
      ]
