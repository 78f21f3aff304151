-- ===== src/Session/Uplink.antt =====
-- session.go: ProcessUp, ProcessUpLane and what a protocol failure on a lane closes.
pub mod Sound
use tproxy_server.Base.{
  ℕ, ◌+◌, Bool, true, false, not, ◌&&◌, Option, none, some, List, [], ◌∷◌, ◌==◌, if◌then◌else◌,
  length, ◌>>=◌,
}
use tproxy_server.Base.Table.{number_key, lookup}
use tproxy_server.Frame.{Frame, ok, parse_all, validate_client_shape}
use tproxy_server.Config.{
  CarrierMode, websocket_lanes, https_lanes, https, websocket, unset, unknown,
}
use tproxy_server.Session.{Session, Hooks, SessionError, closed, backpressure, uplink}
use tproxy_server.Session.Budget.{reserve_pending, release_pending}
use tproxy_server.Session.Close.{
  protocol_failure, close_backends, close_backend, retire_stream, drop_lane, close,
}
use tproxy_server.Session.Apply.{backend_write_reservation, Charge}
use tproxy_server.Session.Batch.{Batch, apply_batch}

pub data UpReply : Type 0 where
  accepted : ℕ → UpReply
  failed : SessionError → UpReply

-- A reply and the session that it leaves.
pub record Replied (W : Type 0) : Type 0 where
  pub reply : UpReply
  pub session : Session W

module _ {W : Type 0} where
  abbrev pub answer : UpReply → Session W → Option (Replied W)
  answer r s = some (record { reply = r; session = s })

  -- A failure that first closes something.
  abbrev pub failing : SessionError → Option (Session W) → Option (Replied W)
  failing e none = none
  failing e (some s) = answer (failed e) s

abbrev pub is_websocket_lanes : CarrierMode → Bool
is_websocket_lanes websocket_lanes = true
is_websocket_lanes https_lanes = false
is_websocket_lanes https = false
is_websocket_lanes websocket = false
is_websocket_lanes unset = false
is_websocket_lanes unknown = false

-- `err` after the loop over the parsed frames: every frame has a client's shape.
unfoldable pub all_shaped : List Frame → Bool
all_shaped [] = true
all_shaped (f ∷ frames) =
    (elim (validate_client_shape f) [ ok u ↦ true | _ ↦ false ]) && all_shaped frames

abbrev all_on : ℕ → List Frame → Bool
all_on id [] = true
all_on id (f ∷ frames) = (f.stream_id == id) && all_on id frames

abbrev pub when : Bool → List Frame → Option (List Frame)
when true frames = some frames
when false frames = none

-- The frames of a body, `none` where `err != nil`.
unfoldable pub parse_body : List ℕ → ℕ → Option (List Frame)
unfolding all_shaped
parse_body body limit = elim (parse_all body limit) [
  | ok frames ↦ when (all_shaped frames) frames
  | _ ↦ none
]

unfoldable pub parse_lane_body : ℕ → List ℕ → ℕ → Option (List Frame)
unfolding all_shaped
parse_lane_body id body limit = elim (parse_all body limit) [
  | ok frames ↦ when (all_shaped frames && all_on id frames) frames
  | _ ↦ none
]

module _ {W : Type 0} ⦃h : Hooks W⦄ where
  -- The stream of a lane that is released, and its backend closed after the unlock.
  unfoldable pub release_websocket_lane : ℕ → ℕ → Session W → Option (Session W)
  release_websocket_lane now id s =
      if not (is_websocket_lanes s.carrier) then some s else elim (lookup id s.lanes) [
        | none ↦ some s
        | some lane ↦
            (elim (lookup id s.streams) [
              | none ↦ drop_lane id s
              | some t ↦ retire_stream id t s >>= λ s'.
                  drop_lane id s' >>= λ s''. some (close_backend t.backend s'')
            ])
            >>= λ s'. some (record s' { last_activity = now })
      ]

  unfoldable pub lane_protocol_failure : ℕ → ℕ → Session W → Option (Session W)
  unfolding release_websocket_lane
  lane_protocol_failure now id s =
      if is_websocket_lanes s.carrier then release_websocket_lane now id s else protocol_failure s

  -- What is left of the reservation goes back, the new backends run and the closed ones stop; an
  -- upload that was not applied closes the session.
  unfoldable pub settle : ℕ → List ℕ → (Session W → Session W) → Batch W → Option (Replied W)
  settle sequence body record_upload b = release_pending b.cost b.items b.session >>= λ s.
      (let started = close_backends b.closed (record s { running = s.running + length b.opened }) in
        if b.applied
        then answer (accepted sequence) (record (record_upload started) {
          world = h.on_up (length body) (record_upload started).world;
        })
        else failing closed (close started))

  abbrev pub reserve_upload : Charge → Session W → Bool × Session W
  reserve_upload c s =
      if (c.cost == 0) && (c.items == 0) then (true, s) else reserve_pending c.cost c.items uplink s

  abbrev pub pay :
      ℕ
      → List ℕ
      → List Frame
      → Charge
      → (Session W → Session W)
      → Bool × Session W
      → Option (Replied W)
  pay sequence body frames c record_upload (false, s) = answer (failed backpressure) s
  pay sequence body frames c record_upload (true, s) =
      apply_batch frames c s >>= settle sequence body record_upload

  -- From the reservation to the reply. `record_upload` writes the sequence number and the digest.
  unfoldable pub deliver :
      ℕ → List ℕ → List Frame → (Session W → Session W) → Session W → Option (Replied W)
  unfolding settle
  deliver sequence body frames record_upload s =
      pay sequence body frames (backend_write_reservation frames s) record_upload
        (reserve_upload (backend_write_reservation frames s) s)
