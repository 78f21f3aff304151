-- ===== src/Session/ProcessUp.antt =====
-- session.go: ProcessUp, in its two critical sections, and ProcessUpLane, which has one.
pub mod Retry
pub mod Sound
pub mod Tests
use tproxy_server.Base.{
  ℕ, ◌+◌, ◌%◌, ◌^◌, Bool, true, false, not, ◌&&◌, ◌||◌, Option, none, some, List, [], ◌∷◌, ltb,
  ◌==◌, if◌then◌else◌, length, bytes_equal,
}
use tproxy_server.Base.Table.{number_key, lookup, insert}
use tproxy_server.Frame.{Frame, open_type, max_stream_id}
use tproxy_server.Session.{Session, Hooks, Lane, protocol, closed, concurrent, new_lane}
use tproxy_server.Session.Close.{protocol_failure}
use tproxy_server.Session.Queue.{uses_carrier_lanes}
use tproxy_server.Session.Apply.{validate_batch, only_late_frames}
use tproxy_server.Session.Uplink.{
  accepted, failed, Replied, answer, failing, parse_body, parse_lane_body, deliver,
  lane_protocol_failure,
}

-- The next sequence number, a uint64.
abbrev pub next_sequence : ℕ → ℕ
next_sequence n = (n + 1) % 2 ^ 64

-- An upload with the number of the last one, which is not 0: a retry, or another body under the
-- same number.
abbrev pub repeats : ℕ → Lane → Bool
repeats sequence lane = (sequence == lane.last_up_sequence) && not (sequence == 0)

abbrev pub out_of_order : ℕ → Lane → Bool
out_of_order sequence lane =
    not (sequence == next_sequence lane.last_up_sequence) || (sequence == 0)

abbrev pub recorded : ℕ → List ℕ → Lane → Lane
recorded sequence digest lane = record lane { last_up_sequence = sequence; last_up_digest = digest }

-- Where an upload stands after the first critical section of ProcessUp.
pub data Begun (W : Type 0) : Type 0 where
  parsing : Session W → Begun W
  answered : Option (Replied W) → Begun W

-- `digest` is sha256.Sum256(body).
module _ {W : Type 0} ⦃h : Hooks W⦄ where
  unfoldable pub begin_up : ℕ → ℕ → List ℕ → Session W → Begun W
  begin_up now sequence digest s =
      if uses_carrier_lanes s.carrier
      then answered (answer (failed protocol) s)
      else if s.is_closed
      then answered (answer (failed closed) s)
      else if repeats sequence s.main
      then answered (
          if bytes_equal digest s.main.last_up_digest
          then answer (accepted sequence) active
          else failing protocol (protocol_failure active))
      else if out_of_order sequence s.main
      then answered (failing protocol (protocol_failure active))
      else if s.main.up_active
      then answered (answer (failed concurrent) active)
      else parsing (record active { main = record s.main { up_active = true } })
    where
      active : Session W
      active = record s { last_activity = now }

  abbrev validated : ℕ → List ℕ → List ℕ → Session W → Option (List Frame) → Option (Replied W)
  validated sequence digest body s none = failing protocol (protocol_failure s)
  validated sequence digest body s (some frames) =
      if validate_batch frames s
      then deliver sequence body frames
          (λ s'. record s' { main = recorded sequence digest s'.main }) s
      else failing protocol (protocol_failure s)

  unfoldable pub finish_up : ℕ → List ℕ → List ℕ → Session W → Option (Replied W)
  finish_up sequence digest body s =
      if s.is_closed
      then answer (failed closed) idle
      else validated sequence digest body idle (parse_body body s.limits.max_frame_payload)
    where
      idle : Session W
      idle = record s { main = record s.main { up_active = false } }

  -- ProcessUp with nothing between its critical sections.
  unfoldable pub process_up : ℕ → ℕ → List ℕ → List ℕ → Session W → Option (Replied W)
  unfolding begin_up finish_up
  process_up now sequence digest body s = elim (begin_up now sequence digest s) [
    | answered r ↦ r
    | parsing s' ↦ finish_up sequence digest body s'
  ]

abbrev is_open_first : List Frame → Bool
is_open_first [] = false
is_open_first (f ∷ frames) = f.type_code == open_type

module _ {W : Type 0} where
  -- The lane that the pointer names, written where the map still has it.
  abbrev record_lane : ℕ → ℕ → List ℕ → Session W → Session W
  record_lane id sequence digest s = elim (lookup id s.lanes) [
    | none ↦ s
    | some lane ↦ record s { lanes = insert id (recorded sequence digest lane) s.lanes }
  ]

module _ {W : Type 0} ⦃h : Hooks W⦄ where
  -- From the lane on. `upActive` is set and cleared under the one lock, so it is left as it is.
  unfoldable pub up_on_lane :
      ℕ → ℕ → ℕ → List ℕ → List ℕ → List Frame → Lane → Session W → Option (Replied W)
  up_on_lane now id sequence digest body frames lane s =
      if repeats sequence lane
      then (if bytes_equal digest lane.last_up_digest
          then answer (accepted sequence) s
          else failing protocol (lane_protocol_failure now id s))
      else if out_of_order sequence lane
      then failing protocol (lane_protocol_failure now id s)
      else if lane.up_active
      then answer (failed concurrent) s
      else if validate_batch frames s
      then deliver sequence body frames (record_lane id sequence digest) s
      else failing protocol (lane_protocol_failure now id s)

  -- A body of late frames for a lane that is gone is acknowledged, an OPEN makes the lane, and
  -- anything else is a protocol failure.
  unfoldable pub up_on_missing_lane :
      ℕ → ℕ → ℕ → List ℕ → List ℕ → List Frame → Session W → Option (Replied W)
  unfolding up_on_lane
  up_on_missing_lane now id sequence digest body frames s =
      if not (id == 0)
        && (not (length frames == 0) && (not (is_open_first frames) && only_late_frames frames))
      then answer (accepted sequence) active
      else if (id == 0) || ((length frames == 0) || not (is_open_first frames))
      then failing protocol (lane_protocol_failure now id s)
      else up_on_lane now id sequence digest body frames new_lane
          (record active { lanes = insert id new_lane s.lanes })
    where
      active : Session W
      active = record s { last_activity = now }

  abbrev with_frames :
      ℕ → ℕ → ℕ → List ℕ → List ℕ → Option (List Frame) → Session W → Option (Replied W)
  with_frames now id sequence digest body none s = failing protocol (lane_protocol_failure now id s)
  with_frames now id sequence digest body (some frames) s =
      if s.is_closed then answer (failed closed) s else elim (lookup id s.lanes) [
        | none ↦ up_on_missing_lane now id sequence digest body frames s
        | some lane ↦
            up_on_lane now id sequence digest body frames lane (record s { last_activity = now })
      ]

  unfoldable pub process_up_lane : ℕ → ℕ → ℕ → List ℕ → List ℕ → Session W → Option (Replied W)
  unfolding up_on_missing_lane up_on_lane
  process_up_lane now id sequence digest body s =
      if not (uses_carrier_lanes s.carrier) || ltb max_stream_id id
      then answer (failed protocol) s
      else with_frames now id sequence digest body
          (parse_lane_body id body s.limits.max_frame_payload) s
