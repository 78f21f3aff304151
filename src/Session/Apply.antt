-- ===== src/Session/Apply.antt =====
-- session.go: how the frames of one upload body are validated, paid for and applied.
use tproxy_server.Base.{
  ℕ, ◌+◌, ◌-◌, ◌%◌, ◌^◌, Bool, true, false, not, ◌&&◌, ◌||◌, Option, none, some, List, [], ◌∷◌, ltb,
  ◌==◌, if◌then◌else◌, length,
}
use tproxy_server.Base.Table.{number_key, Table, lookup, insert, delete}
use tproxy_server.Frame.{
  Frame, Kind, opens, sends, closes, widens, pongs, other, kind, pong_type, initial_stream_window,
  window_value,
}
use tproxy_server.Session.{Session, StreamState, queue_item_cost}
use tproxy_server.Session.Close.{has}
use tproxy_server.Session.Queue.{max_uint32}

-- Whether an upload may arrive late, for a stream whose tombstone is gone: onlyLateFrames.
abbrev is_late : Kind → Bool
is_late sends = true
is_late widens = true
is_late closes = true
is_late opens = false
is_late pongs = false
is_late other = false

abbrev all_late : List Frame → Bool
all_late [] = true
all_late (f ∷ frames) = is_late (kind f.type_code) && all_late frames

unfoldable pub only_late_frames : List Frame → Bool
only_late_frames frames = all_late frames && not (length frames == 0)

pub record Snapshot : Type 0 where
  pub receive_window : ℕ
  pub send_credit : ℕ

unfoldable pub snapshots : Table StreamState → Table Snapshot
snapshots [] = []
snapshots ((id, t) ∷ streams) =
    (id, record { receive_window = t.receive_window; send_credit = t.send_credit })
    ∷ snapshots streams

-- uint64 addition of a window amount, capped at 32 bits.
abbrev pub credited : ℕ → ℕ → ℕ
credited credit amount = if ltb max_uint32 (credit + amount) then max_uint32 else credit + amount

-- uint32 subtraction: `-` on ℕ stops at 0, so the modulus comes first.
abbrev pub sub_uint32 : ℕ → ℕ → ℕ
sub_uint32 a b = (a + 2 ^ 32 - b % 2 ^ 32) % 2 ^ 32

abbrev pub uint32_length : List ℕ → ℕ
uint32_length payload = length payload % 2 ^ 32

-- The streams as a batch would leave them, and the numbers that it closes.
pub record Trial : Type 0 where
  pub live : Table Snapshot
  pub closed : Table (Unit {0})

-- `was_closed` is `wasClosed`; `none` is the answer `false`.
unfoldable pub try_frame : Kind → Bool → Frame → Trial → Option Trial
try_frame opens was_closed f r =
    if has f.stream_id r.live || was_closed
    then none
    else some (record r { live = insert f.stream_id fresh r.live })
  where
    fresh : Snapshot
    fresh = record { receive_window = initial_stream_window; send_credit = initial_stream_window }
try_frame sends true f r = some r
try_frame sends false f r = elim (lookup f.stream_id r.live) [
  | none ↦ none
  | some state ↦
      if ltb state.receive_window (uint32_length f.payload)
      then none
      else some (record r {
        live =
            insert f.stream_id
              (record state { receive_window = sub_uint32 state.receive_window (length f.payload) })
              r.live;
      })
]
try_frame widens true f r = some r
try_frame widens false f r = elim (lookup f.stream_id r.live) [
  | none ↦ none
  | some state ↦ some (record r {
    live =
        insert f.stream_id
          (record state { send_credit = credited state.send_credit (window_value f.payload) })
          r.live;
  })
]
try_frame closes true f r = some r
try_frame closes false f r =
    if has f.stream_id r.live
    then some (record { live = delete f.stream_id r.live; closed = insert f.stream_id tt r.closed })
    else none
try_frame pongs was_closed f r = none
try_frame other was_closed f r = none

-- `tombs` is `s.closedStreams`.
unfoldable pub try_batch : Table (Unit {0}) → List Frame → Trial → Bool
unfolding try_frame
try_batch tombs [] r = true
try_batch tombs (f ∷ frames) r =
    if f.stream_id == 0
    then (f.type_code == pong_type) && try_batch tombs frames r
    else elim (try_frame (kind f.type_code) (has f.stream_id tombs || has f.stream_id r.closed) f
        r) [ none ↦ false | some r' ↦ try_batch tombs frames r' ]

module _ {W : Type 0} where
  unfoldable pub validate_batch : List Frame → Session W → Bool
  unfolding try_batch snapshots
  validate_batch frames s =
      try_batch s.closed_streams frames (record { live = snapshots s.streams; closed = [] })

-- A cost and a number of items.
pub record Charge : Type 0 where
  pub cost : ℕ
  pub items : ℕ

abbrev pub no_charge : Charge
no_charge = record { cost = 0; items = 0 }

-- `live[id] = true` and `delete(live, id)` on the set of live streams.
abbrev pub live_after : Kind → ℕ → Table (Unit {0}) → Table (Unit {0})
live_after opens id live = insert id tt live
live_after closes id live = delete id live
live_after sends id live = live
live_after widens id live = live
live_after pongs id live = live
live_after other id live = live

abbrev pub write_charge : Kind → ℕ → List ℕ → Table (Unit {0}) → Charge
write_charge sends id payload live =
    if has id live then record { cost = length payload + queue_item_cost; items = 1 } else no_charge
write_charge opens id payload live = no_charge
write_charge closes id payload live = no_charge
write_charge widens id payload live = no_charge
write_charge pongs id payload live = no_charge
write_charge other id payload live = no_charge

abbrev pub plus_charge : Charge → Charge → Charge
plus_charge a b = record { cost = a.cost + b.cost; items = a.items + b.items }

unfoldable pub reservation : List Frame → Table (Unit {0}) → Charge
reservation [] live = no_charge
reservation (f ∷ frames) live =
    plus_charge
      (if f.stream_id == 0
        then no_charge
        else write_charge (kind f.type_code) f.stream_id f.payload live)
      (reservation frames
        (if f.stream_id == 0 then live else live_after (kind f.type_code) f.stream_id live))

abbrev pub keys_of : Table StreamState → Table (Unit {0})
keys_of [] = []
keys_of ((id, t) ∷ streams) = (id, tt) ∷ keys_of streams

module _ {W : Type 0} where
  unfoldable pub backend_write_reservation : List Frame → Session W → Charge
  unfolding reservation
  backend_write_reservation frames s = reservation frames (keys_of s.streams)
