-- ===== src/Frame.antt =====
-- internal/frame/frame.go: the binary frames of the carrier protocol.
pub mod Encoding
pub mod Batches
pub mod Shapes
pub mod Tests
use tproxy_server.Base.{
  ℕ, zero, suc, ◌+◌, ◌*◌, ◌/◌, ◌%◌, ◌^◌, ◌||◌, not, ◌&&◌, Option, none, some, List, [], ◌∷◌, ◌++◌,
  ltb, ◌==◌, if◌then◌else◌, length, take, drop, bytes_equal, Bool,
}

abbrev pub header_size : ℕ
header_size = 8

abbrev pub max_payload : ℕ
max_payload = 1024 * 1024

abbrev pub initial_stream_window : ℕ
initial_stream_window = 4 * 1024 * 1024

abbrev pub data_chunk : ℕ
data_chunk = 64 * 1024

abbrev pub max_stream_id : ℕ
max_stream_id = 0xFFFFFF

abbrev pub max_batch_frames : ℕ
max_batch_frames = 4096

-- The type byte. Any byte can arrive; the nine named ones are the protocol's.
abbrev pub open_type : ℕ
open_type = 0x01

abbrev pub data_type : ℕ
data_type = 0x02

abbrev pub close_type : ℕ
close_type = 0x03

abbrev pub window_type : ℕ
window_type = 0x04

abbrev pub pong_type : ℕ
pong_type = 0x06

abbrev pub hello_type : ℕ
hello_type = 0x10

abbrev pub welcome_type : ℕ
welcome_type = 0x11

pub record Frame : Type 0 where
  pub type_code : ℕ
  pub stream_id : ℕ
  pub payload : List ℕ

pub data Error : Type 0 where
  incomplete payload_limit too_many empty_batch hello_alone bad_hello : Error
  window_length window_zero bad_shape : Error

-- Go's (value, error). `stuck` is no Go value: the loop of `parse_all` ran out of fuel.
pub data Result {ℓ} (A : Type ℓ) : Type ℓ where
  ok : A → Result A
  err : Error → Result A
  stuck : Result A

infixl 5 ◌>>=◌
abbrev pub ◌>>=◌ {ℓ κ} : {A : Type ℓ} {B : Type κ} → Result A → (A → Result B) → Result B
ok a >>= f = f a
err e >>= f = err e
stuck >>= f = stuck

abbrev pub valid : Result (Unit {0})
valid = ok tt

-- binary.BigEndian.PutUint32 of a number cut to 32 bits.
unfoldable pub put_uint32 : ℕ → List ℕ
put_uint32 n = (n / 2 ^ 24 % 256) ∷ (n / 2 ^ 16 % 256) ∷ (n / 2 ^ 8 % 256) ∷ (n % 256) ∷ []

-- binary.BigEndian.Uint32
abbrev pub uint32 : ℕ → ℕ → ℕ → ℕ → ℕ
uint32 a b c d = a * 2 ^ 24 + b * 2 ^ 16 + c * 2 ^ 8 + d

-- The bytes that Encode writes.
unfoldable pub frame_bytes : ℕ → ℕ → List ℕ → List ℕ
unfolding put_uint32
frame_bytes t id payload =
    t
    ∷ (id / 2 ^ 16 % 256)
    ∷ (id / 2 ^ 8 % 256)
    ∷ (id % 256)
    ∷ (put_uint32 (length payload) ++ payload)

-- `none` is the panic on a stream id above 24 bits.
unfoldable pub encode : ℕ → ℕ → List ℕ → Option (List ℕ)
encode t id payload = if ltb max_stream_id id then none else some (frame_bytes t id payload)

-- Bytes 0 to 7 of a frame, and what follows them.
pub record Header : Type 0 where
  pub type_code : ℕ
  pub stream_id : ℕ
  pub length : ℕ
  pub rest : List ℕ

unfoldable pub read_header : List ℕ → Option Header
read_header (t ∷ a ∷ b ∷ c ∷ l0 ∷ l1 ∷ l2 ∷ l3 ∷ rest) = some (record {
  type_code = t;
  stream_id = a * 2 ^ 16 + b * 2 ^ 8 + c;
  length = uint32 l0 l1 l2 l3;
  rest = rest;
})
read_header input = none

-- One round of the loop of ParseAll: the frame in front and the input behind it. The header is
-- there exactly when the input has 8 bytes.
unfoldable pub parse_frame : ℕ → List ℕ → Result (Frame × List ℕ)
parse_frame limit input = elim (read_header input) [
  | none ↦ err incomplete
  | some h ↦
      if ltb limit h.length
      then err payload_limit
      else if ltb (length input) (header_size + h.length)
      then err incomplete
      else ok (
        record { type_code = h.type_code; stream_id = h.stream_id; payload = take h.length h.rest },
        drop h.length h.rest,
      )
]

-- `count` is len(frames).
unfoldable pub parse_loop : ℕ → ℕ → ℕ → List ℕ → Result (List Frame)
parse_loop fuel limit count [] = ok []
parse_loop zero limit count (x ∷ input) = stuck
parse_loop (suc fuel) limit count (x ∷ input) =
    let rest = parse_frame limit (x ∷ input) >>= λ p.
    parse_loop fuel limit (suc count) p.1 >>= λ frames. ok (p.0 ∷ frames) in
    if count == max_batch_frames then err too_many else rest

abbrev pub nonempty_batch : List Frame → Result (List Frame)
nonempty_batch [] = err empty_batch
nonempty_batch (f ∷ frames) = ok (f ∷ frames)

abbrev pub effective_limit : ℕ → ℕ
effective_limit limit = if limit == 0 || ltb max_payload limit then max_payload else limit

-- A round takes at least 8 bytes, so as many rounds as bytes are enough.
unfoldable pub parse_all : List ℕ → ℕ → Result (List Frame)
parse_all input limit = parse_loop (length input) (effective_limit limit) 0 input >>= nonempty_batch

abbrev is_hello : Frame → Bool
is_hello f = f.type_code == hello_type && (f.stream_id == 0 && bytes_equal f.payload (1 ∷ []))

hello_frame : List Frame → Result (Unit {0})
hello_frame [] = err hello_alone
hello_frame (f ∷ []) = if is_hello f then ok tt else err bad_hello
hello_frame (f ∷ g ∷ rest) = err hello_alone

unfoldable pub parse_hello : List ℕ → Result (Unit {0})
unfolding hello_frame
parse_hello input = parse_all input max_payload >>= hello_frame

unfoldable pub window_amount : List ℕ → Result ℕ
window_amount (a ∷ b ∷ c ∷ d ∷ []) =
    if uint32 a b c d == 0 then err window_zero else ok (uint32 a b c d)
window_amount payload = err window_length

-- `value, _ := WindowAmount(payload)`: the value with the error dropped.
unfoldable pub window_value : List ℕ → ℕ
unfolding window_amount
window_value payload = elim (window_amount payload) [ ok n ↦ n | _ ↦ 0 ]

unfoldable pub window_payload : ℕ → List ℕ
unfolding put_uint32
window_payload amount = put_uint32 amount

-- The cases of a switch over the type byte.
pub data Kind : Type 0 where
  opens sends closes widens pongs other : Kind

unfoldable pub kind : ℕ → Kind
kind t =
    if t == open_type
    then opens
    else if t == data_type
    then sends
    else if t == close_type
    then closes
    else if t == window_type
    then widens
    else if t == pong_type
    then pongs
    else other

abbrev pub check_shape : Kind → List ℕ → Result (Unit {0})
check_shape opens payload = if length payload == 0 then ok tt else err bad_shape
check_shape closes payload = if length payload == 0 then ok tt else err bad_shape
check_shape sends payload = if length payload == 0 then err bad_shape else ok tt
check_shape widens payload = window_amount payload >>= λ _. valid
check_shape pongs payload = err bad_shape
check_shape other payload = err bad_shape

unfoldable pub validate_client_shape : Frame → Result (Unit {0})
unfolding kind window_amount
validate_client_shape f =
    if f.stream_id == 0
    then if not (f.type_code == pong_type) || ltb 64 (length f.payload)
      then err bad_shape
      else ok tt
    else check_shape (kind f.type_code) f.payload
