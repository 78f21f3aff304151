-- ===== src/Frame/Encoding.antt =====
-- Encode against one round of ParseAll.
use tproxy_server.Base.{
  ℕ, ◌+◌, ◌*◌, ◌/◌, ◌%◌, ◌^◌, ◌≤◌, ◌<◌, ◌≡◌, refl, ap, sym, ◌∙◌, List, [], ◌∷◌, ◌++◌, some, arith,
  length, take, drop, take-append, drop-append, take-append-drop, length-take, length-drop, All,
  ◌≢◌, length-append,
}
use tproxy_server.Frame.{
  Frame, Header, ok, stuck, uint32, put_uint32, frame_bytes, read_header, parse_frame, max_payload,
  max_stream_id, header_size,
}

-- A frame that the relay or a client can send.
pub record IsSendable (limit : ℕ) (f : Frame) : Type 0 where
  pub id_fits : f.stream_id ≤ max_stream_id
  pub payload_fits : length f.payload ≤ limit

abbrev pub bytes_of : Frame → List ℕ
bytes_of f = frame_bytes f.type_code f.stream_id f.payload

uint32-put_uint32 :
    (n : ℕ)
    → n < 2 ^ 32
    → uint32 (n / 2 ^ 24 % 256) (n / 2 ^ 16 % 256) (n / 2 ^ 8 % 256) (n % 256) ≡ n
uint32-put_uint32 n h = omega arith

stream_id_bytes :
    (id : ℕ)
    → id ≤ max_stream_id
    → id / 2 ^ 16 % 256 * 2 ^ 16 + id / 2 ^ 8 % 256 * 2 ^ 8 + id % 256 ≡ id
stream_id_bytes id h = omega arith

-- The header of an encoded frame reads back as it was written.
pub read_header-frame_bytes :
    (f : Frame) (rest : List ℕ)
    → f.stream_id ≤ max_stream_id
    → length f.payload < 2 ^ 32
    → read_header (bytes_of f ++ rest)
      ≡ some (record {
        type_code = f.type_code;
        stream_id = f.stream_id;
        length = length f.payload;
        rest = f.payload ++ rest;
      })
unfolding frame_bytes read_header
read_header-frame_bytes f rest hid hlen = λ i. some (record {
  type_code = f.type_code;
  stream_id = stream_id_bytes f.stream_id hid i;
  length = uint32-put_uint32 (length f.payload) hlen i;
  rest = f.payload ++ rest;
})

pub length-frame_bytes :
    (t id : ℕ) (payload : List ℕ) → length (frame_bytes t id payload) ≡ header_size + length payload
unfolding frame_bytes
length-frame_bytes t id payload = omega arith

-- One round takes exactly the frame that Encode wrote, and leaves what follows it.
pub parse_frame-frame_bytes :
    (limit : ℕ) (f : Frame) (rest : List ℕ)
    → limit ≤ max_payload
    → IsSendable limit f
    → parse_frame limit (bytes_of f ++ rest) ≡ ok (f, rest)
unfolding parse_frame
parse_frame-frame_bytes limit f rest hl s =
    rw (read_header-frame_bytes f rest s.id_fits (omega (arith, s.payload_fits)), parse_frame)
      (ground (
        arith,
        s.payload_fits,
        length-append (bytes_of f) rest,
        length-frame_bytes f.type_code f.stream_id f.payload,
        take-append f.payload rest,
        drop-append f.payload rest,
      ))

uint32_bytes :
    (a b c d : ℕ)
    → a < 256
    → b < 256
    → c < 256
    → d < 256
    → put_uint32 (uint32 a b c d) ≡ a ∷ b ∷ c ∷ d ∷ []
unfolding put_uint32
uint32_bytes a b c d ha hb hc hd = ground arith

abbrev pub IsByte : ℕ → Type 0
IsByte b = b < 256

header_bytes :
    (t a b c l0 l1 l2 l3 : ℕ) (payload : List ℕ)
    → a < 256
    → b < 256
    → c < 256
    → l0 < 256
    → l1 < 256
    → l2 < 256
    → l3 < 256
    → length payload ≡ uint32 l0 l1 l2 l3
    → frame_bytes t (a * 2 ^ 16 + b * 2 ^ 8 + c) payload
      ≡ t ∷ a ∷ b ∷ c ∷ l0 ∷ l1 ∷ l2 ∷ l3 ∷ payload
unfolding frame_bytes
header_bytes t a b c l0 l1 l2 l3 payload ha hb hc h0 h1 h2 h3 hl = rw hl (ground arith)

record Taken (limit : ℕ) (h : Header) (size : ℕ) (f : Frame) (rest : List ℕ) : Type 0 where
  within : h.length ≤ limit
  there : header_size + h.length ≤ size
  same_type : f.type_code ≡ h.type_code
  same_id : f.stream_id ≡ h.stream_id
  same_payload : f.payload ≡ take h.length h.rest
  same_rest : rest ≡ drop h.length h.rest

parse_frame-Taken :
    (limit : ℕ) (input : List ℕ) (h : Header) (f : Frame) (rest : List ℕ)
    → read_header input ≡ some h
    → parse_frame limit input ≡ ok (f, rest)
    → Taken limit h (length input) f rest
unfolding parse_frame
parse_frame-Taken limit input h f rest r e = ground arith

-- What a round takes off the input is the encoding of the frame that it returns.
pub parse_frame-ok :
    (limit : ℕ) (input : List ℕ) (f : Frame) (rest : List ℕ)
    → All IsByte input
    → parse_frame limit input ≡ ok (f, rest)
    → (input ≡ bytes_of f ++ rest) × IsSendable limit f
unfolding read_header
parse_frame-ok limit (t ∷ a ∷ b ∷ c ∷ l0 ∷ l1 ∷ l2 ∷ l3 ∷ body) f rest bytes e = (
  ap (λ x. t ∷ a ∷ b ∷ c ∷ l0 ∷ l1 ∷ l2 ∷ l3 ∷ x) (sym (take-append-drop n body))
      ∙ ap (λ x. x ++ drop n body) (sym header)
      ∙ whole,
  record { id_fits = ground (arith, taken); payload_fits = ground (arith, taken, cut) },
)
  where
    n : ℕ
    n = uint32 l0 l1 l2 l3

    h : Header
    h = record { type_code = t; stream_id = a * 2 ^ 16 + b * 2 ^ 8 + c; length = n; rest = body }

    taken : Taken limit h (length (t ∷ a ∷ b ∷ c ∷ l0 ∷ l1 ∷ l2 ∷ l3 ∷ body)) f rest
    taken = parse_frame-Taken limit _ h f rest refl e

    cut : length (take n body) ≡ n
    cut = length-take n body (omega (arith, taken.there))

    header :
        frame_bytes t (a * 2 ^ 16 + b * 2 ^ 8 + c) (take n body)
        ≡ t ∷ a ∷ b ∷ c ∷ l0 ∷ l1 ∷ l2 ∷ l3 ∷ take n body
    header =
        header_bytes t a b c l0 l1 l2 l3 (take n body) bytes.1.0 bytes.1.1.0 bytes.1.1.1.0
          bytes.1.1.1.1.0 bytes.1.1.1.1.1.0 bytes.1.1.1.1.1.1.0 bytes.1.1.1.1.1.1.1.0 cut

    whole :
        frame_bytes t (a * 2 ^ 16 + b * 2 ^ 8 + c) (take n body) ++ drop n body ≡ bytes_of f ++ rest
    whole = cc (taken.same_type, taken.same_id, taken.same_payload, taken.same_rest)
parse_frame-ok limit _ f rest bytes e = unfold parse_frame in cc

-- A round that returns a frame takes at least a header.
pub parse_frame_shrinks :
    (limit : ℕ) (input : List ℕ) (f : Frame) (rest : List ℕ)
    → parse_frame limit input ≡ ok (f, rest)
    → length rest + header_size ≤ length input
unfolding parse_frame read_header
parse_frame_shrinks limit (t ∷ a ∷ b ∷ c ∷ l0 ∷ l1 ∷ l2 ∷ l3 ∷ body) f rest e =
    ground (arith, length-drop (uint32 l0 l1 l2 l3) body)
parse_frame_shrinks limit _ f rest e = cc

pub parse_frame-ne-stuck : (limit : ℕ) (input : List ℕ) → parse_frame limit input ≢ stuck
unfolding parse_frame
parse_frame-ne-stuck limit input e = ground arith
