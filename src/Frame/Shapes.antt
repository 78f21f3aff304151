-- ===== src/Frame/Shapes.antt =====
-- ParseHello, the WINDOW payload and ValidateClientShape, each against a description of its own.
use tproxy_server.Base.{
  ℕ, ◌≤◌, ◌<◌, ◌^◌, ◌≡◌, ◌≢◌, refl, ap, ◌∙◌, List, [], ◌∷◌, arith, length, All, ◌==◌, inl, inr,
  true, bytes_equal, Bool-cases,
}
use mathlib.Core.Logic.{◌↔◌}
use tproxy_server.Frame.{
  Frame, Result, ok, err, stuck, ◌>>=◌, valid, parse_all, parse_hello, hello_frame, max_payload,
  hello_type, window_amount, window_payload, validate_client_shape, kind, Kind, opens, sends,
  closes, widens, pongs, other, open_type, data_type, close_type, window_type, pong_type,
  check_shape, parse_loop, parse_frame, read_header, frame_bytes,
}
use tproxy_server.Frame.Encoding.{IsByte}
use tproxy_server.Frame.Batches.{parse_all-ok, batch_bytes}

abbrev pub hello_body : List ℕ
hello_body = 0x10 ∷ 0 ∷ 0 ∷ 0 ∷ 0 ∷ 0 ∷ 0 ∷ 1 ∷ 1 ∷ []

bytes_equal-eq : (xs ys : List ℕ) → bytes_equal xs ys ≡ true → xs ≡ ys
unfolding bytes_equal
bytes_equal-eq [] [] h = refl
bytes_equal-eq [] (y ∷ ys) h = cc
bytes_equal-eq (x ∷ xs) [] h = cc
bytes_equal-eq (x ∷ xs) (y ∷ ys) h = ground (arith, bytes_equal-eq xs ys)

abbrev hello : Frame
hello = record { type_code = hello_type; stream_id = 0; payload = 1 ∷ [] }

hello_frame-eq : (frames : List Frame) → hello_frame frames ≡ ok tt → frames ≡ hello ∷ []
unfolding hello_frame
hello_frame-eq [] h = cc
hello_frame-eq (f ∷ []) h = ground (arith, h, bytes_equal-eq f.payload (1 ∷ []))
hello_frame-eq (f ∷ g ∷ rest) h = cc

-- A body of bytes is a HELLO exactly when it is the nine bytes of its one encoding.
pub parse_hello_iff :
    (input : List ℕ) → All IsByte input → (parse_hello input ≡ ok tt) ↔ (input ≡ hello_body)
unfolding parse_hello parse_all parse_loop parse_frame read_header hello_frame bytes_equal
parse_hello_iff input bytes = (λ e. go (parse_all input max_payload) refl e, λ e. rw e)
  where
    go :
        (r : Result (List Frame))
        → parse_all input max_payload ≡ r
        → (r >>= hello_frame) ≡ ok tt
        → input ≡ hello_body
    go (ok frames) p q =
        (parse_all-ok input max_payload frames bytes p).0
        ∙ unfold frame_bytes in ap batch_bytes (hello_frame-eq frames q)
    go (err c) p q = cc
    go stuck p q = cc

-- A WINDOW payload of a positive 32-bit amount is read back as the amount.
pub window_amount-payload : (n : ℕ) → 0 < n → n < 2 ^ 32 → window_amount (window_payload n) ≡ ok n
unfolding window_amount window_payload
window_amount-payload n h k = ground arith

-- The shapes that a client may send: an empty OPEN or CLOSE, a DATA with a payload and a WINDOW with
-- a positive 32-bit amount, each on a stream; and on stream 0 a PONG of at most 64 bytes.
pub data ClientShape (f : Frame) : Type 0 where
  pong : f.stream_id ≡ 0 → f.type_code ≡ pong_type → length f.payload ≤ 64 → ClientShape f
  opening : f.stream_id ≢ 0 → f.type_code ≡ open_type → f.payload ≡ [] → ClientShape f
  closing : f.stream_id ≢ 0 → f.type_code ≡ close_type → f.payload ≡ [] → ClientShape f
  sending : f.stream_id ≢ 0 → f.type_code ≡ data_type → f.payload ≢ [] → ClientShape f
  widening :
      (n : ℕ)
      → f.stream_id ≢ 0
      → f.type_code ≡ window_type
      → window_amount f.payload ≡ ok n
      → ClientShape f

no_bytes : (l : List ℕ) → length l ≡ 0 → l ≡ []
no_bytes [] h = refl
no_bytes (x ∷ l) h = absurd (omega arith)

some_bytes : (l : List ℕ) → (length l ≡ 0 → ⊥) → l ≢ []
some_bytes l h e = h (ap length e)

window_ok : (r : Result ℕ) → (r >>= λ _. valid) ≡ valid → (n : ℕ) × (r ≡ ok n)
window_ok (ok n) e = (n, refl)
window_ok (err c) e = cc
window_ok stuck e = cc

abbrev TypeOf : Kind → ℕ → Type 0
TypeOf opens t = t ≡ open_type
TypeOf sends t = t ≡ data_type
TypeOf closes t = t ≡ close_type
TypeOf widens t = t ≡ window_type
TypeOf pongs t = t ≡ pong_type
TypeOf other t = Unit {0}

kind-TypeOf : (k : Kind) (t : ℕ) → kind t ≡ k → TypeOf k t
unfolding kind
kind-TypeOf opens t h = ground arith
kind-TypeOf sends t h = ground arith
kind-TypeOf closes t h = ground arith
kind-TypeOf widens t h = ground arith
kind-TypeOf pongs t h = ground arith
kind-TypeOf other t h = tt

live_shape :
    (k : Kind) (f : Frame)
    → f.stream_id ≢ 0
    → TypeOf k f.type_code
    → check_shape k f.payload ≡ ok tt
    → ClientShape f
live_shape opens f i t e = opening i t (no_bytes f.payload (ground arith))
live_shape closes f i t e = closing i t (no_bytes f.payload (ground arith))
live_shape sends f i t e = sending i t (some_bytes f.payload (λ z. ground arith))
live_shape widens f i t e = let w = window_ok (window_amount f.payload) e in widening w.0 i t w.1
live_shape pongs f i t e = cc
live_shape other f i t e = cc

validate_ok : (f : Frame) → validate_client_shape f ≡ ok tt → ClientShape f
unfolding validate_client_shape
validate_ok f e = elim (Bool-cases (f.stream_id == 0)) [
  | inl zero_id ↦ pong (ground arith) (ground arith) (ground arith)
  | inr live_id ↦
      live_shape (kind f.type_code) f (λ z. ground arith) (kind-TypeOf _ f.type_code refl)
        (rw live_id at e)
]

shape_ok : (f : Frame) → ClientShape f → validate_client_shape f ≡ ok tt
unfolding validate_client_shape
shape_ok f (pong i t p) = ground arith
shape_ok f (opening i t p) = ground (arith, ap length p)
shape_ok f (closing i t p) = ground (arith, ap length p)
shape_ok f (sending i t p) = ground (arith, λ (z : length f.payload ≡ 0). p (no_bytes f.payload z))
shape_ok f (widening n i t p) = ground arith

-- ValidateClientShape accepts exactly the five shapes that a client may send.
pub validate_client_shape_iff : (f : Frame) → (validate_client_shape f ≡ ok tt) ↔ ClientShape f
validate_client_shape_iff f = (validate_ok f, shape_ok f)
