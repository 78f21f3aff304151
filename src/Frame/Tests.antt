-- ===== src/Frame/Tests.antt =====
-- The theorems on the frames, applied to a batch of two frames and to single bodies.
use tproxy_server.Base.{ℕ, ◌≤◌, ◌≡◌, ◌≢◌, refl, List, [], ◌∷◌, arith, All, ◌<◌}
use mathlib.Core.Logic.{◌↔◌}
use tproxy_server.Frame.{
  Frame, ok, stuck, parse_all, parse_loop, parse_frame, read_header, parse_hello, effective_limit,
  max_batch_frames, window_amount, window_payload, validate_client_shape,
}
use tproxy_server.Frame.Encoding.{IsByte, IsSendable}
use tproxy_server.Frame.Batches.{
  batch_bytes, parse_all-ok, parse_all-batch_bytes, parse_all-ne-stuck,
}
use tproxy_server.Frame.Shapes.{
  hello_body, ClientShape, parse_hello_iff, window_amount-payload, validate_client_shape_iff,
}

abbrev opened : Frame
opened = record { type_code = 1; stream_id = 3; payload = [] }

abbrev sent : Frame
sent = record { type_code = 2; stream_id = 3; payload = 104 ∷ 105 ∷ [] }

abbrev wire : List ℕ
wire = 1 ∷ 0 ∷ 0 ∷ 3 ∷ 0 ∷ 0 ∷ 0 ∷ 0 ∷ 2 ∷ 0 ∷ 0 ∷ 3 ∷ 0 ∷ 0 ∷ 0 ∷ 2 ∷ 104 ∷ 105 ∷ []

parse_all-batch_bytes_example :
    parse_all (batch_bytes (opened ∷ sent ∷ [])) 16 ≡ ok (opened ∷ sent ∷ [])
parse_all-batch_bytes_example =
    parse_all-batch_bytes opened (sent ∷ []) 16
      (
        record { id_fits = omega arith; payload_fits = omega arith },
        (record { id_fits = omega arith; payload_fits = omega arith }, tt),
      )
      (omega arith)

wire-IsByte : All IsByte wire
wire-IsByte = ground arith

parse_wire : parse_all wire 16 ≡ ok (opened ∷ sent ∷ [])
unfolding parse_all parse_loop parse_frame read_header
parse_wire = refl

parse_all-ok_example :
    (wire ≡ batch_bytes (opened ∷ sent ∷ []))
    × All (IsSendable (effective_limit 16)) (opened ∷ sent ∷ [])
    × (0 < 2)
    × (2 ≤ max_batch_frames)
parse_all-ok_example = parse_all-ok wire 16 (opened ∷ sent ∷ []) wire-IsByte parse_wire

parse_all-ne-stuck_example : parse_all wire 16 ≢ stuck
parse_all-ne-stuck_example = parse_all-ne-stuck wire 16

parse_hello_iff_example : (parse_hello hello_body ≡ ok tt) ↔ (hello_body ≡ hello_body)
parse_hello_iff_example = parse_hello_iff hello_body (ground arith)

window_amount-payload_example : window_amount (window_payload 65536) ≡ ok 65536
window_amount-payload_example = window_amount-payload 65536 (omega arith) (omega arith)

validate_client_shape_iff_example : (validate_client_shape sent ≡ ok tt) ↔ ClientShape sent
validate_client_shape_iff_example = validate_client_shape_iff sent
