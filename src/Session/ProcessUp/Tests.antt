-- ===== src/Session/ProcessUp/Tests.antt =====
-- An upload of two bytes for a stream, and its retry.
use tproxy_server.Base.{
  ◌+◌, All, arith, subst, ◌≤◌, Returns, ℕ, ◌≡◌, refl, List, [], ◌∷◌, Option, none, some, false,
  bytes_equal,
}
use tproxy_server.Base.Table.{lookup, insert}
use tproxy_server.Frame.{
  Frame, parse_all, parse_loop, parse_frame, read_header, validate_client_shape, kind,
}
use tproxy_server.Session.Apply.{
  validate_batch, try_batch, try_frame, snapshots, backend_write_reservation, reservation,
}
use tproxy_server.Session.Batch.{
  apply_batch, apply_frames, apply_frame, write_stream, append_backend_write,
}
use tproxy_server.Session.Budget.{
  reserve_pending, class_limits, uplink_pending_limits, pending_control_reserve,
  subtract_pending_reserve, release_pending,
}
use tproxy_server.Session.Queue.{uses_carrier_lanes}
use tproxy_server.Session.Tests.{Ledger, ledger, busy, ledger-HookLaws, busy-IsSound}
use tproxy_server.Session.Tidy.{IsReady}
use tproxy_server.Frame.Encoding.{IsByte}
use tproxy_server.Session.Batch.Sound.{departures}
use tproxy_server.Session.ProcessUp.Sound.{HasRoom, Begins, process_up-IsReady, begin_up-finish_up}
use tproxy_server.Session.Uplink.{
  accepted, Replied, answer, parse_body, all_shaped, deliver, settle,
}
use tproxy_server.Session.ProcessUp.{process_up, begin_up, finish_up}
use tproxy_server.Session.ProcessUp.Retry.{process_up-process_up}

abbrev upload : List ℕ
upload = 2 ∷ 0 ∷ 0 ∷ 3 ∷ 0 ∷ 0 ∷ 0 ∷ 2 ∷ 104 ∷ 105 ∷ []

abbrev hash : List ℕ
hash = 1 ∷ 2 ∷ 3 ∷ []

abbrev or_busy : Option (Replied Ledger) → Replied Ledger
or_busy none = record { reply = accepted 0; session = busy }
or_busy (some r) = r

abbrev first : Replied Ledger
first = or_busy (process_up 100 1 hash upload busy)

applied :
    (process_up 100 1 hash upload busy ≡ some first)
    × (first.reply ≡ accepted 1)
    × (first.session.is_closed ≡ false)
    × (uses_carrier_lanes first.session.carrier ≡ false)
unfolding process_up begin_up finish_up uses_carrier_lanes parse_body all_shaped parse_all
    parse_loop parse_frame read_header validate_client_shape kind validate_batch try_batch try_frame
    snapshots lookup insert deliver settle backend_write_reservation reservation reserve_pending
    class_limits uplink_pending_limits pending_control_reserve subtract_pending_reserve apply_batch
    apply_frames apply_frame write_stream append_backend_write release_pending bytes_equal
applied = (refl, refl, refl, refl)

process_up-process_up_example :
    process_up 200 1 hash upload first.session
    ≡ answer (accepted 1) (record first.session { last_activity = 200 })
process_up-process_up_example =
    process_up-process_up 1 hash 100 200 upload upload busy first applied.0 applied.1 applied.2
      applied.3

upload_frames :
    (frames : List Frame)
    → parse_body upload busy.limits.max_frame_payload ≡ some frames
    → (record { type_code = 2; stream_id = 3; payload = 104 ∷ 105 ∷ [] } ∷ []) ≡ frames
unfolding parse_body all_shaped parse_all parse_loop parse_frame read_header validate_client_shape
    kind
upload_frames frames e = cc

busy-HasRoom : HasRoom upload busy
unfolding kind
busy-HasRoom frames e =
    subst (λ fs. 0 + departures fs ≤ 4096) (upload_frames frames e) (omega arith)

busy-IsReady : IsReady ledger-HookLaws busy
unfolding lookup
busy-IsReady = record {
  sound = busy-IsSound;
  tidy = λ e. record { once = (tt, tt); apart = λ id x. refl };
}

process_up-IsReady_example :
    Returns (process_up 100 1 hash upload busy) (λ r. IsReady ledger-HookLaws r.session)
process_up-IsReady_example =
    process_up-IsReady ledger-HookLaws 1 hash upload (ground arith) 100 busy busy-HasRoom
      busy-IsReady

upload-IsByte : All IsByte upload
upload-IsByte = ground arith

begin_up-finish_up_example :
    Begins ledger-HookLaws 1 hash upload upload-IsByte (begin_up 100 1 hash busy)
    × Returns (finish_up 1 hash upload busy) (λ r. IsReady ledger-HookLaws r.session)
begin_up-finish_up_example =
    begin_up-finish_up ledger-HookLaws 1 hash upload upload-IsByte 100 busy busy busy-IsReady
      busy-HasRoom busy-IsReady
