-- ===== src/Session/ProcessUp/Retry.antt =====
-- A repeated upload. A client whose reply was lost sends the same body under the same number.
use tproxy_server.Base.{
  ℕ, ◌+◌, ◌≡◌, refl, subst, Bool, true, false, Option, none, some, List, arith, ◌==◌, if◌then◌else◌,
  bytes_equal, ◌>>=◌, length,
}
use tproxy_server.Base.Table.{bytes_equal_iff}
use tproxy_server.Frame.{Frame}
use tproxy_server.Session.{Session, Hooks, SessionError, protocol, closed}
use tproxy_server.Session.Budget.{release_pending}
use tproxy_server.Session.Queue.{uses_carrier_lanes}
use tproxy_server.Session.Apply.{validate_batch, backend_write_reservation, Charge}
use tproxy_server.Session.Batch.{Batch, apply_batch}
use tproxy_server.Session.Close.{close, close_backends, protocol_failure}
use tproxy_server.Session.Uplink.{
  accepted, Replied, answer, failing, parse_body, deliver, settle, pay, reserve_upload,
}
use tproxy_server.Session.ProcessUp.{
  process_up, begin_up, finish_up, repeats, out_of_order, recorded, Begun, parsing, answered,
  validated,
}

-- The session knows the upload as its last one.
pub record IsRecorded {W : Type 0} (sequence : ℕ) (digest : List ℕ) (s : Session W) : Type 0 where
  pub known : repeats sequence s.main ≡ true
  pub same_digest : bytes_equal digest s.main.last_up_digest ≡ true

module _ {W : Type 0} ⦃h : Hooks W⦄ (sequence : ℕ) (digest : List ℕ) where
  -- A reply that accepts the upload leaves it recorded.
  abbrev IfAccepted : Option (Replied W) → Type 0
  IfAccepted none = Unit {0}
  IfAccepted (some r) = r.reply ≡ accepted sequence → IsRecorded sequence digest r.session

  failing-IfAccepted : (e : SessionError) (o : Option (Session W)) → IfAccepted (failing e o)
  failing-IfAccepted e none = tt
  failing-IfAccepted e (some s) = λ x. cc

  IfAccepted-if :
      (b : Bool) (m n : Option (Replied W))
      → (b ≡ true → IfAccepted m)
      → (b ≡ false → IfAccepted n)
      → IfAccepted (if b then m else n)
  IfAccepted-if true m n f g = f refl
  IfAccepted-if false m n f g = g refl

  abbrev write : Session W → Session W
  write s = record s { main = recorded sequence digest s.main }

  write-IsRecorded :
      (s : Session W) (w : W)
      → (sequence == 0) ≡ false
      → IsRecorded sequence digest (record (write s) { world = w })
  write-IsRecorded s w e = record {
    known = ground (arith, e);
    same_digest = (bytes_equal_iff digest digest).1 refl;
  }

  settled :
      (body : List ℕ) (b : Batch W) (o : Option (Session W))
      → (sequence == 0) ≡ false
      → IfAccepted (
          o >>= λ s.
          (let started =
              close_backends b.closed (record s { running = s.running + length b.opened }) in
            if b.applied
            then answer
                (accepted sequence)
                (record (write started) { world = h.on_up (length body) (write started).world })
            else failing closed (close started)))
  settled body b none e = tt
  settled body b (some s) e =
      IfAccepted-if b.applied _ _
        (λ x y. write-IsRecorded started (h.on_up (length body) (write started).world) e)
        (λ x. failing-IfAccepted closed (close started))
    where
      started : Session W
      started = close_backends b.closed (record s { running = s.running + length b.opened })

  settle-IfAccepted :
      (body : List ℕ) (o : Option (Batch W))
      → (sequence == 0) ≡ false
      → IfAccepted (o >>= settle sequence body write)
  unfolding settle
  settle-IfAccepted body none e = tt
  settle-IfAccepted body (some b) e = settled body b (release_pending b.cost b.items b.session) e

  pay-IfAccepted :
      (body : List ℕ) (frames : List Frame) (c : Charge) (r : Bool × Session W)
      → (sequence == 0) ≡ false
      → IfAccepted (pay sequence body frames c write r)
  pay-IfAccepted body frames c (false, s) e = λ x. cc
  pay-IfAccepted body frames c (true, s) e = settle-IfAccepted body (apply_batch frames c s) e

  validated-IfAccepted :
      (body : List ℕ) (s : Session W) (o : Option (List Frame))
      → (sequence == 0) ≡ false
      → IfAccepted (validated sequence digest body s o)
  unfolding deliver
  validated-IfAccepted body s none e = failing-IfAccepted protocol (protocol_failure s)
  validated-IfAccepted body s (some frames) e =
      IfAccepted-if (validate_batch frames s) _ _
        (λ x.
          pay-IfAccepted body frames (backend_write_reservation frames s)
            (reserve_upload (backend_write_reservation frames s) s) e)
        (λ x. failing-IfAccepted protocol (protocol_failure s))

  finish_up-IfAccepted :
      (body : List ℕ) (s : Session W)
      → (sequence == 0) ≡ false
      → IfAccepted (finish_up sequence digest body s)
  unfolding finish_up
  finish_up-IfAccepted body s e =
      IfAccepted-if s.is_closed _ _ (λ x y. cc)
        (λ x. validated-IfAccepted body _ (parse_body body s.limits.max_frame_payload) e)

  abbrev IfBegun : Begun W → Type 0
  IfBegun (answered r) = IfAccepted r
  IfBegun (parsing s) = (sequence == 0) ≡ false

  IfBegun-if :
      (b : Bool) (m n : Begun W)
      → (b ≡ true → IfBegun m)
      → (b ≡ false → IfBegun n)
      → IfBegun (if b then m else n)
  IfBegun-if true m n f g = f refl
  IfBegun-if false m n f g = g refl

  begin_up-IfBegun : (now : ℕ) (s : Session W) → IfBegun (begin_up now sequence digest s)
  unfolding begin_up
  begin_up-IfBegun now s =
      IfBegun-if (uses_carrier_lanes s.carrier) _ _ (λ x y. cc)
        (λ x.
          IfBegun-if s.is_closed _ _ (λ x y. cc)
            (λ x.
              IfBegun-if (repeats sequence s.main) _ _
                (λ k.
                  IfAccepted-if (bytes_equal digest s.main.last_up_digest) _ _
                    (λ d y. record { known = k; same_digest = d })
                    (λ d. failing-IfAccepted protocol (protocol_failure _)))
                (λ k.
                  IfBegun-if (out_of_order sequence s.main) _ _
                    (λ o. failing-IfAccepted protocol (protocol_failure _))
                    (λ o. IfBegun-if s.main.up_active _ _ (λ a y. cc) (λ a. ground (arith, o))))))

  begun-IfAccepted :
      (body : List ℕ) (b : Begun W)
      → IfBegun b
      → IfAccepted (elim b [ answered r ↦ r | parsing s' ↦ finish_up sequence digest body s' ])
  begun-IfAccepted body (answered r) k = k
  begun-IfAccepted body (parsing s) k = finish_up-IfAccepted body s k

  process_up-IfAccepted :
      (now : ℕ) (body : List ℕ) (s : Session W) → IfAccepted (process_up now sequence digest body s)
  unfolding process_up
  process_up-IfAccepted now body s =
      begun-IfAccepted body (begin_up now sequence digest s) (begin_up-IfBegun now s)

  repeat_recorded :
      (later : ℕ) (body : List ℕ) (s : Session W)
      → IsRecorded sequence digest s
      → s.is_closed ≡ false
      → uses_carrier_lanes s.carrier ≡ false
      → process_up later sequence digest body s
        ≡ answer (accepted sequence) (record s { last_activity = later })
  unfolding process_up begin_up
  repeat_recorded later body s v up e =
      rw (e, up, v.known, v.same_digest, process_up, begin_up) refl

  -- An upload that was accepted is accepted again under its number and digest, whatever the
  -- body, while the session is open and has no lanes: nothing is applied twice, and of the
  -- session only the time of the last activity changes.
  pub process_up-process_up :
      (now later : ℕ) (body again : List ℕ) (s : Session W) (r : Replied W)
      → process_up now sequence digest body s ≡ some r
      → r.reply ≡ accepted sequence
      → r.session.is_closed ≡ false
      → uses_carrier_lanes r.session.carrier ≡ false
      → process_up later sequence digest again r.session
        ≡ answer (accepted sequence) (record r.session { last_activity = later })
  process_up-process_up now later body again s r e ok up lanes =
      repeat_recorded later again r.session
        (subst IfAccepted e (process_up-IfAccepted now body s) ok) up lanes
