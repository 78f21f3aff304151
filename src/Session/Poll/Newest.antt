-- ===== src/Session/Poll/Newest.antt =====
-- The newest poll wins: once a poll has parked or returned, an older one that is still parked gets
-- no body when it wakes.
use tproxy_server.Base.{
  ℕ, suc, ◌≡◌, ◌≢◌, refl, ap, ◌∙◌, Bool, true, false, not, some, if◌then◌else◌, arith,
}
use tproxy_server.Session.{Session, Hooks}
use tproxy_server.Session.Poll.{
  Polled, PollTurn, parked, reply, body, nothing, retired, failed, Wake, dropped, taken_over,
  session_done, deadline, signalled, poll_wake, poll_loop, park, is_mine, is_empty,
}

abbrev pub HasBody : PollTurn → Type 0
HasBody (parked id) = ⊥
HasBody (reply (body bytes cursor)) = Unit {0}
HasBody (reply nothing) = ⊥
HasBody (reply retired) = ⊥
HasBody (reply (failed e)) = ⊥

module _ {W : Type 0} where
  abbrev NoBody : Polled W → Type 0
  NoBody p = HasBody p.turn → ⊥

  NoBody-if :
      (b : Bool) (m n : Polled W)
      → (b ≡ true → NoBody m)
      → (b ≡ false → NoBody n)
      → NoBody (if b then m else n)
  NoBody-if true m n f g = f refl
  NoBody-if false m n f g = g refl

  -- The poll `mine` is not the one that the queue waits for.
  abbrev IsOld : ℕ → Polled W → Type 0
  IsOld mine p = is_mine mine p.session.main.superseded ≡ false

  IsOld-if :
      (mine : ℕ) (b : Bool) (m n : Polled W)
      → IsOld mine m
      → IsOld mine n
      → IsOld mine (if b then m else n)
  IsOld-if mine true m n f g = f
  IsOld-if mine false m n f g = g

module _ {W : Type 0} ⦃h : Hooks W⦄ where
  poll_loop-NoBody :
      (mine cursor : ℕ) (s : Session W)
      → is_mine mine s.main.superseded ≡ false
      → NoBody (poll_loop mine cursor s)
  unfolding poll_loop
  poll_loop-NoBody mine cursor s e =
      NoBody-if (not (is_mine mine s.main.superseded)) _ _ (λ x b. b)
        (λ x. absurd (ground (arith, e, x)))

  poll_wake-NoBody :
      (w : Wake) (now mine cursor : ℕ) (s : Session W)
      → is_mine mine s.main.superseded ≡ false
      → NoBody (poll_wake w now mine cursor s)
  unfolding poll_wake
  poll_wake-NoBody dropped now mine cursor s e = λ b. b
  poll_wake-NoBody taken_over now mine cursor s e = λ b. b
  poll_wake-NoBody session_done now mine cursor s e = λ b. b
  poll_wake-NoBody deadline now mine cursor s e =
      NoBody-if (not (is_mine mine s.main.superseded)) _ _ (λ x b. b)
        (λ x. absurd (ground (arith, e, x)))
  poll_wake-NoBody signalled now mine cursor s e = poll_loop-NoBody mine cursor _ e

  poll_loop-IsOld :
      (mine newest cursor : ℕ) (s : Session W)
      → is_mine mine s.main.superseded ≡ false
      → IsOld mine (poll_loop newest cursor s)
  unfolding poll_loop
  poll_loop-IsOld mine newest cursor s e =
      IsOld-if mine (not (is_mine newest s.main.superseded)) _ _ e (
        IsOld-if mine (not (is_empty s.main.pending_frames)) _ _ refl
          (IsOld-if mine s.is_closed _ _ refl e))

  -- Once a poll has entered its wait, or returned from there, any other poll gets no body when
  -- it wakes, for whatever reason and on any later session, with frames queued or without, that
  -- has the same poll registered: the newest poll wins.
  pub park-NoBody :
      (w : Wake) (now mine cursor last : ℕ) (s later : Session W)
      → mine ≢ s.next_poll
      → later.main.superseded ≡ (park cursor s).session.main.superseded
      → ¬ HasBody (poll_wake w now mine last later).turn
  unfolding park
  park-NoBody w now mine cursor last s later n e = poll_wake-NoBody w now mine last later (
      ap (is_mine mine) e
      ∙ poll_loop-IsOld mine s.next_poll cursor
          (record s {
            next_poll = suc s.next_poll;
            main = record s.main { superseded = some s.next_poll; down_active = true };
          })
          (ground (arith, n)))
