-- ===== src/Manager/Capacity/Shared.antt =====
-- The budget that all sessions share: it keeps its limits, and it is what a session relies on.
use tproxy_server.Base.{
  ℕ, ◌+◌, ◌≤◌, ◌<◌, ◌≡◌, Bool, true, false, not, ◌&&◌, ◌||◌, inl, inr, Bool-cases, arith, ltb, ◌==◌,
  Returns,
}
use tproxy_server.Config.{Limits, Profile}
use tproxy_server.Session.Invariant.{IsSound}
use tproxy_server.Session.Close.{close_locked}
use tproxy_server.Session.Closing.{close_locked-IsRefunded}
use tproxy_server.Session.{Session, PendingClass, control, uplink, downlink}
use tproxy_server.Session.Laws.{HookLaws, added}
use tproxy_server.Manager.{Manager}
use tproxy_server.Manager.Sessions.{Buckets}
use tproxy_server.Manager.Capacity.{
  take_budget, give_budget, global_limits, exceeds, hooks, acquire_stream, stream_blocked,
  stream_acquired,
}

-- What the sessions hold together is within the global limits.
pub record IsWithin (m : Manager) : Type 0 where
  pub cost : m.pending_global_cost ≤ m.limits.max_pending_global
  pub items : m.pending_global_items ≤ m.limits.max_pending_items_global

limit-le :
    (k : PendingClass) (l : Limits)
    → ((global_limits k l).cost ≤ l.max_pending_global)
      × ((global_limits k l).items ≤ l.max_pending_items_global)
unfolding global_limits
limit-le control l = (omega arith, omega arith)
limit-le uplink l = (ground arith, ground arith)
limit-le downlink l = (ground arith, ground arith)

abbrev refuses : ℕ → ℕ → PendingClass → Manager → Bool
refuses c i k m =
    (not (c == 0) || not (i == 0))
    && (exceeds c (global_limits k m.limits).cost m.pending_global_cost
        || exceeds i (global_limits k m.limits).items m.pending_global_items)

-- A reservation, granted or refused, keeps the shared budget within its limits.
pub take_budget-IsWithin :
    (c i : ℕ) (k : PendingClass) (m : Manager) → IsWithin m → IsWithin (take_budget c i k m).1
unfolding take_budget
take_budget-IsWithin c i k m v = elim (Bool-cases (refuses c i k m)) [
  | inl e ↦ rw e (record { cost = v.cost; items = v.items })
  | inr e ↦
      let l = limit-le k m.limits in
      rw e
        (record { cost = ground (arith, e, l.0, v.cost); items = ground (arith, e, l.1, v.items) })
]

-- A grant of a positive cost leaves the shared budget within the limits of its class.
pub take_budget-within :
    (c i : ℕ) (k : PendingClass) (m : Manager)
    → 0 < c
    → (take_budget c i k m).0 ≡ true
    → ((take_budget c i k m).1.pending_global_cost ≤ (global_limits k m.limits).cost)
      × ((take_budget c i k m).1.pending_global_items ≤ (global_limits k m.limits).items)
unfolding take_budget
take_budget-within c i k m h g = elim (Bool-cases (refuses c i k m)) [
  | inl e ↦ absurd (cc (rw e at g))
  | inr e ↦ rw e (ground (arith, e, h), ground (arith, e, h))
]

-- What the sessions besides one hold, and what that one holds, is all that is held.
abbrev pub Shares : ℕ → ℕ → ℕ → ℕ → Manager → Type 0
Shares others other_items c i m =
    (m.pending_global_cost ≡ others + c) × (m.pending_global_items ≡ other_items + i)

pub take-Shares :
    (oc oi c i dc di : ℕ) (k : PendingClass) (m : Manager)
    → Shares oc oi c i m
    → Shares oc oi
        (added (take_budget dc di k m).0 dc c)
        (added (take_budget dc di k m).0 di i)
        (take_budget dc di k m).1
unfolding take_budget
take-Shares oc oi c i dc di k m v = elim (Bool-cases (refuses dc di k m)) [
  | inl e ↦ rw e v
  | inr e ↦ rw e (omega (arith, v.0), omega (arith, v.1))
]

pub give-Shares :
    (oc oi c i dc di : ℕ) (m : Manager)
    → Shares oc oi (c + dc) (i + di) m
    → Returns (give_budget dc di m) (Shares oc oi c i)
unfolding give_budget
give-Shares oc oi c i dc di m v = rw enough (omega (arith, v.0), omega (arith, v.1))
  where
    enough : (ltb m.pending_global_cost dc || ltb m.pending_global_items di) ≡ false
    enough = ground (arith, v.0, v.1)

pub acquire-Shares :
    (oc oi now : ℕ) (p : Profile) (c i : ℕ) (m : Manager)
    → Shares oc oi c i m
    → Shares oc oi c i (acquire_stream now p m).1
unfolding acquire_stream
acquire-Shares oc oi now p c i m v = elim (Bool-cases (stream_blocked p m)) [
  | inl e ↦ rw e v
  | inr e ↦ rw e (go _)
]
  where
    go : (r : Buckets × Bool) → Shares oc oi c i (stream_acquired p m r).1
    go (b, false) = v
    go (b, true) = v

-- The manager gives every session what it relies on, whatever the other sessions hold.
unfoldable pub manager-HookLaws : (oc oi now : ℕ) (p : Profile) → HookLaws Manager (hooks now p)
manager-HookLaws oc oi now p = record {
  Holds = Shares oc oi;
  take_holds = take-Shares oc oi;
  give_holds = give-Shares oc oi;
  acquire_holds = acquire-Shares oc oi now p;
  rejected_holds = λ c i m v. v;
  up_holds = λ n c i m v. v;
  down_holds = λ n c i m v. v;
}

-- An open session that closes leaves in the manager's budget what the other sessions hold, to
-- the byte, where its invariant held before.
pub close_locked-Shares :
    (oc oi now : ℕ) (p : Profile) (s : Session Manager)
    → s.is_closed ≡ false
    → IsSound {h = hooks now p} (manager-HookLaws oc oi now p) 0 0 s
    → Returns (close_locked ⦃h = hooks now p⦄ s) (λ t. Shares oc oi 0 0 t.world)
unfolding manager-HookLaws
close_locked-Shares oc oi now p s e v =
    close_locked-IsRefunded ⦃h = hooks now p⦄ (manager-HookLaws oc oi now p) s e v
