-- ===== src/Session/Laws.antt =====
-- What a session relies on in its callbacks: the shared budget remembers how much the session
-- holds, gives back what was taken, and no other callback changes that.
use tproxy_server.Base.{ℕ, ◌+◌, ◌≡◌, Bool, Returns, if◌then◌else◌}
use tproxy_server.Session.{Session, Hooks, PendingClass, owed_cost, owed_items}

abbrev pub added : Bool → ℕ → ℕ → ℕ
added taken amount held = if taken then held + amount else held

-- `Holds c i w`: of the budget in `w`, the session holds the cost `c` and `i` items.
pub record HookLaws (W : Type 0) (h : Hooks W) : Type 1 where
  pub Holds : ℕ → ℕ → W → Type 0
  pub take_holds :
      (c i dc di : ℕ) (k : PendingClass) (w : W)
      → Holds c i w
      → Holds
          (added (h.take dc di k w).0 dc c)
          (added (h.take dc di k w).0 di i)
          (h.take dc di k w).1
  pub give_holds :
      (c i dc di : ℕ) (w : W) → Holds (c + dc) (i + di) w → Returns (h.give dc di w) (Holds c i)
  pub acquire_holds : (c i : ℕ) (w : W) → Holds c i w → Holds c i (h.acquire_stream w).1
  pub rejected_holds : (c i : ℕ) (w : W) → Holds c i w → Holds c i (h.stream_rejected w)
  pub up_holds : (n c i : ℕ) (w : W) → Holds c i w → Holds c i (h.on_up n w)
  pub down_holds : (n c i : ℕ) (w : W) → Holds c i w → Holds c i (h.on_down n w)

-- The accounting: what is charged is exactly what the parts of the session owe, over an amount
-- `rc` and `ri` that an operation under way has in hand, and the shared budget agrees.
pub record Accounted {W : Type 0} {h : Hooks W} (laws : HookLaws W h) (rc ri : ℕ) (s : Session W)
    : Type 0 where
  pub cost_exact : s.pending_cost ≡ owed_cost s + rc
  pub items_exact : s.pending_items ≡ owed_items s + ri
  pub held : laws.Holds s.pending_cost s.pending_items s.world
