-- ===== src/Session/Charges.antt =====
-- reservePendingLocked and releasePendingLocked keep the accounting exact, and the release of what
-- is in hand does not panic.
use tproxy_server.Base.{
  ℕ, ◌+◌, ◌-◌, ◌≡◌, subst, Bool, true, false, inl, inr, Bool-cases, Option, none, some, Returns,
  arith, ltb, ◌==◌, ◌&&◌, ◌||◌,
}
use tproxy_server.Session.{Session, Hooks, PendingClass}
use tproxy_server.Session.Laws.{HookLaws, Accounted, added}
use tproxy_server.Session.Budget.{reserve_pending, release_pending, fits, charge, class_limits}

module _ {W : Type 0} ⦃h : Hooks W⦄ (laws : HookLaws W h) where
  charge-Accounted :
      (rc ri c i : ℕ) (k : PendingClass) (s : Session W)
      → Accounted laws rc ri s
      → (r : Bool × W) → laws.Holds (added r.0 c s.pending_cost) (added r.0 i s.pending_items) r.1
      → Accounted laws
          (added (charge c i s r).0 c rc)
          (added (charge c i s r).0 i ri)
          (charge c i s r).1
  charge-Accounted rc ri c i k s a (true, w) holds = record {
    cost_exact = omega (arith, a.cost_exact);
    items_exact = omega (arith, a.items_exact);
    held = holds;
  }
  charge-Accounted rc ri c i k s a (false, w) holds = record {
    cost_exact = a.cost_exact;
    items_exact = a.items_exact;
    held = holds;
  }

  -- A reservation that is granted is in hand, one that is refused leaves nothing in hand, and
  -- the accounting stays exact.
  pub reserve-Accounted :
      (rc ri c i : ℕ) (k : PendingClass) (s : Session W)
      → Accounted laws rc ri s
      → Accounted laws
          (added (reserve_pending c i k s).0 c rc)
          (added (reserve_pending c i k s).0 i ri)
          (reserve_pending c i k s).1
  unfolding reserve_pending
  reserve-Accounted rc ri c i k s a = elim (Bool-cases (fits c i (class_limits k s.limits) s)) [
    | inl e ↦ rw e (
        charge-Accounted rc ri c i k s a (h.take c i k s.world)
          (laws.take_holds s.pending_cost s.pending_items c i k s.world a.held))
    | inr e ↦ rw e a
  ]

  given-Accounted :
      (rc ri c i : ℕ) (s : Session W) (w : W)
      → Accounted laws (rc + c) (ri + i) s
      → laws.Holds (s.pending_cost - c) (s.pending_items - i) w
      → Accounted laws rc ri (record s {
        pending_cost = s.pending_cost - c;
        pending_items = s.pending_items - i;
        budget_notify = s.budget_notify + 1;
        world = w;
      })
  given-Accounted rc ri c i s w a holds = record {
    cost_exact = omega (arith, a.cost_exact);
    items_exact = omega (arith, a.items_exact);
    held = holds;
  }

  -- What is in hand can be given back.
  pub release-Accounted :
      (rc ri c i : ℕ) (s : Session W)
      → Accounted laws (rc + c) (ri + i) s
      → Returns (release_pending c i s) (Accounted laws rc ri)
  unfolding release_pending
  release-Accounted rc ri c i s a = elim (Bool-cases ((c == 0) && (i == 0))) [
    | inl e ↦ rw e (record {
      cost_exact = ground (arith, e, a.cost_exact);
      items_exact = ground (arith, e, a.items_exact);
      held = a.held;
    })
    | inr e ↦ rw (e, enough) (go (h.give c i s.world) give)
  ]
    where
      enough : (ltb s.pending_cost c || ltb s.pending_items i) ≡ false
      enough = ground (arith, a.cost_exact, a.items_exact)

      give : Returns (h.give c i s.world) (laws.Holds (s.pending_cost - c) (s.pending_items - i))
      give = laws.give_holds (s.pending_cost - c) (s.pending_items - i) c i s.world (
          subst (λ n. laws.Holds n (s.pending_items - i + i) s.world) (omega (arith, a.cost_exact))
            (subst (λ n. laws.Holds s.pending_cost n s.world) (omega (arith, a.items_exact))
              a.held))

      go :
          (o : Option W)
          → Returns o (laws.Holds (s.pending_cost - c) (s.pending_items - i))
          → Returns
              (elim o [
                | none ↦ none
                | some w ↦ some (record s {
                  pending_cost = s.pending_cost - c;
                  pending_items = s.pending_items - i;
                  budget_notify = s.budget_notify + 1;
                  world = w;
                })
              ])
              (Accounted laws rc ri)
      go none r = absurd r
      go (some w) r = given-Accounted rc ri c i s w a r
