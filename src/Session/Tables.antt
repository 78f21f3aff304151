-- ===== src/Session/Tables.antt =====
-- Which operations leave the streams, the tombstones and the ring of a session alone.
use tproxy_server.Base.{ℕ, ◌≡◌, refl, Every, Every-map, Option-cases, inl, inr}
use tproxy_server.Base.Table.{number_key, lookup, delete}
use tproxy_server.Session.{Session, Hooks, lane_cost, lane_items}
use tproxy_server.Session.Invariant.{SameParts, released-SameParts}
use tproxy_server.Session.Budget.{release_pending}
use tproxy_server.Session.Close.{drop_lane, release_lane, wake_lane}

pub record SameTables {W : Type 0} (s t : Session W) : Type 0 where
  pub same_streams : t.streams ≡ s.streams
  pub same_tombs : t.closed_streams ≡ s.closed_streams
  pub same_order : t.closed_order ≡ s.closed_order
  pub same_start : t.closed_start ≡ s.closed_start
  pub same_limits : t.limits ≡ s.limits

module _ {W : Type 0} where
  pub SameTables-refl : (s : Session W) → SameTables s s
  SameTables-refl s = record {
    same_streams = refl;
    same_tombs = refl;
    same_order = refl;
    same_start = refl;
    same_limits = refl;
  }

  pub SameTables-parts : (s t : Session W) → SameParts s t → SameTables s t
  SameTables-parts s t p = record {
    same_streams = p.same_streams;
    same_tombs = p.same_tombs;
    same_order = p.same_order;
    same_start = p.same_start;
    same_limits = p.same_limits;
  }

  pub wake_lane-SameTables : (id : ℕ) (s : Session W) → SameTables s (wake_lane id s)
  wake_lane-SameTables id s = elim (Option-cases (lookup id s.lanes)) [
    | inl e ↦ rw (e, wake_lane) (SameTables-refl s)
    | inr (lane, e) ↦
        rw (e, wake_lane)
          (record {
            same_streams = refl;
            same_tombs = refl;
            same_order = refl;
            same_start = refl;
            same_limits = refl;
          })
  ]

module _ {W : Type 0} ⦃h : Hooks W⦄ where
  pub release-SameTables : (c i : ℕ) (s : Session W) → Every (release_pending c i s) (SameTables s)
  release-SameTables c i s = elim (Option-cases (release_pending c i s)) [
    | inl e ↦ rw (e, Every) tt
    | inr (t, e) ↦ rw (e, Every) (SameTables-parts s t (released-SameParts c i s t e))
  ]

  pub drop_lane-SameTables : (id : ℕ) (s : Session W) → Every (drop_lane id s) (SameTables s)
  unfolding drop_lane
  drop_lane-SameTables id s = elim (Option-cases (lookup id s.lanes)) [
    | inl e ↦ rw (e, drop_lane, Every) (SameTables-refl s)
    | inr (lane, e) ↦
        rw (e, drop_lane, Every)
          (Every-map (SameTables (record s { lanes = delete id s.lanes })) (SameTables s)
            (release_lane lane (record s { lanes = delete id s.lanes }))
            (λ t k. record {
              same_streams = k.same_streams;
              same_tombs = k.same_tombs;
              same_order = k.same_order;
              same_start = k.same_start;
              same_limits = k.same_limits;
            })
            (release-SameTables (lane_cost lane) (lane_items lane)
              (record s { lanes = delete id s.lanes })))
  ]
