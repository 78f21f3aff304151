-- ===== src/Session/Tidy.antt =====
-- The streams of a session and its tombstones: every number once, and no number in both.
use tproxy_server.Base.{
  ℕ, ◌≡◌, refl, subst, sym, Option, some, none, true, false, List, [], ◌∷◌, Bool, if◌then◌else◌,
  ◌>>=◌, Every, Every-bind,
}
use tproxy_server.Base.Table.{number_key, Table}
use tproxy_server.Session.{Session, Hooks, StreamState}
use tproxy_server.Session.Laws.{HookLaws}
use tproxy_server.Session.Invariant.{IsSound}
use tproxy_server.Session.Tables.{SameTables}
use tproxy_server.Session.Close.{
  has, close_backend, close_backends, close_locked, give_all, backends_of, emptied, emptied_lanes,
}
use tproxy_server.Session.Batch.Members.{Unique}

pub record IsTidy (streams : Table StreamState) (tombs : Table (Unit {0})) : Type 0 where
  pub once : Unique streams
  pub apart : (id : ℕ) → has id streams ≡ true → has id tombs ≡ false

-- The invariant of a session between two operations: a closed one has no streams to keep apart.
pub record IsReady {W : Type 0} {h : Hooks W} (laws : HookLaws W h) (s : Session W) : Type 0 where
  pub sound : IsSound laws 0 0 s
  pub tidy : s.is_closed ≡ false → IsTidy s.streams s.closed_streams

module _ {W : Type 0} where
  pub same-IsTidy :
      (s t : Session W)
      → SameTables s t
      → IsTidy s.streams s.closed_streams
      → IsTidy t.streams t.closed_streams
  same-IsTidy s t same x =
      subst (λ m. IsTidy m t.closed_streams) (sym same.same_streams)
        (subst (IsTidy s.streams) (sym same.same_tombs) x)

  pub close_backends-SameTables : (bs : List ℕ) (s : Session W) → SameTables s (close_backends bs s)
  close_backends-SameTables [] s = record {
    same_streams = refl;
    same_tombs = refl;
    same_order = refl;
    same_start = refl;
    same_limits = refl;
  }
  close_backends-SameTables (b ∷ bs) s =
      let g = close_backends-SameTables bs (close_backend b s) in
      record {
        same_streams = g.same_streams;
        same_tombs = g.same_tombs;
        same_order = g.same_order;
        same_start = g.same_start;
        same_limits = g.same_limits;
      }

  close_backends-is_closed :
      (bs : List ℕ) (s : Session W) → s.is_closed ≡ true → (close_backends bs s).is_closed ≡ true
  close_backends-is_closed [] s e = e
  close_backends-is_closed (b ∷ bs) s e = close_backends-is_closed bs (close_backend b s) e

module _ {W : Type 0} ⦃h : Hooks W⦄ where
  given : (o : Option W) → Every o (λ w. Unit {0})
  given none = tt
  given (some w) = tt

  -- closeLocked leaves the session closed.
  pub close_locked-is_closed : (s : Session W) → Every (close_locked s) (λ t. t.is_closed ≡ true)
  unfolding close_locked
  close_locked-is_closed s = decided s.is_closed refl
    where
      closing : W → Session W
      closing w = close_backends (backends_of s.streams) (record s {
        is_closed = true;
        lanes = emptied_lanes s.lanes;
        streams = [];
        main = emptied s.main;
        pending_cost = 0;
        pending_items = 0;
        finish_started = true;
        world = w;
      })

      decided :
          (b : Bool)
          → s.is_closed ≡ b
          → Every
              (if b then some s else (give_all s >>= λ w. some (closing w)))
              (λ t. t.is_closed ≡ true)
      decided true e = e
      decided false e =
          Every-bind (λ w. Unit {0}) (λ t. t.is_closed ≡ true) (give_all s) (λ w. some (closing w))
            (given (give_all s)) (λ w u. close_backends-is_closed (backends_of s.streams) _ refl)
