-- ===== src/Session/Batch/Tracking.antt =====
-- How the tables of a session follow those of the trial run that validates a batch, and the set of
-- live streams that its reservation keeps: a relation for each stream number.
use tproxy_server.Base.{
  ℕ, refl, ◌≡◌, subst, Bool, true, false, not, ◌&&◌, ◌||◌, arith, ◌==◌, Bool-cases, inl, inr,
}
use tproxy_server.Base.Table.{number_key, number_iff, Table}
use tproxy_server.Session.{Session}
use tproxy_server.Session.Close.{has}
use tproxy_server.Session.Apply.{Trial}

abbrev implies : Bool → Bool → Bool
implies a b = not a || b

-- `streams` and `tombs` are the session's, `live` and `gone` those of the trial run, and `paid` the
-- set of the reservation.
unfoldable pub agrees : (streams tombs live gone paid : Bool) → Bool
agrees streams tombs live gone paid =
    implies gone tombs
    && (implies live (streams || tombs)
        && (implies streams live
            && (implies tombs (gone || live)
                && (implies streams (not tombs) && implies streams paid))))

-- The tombstones that validateBatchLocked sees: those before the batch, and its own closes.
abbrev pub gone : ℕ → Table (Unit {0}) → Trial → Bool
gone id before r = has id before || has id r.closed

abbrev pub Agrees :
    {W : Type 0} → Table (Unit {0}) → Trial → Table (Unit {0}) → Session W → ℕ → Type 0
Agrees before r paid s id =
    agrees (has id s.streams) (has id s.closed_streams) (has id r.live) (gone id before r)
      (has id paid)
    ≡ true

-- Nothing changes away from one number.
pub record SameElsewhere {W : Type 0} (k : ℕ) (r r' : Trial) (paid paid' : Table (Unit {0}))
    (s t : Session W) : Type 0 where
  pub streams : (j : ℕ) → (k == j) ≡ false → has j t.streams ≡ has j s.streams
  pub tombs : (j : ℕ) → (k == j) ≡ false → has j t.closed_streams ≡ has j s.closed_streams
  pub live : (j : ℕ) → (k == j) ≡ false → has j r'.live ≡ has j r.live
  pub closed : (j : ℕ) → (k == j) ≡ false → has j r'.closed ≡ has j r.closed
  pub paid_for : (j : ℕ) → (k == j) ≡ false → has j paid' ≡ has j paid

pub Agrees-moves :
    {W : Type 0} (k : ℕ) (before : Table (Unit {0})) (r r' : Trial) (paid paid' : Table (Unit {0}))
    (s t : Session W)
    → SameElsewhere k r r' paid paid' s t
    → Agrees before r' paid' t k
    → ((id : ℕ) → Agrees before r paid s id)
    → (id : ℕ) → Agrees before r' paid' t id
Agrees-moves k before r r' paid paid' s t same here h j = elim (Bool-cases (k == j)) [
  | inl e ↦ subst (Agrees before r' paid' t) ((number_iff k j).0 e) here
  | inr e ↦
      cc (h j, same.streams j e, same.tombs j e, same.live j e, same.closed j e, same.paid_for j e)
]

module _ (streams tombs live gone paid : Bool) where
  -- A frame for a stream that is gone finds its tombstone.
  pub gone-tombs : agrees streams tombs live gone paid ≡ true → gone ≡ true → tombs ≡ true
  unfolding agrees
  gone-tombs h e = ground arith

  -- A live stream is there, or has its tombstone, and its writes are paid for.
  pub live-streams :
      agrees streams tombs live gone paid ≡ true
      → live ≡ true
      → tombs ≡ false
      → (streams ≡ true) × (paid ≡ true)
  unfolding agrees
  live-streams h e f = ground arith

  -- A number that can be opened is not in use.
  pub fresh :
      agrees streams tombs live gone paid ≡ true
      → live ≡ false
      → gone ≡ false
      → (streams ≡ false) × (tombs ≡ false)
  unfolding agrees
  fresh h e f = ground arith

  pub buried : agrees streams tombs live gone paid ≡ true → tombs ≡ true → streams ≡ false
  unfolding agrees
  buried h e = ground arith

pub opened-agrees : (paid : Bool) → paid ≡ true → agrees true false true false paid ≡ true
unfolding agrees
opened-agrees paid e = ground arith

pub rejected-agrees : (paid gone : Bool) → agrees false true true gone paid ≡ true
unfolding agrees
rejected-agrees paid gone = ground arith

pub closed-agrees : (live paid : Bool) → agrees false true live true paid ≡ true
unfolding agrees
closed-agrees live paid = ground arith

pub apart :
    (streams tombs live gone paid : Bool)
    → agrees streams tombs live gone paid ≡ true
    → streams ≡ true
    → tombs ≡ false
unfolding agrees
apart streams tombs live gone paid h e = ground arith

-- The tables that a batch starts with agree.
pub start-agrees :
    (streams tombs : Bool)
    → (streams ≡ true → tombs ≡ false)
    → agrees streams tombs streams (tombs || false) streams ≡ true
unfolding agrees
start-agrees true true h = cc (h refl)
start-agrees true false h = refl
start-agrees false true h = refl
start-agrees false false h = refl
