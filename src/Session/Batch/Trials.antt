-- ===== src/Session/Batch/Trials.antt =====
-- session.go: validateBatchLocked, what the trial run of one frame says of its stream.
use tproxy_server.Base.{
  ℕ, ◌≡◌, refl, sym, ap, ◌∙◌, Bool, true, false, ◌||◌, some, ◌==◌, ltb, if◌then◌else◌, length,
  Bool-cases, Option-cases, inl, inr, ◌⊎◌,
}
use tproxy_server.Base.Table.{number_key, Table, lookup, insert, delete}
use tproxy_server.Frame.{Frame, opens, sends, closes, widens, initial_stream_window, window_value}
use tproxy_server.Session.Close.{has}
use tproxy_server.Session.Apply.{Trial, Snapshot, try_frame, uint32_length, sub_uint32, credited}
use tproxy_server.Session.Batch.Members.{
  has-insert, has-insert_self, has-insert_old, has-lookup, has-delete_ne,
}
use tproxy_server.Session.Batch.Tracking.{gone}

-- What the trial run says of a frame that finds its stream: the members stay.
pub record Finds (id : ℕ) (was_gone : Bool) (r r' : Trial) : Type 0 where
  pub there : (was_gone ≡ true) ⊎ (has id r.live ≡ true)
  pub live : (j : ℕ) → has j r'.live ≡ has j r.live
  pub closed : (j : ℕ) → has j r'.closed ≡ has j r.closed

Finds-same :
    (id : ℕ) (was_gone : Bool) (r r' : Trial) → was_gone ≡ true → r ≡ r' → Finds id was_gone r r'
Finds-same id was_gone r r' g e = record {
  there = inl g;
  live = λ j. ap (λ t. has j t.live) (sym e);
  closed = λ j. ap (λ t. has j t.closed) (sym e);
}

Finds-insert :
    (id : ℕ) (was_gone : Bool) (v : Snapshot) (r r' : Trial)
    → has id r.live ≡ true
    → record r { live = insert id v r.live } ≡ r'
    → Finds id was_gone r r'
Finds-insert id was_gone v r r' g e = record {
  there = inr g;
  live = λ j. ap (λ t. has j t.live) (sym e) ∙ has-insert_old j id v r.live g;
  closed = λ j. ap (λ t. has j t.closed) (sym e);
}

pub try_sends :
    (was_gone : Bool) (f : Frame) (r r' : Trial)
    → try_frame sends was_gone f r ≡ some r'
    → Finds f.stream_id was_gone r r'
unfolding try_frame
try_sends true f r r' e = Finds-same f.stream_id true r r' refl (cc e)
try_sends false f r r' e = elim (Option-cases (lookup f.stream_id r.live)) [
  | inl x ↦ cc (rw (x, try_frame) at e)
  | inr (state, x) ↦ elim (Bool-cases (ltb state.receive_window (uint32_length f.payload))) [
    | inl y ↦ cc (rw (x, y, try_frame) at e)
    | inr y ↦
        Finds-insert f.stream_id false
          (record state { receive_window = sub_uint32 state.receive_window (length f.payload) }) r
          r' (has-lookup f.stream_id state r.live x) (cc (rw (x, y, try_frame) at e))
  ]
]

pub try_widens :
    (was_gone : Bool) (f : Frame) (r r' : Trial)
    → try_frame widens was_gone f r ≡ some r'
    → Finds f.stream_id was_gone r r'
unfolding try_frame
try_widens true f r r' e = Finds-same f.stream_id true r r' refl (cc e)
try_widens false f r r' e = elim (Option-cases (lookup f.stream_id r.live)) [
  | inl x ↦ cc (rw (x, try_frame) at e)
  | inr (state, x) ↦
      Finds-insert f.stream_id false
        (record state { send_credit = credited state.send_credit (window_value f.payload) }) r r'
        (has-lookup f.stream_id state r.live x) (cc (rw (x, try_frame) at e))
]

-- A CLOSE: away from its number all stays, and afterwards the number is gone.
pub record Closes (id : ℕ) (before : Table (Unit {0})) (r r' : Trial) : Type 0 where
  pub there : (gone id before r ≡ true) ⊎ (has id r.live ≡ true)
  pub live : (j : ℕ) → (id == j) ≡ false → has j r'.live ≡ has j r.live
  pub closed : (j : ℕ) → (id == j) ≡ false → has j r'.closed ≡ has j r.closed
  pub goes : gone id before r' ≡ true

pub try_closes :
    (before : Table (Unit {0})) (f : Frame) (r r' : Trial) (g : Bool)
    → gone f.stream_id before r ≡ g
    → try_frame closes g f r ≡ some r'
    → Closes f.stream_id before r r'
unfolding try_frame
try_closes before f r r' true g e =
    let same : r ≡ r' = cc e in
    record {
      there = inl g;
      live = λ j x. ap (λ t. has j t.live) (sym same);
      closed = λ j x. ap (λ t. has j t.closed) (sym same);
      goes = ap (gone f.stream_id before) (sym same) ∙ g;
    }
try_closes before f r r' false g e = elim (Bool-cases (has f.stream_id r.live)) [
  | inl x ↦
      let same : record {
        live = delete f.stream_id r.live;
        closed = insert f.stream_id tt r.closed;
      }
          ≡ r' =
        cc (rw (x, try_frame) at e) in
      record {
        there = inr x;
        live = λ j y. ap (λ t. has j t.live) (sym same) ∙ has-delete_ne j f.stream_id r.live y;
        closed = λ j y.
            ap (λ t. has j t.closed) (sym same) ∙ has-insert j f.stream_id tt r.closed ∙ rw y refl;
        goes =
            ap (gone f.stream_id before) (sym same)
            ∙ or_true (has f.stream_id before) _ (has-insert_self f.stream_id tt r.closed);
      }
  | inr x ↦ cc (rw (x, try_frame) at e)
]
  where
    or_true : (a b : Bool) → b ≡ true → (a || b) ≡ true
    or_true true b h = refl
    or_true false b h = h

pub record Opens (id : ℕ) (was_gone : Bool) (r r' : Trial) : Type 0 where
  pub idle : has id r.live ≡ false
  pub new : was_gone ≡ false
  pub live : (j : ℕ) → has j r'.live ≡ (if id == j then true else has j r.live)
  pub closed : (j : ℕ) → has j r'.closed ≡ has j r.closed

pub try_opens :
    (was_gone : Bool) (f : Frame) (r r' : Trial)
    → try_frame opens was_gone f r ≡ some r'
    → Opens f.stream_id was_gone r r'
unfolding try_frame
try_opens true f r r' e = elim (Bool-cases (has f.stream_id r.live)) [
  | inl x ↦ cc (rw (x, try_frame) at e)
  | inr x ↦ cc (rw (x, try_frame) at e)
]
try_opens false f r r' e = elim (Bool-cases (has f.stream_id r.live)) [
  | inl x ↦ cc (rw (x, try_frame) at e)
  | inr x ↦
      let same : record r { live = insert f.stream_id start r.live } ≡ r' =
        cc (rw (x, try_frame) at e) in
      record {
        idle = x;
        new = refl;
        live = λ j. ap (λ t. has j t.live) (sym same) ∙ has-insert j f.stream_id _ r.live;
        closed = λ j. ap (λ t. has j t.closed) (sym same);
      }
]
  where
    start : Snapshot
    start = record { receive_window = initial_stream_window; send_credit = initial_stream_window }
