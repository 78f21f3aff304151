-- ===== src/Session/Batch/Steps.antt =====
-- One round of applyBatchLocked, on a frame that the validation accepted: no panic, and the
-- session follows the trial run.
use tproxy_server.Base.{
  ℕ, ◌+◌, ◌-◌, ◌≤◌, ◌≡◌, refl, ap, ◌∙◌, true, false, ◌||◌, Option, none, some, List, arith, ◌==◌,
  ltb, length, Bool-cases, inl, inr, ◌⊎◌, Returns,
}
use tproxy_server.Base.Table.{number_key, Table, lookup, insert, delete, value_or}
use tproxy_server.Frame.{
  Frame, Kind, window_value, opens, sends, closes, widens, pongs, other, max_stream_id,
}
use tproxy_server.Session.{Session, Hooks, StreamState, queue_item_cost}
use tproxy_server.Session.Laws.{HookLaws}
use tproxy_server.Session.Invariant.{IsSound}
use tproxy_server.Session.Moves.{stream-IsSound, stream_cost, stream_items}
use tproxy_server.Session.Close.{has}
use tproxy_server.Session.Apply.{
  Trial, Charge, write_charge, no_charge, sub_uint32, credited, plus_charge,
}
use tproxy_server.Session.Batch.{
  Batch, apply_frame, write_stream, widen_stream, append_backend_write, write_cost, joins_write,
}
use tproxy_server.Session.Batch.Members.{
  Unique, has-insert, has-insert_self, has-insert_old, has-lookup, Unique-insert, has-delete_self,
  has-delete_ne,
}
use tproxy_server.Session.Batch.Tombs.{Retired}
use tproxy_server.Session.Batch.Tracking.{
  Agrees, Agrees-moves, gone, gone-tombs, live-streams, closed-agrees,
}

-- Whether a frame may leave a tombstone.
abbrev pub tomb : Kind → ℕ
tomb opens = 1
tomb closes = 1
tomb sends = 0
tomb widens = 0
tomb pongs = 0
tomb other = 0

module _ {W : Type 0} {h : Hooks W} (laws : HookLaws W h) (before : Table (Unit {0})) where
  -- A batch half done, with `charge` reserved for what is left and `leaving` tombstones to come.
  pub record Tracks (charge : Charge) (leaving : ℕ) (r : Trial) (paid : Table (Unit {0}))
      (b : Batch W) : Type 0 where
    pub sound : IsSound laws b.cost b.items b.session
    pub tracked : (id : ℕ) → Agrees before r paid b.session id
    pub once : Unique b.session.streams
    pub cost_funded : charge.cost ≤ b.cost
    pub items_funded : charge.items ≤ b.items
    pub room : length b.session.closed_order + leaving ≤ b.session.limits.max_closed_stream_ids

  -- After a round: the invariant, and where the batch goes on, what the next round needs.
  abbrev pub Goes : Charge → ℕ → Trial → Table (Unit {0}) → Batch W → Type 0
  Goes charge leaving r paid b =
      IsSound laws b.cost b.items b.session × (b.applied ≡ true → Tracks charge leaving r paid b)

module _ {W : Type 0} ⦃h : Hooks W⦄ (laws : HookLaws W h) (before : Table (Unit {0})) where
  -- A frame that changes nothing in the session: what was kept for it is left over.
  pub skip :
      (w charge : Charge) (n leaving : ℕ) (r r' : Trial) (paid paid' : Table (Unit {0}))
      (b : Batch W)
      → ((id : ℕ) → Agrees before r' paid' b.session id)
      → Tracks laws before (plus_charge w charge) (n + leaving) r paid b
      → Tracks laws before charge leaving r' paid' b
  skip w charge n leaving r r' paid paid' b a v = record {
    sound = v.sound;
    tracked = a;
    once = v.once;
    cost_funded = omega (arith, v.cost_funded);
    items_funded = omega (arith, v.items_funded);
    room = omega (arith, v.room);
  }

  -- The same members, in the trial run and in the session, agree alike.
  same_members :
      (r r' : Trial) (paid : Table (Unit {0})) (s t : Session W)
      → ((j : ℕ) → has j r'.live ≡ has j r.live)
      → ((j : ℕ) → has j r'.closed ≡ has j r.closed)
      → ((j : ℕ) → has j t.streams ≡ has j s.streams)
      → ((j : ℕ) → has j t.closed_streams ≡ has j s.closed_streams)
      → ((id : ℕ) → Agrees before r paid s id)
      → (id : ℕ) → Agrees before r' paid t id
  same_members r r' paid s t l c st tm a j = cc (a j, l j, c j, st j, tm j)

  -- A stream that is there is written anew: `c` and `i` of the reservation go into its charges.
  updated :
      (c i left left_items id : ℕ) (t u : StreamState) (charge : Charge) (leaving : ℕ)
      (r r' : Trial) (paid : Table (Unit {0})) (b : Batch W)
      → lookup id b.session.streams ≡ some t
      → stream_cost u ≡ stream_cost t + c
      → stream_items u ≡ stream_items t + i
      → id ≤ max_stream_id
      → left + c ≡ b.cost
      → left_items + i ≡ b.items
      → charge.cost ≤ left
      → charge.items ≤ left_items
      → ((j : ℕ) → has j r'.live ≡ has j r.live)
      → ((j : ℕ) → has j r'.closed ≡ has j r.closed)
      → Tracks laws before charge leaving r paid b
      → Tracks laws before charge leaving r' paid (record b {
        cost = left;
        items = left_items;
        session = record b.session { streams = insert id u b.session.streams };
      })
  updated c i left left_items id t u charge leaving r r' paid b e ec ei fits hc hi fc fi l k v =
      record {
        sound =
            stream-IsSound laws b.cost b.items left left_items b.session id u
              (omega (arith, ec, hc, ap (value_or stream_cost) e))
              (omega (arith, ei, hi, ap (value_or stream_items) e)) fits v.sound;
        tracked =
            same_members r r' paid b.session
              (record b.session { streams = insert id u b.session.streams }) l k here (λ j. refl)
              v.tracked;
        once = Unique-insert id u b.session.streams v.once;
        cost_funded = fc;
        items_funded = fi;
        room = v.room;
      }
    where
      here : (j : ℕ) → has j (insert id u b.session.streams) ≡ has j b.session.streams
      here j = has-insert_old j id u b.session.streams (has-lookup id t b.session.streams e)

  -- The stream of a frame that is not skipped.
  pub stream_of :
      (id : ℕ) (r : Trial) (paid : Table (Unit {0})) (s : Session W)
      → Agrees before r paid s id
      → (gone id before r ≡ true) ⊎ (has id r.live ≡ true)
      → has id s.closed_streams ≡ false
      → (t : StreamState) × (lookup id s.streams ≡ some t) × (has id paid ≡ true)
  stream_of id r paid s a (inl g) e = absurd (
      cc (
        gone-tombs (has id s.streams) (has id s.closed_streams) (has id r.live) (gone id before r)
            (has id paid) a g,
        e,
      ))
  stream_of id r paid s a (inr g) e =
      let l =
        live-streams (has id s.streams) (has id s.closed_streams) (has id r.live) (gone id before r)
          (has id paid) a g e in
      found (lookup id s.streams) refl l.0 l.1
    where
      found :
          (o : Option StreamState)
          → lookup id s.streams ≡ o
          → has id s.streams ≡ true
          → has id paid ≡ true
          → (t : StreamState) × (lookup id s.streams ≡ some t) × (has id paid ≡ true)
      found none x y p = absurd (cc (rw (x, has) at y))
      found (some t) x y p = (t, x, p)

  write_cost-le :
      (payload : List ℕ) (writes : List (List ℕ))
      → ((write_cost payload writes).cost ≤ length payload + queue_item_cost)
        × ((write_cost payload writes).items ≤ 1)
  write_cost-le payload writes = elim (Bool-cases (joins_write payload writes)) [
    | inl e ↦ rw e (omega arith, omega arith)
    | inr e ↦ rw e (omega arith, omega arith)
  ]

  abbrev Sure : Charge → ℕ → Trial → Table (Unit {0}) → Batch W → Type 0
  Sure charge leaving r paid b = Goes laws before charge leaving r paid b

  pub sends-Goes :
      (f : Frame) (charge : Charge) (leaving : ℕ) (r r' : Trial) (paid : Table (Unit {0}))
      (b : Batch W)
      → f.stream_id ≤ max_stream_id
      → (gone f.stream_id before r ≡ true) ⊎ (has f.stream_id r.live ≡ true)
      → ((j : ℕ) → has j r'.live ≡ has j r.live)
      → ((j : ℕ) → has j r'.closed ≡ has j r.closed)
      → Tracks laws before
          (plus_charge (write_charge sends f.stream_id f.payload paid) charge)
          (0 + leaving)
          r
          paid
          b
      → Returns (apply_frame sends f b) (Sure charge leaving r' paid)
  unfolding apply_frame write_stream append_backend_write
  sends-Goes f charge leaving r r' paid b fits there l k v =
      elim (Bool-cases (has f.stream_id b.session.closed_streams)) [
        | inl e ↦
            rw (e, Returns)
              (
                v.sound,
                λ a.
                    skip (write_charge sends f.stream_id f.payload paid) charge 0 leaving r r' paid
                      paid b
                      (same_members r r' paid b.session b.session l k (λ j. refl) (λ j. refl)
                        v.tracked)
                      v,
              )
        | inr e ↦
            let q = stream_of f.stream_id r paid b.session (v.tracked f.stream_id) there e in
            rw (e, q.1, Returns) (write q.0 q.1 q.2)
      ]
    where
      write :
          (t : StreamState)
          → lookup f.stream_id b.session.streams ≡ some t
          → has f.stream_id paid ≡ true
          → Returns (write_stream f t b) (Sure charge leaving r' paid)
      write t y p =
          let funds : charge.cost + (write_cost f.payload t.writes).cost ≤ b.cost =
            ground (arith, p, v.cost_funded, (write_cost-le f.payload t.writes).0) in
          let places : charge.items + (write_cost f.payload t.writes).items ≤ b.items =
            ground (arith, p, v.items_funded, (write_cost-le f.payload t.writes).1) in
          let enough : (ltb b.cost (write_cost f.payload t.writes).cost
                || ltb b.items (write_cost f.payload t.writes).items)
              ≡ false =
            ground (arith, funds, places) in
          let u =
            updated (write_cost f.payload t.writes).cost (write_cost f.payload t.writes).items
              (b.cost - (write_cost f.payload t.writes).cost)
              (b.items - (write_cost f.payload t.writes).items) f.stream_id t
              (record (append_backend_write t f.payload) {
                receive_window = sub_uint32 t.receive_window (length f.payload);
                write_notify = true;
              })
              charge leaving r r' paid b y refl refl fits (omega (arith, funds))
              (omega (arith, places)) (omega (arith, funds)) (omega (arith, places)) l k
              (skip (write_charge sends f.stream_id f.payload paid) charge 0 leaving r r paid paid b
                v.tracked v) in
          rw (enough, Returns) (u.sound, λ a. u)

  pub widens-Goes :
      (f : Frame) (charge : Charge) (leaving : ℕ) (r r' : Trial) (paid : Table (Unit {0}))
      (b : Batch W)
      → f.stream_id ≤ max_stream_id
      → (gone f.stream_id before r ≡ true) ⊎ (has f.stream_id r.live ≡ true)
      → ((j : ℕ) → has j r'.live ≡ has j r.live)
      → ((j : ℕ) → has j r'.closed ≡ has j r.closed)
      → Tracks laws before (plus_charge no_charge charge) (0 + leaving) r paid b
      → Returns (apply_frame widens f b) (Sure charge leaving r' paid)
  unfolding apply_frame widen_stream
  widens-Goes f charge leaving r r' paid b fits there l k v =
      elim (Bool-cases (has f.stream_id b.session.closed_streams)) [
        | inl e ↦ rw (e, Returns) (v.sound, λ a. same)
        | inr e ↦
            let q = stream_of f.stream_id r paid b.session (v.tracked f.stream_id) there e in
            rw (e, q.1, Returns) (widen q.0 q.1)
      ]
    where
      same : Tracks laws before charge leaving r' paid b
      same =
          skip no_charge charge 0 leaving r r' paid paid b
            (same_members r r' paid b.session b.session l k (λ j. refl) (λ j. refl) v.tracked) v

      widen :
          (t : StreamState)
          → lookup f.stream_id b.session.streams ≡ some t
          → Sure charge leaving r' paid (widen_stream f t b)
      widen t y =
          let u =
            updated 0 0 b.cost b.items f.stream_id t
              (record t {
                send_credit = credited t.send_credit (window_value f.payload);
                credit_notify = true;
              })
              charge leaving r r' paid b y (omega arith) (omega arith) fits (omega arith)
              (omega arith) same.cost_funded same.items_funded l k
              (skip no_charge charge 0 leaving r r paid paid b v.tracked v) in
          (u.sound, λ a. u)

  -- A closed stream: `s` is the session with its tombstone and without its streams entry.
  pub departed :
      (id : ℕ) (r r' : Trial) (paid : Table (Unit {0})) (s t : Session W)
      → Retired id s t
      → Unique s.streams
      → ((j : ℕ) → (id == j) ≡ false → has j r'.live ≡ has j r.live)
      → ((j : ℕ) → (id == j) ≡ false → has j r'.closed ≡ has j r.closed)
      → gone id before r' ≡ true
      → ((j : ℕ) → Agrees before r paid s j)
      → (j : ℕ) → Agrees before r' (delete id paid) t j
  departed id r r' paid s t d u l k g a =
      Agrees-moves id before r r' paid (delete id paid) s t
        (record {
          streams = λ j e. ap (has j) d.streams ∙ has-delete_ne j id s.streams e;
          tombs = λ j e. ap (has j) d.tombs ∙ has-insert j id tt s.closed_streams ∙ rw e refl;
          live = l;
          closed = k;
          paid_for = λ j e. has-delete_ne j id paid e;
        })
        (rw
          (
            ap (has id) d.streams ∙ has-delete_self id s.streams u,
            ap (has id) d.tombs ∙ has-insert_self id tt s.closed_streams,
            g,
          )
          (closed-agrees (has id r'.live) (has id (delete id paid))))
        a
