-- ===== src/Session/Batch/Opens.antt =====
-- The round that opens a stream: it is admitted, or remembered as closed and answered with CLOSE.
use tproxy_server.Base.{
  ℕ, suc, ◌+◌, ◌≤◌, ◌≡◌, refl, sym, ap, subst, ◌∙◌, Bool, true, false, Option, none, some, [],
  arith, ◌==◌, if◌then◌else◌, length, Returns, Returns-bind, Returns-Every, ◌>>=◌,
}
use tproxy_server.Base.Table.{number_key, Table, lookup, insert, value_or}
use tproxy_server.Config.{Limits}
use tproxy_server.Frame.{Frame, opens, max_stream_id, close_type}
use tproxy_server.Session.{Session, Hooks, StreamState}
use tproxy_server.Session.Laws.{HookLaws}
use tproxy_server.Session.Invariant.{IsSound}
use tproxy_server.Session.Moves.{stream-IsSound, stream_cost, stream_items}
use tproxy_server.Session.Leaving.{remember_closed-IsSound}
use tproxy_server.Session.Queueing.{Stays, queue_frame-Stays}
use tproxy_server.Session.Queue.{queue_frame}
use tproxy_server.Session.Close.{has, remember_closed}
use tproxy_server.Session.Apply.{Trial, Charge, no_charge, plus_charge}
use tproxy_server.Session.Batch.{
  Batch, apply_frame, admit_stream, reject_stream, start_stream, new_stream, admitted, rejected,
}
use tproxy_server.Session.Batch.Members.{Unique, has-insert, has-insert_self, Unique-insert}
use tproxy_server.Session.Batch.Tombs.{Remembered, remember_closed-Remembered}
use tproxy_server.Session.Batch.Tracking.{Agrees-moves, gone, fresh, opened-agrees, rejected-agrees}
use tproxy_server.Session.Batch.Steps.{Tracks, Goes}
use tproxy_server.Session.Batch.Ends.{admit-Stays}

lookup-none : (id : ℕ) (m : Table StreamState) → has id m ≡ false → lookup id m ≡ none
lookup-none id m e = go (lookup id m) refl
  where
    go : (o : Option StreamState) → lookup id m ≡ o → lookup id m ≡ none
    go none x = x
    go (some t) x = cc (rw (x, has) at e)

module _ {W : Type 0} ⦃h : Hooks W⦄ (laws : HookLaws W h) (before : Table (Unit {0})) (f : Frame)
    (charge : Charge) (leaving : ℕ) (r r' : Trial) (paid : Table (Unit {0})) (b : Batch W)
    (fits : f.stream_id ≤ max_stream_id) (idle : has f.stream_id r.live ≡ false)
    (new : gone f.stream_id before r ≡ false)
    (lives : (j : ℕ) → has j r'.live ≡ (if f.stream_id == j then true else has j r.live))
    (closed : (j : ℕ) → has j r'.closed ≡ has j r.closed)
    (v : Tracks laws before (plus_charge no_charge charge) (1 + leaving) r paid b) where
  free :
      (has f.stream_id b.session.streams ≡ false)
      × (has f.stream_id b.session.closed_streams ≡ false)
  free =
      fresh (has f.stream_id b.session.streams) (has f.stream_id b.session.closed_streams)
        (has f.stream_id r.live) (gone f.stream_id before r) (has f.stream_id paid)
        (v.tracked f.stream_id) idle new

  lives_here : has f.stream_id r'.live ≡ true
  lives_here = ground (arith, lives f.stream_id)

  gone_here : gone f.stream_id before r' ≡ false
  gone_here = cc (closed f.stream_id, new)

  elsewhere : (j : ℕ) → (f.stream_id == j) ≡ false → has j r'.live ≡ has j r.live
  elsewhere j e = lives j ∙ rw e refl

  abbrev Next : Batch W → Type 0
  Next b' = Goes laws before charge leaving r' (insert f.stream_id tt paid) b'

  start :
      (s : Session W)
      → Stays laws b.cost b.items b.session (true, s)
      → Next (start_stream f.stream_id b s)
  start s k = (
    sound,
    λ a. record {
      sound = sound;
      tracked =
          Agrees-moves f.stream_id before r r' paid (insert f.stream_id tt paid) b.session
            (start_stream f.stream_id b s).session
            (record {
              streams =
                  λ j e. has-insert j f.stream_id t s.streams ∙ rw e (ap (has j) k.1.same_streams);
              tombs = λ j e. ap (has j) k.1.same_tombs;
              live = elsewhere;
              closed = λ j e. closed j;
              paid_for = λ j e. has-insert j f.stream_id tt paid ∙ rw e refl;
            })
            (rw
              (
                has-insert_self f.stream_id t s.streams,
                ap (has f.stream_id) k.1.same_tombs ∙ free.1,
                lives_here,
                gone_here,
              )
              (opened-agrees (has f.stream_id (insert f.stream_id tt paid))
                (has-insert_self f.stream_id tt paid)))
            v.tracked;
      once = Unique-insert f.stream_id t s.streams (subst Unique (sym k.1.same_streams) v.once);
      cost_funded = omega (arith, v.cost_funded);
      items_funded = omega (arith, v.items_funded);
      room = omega (
        arith,
        v.room,
        ap length k.1.same_order,
        ap (λ (m : Limits). m.max_closed_stream_ids) k.1.same_limits,
      );
    },
  )
    where
      t : StreamState
      t = new_stream s.next_backend

      nothing : lookup f.stream_id s.streams ≡ none
      nothing = lookup-none f.stream_id s.streams (ap (has f.stream_id) k.1.same_streams ∙ free.0)

      numbered : IsSound laws b.cost b.items (record s { next_backend = suc s.next_backend })
      numbered = record {
        accounted = record {
          cost_exact = k.0.accounted.cost_exact;
          items_exact = k.0.accounted.items_exact;
          held = k.0.accounted.held;
        };
        main_queue = k.0.main_queue;
        lane_queues = k.0.lane_queues;
        numbers_fit = k.0.numbers_fit;
        ring = k.0.ring;
      }

      sound : IsSound laws b.cost b.items (start_stream f.stream_id b s).session
      sound =
          stream-IsSound laws b.cost b.items b.cost b.items
            (record s { next_backend = suc s.next_backend }) f.stream_id t
            (omega (arith, ap (value_or stream_cost) nothing))
            (omega (arith, ap (value_or stream_items) nothing)) fits numbered

  reject :
      (s : Session W)
      → Stays laws b.cost b.items b.session (false, s)
      → Returns (reject_stream f.stream_id b s) Next
  unfolding reject_stream
  reject s k =
      Returns-bind (λ s'. IsSound laws b.cost b.items s' × Remembered f.stream_id s s') Next
        (remember_closed f.stream_id s) answer
        (Returns-Every (IsSound laws b.cost b.items) (Remembered f.stream_id s)
          (remember_closed f.stream_id s)
          (remember_closed-IsSound laws b.cost b.items f.stream_id s k.0)
          (remember_closed-Remembered f.stream_id s (ap (has f.stream_id) k.1.same_tombs ∙ free.1) (
            omega (
              arith,
              v.room,
              ap length k.1.same_order,
              ap (λ (m : Limits). m.max_closed_stream_ids) k.1.same_limits,
            ))))
        (λ s' m.
          Returns-bind (Stays laws b.cost b.items (counted s')) Next
            (queue_frame close_type f.stream_id [] (counted s')) (λ q. some (rejected b q))
            (queue_frame-Stays laws b.cost b.items close_type f.stream_id [] (counted s') fits refl
              (λ w. absurd (omega (arith, w))) (counted-IsSound s' m.0))
            (λ q y. (y.0, λ a. tracks s' m.1 q y)))
    where
      counted : Session W → Session W
      counted s' = record s' { world = h.stream_rejected s'.world }

      answer : Session W → Option (Batch W)
      answer s' = queue_frame close_type f.stream_id [] (counted s') >>= λ q. some (rejected b q)

      counted-IsSound :
          (s' : Session W)
          → IsSound laws b.cost b.items s'
          → IsSound laws b.cost b.items (counted s')
      counted-IsSound s' x = record {
        accounted = record {
          cost_exact = x.accounted.cost_exact;
          items_exact = x.accounted.items_exact;
          held = laws.rejected_holds s'.pending_cost s'.pending_items s'.world x.accounted.held;
        };
        main_queue = x.main_queue;
        lane_queues = x.lane_queues;
        numbers_fit = x.numbers_fit;
        ring = x.ring;
      }

      tracks :
          (s' : Session W)
          → Remembered f.stream_id s s'
          → (q : Bool × Session W) → Stays laws b.cost b.items (counted s') q
          → Tracks laws before charge leaving r' (insert f.stream_id tt paid) (rejected b q)
      tracks s' m q y = record {
        sound = y.0;
        tracked =
            Agrees-moves f.stream_id before r r' paid (insert f.stream_id tt paid) b.session
              (rejected b q).session
              (record {
                streams = λ j e. ap (has j) (y.1.same_streams ∙ m.streams ∙ k.1.same_streams);
                tombs = λ j e.
                    ap (has j) (y.1.same_tombs ∙ m.tombs)
                    ∙ has-insert j f.stream_id tt s.closed_streams
                    ∙ rw e (ap (has j) k.1.same_tombs);
                live = elsewhere;
                closed = λ j e. closed j;
                paid_for = λ j e. has-insert j f.stream_id tt paid ∙ rw e refl;
              })
              (rw
                (
                  ap (has f.stream_id) (y.1.same_streams ∙ m.streams ∙ k.1.same_streams) ∙ free.0,
                  ap (has f.stream_id) (y.1.same_tombs ∙ m.tombs)
                      ∙ has-insert_self f.stream_id tt s.closed_streams,
                  lives_here,
                )
                (rejected-agrees (has f.stream_id (insert f.stream_id tt paid))
                  (gone f.stream_id before r')))
              v.tracked;
        once = subst Unique (sym (y.1.same_streams ∙ m.streams ∙ k.1.same_streams)) v.once;
        cost_funded = omega (arith, v.cost_funded);
        items_funded = omega (arith, v.items_funded);
        room = omega (
          arith,
          v.room,
          ap length y.1.same_order,
          m.longer,
          ap length k.1.same_order,
          ap (λ (l : Limits). l.max_closed_stream_ids) y.1.same_limits,
          ap (λ (l : Limits). l.max_closed_stream_ids) m.limits,
          ap (λ (l : Limits). l.max_closed_stream_ids) k.1.same_limits,
        );
      }

  go :
      (q : Bool × Session W)
      → Stays laws b.cost b.items b.session q
      → Returns (admitted f.stream_id b q) Next
  go (true, s) k = start s k
  go (false, s) k = reject s k

  pub opens-Goes : Returns (apply_frame opens f b) Next
  unfolding apply_frame
  opens-Goes =
      go (admit_stream b.session) (admit-Stays laws before b.cost b.items b.session v.sound)
