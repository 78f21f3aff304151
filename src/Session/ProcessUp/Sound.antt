-- ===== src/Session/ProcessUp/Sound.antt =====
-- session.go: ProcessUp keeps the invariant of a session.
use tproxy_server.Base.{
  ℕ, ◌+◌, ◌≤◌, ◌≡◌, refl, subst, Bool, true, false, Option, none, some, List, [], ◌∷◌, All, arith,
  length, Returns, Returns-if, on_if, bytes_equal,
}
use tproxy_server.Frame.{Frame, effective_limit, Result, ok, parse_all, max_stream_id}
use tproxy_server.Frame.Encoding.{IsByte, IsSendable}
use tproxy_server.Frame.Batches.{parse_all-ok}
use tproxy_server.Session.{Session, Hooks, Lane, lane_cost, lane_items, protocol}
use tproxy_server.Session.Laws.{HookLaws}
use tproxy_server.Session.Invariant.{IsSound, IsQueue}
use tproxy_server.Session.Moves.{main-IsSound}
use tproxy_server.Session.Tidy.{IsReady}
use tproxy_server.Session.Close.{protocol_failure}
use tproxy_server.Session.Queue.{uses_carrier_lanes}
use tproxy_server.Session.Apply.{validate_batch}
use tproxy_server.Session.Batch.Sound.{departures}
use tproxy_server.Session.Uplink.{when, failing, parse_body, all_shaped, deliver}
use tproxy_server.Session.Uplink.Sound.{Ready, closing-Ready, deliver-Ready}
use tproxy_server.Session.ProcessUp.{
  Begun, parsing, answered, begin_up, finish_up, process_up, validated, recorded, repeats,
  out_of_order,
}

-- The ring of tombstones has room for all that the body may close.
abbrev pub HasRoom : {W : Type 0} → List ℕ → Session W → Type 0
HasRoom body s =
    (frames : List Frame)
    → parse_body body s.limits.max_frame_payload ≡ some frames
    → length s.closed_order + departures frames ≤ s.limits.max_closed_stream_ids

-- The numbers in a body fit 24 bits.
fitting :
    (limit : ℕ) (frames : List Frame)
    → All (IsSendable limit) frames
    → All (λ f. f.stream_id ≤ max_stream_id) frames
fitting limit [] x = tt
fitting limit (f ∷ frames) x = (x.0.id_fits, fitting limit frames x.1)

when-some : (b : Bool) (fs frames : List Frame) → when b fs ≡ some frames → fs ≡ frames
when-some true fs frames e = cc
when-some false fs frames e = cc

parse_body-fits :
    (body : List ℕ) (limit : ℕ) (frames : List Frame)
    → All IsByte body
    → parse_body body limit ≡ some frames
    → All (λ f. f.stream_id ≤ max_stream_id) frames
unfolding parse_body
parse_body-fits body limit frames bytes e = go (parse_all body limit) refl e
  where
    go :
        (r : Result (List Frame))
        → parse_all body limit ≡ r
        → (elim r [ ok fs ↦ when (all_shaped fs) fs | _ ↦ none ]) ≡ some frames
        → All (λ f. f.stream_id ≤ max_stream_id) frames
    go (ok fs) x y =
        subst (All (λ f. f.stream_id ≤ max_stream_id)) (when-some (all_shaped fs) fs frames y)
          (fitting (effective_limit limit) fs (parse_all-ok body limit fs bytes x).1)
    go r x y = cc

module _ {W : Type 0} ⦃h : Hooks W⦄ (laws : HookLaws W h) where
  ready_main :
      (s : Session W) (l : Lane)
      → IsSound laws 0 0 s
      → lane_cost l ≡ lane_cost s.main
      → lane_items l ≡ lane_items s.main
      → IsQueue l
      → IsSound laws 0 0 (record s { main = l })
  ready_main s l v c i q = main-IsSound laws 0 0 0 0 s l (omega (arith, c)) (omega (arith, i)) q v

  marked-IsReady :
      (now : ℕ) (b : Bool) (s : Session W)
      → IsReady laws s
      → IsReady laws (record s { last_activity = now; main = record s.main { up_active = b } })
  marked-IsReady now b s v = record {
    sound =
        ready_main (record s { last_activity = now }) (record s.main { up_active = b })
          (record {
            accounted = record {
              cost_exact = v.sound.accounted.cost_exact;
              items_exact = v.sound.accounted.items_exact;
              held = v.sound.accounted.held;
            };
            main_queue = v.sound.main_queue;
            lane_queues = v.sound.lane_queues;
            numbers_fit = v.sound.numbers_fit;
            ring = v.sound.ring;
          })
          refl refl
          (record {
            indexed = v.sound.main_queue.indexed;
            distinct = v.sound.main_queue.distinct;
            long = v.sound.main_queue.long;
            free = v.sound.main_queue.free;
            idle = v.sound.main_queue.idle;
          });
    tidy = v.tidy;
  }

  recorded-IsReady :
      (sequence : ℕ) (digest : List ℕ) (s : Session W)
      → IsReady laws s
      → IsReady laws (record s { main = recorded sequence digest s.main })
  recorded-IsReady sequence digest s v = record {
    sound = ready_main s (recorded sequence digest s.main) v.sound refl refl (record {
      indexed = v.sound.main_queue.indexed;
      distinct = v.sound.main_queue.distinct;
      long = v.sound.main_queue.long;
      free = v.sound.main_queue.free;
      idle = v.sound.main_queue.idle;
    });
    tidy = v.tidy;
  }

  module _ (sequence : ℕ) (digest body : List ℕ) (bytes : All IsByte body) where
    validated-Ready :
        (s : Session W)
        → s.is_closed ≡ false
        → HasRoom body s
        → IsReady laws s
        → Returns
            (validated sequence digest body s (parse_body body s.limits.max_frame_payload))
            (Ready laws)
    validated-Ready s alive room v = go (parse_body body s.limits.max_frame_payload) refl
      where
        go :
            (o : Option (List Frame))
            → parse_body body s.limits.max_frame_payload ≡ o
            → Returns (validated sequence digest body s o) (Ready laws)
        go none e = closing-Ready laws protocol s v.sound
        go (some frames) e =
            Returns-if (Ready laws) (validate_batch frames s)
              (deliver sequence body frames
                (λ s'. record s' { main = recorded sequence digest s'.main }) s)
              (failing protocol (protocol_failure s))
              (λ x.
                deliver-Ready laws sequence body
                  (λ s'. record s' { main = recorded sequence digest s'.main })
                  (recorded-IsReady sequence digest) frames s
                  (parse_body-fits body s.limits.max_frame_payload frames bytes e) x (room frames e)
                  (v.tidy alive) v.sound)
              (λ x. closing-Ready laws protocol s v.sound)

    finish_up-Ready :
        (s : Session W)
        → HasRoom body s
        → IsReady laws s
        → Returns (finish_up sequence digest body s) (Ready laws)
    unfolding finish_up
    finish_up-Ready s room v =
        let idle = marked-IsReady s.last_activity false s v in
        Returns-if (Ready laws) s.is_closed _ _ (λ e. idle)
          (λ e.
            validated-Ready (record s { main = record s.main { up_active = false } }) e room idle)

    abbrev Lands : Begun W → Type 0
    Lands b =
        Returns (elim b [ answered r ↦ r | parsing s' ↦ finish_up sequence digest body s' ])
          (Ready laws)

    -- Whatever the upload is, a body of bytes under any number and digest, ProcessUp on a
    -- session whose invariant holds does not panic, and the invariant holds of the session that
    -- it leaves, accepted, refused or closed, where the ring of tombstones has room for those
    -- that the body may leave. The invariant includes that an open session has no stream number
    -- twice or with a tombstone.
    pub process_up-IsReady :
        (now : ℕ) (s : Session W)
        → HasRoom body s
        → IsReady laws s
        → Returns (process_up now sequence digest body s) (λ r. IsReady laws r.session)
    unfolding process_up begin_up
    process_up-IsReady now s room v =
        let active = marked-IsReady now s.main.up_active s v in
        on_if Lands (uses_carrier_lanes s.carrier) _ _ (λ e. v)
          (λ e.
            on_if Lands s.is_closed _ _ (λ e. v)
              (λ e.
                on_if Lands (repeats sequence s.main) _ _
                  (λ e.
                    Returns-if (Ready laws) (bytes_equal digest s.main.last_up_digest) _ _
                      (λ e. active) (λ e. closing-Ready laws protocol _ active.sound))
                  (λ e.
                    on_if Lands (out_of_order sequence s.main) _ _
                      (λ e. closing-Ready laws protocol _ active.sound)
                      (λ e.
                        on_if Lands s.main.up_active _ _ (λ e. active)
                          (λ e. finish_up-Ready _ room (marked-IsReady now true s v))))))

    -- The invariant of the session that the first critical section leaves, also where it ends
    -- the upload.
    abbrev pub Begins : Begun W → Type 0
    Begins (answered r) = Returns r (Ready laws)
    Begins (parsing s) = IsReady laws s

    begin_up-Begins :
        (now : ℕ) (s : Session W) → IsReady laws s → Begins (begin_up now sequence digest s)
    unfolding begin_up
    begin_up-Begins now s v =
        let active = marked-IsReady now s.main.up_active s v in
        on_if Begins (uses_carrier_lanes s.carrier) _ _ (λ e. v)
          (λ e.
            on_if Begins s.is_closed _ _ (λ e. v)
              (λ e.
                on_if Begins (repeats sequence s.main) _ _
                  (λ e.
                    Returns-if (Ready laws) (bytes_equal digest s.main.last_up_digest) _ _
                      (λ e. active) (λ e. closing-Ready laws protocol _ active.sound))
                  (λ e.
                    on_if Begins (out_of_order sequence s.main) _ _
                      (λ e. closing-Ready laws protocol _ active.sound)
                      (λ e.
                        on_if Begins s.main.up_active _ _ (λ e. active)
                          (λ e. marked-IsReady now true s v)))))

    -- Each of the two critical sections of ProcessUp, on its own, does not panic and keeps the
    -- invariant: the second on any session whose invariant holds and whose ring has room for
    -- the body, so also where other calls that keep the invariant ran since the first.
    pub begin_up-finish_up :
        (now : ℕ) (s later : Session W)
        → IsReady laws s
        → HasRoom body later
        → IsReady laws later
        → Begins (begin_up now sequence digest s)
          × Returns (finish_up sequence digest body later) (λ r. IsReady laws r.session)
    begin_up-finish_up now s later v room w =
        (begin_up-Begins now s v, finish_up-Ready later room w)
