-- ===== src/Session/Backend/Sound.antt =====
-- What the goroutines of a backend stream ask for keeps the invariant, and never panics.
use tproxy_server.Base.{
  ℕ, ◌+◌, ◌-◌, ◌≡◌, refl, ap, Bool, true, false, Option, none, some, List, [], arith, ◌==◌, ltb,
  if◌then◌else◌, length, Returns, Returns-bind, Returns-if, Returns-option, Returns-map, ◌>>=◌, ◌∙◌,
  ◌||◌,
}
use tproxy_server.Base.Table.{number_key, lookup, value_or}
use tproxy_server.Frame.{window_type, data_type, close_type, window_payload}
use tproxy_server.Session.{Session, Hooks, StreamState, queue_item_cost}
use tproxy_server.Session.Laws.{HookLaws}
use tproxy_server.Session.Invariant.{IsSound, SameParts, release-IsSound}
use tproxy_server.Session.Budget.{release_pending}
use tproxy_server.Session.Moves.{stream-IsSound, number_at, stream_cost, stream_items}
use tproxy_server.Session.Queue.{queue_frame}
use tproxy_server.Session.Queueing.{queue_frame-IsSound}
use tproxy_server.Session.Close.{retire_stream, close_backend}
use tproxy_server.Session.Leaving.{retire_stream-IsSound}
use tproxy_server.Session.Closing.{close_locked-IsSound, close_backend-IsSound}
use tproxy_server.Session.Backend.{
  backend_drained, backend_write_finished, backend_data, backend_closed, drains, or_close, leave,
  done, put_stream,
}

module _ {W : Type 0} ⦃h : Hooks W⦄ (laws : HookLaws W h) where
  abbrev Kept : Bool × Session W → Type 0
  Kept r = IsSound laws 0 0 r.1

  -- A stream is put back with `cost` and `items` less charged, and these are released.
  cheaper :
      (id cost items : ℕ) (t u : StreamState) (s : Session W)
      → lookup id s.streams ≡ some t
      → stream_cost u + cost ≡ stream_cost t
      → stream_items u + items ≡ stream_items t
      → IsSound laws 0 0 s
      → Returns
          (release_pending cost items (put_stream id u s))
          (λ x. IsSound laws 0 0 x × (x.is_closed ≡ s.is_closed))
  cheaper id cost items t u s e c i v =
      Returns-map (λ x. IsSound laws 0 0 x × SameParts (put_stream id u s) x)
        (λ x. IsSound laws 0 0 x × (x.is_closed ≡ s.is_closed))
        (release_pending cost items (put_stream id u s)) (λ x y. (y.0, y.1.same_closed))
        (release-IsSound laws 0 0 cost items (put_stream id u s) (
          stream-IsSound laws 0 0 (0 + cost) (0 + items) s id u
            (omega (arith, c, ap (value_or stream_cost) e))
            (omega (arith, i, ap (value_or stream_items) e))
            (number_at id t s.streams e v.numbers_fit) v))

  -- backendDrained on a session whose invariant holds does not panic and keeps the invariant.
  pub backend_drained-IsSound :
      (id amount : ℕ) (s : Session W)
      → IsSound laws 0 0 s
      → Returns (backend_drained id amount s) Kept
  unfolding backend_drained window_payload
  backend_drained-IsSound id amount s v =
      Returns-if Kept s.is_closed (some (false, s))
        (elim (lookup id s.streams) [ none ↦ some (false, s) | some t ↦ drain t ]) (λ x. v)
        (λ x.
          Returns-option Kept (lookup id s.streams) (some (false, s)) drain (λ e. v)
            (λ t e.
              Returns-if Kept (drains amount t) (drained t) (some (false, s))
                (λ d.
                  Returns-bind (λ s'. IsSound laws 0 0 s' × (s'.is_closed ≡ s.is_closed)) Kept
                    (release_pending amount 0 (put_stream id (smaller t) s))
                    (queue_frame window_type id (window_payload amount))
                    (cheaper id amount 0 t (smaller t) s e (ground (arith, d)) (omega arith) v)
                    (λ s' k.
                      queue_frame-IsSound laws 0 0 window_type id (window_payload amount) s'
                        (number_at id t s.streams e v.numbers_fit) (k.1 ∙ x) (λ w. omega arith)
                        k.0))
                (λ d. v)))
    where
      smaller : StreamState → StreamState
      smaller t = record t {
        pending_write_bytes = t.pending_write_bytes - amount;
        pending_write_cost = t.pending_write_cost - amount;
        receive_window = t.receive_window + amount;
      }

      drained : StreamState → Option (Bool × Session W)
      drained t =
          release_pending amount 0 (put_stream id (smaller t) s)
          >>= queue_frame window_type id (window_payload amount)

      drain : StreamState → Option (Bool × Session W)
      drain t = if drains amount t then drained t else some (false, s)

  done-Kept : (m : Option (Session W)) → Returns m (IsSound laws 0 0) → Returns (done m) Kept
  done-Kept none r = absurd r
  done-Kept (some s) r = r

  -- backendWriteFinished on a session whose invariant holds does not panic and keeps the
  -- invariant.
  pub backend_write_finished-IsSound :
      (id : ℕ) (s : Session W) → IsSound laws 0 0 s → Returns (backend_write_finished id s) Kept
  unfolding backend_write_finished
  backend_write_finished-IsSound id s v =
      Returns-if Kept s.is_closed (some (false, s))
        (elim (lookup id s.streams) [ none ↦ some (false, s) | some t ↦ finish t ]) (λ x. v)
        (λ x.
          Returns-option Kept (lookup id s.streams) (some (false, s)) finish (λ e. v)
            (λ t e.
              Returns-if Kept (spent t) (some (false, s)) (done (finished t)) (λ d. v)
                (λ d. done-Kept (finished t) (
                  Returns-map (λ s'. IsSound laws 0 0 s' × (s'.is_closed ≡ s.is_closed))
                    (IsSound laws 0 0) (finished t) (λ s' k. k.0)
                    (cheaper id queue_item_cost 1 t (smaller t) s e (ground (arith, d))
                      (ground (arith, d)) v)))))
    where
      smaller : StreamState → StreamState
      smaller t = record t {
        pending_write_items = t.pending_write_items - 1;
        pending_write_cost = t.pending_write_cost - queue_item_cost;
      }

      spent : StreamState → Bool
      spent t = (t.pending_write_items == 0) || ltb t.pending_write_cost queue_item_cost

      finished : StreamState → Option (Session W)
      finished t = release_pending queue_item_cost 1 (put_stream id (smaller t) s)

      finish : StreamState → Option (Bool × Session W)
      finish t = if spent t then some (false, s) else done (finished t)

  -- backendData on a session whose invariant holds does not panic and keeps the invariant.
  pub backend_data-IsSound :
      (id : ℕ) (bytes : List ℕ) (s : Session W)
      → IsSound laws 0 0 s
      → Returns (backend_data id bytes s) Kept
  unfolding backend_data
  backend_data-IsSound id bytes s v =
      Returns-if Kept s.is_closed (some (false, s))
        (elim (lookup id s.streams) [ none ↦ some (false, s) | some t ↦ send t ]) (λ x. v)
        (λ x.
          Returns-option Kept (lookup id s.streams) (some (false, s)) send (λ e. v)
            (λ t e.
              Returns-if Kept (refuses t) (some (false, s))
                (queue_frame data_type id bytes (put_stream id (used t) s)) (λ d. v)
                (λ d.
                  queue_frame-IsSound laws 0 0 data_type id bytes (put_stream id (used t) s)
                    (number_at id t s.streams e v.numbers_fit) refl (λ w. absurd (omega (arith, w)))
                    (stream-IsSound laws 0 0 0 0 s id (used t)
                      (omega (arith, ap (value_or stream_cost) e))
                      (omega (arith, ap (value_or stream_items) e))
                      (number_at id t s.streams e v.numbers_fit) v))))
    where
      used : StreamState → StreamState
      used t = record t { send_credit = t.send_credit - length bytes }

      refuses : StreamState → Bool
      refuses t = (length bytes == 0) || ltb t.send_credit (length bytes)

      send : StreamState → Option (Bool × Session W)
      send t =
          if refuses t
          then some (false, s)
          else queue_frame data_type id bytes (put_stream id (used t) s)

  or_close-IsSound : (r : Bool × Session W) → Kept r → Returns (or_close r) (IsSound laws 0 0)
  or_close-IsSound (true, s) v = v
  or_close-IsSound (false, s) v = close_locked-IsSound laws s v

  leave-IsSound :
      (id backend : ℕ) (t : StreamState) (s : Session W)
      → lookup id s.streams ≡ some t
      → IsSound laws 0 0 s
      → Returns (leave id backend t s) (IsSound laws 0 0)
  leave-IsSound id backend t s e v =
      Returns-if (IsSound laws 0 0) (t.backend == backend)
        (retire_stream id t s >>= λ s'. queue_frame close_type id [] s' >>= or_close) (some s)
        (λ x.
          Returns-bind (IsSound laws 0 0) (IsSound laws 0 0) (retire_stream id t s)
            (λ s'. queue_frame close_type id [] s' >>= or_close)
            (retire_stream-IsSound laws 0 0 id t s e v)
            (λ s' k.
              Returns-bind Kept (IsSound laws 0 0) (queue_frame close_type id [] s') or_close
                (queue_frame-IsSound laws 0 0 close_type id [] s'
                  (number_at id t s.streams e v.numbers_fit) refl (λ w. absurd (omega (arith, w)))
                  k)
                or_close-IsSound))
        (λ x. v)

  -- backendClosed on a session whose invariant holds does not panic and keeps the invariant,
  -- also where it closes the session.
  pub backend_closed-IsSound :
      (id backend : ℕ) (s : Session W)
      → IsSound laws 0 0 s
      → Returns (backend_closed id backend s) (IsSound laws 0 0)
  unfolding backend_closed
  backend_closed-IsSound id backend s v =
      Returns-bind (IsSound laws 0 0) (IsSound laws 0 0) left
        (λ s'. some (close_backend backend s')) kept
        (λ s' k. close_backend-IsSound laws 0 0 backend s' k)
    where
      left : Option (Session W)
      left =
          if s.is_closed
          then some s
          else elim (lookup id s.streams) [ none ↦ some s | some t ↦ leave id backend t s ]

      kept : Returns left (IsSound laws 0 0)
      kept =
          Returns-if (IsSound laws 0 0) s.is_closed (some s)
            (elim (lookup id s.streams) [ none ↦ some s | some t ↦ leave id backend t s ]) (λ x. v)
            (λ x.
              Returns-option (IsSound laws 0 0) (lookup id s.streams) (some s)
                (λ t. leave id backend t s) (λ e. v) (λ t e. leave-IsSound id backend t s e v))
