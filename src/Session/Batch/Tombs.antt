-- ===== src/Session/Batch/Tombs.antt =====
-- Where the ring of tombstones has room, a stream that leaves gets its tombstone and no other loses
-- its own.
use tproxy_server.Base.{
  ℕ, suc, ◌<◌, ◌≡◌, ap, ◌∙◌, true, false, [], ◌∷◌, ◌++◌, arith, ltb, length, length-append, Every,
  Every-bind, Every-map,
}
use tproxy_server.Base.Table.{number_key, insert, delete}
use tproxy_server.Session.{Session, Hooks, StreamState}
use tproxy_server.Session.Tables.{SameTables, wake_lane-SameTables, release-SameTables}
use tproxy_server.Session.Close.{has, remember_closed, retire_stream, release_stream_writes}

-- `id` got its tombstone, in a ring that had room.
pub record Remembered {W : Type 0} (id : ℕ) (s t : Session W) : Type 0 where
  pub tombs : t.closed_streams ≡ insert id tt s.closed_streams
  pub streams : t.streams ≡ s.streams
  pub longer : length t.closed_order ≡ suc (length s.closed_order)
  pub limits : t.limits ≡ s.limits

pub record Retired {W : Type 0} (id : ℕ) (s t : Session W) : Type 0 where
  pub tombs : t.closed_streams ≡ insert id tt s.closed_streams
  pub streams : t.streams ≡ delete id s.streams
  pub longer : length t.closed_order ≡ suc (length s.closed_order)
  pub limits : t.limits ≡ s.limits

module _ {W : Type 0} ⦃h : Hooks W⦄ where
  pub remember_closed-Remembered :
      (id : ℕ) (s : Session W)
      → has id s.closed_streams ≡ false
      → length s.closed_order < s.limits.max_closed_stream_ids
      → Every (remember_closed id s) (Remembered id s)
  unfolding remember_closed
  remember_closed-Remembered id s e room =
      rw (e, roomy, Every)
        (let w = wake_lane-SameTables id longer in
          record {
            tombs = w.same_tombs;
            streams = w.same_streams;
            longer = ap length w.same_order ∙ omega (arith, length-append s.closed_order (id ∷ []));
            limits = w.same_limits;
          })
    where
      roomy : ltb (length s.closed_order) s.limits.max_closed_stream_ids ≡ true
      roomy = ground (arith, room)

      longer : Session W
      longer = record s {
        closed_streams = insert id tt s.closed_streams;
        closed_order = s.closed_order ++ (id ∷ []);
      }

  pub retire_stream-Retired :
      (id : ℕ) (t : StreamState) (s : Session W)
      → has id s.closed_streams ≡ false
      → length s.closed_order < s.limits.max_closed_stream_ids
      → Every (retire_stream id t s) (Retired id s)
  unfolding retire_stream
  retire_stream-Retired id t s e room =
      Every-bind (SameTables without) (Retired id s) (release_stream_writes t without)
        (remember_closed id) (release-SameTables t.pending_write_cost t.pending_write_items without)
        (λ s' k.
          Every-map (Remembered id s') (Retired id s) (remember_closed id s')
            (λ u m. record {
              tombs = m.tombs ∙ ap (insert id tt) k.same_tombs;
              streams = m.streams ∙ k.same_streams;
              longer = m.longer ∙ ap (λ o. suc (length o)) k.same_order;
              limits = m.limits ∙ k.same_limits;
            })
            (remember_closed-Remembered id s' (ap (has id) k.same_tombs ∙ e) (
              omega (
                arith,
                ap length k.same_order,
                ap (λ l. l.max_closed_stream_ids) k.same_limits,
                room,
              ))))
    where
      without : Session W
      without = record s { streams = delete id s.streams }
