-- ===== src/Session/Batch/Tests.antt =====
-- Batches over a session whose ring has room for one tombstone.
use tproxy_server.Base.{◌≡◌, refl, true, none, [], ◌∷◌}
use tproxy_server.Base.Table.{lookup}
use tproxy_server.Session.{Session}
use tproxy_server.Session.Apply.{validate_batch, no_charge}
use tproxy_server.Session.Batch.{apply_batch}
use tproxy_server.Session.Batch.Evicted.{closing, sending, IsEvicting, evicted_batch}
use tproxy_server.Session.Tests.{Ledger, ledger, busy}

-- Stream 3 is live, and the one tombstone is that of stream 5.
abbrev full_ring : Session Ledger
full_ring = record busy {
  limits = record busy.limits { max_closed_stream_ids = 1 };
  closed_streams = (5, tt) ∷ [];
  closed_order = 5 ∷ [];
}

full_ring-IsEvicting : IsEvicting 3 5 full_ring
unfolding lookup
full_ring-IsEvicting = record {
  a_numbered = λ e. cc;
  x_numbered = λ e. cc;
  a_live = refl;
  a_open = refl;
  x_gone = refl;
  x_closed = refl;
  once = (tt, tt);
  full = refl;
  oldest = refl;
}

evicted_batch_example :
    (validate_batch (closing 3 ∷ sending 5 (104 ∷ []) ∷ []) full_ring ≡ true)
    × (apply_batch (closing 3 ∷ sending 5 (104 ∷ []) ∷ []) no_charge full_ring ≡ none)
evicted_batch_example = evicted_batch 3 5 (104 ∷ []) no_charge full_ring full_ring-IsEvicting
