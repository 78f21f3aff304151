-- ===== src/Manager/Capacity/Counters.antt =====
-- The counters of live streams and of dials: the global ones are the sums of those by profile, and
-- stay within their limits.
use Prim.Native.String.{String}
use tproxy_server.Base.{
  ℕ, suc, ◌-◌, ◌≤◌, ◌<◌, ◌≡◌, Bool, true, false, inl, inr, Bool-cases, arith, leb, ◌==◌, ◌||◌,
  Returns, Returns-if, none,
}
use tproxy_server.Base.Table.{Map, sum, sum-insert, sum-delete, text_key}
use tproxy_server.Config.{Profile}
use tproxy_server.Manager.{Manager, count, count_up, count_down}
use tproxy_server.Manager.Sessions.{Buckets}
use tproxy_server.Manager.Capacity.{
  acquire_stream, stream_finished, backend_dial_finished, stream_blocked, stream_acquired,
}

abbrev all_of : Map String ℕ → ℕ
all_of m = sum (λ n. n) m

sum-count_up : (name : String) (m : Map String ℕ) → all_of (count_up name m) ≡ suc (all_of m)
sum-count_up name m = omega (arith, sum-insert (λ n. n) name (suc (count name m)) m)

sum-count_down :
    (name : String) (m : Map String ℕ)
    → 0 < count name m
    → suc (all_of (count_down name m)) ≡ all_of m
sum-count_down name m h = elim (Bool-cases (leb (count name m) 1)) [
  | inl e ↦ rw e (ground (arith, h, e, sum-delete (λ n. n) name m))
  | inr e ↦ rw e (ground (arith, h, e, sum-insert (λ n. n) name (count name m - 1) m))
]

count-le : (name : String) (m : Map String ℕ) → count name m ≤ all_of m
count-le name m = omega (arith, sum-delete (λ n. n) name m)

pub record IsCounted (m : Manager) : Type 0 where
  pub streams : m.streams_live ≡ all_of m.streams_per_profile
  pub dials : m.backend_dials_in_flight ≡ all_of m.dials_per_profile
  pub streams_within : m.streams_live ≤ m.limits.max_streams_global
  pub dials_within : m.backend_dials_in_flight ≤ m.limits.max_backend_dials_in_flight

acquired-IsCounted :
    (p : Profile) (m : Manager) (r : Buckets × Bool)
    → stream_blocked p m ≡ false
    → IsCounted m
    → IsCounted (stream_acquired p m r).1
acquired-IsCounted p m (b, false) e v = v
acquired-IsCounted p m (b, true) e v = record {
  streams = omega (arith, v.streams, sum-count_up p.name m.streams_per_profile);
  dials = omega (arith, v.dials, sum-count_up p.name m.dials_per_profile);
  streams_within = ground (arith, e);
  dials_within = ground (arith, e);
}

-- acquireStream, granted or refused, keeps the global counters of streams and dials equal to
-- the sums by profile and within their limits.
pub acquire_stream-IsCounted :
    (now : ℕ) (p : Profile) (m : Manager) → IsCounted m → IsCounted (acquire_stream now p m).1
unfolding acquire_stream
acquire_stream-IsCounted now p m v = elim (Bool-cases (stream_blocked p m)) [
  | inl e ↦ rw e v
  | inr e ↦ rw e (acquired-IsCounted p m _ e v)
]

-- A stream of a profile that has one ends without a panic, and the counters stay equal to the
-- sums by profile and within their limits.
pub stream_finished-IsCounted :
    (p : Profile) (m : Manager)
    → 0 < count p.name m.streams_per_profile
    → IsCounted m
    → Returns (stream_finished p m) IsCounted
unfolding stream_finished
stream_finished-IsCounted p m h v =
    Returns-if IsCounted ((m.streams_live == 0) || (count p.name m.streams_per_profile == 0)) none _
      (λ e. absurd (ground (arith, e, h, v.streams, count-le p.name m.streams_per_profile)))
      (λ e. record {
        streams = omega (arith, h, v.streams, sum-count_down p.name m.streams_per_profile);
        dials = v.dials;
        streams_within = omega (arith, v.streams_within);
        dials_within = v.dials_within;
      })

-- A dial of a profile that has one in flight ends without a panic, failed or not, and the
-- counters stay equal to the sums by profile and within their limits.
pub backend_dial_finished-IsCounted :
    (p : Profile) (failed : Bool) (m : Manager)
    → 0 < count p.name m.dials_per_profile
    → IsCounted m
    → Returns (backend_dial_finished p failed m) IsCounted
unfolding backend_dial_finished
backend_dial_finished-IsCounted p failed m h v =
    Returns-if IsCounted
      ((m.backend_dials_in_flight == 0) || (count p.name m.dials_per_profile == 0)) none _
      (λ e. absurd (ground (arith, e, h, v.dials, count-le p.name m.dials_per_profile)))
      (λ e. record {
        streams = v.streams;
        dials = omega (arith, h, v.dials, sum-count_down p.name m.dials_per_profile);
        streams_within = v.streams_within;
        dials_within = omega (arith, v.dials_within);
      })
