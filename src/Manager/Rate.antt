-- ===== src/Manager/Rate.antt =====
-- manager.go: the token buckets, over the float64 arithmetic of the machine as a parameter.
use tproxy_server.Base.{ℕ, ◌-◌, Bool, true, false, Option, none, some, if◌then◌else◌}

-- Go's float64 by its bits. `of_int` is the conversion of an int, and `seconds` is
-- time.Duration.Seconds of a number of nanoseconds.
pub record Floats : Type 0 where
  pub of_int : ℕ → ℕ
  pub seconds : ℕ → ℕ
  pub add : ℕ → ℕ → ℕ
  pub subtract : ℕ → ℕ → ℕ
  pub multiply : ℕ → ℕ → ℕ
  pub divide : ℕ → ℕ → ℕ
  pub less : ℕ → ℕ → Bool

pub record RateState : Type 0 where
  -- The bits of a float64.
  pub tokens : ℕ
  -- `none` is the zero time.
  pub last : Option ℕ

-- The zero value: 0.0 has the bits 0.
abbrev pub fresh_rate : RateState
fresh_rate = record { tokens = 0; last = none }

module _ (f : Floats) where
  abbrev capped : ℕ → ℕ → ℕ
  capped burst tokens = if f.less burst tokens then burst else tokens

  -- The bucket refilled up to `now`. Time is monotonic: `now` is not before `last`.
  unfoldable pub refill : ℕ → ℕ → ℕ → RateState → RateState
  refill now per_minute burst r = elim r.last [
    | none ↦ record { tokens = f.of_int burst; last = some now }
    | some last ↦ record {
      tokens = capped (f.of_int burst) (
          f.add r.tokens
            (f.multiply (f.seconds (now - last)) (f.divide (f.of_int per_minute) (f.of_int 60))));
      last = some now;
    }
  ]

  unfoldable pub take_rate : ℕ → ℕ → ℕ → RateState → RateState × Bool
  unfolding refill
  take_rate now per_minute burst r =
      if f.less filled.tokens (f.of_int 1)
      then (filled, false)
      else (record filled { tokens = f.subtract filled.tokens (f.of_int 1) }, true)
    where
      filled : RateState
      filled = refill now per_minute burst r
