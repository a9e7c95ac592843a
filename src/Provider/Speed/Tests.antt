-- ===== src/Provider/Speed/Tests.antt =====
-- A tenfold replay, and one of no speed.
use radiation_tracking.Prelude.{◌≡◌, refl, String, Bool, true, some}
use radiation_tracking.Prelude.Int.{ℤ, pos}
use radiation_tracking.Python.{Order, ok, raise, value_error}
use radiation_tracking.Python.Text.{strip}
use radiation_tracking.Python.Integers.{integers-Order}
use radiation_tracking.Provider.Samples.{decimals}
use radiation_tracking.Provider.Speed.{multiplier, parse_speed, apply_speed}
use radiation_tracking.Provider.Speed.Paced.{IsPaced, parse_speed-IsPaced}

abbrev lower : String → String
lower s = s

abbrev is_finite : ℤ → Bool
is_finite x = true

pub decimals-Order : Order decimals
decimals-Order = record {
  le_trans = integers-Order.le_trans;
  lt_trans = integers-Order.lt_trans;
  le_lt_trans = integers-Order.le_lt_trans;
  le_of_lt = integers-Order.le_of_lt;
  not_le_of_lt = integers-Order.not_le_of_lt;
}

ten_times : parse_speed ⦃n = decimals⦄ lower is_finite "10x" ≡ ok (multiplier (pos 10))
unfolding parse_speed strip
ten_times = refl

no_speed : parse_speed ⦃n = decimals⦄ lower is_finite "0" ≡ raise value_error
unfolding parse_speed strip
no_speed = refl

parse_speed-IsPaced_example :
    IsPaced decimals lower is_finite
      (multiplier (pos 10))
      (apply_speed ⦃n = decimals⦄ (multiplier (pos 10)) (some (pos 90)) (some (pos 20)))
parse_speed-IsPaced_example =
    parse_speed-IsPaced decimals lower is_finite decimals-Order "10x" (multiplier (pos 10))
      (some (pos 90)) (some (pos 20)) ten_times
