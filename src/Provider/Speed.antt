-- ===== src/Provider/Speed.antt =====
-- The replay speed: `_parse_speed`, `_parse_uploaded_at` and `_apply_speed` of
-- data-provider/producer.py. `str.lower`, `math.isfinite` and `datetime.timestamp` are parameters.
pub mod Paced
pub mod Tests
use radiation_tracking.Prelude.{
  ℕ, String, Bool, true, false, not, ◌&&◌, ◌||◌, Option, none, some, str_eq, if◌then◌else◌, zero,
  suc, ◌==◌,
}
use Prim.Native.Char.{code}
use radiation_tracking.Python.{
  Number, Datetime, Result, ok, raise, or_raise, value_error, zero_division_error, ◌>>=◌,
}
use radiation_tracking.Python.Text.{strip}
use radiation_tracking.Flink.Timestamps.{pad_fraction}

pub data Speed (F : Type 0) : Type 0 where
  rate : F → Speed F
  multiplier : F → Speed F
  unthrottled : Speed F

-- `text.endswith("x")`
unfoldable pub ends_with_x : String → Bool
ends_with_x String.[] = false
ends_with_x (String.◌∷◌ c s) = if str_eq s "" then code c == 120 else ends_with_x s

-- `text[:-1]`
unfoldable pub without_last : String → String
without_last String.[] = ""
without_last (String.◌∷◌ c s) =
    let rest = without_last s in if str_eq s "" then "" else String.◌∷◌ c rest

module _ {F : Type 0} ⦃n : Number F⦄ (lower : String → String) (is_finite : F → Bool) where
  -- The last test: a positive finite number.
  unfoldable pub positive : F → Result F
  positive num = if not (is_finite num) || n.le num n.zero then raise value_error else ok num

  unfoldable pub parse_speed : String → Result (Speed F)
  unfolding positive ends_with_x without_last or_raise
  parse_speed value =
      let v = strip value in
      let multiplied = or_raise value_error (n.parse (without_last v)) >>= λ num.
      positive num >>= λ num. ok (multiplier num) in
      let fixed =
        or_raise value_error (n.parse v) >>= λ num. positive num >>= λ num. ok (rate num) in
      if str_eq (lower v) "max"
      then ok unthrottled
      else if ends_with_x (lower v)
      then multiplied
      else fixed

module _ {F : Type 0} ⦃n : Number F⦄ where
  -- `x / y`
  unfoldable pub divide : F → F → Result F
  divide x y = if n.le y n.zero && n.le n.zero y then raise zero_division_error else ok (n.div x y)

  abbrev pub capped_delay : F → Option F
  capped_delay scaled =
      let delay = if n.lt (n.of_ℕ 5) scaled then n.of_ℕ 5 else scaled in
      if n.lt n.zero delay then some delay else none

  -- The delay of the multiplier mode, over a gap of event time.
  unfoldable pub gap_sleep : F → Option F → Option F → Result (Option F)
  unfolding divide
  gap_sleep value (some current) (some prev) =
      let gap = n.sub current prev in
      let scaled = divide gap value in
      if n.lt n.zero gap then (do delay ← scaled; ok (capped_delay delay)) else ok none
  gap_sleep value _ _ = ok none

  -- `_apply_speed` up to `time.sleep`: the delay that it is called with, if it is; the upload time of
  -- the event is parsed already.
  unfoldable pub apply_speed : Speed F → Option F → Option F → Result (Option F)
  unfolding gap_sleep divide
  apply_speed unthrottled current prev = ok none
  apply_speed (rate value) current prev = do delay ← divide (n.of_ℕ 1) value; ok (some delay)
  apply_speed (multiplier value) current prev = gap_sleep value current prev

-- `timestamp` is none where it raises ValueError, as near the first year.
module _ {F D : Type 0} ⦃t : Datetime D⦄ (timestamp : D → Option F) where
  -- `datetime.fromisoformat(ts).timestamp()`
  abbrev pub epoch_of : Option D → Option F
  epoch_of none = none
  epoch_of (some d) = timestamp d

  -- The second attempt, with six fractional digits.
  unfoldable pub parse_fixed : String → String → Option F
  parse_fixed ts fixed = if str_eq fixed ts then none else epoch_of (t.fromisoformat fixed)

  abbrev or_fixed : Option F → Option F → Option F
  or_fixed none fixed = fixed
  or_fixed (some x) fixed = some x

  unfoldable pub parse_uploaded_at : Option String → Option F
  unfolding parse_fixed
  parse_uploaded_at none = none
  parse_uploaded_at (some ts) =
      let fixed = parse_fixed ts (pad_fraction ts) in
      if str_eq ts "" then none else or_fixed (epoch_of (t.fromisoformat ts)) fixed
