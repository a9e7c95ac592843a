-- ===== src/Provider/Command/Tests.antt =====
-- The command on a small file.
use radiation_tracking.Prelude.{◌≡◌, refl, String, Bool, true, none, some, List, [], ◌∷◌}
use radiation_tracking.Prelude.Int.{ℤ, pos}
use radiation_tracking.Python.{ok, raise, key_error}
use radiation_tracking.Python.Text.{strip, lstrip, rstrip, is_space, replace_z, suffix, prefix}
use radiation_tracking.Provider.Rows.{normalise_ts, date_separator}
use radiation_tracking.Provider.Samples.{decimals}
use radiation_tracking.Provider.Producer.{Producer}
use radiation_tracking.Provider.Producer.Accounts.{Accounts}
use radiation_tracking.Provider.Command.{Arguments, bounds_of, preset_in, parsed_bound}

abbrev same : String → String
same s = s

abbrev always : ℤ → Bool
always x = true

-- A preset with bounds of its own.
abbrev arguments : Arguments ℤ
arguments = record {
  speed = "2";
  batch_size = 2;
  skip_rows = 0;
  movement_threshold_m = pos 200;
  preset = some "fukushima";
  start = some "2011-03-20";
  end = some "2020-12-31";
}

abbrev columns : List String
columns = "device_id" ∷ "captured_at" ∷ "latitude" ∷ "longitude" ∷ []

explicit_start :
    bounds_of (some "fukushima") (some "2011-03-20") none
    ≡ ok (some "2011-03-20", some "2011-04-30T23:59:59")
unfolding bounds_of preset_in parsed_bound normalise_ts date_separator strip lstrip rstrip is_space
    replace_z suffix prefix
explicit_start = refl

unknown_preset : bounds_of (some "chernobyl") none none ≡ raise key_error
unfolding bounds_of preset_in parsed_bound
unknown_preset = refl
