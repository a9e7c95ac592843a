-- ===== src/Provider/Producer/Tests.antt =====
-- Three rows, of which one is discarded and one is not delivered.
use radiation_tracking.Prelude.{ℕ, String, true, Option, none, List, [], ◌∷◌, ◌==◌, if◌then◌else◌}
use radiation_tracking.Prelude.Int.{ℤ, pos, ltb_ℤ}
use radiation_tracking.Python.{Fields, Result, ok, raise, overflow_error}
use radiation_tracking.Provider.Rows.{CsvRow}
use radiation_tracking.Provider.Samples.{row_at}
use radiation_tracking.Provider.Metrics.{new_producer_metrics}
use radiation_tracking.Provider.SensorClassifier.{Trigonometry}
use radiation_tracking.Provider.Speed.{Speed, rate}
use radiation_tracking.Provider.Producer.{Delivery, refused, delivered, Producer}
use radiation_tracking.Provider.Producer.Accounts.{Accounts}

abbrev pub flat_earth : Trigonometry ℤ
flat_earth = record { radians = λ x. x; sin = λ x. x; cos = λ x. pos 1; asin = λ x. x }

abbrev pub digest : String → String
digest s = s

abbrev pub no_time : Option String → Option ℤ
no_time ts = none

abbrev pub one_byte : Fields ℤ → ℕ
one_byte event = 1

abbrev pub second_refused : ℕ → Delivery
second_refused i = if i == 1 then refused true else delivered

-- A sleep of more than 1000 seconds is refused.
abbrev pub short_sleep : ℤ → Result (Unit {0})
short_sleep delay = if ltb_ℤ (pos 1000) delay then raise overflow_error else ok tt

-- Two events per second.
abbrev pub two_a_second : Speed ℤ
two_a_second = rate (pos 2)

abbrev fresh : Producer ℤ
fresh = record {
  metrics = new_producer_metrics;
  sensors = [];
  prev_uploaded_ts = none;
  attempts = 0;
  topic = [];
  slept = [];
}

abbrev pub few_rows : List CsvRow
few_rows =
    row_at "7" "2020-02-01" "35" "10"
    ∷ row_at "7" "2020-02-01" "95" "10"
    ∷ row_at "8" "2020-02-02" "36" "20"
    ∷ []
