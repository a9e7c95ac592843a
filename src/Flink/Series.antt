-- ===== src/Flink/Series.antt =====
-- What flink-jobs/operators/trend_detector.py and rolling_stats.py share: a cell's series of averages,
-- trimmed from the left and stored as a JSON text.
use radiation_tracking.Prelude.{
  ℕ, ◌≤◌, String, ◌≡◌, refl, false, str_eq, Option, none, some, List, [], ◌∷◌, ◌++◌, arith,
  slice_last, ◌==◌, if◌then◌else◌, slice_last-append,
}
use radiation_tracking.Python.{num, Items, nil, cons}

-- `json.dumps` of a list of floats, and `json.loads` of its text, which is not empty.
pub record SeriesJson (F : Type 0) : Type 0 where
  pub dumps : List F → String
  pub loads : String → List F

pub record RoundTrip {F : Type 0} (json : SeriesJson F) : Type 0 where
  pub loads-dumps : (xs : List F) → json.loads (json.dumps xs) ≡ xs
  pub dumps_lem : (xs : List F) → str_eq (json.dumps xs) "" ≡ false

module _ {ℓ} {A : Type ℓ} where
  -- `[*series, x][-max_len:]`, push_window and push_sample; `[-0:]` is the whole list.
  unfoldable pub push : List A → A → ℕ → List A
  push series x max_len =
      let updated = series ++ x ∷ [] in if max_len == 0 then updated else slice_last max_len updated

  pub push-slice_last :
      (history : List A) (x : A) (k : ℕ)
      → 1 ≤ k
      → push (slice_last k history) x k ≡ slice_last k (history ++ x ∷ [])
  unfolding push
  push-slice_last history x k h = ground (arith, slice_last-append k history (x ∷ []))

-- The value that `self._series.value()` holds, read: `json.loads(raw) if raw else []`.
unfoldable pub stored : {F : Type 0} ⦃json : SeriesJson F⦄ → Option String → List F
stored none = []
stored ⦃json⦄ (some raw) = if str_eq raw "" then [] else json.loads raw

pub stored-dumps :
    {F : Type 0} ⦃json : SeriesJson F⦄ (laws : RoundTrip json) (xs : List F)
    → stored (some (json.dumps xs)) ≡ xs
unfolding stored
stored-dumps laws xs = rw (laws.dumps_lem xs, laws.loads-dumps xs) refl

abbrev pub numbers : {F : Type 0} → List F → Items F
numbers [] = nil
numbers (x ∷ xs) = cons (num x) (numbers xs)
