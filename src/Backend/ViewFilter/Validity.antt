-- ===== src/Backend/ViewFilter/Validity.antt =====
-- backend/app/core/view_filter.py: what a filter that was built satisfies, and what building raises.
use radiation_tracking.Prelude.{
  ◌≡◌, refl, ◌⊎◌, inl, inr, Bool, true, false, not, Option, none, some, Bool-cases, Option-cases,
  str_eq,
}
use radiation_tracking.Python.{
  Number, Result, ok, raise, value_error, overflow_error, or_raise, ◌>>=◌, Datetime, Value, obj,
  Fields, end, get, or_else,
}
use radiation_tracking.Python.Text.{replace_z}
use radiation_tracking.Backend.ViewFilter.{
  ViewFilter, as_utc, utc_range, utc_or_none, parse_ts, box_is_valid, view_filter, num_value,
  num_at, ts_value, ts_at, parsed_or_raise, from_objects, from_values, from_subscribe,
}

-- A result, or ValueError, or OverflowError.
Fine : {A : Type 0} → Result A → Type 0
Fine {A} r = ((a : A) × (r ≡ ok a)) ⊎ ((r ≡ raise value_error) ⊎ (r ≡ raise overflow_error))

Fine-bind :
    {A B : Type 0} (r : Result A) (f : A → Result B)
    → Fine r
    → ((a : A) → Fine (f a))
    → Fine (r >>= f)
unfolding Fine
Fine-bind r f (inl (a, e)) h = rw e (h a)
Fine-bind r f (inr (inl e)) h = rw e (inr (inl refl))
Fine-bind r f (inr (inr e)) h = rw e (inr (inr refl))

Fine-ok : {A : Type 0} (a : A) → Fine (ok a)
unfolding Fine
Fine-ok a = inl (a, refl)

num_value-Fine : {F : Type 0} ⦃n : Number F⦄ (v : Value F) → Fine (num_value v)
unfolding Fine
num_value-Fine Value.null = inl (none, refl)
num_value-Fine ⦃n⦄ (Value.num x) = elim (Bool-cases (n.fits x)) [
  | inl e ↦ rw e (inl (some x, refl))
  | inr e ↦ rw e (inr (inr refl))
]
num_value-Fine _ = inr (inl refl)

parsed_or_raise-Fine : {D : Type 0} (o : Option D) → Fine (parsed_or_raise o)
unfolding Fine
parsed_or_raise-Fine none = inr (inl refl)
parsed_or_raise-Fine (some d) = inl (some d, refl)

module _ {D : Type 0} (t : Datetime D) where
  as_utc-Fine : (d : D) → Fine (as_utc t d)
  unfolding as_utc or_raise Fine
  as_utc-Fine d = elim (Bool-cases (t.is_naive d)) [
    | inl e ↦ rw e (inl (_, refl))
    | inr e ↦ rw e (elim (Option-cases (t.astimezone_utc d)) [
      | inl none_e ↦ rw none_e (inr (inr refl))
      | inr (u, some_e) ↦ rw some_e (inl (u, refl))
    ])
  ]

  utc_or_none-Fine : (o : Option D) → Fine (utc_or_none t o)
  utc_or_none-Fine none = Fine-ok none
  utc_or_none-Fine (some d) = Fine-bind _ _ (as_utc-Fine d) λ u. Fine-ok (some u)

parse_ts-Fine : {F D : Type 0} (t : Datetime D) (v : Value F) → Fine (parse_ts t v)
unfolding parse_ts
parse_ts-Fine t (Value.str s) = elim (Bool-cases (str_eq s "")) [
  | inl e ↦ rw e (Fine-ok none)
  | inr e ↦ rw e (utc_or_none-Fine t (t.fromisoformat (replace_z s)))
]
parse_ts-Fine t _ = Fine-ok none

ts_value-Fine : {F D : Type 0} (t : Datetime D) (v : Value F) → Fine (ts_value t v)
unfolding ts_value Fine
ts_value-Fine t Value.null = inl (none, refl)
ts_value-Fine t (Value.str s) = elim (Bool-cases (str_eq s "")) [
  | inl e ↦ rw e (inl (none, refl))
  | inr e ↦ rw e (Fine-bind _ _ (parse_ts-Fine t (Value.str s)) parsed_or_raise-Fine)
]
ts_value-Fine t _ = inr (inl refl)

module _ {D : Type 0} (t : Datetime D) where
  -- Both ends of the range or none, the first before the second.
  abbrev pub in_order : Option D → Option D → Bool
  in_order (some a) (some b) = not (t.le b a)
  in_order none none = true
  in_order _ _ = false

module _ {F D : Type 0} ⦃n : Number F⦄ (t : Datetime D) where
  -- What a filter that was built satisfies.
  abbrev pub IsValid : ViewFilter F D → Type 0
  IsValid f =
      (box_is_valid f.min_lat f.max_lat f.min_lon f.max_lon ≡ true)
      × (in_order t f.from f.until ≡ true)

  Good : Result (ViewFilter F D) → Type 0
  Good r =
      ((f : ViewFilter F D) × (r ≡ ok f) × IsValid f)
      ⊎ ((r ≡ raise value_error) ⊎ (r ≡ raise overflow_error))

  Good-bind :
      {A : Type 0} (m : Result A) (f : A → Result (ViewFilter F D))
      → Fine m
      → ((a : A) → Good (f a))
      → Good (m >>= f)
  unfolding Fine Good
  Good-bind m f (inl (a, e)) h = rw e (h a)
  Good-bind m f (inr (inl e)) h = inr (inl (rw e refl))
  Good-bind m f (inr (inr e)) h = inr (inr (rw e refl))

  with_ends :
      Option F → Option F → Option F → Option F → Option D × Option D → Result (ViewFilter F D)
  with_ends min_lat max_lat min_lon max_lon ends = ok (record {
    min_lat = min_lat;
    max_lat = max_lat;
    min_lon = min_lon;
    max_lon = max_lon;
    from = ends.0;
    until = ends.1;
  })

  utc_range-Good :
      (a b c d : Option F) (from until : Option D)
      → box_is_valid a b c d ≡ true
      → Good (utc_range t from until >>= with_ends a b c d)
  unfolding utc_range Good with_ends Fine
  utc_range-Good a b c d none none v = inl (_, refl, (v, refl))
  utc_range-Good a b c d none (some y) v = inr (inl refl)
  utc_range-Good a b c d (some x) none v = inr (inl refl)
  utc_range-Good a b c d (some x) (some y) v = elim (as_utc-Fine t x) [
    | inr (inl e) ↦ rw e (inr (inl refl))
    | inr (inr e) ↦ rw e (inr (inr refl))
    | inl (x', ex) ↦ elim (as_utc-Fine t y) [
      | inr (inl e) ↦ rw (ex, e) (inr (inl refl))
      | inr (inr e) ↦ rw (ex, e) (inr (inr refl))
      | inl (y', ey) ↦ elim (Bool-cases (t.le y' x')) [
        | inl late ↦ rw (ex, ey, late) (inr (inl refl))
        | inr early ↦ rw (ex, ey, early) (inl (_, refl, (v, rw early refl)))
      ]
    ]
  ]

  view_filter-Good :
      (min_lat max_lat min_lon max_lon : Option F) (from until : Option D)
      → Good (view_filter t min_lat max_lat min_lon max_lon from until)
  unfolding view_filter with_ends
  view_filter-Good a b c d from until = elim (Bool-cases (box_is_valid a b c d)) [
    | inl e ↦ rw e (utc_range-Good a b c d from until e)
    | inr e ↦ rw e (unfold Good in inr (inl refl))
  ]

  from_objects-Good : (area timespan : Fields F) → Good (from_objects t area timespan)
  unfolding from_objects num_at ts_at
  from_objects-Good area timespan = Good-bind _ _ (num_value-Fine (get area "min_lat")) λ a.
      Good-bind _ _ (num_value-Fine (get area "max_lat")) λ b.
        Good-bind _ _ (num_value-Fine (get area "min_lon")) λ c.
          Good-bind _ _ (num_value-Fine (get area "max_lon")) λ d.
            Good-bind _ _ (ts_value-Fine t (get timespan "start")) λ from.
              Good-bind _ _ (ts_value-Fine t (get timespan "end"))
                λ until. view_filter-Good a b c d from until

  from_values-Good : (area timespan : Value F) → Good (from_values t area timespan)
  unfolding from_values Good
  from_values-Good (obj area) (obj timespan) = from_objects-Good area timespan
  from_values-Good _ _ = inr (inl refl)

  -- A subscribe message either gives a filter, which has all bounds of a box or none, in order and in
  -- range, and both ends of a time range or none, in order; or raises ValueError or OverflowError,
  -- and nothing else.
  pub from_subscribe_lem :
      (payload : Fields F)
      → ((f : ViewFilter F D) × (from_subscribe t payload ≡ ok f) × IsValid f)
        ⊎ ((from_subscribe t payload ≡ raise value_error)
            ⊎ (from_subscribe t payload ≡ raise overflow_error))
  unfolding from_subscribe Good
  from_subscribe_lem payload =
      from_values-Good (or_else (get payload "area") (obj end))
        (or_else (get payload "timespan") (obj end))
