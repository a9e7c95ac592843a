-- ===== src/Backend/History/Selection.antt =====
-- The rows that the conditions of a history query select.
use radiation_tracking.Prelude.{
  ℕ, zero, suc, ◌≡◌, refl, Bool, true, false, ◌&&◌, Option, none, some, List, [], ◌∷◌, arith,
}
use radiation_tracking.Python.{Number}
use radiation_tracking.Backend.History.Sql.{
  Condition, centroid_between, starts_after, starts_before,
}
use radiation_tracking.Backend.History.{BBox, Param, number, time, Clauses, query_of}

-- A blob of the archive, as far as the conditions read it.
pub record ArchiveRow (F D : Type 0) : Type 0 where
  pub centroid_latitude : Option F
  pub centroid_longitude : Option F
  pub window_start : D

module _ {F D : Type 0} ⦃n : Number F⦄ (le_time : D → D → Bool) where
  -- `$i`
  abbrev param : List (Param F D) → ℕ → Option (Param F D)
  param [] i = none
  param (p ∷ params) zero = none
  param (p ∷ params) (suc zero) = some p
  param (p ∷ params) (suc (suc i)) = param params (suc i)

  -- `x BETWEEN $a AND $b`, which NULL does not meet.
  abbrev pub lies_between : Option F → Option (Param F D) → Option (Param F D) → Bool
  lies_between (some x) (some (number a)) (some (number b)) = n.le a x && n.le x b
  lies_between _ _ _ = false

  abbrev pub not_before : D → Option (Param F D) → Bool
  not_before w (some (time t)) = le_time t w
  not_before w _ = false

  abbrev pub not_after : D → Option (Param F D) → Bool
  not_after w (some (time t)) = le_time w t
  not_after w _ = false

  -- What a condition says of a row, by the positions of its parameters.
  abbrev pub selects_one : List (Param F D) → ArchiveRow F D → Condition → Bool
  selects_one params r (centroid_between a b c d) =
      lies_between r.centroid_latitude (param params a) (param params b)
      && lies_between r.centroid_longitude (param params c) (param params d)
  selects_one params r (starts_after i) = not_before r.window_start (param params i)
  selects_one params r (starts_before i) = not_after r.window_start (param params i)

  abbrev pub selects : Clauses F D → ArchiveRow F D → Bool
  selects ([], params) r = true
  selects (c ∷ clauses, params) r = selects_one params r c && selects (clauses, params) r

  abbrev coordinate_in : Option F → F → F → Bool
  coordinate_in none lo hi = false
  coordinate_in (some x) lo hi = n.le lo x && n.le x hi

  lies_between-number :
      (x : Option F) (lo hi : F)
      → lies_between x (some (number lo)) (some (number hi)) ≡ coordinate_in x lo hi
  lies_between-number none lo hi = refl
  lies_between-number (some x) lo hi = refl

  -- The closed box, in which a blob without a centroid is not.
  abbrev pub in_bbox : Option (BBox F) → ArchiveRow F D → Bool
  in_bbox none r = true
  in_bbox (some box) r =
      coordinate_in r.centroid_latitude box.south box.north
      && coordinate_in r.centroid_longitude box.west box.east

  abbrev pub since : Option D → ArchiveRow F D → Bool
  since none r = true
  since (some start) r = le_time start r.window_start

  abbrev pub up_to : Option D → ArchiveRow F D → Bool
  up_to none r = true
  up_to (some end) r = le_time r.window_start end

  -- A history query selects exactly the blobs in the closed box and the closed span, where these are
  -- given: every condition reads the parameters that were bound for it.
  pub query_of-selects :
      (box : Option (BBox F)) (start end : Option D) (limit : ℕ) (r : ArchiveRow F D)
      → selects (query_of box start end limit) r ≡ (in_bbox box r && (since start r && up_to end r))
  unfolding query_of
  query_of-selects none none none limit r = ground arith
  query_of-selects none none (some end) limit r = ground arith
  query_of-selects none (some start) none limit r = ground arith
  query_of-selects none (some start) (some end) limit r = ground arith
  query_of-selects (some box) none none limit r = ground (
    arith,
    lies_between-number r.centroid_latitude box.south box.north,
    lies_between-number r.centroid_longitude box.west box.east,
  )
  query_of-selects (some box) none (some end) limit r = ground arith
  query_of-selects (some box) (some start) none limit r = ground arith
  query_of-selects (some box) (some start) (some end) limit r = ground arith
