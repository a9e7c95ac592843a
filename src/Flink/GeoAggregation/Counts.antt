-- ===== src/Flink/GeoAggregation/Counts.antt =====
-- flink-jobs/operators/geo_aggregation.py: the class counts and the worst class against the events.
use radiation_tracking.Prelude.{
  ℕ, ◌+◌, String, ◌≡◌, refl, ◌∙◌, true, false, List, [], ◌∷◌, map, length, filter, arith, eq_iff,
  str_eq, if◌then◌else◌, ltb, All,
}
use radiation_tracking.Python.{ok, traverse, Value, null, str, Fields, get}
use radiation_tracking.Flink.GeoAggregation.{
  is_label, has_label, hash_check, classification_of, present, worst_classification, ClassCounts,
  no_counts, count_label, count_classes,
}

module _ {F : Type 0} where
  one_label :
      (a b : String) (v : Value F) → str_eq a b ≡ false → is_label a v ≡ true → is_label b v ≡ false
  one_label a b (str s) h k = ground (arith, eq_iff s a, eq_iff s b, eq_iff a b)
  one_label a b _ h k = refl

  -- How many of the events have the label.
  abbrev pub tally : String → List (Fields F) → ℕ
  tally label events = length (filter (has_label label) events)

  -- The numbers of events with each label.
  abbrev pub tallies : List (Fields F) → ClassCounts
  tallies events = record {
    safe = tally "SAFE" events;
    warn = tally "WARN" events;
    danger = tally "DANGER" events;
  }

  -- The most severe label that an event has.
  abbrev pub worst : List (Fields F) → Value F
  worst events =
      if ltb 0 (tally "DANGER" events)
      then str "DANGER"
      else if ltb 0 (tally "WARN" events)
      then str "WARN"
      else if ltb 0 (tally "SAFE" events)
      then str "SAFE"
      else null

  -- The classification of every event can be hashed: it is no list and no dict.
  abbrev pub Hashable : List (Fields F) → Type 0
  Hashable events =
      All (λ e. hash_check (get e "classification") ≡ ok (get e "classification")) events

  -- The counts of a window are the numbers of its events with each label.
  counts_from :
      (c : ClassCounts) (events : List (Fields F))
      → Hashable events
      → count_classes c events
        ≡ ok (record {
          safe = c.safe + tally "SAFE" events;
          warn = c.warn + tally "WARN" events;
          danger = c.danger + tally "DANGER" events;
        })
  unfolding count_classes
  counts_from c [] h = ground arith
  counts_from c (event ∷ rest) h =
      let v = get event "classification" in
      ground (
        arith,
        h.0,
        counts_from (count_label c v) rest h.1,
        one_label "SAFE" "WARN" v refl,
        one_label "SAFE" "DANGER" v refl,
        one_label "WARN" "DANGER" v refl,
      )

  -- The worst class of events is the first of DANGER, WARN and SAFE that one of them has.
  found :
      (events : List (Fields F))
      → Hashable events
      → traverse classification_of events ≡ ok (map (λ e. get e "classification") events)
  unfolding traverse
  found [] h = refl
  found (event ∷ rest) h = rw (h.0, found rest h.1) refl

  present-tally :
      (label : String) (events : List (Fields F))
      → present label (map (λ e. get e "classification") events) ≡ ltb 0 (tally label events)
  present-tally label [] = refl
  present-tally label (event ∷ rest) = ground (arith, present-tally label rest)

  -- If every classification of the events can be hashed, the class counts of a window are the
  -- numbers of its events with each label, and its worst classification is DANGER if one has that,
  -- else WARN if one has that, else SAFE if one has that, else null.
  pub count_classes-worst_classification :
      (events : List (Fields F))
      → Hashable events
      → (count_classes no_counts events ≡ ok (tallies events))
        × (worst_classification events ≡ ok (worst events))
  unfolding worst_classification
  count_classes-worst_classification events h = (
    counts_from no_counts events h ∙ ground arith,
    rw
        (
          found events h,
          present-tally "DANGER" events,
          present-tally "WARN" events,
          present-tally "SAFE" events,
        )
        refl,
  )
