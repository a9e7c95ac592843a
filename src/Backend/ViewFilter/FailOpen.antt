-- ===== src/Backend/ViewFilter/FailOpen.antt =====
-- backend/app/core/view_filter.py: a message is hidden on evidence only.
use radiation_tracking.Prelude.{
  ◌≡◌, refl, ◌⊎◌, inl, inr, false, ◌&&◌, Option, none, some, map, arith, Bool-cases,
}
use radiation_tracking.Python.{Number, Result, ok, raise, Datetime, Value, obj, Fields, get}
use radiation_tracking.Backend.Broadcaster.{Message}
use radiation_tracking.Backend.ViewFilter.{
  ViewFilter, number_of, at_most, at_least, box_test, in_box, first_ts, time_test, in_time,
  MessageFields, message_fields, matches_data, matches_fields, matches_message,
}

module _ {F D : Type 0} ⦃n : Number F⦄ (t : Datetime D) where
  -- The evidence against a message: it is of a known type, with an object that has two numbers for
  -- coordinates and is out of the box, or a time that is out of the range.
  pub record Evidence (f : ViewFilter F D) (message : Message F) : Type 0 where
    pub fields : MessageFields
    pub known : message_fields message.kind ≡ some fields
    pub content : Fields F
    pub payload : message.payload ≡ obj content
    pub outside :
        ((x y south : F) × (number_of (get content fields.lat_key) ≡ some x)
          × (number_of (get content fields.lon_key) ≡ some y)
          × (f.min_lat ≡ some south)
          × ((n.le south x && at_most x f.max_lat && at_least f.min_lon y && at_most y f.max_lon)
              ≡ false))
        ⊎ ((d from until : D) × (first_ts t (map (get content) fields.ts_keys) ≡ ok (some d))
            × (f.from ≡ some from)
            × (f.until ≡ some until)
            × ((t.le from d && t.le d until) ≡ false))

  BoxEvidence : ViewFilter F D → Option F → Option F → Type 0
  BoxEvidence f lat lon =
      (x y south : F) × (lat ≡ some x)
      × (lon ≡ some y)
      × (f.min_lat ≡ some south)
      × ((n.le south x && at_most x f.max_lat && at_least f.min_lon y && at_most y f.max_lon)
          ≡ false)

  RangeEvidence : ViewFilter F D → Result (Option D) → Type 0
  RangeEvidence f time =
      (d from until : D) × (time ≡ ok (some d))
      × (f.from ≡ some from)
      × (f.until ≡ some until)
      × ((t.le from d && t.le d until) ≡ false)

  by_box :
      (f : ViewFilter F D) (lat lon low : Option F)
      → f.min_lat ≡ low
      → box_test f low lat lon ≡ false
      → BoxEvidence f lat lon
  unfolding BoxEvidence
  by_box f (some x) (some y) (some south) e h = (x, y, south, refl, refl, e, h)
  by_box f none lon low e h = absurd (ground arith)
  by_box f (some x) none low e h = absurd (ground arith)
  by_box f (some x) (some y) none e h = absurd (ground arith)

  by_range :
      (f : ViewFilter F D) (time : Result (Option D)) (from until : Option D)
      → f.from ≡ from
      → f.until ≡ until
      → time_test t from until time ≡ ok false
      → RangeEvidence f time
  unfolding RangeEvidence
  by_range f (ok (some d)) (some a) (some b) ea eb h = (d, a, b, refl, ea, eb, ground (arith, h))
  by_range f (ok none) (some a) until ea eb h = absurd (ground (arith, h))
  by_range f (raise x) (some a) until ea eb h = absurd (ground (arith, h))
  by_range f time none until ea eb h = absurd (ground (arith, h))
  by_range f (ok (some d)) (some a) none ea eb h = absurd (ground (arith, h))

  by_payload :
      (f : ViewFilter F D) (message : Message F) (fields : Option MessageFields) (payload : Value F)
      → message_fields message.kind ≡ fields
      → message.payload ≡ payload
      → matches_fields t f fields payload ≡ ok false
      → Evidence f message
  unfolding matches_data in_box in_time BoxEvidence RangeEvidence
  by_payload f message none payload ek ep h = absurd (ground arith)
  by_payload f message (some fields) (obj d) ek ep h =
      let lat = number_of (get d fields.lat_key) in
      let lon = number_of (get d fields.lon_key) in
      let time = first_ts t (map (get d) fields.ts_keys) in
      elim (Bool-cases (box_test f f.min_lat lat lon)) [
        | inr out ↦ record {
          fields = fields;
          known = ek;
          content = d;
          payload = ep;
          outside = inl (by_box f lat lon f.min_lat refl out);
        }
        | inl within ↦ record {
          fields = fields;
          known = ek;
          content = d;
          payload = ep;
          outside = inr (by_range f time f.from f.until refl refl (rw within at h));
        }
      ]
  by_payload f message (some fields) _ ek ep h = absurd (ground arith)

  -- Only a message of a known type whose object puts it out of the box or out of the time range is
  -- hidden: coordinates or times that are missing or malformed never hide it.
  pub matches_message_lem :
      (f : ViewFilter F D) (message : Message F)
      → matches_message t f message ≡ ok false
      → Evidence f message
  unfolding matches_message
  matches_message_lem f message h =
      by_payload f message (message_fields message.kind) message.payload refl refl h
