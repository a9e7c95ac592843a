-- ===== src/Backend/RingBuffer/Tests.antt =====
-- The buffer on concrete streams, and each theorem at an input.
use radiation_tracking.Prelude.{
  ℕ, ◌≡◌, refl, Bool, none, some, List, [], ◌∷◌, arith, ltb, true, false,
}
use radiation_tracking.Prelude.Int.{pos, negsuc}
use radiation_tracking.Backend.RingBuffer.{init, append, recent, page, older, matching, page_of}
use radiation_tracking.Backend.RingBuffer.Paging.{walk}
use radiation_tracking.Backend.RingBuffer.Append.{appends, walk-appends}

-- Five readings into a buffer of three.
abbrev readings : List ℕ
readings = 10 ∷ 20 ∷ 30 ∷ 40 ∷ 50 ∷ []

abbrev high : ℕ → Bool
high n = ltb 35 n

page_first :
    page (appends (init 3) readings) none (pos 2) none
    ≡ record { events = 40 ∷ 50 ∷ []; next_cursor = some 3; has_more = true }
unfolding page older matching page_of init append
page_first = refl

page_last :
    page (appends (init 3) readings) (some (pos 3)) (pos 2) none
    ≡ record { events = 30 ∷ []; next_cursor = none; has_more = false }
unfolding page older matching page_of init append
page_last = refl

recent_negative : recent (appends (init 3) readings) (negsuc 0) ≡ []
unfolding recent init append
recent_negative = refl

walk-appends_example : walk 4 (appends (init 3) readings) none (pos 1) (some high) ≡ 40 ∷ 50 ∷ []
walk-appends_example = walk-appends 3 0 4 readings high (omega arith)
