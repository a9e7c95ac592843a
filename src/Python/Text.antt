-- ===== src/Python/Text.antt =====
-- Python's `str` methods that the program calls, over the characters of a text.
use Prim.Native.Char.{Char, code}
use Prim.Native.String.{◌++◌}
use radiation_tracking.Prelude.{
  ℕ, zero, suc, String, Bool, not, ◌&&◌, ◌||◌, Option, none, some, leb, ◌==◌, str_eq, if◌then◌else◌,
  ltb, true, false,
}

-- `c.isspace()`
unfoldable pub is_space : Char → Bool
is_space c =
    let n = code c in
    (leb 9 n && leb n 13)
    || (leb 28 n && leb n 32)
    || n == 133
    || n == 160
    || n == 5760
    || (leb 8192 n && leb n 8202)
    || n == 8232
    || n == 8233
    || n == 8239
    || n == 8287
    || n == 12288

-- `\d` of the ASCII digits.
unfoldable pub is_digit : Char → Bool
is_digit c = let n = code c in leb 48 n && leb n 57

unfoldable pub lstrip : String → String
unfolding is_space
lstrip String.[] = ""
lstrip (String.◌∷◌ c s) = let rest = lstrip s in if is_space c then rest else String.◌∷◌ c s

unfoldable pub rstrip : String → String
unfolding is_space
rstrip String.[] = ""
rstrip (String.◌∷◌ c s) =
    let rest = rstrip s in if is_space c && str_eq rest "" then "" else String.◌∷◌ c rest

-- `text.strip()`
unfoldable pub strip : String → String
unfolding lstrip rstrip
strip s = rstrip (lstrip s)

-- The longest prefix of digits, and what follows it.
unfoldable pub span_digits : String → String × String
unfolding is_digit
span_digits String.[] = ("", "")
span_digits (String.◌∷◌ c s) =
    let rest = span_digits s in
    if is_digit c then (String.◌∷◌ c rest.0, rest.1) else ("", String.◌∷◌ c s)

-- The first match of `\.(\d+)`: the text before it, its digits, and the text after it.
unfoldable pub search_fraction : String → Option (String × String × String)
unfolding span_digits
search_fraction String.[] = none
search_fraction (String.◌∷◌ c s) =
    let rest = search_fraction s in
    let later : Option (String × String × String) = elim rest [
      | none ↦ none
      | some (before, digits, after) ↦ some (String.◌∷◌ c before, digits, after)
    ] in
    let (digits, after) = span_digits s in
    if code c == 46 && not (str_eq digits "") then some ("", digits, after) else later

-- `text[:n]`
unfoldable pub prefix : ℕ → String → String
prefix zero s = ""
prefix (suc n) String.[] = ""
prefix (suc n) (String.◌∷◌ c s) = String.◌∷◌ c (prefix n s)

-- `text.replace("Z", "+00:00")`
unfoldable pub replace_z : String → String
replace_z String.[] = ""
replace_z (String.◌∷◌ c s) =
    let rest = replace_z s in if code c == 90 then "+00:00" ++ rest else String.◌∷◌ c rest

-- `len(text)`
unfoldable pub text_length : String → ℕ
text_length String.[] = 0
text_length (String.◌∷◌ c s) = suc (text_length s)

-- `text[n:]`
unfoldable pub suffix : ℕ → String → String
suffix zero s = s
suffix (suc n) String.[] = ""
suffix (suc n) (String.◌∷◌ c s) = suffix n s

-- `a < b`, by code points
unfoldable pub text_lt : String → String → Bool
text_lt s String.[] = false
text_lt String.[] (String.◌∷◌ d t) = true
text_lt (String.◌∷◌ c s) (String.◌∷◌ d t) =
    let rest = text_lt s t in ltb (code c) (code d) || (code c == code d && rest)

-- `text.replace(" ", "_")`
unfoldable pub replace_spaces : String → String
replace_spaces String.[] = ""
replace_spaces (String.◌∷◌ c s) =
    let rest = replace_spaces s in if code c == 32 then "_" ++ rest else String.◌∷◌ c rest
