-- ===== src/Flink/Tests/Samples.antt =====
-- Concrete instances for runs of the Flink operators: texts that code integers, and a clock.
use Prim.Native.Char.{code}
use radiation_tracking.Prelude.{
  ℕ, zero, suc, ◌+◌, String, ◌≡◌, ◌≢◌, refl, ap, ap₂, ◌∙◌, true, Bool-cases, inl, inr, eq_iff, Bool,
  false, Option, none, some, List, [], ◌∷◌, arith, ◌==◌, str_eq, if◌then◌else◌,
}
use radiation_tracking.Prelude.Int.{ℤ, pos, negsuc, leb_ℤ}
use radiation_tracking.Python.{Number, Order, Datetime}
use radiation_tracking.Python.Integers.{integers, integers-Order}
use radiation_tracking.Flink.Classifier.{Show}
use radiation_tracking.Flink.Series.{SeriesJson, RoundTrip}

-- As many strokes as the number, then the rest.
abbrev strokes : ℕ → String → String
strokes zero rest = rest
strokes (suc k) rest = String.◌∷◌ "I" (strokes k rest)

-- Each integer is its strokes and its sign.
abbrev pub encode : List ℤ → String
encode [] = ""
encode (pos k ∷ xs) = strokes k (String.◌∷◌ "+" (encode xs))
encode (negsuc k ∷ xs) = strokes k (String.◌∷◌ "-" (encode xs))

abbrev decode : ℕ → String → List ℤ
decode k String.[] = []
decode k (String.◌∷◌ c s) =
    let more = decode (suc k) s in
    let rest = decode 0 s in
    if code c == 73 then more else if code c == 43 then pos k ∷ rest else negsuc k ∷ rest

decode-strokes : (j k : ℕ) (s : String) → decode j (strokes k s) ≡ decode (k + j) s
decode-strokes j zero s = ap (λ i. decode i s) (omega arith)
decode-strokes j (suc k) s = decode-strokes (suc j) k s ∙ ap (λ i. decode i s) (omega arith)

decode-encode : (xs : List ℤ) → decode 0 (encode xs) ≡ xs
decode-encode [] = refl
decode-encode (pos k ∷ xs) =
    decode-strokes 0 k (String.◌∷◌ "+" (encode xs))
    ∙ ap₂ (λ j ys. pos j ∷ ys) (omega arith) (decode-encode xs)
decode-encode (negsuc k ∷ xs) =
    decode-strokes 0 k (String.◌∷◌ "-" (encode xs))
    ∙ ap₂ (λ j ys. negsuc j ∷ ys) (omega arith) (decode-encode xs)

instance abbrev pub show_integer : Show ℤ
show_integer = record { show = λ x. encode (x ∷ []) }

abbrev first_of : List ℤ → Option ℤ
first_of [] = none
first_of (x ∷ xs) = some x

-- Integers, whose texts are read back.
instance abbrev pub read_integers : Number ℤ
read_integers = record {
  fits = λ x. true;
  parse_fits = λ text x h. refl;
  le = integers.le;
  lt = integers.lt;
  beq = integers.beq;
  zero = integers.zero;
  of_ℕ = integers.of_ℕ;
  neg = integers.neg;
  add = integers.add;
  sub = integers.sub;
  mul = integers.mul;
  div = integers.div;
  sqrt = integers.sqrt;
  round = integers.round;
  parse = λ s. first_of (decode 0 s);
}

pub parse-show : (x : ℤ) → read_integers.parse (show_integer.show x) ≡ some x
parse-show x = ap first_of (decode-encode (x ∷ []))

pub read_integers-Order : Order read_integers
read_integers-Order = record {
  le_trans = integers-Order.le_trans;
  lt_trans = integers-Order.lt_trans;
  le_lt_trans = integers-Order.le_lt_trans;
  le_of_lt = integers-Order.le_of_lt;
  not_le_of_lt = integers-Order.not_le_of_lt;
}

abbrev tail_of : String → String
tail_of String.[] = ""
tail_of (String.◌∷◌ c s) = s

instance abbrev pub series_json : SeriesJson ℤ
series_json = record { dumps = λ xs. String.◌∷◌ "[" (encode xs); loads = λ s. decode 0 (tail_of s) }

abbrev is_empty : String → Bool
is_empty String.[] = true
is_empty (String.◌∷◌ c s) = false

not-empty : (s : String) → str_eq (String.◌∷◌ "[" s) "" ≡ false
not-empty s = elim (Bool-cases (str_eq (String.◌∷◌ "[" s) "")) [
  | inl e ↦
      let same : String.◌∷◌ "[" s ≡ "" = (eq_iff (String.◌∷◌ "[" s) "").0 e in
      let bad : false ≡ true = ap is_empty same in absurd (ground (arith, bad))
  | inr e ↦ e
]

pub series_json-RoundTrip : RoundTrip series_json
series_json-RoundTrip = record {
  loads-dumps = decode-encode;
  dumps_lem = λ xs. not-empty (encode xs);
}

-- Times are milliseconds; three texts are times.
abbrev pub clock : Datetime ℤ
clock = record {
  fromisoformat = λ s.
      if str_eq s "T00"
      then some (pos 0)
      else if str_eq s "T05"
      then some (pos 300000)
      else if str_eq s "T10"
      then some (pos 600000)
      else none;
  isoformat = λ d. "T00";
  is_naive = λ d. false;
  replace_utc = λ d. d;
  astimezone_utc = λ d. some d;
  timestamp_millis = λ d. d;
  le = leb_ℤ;
}

pub differ : (a b : String) → str_eq a b ≡ false → a ≢ b
differ a b h e = ground (arith, eq_iff a b, e)

-- A clock whose texts are read back.
abbrev pub exact_clock : Datetime ℤ
exact_clock = record {
  fromisoformat = λ s. first_of (decode 0 s);
  isoformat = λ d. encode (d ∷ []);
  is_naive = λ d. false;
  replace_utc = λ d. d;
  astimezone_utc = λ d. some d;
  timestamp_millis = λ d. d;
  le = leb_ℤ;
}

pub fromisoformat-isoformat : (d : ℤ) → exact_clock.fromisoformat (exact_clock.isoformat d) ≡ some d
fromisoformat-isoformat d = parse-show d
