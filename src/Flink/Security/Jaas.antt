-- ===== src/Flink/Security/Jaas.antt =====
-- A quoted field of a JAAS configuration is read back as it was before it was escaped.
use Prim.Native.Char.{Char, char, code, IsScalar}
use Prim.Native.String.{◌++◌}
use Prim.Native.String.append.{cons, nil}
use radiation_tracking.Prelude.{
  ℕ, ◌≡◌, refl, sym, ap, ◌∙◌, subst, String, Bool, true, false, ◌||◌, Option, none, some, ◌==◌,
  if◌then◌else◌, Bool-cases, inl, inr, arith,
}
use radiation_tracking.Flink.Security.{replace_char, escape_jaas}

same_char :
    (m : ℕ) (q : IsScalar m) (unique : (p : IsScalar m) → p ≡ q) (c : Char)
    → code c ≡ m
    → c ≡ char m q
same_char m q unique (char n p) e =
    subst (λ k. (r : IsScalar k) → char k r ≡ char m q) (sym e) (λ r. ap (char m) (unique r)) p

backslash : (c : Char) → code c ≡ 92 → c ≡ char 92 tt
backslash c e = same_char 92 tt (λ p. refl) c e

quote : (c : Char) → code c ≡ 34 → c ≡ char 34 tt
quote c e = same_char 34 tt (λ p. refl) c e

abbrev cons_fst : Char → Option (String × String) → Option (String × String)
cons_fst c none = none
cons_fst c (some (s, rest)) = some (String.◌∷◌ c s, rest)

-- A quoted field of a JAAS configuration, after its first quote: its value and what follows its last
-- quote. A backslash stands before a backslash or a quote, and a line break ends the field too early.
unfoldable pub read_from : Bool → String → Option (String × String)
read_from escaped String.[] = none
read_from false (String.◌∷◌ c s) =
    let plain = cons_fst c (read_from false s) in
    let special = read_from true s in
    if code c == 34
    then some ("", s)
    else if code c == 92
    then special
    else if code c == 10 || code c == 13
    then none
    else plain
read_from true (String.◌∷◌ c s) =
    let plain = cons_fst c (read_from false s) in
    if code c == 34 || code c == 92 then plain else none

-- No line break.
abbrev pub single_line : String → Bool
single_line String.[] = true
single_line (String.◌∷◌ c s) = if code c == 10 || code c == 13 then false else single_line s

two_chars :
    (c d : Char) (t : String) → String.◌∷◌ c (String.◌∷◌ d "") ++ t ≡ String.◌∷◌ c (String.◌∷◌ d t)
two_chars c d t =
    cons c (String.◌∷◌ d "") t ∙ ap (String.◌∷◌ c) (cons d "" t ∙ ap (String.◌∷◌ d) (nil t))

escape_backslash :
    (s : String)
    → escape_jaas (String.◌∷◌ (char 92 tt) s)
      ≡ String.◌∷◌ (char 92 tt) (String.◌∷◌ (char 92 tt) (escape_jaas s))
unfolding escape_jaas replace_char
escape_backslash s = rw (two_chars (char 92 tt) (char 92 tt) (replace_char 92 "\\\\" s)) refl

escape_quote :
    (s : String)
    → escape_jaas (String.◌∷◌ (char 34 tt) s)
      ≡ String.◌∷◌ (char 92 tt) (String.◌∷◌ (char 34 tt) (escape_jaas s))
unfolding escape_jaas replace_char
escape_quote s = two_chars (char 92 tt) (char 34 tt) (escape_jaas s)

escape_plain :
    (c : Char) (s : String)
    → (code c == 34) ≡ false
    → (code c == 92) ≡ false
    → escape_jaas (String.◌∷◌ c s) ≡ String.◌∷◌ c (escape_jaas s)
unfolding escape_jaas replace_char
escape_plain c s e f = rw f (rw e refl)

read_end :
    (rest : String)
    → read_from false (escape_jaas "" ++ String.◌∷◌ (char 34 tt) rest) ≡ some ("", rest)
unfolding read_from escape_jaas replace_char
read_end rest = rw (nil (String.◌∷◌ (char 34 tt) rest)) refl

-- An escaped character, in front of what is read as `s`.
read_escaped :
    (c : Char) (t rest : String)
    → (code c == 34 || code c == 92) ≡ true
    → read_from false (String.◌∷◌ (char 92 tt) (String.◌∷◌ c t) ++ rest)
      ≡ cons_fst c (read_from false (t ++ rest))
unfolding read_from
read_escaped c t rest e = rw (cons (char 92 tt) (String.◌∷◌ c t) rest, cons c t rest, e) refl

read_plain :
    (c : Char) (t rest : String)
    → (code c == 34) ≡ false
    → (code c == 92) ≡ false
    → (code c == 10 || code c == 13) ≡ false
    → read_from false (String.◌∷◌ c t ++ rest) ≡ cons_fst c (read_from false (t ++ rest))
unfolding read_from
read_plain c t rest e f g = rw (cons c t rest, e, f, g) refl

pub read_from-escape_jaas :
    (s rest : String)
    → single_line s ≡ true
    → read_from false (escape_jaas s ++ String.◌∷◌ (char 34 tt) rest) ≡ some (s, rest)
read_from-escape_jaas String.[] rest h = read_end rest
read_from-escape_jaas (String.◌∷◌ c s) rest h =
    let shorter : read_from false (escape_jaas s ++ String.◌∷◌ (char 34 tt) rest) ≡ some (s, rest) =
      read_from-escape_jaas s rest (ground (arith, h)) in
    elim (Bool-cases (code c == 92)) [
      | inl e ↦
          rw
            (
              backslash c (ground (arith, e)),
              escape_backslash s,
              read_escaped (char 92 tt) (escape_jaas s) (String.◌∷◌ (char 34 tt) rest) refl,
              shorter,
            )
            refl
      | inr e ↦ elim (Bool-cases (code c == 34)) [
        | inl f ↦
            rw
              (
                quote c (ground (arith, f)),
                escape_quote s,
                read_escaped (char 34 tt) (escape_jaas s) (String.◌∷◌ (char 34 tt) rest) refl,
                shorter,
              )
              refl
        | inr f ↦
            rw
              (
                escape_plain c s f e,
                read_plain c (escape_jaas s) (String.◌∷◌ (char 34 tt) rest) f e (ground (arith, h)),
                shorter,
              )
              refl
      ]
    ]
