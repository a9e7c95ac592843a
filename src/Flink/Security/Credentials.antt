-- ===== src/Flink/Security/Credentials.antt =====
-- The credentials are read back from the settings as they were.
use Prim.Native.Char.{char, code}
use Prim.Native.String.{◌++◌}
use Prim.Native.String.append.{cons, nil}
use radiation_tracking.Prelude.{
  ◌≡◌, refl, eq_iff, String, true, false, ◌||◌, Option, none, some, List, [], ◌∷◌, ◌==◌, str_eq,
  if◌then◌else◌, Bool-cases, inl, inr, arith,
}
use radiation_tracking.Python.Text.{strip}
use radiation_tracking.Flink.Security.{
  escape_jaas, login_module, jaas_config, mechanism_of, env_get, contains_text, starts_with,
  kafka_security_properties, sasl_properties,
}
use radiation_tracking.Flink.Security.Jaas.{read_from, single_line, read_from-escape_jaas}

-- What follows the first text in the second, which begins with it.
abbrev pub drop_prefix : String → String → Option String
drop_prefix String.[] s = some s
drop_prefix (String.◌∷◌ c start) String.[] = none
drop_prefix (String.◌∷◌ c start) (String.◌∷◌ d s) =
    let rest = drop_prefix start s in if code c == code d then rest else none

drop_prefix-append : (start s : String) → drop_prefix start (start ++ s) ≡ some s
drop_prefix-append String.[] s = rw (nil s) refl
drop_prefix-append (String.◌∷◌ c start) s =
    rw (cons c start s, drop_prefix-append start s) (ground arith)

infixl 5 ◌>>=◌
abbrev pub ◌>>=◌ {ℓ κ} : {A : Type ℓ} {B : Type κ} → Option A → (A → Option B) → Option B
none >>= f = none
some a >>= f = f a

-- The credentials of a JAAS configuration of a login module.
abbrev pub read_config : String → String → Option (String × String)
read_config login text = do
  text ← drop_prefix login text
  text ← drop_prefix " required username=\"" text
  (username, text) ← read_from false text
  text ← drop_prefix " password=\"" text
  (password, text) ← read_from false text
  if str_eq text ";" then some (username, password) else none

read_config-jaas_config :
    (upper : String → String) (mechanism username password : String)
    → single_line username ≡ true
    → single_line password ≡ true
    → read_config (login_module upper mechanism) (jaas_config upper mechanism username password)
      ≡ some (username, password)
unfolding jaas_config
read_config-jaas_config upper mechanism username password hu hp =
    let config_end : String = escape_jaas password ++ "\";" in
    let tail_of : String = " password=\"" ++ config_end in
    rw
      (
        drop_prefix-append (login_module upper mechanism),
        drop_prefix-append " required username=\"",
        cons (char 34 tt) " password=\"" config_end,
        read_from-escape_jaas username tail_of hu,
        drop_prefix-append " password=\"",
        read_from-escape_jaas password ";" hp,
      )
      refl

abbrev pub property_of : String → List (String × String) → Option String
property_of name [] = none
property_of name ((k, v) ∷ properties) =
    if str_eq k name then some v else property_of name properties

sasl_differs :
    (s t : String)
    → contains_text "SASL" s ≡ true
    → contains_text "SASL" t ≡ false
    → str_eq s t ≡ false
sasl_differs s t h n = elim (Bool-cases (str_eq s t)) [
  | inl e ↦
      let same : s ≡ t = ground (arith, eq_iff s t, e) in
      let h : contains_text "SASL" t ≡ true = rw same at h in ground (arith, h, n)
  | inr e ↦ e
]

module _ (upper : String → String) where
  sasl_is_set :
      (protocol : String)
      → upper "" ≡ ""
      → contains_text "SASL" (upper protocol) ≡ true
      → (str_eq protocol "" || str_eq (upper protocol) "PLAINTEXT") ≡ false
  unfolding contains_text starts_with
  sasl_is_set protocol h e =
      let plaintext = sasl_differs (upper protocol) "PLAINTEXT" e refl in
      elim (Bool-cases (str_eq protocol "")) [
        | inl f ↦
            let blank : protocol ≡ "" = ground (arith, eq_iff protocol "", f) in
            let e : contains_text "SASL" "" ≡ true = rw (blank, h) at e in ground (arith, e)
        | inr f ↦ rw (f, plaintext) refl
      ]

  -- Where the upper case of no text is no text: the JAAS setting is there exactly with a SASL protocol,
  -- and then a reader of quoted fields gets the user name and the password back as the environment
  -- has them, whatever quotes and backslashes they hold, if they have no line break.
  pub kafka_security_properties-read_config :
      (env : String → Option String)
      → upper "" ≡ ""
      → single_line (env_get env "KAFKA_SASL_USERNAME" "") ≡ true
      → single_line (env_get env "KAFKA_SASL_PASSWORD" "") ≡ true
      → (property_of "sasl.jaas.config" (kafka_security_properties upper env)
          >>= read_config (login_module upper (mechanism_of env)))
        ≡ (if contains_text "SASL" (upper (strip (env_get env "KAFKA_SECURITY_PROTOCOL" "")))
            then some (env_get env "KAFKA_SASL_USERNAME" "", env_get env "KAFKA_SASL_PASSWORD" "")
            else none)
  unfolding kafka_security_properties sasl_properties
  kafka_security_properties-read_config env h hu hp =
      let protocol : String = strip (env_get env "KAFKA_SECURITY_PROTOCOL" "") in
      elim (Bool-cases (contains_text "SASL" (upper protocol))) [
        | inl e ↦
            rw (e, sasl_is_set protocol h e)
              (read_config-jaas_config upper (mechanism_of env)
                (env_get env "KAFKA_SASL_USERNAME" "") (env_get env "KAFKA_SASL_PASSWORD" "") hu hp)
        | inr e ↦
            rw e (elim (Bool-cases (str_eq protocol "" || str_eq (upper protocol) "PLAINTEXT")) [
              | inl f ↦ rw f refl
              | inr f ↦ rw f refl
            ])
      ]
