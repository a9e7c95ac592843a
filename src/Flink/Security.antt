-- ===== src/Flink/Security.antt =====
-- flink-jobs/operators/kafka_config.py: the security settings of the Kafka clients of the job.
-- `str.upper` is a parameter.
pub mod Jaas
pub mod Credentials
mod Tests
use Prim.Native.Char.{code}
use Prim.Native.String.{◌++◌}
use radiation_tracking.Prelude.{
  ℕ, String, Bool, true, false, ◌&&◌, ◌||◌, Option, none, some, List, [], ◌∷◌, ◌==◌, str_eq,
  if◌then◌else◌,
}
use radiation_tracking.Python.Text.{strip}

-- `text.replace(c, by)` of the character with the given code.
unfoldable pub replace_char : ℕ → String → String → String
replace_char c by String.[] = ""
replace_char c by (String.◌∷◌ d s) =
    let rest = replace_char c by s in if code d == c then by ++ rest else String.◌∷◌ d rest

-- `text.startswith(start)`
unfoldable pub starts_with : String → String → Bool
starts_with String.[] s = true
starts_with (String.◌∷◌ c start) String.[] = false
starts_with (String.◌∷◌ c start) (String.◌∷◌ d s) = code c == code d && starts_with start s

-- `part in text`
unfoldable pub contains_text : String → String → Bool
unfolding starts_with
contains_text part String.[] = starts_with part ""
contains_text part (String.◌∷◌ c s) = starts_with part (String.◌∷◌ c s) || contains_text part s

-- The backslashes first, then the quotes.
unfoldable pub escape_jaas : String → String
unfolding replace_char
escape_jaas value = replace_char 34 "\\\"" (replace_char 92 "\\\\" value)

-- `env.get(name, default)`
abbrev pub env_get : (String → Option String) → String → String → String
env_get env name default = elim (env name) [ none ↦ default | some text ↦ text ]

-- `env.get("KAFKA_SASL_MECHANISM", "PLAIN").strip() or "PLAIN"`
unfoldable pub mechanism_of : (String → Option String) → String
mechanism_of env =
    let mechanism = strip (env_get env "KAFKA_SASL_MECHANISM" "PLAIN") in
    if str_eq mechanism "" then "PLAIN" else mechanism

module _ (upper : String → String) where
  unfoldable pub login_module : String → String
  unfolding starts_with
  login_module mechanism =
      if starts_with "SCRAM" (upper mechanism)
      then "org.apache.kafka.common.security.scram.ScramLoginModule"
      else "org.apache.kafka.common.security.plain.PlainLoginModule"

  unfoldable pub jaas_config : String → String → String → String
  unfolding login_module escape_jaas
  jaas_config mechanism username password =
      login_module mechanism
      ++ (" required username=\""
          ++ (escape_jaas username ++ ("\" password=\"" ++ (escape_jaas password ++ "\";"))))

  unfoldable pub sasl_properties : (String → Option String) → List (String × String)
  unfolding mechanism_of jaas_config
  sasl_properties env =
      ("sasl.mechanism", mechanism_of env)
      ∷ (
        "sasl.jaas.config",
        jaas_config (mechanism_of env) (env_get env "KAFKA_SASL_USERNAME" "")
            (env_get env "KAFKA_SASL_PASSWORD" ""),
      )
      ∷ []

  unfoldable pub kafka_security_properties : (String → Option String) → List (String × String)
  unfolding contains_text sasl_properties
  kafka_security_properties env =
      let protocol = strip (env_get env "KAFKA_SECURITY_PROTOCOL" "") in
      let sasl = if contains_text "SASL" (upper protocol) then sasl_properties env else [] in
      if str_eq protocol "" || str_eq (upper protocol) "PLAINTEXT"
      then []
      else ("security.protocol", protocol) ∷ sasl

  module _ {B : Type 0} (set_property : B → String → String → B) where
    abbrev pub set_all : List (String × String) → B → B
    set_all [] builder = builder
    set_all ((key, value) ∷ properties) builder =
        set_all properties (set_property builder key value)

    unfoldable pub apply_security : (String → Option String) → B → B
    unfolding kafka_security_properties
    apply_security env builder = set_all (kafka_security_properties env) builder
