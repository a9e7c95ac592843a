-- ===== src/Flink/Security/Tests.antt =====
-- The security settings of concrete environments.
use radiation_tracking.Prelude.{
  String, ◌≡◌, refl, Option, none, some, List, [], ◌∷◌, str_eq, if◌then◌else◌,
}
use radiation_tracking.Python.Text.{strip, lstrip, rstrip, is_space}
use radiation_tracking.Flink.Security.{
  kafka_security_properties, apply_security, login_module, mechanism_of, escape_jaas, contains_text,
  starts_with, sasl_properties, jaas_config, replace_char,
}
use radiation_tracking.Flink.Security.Credentials.{
  property_of, read_config, kafka_security_properties-read_config, ◌>>=◌,
}

-- `str.upper` of the texts below.
abbrev upper : String → String
upper s = if str_eq s "sasl_ssl" then "SASL_SSL" else s

-- A password with a quote and a backslash.
abbrev cloud : String → Option String
cloud name =
    if str_eq name "KAFKA_SECURITY_PROTOCOL"
    then some " sasl_ssl "
    else if str_eq name "KAFKA_SASL_USERNAME"
    then some "key"
    else if str_eq name "KAFKA_SASL_PASSWORD"
    then some "a\"b\\c"
    else none

abbrev local : String → Option String
local name = none

escapes : escape_jaas "a\"b\\c" ≡ "a\\\"b\\\\c"
unfolding escape_jaas replace_char
escapes = refl

nothing_set :
    apply_security upper {B = List (String × String)} (λ b key value. (key, value) ∷ b) local []
    ≡ []
unfolding apply_security kafka_security_properties contains_text starts_with strip lstrip rstrip
    is_space
nothing_set = refl

cloud_settings :
    kafka_security_properties upper cloud
    ≡ ("security.protocol", "sasl_ssl")
      ∷ ("sasl.mechanism", "PLAIN")
      ∷ (
        "sasl.jaas.config",
        "org.apache.kafka.common.security.plain.PlainLoginModule required username=\"key\" password=\"a\\\"b\\\\c\";",
      )
      ∷ []
unfolding kafka_security_properties contains_text starts_with strip lstrip rstrip is_space
    sasl_properties jaas_config login_module escape_jaas replace_char mechanism_of
cloud_settings = refl

kafka_security_properties-read_config_example :
    (property_of "sasl.jaas.config" (kafka_security_properties upper cloud)
      >>= read_config (login_module upper (mechanism_of cloud)))
    ≡ (if contains_text "SASL" (upper (strip " sasl_ssl ")) then some ("key", "a\"b\\c") else none)
kafka_security_properties-read_config_example =
    kafka_security_properties-read_config upper cloud refl refl refl
