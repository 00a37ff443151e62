-- ===== src/Security/Redaction/Examples.antt =====
-- Tests of redaction.py, and its theorems at concrete inputs.
use favl_agentic_content_os.Prelude.{◌≡◌, refl, false, inr}
use favl_agentic_content_os.Json.{Fields, str, obj, arr, nil, cons, end, field}
use favl_agentic_content_os.Security.Redaction.{
  redacted, is_sensitive, is_structural, is_headers, has_reference_prefix, redact_value,
  redact_headers, redact_config,
}
use favl_agentic_content_os.Security.Redaction.Secrecy.{
  SameFields, done, more, same, hidden, headers, object, array, none_left, next,
  redact_config-secrecy,
}

-- One text for the password of a profile, one for a header.
abbrev config_with : Fields → Fields → Fields
config_with profile hs = field "base_url" (str "https://example.com") (
    field "profiles" (arr (cons (obj profile) nil))
      (field "Headers" (obj hs) (field "signing_secret_ref" (str "secret://tenant/a/k") end)))

abbrev first_config : Fields
first_config = config_with (field "password" (str "one") end) (field "X-Telemetry" (str "t1") end)

abbrev second_config : Fields
second_config = config_with (field "password" (str "two") end) (field "X-Telemetry" (str "t2") end)

redact_first :
    redact_config first_config false
    ≡ config_with (field "password" redacted end) (field "X-Telemetry" redacted end)
unfolding redact_config redact_value redact_headers is_sensitive is_structural is_headers
    has_reference_prefix
redact_first = refl

SameFields-configs : SameFields false first_config second_config
unfolding is_sensitive is_structural is_headers has_reference_prefix
SameFields-configs = more "base_url" false (same _ _ _) (
    more "profiles" false
      (array "profiles" false _ _ (
        next _ _
          (object _ _ _ _ refl (more "password" _ (hidden _ _ "one" "two" refl refl refl) (done _)))
          (none_left _ _)))
      (more "Headers" false (headers "Headers" false _ _ refl (refl, inr (refl, refl), tt))
        (more "signing_secret_ref" false (same _ _ _) (done false))))

redact_config-secrecy_example : redact_config first_config false ≡ redact_config second_config false
redact_config-secrecy_example =
    redact_config-secrecy false first_config second_config SameFields-configs
