-- ===== src/Security/Redaction.antt =====
-- services/connector-registry/app/security/redaction.py. The keys are ASCII; the regular
-- expressions ignore case, so they are searched in the lower-case key.
pub mod Laws
pub mod Secrecy
mod Examples
use favl_agentic_content_os.Prelude.{
  ℕ, String, str_eq, Bool, true, false, not, ◌&&◌, ◌||◌, List, [], ◌∷◌, any, if◌then◌else◌,
}
use favl_agentic_content_os.Prelude.Text.{Text, codes, lower, text_eq, starts_with, contains}
use favl_agentic_content_os.Json.{
  Value, Items, Fields, null, bool, int, real, str, arr, obj, nil, cons, end, field,
}

abbrev pub redacted : Value
redacted = str "[redacted]"

-- The alternatives of SENSITIVE_KEY, with each optional `[_-]?` written out.
abbrev sensitive_words : List String
sensitive_words =
    "secret" ∷ "token" ∷ "password" ∷ "passwd" ∷ "credential" ∷ "apikey" ∷ "api_key" ∷ "api-key"
    ∷ "privatekey" ∷ "private_key" ∷ "private-key" ∷ "authorization" ∷ "auth" ∷ "bearer"
    ∷ "signature" ∷ "salt" ∷ "session" ∷ []

-- `SENSITIVE_KEY.search(key)`
unfoldable pub is_sensitive : String → Bool
is_sensitive key = any (λ w. contains (lower (codes key)) (codes w)) sensitive_words

abbrev structural_keys : List String
structural_keys =
    "base_url" ∷ "target_url" ∷ "health_url" ∷ "allowed_hosts" ∷ "allowed_schemes"
    ∷ "allowed_content_types" ∷ "service" ∷ "operation" ∷ "method" ∷ "health_method" ∷ "path"
    ∷ "kind" ∷ "max_redirects" ∷ "max_response_bytes" ∷ "connect_timeout" ∷ "read_timeout"
    ∷ "timeout_seconds" ∷ "idempotency_header" ∷ "signing_secret_ref" ∷ []

abbrev is_text : String → String → Bool
is_text key w = text_eq (lower (codes key)) (codes w)

-- `key.lower() in STRUCTURAL_KEYS`
unfoldable pub is_structural : String → Bool
is_structural key = any (is_text key) structural_keys

-- `key.lower() == "headers"`
unfoldable pub is_headers : String → Bool
is_headers key = is_text key "headers"

-- `value.startswith(REFERENCE_PREFIXES)`
unfoldable pub has_reference_prefix : String → Bool
has_reference_prefix s = starts_with (codes s) (codes "secret://")

abbrev pub is_reference : Value → Bool
is_reference (str s) = has_reference_prefix s
is_reference _ = false

-- The tests of `redact_value` that follow the one on the parent and on the key.
abbrev pub unless_text : String → Value → Value
unless_text key (str s) = if is_structural key then str s else redacted
unless_text key value = value

unfoldable pub redact_value : String → Value → Bool → Value
redact_value key value parent_sensitive =
    if is_reference value
    then value
    else if parent_sensitive || is_sensitive key
    then redacted
    else unless_text key value

unfoldable pub redact_headers : Fields → Fields
redact_headers end = end
redact_headers (field header value rest) =
    field header (if is_reference value then value else redacted) (redact_headers rest)

-- `_redact_any`, its list comprehension, and `redact_config`.
unfoldable mutual
  pub redact_any : String → Value → Bool → Value
  redact_any key (obj fs) parent_sensitive =
      let inner = redact_config fs (parent_sensitive || is_sensitive key) in
      if is_headers key then obj (redact_headers fs) else obj inner
  redact_any key (arr vs) parent_sensitive =
      arr (redact_items key vs (parent_sensitive || is_sensitive key))
  redact_any key null parent_sensitive =
      redact_value key null (parent_sensitive || is_sensitive key)
  redact_any key (bool b) parent_sensitive =
      redact_value key (bool b) (parent_sensitive || is_sensitive key)
  redact_any key (int n) parent_sensitive =
      redact_value key (int n) (parent_sensitive || is_sensitive key)
  redact_any key (real n) parent_sensitive =
      redact_value key (real n) (parent_sensitive || is_sensitive key)
  redact_any key (str s) parent_sensitive =
      redact_value key (str s) (parent_sensitive || is_sensitive key)

  pub redact_items : String → Items → Bool → Items
  redact_items key nil sensitive = nil
  redact_items key (cons v vs) sensitive =
      cons (redact_any key v sensitive) (redact_items key vs sensitive)

  pub redact_config : Fields → Bool → Fields
  redact_config end parent_sensitive = end
  redact_config (field key value rest) parent_sensitive =
      field key (redact_any key value parent_sensitive) (redact_config rest parent_sensitive)
