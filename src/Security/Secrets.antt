-- ===== src/Security/Secrets.antt =====
-- services/connector-registry/app/security/secrets.py: references, who may read them, and the names of
-- their environment variables. Texts are lists of code points.
pub mod Ownership
pub mod Parsing
use favl_agentic_content_os.Prelude.{
  ℕ, ◌==◌, String, str_eq, append, cut, Bool, true, false, not, ◌&&◌, ◌||◌, Option, none, some,
  List, [], ◌∷◌, ◌++◌, map, any, every, leb, length, if◌then◌else◌,
}
use favl_agentic_content_os.Prelude.Text.{
  Text, codes, is_upper, is_lower, is_digit, upper_char, text_eq, starts_with,
}

abbrev pub legacy_prefixes : List String
legacy_prefixes = "env:" ∷ "vault:" ∷ "gsm:" ∷ "asm:" ∷ []

-- The two scopes of the regular expression.
pub data Scope : Type 0 where
  connector tenant : Scope

pub record SecretRef : Type 0 where
  pub scope : Scope
  pub owner : Text
  pub key : Text

abbrev pub scope_text : Scope → Text
scope_text connector = codes "connector"
scope_text tenant = codes "tenant"

-- `as_text`
unfoldable pub as_text : SecretRef → Text
as_text r = codes "secret://" ++ (scope_text r.scope ++ (b'/' ∷ (r.owner ++ (b'/' ∷ r.key))))

-- `env_name`: what is no letter or digit is `_`, and letters are in upper case.
abbrev pub safe_char : ℕ → ℕ
safe_char c = if is_upper c || (is_lower c || is_digit c) then upper_char c else b'_'

unfoldable pub env_name : SecretRef → Text
env_name r =
    codes "FAVL_SECRET_"
    ++ map safe_char (scope_text r.scope ++ (b'_' ∷ (r.owner ++ (b'_' ∷ r.key))))

-- `[A-Za-z0-9._-]{1,128}`
abbrev pub is_word_char : ℕ → Bool
is_word_char c =
    is_upper c || (is_lower c || (is_digit c || (c == b'.' || (c == b'_' || c == b'-'))))

abbrev pub is_word : Text → Bool
is_word s = every is_word_char s && (leb 1 (length s) && leb (length s) 128)

-- The text before the first `/`, and after it: no word has one.
abbrev pub before_slash : Text → Text → Option (Text × Text)
before_slash head [] = none
before_slash head (c ∷ s) =
    let rest = before_slash (head ++ c ∷ []) s in if c == b'/' then some (head, s) else rest

abbrev pub split_slash : Text → Option (Text × Text)
split_slash s = before_slash [] s

-- `$` also matches before a line break at the end.
abbrev pub chomp : Text → Text
chomp [] = []
chomp (c ∷ []) = if c == 10 then [] else c ∷ []
chomp (c ∷ d ∷ s) = c ∷ chomp (d ∷ s)

abbrev scope_of : Text → Option Scope
scope_of s =
    if text_eq s (codes "connector")
    then some connector
    else if text_eq s (codes "tenant")
    then some tenant
    else none

-- SecretNotPermitted, for which of its causes.
pub data Refused : Type 0 where
  legacy malformed other_connector other_tenant : Refused

pub data Permission : Type 0 where
  permitted : SecretRef → Permission
  refused : Refused → Permission

abbrev pub match_words : Scope → Option (Text × Text) → Permission
match_words scope none = refused malformed
match_words scope (some (owner, key)) =
    if is_word owner && is_word (chomp key)
    then permitted (record { scope = scope; owner = owner; key = chomp key })
    else refused malformed

abbrev match_scope : Option Scope → Text → Permission
match_scope none rest = refused malformed
match_scope (some scope) rest = match_words scope (split_slash rest)

abbrev match_parts : Option (Text × Text) → Permission
match_parts none = refused malformed
match_parts (some (scope, rest)) = match_scope (scope_of scope) rest

-- `REFERENCE.match(value)`
abbrev drop : Text → Text → Text
drop [] s = s
drop (d ∷ p) [] = []
drop (d ∷ p) (c ∷ s) = drop p s

abbrev match_reference : Text → Permission
match_reference value =
    if starts_with value (codes "secret://")
    then match_parts (split_slash (drop (codes "secret://") value))
    else refused malformed

unfoldable pub parse_reference : Text → Permission
parse_reference value =
    if any (λ p. starts_with value (codes p)) legacy_prefixes
    then refused legacy
    else match_reference value

abbrev pub check_owner : Text → Text → Permission → Permission
check_owner owner own_tenant (refused why) = refused why
check_owner owner own_tenant (permitted r) = elim r.scope [
  | connector ↦ if text_eq r.owner owner then permitted r else refused other_connector
  | tenant ↦ if text_eq r.owner own_tenant then permitted r else refused other_tenant
]

-- `check_addressable`
unfoldable pub check_addressable : Text → Text → Text → Permission
check_addressable value owner own_tenant = check_owner owner own_tenant (parse_reference value)

-- `is_secret_reference`, of a text.
unfoldable pub is_secret_reference : Text → Bool
is_secret_reference value =
    starts_with value (codes "secret://") || any (λ p. starts_with value (codes p)) legacy_prefixes

-- `EnvSecretResolver.resolve`: the value, SecretNotFound, or SecretNotPermitted.
pub data Resolved : Type 0 where
  secret : String → Resolved
  not_found : Resolved
  not_permitted : Refused → Resolved

abbrev pub read_variable : Option String → Resolved
read_variable none = not_found
read_variable (some value) = secret value

abbrev pub after_check : (Text → Option String) → Permission → Resolved
after_check environ (refused why) = not_permitted why
after_check environ (permitted r) = read_variable (environ (env_name r))

unfoldable pub resolve : (Text → Option String) → Text → Text → Text → Resolved
resolve environ reference owner own_tenant =
    after_check environ (check_addressable reference owner own_tenant)

-- `redact`, of a text and the number of characters kept.
unfoldable pub redact : String → ℕ → String
redact value keep =
    if str_eq value "" then "" else if keep == 0 then "***" else append (cut keep value) "***"
