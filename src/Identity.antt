-- ===== src/Identity.antt =====
-- services/connector-registry/app/identity.py and its copy services/orchestrator/app/identity.py: who
-- calls, by the claims that the gateway verified.
pub mod Verified
mod Examples
use Prim.Native.Char.{Char}
use favl_agentic_content_os.Prelude.{
  ℕ, zero, suc, ◌-◌, ◌%◌, String, str_eq, append, Bool, true, false, not, Option, none, some, List,
  [], ◌∷◌, any, length, if◌then◌else◌,
}
use favl_agentic_content_os.Prelude.Text.{Text, codes, lower, text_eq}
use favl_agentic_content_os.Json.{Fields, Value, obj, str, end, get, is_truthy}

pub record CallerIdentity : Type 0 where
  pub actor_id : String
  pub tenant_id : String
  pub verified : Bool

-- What the module reads of the environment, a missing variable being its default.
pub record Settings : Type 0 where
  pub default_tenant_id : String
  pub tenant_claim : String
  pub allow_anonymous_identity : String

-- The standard library: the bytes of a base64 text or an error, the value of a JSON document in
-- bytes or an error, the bytes of a text, and `str` of a value that is no text.
pub record Codec : Type 1 where
  pub Bytes : Type 0
  pub b64decode : String → Option Bytes
  pub loads : Bytes → Option Value
  pub encode : String → Bytes
  pub show : Value → String

-- `ALLOW_ANONYMOUS`
abbrev pub allows_anonymous : Settings → Bool
allows_anonymous s =
    any (text_eq (lower (codes s.allow_anonymous_identity)))
      (codes "1" ∷ codes "true" ∷ codes "yes" ∷ [])

-- `"=" * n`
abbrev pub equals_signs : ℕ → String
equals_signs zero = ""
equals_signs (suc n) = append "=" (equals_signs n)

-- `-n % 4`, which is never negative.
abbrev pub padding : ℕ → ℕ
padding n = (4 - n % 4) % 4

abbrev pub padded : String → String
padded raw = append raw (equals_signs (padding (length (codes raw))))

abbrev pub decoded : (c : Codec) → String → c.Bytes
decoded c raw = elim (c.b64decode (padded raw)) [ none ↦ c.encode raw | some b ↦ b ]

-- `claims if isinstance(claims, dict) else {}`, and `{}` for a document that is none.
abbrev pub as_claims : Option Value → Fields
as_claims (some (obj claims)) = claims
as_claims _ = end

-- `_decode_userinfo`
unfoldable pub decode_userinfo : Codec → String → Fields
decode_userinfo c raw = as_claims (c.loads (decoded c raw))

-- A claim that counts: neither missing nor false.
abbrev pub if_truthy : Option Value → Option Value
if_truthy none = none
if_truthy (some v) = if is_truthy v then some v else none

-- `a or b`
abbrev pub or_claim : Option Value → Option Value → Option Value
or_claim none b = b
or_claim (some a) b = some a

unfoldable pub subject_of : Fields → Option Value
subject_of claims =
    or_claim (if_truthy (get "sub" claims)) (if_truthy (get "preferred_username" claims))

-- `str(value)`
abbrev pub text_of : Codec → Value → String
text_of c (str s) = s
text_of c v = c.show v

abbrev pub identity_of : Codec → Option Value → Option Value → Option CallerIdentity
identity_of c none tenant = none
identity_of c (some subject) none = none
identity_of c (some subject) (some tenant) =
    some (record { actor_id = text_of c subject; tenant_id = text_of c tenant; verified = true })

unfoldable pub identity_from_userinfo : Codec → Settings → Option String → Option CallerIdentity
identity_from_userinfo c s none = none
identity_from_userinfo c s (some raw) =
    let claims = decode_userinfo c raw in
    if str_eq raw ""
    then none
    else identity_of c (subject_of claims) (if_truthy (get s.tenant_claim claims))

abbrev pub anonymous : Settings → CallerIdentity
anonymous s = record { actor_id = "anonymous"; tenant_id = s.default_tenant_id; verified = false }

abbrev pub or_anonymous : Settings → Option CallerIdentity → Option CallerIdentity
or_anonymous s (some i) = some i
or_anonymous s none = if allows_anonymous s then some (anonymous s) else none

-- `current_identity`, with `none` for the 401 IDENTITY_UNVERIFIED.
unfoldable pub current_identity : Codec → Settings → Option String → Option CallerIdentity
current_identity c s header = or_anonymous s (identity_from_userinfo c s header)

abbrev tenant_of : Option CallerIdentity → Option String
tenant_of none = none
tenant_of (some i) = some i.tenant_id

abbrev actor_of : Option CallerIdentity → Option String
actor_of none = none
actor_of (some i) = some i.actor_id

unfoldable pub current_tenant : Codec → Settings → Option String → Option String
current_tenant c s header = tenant_of (current_identity c s header)

unfoldable pub current_actor : Codec → Settings → Option String → Option String
current_actor c s header = actor_of (current_identity c s header)
