-- ===== src/Registry/Schemas.antt =====
-- services/connector-registry/app/schemas.py: the request bodies and their validators, and
-- `_to_schema` of main.py.
use favl_agentic_content_os.Prelude.{
  ℕ, String, str_eq, Bool, true, false, not, ◌&&◌, ◌||◌, Option, none, some, List, [], ◌∷◌, any,
  leb, length,
}
use favl_agentic_content_os.Prelude.Text.{codes}
use favl_agentic_content_os.Json.{
  Fields, Value, Items, end, field, nil, cons, null, str, arr, obj, bool, nat, dict, str_or_null,
}
use favl_agentic_content_os.Lifecycle.State.{ConnectorState, value, member, creatable_states}
use favl_agentic_content_os.Store.Rows.{ConnectorRecord}
use favl_agentic_content_os.Security.Redaction.{redact_config}

pub record ConnectorCreate : Type 0 where
  pub name : String
  pub kind : String
  pub base_url : Option String
  pub scopes : List String
  pub config : Fields
  pub status : ConnectorState

pub record TransitionRequest : Type 0 where
  pub reason : Option String
  pub idempotency_key : Option String

abbrev pub one_of : String → List String → Bool
one_of s texts = any (str_eq s) texts

abbrev pub connector_kinds : List String
connector_kinds = "http" ∷ "mcp" ∷ "webhook" ∷ "internal" ∷ []

abbrev pub forbidden_config_keys : List String
forbidden_config_keys =
    "signing_secret" ∷ "api_key" ∷ "password" ∷ "token" ∷ "client_secret" ∷ "private_key" ∷ []

abbrev pub operator_only_config_keys : List String
operator_only_config_keys =
    "allow_private_addresses" ∷ "allowed_schemes" ∷ "allow_plaintext_acknowledged" ∷ []

-- `bool(keys.intersection(config))`
unfoldable pub has_key_of : List String → Fields → Bool
has_key_of keys end = false
has_key_of keys (field k v rest) = one_of k keys || has_key_of keys rest

abbrev pub within : ℕ → ℕ → String → Bool
within lo hi s = leb lo (length (codes s)) && leb (length (codes s)) hi

-- The model and its validators accept the body.
unfoldable pub is_valid_create : ConnectorCreate → Bool
unfolding has_key_of
is_valid_create p =
    within 2 80 p.name
    && (one_of p.kind connector_kinds
        && (member p.status creatable_states
            && (not (has_key_of forbidden_config_keys p.config)
                && not (has_key_of operator_only_config_keys p.config))))

abbrev at_most : ℕ → Option String → Bool
at_most n none = true
at_most n (some s) = leb (length (codes s)) n

unfoldable pub is_valid_transition : TransitionRequest → Bool
is_valid_transition b = at_most 1024 b.reason && at_most 255 b.idempotency_key

-- `body or TransitionRequest()`
abbrev pub body_or_empty : Option TransitionRequest → TransitionRequest
body_or_empty none = record { reason = none; idempotency_key = none }
body_or_empty (some b) = b

-- The response model `Connector`: it has neither the tenant nor `deleted_by`.
pub record Connector : Type 0 where
  pub id : String
  pub name : String
  pub kind : String
  pub base_url : Option String
  pub scopes : List String
  pub config : Fields
  pub status : ConnectorState
  pub version : ℕ
  pub created_at : ℕ
  pub deletion_requested_at : Option ℕ
  pub deleted_at : Option ℕ
  pub revoked_at : Option ℕ
  pub archived_at : Option ℕ
  pub credentials_rotated_at : Option ℕ
  pub state_reason : Option String
  pub supports_idempotency : Bool
  pub idempotency_mode : String

-- `_to_schema`
unfoldable pub to_schema : ConnectorRecord → Connector
to_schema r = record {
  id = r.id;
  name = r.name;
  kind = r.kind;
  base_url = r.base_url;
  scopes = r.scopes;
  config = redact_config r.config false;
  status = r.status;
  version = r.version;
  created_at = r.created_at;
  deletion_requested_at = r.deletion_requested_at;
  deleted_at = r.deleted_at;
  revoked_at = r.revoked_at;
  archived_at = r.archived_at;
  credentials_rotated_at = r.credentials_rotated_at;
  state_reason = r.state_reason;
  supports_idempotency = r.supports_idempotency;
  idempotency_mode = r.idempotency_mode;
}

abbrev nat_or_null : Option ℕ → Value
nat_or_null none = null
nat_or_null (some n) = nat n

abbrev text_items : List String → Items
text_items [] = nil
text_items (s ∷ ss) = cons (str s) (text_items ss)

-- `connector.model_dump(mode="json")`; a timestamp stays a number here.
unfoldable pub model_dump : Connector → Fields
model_dump c = dict (
    ("id", str c.id)
    ∷ ("name", str c.name)
    ∷ ("kind", str c.kind)
    ∷ ("base_url", str_or_null c.base_url)
    ∷ ("scopes", arr (text_items c.scopes))
    ∷ ("config", obj c.config)
    ∷ ("status", str (value c.status))
    ∷ ("version", nat c.version)
    ∷ ("created_at", nat c.created_at)
    ∷ ("deletion_requested_at", nat_or_null c.deletion_requested_at)
    ∷ ("deleted_at", nat_or_null c.deleted_at)
    ∷ ("revoked_at", nat_or_null c.revoked_at)
    ∷ ("archived_at", nat_or_null c.archived_at)
    ∷ ("credentials_rotated_at", nat_or_null c.credentials_rotated_at)
    ∷ ("state_reason", str_or_null c.state_reason)
    ∷ ("supports_idempotency", bool c.supports_idempotency)
    ∷ ("idempotency_mode", str c.idempotency_mode)
    ∷ [])
