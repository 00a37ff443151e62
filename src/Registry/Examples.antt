-- ===== src/Registry/Examples.antt =====
-- The theorems on the endpoints of main.py, at one database.
use favl_agentic_content_os.Prelude.{
  ◌++◌, String, ◌≤◌, ◌≡◌, refl, Option, none, some, List, [], ◌∷◌, false, true, inl, inr, arith,
  eq_iff, count_up,
}
use favl_agentic_content_os.Json.{end, field, str}
use favl_agentic_content_os.Lifecycle.State.{
  ConnectorState, configured, validated, enabled, disabled, revoked, is_executable, value, parse,
}
use favl_agentic_content_os.Lifecycle.Runs.{is_retired}
use favl_agentic_content_os.Store.Rows.{ConnectorRecord}
use favl_agentic_content_os.Store.Tables.{
  Db, Clock, get_connector, put_connector, connector_versions,
}
use favl_agentic_content_os.Registry.Schemas.{
  ConnectorCreate, TransitionRequest, is_valid_create, is_valid_transition, to_schema,
}
use favl_agentic_content_os.Registry.Handlers.{
  Adapters, CallerIdentity, ValidationResult, no_content, not_found, create_connector,
  insert_connector, add_base_url, conflicts, transition,
}
use favl_agentic_content_os.Registry.Endpoints.{
  Call, create, delete, enable, revoke, archive, step, request_connector_deletion, deletion_row,
}
use favl_agentic_content_os.Registry.Tenancy.{Arrival, run, run-isolation, step-foreign}
use favl_agentic_content_os.Registry.Versions.{IsOrdered, run-IsOrdered}
use favl_agentic_content_os.Outbox.Ordering.{applied}
use favl_agentic_content_os.Outbox.Delivery.{deliver, redeliver, all_delivered}
use favl_agentic_content_os.Registry.Projection.{run-applied}
use favl_agentic_content_os.Transitions.Apply.{apply, on_record, on_found, take, commit, moved}
use favl_agentic_content_os.Lifecycle.Lookup.{find, find_states}
use favl_agentic_content_os.Registry.Retirement.{retired_forever}
use favl_agentic_content_os.Registry.Gaps.{deletion_unaudited}
use favl_agentic_content_os.Registry.Races.{finish_validation}
use favl_agentic_content_os.Registry.Races.Revives.{revived_row, validation_revives}

abbrev row : String → ConnectorState → ConnectorRecord
row tenant s = record {
  id = "c1";
  tenant_id = tenant;
  name = "hook";
  kind = "http";
  base_url = none;
  scopes = [];
  config = end;
  status = s;
  version = 4;
  supports_idempotency = true;
  idempotency_mode = "provider_key";
  deletion_requested_at = none;
  deleted_at = none;
  deleted_by = none;
  revoked_at = none;
  archived_at = none;
  credentials_rotated_at = none;
  state_reason = none;
  created_at = 10;
}

abbrev db : ConnectorState → Db
db s = record { connectors = row "acme" s ∷ []; audit = []; invocations = []; outbox = [] }

abbrev empty : Db
empty = record { connectors = []; audit = []; invocations = []; outbox = [] }

abbrev clock : Clock
clock = record { now = 20; row_id = "c2"; audit_id = "a"; event_id = "e" }

abbrev caller : String → CallerIdentity
caller tenant = record { actor_id = "ann"; tenant_id = tenant; verified = true }

abbrev verdict : ValidationResult
verdict = record {
  valid = false;
  errors = "config.base_url is required" ∷ [];
  supports_idempotency = false;
  idempotency_mode = "unsupported";
}

abbrev adapters : Adapters
adapters = record { kinds = "http" ∷ []; validate_config = λ kind config. verdict }

abbrev arrival : String → Call → Arrival
arrival tenant c = record { caller = caller tenant; clock = clock; call = c }

abbrev body : Option TransitionRequest
body = some (record { reason = some "leaked"; idempotency_key = none })

abbrev calls : List Arrival
calls = arrival "acme" (archive "c1" body) ∷ arrival "other" (delete "c1") ∷ []

read : (s : ConnectorState) → get_connector "c1" (db s).connectors ≡ some (row "acme" s)
unfolding get_connector
read s = refl

retired_forever_example :
    (r' : ConnectorRecord) × (get_connector "c1" (run adapters (db revoked) calls).connectors
      ≡ some r')
    × (is_retired r'.status ≡ true)
    × (4 ≤ r'.version)
    × (is_executable (value r'.status) ≡ false)
retired_forever_example =
    retired_forever adapters (db revoked) calls "c1" (row "acme" revoked) (read revoked) refl

run-isolation_example :
    get_connector "c1" (run adapters (db enabled) (arrival "other" (delete "c1") ∷ [])).connectors
    ≡ some (row "acme" enabled)
run-isolation_example =
    run-isolation adapters (db enabled) (arrival "other" (delete "c1") ∷ []) "c1"
      (row "acme" enabled) (read enabled) (ground (arith, eq_iff "acme" "other"), tt)

step-foreign_example :
    step adapters (db enabled) (caller "other") clock (revoke "c1" body) ≡ (db enabled, not_found)
unfolding is_valid_transition
step-foreign_example =
    step-foreign adapters (db enabled) (caller "other") clock (revoke "c1" body) "c1"
      (inr (row "acme" enabled, read enabled, ground (arith, eq_iff "acme" "other"))) (refl, refl)

IsOrdered-empty : IsOrdered empty
unfolding connector_versions get_connector
IsOrdered-empty = record { at = λ id. refl }

abbrev new_hook : ConnectorCreate
new_hook = record {
  name = "hook";
  kind = "http";
  base_url = some "https://a.example";
  scopes = [];
  config = end;
  status = disabled;
}

abbrev first_calls : List Arrival
first_calls = arrival "acme" (create new_hook) ∷ arrival "acme" (enable "c2" none) ∷ []

run-IsOrdered_example : IsOrdered (run adapters empty first_calls)
run-IsOrdered_example = run-IsOrdered adapters empty first_calls IsOrdered-empty

abbrev accepting : Adapters
accepting = record {
  kinds = "http" ∷ [];
  validate_config = λ kind config. record verdict { valid = true };
}

abbrev new_row : ConnectorRecord
new_row = record (row "acme" enabled) {
  id = "c2";
  base_url = some "https://a.example";
  config = field "base_url" (str "https://a.example") end;
  version = 2;
  supports_idempotency = false;
  idempotency_mode = "unsupported";
  created_at = 20;
}

run-read : get_connector "c2" (run accepting empty first_calls).connectors ≡ some new_row
unfolding run step create_connector is_valid_create insert_connector add_base_url conflicts
    transition is_valid_transition apply on_record on_found find find_states take commit moved
    get_connector put_connector to_schema parse
run-read = refl

run-versions : connector_versions "c2" (run accepting empty first_calls).outbox ≡ 1 ∷ 2 ∷ []
unfolding run step create_connector is_valid_create insert_connector add_base_url conflicts
    transition is_valid_transition apply on_record on_found find find_states take commit moved
    get_connector put_connector to_schema parse connector_versions
run-versions = refl

run-applied_example : applied none (some 1 ∷ some 1 ∷ some 2 ∷ []) ≡ count_up 2
run-applied_example =
    run-applied accepting empty first_calls "c2" new_row (some 1 ∷ some 1 ∷ some 2 ∷ [])
      IsOrdered-empty run-read
      (rw run-versions (deliver 1 (redeliver 1 (inl refl) (deliver 2 all_delivered))))

deletion_unaudited_example :
    let (db', response) = request_connector_deletion (db enabled) (caller "acme") clock "c1" in
    (response ≡ no_content)
    × (get_connector "c1" db'.connectors
        ≡ some (deletion_row (caller "acme") clock (row "acme" enabled)))
    × (db'.audit ≡ [])
deletion_unaudited_example =
    deletion_unaudited (db enabled) (caller "acme") clock "c1" (row "acme" enabled) (read enabled)
      refl refl refl

abbrev passing : ValidationResult
passing = record verdict { valid = true; errors = [] }

abbrev strict : Adapters
strict = record { kinds = "http" ∷ []; validate_config = λ kind config. passing }

abbrev revived : ConnectorRecord
revived =
    revived_row strict (db configured) (caller "acme") (caller "acme") clock clock "c1"
      (row "acme" configured) (read configured) refl refl

validation_revives_example :
    let deletion = request_connector_deletion (db configured) (caller "acme") clock "c1" in
    let db' =
      (finish_validation strict deletion.0 (caller "acme") clock "c1" (row "acme" configured)).0 in
    (get_connector "c1" db'.connectors ≡ some revived)
    × (revived.status ≡ validated)
    × (connector_versions "c1" db'.outbox ≡ [] ++ 5 ∷ 5 ∷ [])
unfolding connector_versions
validation_revives_example =
    validation_revives strict (db configured) (caller "acme") (caller "acme") clock clock "c1"
      (row "acme" configured) (read configured) refl refl refl refl refl refl
