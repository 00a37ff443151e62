-- ===== src/Transitions/Examples.antt =====
-- `apply` of transitions.py on one database, and its theorem there.
use favl_agentic_content_os.Prelude.{◌↔◌, ◌≡◌, refl, none, some, [], ◌∷◌, false}
use favl_agentic_content_os.Json.{end}
use favl_agentic_content_os.Lifecycle.State.{ConnectorState, parse, enabled, revoked}
use favl_agentic_content_os.Lifecycle.Lookup.{find, find_states}
use favl_agentic_content_os.Store.Rows.{ConnectorRecord}
use favl_agentic_content_os.Store.Tables.{Db, Clock, get_connector}
use favl_agentic_content_os.Transitions.Apply.{
  Request, reason_required, is_blank, take, on_found, apply, lookup_error,
}
use favl_agentic_content_os.Transitions.Effect.{Taken, Effect, apply-Effect}
use favl_agentic_content_os.Transitions.Commits.{Commits, apply-Commits_iff}

abbrev row : ConnectorState → ConnectorRecord
row s = record {
  id = "c1";
  tenant_id = "acme";
  name = "hook";
  kind = "http";
  base_url = none;
  scopes = [];
  config = end;
  status = s;
  version = 4;
  supports_idempotency = false;
  idempotency_mode = "unsupported";
  deletion_requested_at = none;
  deleted_at = none;
  deleted_by = none;
  revoked_at = none;
  archived_at = none;
  credentials_rotated_at = none;
  state_reason = none;
  created_at = 10;
}

abbrev db : Db
db = record { connectors = row enabled ∷ []; audit = []; invocations = []; outbox = [] }

abbrev clock : Clock
clock = record { now = 20; row_id = "r"; audit_id = "a"; event_id = "e" }

abbrev request : Request
request = record {
  connector_id = "c1";
  target = revoked;
  event = some "connector.revoked";
  actor_id = "ann";
  tenant_id = "acme";
  reason = some " leaked ";
  idempotency_key = none;
}

no_reason :
    apply db (record request { reason = some "  " }) clock
    ≡ (db, reason_required "connector.revoked")
unfolding apply get_connector find find_states parse on_found take is_blank
no_reason = refl

wrong_tenant : apply db (record request { tenant_id = "other" }) clock ≡ (db, lookup_error)
unfolding apply get_connector
wrong_tenant = refl

apply-Effect_example : Effect db request (apply db request clock)
apply-Effect_example = apply-Effect db request clock

apply-Commits_iff_example : Commits db request clock ↔ Taken db request
apply-Commits_iff_example = apply-Commits_iff db request clock
