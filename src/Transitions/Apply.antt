-- ===== src/Transitions/Apply.antt =====
-- `apply` and `audit_trail` of transitions.py.
use favl_agentic_content_os.Prelude.{
  ℕ, ◌+◌, String, str_eq, Bool, true, ◌&&◌, ◌||◌, ◌==◌, leb, Option, none, some, List, [], ◌∷◌,
  ◌++◌, any, every, select, sort_by, if◌then◌else◌,
}
use favl_agentic_content_os.Prelude.Text.{codes}
use favl_agentic_content_os.Json.{str, str_or_null, dict}
use favl_agentic_content_os.Lifecycle.State.{
  ConnectorState, revoked, archived, deletion_requested, value,
}
use favl_agentic_content_os.Lifecycle.Table.{Transition}
use favl_agentic_content_os.Lifecycle.Lookup.{
  Found, found, refused, Refusal, find, permitted_targets, idempotent_repeat,
}
use favl_agentic_content_os.Store.Rows.{
  ConnectorRecord, ConnectorAuditRecord, current_schema_version,
}
use favl_agentic_content_os.Store.Tables.{
  Db, Clock, NewEvent, get_connector, put_connector, enqueue,
}

-- `TransitionResult`, the exceptions that `apply` raises, and the IntegrityError of its flush.
pub data Outcome : Type 0 where
  applied : ConnectorRecord → String → Outcome
  repeated : ConnectorRecord → String → Outcome
  lookup_error : Outcome
  transition_rejected : Refusal → String → List String → Outcome
  reason_required : String → Outcome
  version_taken : Outcome

pub record Request : Type 0 where
  pub connector_id : String
  pub target : ConnectorState
  pub event : Option String
  pub actor_id : String
  pub tenant_id : String
  pub reason : Option String
  pub idempotency_key : Option String

-- `c.isspace()`
abbrev pub is_space : ℕ → Bool
is_space c =
    (leb 9 c && leb c 13)
    || ((leb 28 c && leb c 32)
        || (c == 0x85
            || (c == 0xa0
                || (c == 0x1680
                    || ((leb 0x2000 c && leb c 0x200a)
                        || ((leb 0x2028 c && leb c 0x2029)
                            || (c == 0x202f || (c == 0x205f || c == 0x3000))))))))

-- `not (reason or "").strip()`
unfoldable pub is_blank : Option String → Bool
is_blank none = true
is_blank (some s) = every is_space (codes s)

-- `TIMESTAMP_COLUMN`, and the stamp of a credential rotation.
abbrev pub stamp : ConnectorState → ℕ → ConnectorRecord → ConnectorRecord
stamp revoked now r = record r { revoked_at = some now }
stamp archived now r = record r { archived_at = some now }
stamp deletion_requested now r = record r { deletion_requested_at = some now }
stamp _ now r = r

abbrev pub stamp_rotation : String → ℕ → ConnectorRecord → ConnectorRecord
stamp_rotation event now r = record r {
  credentials_rotated_at =
      if str_eq event "connector.credentials_rotated" then some now else r.credentials_rotated_at;
}

unfoldable pub moved : Request → Clock → Transition → ConnectorRecord → ConnectorRecord
moved q k t r = stamp_rotation t.event k.now (
    stamp q.target k.now
      (record r { status = q.target; version = r.version + 1; state_reason = q.reason }))

abbrev pub audit_row :
    Request → Clock → Transition → ConnectorRecord → ConnectorRecord → ConnectorAuditRecord
audit_row q k t before after = record {
  id = k.audit_id;
  connector_id = after.id;
  tenant_id = q.tenant_id;
  from_state = value before.status;
  to_state = value after.status;
  event = t.event;
  actor_id = q.actor_id;
  reason = q.reason;
  aggregate_version = after.version;
  idempotency_key = q.idempotency_key;
  recorded_at = k.now;
}

abbrev pub transition_event : Request → Transition → ConnectorRecord → ConnectorRecord → NewEvent
transition_event q t before after = record {
  subject = t.event;
  payload = dict (
      ("connector_id", str after.id)
      ∷ ("name", str after.name)
      ∷ ("tenant_id", str q.tenant_id)
      ∷ ("from_state", str (value before.status))
      ∷ ("to_state", str (value after.status))
      ∷ ("actor_id", str q.actor_id)
      ∷ ("reason", str_or_null q.reason)
      ∷ []);
  aggregate_type = "connector";
  aggregate_id = some after.id;
  aggregate_version = after.version;
  schema_version = current_schema_version;
  max_attempts = none;
}

-- uq_connector_audit_version
abbrev pub version_audited : String → ℕ → List ConnectorAuditRecord → Bool
version_audited id version rows =
    any (λ b. str_eq b.connector_id id && b.aggregate_version == version) rows

-- The row, the audit record and the event, committed together.
unfoldable pub commit : Db → Request → Clock → Transition → ConnectorRecord → Db × Outcome
commit db q k t r =
    let after = moved q k t r in
    if version_audited r.id (r.version + 1) db.audit then (db, version_taken) else (
      record db {
        connectors = put_connector after db.connectors;
        audit = db.audit ++ audit_row q k t r after ∷ [];
        outbox = enqueue k.event_id k.now (transition_event q t r after) db.outbox;
      },
      applied after t.event,
    )

-- The reason check, once a transition is found.
unfoldable pub take : Db → Request → Clock → Transition → ConnectorRecord → Db × Outcome
take db q k t r =
    if t.requires_reason && is_blank q.reason
    then (db, reason_required t.event)
    else commit db q k t r

-- The handler of a TransitionError.
unfoldable pub no_edge : Db → ConnectorRecord → Refusal → Option Transition → Db × Outcome
no_edge db r why (some t) = (db, repeated r t.event)
no_edge db r why none =
    (db, transition_rejected why (value r.status) (permitted_targets (value r.status)))

unfoldable pub on_found : Db → Request → Clock → ConnectorRecord → Found → Db × Outcome
on_found db q k r (found t) = take db q k t r
on_found db q k r (refused why) =
    no_edge db r why (idempotent_repeat (value r.status) (value q.target))

unfoldable pub on_record : Db → Request → Clock → Option ConnectorRecord → Db × Outcome
on_record db q k none = (db, lookup_error)
on_record db q k (some r) =
    if str_eq r.tenant_id q.tenant_id
    then on_found db q k r (find (value r.status) (value q.target) q.event)
    else (db, lookup_error)

unfoldable pub apply : Db → Request → Clock → Db × Outcome
unfolding on_record
apply db q k = on_record db q k (get_connector q.connector_id db.connectors)

-- The rows of a connector's trail, oldest version first.
unfoldable pub audit_trail : Db → String → String → List ConnectorAuditRecord
unfolding sort_by
audit_trail db connector_id tenant_id =
    sort_by (λ a. a.aggregate_version)
      (select (λ a. str_eq a.connector_id connector_id && str_eq a.tenant_id tenant_id) db.audit)
