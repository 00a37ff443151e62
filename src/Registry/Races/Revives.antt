-- ===== src/Registry/Races/Revives.antt =====
-- A deletion between the first read of a validation and its commit.
use mathlib.Core.List.{append_assoc}
use favl_agentic_content_os.Prelude.{
  ◌+◌, ◌≡◌, refl, ◌∙◌, ap, String, eq_iff, true, false, some, [], ◌∷◌, ◌++◌, if◌then◌else◌,
}
use favl_agentic_content_os.Lifecycle.State.{
  configured, validated, deletion_requested, value, same_state,
}
use favl_agentic_content_os.Lifecycle.Table.{Transition, plain}
use favl_agentic_content_os.Lifecycle.Lookup.{found, find, find_states}
use favl_agentic_content_os.Lifecycle.Safety.{find-value}
use favl_agentic_content_os.Store.Rows.{ConnectorRecord}
use favl_agentic_content_os.Store.Tables.{
  Db, Clock, get_connector, put_connector, enqueue, event_row, connector_versions,
}
use favl_agentic_content_os.Store.Laws.{get_connector-id, get_connector-put}
use favl_agentic_content_os.Transitions.Apply.{
  Outcome, applied, lookup_error, reason_required, version_taken, version_audited, is_blank, stamp,
  stamp_rotation, moved, audit_row, transition_event, no_edge, commit, take, on_found, on_record,
  apply,
}
use favl_agentic_content_os.Transitions.Effect.{stamp_keeps, moved_fields}
use favl_agentic_content_os.Transitions.Apply as Transitions
use favl_agentic_content_os.Registry.Schemas.{one_of}
use favl_agentic_content_os.Registry.Handlers.{
  Adapters, CallerIdentity, ValidationResult, tenant_connector,
}
use favl_agentic_content_os.Registry.Endpoints.{
  validation_request, with_guarantee, after_apply, store_guarantee, deletion_row, deletion_event,
  delete_read, request_connector_deletion,
}
use favl_agentic_content_os.Registry.Gaps.{owned_row}
use favl_agentic_content_os.Registry.Versions.{announced_self}
use favl_agentic_content_os.Registry.Races.{
  written_over, commit_seen, on_seen, apply_seen, finish_validation,
}

module _ (a : Adapters) (db : Db) (u u' : CallerIdentity) (k k' : Clock) (id : String)
    (r : ConnectorRecord) (read : get_connector id db.connectors ≡ some r)
    (owned : r.tenant_id ≡ u.tenant_id) (owned' : r.tenant_id ≡ u'.tenant_id) where
  abbrev pub verdict : ValidationResult
  verdict = a.validate_config r.kind r.config

  abbrev step_taken : Transition
  step_taken = plain configured validated "connector.validation_succeeded"

  abbrev pub revived_row : ConnectorRecord
  revived_row =
      with_guarantee verdict
        (written_over (validation_request u id verdict) k step_taken r (deletion_row u' k' r))

  here : r.id ≡ id
  here = get_connector-id id db.connectors r read

  abbrev deleted_as : Db
  deleted_as = record db {
    connectors = put_connector (deletion_row u' k' r) db.connectors;
    outbox = enqueue k'.event_id k'.now (deletion_event u' k' id (deletion_row u' k' r)) db.outbox;
  }

  read_as : tenant_connector db id u'.tenant_id ≡ some r
  read_as = owned_row db id u'.tenant_id r read owned'

  deleted_lem : r.status ≡ configured → (request_connector_deletion db u' k' id).0 ≡ deleted_as
  unfolding request_connector_deletion delete_read
  deleted_lem st = rw (read_as, st) refl

  abbrev request : Transitions.Request
  request = validation_request u id verdict

  abbrev over : ConnectorRecord
  over = written_over request k step_taken r (deletion_row u' k' r)

  abbrev applied_as : Db
  applied_as = record deleted_as {
    connectors = put_connector over deleted_as.connectors;
    audit = db.audit ++ audit_row request k step_taken r (moved request k step_taken r) ∷ [];
    outbox =
        enqueue k.event_id k.now
          (transition_event request step_taken r (moved request k step_taken r)) deleted_as.outbox;
  }

  read_deleted : get_connector id deleted_as.connectors ≡ some (deletion_row u' k' r)
  read_deleted = get_connector-put id (deletion_row u' k' r) r db.connectors read here

  edge :
      r.status ≡ configured
      → verdict.valid ≡ true
      → find (value r.status) (value request.target) request.event ≡ found step_taken
  unfolding find_states
  edge st good = find-value r.status request.target request.event ∙ rw (st, good) refl

  applied_lem :
      r.status ≡ configured
      → verdict.valid ≡ true
      → version_audited id (r.version + 1) db.audit ≡ false
      → apply_seen deleted_as request k r (get_connector id deleted_as.connectors)
        ≡ (applied_as, applied (moved request k step_taken r) step_taken.event)
  unfolding apply_seen on_seen commit_seen
  applied_lem st good fresh =
      rw (read_deleted, (eq_iff r.tenant_id u.tenant_id).1 owned, edge st good, here, fresh) refl

  -- The second read of the row, and the guarantee that the commit stores.
  kept :
      (over.id ≡ id)
      × (over.tenant_id ≡ u.tenant_id)
      × (over.status
          ≡ (if same_state r.status request.target then deletion_requested else request.target))
  kept =
      let (same_id, same_tenant, same_status, _) = stamp_keeps request.target k.now _ in
      (same_id ∙ here, same_tenant ∙ owned, same_status)

  read_applied : get_connector id applied_as.connectors ≡ some over
  read_applied =
      get_connector-put id over (deletion_row u' k' r) deleted_as.connectors read_deleted kept.0

  finished_lem :
      r.status ≡ configured
      → one_of r.kind a.kinds ≡ true
      → verdict.valid ≡ true
      → version_audited id (r.version + 1) db.audit ≡ false
      → (finish_validation a deleted_as u k id r).0
        ≡ record applied_as { connectors = put_connector revived_row applied_as.connectors }
  unfolding finish_validation after_apply store_guarantee
  finished_lem st known good fresh =
      rw
        (
          known,
          applied_lem st good fresh,
          owned_row applied_as id u.tenant_id over read_applied kept.1,
        )
        refl

  written_twice :
      get_connector id (put_connector revived_row applied_as.connectors) ≡ some revived_row
  written_twice = get_connector-put id revived_row over applied_as.connectors read_applied kept.0

  announced_twice :
      connector_versions id applied_as.outbox
      ≡ connector_versions id db.outbox ++ (r.version + 1) ∷ (r.version + 1) ∷ []
  announced_twice =
      let after = moved request k step_taken r in
      let (same_id, _, _, same_version) = moved_fields request k step_taken r in
      let last =
        announced_self id deleted_as.outbox
          (event_row k.event_id k.now (transition_event request step_taken r after)) refl
          (ap some (same_id ∙ here)) in
      let first =
        announced_self id db.outbox
          (event_row k'.event_id k'.now (deletion_event u' k' id (deletion_row u' k' r))) refl
          refl in
      last ∙ rw (same_version, first) (append_assoc (connector_versions id db.outbox) _ _)

  -- A validation that has read a configured connector, which another caller then asks to delete, before
  -- the validation is recorded: if the configuration is valid and no audit record has the next version,
  -- the connector ends as validated, which the table lets be enabled, and the two events of the deletion
  -- and of the validation have one version.
  pub validation_revives :
      r.status ≡ configured
      → one_of r.kind a.kinds ≡ true
      → verdict.valid ≡ true
      → version_audited id (r.version + 1) db.audit ≡ false
      → let db' = (finish_validation a (request_connector_deletion db u' k' id).0 u k id r).0 in
        (get_connector id db'.connectors ≡ some revived_row)
        × (revived_row.status ≡ validated)
        × (connector_versions id db'.outbox
            ≡ connector_versions id db.outbox ++ (r.version + 1) ∷ (r.version + 1) ∷ [])
  validation_revives st known good fresh =
      rw (deleted_lem st, finished_lem st known good fresh)
        (written_twice, kept.2 ∙ rw (good, st) refl, announced_twice)
