-- ===== src/Registry/Gaps.antt =====
-- Three places where the endpoints of main.py and their descriptions part.
use favl_agentic_content_os.Prelude.{
  String, eq_iff, ◌≡◌, refl, sym, ◌∙◌, true, false, Option, some, List,
}
use favl_agentic_content_os.Lifecycle.State.{
  ConnectorState, draft, installed, configured, validated, enabled, disabled, revoked,
  deletion_requested, archived, deleted, value, same_state,
}
use favl_agentic_content_os.Lifecycle.Lookup.{
  refused, not_permitted, find_states, idempotent_repeat, permitted_targets,
}
use favl_agentic_content_os.Lifecycle.Safety.{find-value}
use favl_agentic_content_os.Store.Rows.{ConnectorRecord}
use favl_agentic_content_os.Store.Tables.{Db, Clock, get_connector, put_connector}
use favl_agentic_content_os.Store.Laws.{get_connector-id, get_connector-put}
use favl_agentic_content_os.Transitions.Apply.{
  apply, on_record, on_found, no_edge, repeated, transition_rejected,
}
use favl_agentic_content_os.Transitions.Apply as Transitions
use favl_agentic_content_os.Lifecycle.Runs.{is_retired}
use favl_agentic_content_os.Lifecycle.Repeats.{is_repeatable}
use favl_agentic_content_os.Lifecycle.Table.{Transition, plain, reasoned, repeatable}
use favl_agentic_content_os.Registry.Schemas.{
  TransitionRequest, is_valid_transition, body_or_empty, to_schema, one_of,
}
use favl_agentic_content_os.Registry.Handlers.{
  Adapters, CallerIdentity, shown, report, no_content, transition, transition_request, if_owned,
  tenant_connector, rotate_read, rotate_connector_credentials,
}
use favl_agentic_content_os.Registry.Endpoints.{
  delete_read, request_connector_deletion, deletion_row, validate_read, validate_connector,
  validation_request, with_guarantee, after_apply, store_guarantee,
}

pub owned_row :
    (db : Db) (id tenant : String) (r : ConnectorRecord)
    → get_connector id db.connectors ≡ some r
    → r.tenant_id ≡ tenant
    → tenant_connector db id tenant ≡ some r
unfolding tenant_connector
owned_row db id tenant r read owned = rw (read, if_owned, (eq_iff r.tenant_id tenant).1 owned) refl

abbrev rotated : Option String
rotated = some "connector.credentials_rotated"

-- In these states no row rotates, and a repeat of the state is found all the same.
silent :
    (s : ConnectorState)
    → is_retired s ≡ true
    → is_repeatable s ≡ true
    → (t : Transition) × (find_states s s rotated ≡ refused not_permitted)
      × (idempotent_repeat (value s) (value s) ≡ some t)
unfolding find_states idempotent_repeat
silent revoked h p = (repeatable (reasoned (plain draft revoked "connector.revoked")), refl, refl)
silent deletion_requested h p = (
  repeatable (reasoned (plain disabled deletion_requested "connector.deletion_requested")),
  refl,
  refl,
)
silent archived h p =
    (repeatable (plain deletion_requested archived "connector.archived"), refl, refl)
silent draft h p = cc
silent installed h p = cc
silent configured h p = cc
silent validated h p = cc
silent enabled h p = cc
silent disabled h p = cc
silent deleted h p = cc

module _ (db : Db) (u : CallerIdentity) (k : Clock) (id : String) (r : ConnectorRecord)
    (read : get_connector id db.connectors ≡ some r) (owned : r.tenant_id ≡ u.tenant_id) where
  here : r.id ≡ id
  here = get_connector-id id db.connectors r read

  deletion_written :
      get_connector id (put_connector (deletion_row u k r) db.connectors)
      ≡ some (deletion_row u k r)
  deletion_written = get_connector-put id (deletion_row u k r) r db.connectors read here

  delete_read_unaudited :
      same_state r.status deleted ≡ false
      → same_state r.status deletion_requested ≡ false
      → let (db', response) = delete_read db u k id (some r) in
        (response ≡ no_content)
        × (get_connector id db'.connectors ≡ some (deletion_row u k r))
        × (db'.audit ≡ db.audit)
  unfolding delete_read
  delete_read_unaudited live fresh = rw (live, fresh) (refl, deletion_written, refl)

  -- The deletion endpoint moves a connector in any state other than deleted and
  -- deletion_requested, an enabled or an archived one included, to deletion_requested with the next
  -- version, and records no audit entry for that version.
  pub deletion_unaudited :
      same_state r.status deleted ≡ false
      → same_state r.status deletion_requested ≡ false
      → let (db', response) = request_connector_deletion db u k id in
        (response ≡ no_content)
        × (get_connector id db'.connectors ≡ some (deletion_row u k r))
        × (db'.audit ≡ db.audit)
  unfolding request_connector_deletion
  deletion_unaudited live fresh =
      rw (owned_row db id u.tenant_id r read owned) (delete_read_unaudited live fresh)

  apply_silent :
      (b : TransitionRequest)
      → is_retired r.status ≡ true
      → is_repeatable r.status ≡ true
      → (event : String) × (apply db (transition_request u id r.status rotated b) k
          ≡ (db, repeated r event))
  unfolding apply on_found no_edge
  apply_silent b dead again =
      let (t, absent, again') = silent r.status dead again in
      (
        t.event,
        rw
            (
              read,
              on_record,
              (eq_iff r.tenant_id u.tenant_id).1 owned,
              find-value r.status r.status rotated,
              absent,
              again',
            )
            refl,
      )

  -- Rotating the credentials of a connector that is revoked, deletion_requested or archived answers
  -- with the connector, as a success does, and writes nothing: no version, audit record or event.
  pub rotation_silent :
      (b : Option TransitionRequest)
      → is_valid_transition (body_or_empty b) ≡ true
      → is_retired r.status ≡ true
      → is_repeatable r.status ≡ true
      → rotate_connector_credentials db u k id b ≡ (db, shown (to_schema r))
  unfolding rotate_connector_credentials rotate_read transition
  rotation_silent b valid dead again =
      let (event, e) = apply_silent (body_or_empty b) dead again in
      rw (valid, owned_row db id u.tenant_id r read owned, valid, e) refl

  rejected_validation :
      (q : Transitions.Request)
      → q.connector_id ≡ id
      → q.tenant_id ≡ u.tenant_id
      → q.target ≡ configured
      → q.event ≡ some "connector.validation_failed"
      → r.status ≡ validated
      → (now : String) × (targets : List String) × (apply db q k
          ≡ (db, transition_rejected not_permitted now targets))
  unfolding apply on_found no_edge find_states idempotent_repeat
  rejected_validation q same tenant to event st = (
    value r.status,
    permitted_targets (value r.status),
    rw
        (
          same,
          read,
          on_record,
          (eq_iff r.tenant_id q.tenant_id).1 (owned ∙ sym tenant),
          find-value r.status q.target q.event,
          st,
          to,
          event,
        )
        refl,
  )

  -- A validated connector whose stored configuration fails validation again is reported invalid and
  -- stays validated, with no audit record: it may be enabled all the same.
  pub failed_revalidation :
      (a : Adapters)
      → one_of r.kind a.kinds ≡ true
      → r.status ≡ validated
      → (a.validate_config r.kind r.config).valid ≡ false
      → let (db', response) = validate_connector a db u k id in
        (response ≡ report (a.validate_config r.kind r.config))
        × (get_connector id db'.connectors
            ≡ some (with_guarantee (a.validate_config r.kind r.config) r))
        × (db'.audit ≡ db.audit)
  unfolding validate_connector validate_read after_apply store_guarantee
  failed_revalidation a known st bad =
      let (now, targets, e) =
        rejected_validation (validation_request u id (a.validate_config r.kind r.config)) refl refl
          (rw bad refl) (rw bad refl) st in
      rw (owned_row db id u.tenant_id r read owned, known, e)
        (rw (owned_row db id u.tenant_id r read owned) (
          refl,
          get_connector-put id (with_guarantee (a.validate_config r.kind r.config) r) r
              db.connectors read here,
          refl,
        ))
