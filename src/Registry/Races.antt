-- ===== src/Registry/Races.antt =====
-- `validate_connector` of main.py, cut after its first read, which takes no lock. The `session.get` of
-- `apply` waits for the lock, but returns the object that the session has, as it was first read; the
-- UPDATE writes the columns that this object has changed.
pub mod Revives
use mathlib.Core.List.{append_assoc}
use favl_agentic_content_os.Prelude.{
  ◌+◌, ◌≡◌, refl, ◌∙◌, ap, String, str_eq, eq_iff, Bool, true, false, ◌&&◌, Option, none, some, [],
  ◌∷◌, ◌++◌, Bool-cases, inl, inr, if◌then◌else◌,
}
use favl_agentic_content_os.Lifecycle.State.{
  ConnectorState, configured, validated, deletion_requested, value, same_state, same_state→eq,
}
use favl_agentic_content_os.Lifecycle.Table.{Transition, plain}
use favl_agentic_content_os.Lifecycle.Lookup.{
  Found, found, refused, find, find_states, idempotent_repeat,
}
use favl_agentic_content_os.Lifecycle.Safety.{find-value}
use favl_agentic_content_os.Store.Rows.{ConnectorRecord}
use favl_agentic_content_os.Store.Tables.{
  Db, Clock, get_connector, put_connector, enqueue, event_row, connector_versions,
}
use favl_agentic_content_os.Store.Laws.{get_connector-id, get_connector-put}
use favl_agentic_content_os.Transitions.Apply.{
  Outcome, applied, lookup_error, reason_required, version_taken, version_audited, is_blank, stamp,
  stamp_rotation, moved, audit_row, transition_event, no_edge, commit, take, on_found, on_record,
  apply,
}
use favl_agentic_content_os.Transitions.Effect.{stamp_keeps, moved_fields}
use favl_agentic_content_os.Transitions.Apply as Transitions
use favl_agentic_content_os.Registry.Schemas.{one_of}
use favl_agentic_content_os.Registry.Handlers as Handlers
use favl_agentic_content_os.Registry.Handlers.{
  Adapters, CallerIdentity, ValidationResult, Response, report, tenant_connector, if_owned,
}
use favl_agentic_content_os.Registry.Endpoints.{
  validation_request, with_guarantee, after_apply, store_guarantee, deletion_row, deletion_event,
  delete_read, request_connector_deletion, validate_read, validate_connector,
}
use favl_agentic_content_os.Registry.Gaps.{owned_row}
use favl_agentic_content_os.Registry.Versions.{announced_self}

abbrev pub same_text : Option String → Option String → Bool
same_text none none = true
same_text (some s) (some t) = str_eq s t
same_text a b = false

-- The row after the UPDATE: what the object of the first read changed, over what is stored now.
abbrev pub written_over :
    Transitions.Request → Clock → Transition → ConnectorRecord → ConnectorRecord → ConnectorRecord
written_over q k t seen now = stamp_rotation t.event k.now (
    stamp q.target k.now (record now {
      status = if same_state seen.status q.target then now.status else q.target;
      version = seen.version + 1;
      state_reason = if same_text seen.state_reason q.reason then now.state_reason else q.reason;
    }))

unfoldable pub commit_seen :
    Db → Transitions.Request → Clock → Transition → ConnectorRecord → ConnectorRecord → Db × Outcome
commit_seen db q k t seen now =
    let after = moved q k t seen in
    if version_audited seen.id (seen.version + 1) db.audit then (db, version_taken) else (
      record db {
        connectors = put_connector (written_over q k t seen now) db.connectors;
        audit = db.audit ++ audit_row q k t seen after ∷ [];
        outbox = enqueue k.event_id k.now (transition_event q t seen after) db.outbox;
      },
      applied after t.event,
    )

unfoldable pub on_seen :
    Db → Transitions.Request → Clock → ConnectorRecord → ConnectorRecord → Found → Db × Outcome
on_seen db q k seen now (found t) =
    if t.requires_reason && is_blank q.reason
    then (db, reason_required t.event)
    else commit_seen db q k t seen now
on_seen db q k seen now (refused why) =
    no_edge db seen why (idempotent_repeat (value seen.status) (value q.target))

-- `apply`, in a session that has read the row already.
unfoldable pub apply_seen :
    Db → Transitions.Request → Clock → ConnectorRecord → Option ConnectorRecord → Db × Outcome
apply_seen db q k seen none = (db, lookup_error)
apply_seen db q k seen (some now) =
    if str_eq seen.tenant_id q.tenant_id
    then on_seen db q k seen now (find (value seen.status) (value q.target) q.event)
    else (db, lookup_error)

-- What follows the first read of `validate_connector`.
unfoldable pub finish_validation :
    Adapters → Db → CallerIdentity → Clock → String → ConnectorRecord → Db × Response
finish_validation adapters db caller k id seen =
    let v = adapters.validate_config seen.kind seen.config in
    if one_of seen.kind adapters.kinds
    then after_apply caller id v
        (apply_seen db (validation_request caller id v) k seen (get_connector id db.connectors))
    else (db, Handlers.refused 422 "UNKNOWN_KIND")

same_text_eq : (a b : Option String) → same_text a b ≡ true → a ≡ b
same_text_eq none none h = refl
same_text_eq none (some t) h = cc
same_text_eq (some s) none h = cc
same_text_eq (some s) (some t) h = ap some ((eq_iff s t).0 h)

status_kept : (s t : ConnectorState) → (if same_state s t then s else t) ≡ t
status_kept s t = elim (Bool-cases (same_state s t)) [
  | inl e ↦ rw e (same_state→eq s t e)
  | inr e ↦ rw e refl
]

reason_kept : (s t : Option String) → (if same_text s t then s else t) ≡ t
reason_kept s t = elim (Bool-cases (same_text s t)) [
  | inl e ↦ rw e (same_text_eq s t e)
  | inr e ↦ rw e refl
]

-- Over the row as it was read, the UPDATE writes what `moved` does.
written_over_self :
    (q : Transitions.Request) (k : Clock) (t : Transition) (r : ConnectorRecord)
    → written_over q k t r r ≡ moved q k t r
unfolding moved
written_over_self q k t r =
    rw (status_kept r.status q.target, reason_kept r.state_reason q.reason) refl

on_seen_self :
    (db : Db) (q : Transitions.Request) (k : Clock) (r : ConnectorRecord) (f : Found)
    → on_seen db q k r r f ≡ on_found db q k r f
unfolding on_seen on_found take commit_seen commit
on_seen_self db q k r (found t) = rw (written_over_self q k t r) refl
on_seen_self db q k r (refused why) = refl

-- Without a call in between, this is `validate_connector`.
pub finish_validation-current :
    (a : Adapters) (db : Db) (u : CallerIdentity) (k : Clock) (id : String) (r : ConnectorRecord)
    → get_connector id db.connectors ≡ some r
    → r.tenant_id ≡ u.tenant_id
    → finish_validation a db u k id r ≡ validate_connector a db u k id
unfolding finish_validation validate_connector validate_read apply_seen apply on_record
finish_validation-current a db u k id r read owned =
    rw
      (
        owned_row db id u.tenant_id r read owned,
        read,
        (eq_iff r.tenant_id u.tenant_id).1 owned,
        on_seen_self,
      )
      refl
