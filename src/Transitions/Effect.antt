-- ===== src/Transitions/Effect.antt =====
-- What `apply` of transitions.py does on each of its branches.
use favl_agentic_content_os.Prelude.{
  ℕ, ◌+◌, String, str_eq, eq_iff, ◌≡◌, ◌≢◌, refl, sym, ap, ◌∙◌, false, ◌&&◌, Option, none, some, [],
  ◌∷◌, ◌++◌, Bool-cases, inl, inr,
}
use favl_agentic_content_os.Lifecycle.State.{ConnectorState, value, revoked}
use favl_agentic_content_os.Lifecycle.Table.{Transition}
use favl_agentic_content_os.Lifecycle.Lookup.{Found, found, refused, Refusal, find, find_states}
use favl_agentic_content_os.Lifecycle.Safety.{find-value}
use favl_agentic_content_os.Store.Rows.{ConnectorRecord, ConnectorAuditRecord, OutboxEvent}
use favl_agentic_content_os.Store.Tables.{Db, Clock, event_row, get_connector}
use favl_agentic_content_os.Store.Laws.{
  get_connector-id, get_connector-put_self, get_connector-put_ne,
}
use favl_agentic_content_os.Transitions.Apply.{
  Outcome, applied, Request, is_blank, moved, stamp, transition_event, audit_row, version_audited,
  commit, take, no_edge, on_found, on_record, apply,
}

-- The row that `apply` read, and the transition that it took.
pub record Taken (db : Db) (q : Request) : Type 0 where
  pub before : ConnectorRecord
  pub row : Transition
  pub read : get_connector q.connector_id db.connectors ≡ some before
  pub owned : before.tenant_id ≡ q.tenant_id
  pub permitted : find_states before.status q.target q.event ≡ found row
  pub reasoned : (row.requires_reason && is_blank q.reason) ≡ false
  pub unaudited : version_audited before.id (before.version + 1) db.audit ≡ false

-- A taken transition writes one connector row, one audit record and one event, and all three agree.
pub record Committed (db db' : Db) (q : Request) (after : ConnectorRecord) (event : String)
    : Type 0 where
  pub taken : Taken db q
  pub status : after.status ≡ q.target
  pub version : after.version ≡ taken.before.version + 1
  pub same_id : after.id ≡ q.connector_id
  pub same_tenant : after.tenant_id ≡ q.tenant_id
  pub event_name : event ≡ taken.row.event
  pub written : get_connector q.connector_id db'.connectors ≡ some after
  pub others :
      (j : String)
      → j ≢ q.connector_id
      → get_connector j db'.connectors ≡ get_connector j db.connectors
  pub audit_record : ConnectorAuditRecord
  pub audit : db'.audit ≡ db.audit ++ audit_record ∷ []
  pub audit_connector : audit_record.connector_id ≡ q.connector_id
  pub audit_from : audit_record.from_state ≡ value taken.before.status
  pub audit_to : audit_record.to_state ≡ value q.target
  pub audit_event : audit_record.event ≡ event
  pub audit_actor : audit_record.actor_id ≡ q.actor_id
  pub audit_reason : audit_record.reason ≡ q.reason
  pub audit_version : audit_record.aggregate_version ≡ after.version
  pub outbox_event : OutboxEvent
  pub outbox : db'.outbox ≡ db.outbox ++ outbox_event ∷ []
  pub outbox_type : outbox_event.aggregate_type ≡ "connector"
  pub outbox_id : outbox_event.aggregate_id ≡ some q.connector_id
  pub outbox_subject : outbox_event.subject ≡ event
  pub outbox_version : outbox_event.aggregate_version ≡ after.version
  pub invocations : db'.invocations ≡ db.invocations

-- What the caller may read off each outcome.
abbrev pub Effect : Db → Request → Db × Outcome → Type 0
Effect db q (db', applied after event) = Committed db db' q after event
Effect db q (db', other) = db' ≡ db

pub stamp_keeps :
    (s : ConnectorState) (now : ℕ) (r : ConnectorRecord)
    → ((stamp s now r).id ≡ r.id)
      × ((stamp s now r).tenant_id ≡ r.tenant_id)
      × ((stamp s now r).status ≡ r.status)
      × ((stamp s now r).version ≡ r.version)
stamp_keeps revoked now r = (refl, refl, refl, refl)
stamp_keeps _ now r = (refl, refl, refl, refl)

pub moved_fields :
    (q : Request) (k : Clock) (t : Transition) (r : ConnectorRecord)
    → ((moved q k t r).id ≡ r.id)
      × ((moved q k t r).tenant_id ≡ r.tenant_id)
      × ((moved q k t r).status ≡ q.target)
      × ((moved q k t r).version ≡ r.version + 1)
unfolding moved
moved_fields q k t r =
    stamp_keeps q.target k.now
      (record r { status = q.target; version = r.version + 1; state_reason = q.reason })

commit-Effect :
    (db : Db) (q : Request) (k : Clock) (taken : Taken db q)
    → Effect db q (commit db q k taken.row taken.before)
unfolding commit moved
commit-Effect db q k taken =
    let r = taken.before in
    let (id, tenant, status, version) = moved_fields q k taken.row r in
    let here : r.id ≡ q.connector_id = get_connector-id q.connector_id db.connectors r taken.read in
    let there : (moved q k taken.row r).id ≡ q.connector_id = id ∙ here in
    rw taken.unaudited (record {
      taken = taken;
      status = status;
      version = version;
      same_id = there;
      same_tenant = tenant ∙ taken.owned;
      event_name = refl;
      written =
          rw (← there)
            (get_connector-put_self (moved q k taken.row r) r db.connectors (rw there taken.read));
      others = λ j ne.
          get_connector-put_ne (moved q k taken.row r) j db.connectors (λ e. ne (e ∙ there));
      audit_record = audit_row q k taken.row r (moved q k taken.row r);
      audit = refl;
      audit_connector = there;
      audit_from = refl;
      audit_to = ap value status;
      audit_event = refl;
      audit_actor = refl;
      audit_reason = refl;
      audit_version = refl;
      outbox_event =
          event_row k.event_id k.now (transition_event q taken.row r (moved q k taken.row r));
      outbox = refl;
      outbox_type = refl;
      outbox_id = ap some there;
      outbox_subject = refl;
      outbox_version = refl;
      invocations = refl;
    })

no_edge-Effect :
    (db : Db) (q : Request) (r : ConnectorRecord) (why : Refusal) (t : Option Transition)
    → Effect db q (no_edge db r why t)
unfolding no_edge
no_edge-Effect db q r why none = refl
no_edge-Effect db q r why (some t) = refl

take-Effect :
    (db : Db) (q : Request) (k : Clock) (r : ConnectorRecord) (t : Transition)
    → get_connector q.connector_id db.connectors ≡ some r
    → r.tenant_id ≡ q.tenant_id
    → find_states r.status q.target q.event ≡ found t
    → Effect db q (take db q k t r)
unfolding take commit
take-Effect db q k r t read owned edge =
    elim (Bool-cases (t.requires_reason && is_blank q.reason)) [
      | inl e ↦ rw e refl
      | inr e ↦ elim (Bool-cases (version_audited r.id (r.version + 1) db.audit)) [
        | inl again ↦ rw (e, again) refl
        | inr new ↦ rw e (
            commit-Effect db q k (record {
              before = r;
              row = t;
              read = read;
              owned = owned;
              permitted = edge;
              reasoned = e;
              unaudited = new;
            }))
      ]
    ]

on_found-Effect :
    (db : Db) (q : Request) (k : Clock) (r : ConnectorRecord) (f : Found)
    → get_connector q.connector_id db.connectors ≡ some r
    → r.tenant_id ≡ q.tenant_id
    → find_states r.status q.target q.event ≡ f
    → Effect db q (on_found db q k r f)
unfolding on_found
on_found-Effect db q k r (found t) read owned e = take-Effect db q k r t read owned e
on_found-Effect db q k r (refused why) read owned e = no_edge-Effect db q r why _

on_record-Effect :
    (db : Db) (q : Request) (k : Clock) (o : Option ConnectorRecord)
    → get_connector q.connector_id db.connectors ≡ o
    → Effect db q (on_record db q k o)
unfolding on_record
on_record-Effect db q k none read = refl
on_record-Effect db q k (some r) read = elim (Bool-cases (str_eq r.tenant_id q.tenant_id)) [
  | inl e ↦ rw e (
      on_found-Effect db q k r (find (value r.status) (value q.target) q.event) read
        ((eq_iff r.tenant_id q.tenant_id).0 e) (sym (find-value r.status q.target q.event)))
  | inr e ↦ rw e refl
]

-- Whatever `apply` is asked, either it commits the row, one audit record and one event that agree
-- on the connector, the states, the event name and the new version, or the database is unchanged.
pub apply-Effect : (db : Db) (q : Request) (k : Clock) → Effect db q (apply db q k)
unfolding apply
apply-Effect db q k = on_record-Effect db q k (get_connector q.connector_id db.connectors) refl
