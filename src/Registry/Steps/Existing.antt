-- ===== src/Registry/Steps/Existing.antt =====
-- The changes that the endpoints on an existing connector make.
use favl_agentic_content_os.Prelude.{
  String, eq_iff, ◌≡◌, inl, inr, refl, ◌∙◌, Option, none, some, Bool-cases, Option-cases,
}
use mathlib.Core.Path.{subst}
use favl_agentic_content_os.Lifecycle.State.{
  ConnectorState, deletion_requested, deleted, same_state, same_state_refl,
}
use favl_agentic_content_os.Store.Rows.{ConnectorRecord}
use favl_agentic_content_os.Store.Tables.{Db, Clock, get_connector, put_connector, event_row}
use favl_agentic_content_os.Store.Laws.{
  get_connector-id, get_connector-put_self, get_connector-put_ne,
}
use favl_agentic_content_os.Transitions.Apply.{
  Outcome, applied, repeated, lookup_error, transition_rejected, reason_required, version_taken,
  apply,
}
use favl_agentic_content_os.Transitions.Apply as Transitions
use favl_agentic_content_os.Transitions.Effect.{Effect, apply-Effect}
use favl_agentic_content_os.Registry.Schemas.{TransitionRequest, is_valid_transition, body_or_empty}
use favl_agentic_content_os.Registry.Handlers.{
  CallerIdentity, owned_by, if_owned, tenant_connector, as_http, transition, rotate_read,
  rotate_connector_credentials,
}
use favl_agentic_content_os.Registry.Endpoints.{
  deletion_row, deletion_event, delete_read, request_connector_deletion,
}
use favl_agentic_content_os.Registry.Changes.{Writes, Change, unchanged, advanced}

-- The row that `_tenant_connector` returns is the caller's.
pub tenant_connector-some :
    (db : Db) (id tenant : String) (r : ConnectorRecord)
    → tenant_connector db id tenant ≡ some r
    → (get_connector id db.connectors ≡ some r) × (r.tenant_id ≡ tenant)
unfolding tenant_connector
tenant_connector-some db id tenant r h = elim (Option-cases (get_connector id db.connectors)) [
  | inl e ↦ cc (rw e at h)
  | inr (s, e) ↦ elim (Bool-cases (owned_by tenant s)) [
    | inl o ↦
        let same : some s ≡ some r = rw (e, if_owned, o) at h in
        let same' : s ≡ r = cc in (rw (← same') e, rw (← same') ((eq_iff s.tenant_id tenant).0 o))
    | inr o ↦ let no : none ≡ some r = rw (e, if_owned, o) at h in cc
  ]
]

-- A transition that `apply` commits advances the row; nothing else it does changes the database.
pub apply-Change :
    (db : Db) (q : Transitions.Request) (k : Clock) → Change q.tenant_id db (apply db q k).0
apply-Change db q k = from_effect (apply db q k) (apply-Effect db q k)
  where
    from_effect : (out : Db × Outcome) → Effect db q out → Change q.tenant_id db out.0
    from_effect (db', applied after event) c =
        advanced q.connector_id c.taken.before after c.taken.read c.taken.owned c.same_tenant
          (inl (q.event, c.taken.row, rw c.status c.taken.permitted)) c.version
          (record { written = c.written; others = c.others })
          (record {
            event = c.outbox_event;
            outbox = c.outbox;
            kind = c.outbox_type;
            aggregate = c.outbox_id;
            version = c.outbox_version;
          })
    from_effect (db', repeated r event) e = unchanged e
    from_effect (db', lookup_error) e = unchanged e
    from_effect (db', transition_rejected why now targets) e = unchanged e
    from_effect (db', reason_required event) e = unchanged e
    from_effect (db', version_taken) e = unchanged e

pub as_http-db : (out : Db × Outcome) → (as_http out).0 ≡ out.0
as_http-db (db, applied r event) = refl
as_http-db (db, repeated r event) = refl
as_http-db (db, lookup_error) = refl
as_http-db (db, transition_rejected why now targets) = refl
as_http-db (db, reason_required event) = refl
as_http-db (db, version_taken) = refl

pub put-Writes :
    (db : Db) (id : String) (old r : ConnectorRecord) (db' : Db)
    → get_connector id db.connectors ≡ some old
    → r.id ≡ old.id
    → db'.connectors ≡ put_connector r db.connectors
    → Writes db db' id r
put-Writes db id old r db' read same put =
    let here : r.id ≡ id = same ∙ get_connector-id id db.connectors old read in
    record {
      written =
          subst (λ j. get_connector j db'.connectors ≡ some r) here
            (rw put (get_connector-put_self r old db.connectors (rw here read)));
      others = λ j ne. rw put (get_connector-put_ne r j db.connectors (λ e. ne (e ∙ here)));
    }

module _ (db : Db) (u : CallerIdentity) (k : Clock) (id : String) where
  pub transition-Change :
      (target : ConnectorState) (event : Option String) (body : Option TransitionRequest)
      → Change u.tenant_id db (transition db u k id target event body).0
  unfolding transition
  transition-Change target event body =
      elim (Bool-cases (is_valid_transition (body_or_empty body))) [
        | inl e ↦ rw (e, as_http-db) (apply-Change db _ k)
        | inr e ↦ rw e (unchanged refl)
      ]

  rotate_read-Change :
      (body : Option TransitionRequest) (o : Option ConnectorRecord)
      → Change u.tenant_id db (rotate_read db u k id body o).0
  unfolding rotate_read
  rotate_read-Change body none = unchanged refl
  rotate_read-Change body (some r) = transition-Change r.status _ body

  pub rotate-Change :
      (body : Option TransitionRequest)
      → Change u.tenant_id db (rotate_connector_credentials db u k id body).0
  unfolding rotate_connector_credentials
  rotate-Change body = elim (Bool-cases (is_valid_transition (body_or_empty body))) [
    | inl e ↦ rw e (rotate_read-Change body _)
    | inr e ↦ rw e (unchanged refl)
  ]

  pub deletion-Change :
      (r : ConnectorRecord)
      → get_connector id db.connectors ≡ some r
      → r.tenant_id ≡ u.tenant_id
      → Change u.tenant_id db (delete_read db u k id (some r)).0
  unfolding delete_read
  deletion-Change r read owned = elim (Bool-cases (same_state r.status deleted)) [
    | inl e ↦ rw e (unchanged refl)
    | inr live ↦ elim (Bool-cases (same_state r.status deletion_requested)) [
      | inl e ↦ rw (live, e) (unchanged refl)
      | inr e ↦
          rw (live, e)
            (advanced id r (deletion_row u k r) read owned owned
              (inr (refl, λ p. cc (same_state_refl deleted, live, p))) refl
              (put-Writes db id r (deletion_row u k r) _ read refl refl)
              (record {
                event = event_row k.event_id k.now (deletion_event u k id (deletion_row u k r));
                outbox = refl;
                kind = refl;
                aggregate = refl;
                version = refl;
              }))
    ]
  ]

  pub request_connector_deletion-Change :
      Change u.tenant_id db (request_connector_deletion db u k id).0
  unfolding request_connector_deletion
  request_connector_deletion-Change = elim (Option-cases (tenant_connector db id u.tenant_id)) [
    | inl e ↦ rw (e, delete_read) (unchanged refl)
    | inr (r, e) ↦
        let (read, owned) = tenant_connector-some db id u.tenant_id r e in
        rw e (deletion-Change r read owned)
  ]
