-- ===== src/Registry/Steps.antt =====
-- Every call of main.py is made of the changes that `Change` lists.
pub mod Existing
pub mod Creation
use favl_agentic_content_os.Prelude.{
  String, eq_iff, ◌≡◌, ◌≢◌, inl, inr, refl, ◌∙◌, true, false, Option, none, some, List, [], ◌∷◌,
  ◌++◌, arith, Bool-cases, Option-cases, &&-true,
}
use mathlib.Core.Path.{subst}
use favl_agentic_content_os.Lifecycle.State.{
  ConnectorState, deletion_requested, deleted, member, creatable_states, same_state,
  same_state_refl,
}
use favl_agentic_content_os.Store.Rows.{ConnectorRecord}
use favl_agentic_content_os.Store.Tables.{Db, Clock, get_connector, put_connector, event_row}
use favl_agentic_content_os.Store.Laws.{
  get_connector-id, get_connector-put_self, get_connector-put_ne, get_connector-append,
}
use favl_agentic_content_os.Transitions.Apply.{
  Outcome, applied, repeated, lookup_error, transition_rejected, reason_required, version_taken,
  apply,
}
use favl_agentic_content_os.Transitions.Apply as Transitions
use favl_agentic_content_os.Transitions.Effect.{Effect, apply-Effect}
use favl_agentic_content_os.Registry.Schemas.{
  ConnectorCreate, TransitionRequest, is_valid_create, is_valid_transition, body_or_empty, one_of,
  within, connector_kinds,
}
use favl_agentic_content_os.Registry.Handlers.{
  ValidationResult, Adapters, CallerIdentity, owned_by, if_owned, tenant_connector, conflicts,
  new_connector, created_event, insert_connector, create_connector, as_http, transition,
  rotate_read, rotate_connector_credentials, add_base_url,
}
use favl_agentic_content_os.Registry.Endpoints.{
  with_guarantee, store_guarantee, after_apply, validate_read, validate_connector, deletion_row,
  deletion_event, delete_read, request_connector_deletion, Call, list_all, get_one, create,
  validate, delete, install, configure, enable, disable, rotate, revoke, archive, step,
}
use favl_agentic_content_os.Registry.Changes.{Writes, Change, unchanged, saved, advanced, inserted}
use favl_agentic_content_os.Registry.Steps.Existing.{
  tenant_connector-some, apply-Change, as_http-db, put-Writes, transition-Change, rotate-Change,
  request_connector_deletion-Change,
}
use favl_agentic_content_os.Registry.Steps.Creation.{create-Change}

-- What a call does: two changes in turn, either of which may be none.
pub record Changes (tenant : String) (db db' : Db) : Type 0 where
  pub middle : Db
  pub first : Change tenant db middle
  pub second : Change tenant middle db'

pub one_change : {tenant : String} {db db' : Db} → Change tenant db db' → Changes tenant db db'
one_change {db' = db'} c = record { middle = db'; first = c; second = unchanged refl }

store_guarantee-Change :
    (db : Db) (tenant id : String) (v : ValidationResult)
    → Change tenant db (store_guarantee db v (tenant_connector db id tenant)).0
unfolding store_guarantee
store_guarantee-Change db tenant id v = elim (Option-cases (tenant_connector db id tenant)) [
  | inl e ↦ rw (e, store_guarantee) (unchanged refl)
  | inr (r, e) ↦
      let (read, owned) = tenant_connector-some db id tenant r e in
      rw (e, store_guarantee)
        (saved id r (with_guarantee v r) read owned owned refl refl
          (put-Writes db id r (with_guarantee v r) _ read refl refl) refl)
]

after_apply-Changes :
    (db : Db) (u : CallerIdentity) (id : String) (v : ValidationResult) (out : Db × Outcome)
    → Change u.tenant_id db out.0
    → Changes u.tenant_id db (after_apply u id v out).0
unfolding after_apply
after_apply-Changes db u id v (db', lookup_error) c = one_change c
after_apply-Changes db u id v (db', reason_required event) c = one_change c
after_apply-Changes db u id v (db', version_taken) c = one_change c
after_apply-Changes db u id v (db', applied r event) c = record {
  middle = db';
  first = c;
  second = store_guarantee-Change db' u.tenant_id id v;
}
after_apply-Changes db u id v (db', _) c = record {
  middle = db';
  first = c;
  second = store_guarantee-Change db' u.tenant_id id v;
}

validate_read-Changes :
    (a : Adapters) (db : Db) (u : CallerIdentity) (k : Clock) (id : String)
    (o : Option ConnectorRecord)
    → Changes u.tenant_id db (validate_read a db u k id o).0
unfolding validate_read
validate_read-Changes a db u k id none = one_change (unchanged refl)
validate_read-Changes a db u k id (some r) = elim (Bool-cases (one_of r.kind a.kinds)) [
  | inl e ↦ rw e (after_apply-Changes db u id _ _ (apply-Change db _ k))
  | inr e ↦ rw e (one_change (unchanged refl))
]

-- Every call, whatever its outcome, changes the caller's own rows alone, each in a permitted way.
pub step-Changes :
    (a : Adapters) (db : Db) (u : CallerIdentity) (k : Clock) (c : Call)
    → Changes u.tenant_id db (step a db u k c).0
unfolding step validate_connector
step-Changes a db u k (list_all deleted_too) = one_change (unchanged refl)
step-Changes a db u k (get_one id) =
    one_change (elim (Option-cases (tenant_connector db id u.tenant_id)) [
      | inl e ↦ rw e (unchanged refl)
      | inr (r, e) ↦ rw e (unchanged refl)
    ])
step-Changes a db u k (create p) = one_change (create-Change db u k a p)
step-Changes a db u k (validate id) = validate_read-Changes a db u k id _
step-Changes a db u k (delete id) = one_change (request_connector_deletion-Change db u k id)
step-Changes a db u k (install id b) = one_change (transition-Change db u k id _ _ b)
step-Changes a db u k (configure id b) = one_change (transition-Change db u k id _ _ b)
step-Changes a db u k (enable id b) = one_change (transition-Change db u k id _ _ b)
step-Changes a db u k (disable id b) = one_change (transition-Change db u k id _ _ b)
step-Changes a db u k (rotate id b) = one_change (rotate-Change db u k id b)
step-Changes a db u k (revoke id b) = one_change (transition-Change db u k id _ _ b)
step-Changes a db u k (archive id b) = one_change (transition-Change db u k id _ _ b)
