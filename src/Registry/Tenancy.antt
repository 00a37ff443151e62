-- ===== src/Registry/Tenancy.antt =====
-- Tenants: no call of main.py reaches another tenant's connector.
use favl_agentic_content_os.Prelude.{
  String, str_eq, eq_iff, ◌≡◌, ◌≢◌, ◌⊎◌, inl, inr, refl, sym, ap, ◌∙◌, true, Option, none, some,
  List, [], ◌∷◌, arith, Bool-cases, All,
}
use favl_agentic_content_os.Lifecycle.State.{ConnectorState}
use favl_agentic_content_os.Store.Rows.{ConnectorRecord}
use favl_agentic_content_os.Store.Tables.{Db, Clock, get_connector}
use favl_agentic_content_os.Transitions.Apply.{apply, on_record, lookup_error}
use favl_agentic_content_os.Transitions.Apply as Transitions
use favl_agentic_content_os.Registry.Schemas.{TransitionRequest, is_valid_transition, body_or_empty}
use favl_agentic_content_os.Registry.Handlers.{
  Adapters, CallerIdentity, not_found, tenant_connector, if_owned, transition_request, transition,
  rotate_connector_credentials,
}
use favl_agentic_content_os.Registry.Endpoints.{
  validate_connector, request_connector_deletion, Call, list_all, get_one, create, validate, delete,
  install, configure, enable, disable, rotate, revoke, archive, step,
}
use favl_agentic_content_os.Registry.Changes.{Writes, Change, unchanged, saved, advanced, inserted}
use favl_agentic_content_os.Registry.Steps.{step-Changes}

-- A call with its caller and what the clock and the generator of ids return.
pub record Arrival : Type 0 where
  pub caller : CallerIdentity
  pub clock : Clock
  pub call : Call

unfoldable pub run : Adapters → Db → List Arrival → Db
run a db [] = db
run a db (x ∷ xs) = run a (step a db x.caller x.clock x.call).0 xs

Writes-keep :
    {db db' : Db} (id j : String) {after r : ConnectorRecord}
    → Writes db db' id after
    → j ≢ id
    → get_connector j db.connectors ≡ some r
    → get_connector j db'.connectors ≡ some r
Writes-keep id j w ne read = w.others j ne ∙ read

pub same_row :
    (rows : List ConnectorRecord) (j id : String) (r b : ConnectorRecord)
    → get_connector j rows ≡ some r
    → get_connector id rows ≡ some b
    → j ≡ id
    → r ≡ b
same_row rows j id r b p q e =
    let f : some r ≡ some b = sym p ∙ (ap (λ i. get_connector i rows) e ∙ q) in cc

owner_differs :
    (db : Db) (tenant j id : String) (r before : ConnectorRecord)
    → get_connector id db.connectors ≡ some before
    → before.tenant_id ≡ tenant
    → r.tenant_id ≢ tenant
    → get_connector j db.connectors ≡ some r
    → j ≢ id
owner_differs db tenant j id r before found owned ne read e = ne (
    ap (λ (c : ConnectorRecord). c.tenant_id) (same_row db.connectors j id r before read found e)
    ∙ owned)

-- A change by one tenant leaves the row of another as it was.
Change_keeps :
    (tenant : String) (db db' : Db) (j : String) (r : ConnectorRecord)
    → Change tenant db db'
    → r.tenant_id ≢ tenant
    → get_connector j db.connectors ≡ some r
    → get_connector j db'.connectors ≡ some r
Change_keeps tenant db db' j r (unchanged e) ne read = rw e read
Change_keeps tenant db db' j r (saved id before after found owned _ _ _ w _) ne read =
    Writes-keep id j w (owner_differs db tenant j id r before found owned ne read) read
Change_keeps tenant db db' j r (advanced id before after found owned _ _ _ w _) ne read =
    Writes-keep id j w (owner_differs db tenant j id r before found owned ne read) read
Change_keeps tenant db db' j r (inserted id after absent _ _ _ w _) ne read =
    Writes-keep id j w (λ e. cc (rw e at read)) read

-- However many calls other tenants make, a tenant's connector is what it was, in every field.
pub run-isolation :
    (a : Adapters) (db : Db) (xs : List Arrival) (j : String) (r : ConnectorRecord)
    → get_connector j db.connectors ≡ some r
    → All (λ (x : Arrival). r.tenant_id ≢ x.caller.tenant_id) xs
    → get_connector j (run a db xs).connectors ≡ some r
unfolding run
run-isolation a db [] j r read others = read
run-isolation a db (x ∷ xs) j r read others =
    let c = step-Changes a db x.caller x.clock x.call in
    run-isolation a (step a db x.caller x.clock x.call).0 xs j r
      (Change_keeps x.caller.tenant_id c.middle _ j r c.second others.0
        (Change_keeps x.caller.tenant_id db c.middle j r c.first others.0 read))
      others.1

-- The call names a connector, and its body, if it has one, passes its schema.
abbrev pub Names : Call → String → Type 0
Names (list_all deleted_too) id = ⊥
Names (create p) id = ⊥
Names (get_one i) id = i ≡ id
Names (validate i) id = i ≡ id
Names (delete i) id = i ≡ id
Names (install i b) id = (i ≡ id) × (is_valid_transition (body_or_empty b) ≡ true)
Names (configure i b) id = (i ≡ id) × (is_valid_transition (body_or_empty b) ≡ true)
Names (enable i b) id = (i ≡ id) × (is_valid_transition (body_or_empty b) ≡ true)
Names (disable i b) id = (i ≡ id) × (is_valid_transition (body_or_empty b) ≡ true)
Names (rotate i b) id = (i ≡ id) × (is_valid_transition (body_or_empty b) ≡ true)
Names (revoke i b) id = (i ≡ id) × (is_valid_transition (body_or_empty b) ≡ true)
Names (archive i b) id = (i ≡ id) × (is_valid_transition (body_or_empty b) ≡ true)

-- The row is missing or another tenant's.
abbrev pub IsForeign : Db → String → String → Type 0
IsForeign db id tenant =
    (get_connector id db.connectors ≡ none)
    ⊎ ((r : ConnectorRecord) × (get_connector id db.connectors ≡ some r) × (r.tenant_id ≢ tenant))

foreign_row :
    (db : Db) (id tenant : String) → IsForeign db id tenant → tenant_connector db id tenant ≡ none
unfolding tenant_connector
foreign_row db id tenant (inl e) = rw (e, if_owned) refl
foreign_row db id tenant (inr (r, e, ne)) =
    rw (e, if_owned) (ground (arith, eq_iff r.tenant_id tenant))

foreign_apply :
    (db : Db) (q : Transitions.Request) (k : Clock)
    → IsForeign db q.connector_id q.tenant_id
    → apply db q k ≡ (db, lookup_error)
unfolding apply
foreign_apply db q k (inl e) = rw e refl
foreign_apply db q k (inr (r, e, ne)) = elim (Bool-cases (str_eq r.tenant_id q.tenant_id)) [
  | inl o ↦ absurd (ne ((eq_iff r.tenant_id q.tenant_id).0 o))
  | inr o ↦ rw (e, on_record, o) refl
]

module _ (db : Db) (u : CallerIdentity) (k : Clock) (id : String)
    (foreign : IsForeign db id u.tenant_id) where
  foreign_transition :
      (target : ConnectorState) (event : Option String) (b : Option TransitionRequest)
      → is_valid_transition (body_or_empty b) ≡ true
      → transition db u k id target event b ≡ (db, not_found)
  unfolding transition
  foreign_transition target event b v =
      rw (v, foreign_apply db (transition_request u id target event (body_or_empty b)) k foreign)
        refl

  foreign_rotate :
      (b : Option TransitionRequest)
      → is_valid_transition (body_or_empty b) ≡ true
      → rotate_connector_credentials db u k id b ≡ (db, not_found)
  unfolding rotate_connector_credentials
  foreign_rotate b v = rw (v, foreign_row db id u.tenant_id foreign) refl

  foreign_validate : (a : Adapters) → validate_connector a db u k id ≡ (db, not_found)
  unfolding validate_connector
  foreign_validate a = rw (foreign_row db id u.tenant_id foreign) refl

  foreign_deletion : request_connector_deletion db u k id ≡ (db, not_found)
  unfolding request_connector_deletion
  foreign_deletion = rw (foreign_row db id u.tenant_id foreign) refl

-- A call that names another tenant's connector is answered as if the connector did not exist, and
-- changes nothing: the two cases cannot be told apart.
pub step-foreign :
    (a : Adapters) (db : Db) (u : CallerIdentity) (k : Clock) (c : Call) (id : String)
    → IsForeign db id u.tenant_id
    → Names c id
    → step a db u k c ≡ (db, not_found)
unfolding step
step-foreign a db u k (list_all deleted_too) id f n = absurd n
step-foreign a db u k (create p) id f n = absurd n
step-foreign a db u k (get_one i) id f n = rw (n, foreign_row db id u.tenant_id f) refl
step-foreign a db u k (validate i) id f n = rw n (foreign_validate db u k id f a)
step-foreign a db u k (delete i) id f n = rw n (foreign_deletion db u k id f)
step-foreign a db u k (install i b) id f (n, v) = rw n (foreign_transition db u k id f _ _ b v)
step-foreign a db u k (configure i b) id f (n, v) = rw n (foreign_transition db u k id f _ _ b v)
step-foreign a db u k (enable i b) id f (n, v) = rw n (foreign_transition db u k id f _ _ b v)
step-foreign a db u k (disable i b) id f (n, v) = rw n (foreign_transition db u k id f _ _ b v)
step-foreign a db u k (rotate i b) id f (n, v) = rw n (foreign_rotate db u k id f b v)
step-foreign a db u k (revoke i b) id f (n, v) = rw n (foreign_transition db u k id f _ _ b v)
step-foreign a db u k (archive i b) id f (n, v) = rw n (foreign_transition db u k id f _ _ b v)
