-- ===== src/Registry/Trail.antt =====
-- `connector_audit` of main.py.
use favl_agentic_content_os.Prelude.{
  ℕ, String, str_eq, eq_iff, ◌≡◌, ◌&&◌, &&-true, Bool-cases, inl, inr, Option, none, some, List, [],
  ◌∷◌, map, select, All, All-sort_by,
}
use favl_agentic_content_os.Store.Rows.{ConnectorRecord, ConnectorAuditRecord}
use favl_agentic_content_os.Store.Tables.{Db}
use favl_agentic_content_os.Transitions.Apply.{audit_trail}
use favl_agentic_content_os.Registry.Handlers.{tenant_connector}

pub record AuditEntry : Type 0 where
  pub id : String
  pub connector_id : String
  pub from_state : String
  pub to_state : String
  pub event : String
  pub actor_id : String
  pub reason : Option String
  pub aggregate_version : ℕ
  pub recorded_at : ℕ

abbrev pub audit_entry : ConnectorAuditRecord → AuditEntry
audit_entry a = record {
  id = a.id;
  connector_id = a.connector_id;
  from_state = a.from_state;
  to_state = a.to_state;
  event = a.event;
  actor_id = a.actor_id;
  reason = a.reason;
  aggregate_version = a.aggregate_version;
  recorded_at = a.recorded_at;
}

abbrev pub trail_of : Db → String → String → Option ConnectorRecord → Option (List AuditEntry)
trail_of db id tenant none = none
trail_of db id tenant (some r) = some (map audit_entry (audit_trail db id tenant))

-- `none` is the 404.
unfoldable pub connector_audit : Db → String → String → Option (List AuditEntry)
connector_audit db tenant id = trail_of db id tenant (tenant_connector db id tenant)

abbrev IsRowOf : String → String → ConnectorAuditRecord → Type 0
IsRowOf id tenant a = (a.connector_id ≡ id) × (a.tenant_id ≡ tenant)

-- The trail has rows of that connector and that tenant only.
pub audit_trail-IsRowOf :
    (db : Db) (id tenant : String) → All (IsRowOf id tenant) (audit_trail db id tenant)
unfolding audit_trail
audit_trail-IsRowOf db id tenant =
    All-sort_by (IsRowOf id tenant) (λ a. a.aggregate_version) _ (selected db.audit)
  where
    selected :
        (rows : List ConnectorAuditRecord)
        → All
            (IsRowOf id tenant)
            (select (λ a. str_eq a.connector_id id && str_eq a.tenant_id tenant) rows)
    selected [] = tt
    selected (a ∷ rest) =
        elim (Bool-cases (str_eq a.connector_id id && str_eq a.tenant_id tenant)) [
          | inl e ↦
              let (own, of_tenant) =
                &&-true (str_eq a.connector_id id) (str_eq a.tenant_id tenant) e in
              rw e (
                ((eq_iff a.connector_id id).0 own, (eq_iff a.tenant_id tenant).0 of_tenant),
                selected rest,
              )
          | inr e ↦ rw e (selected rest)
        ]
