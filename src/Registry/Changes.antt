-- ===== src/Registry/Changes.antt =====
-- The ways in which a call of main.py changes the database: the specification of one step.
use favl_agentic_content_os.Prelude.{
  ◌+◌, String, ◌≡◌, ◌≢◌, ◌⊎◌, true, Option, none, some, [], ◌∷◌, ◌++◌,
}
use favl_agentic_content_os.Lifecycle.State.{
  ConnectorState, deletion_requested, deleted, member, creatable_states,
}
use favl_agentic_content_os.Lifecycle.Table.{Transition}
use favl_agentic_content_os.Lifecycle.Lookup.{found, find_states}
use favl_agentic_content_os.Store.Rows.{ConnectorRecord, OutboxEvent}
use favl_agentic_content_os.Store.Tables.{Db, get_connector}

-- The state moves along the table, or by a deletion request from a state that is not deleted.
abbrev pub Moves : ConnectorState → ConnectorState → Type 0
Moves s t =
    ((event : Option String) × (row : Transition) × (find_states s t event ≡ found row))
    ⊎ ((t ≡ deletion_requested) × (s ≢ deleted))

-- One row of the table is written, and every other row is as it was.
pub record Writes (db db' : Db) (id : String) (after : ConnectorRecord) : Type 0 where
  pub written : get_connector id db'.connectors ≡ some after
  pub others :
      (j : String) → j ≢ id → get_connector j db'.connectors ≡ get_connector j db.connectors

-- The event that a write appends carries the row's identity and version.
pub record Announces (db db' : Db) (id : String) (after : ConnectorRecord) : Type 0 where
  pub event : OutboxEvent
  pub outbox : db'.outbox ≡ db.outbox ++ event ∷ []
  pub kind : event.aggregate_type ≡ "connector"
  pub aggregate : event.aggregate_id ≡ some id
  pub version : event.aggregate_version ≡ after.version

pub data Change (tenant : String) (db db' : Db) : Type 0 where
  unchanged : db' ≡ db → Change tenant db db'
  saved :
      (id : String) (before after : ConnectorRecord)
      → get_connector id db.connectors ≡ some before
      → before.tenant_id ≡ tenant
      → after.tenant_id ≡ tenant
      → after.status ≡ before.status
      → after.version ≡ before.version
      → Writes db db' id after
      → db'.outbox ≡ db.outbox
      → Change tenant db db'
  advanced :
      (id : String) (before after : ConnectorRecord)
      → get_connector id db.connectors ≡ some before
      → before.tenant_id ≡ tenant
      → after.tenant_id ≡ tenant
      → Moves before.status after.status
      → after.version ≡ before.version + 1
      → Writes db db' id after
      → Announces db db' id after
      → Change tenant db db'
  inserted :
      (id : String) (after : ConnectorRecord)
      → get_connector id db.connectors ≡ none
      → after.tenant_id ≡ tenant
      → member after.status creatable_states ≡ true
      → after.version ≡ 1
      → Writes db db' id after
      → Announces db db' id after
      → Change tenant db db'
