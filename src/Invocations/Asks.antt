-- ===== src/Invocations/Asks.antt =====
-- On whose behalf, and of which connector, an invocation asks an adapter.
use mathlib.Core.Path.{subst}
use favl_agentic_content_os.Prelude.{
  String, str_eq, eq_iff, ◌≡◌, refl, sym, Option, none, some, List, All, Bool-cases, Option-cases,
  inl, inr,
}
use favl_agentic_content_os.Json.{Fields}
use favl_agentic_content_os.Store.Rows.{ConnectorRecord, InvocationRecord}
use favl_agentic_content_os.Store.Tables.{Db, Clock, get_connector}
use favl_agentic_content_os.Store.Laws.{get_connector-id}
use favl_agentic_content_os.Registry.Schemas.{one_of}
use favl_agentic_content_os.Registry.Handlers.{tenant_connector, if_owned}
use favl_agentic_content_os.Invocations.Results.{InvocationRequest}
use favl_agentic_content_os.Invocations.Accept.{
  check_executable, Job, find_existing, breaks_constraint, accepted_row, race_lost, insert_accepted,
  on_existing, accept,
}
use favl_agentic_content_os.Invocations.Execute.{
  Runtime, Times, running_row, start, execute, request_of,
}
use favl_agentic_content_os.Invocations.Endpoint.{after_accept, when_read}

-- A request for a tenant, to a connector of that tenant.
abbrev pub IsFor : List ConnectorRecord → String → InvocationRequest → Type 0
IsFor connectors tenant q =
    (q.tenant_id ≡ tenant)
    × ((r : ConnectorRecord) × (get_connector q.connector_id connectors ≡ some r)
        × (r.tenant_id ≡ tenant))

module _ (rt : Runtime) (db : Db) (c : ConnectorRecord) (payload : Fields) (t : Times)
    (P : InvocationRequest → Type 0) where
  execute-asks :
      (db' : Db) (r : InvocationRecord)
      → ((r' : InvocationRecord) → r'.tenant_id ≡ r.tenant_id → P (request_of c payload r'))
      → All P (execute rt db' c r payload t).calls
  unfolding execute start
  execute-asks db' r h = elim (Bool-cases (one_of c.kind rt.kinds)) [
    | inl known ↦ rw known (h (running_row t.starting.now r) refl, tt)
    | inr unknown ↦ rw unknown tt
  ]

  race_lost-asks :
      (found : Option InvocationRecord)
      → All P (after_accept rt c payload t (db, race_lost found)).calls
  race_lost-asks none = tt
  race_lost-asks (some r) = tt

  accept-asks :
      (k : Clock) (job : Job)
      → ((r : InvocationRecord) → r.tenant_id ≡ job.tenant_id → P (request_of c payload r))
      → All P (after_accept rt c payload t (accept db c k job)).calls
  unfolding accept insert_accepted
  accept-asks k job h = go (find_existing job.tenant_id c.id job.idempotency_key db.invocations)
    where
      go :
          (found : Option InvocationRecord)
          → All P (after_accept rt c payload t (on_existing db c k job found)).calls
      go (some r) = tt
      go none = elim (Bool-cases (breaks_constraint (accepted_row c k job) db.invocations)) [
        | inl broken ↦ rw broken (race_lost-asks _)
        | inr fits ↦ rw fits (execute-asks _ (accepted_row c k job) h)
      ]

owned-some :
    (db : Db) (id tenant : String) (r : ConnectorRecord)
    → tenant_connector db id tenant ≡ some r
    → (get_connector id db.connectors ≡ some r) × (r.tenant_id ≡ tenant)
unfolding tenant_connector
owned-some db id tenant r h = elim (Option-cases (get_connector id db.connectors)) [
  | inl e ↦ cc (rw e at h)
  | inr (a, e) ↦ elim (Bool-cases (str_eq a.tenant_id tenant)) [
    | inl o ↦
        let same : a ≡ r = cc (rw (e, if_owned, o) at h) in
        (rw (← same) e, rw (← same) ((eq_iff a.tenant_id tenant).0 o))
    | inr o ↦ cc (rw (e, if_owned, o) at h)
  ]
]

-- The endpoints of a tenant ask only for it, and only its own connectors.
pub when_read-asks :
    (rt : Runtime) (db : Db) (id : String) (payload : Fields) (job : Job) (k : Clock) (t : Times)
    → All
        (IsFor db.connectors job.tenant_id)
        (when_read rt db payload job k t (tenant_connector db id job.tenant_id)).calls
when_read-asks rt db id payload job k t =
    elim (Option-cases (tenant_connector db id job.tenant_id)) [
      | inl e ↦ rw e tt
      | inr (c, e) ↦
          let (found, own) = owned-some db id job.tenant_id c e in
          let here : get_connector c.id db.connectors ≡ some c =
            subst (λ i. get_connector i db.connectors ≡ some c)
              (sym (get_connector-id id db.connectors c found)) found in
          elim (Option-cases (check_executable c)) [
            | inr (why, refused) ↦ rw (e, when_read, refused) tt
            | inl serves ↦
                rw (e, when_read, serves)
                  (accept-asks rt db c payload t (IsFor db.connectors job.tenant_id) k job
                    (λ r same. (same, (c, here, own))))
          ]
    ]
