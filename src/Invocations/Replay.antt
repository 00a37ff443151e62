-- ===== src/Invocations/Replay.antt =====
-- What a repeated idempotency key gets: the row that the first call left, whatever has become of it.
pub mod Rows
use favl_agentic_content_os.Prelude.{
  ℕ, ◌≡◌, refl, sym, ap, ◌∙◌, String, str_eq, eq_iff, true, false, Option, none, some, List, [],
  ◌∷◌, ◌++◌, Bool-cases, Option-cases, inl, inr, or_false,
}
use favl_agentic_content_os.Json.{Fields}
use favl_agentic_content_os.Store.Rows.{ConnectorRecord, InvocationRecord}
use favl_agentic_content_os.Store.Tables.{Db, Clock}
use favl_agentic_content_os.Registry.Handlers.{CallerIdentity, tenant_connector}
use favl_agentic_content_os.Registry.Schemas.{one_of}
use favl_agentic_content_os.Invocations.Results.{InvocationResult}
use favl_agentic_content_os.Invocations.Accept.{
  check_executable, has_key, find_existing, emit, Job, breaks_constraint, race_lost, accepted_row,
  insert_accepted, on_existing, accept,
}
use favl_agentic_content_os.Invocations.Execute.{
  Runtime, put_invocation, finished_row, running_row, commit_final, finalise, start, Times,
  terminal_event, execute,
}
use favl_agentic_content_os.Invocations.Endpoint.{
  Answer, shown, InvocationCreate, Invoked, answer_row, only_answer, after_accept, job_of,
  when_read, http_status_for, invoke_connector_v1,
}
use favl_agentic_content_os.Invocations.Replay.Rows.{
  Stored, IsLast, execute-Stored, accepted_row-has_key,
}

-- The runtime leaves the connectors alone.
finalise_connectors :
    (db : Db) (k : Clock) (r : InvocationRecord) (result : InvocationResult)
    → (finalise db k r result).0.connectors ≡ db.connectors
unfolding finalise emit
finalise_connectors db k r result = go (terminal_event result.status)
  where
    go :
        (event : Option String)
        → (commit_final db k (finished_row k.now result r) event).0.connectors ≡ db.connectors
    go none = refl
    go (some event) = refl

execute_connectors :
    (rt : Runtime) (db : Db) (c : ConnectorRecord) (r : InvocationRecord) (payload : Fields)
    (t : Times)
    → (execute rt db c r payload t).db.connectors ≡ db.connectors
unfolding execute start emit
execute_connectors rt db c r payload t = elim (Bool-cases (one_of c.kind rt.kinds)) [
  | inl known ↦ rw known (finalise_connectors (start db t.starting r).0 t.finishing _ _)
  | inr unknown ↦ rw unknown (finalise_connectors db t.finishing r _)
]

module _ (rt : Runtime) (db : Db) (c : ConnectorRecord) (payload : Fields) (t : Times) where
  abbrev StoredAfter : Job → Invoked → Type 0
  StoredAfter job x = Stored job.tenant_id c.id job.idempotency_key x.db x.response

  insert-Stored :
      (k : Clock) (job : Job)
      → find_existing job.tenant_id c.id job.idempotency_key db.invocations ≡ none
      → StoredAfter job (after_accept rt c payload t (insert_accepted db k (accepted_row c k job)))
  unfolding insert_accepted emit
  insert-Stored k job absent =
      let r = accepted_row c k job in
      elim (Bool-cases (breaks_constraint r db.invocations)) [
        | inl broken ↦ rw (broken, absent) tt
        | inr fits ↦ rw fits (
            execute-Stored job.tenant_id c.id job.idempotency_key rt _ c payload t db.invocations r
              refl (fits, absent, accepted_row-has_key c k job))
      ]

  pub accept-Stored :
      (k : Clock) (job : Job) → StoredAfter job (after_accept rt c payload t (accept db c k job))
  unfolding accept
  accept-Stored k job =
      elim (Option-cases (find_existing job.tenant_id c.id job.idempotency_key db.invocations)) [
        | inl absent ↦ rw absent (insert-Stored k job absent)
        | inr (r, found) ↦ rw found (found, refl)
      ]

  race_lost_connectors :
      (found : Option InvocationRecord)
      → (after_accept rt c payload t (db, race_lost found)).db.connectors ≡ db.connectors
  race_lost_connectors none = refl
  race_lost_connectors (some r) = refl

  accept_connectors :
      (k : Clock) (job : Job)
      → (after_accept rt c payload t (accept db c k job)).db.connectors ≡ db.connectors
  unfolding accept insert_accepted emit
  accept_connectors k job = go (find_existing job.tenant_id c.id job.idempotency_key db.invocations)
    where
      go :
          (found : Option InvocationRecord)
          → (after_accept rt c payload t (on_existing db c k job found)).db.connectors
            ≡ db.connectors
      go (some r) = refl
      go none = elim (Bool-cases (breaks_constraint (accepted_row c k job) db.invocations)) [
        | inl broken ↦ rw broken (race_lost_connectors _)
        | inr fits ↦ rw fits (execute_connectors rt _ c (accepted_row c k job) payload t)
      ]

-- The connector that the call reads, and the check of its state, made once.
when_read-repeats :
    (rt : Runtime) (db : Db) (p p' : InvocationCreate) (job job' : Job) (k k' : Clock)
    (t t' : Times) (read : Option ConnectorRecord) (r : InvocationRecord) (http_status : ℕ)
    → job'.tenant_id ≡ job.tenant_id
    → job'.idempotency_key ≡ job.idempotency_key
    → (when_read rt db p.payload job k t read).response ≡ shown r http_status
    → let x = when_read rt db p.payload job k t read in
      (rt' : Runtime)
      → when_read rt' x.db p'.payload job' k' t' read ≡ only_answer x.db (shown r http_status)
unfolding accept
when_read-repeats rt db p p' job job' k k' t t' none r http_status ten key e rt' = cc e
when_read-repeats rt db p p' job job' k k' t t' (some c) r http_status ten key e rt' =
    elim (Option-cases (check_executable c)) [
      | inr (why, refused) ↦ cc (e, refused)
      | inl serves ↦
          let e' : (after_accept rt c p.payload t (accept db c k job)).response
              ≡ shown r http_status =
            rw serves at e in
          let (found, same) = rw e' at (accept-Stored rt db c p.payload t k job) in
          rw (serves, ten, key, found, same) refl
    ]

pub when_read_connectors :
    (rt : Runtime) (db : Db) (payload : Fields) (job : Job) (k : Clock) (t : Times)
    (read : Option ConnectorRecord)
    → (when_read rt db payload job k t read).db.connectors ≡ db.connectors
when_read_connectors rt db payload job k t none = refl
when_read_connectors rt db payload job k t (some c) = elim (Option-cases (check_executable c)) [
  | inr (why, refused) ↦ rw refused refl
  | inl serves ↦ rw serves (accept_connectors rt db c payload t k job)
]

-- When a call has been answered with a row, the next call on the database that it left, under the same
-- idempotency key, by the same tenant and to the same connector, is answered with that row and that
-- status, for whatever body, runtime and time it has; it changes nothing, and no adapter is asked
-- again.
pub invoke-replays :
    (rt rt' : Runtime) (db : Db) (caller caller' : CallerIdentity) (id : String)
    (p p' : InvocationCreate) (trace trace' : Option String) (k k' : Clock) (t t' : Times)
    (r : InvocationRecord) (http_status : ℕ)
    → caller'.tenant_id ≡ caller.tenant_id
    → p'.idempotency_key ≡ p.idempotency_key
    → (invoke_connector_v1 rt db caller id p trace k t).response ≡ shown r http_status
    → let db' = (invoke_connector_v1 rt db caller id p trace k t).db in
      invoke_connector_v1 rt' db' caller' id p' trace' k' t'
      ≡ record { db = db'; response = shown r http_status; calls = [] }
unfolding invoke_connector_v1 tenant_connector
invoke-replays rt rt' db caller caller' id p p' trace trace' k k' t t' r http_status ten key e =
    let read = tenant_connector db id caller.tenant_id in
    let job = job_of caller p trace in
    let job' = record (job_of caller' p' trace') { tenant_id = caller.tenant_id } in
    let same_read = when_read_connectors rt db p.payload job k t read in
    rw (same_read, ten)
      (when_read-repeats rt db p p' job job' k k' t t' read r http_status refl key e rt')
