-- ===== src/Invocations/Interleaving.antt =====
-- `accept` and `execute` of invocations.py, cut where they await: many calls, at most one of which is
-- between two such points, a crash at any of them, and the other handlers in between.
use favl_agentic_content_os.Prelude.{Option, none, some, List, [], ◌∷◌, ◌++◌, ◌≡◌, if◌then◌else◌}
use favl_agentic_content_os.Json.{Fields}
use favl_agentic_content_os.Store.Rows.{ConnectorRecord, InvocationRecord}
use favl_agentic_content_os.Store.Tables.{Db, Clock}
use favl_agentic_content_os.Registry.Schemas.{one_of}
use favl_agentic_content_os.Invocations.Results.{
  InvocationRequest, InvocationResult, failure, unknown_kind, seconds_remaining,
}
use favl_agentic_content_os.Invocations.Accept.{
  find_existing, Job, Acceptance, fresh, replayed, integrity_error, accepted_row, insert_accepted,
}
use favl_agentic_content_os.Invocations.Execute.{Runtime, start, finalise, request_of, result_of}
use favl_agentic_content_os.Invocations.Endpoint.{Answer, server_error, answer, answer_row}

-- Where a call stands: before it looks for its key, before it inserts its row, with its row
-- accepted, with its row running and the adapter about to be asked, with the adapter's result, and
-- after its response.
pub data Process : Type 0 where
  looking : ConnectorRecord → Job → Fields → Process
  inserting : ConnectorRecord → Job → Fields → Process
  accepted_as : ConnectorRecord → Fields → InvocationRecord → Process
  asking : ConnectorRecord → Fields → InvocationRecord → Process
  replying : InvocationRecord → InvocationResult → Process
  ended : Answer → Process

-- The database, where the call stands then, and what it has asked of an adapter.
pub record Advance : Type 0 where
  pub db : Db
  pub process : Process
  pub asked : List InvocationRequest

abbrev silent : Db → Process → Advance
silent db p = record { db = db; process = p; asked = [] }

abbrev pub looked : ConnectorRecord → Job → Fields → Option InvocationRecord → Process
looked c job payload none = inserting c job payload
looked c job payload (some r) = ended (answer r)

abbrev pub inserted : ConnectorRecord → Fields → Db × Acceptance → Advance
inserted c payload (db, fresh r) = silent db (accepted_as c payload r)
inserted c payload (db, replayed r racing) = silent db (ended (answer r))
inserted c payload (db, integrity_error) = silent db (ended server_error)

abbrev pub begun : ConnectorRecord → Fields → Db × InvocationRecord → Advance
begun c payload (db, r) = silent db (asking c payload r)

abbrev pub finished : Db × Option InvocationRecord → Advance
finished (db, r) = silent db (ended (answer_row r))

-- One step of a call; `k` is its clock.
unfoldable pub advance : Runtime → Clock → Db → Process → Advance
advance rt k db (looking c job payload) =
    silent db
      (looked c job payload (find_existing job.tenant_id c.id job.idempotency_key db.invocations))
advance rt k db (inserting c job payload) =
    inserted c payload (insert_accepted db k (accepted_row c k job))
advance rt k db (accepted_as c payload r) =
    if one_of c.kind rt.kinds
    then begun c payload (start db k r)
    else finished (finalise db k r (failure unknown_kind (rt.unknown_text c.kind) none none))
advance rt k db (asking c payload r) =
    let q = request_of c payload r in
    let budget = seconds_remaining q k.now in
    record {
      db = db;
      process =
          replying r (result_of rt r.started_at budget k.now (rt.invoke c.kind c.config q budget));
      asked = q ∷ [];
    }
advance rt k db (replying r result) = finished (finalise db k r result)
advance rt k db (ended a) = silent db (ended a)

-- The service: its database, the calls in progress, and all that adapters have been asked.
pub record World : Type 0 where
  pub db : Db
  pub processes : List Process
  pub asked : List InvocationRequest

abbrev pub acted : List InvocationRequest → List Process → List Process → Advance → World
acted asked before after a = record {
  db = a.db;
  processes = before ++ a.process ∷ after;
  asked = a.asked ++ asked;
}

-- A call arrives for a connector that may serve; a call takes a step; a call is lost with its
-- process; another handler writes what is no invocation.
pub data Step (rt : Runtime) : World → World → Type 0 where
  arrive :
      (w : World) (c : ConnectorRecord) (job : Job) (payload : Fields)
      → Step rt w (record w { processes = looking c job payload ∷ w.processes })
  act :
      (k : Clock) (db : Db) (asked : List InvocationRequest) (before : List Process) (p : Process)
      (after : List Process)
      → Step rt
          (record { db = db; processes = before ++ p ∷ after; asked = asked })
          (acted asked before after (advance rt k db p))
  crash :
      (db : Db) (asked : List InvocationRequest) (before : List Process) (p : Process)
      (after : List Process)
      → Step rt
          (record { db = db; processes = before ++ p ∷ after; asked = asked })
          (record { db = db; processes = before ++ after; asked = asked })
  elsewhere :
      (w : World) (db' : Db)
      → db'.invocations ≡ w.db.invocations
      → Step rt w (record w { db = db' })

pub data Reaches (rt : Runtime) : World → World → Type 0 where
  here : (w : World) → Reaches rt w w
  then_step : {u v w : World} → Reaches rt u v → Step rt v w → Reaches rt u w
