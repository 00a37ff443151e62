-- ===== src/Invocations/Settles.antt =====
-- A new invocation that does not crash ends: its row, its events and its calls of an adapter.
use favl_agentic_content_os.Prelude.{
  ℕ, ◌+◌, ◌≡◌, refl, ap, ◌∙◌, String, str_eq, eq_iff, Bool, true, false, ◌&&◌, Option, none, some,
  List, [], ◌∷◌, ◌++◌, Bool-cases, length, if◌then◌else◌, inl, inr,
}
use mathlib.Core.List.{append_assoc}
use favl_agentic_content_os.Json.{Fields}
use favl_agentic_content_os.Store.Rows.{
  ConnectorRecord, InvocationRecord, OutboxEvent, InvocationStatus, accepted, running, succeeded,
  failed_retryable, failed_terminal, timed_out, cancelled,
}
use favl_agentic_content_os.Store.Tables.{Db, Clock, enqueue}
use favl_agentic_content_os.Registry.Schemas.{one_of}
use favl_agentic_content_os.Invocations.Results.{
  InvocationRequest, InvocationResult, failure, unknown_kind, seconds_remaining, upstream_timeout,
  upstream_error,
}
use favl_agentic_content_os.Invocations.Accept.{
  find_existing, Job, breaks_constraint, accepted_row, insert_accepted, accept, emit,
  invocation_event,
}
use favl_agentic_content_os.Invocations.Execute.{
  Runtime, Reply, returned, timeout, raised, result_of, running_row, finished_row, terminal_event,
  finalise, start, Times, execute, request_of,
}
use favl_agentic_content_os.Invocations.Endpoint.{Invoked, answer, answer_row, after_accept}
use favl_agentic_content_os.Invocations.Replay.{accept-Stored}
use favl_agentic_content_os.Invocations.Failures.{ends, failure_ends}

-- An adapter returns a result that ends the invocation, or no result.
abbrev pub Concludes : Runtime → Type 0
Concludes rt =
    (kind : String) (config : Fields) (q : InvocationRequest) (budget : ℕ)
    (result : InvocationResult)
    → rt.invoke kind config q budget ≡ returned result
    → ends result.status ≡ true

-- The versions of one invocation's events.
abbrev is_invocation_event : String → OutboxEvent → Bool
is_invocation_event id e =
    str_eq e.aggregate_type "invocation"
    && elim e.aggregate_id [ none ↦ Bool.false | some a ↦ str_eq a id ]

unfoldable pub invocation_versions : String → List OutboxEvent → List ℕ
invocation_versions id [] = []
invocation_versions id (e ∷ es) =
    let rest = invocation_versions id es in
    if is_invocation_event id e then e.aggregate_version ∷ rest else rest

invocation_versions-enqueue :
    (id : String) (k : Clock) (r : InvocationRecord) (event : String) (rows : List OutboxEvent)
    → r.id ≡ id
    → invocation_versions id (enqueue k.event_id k.now (invocation_event r event) rows)
      ≡ invocation_versions id rows ++ r.aggregate_version ∷ []
unfolding invocation_versions
invocation_versions-enqueue id k r event [] e = rw ((eq_iff r.id id).1 e) refl
invocation_versions-enqueue id k r event (x ∷ xs) e =
    let rest = invocation_versions-enqueue id k r event xs e in
    elim (Bool-cases (is_invocation_event id x)) [
      | inl q ↦ rw q (ap (λ vs. x.aggregate_version ∷ vs) rest)
      | inr q ↦ rw q rest
    ]

-- The response shows a row that has ended; its events were numbered from 1; and the adapter was
-- asked once, if the connector's kind has one.
pub record IsEnded (db : Db) (id : String) (known : Bool) (x : Invoked) : Type 0 where
  pub row : InvocationRecord
  pub response : x.response ≡ answer row
  pub same_id : row.id ≡ id
  pub ended : ends row.status ≡ true
  pub events :
      invocation_versions id x.db.outbox
      ≡ invocation_versions id db.outbox ++ (if known then 1 ∷ 2 ∷ 3 ∷ [] else 1 ∷ 2 ∷ [])
  pub calls : length x.calls ≡ (if known then 1 else 0)

event_of_end :
    (s : InvocationStatus) → ends s ≡ true → (event : String) × (terminal_event s ≡ some event)
event_of_end accepted e = cc e
event_of_end running e = cc e
event_of_end succeeded e = ("connector.invocation.succeeded", refl)
event_of_end timed_out e = ("connector.invocation.timed_out", refl)
event_of_end failed_retryable e = ("connector.invocation.failed", refl)
event_of_end failed_terminal e = ("connector.invocation.failed", refl)
event_of_end cancelled e = ("connector.invocation.failed", refl)

-- A result that ends the invocation is committed, with one more event.
finalise_commits :
    (db : Db) (k : Clock) (r : InvocationRecord) (result : InvocationResult)
    → ends result.status ≡ true
    → ((finalise db k r result).1 ≡ some (finished_row k.now result r))
      × (invocation_versions r.id (finalise db k r result).0.outbox
          ≡ invocation_versions r.id db.outbox ++ (r.aggregate_version + 1) ∷ [])
unfolding finalise emit
finalise_commits db k r result e =
    let (event, found) = event_of_end result.status e in
    let r' = finished_row k.now result r in
    rw found (refl, invocation_versions-enqueue r.id k r' event db.outbox refl)

result_of-ends :
    (rt : Runtime) (started : Option ℕ) (budget now : ℕ) (reply : Reply)
    → ((result : InvocationResult) → reply ≡ returned result → ends result.status ≡ true)
    → ends (result_of rt started budget now reply).status ≡ true
unfolding failure
result_of-ends rt started budget now (returned result) h = h result refl
result_of-ends rt started budget now timeout h = failure_ends upstream_timeout
result_of-ends rt started budget now (raised text) h = failure_ends upstream_error

module _ (rt : Runtime) (db : Db) (c : ConnectorRecord) (payload : Fields) (t : Times)
    (r : InvocationRecord) (old : List ℕ) (first_version : r.aggregate_version ≡ 1)
    (accepted_event : invocation_versions r.id db.outbox ≡ old ++ 1 ∷ []) where
  -- The adapter is asked, in the state running.
  known_settles :
      (result : InvocationResult)
      → ends result.status ≡ true
      → let x =
          finalise (start db t.starting r).0 t.finishing (running_row t.starting.now r) result in
        (x.1 ≡ some (finished_row t.finishing.now result (running_row t.starting.now r)))
        × (invocation_versions r.id x.0.outbox ≡ old ++ 1 ∷ 2 ∷ 3 ∷ [])
  unfolding start emit
  known_settles result e =
      let r' = running_row t.starting.now r in
      let (row, events) = finalise_commits (start db t.starting r).0 t.finishing r' result e in
      let begun =
        invocation_versions-enqueue r.id t.starting r' "connector.invocation.started" db.outbox
          refl in
      (
        row,
        events
            ∙ rw (begun, accepted_event, first_version)
                (append_assoc (old ++ 1 ∷ []) (2 ∷ []) (3 ∷ [])
                  ∙ append_assoc old (1 ∷ []) (2 ∷ 3 ∷ [])),
      )

  unknown_settles :
      (result : InvocationResult)
      → ends result.status ≡ true
      → let x = finalise db t.finishing r result in
        (x.1 ≡ some (finished_row t.finishing.now result r))
        × (invocation_versions r.id x.0.outbox ≡ old ++ 1 ∷ 2 ∷ [])
  unknown_settles result e =
      let (row, events) = finalise_commits db t.finishing r result e in
      (row, events ∙ rw (accepted_event, first_version) (append_assoc old (1 ∷ []) (2 ∷ [])))

accept-IsEnded :
    (rt : Runtime) (db : Db) (c : ConnectorRecord) (k : Clock) (job : Job) (payload : Fields)
    (t : Times)
    → Concludes rt
    → find_existing job.tenant_id c.id job.idempotency_key db.invocations ≡ none
    → breaks_constraint (accepted_row c k job) db.invocations ≡ false
    → IsEnded db k.row_id (one_of c.kind rt.kinds) (after_accept rt c payload t (accept db c k job))
unfolding accept insert_accepted execute emit failure finalise start
accept-IsEnded rt db c k job payload t concludes absent fits =
    let r = accepted_row c k job in
    let old = invocation_versions r.id db.outbox in
    let db1 =
      emit (record db { invocations = db.invocations ++ r ∷ [] }) k r
        "connector.invocation.accepted" in
    let event =
      invocation_versions-enqueue r.id k r "connector.invocation.accepted" db.outbox refl in
    elim (Bool-cases (one_of c.kind rt.kinds)) [
      | inl known ↦
          let r' = running_row t.starting.now r in
          let q = request_of c payload r' in
          let budget = seconds_remaining q t.asked_at in
          let reply = rt.invoke c.kind c.config q budget in
          let result = result_of rt r'.started_at budget t.finishing.now reply in
          let e =
            result_of-ends rt r'.started_at budget t.finishing.now reply
              (concludes c.kind c.config q budget) in
          let (row, events) = known_settles rt db1 c payload t r old refl event result e in
          rw (absent, fits, known)
            (record {
              row = finished_row t.finishing.now result r';
              response = ap answer_row row;
              same_id = refl;
              ended = e;
              events = events;
              calls = refl;
            })
      | inr unknown ↦
          let result = failure unknown_kind (rt.unknown_text c.kind) none none in
          let (row, events) = unknown_settles rt db1 c payload t r old refl event result refl in
          rw (absent, fits, unknown)
            (record {
              row = finished_row t.finishing.now result r;
              response = ap answer_row row;
              same_id = refl;
              ended = refl;
              events = events;
              calls = refl;
            })
    ]

-- It has ended, and the table has the row that the response shows.
pub record IsSettled (db : Db) (c : ConnectorRecord) (job : Job) (id : String) (known : Bool)
    (x : Invoked) : Type 0 where
  pub ended : IsEnded db id known x
  pub stored :
      find_existing job.tenant_id c.id job.idempotency_key x.db.invocations ≡ some ended.row

-- An invocation under a new key and a new id runs to its end, if a result that the adapter returns is of
-- a status that ends it, also where the adapter raises or lets the deadline pass: the response shows a
-- row that has ended, which is the row that the table has under the key; its events are numbered from
-- 1; and the adapter is asked once, if the connector's kind has one, or else not at all.
pub accept-IsSettled :
    (rt : Runtime) (db : Db) (c : ConnectorRecord) (k : Clock) (job : Job) (payload : Fields)
    (t : Times)
    → Concludes rt
    → find_existing job.tenant_id c.id job.idempotency_key db.invocations ≡ none
    → breaks_constraint (accepted_row c k job) db.invocations ≡ false
    → IsSettled db c job k.row_id
        (one_of c.kind rt.kinds)
        (after_accept rt c payload t (accept db c k job))
accept-IsSettled rt db c k job payload t concludes absent fits =
    let ended = accept-IsEnded rt db c k job payload t concludes absent fits in
    let kept = rw ended.response at (accept-Stored rt db c payload t k job) in
    record { ended = ended; stored = kept.0 }
