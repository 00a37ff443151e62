-- ===== src/Invocations/Replay/Rows.antt =====
-- The row that an accepted call leaves under its key.
use favl_agentic_content_os.Prelude.{
  ◌≡◌, refl, sym, ap, ◌∙◌, String, str_eq, eq_iff, true, false, Option, none, some, List, [], ◌∷◌,
  ◌++◌, Bool-cases, inl, inr, or_false,
}
use favl_agentic_content_os.Json.{Fields}
use favl_agentic_content_os.Store.Rows.{ConnectorRecord, InvocationRecord}
use favl_agentic_content_os.Store.Tables.{Db, Clock}
use favl_agentic_content_os.Registry.Schemas.{one_of}
use favl_agentic_content_os.Invocations.Results.{InvocationResult}
use favl_agentic_content_os.Invocations.Accept.{
  has_key, find_existing, emit, Job, breaks_constraint, accepted_row,
}
use favl_agentic_content_os.Invocations.Execute.{
  Runtime, put_invocation, finished_row, running_row, commit_final, finalise, start, Times,
  terminal_event, execute,
}
use favl_agentic_content_os.Invocations.Endpoint.{Answer, shown, answer_row, http_status_for}

-- The row at the end of a table is the one of its id and of its key.
abbrev pub IsLast : String → String → String → List InvocationRecord → InvocationRecord → Type 0
IsLast tenant connector key rows r =
    (breaks_constraint r rows ≡ false)
    × (find_existing tenant connector key rows ≡ none)
    × (has_key tenant connector key r ≡ true)

find_existing-append :
    (tenant connector key : String) (rows : List InvocationRecord) (r : InvocationRecord)
    → find_existing tenant connector key rows ≡ none
    → has_key tenant connector key r ≡ true
    → find_existing tenant connector key (rows ++ r ∷ []) ≡ some r
unfolding find_existing
find_existing-append tenant connector key [] r e h = rw h refl
find_existing-append tenant connector key (x ∷ xs) r e h =
    elim (Bool-cases (has_key tenant connector key x)) [
      | inl q ↦ cc (rw q at e)
      | inr q ↦ rw q (find_existing-append tenant connector key xs r (rw q at e) h)
    ]

put_invocation-append :
    (r r' : InvocationRecord) (rows : List InvocationRecord)
    → breaks_constraint r rows ≡ false
    → r'.id ≡ r.id
    → put_invocation r' (rows ++ r ∷ []) ≡ rows ++ r' ∷ []
unfolding put_invocation breaks_constraint
put_invocation-append r r' [] b e = rw ((eq_iff r.id r'.id).1 (sym e)) refl
put_invocation-append r r' (x ∷ xs) b e =
    let (here, rest) = or_false _ _ b in
    let (other, _) = or_false (str_eq x.id r.id) _ here in
    let other' : str_eq x.id r'.id ≡ false = ap (str_eq x.id) e ∙ other in
    rw other' (ap (λ ys. x ∷ ys) (put_invocation-append r r' xs rest e))

-- What a response that shows a row says: that row is stored under the key, with the status that its
-- own state has.
abbrev pub Stored : String → String → String → Db → Answer → Type 0
Stored tenant connector key db (shown r http_status) =
    (find_existing tenant connector key db.invocations ≡ some r)
    × (http_status ≡ http_status_for r.status)
Stored tenant connector key db other = Unit

module _ (tenant connector key : String) where
  -- The row that `_finalise` writes over the last one.
  pub finalise-Stored :
      (db : Db) (k : Clock) (rows : List InvocationRecord) (r : InvocationRecord)
      (result : InvocationResult)
      → db.invocations ≡ rows ++ r ∷ []
      → IsLast tenant connector key rows r
      → let (db', r') = finalise db k r result in Stored tenant connector key db' (answer_row r')
  unfolding finalise emit
  finalise-Stored db k rows r result e (b, f, h) =
      let r' = finished_row k.now result r in
      go (terminal_event result.status) (
        rw (e, put_invocation-append r r' rows b refl)
          (find_existing-append tenant connector key rows r' f h))
    where
      go :
          (event : Option String)
          → find_existing tenant connector key
              (put_invocation (finished_row k.now result r) db.invocations)
            ≡ some (finished_row k.now result r)
          → let (db', r') = commit_final db k (finished_row k.now result r) event in
            Stored tenant connector key db' (answer_row r')
      go none found = tt
      go (some event) found = (found, refl)

  start-last :
      (db : Db) (k : Clock) (rows : List InvocationRecord) (r : InvocationRecord)
      → db.invocations ≡ rows ++ r ∷ []
      → breaks_constraint r rows ≡ false
      → (start db k r).0.invocations ≡ rows ++ (start db k r).1 ∷ []
  unfolding start emit
  start-last db k rows r e b = rw e (put_invocation-append r (running_row k.now r) rows b refl)

  pub execute-Stored :
      (rt : Runtime) (db : Db) (c : ConnectorRecord) (payload : Fields) (t : Times)
      (rows : List InvocationRecord) (r : InvocationRecord)
      → db.invocations ≡ rows ++ r ∷ []
      → IsLast tenant connector key rows r
      → let x = execute rt db c r payload t in Stored tenant connector key x.db (answer_row x.row)
  unfolding execute start breaks_constraint
  execute-Stored rt db c payload t rows r e last = elim (Bool-cases (one_of c.kind rt.kinds)) [
    | inl known ↦ rw known (
        finalise-Stored (start db t.starting r).0 t.finishing rows (start db t.starting r).1 _
          (start-last db t.starting rows r e last.0) last)
    | inr unknown ↦ rw unknown (finalise-Stored db t.finishing rows r _ e last)
  ]

pub accepted_row-has_key :
    (c : ConnectorRecord) (k : Clock) (job : Job)
    → has_key job.tenant_id c.id job.idempotency_key (accepted_row c k job) ≡ true
accepted_row-has_key c k job =
    rw
      (
        (eq_iff job.tenant_id job.tenant_id).1 refl,
        (eq_iff c.id c.id).1 refl,
        (eq_iff job.idempotency_key job.idempotency_key).1 refl,
      )
      refl
