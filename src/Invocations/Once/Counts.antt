-- ===== src/Invocations/Once/Counts.antt =====
-- One step of a call, and what it does to the counts of a key.
use favl_agentic_content_os.Prelude.{
  ◌+◌, ◌≤◌, ◌≡◌, refl, String, Bool, false, Option, none, some, List, [], ◌∷◌, ◌++◌, arith,
  Bool-cases, inl, inr, if◌then◌else◌,
}
use favl_agentic_content_os.Json.{Fields}
use favl_agentic_content_os.Store.Rows.{ConnectorRecord, InvocationRecord}
use favl_agentic_content_os.Store.Tables.{Db, Clock}
use favl_agentic_content_os.Registry.Schemas.{one_of}
use favl_agentic_content_os.Invocations.Results.{InvocationRequest, InvocationResult}
use favl_agentic_content_os.Invocations.Accept.{
  has_key, Job, breaks_constraint, race_lost, accepted_row, insert_accepted, emit,
}
use favl_agentic_content_os.Invocations.Execute.{
  Runtime, put_invocation, running_row, finished_row, terminal_event, commit_final, start, finalise,
  request_of,
}
use favl_agentic_content_os.Invocations.Interleaving.{
  Process, looking, inserting, accepted_as, asking, replying, ended, looked, advance, inserted,
  finished,
}
use favl_agentic_content_os.Invocations.Once.Rows.{
  tally, tally-append, asks, Owned, tally-put_invocation, put_invocation-Owned, row_of-append_left,
  row_of-append_self, unused_key,
}

-- The call will ask for this key.
abbrev pub will_ask : String → String → String → Process → Bool
will_ask tenant connector key (accepted_as c payload r) =
    asks tenant connector key (request_of c payload r)
will_ask tenant connector key (asking c payload r) =
    asks tenant connector key (request_of c payload r)
will_ask tenant connector key p = false

abbrev pub Owns : List InvocationRecord → Process → Type 0
Owns rows (accepted_as c payload r) = Owned rows r
Owns rows (asking c payload r) = Owned rows r
Owns rows (replying r result) = Owned rows r
Owns rows p = Unit

-- What one step of a call may do to the table and to the counts.
pub record Fair (rows rows' : List InvocationRecord) (p p' : Process)
    (asked : List InvocationRequest) : Type 0 where
  pub balance :
      (tenant connector key : String)
      → (if will_ask tenant connector key p' then 1 else 0)
          + tally (asks tenant connector key) asked
          + tally (has_key tenant connector key) rows
        ≤ (if will_ask tenant connector key p then 1 else 0)
          + tally (has_key tenant connector key) rows'
  pub unique :
      (tenant connector key : String)
      → tally (has_key tenant connector key) rows ≤ 1
      → tally (has_key tenant connector key) rows' ≤ 1
  pub keeps : (r : InvocationRecord) → Owned rows r → Owned rows' r
  pub owns : Owns rows' p'

-- A step that leaves the table alone.
quiet :
    (rows : List InvocationRecord) (p p' : Process) (asked : List InvocationRequest)
    → ((tenant connector key : String)
        → (if will_ask tenant connector key p' then 1 else 0)
            + tally (asks tenant connector key) asked
          ≤ (if will_ask tenant connector key p then 1 else 0))
    → Owns rows p'
    → Fair rows rows p p' asked
quiet rows p p' asked h o = record {
  balance = λ t c k. omega (arith, h t c k);
  unique = λ t c k u. u;
  keeps = λ r e. e;
  owns = o;
}

-- The update of an owned row, by a row that keeps its id and its key.
put-Fair :
    (rows : List InvocationRecord) (r : InvocationRecord) (p p' : Process)
    → Owned rows r
    → ((tenant connector key : String)
        → (if will_ask tenant connector key p' then 1 else 0)
          ≤ (if will_ask tenant connector key p then 1 else 0))
    → Owns (put_invocation r rows) p'
    → Fair rows (put_invocation r rows) p p' []
put-Fair rows r p p' own h o = record {
  balance = λ t c k. omega (arith, h t c k, tally-put_invocation t c k r rows own);
  unique = λ t c k u. omega (arith, u, tally-put_invocation t c k r rows own);
  keeps = λ x e. put_invocation-Owned r x rows own e;
  owns = o;
}

put_self-Owned :
    (r : InvocationRecord) (rows : List InvocationRecord)
    → Owned rows r
    → Owned (put_invocation r rows) r
put_self-Owned r rows own = put_invocation-Owned r r rows own own

insert-Fair :
    (rows : List InvocationRecord) (c : ConnectorRecord) (k : Clock) (job : Job) (payload : Fields)
    → breaks_constraint (accepted_row c k job) rows ≡ false
    → Fair rows
        (rows ++ accepted_row c k job ∷ [])
        (inserting c job payload)
        (accepted_as c payload (accepted_row c k job))
        []
insert-Fair rows c k job payload fits =
    let r = accepted_row c k job in
    record {
      balance = λ t n key. omega (arith, tally-append (has_key t n key) rows (r ∷ []));
      unique = λ t n key u. elim (Bool-cases (has_key t n key r)) [
        | inl h ↦
            rw (tally-append (has_key t n key) rows (r ∷ []), h, unused_key t n key rows r fits h)
              (omega arith)
        | inr h ↦ rw (tally-append (has_key t n key) rows (r ∷ []), h) (omega (arith, u))
      ];
      keeps = λ x o. (o.0, row_of-append_left x.id rows r o.0 o.1, o.2);
      owns = (r, row_of-append_self rows r fits, (refl, refl, refl));
    }

-- The last write of a call, by whatever result it has.
finalise-Fair :
    (db : Db) (k : Clock) (r : InvocationRecord) (result : InvocationResult) (p : Process)
    → Owned db.invocations r
    → let x = finished (finalise db k r result) in
      Fair db.invocations x.db.invocations p x.process x.asked
unfolding finalise emit
finalise-Fair db k r result p own = go (terminal_event result.status)
  where
    go :
        (event : Option String)
        → let x = finished (commit_final db k (finished_row k.now result r) event) in
          Fair db.invocations x.db.invocations p x.process x.asked
    go none = quiet db.invocations p _ [] (λ t c key. omega arith) tt
    go (some event) =
        put-Fair db.invocations (finished_row k.now result r) p _ own (λ t c key. omega arith) tt

race_lost-Fair :
    (db : Db) (c : ConnectorRecord) (payload : Fields) (p : Process)
    (found : Option InvocationRecord)
    → let x = inserted c payload (db, race_lost found) in
      Fair db.invocations x.db.invocations p x.process x.asked
race_lost-Fair db c payload p none = quiet db.invocations p _ [] (λ t n key. omega arith) tt
race_lost-Fair db c payload p (some r) = quiet db.invocations p _ [] (λ t n key. omega arith) tt

looked-Fair :
    (rows : List InvocationRecord) (c : ConnectorRecord) (job : Job) (payload : Fields)
    (found : Option InvocationRecord)
    → Fair rows rows (looking c job payload) (looked c job payload found) []
looked-Fair rows c job payload none = quiet rows _ _ [] (λ t n key. omega arith) tt
looked-Fair rows c job payload (some r) = quiet rows _ _ [] (λ t n key. omega arith) tt

pub advance-Fair :
    (rt : Runtime) (k : Clock) (db : Db) (p : Process)
    → Owns db.invocations p
    → let x = advance rt k db p in Fair db.invocations x.db.invocations p x.process x.asked
unfolding advance insert_accepted start emit
advance-Fair rt k db (looking c job payload) own = looked-Fair db.invocations c job payload _
advance-Fair rt k db (inserting c job payload) own =
    elim (Bool-cases (breaks_constraint (accepted_row c k job) db.invocations)) [
      | inl broken ↦ rw broken (race_lost-Fair db c payload (inserting c job payload) _)
      | inr fits ↦ rw fits (insert-Fair db.invocations c k job payload fits)
    ]
advance-Fair rt k db (accepted_as c payload r) own = elim (Bool-cases (one_of c.kind rt.kinds)) [
  | inl known ↦
      let r' = running_row k.now r in
      rw known (
        put-Fair db.invocations r' (accepted_as c payload r) (asking c payload r') own
          (λ t n key. omega arith) (put_self-Owned r' db.invocations own))
  | inr unknown ↦ rw unknown (finalise-Fair db k r _ (accepted_as c payload r) own)
]
advance-Fair rt k db (asking c payload r) own =
    quiet db.invocations (asking c payload r) _ _ (λ t n key. omega arith) own
advance-Fair rt k db (replying r result) own = finalise-Fair db k r result (replying r result) own
advance-Fair rt k db (ended a) own = quiet db.invocations _ _ [] (λ t n key. omega arith) tt
