-- ===== src/Invocations/Once.antt =====
-- An adapter is asked at most once for a tenant's key at a connector, however the calls interleave.
pub mod Rows
pub mod Counts
use favl_agentic_content_os.Prelude.{
  ℕ, zero, suc, ◌+◌, ◌≤◌, ◌≡◌, ◌≢◌, refl, sym, ap, ◌∙◌, String, str_eq, eq_iff, Bool, true, false,
  ◌&&◌, ◌||◌, Option, none, some, List, [], ◌∷◌, ◌++◌, any, All, All-append, All-map, arith,
  Bool-cases, Option-cases, or_false, &&-true, inl, inr, if◌then◌else◌,
}
use mathlib.Core.Option.{some-injective}
use favl_agentic_content_os.Json.{Fields}
use favl_agentic_content_os.Store.Rows.{ConnectorRecord, InvocationRecord}
use favl_agentic_content_os.Store.Tables.{Db, Clock}
use favl_agentic_content_os.Registry.Schemas.{one_of}
use favl_agentic_content_os.Invocations.Results.{InvocationRequest, InvocationResult}
use favl_agentic_content_os.Invocations.Accept.{
  has_key, find_existing, Job, Acceptance, fresh, replayed, integrity_error, breaks_constraint,
  race_lost, accepted_row, insert_accepted, emit,
}
use favl_agentic_content_os.Invocations.Execute.{
  Runtime, put_invocation, running_row, finished_row, terminal_event, commit_final, start, finalise,
  request_of,
}
use favl_agentic_content_os.Invocations.Interleaving.{
  Process, looking, inserting, accepted_as, asking, replying, ended, Advance, looked, advance,
  inserted, finished, World, acted, Step, arrive, act, crash, elsewhere, Reaches, here, then_step,
}
use favl_agentic_content_os.Invocations.Once.Rows.{
  tally, tally-append, asks, row_of, SameKey, Owned, same_has_key, tally-put_invocation,
  put_invocation-Owned, row_of-append_left, row_of-append_self, unused_key,
}
use favl_agentic_content_os.Invocations.Once.Counts.{will_ask, Owns, advance-Fair}

-- Who will ask and who has asked for a key adds up to at most the rows with it, of which there is at
-- most one.
pub record IsOnce (w : World) : Type 0 where
  pub counted :
      (tenant connector key : String)
      → tally (will_ask tenant connector key) w.processes
          + tally (asks tenant connector key) w.asked
        ≤ tally (has_key tenant connector key) w.db.invocations
  pub unique :
      (tenant connector key : String) → tally (has_key tenant connector key) w.db.invocations ≤ 1
  pub owned : All (Owns w.db.invocations) w.processes

All-split :
    (P : Process → Type 0) (before : List Process) (p : Process) (after : List Process)
    → All P (before ++ p ∷ after)
    → All P before × P p × All P after
All-split P [] p after h = (tt, h.0, h.1)
All-split P (x ∷ xs) p after h =
    let (front, here_too, back) = All-split P xs p after h.1 in ((h.0, front), here_too, back)

Owns-keeps :
    (rows rows' : List InvocationRecord)
    → ((r : InvocationRecord) → Owned rows r → Owned rows' r)
    → (p : Process) → Owns rows p
    → Owns rows' p
Owns-keeps rows rows' h (looking c job payload) o = tt
Owns-keeps rows rows' h (inserting c job payload) o = tt
Owns-keeps rows rows' h (accepted_as c payload r) o = h r o
Owns-keeps rows rows' h (asking c payload r) o = h r o
Owns-keeps rows rows' h (replying r result) o = h r o
Owns-keeps rows rows' h (ended a) o = tt

act-IsOnce :
    (rt : Runtime) (k : Clock) (db : Db) (asked : List InvocationRequest) (before : List Process)
    (p : Process) (after : List Process)
    → IsOnce (record { db = db; processes = before ++ p ∷ after; asked = asked })
    → IsOnce (acted asked before after (advance rt k db p))
act-IsOnce rt k db asked before p after w =
    let x = advance rt k db p in
    let (front, mine, back) = All-split (Owns db.invocations) before p after w.owned in
    let fair = advance-Fair rt k db p mine in
    let carry : (ps : List Process)
        → All (Owns db.invocations) ps
        → All (Owns x.db.invocations) ps =
      All-map (Owns db.invocations) (Owns x.db.invocations)
        (Owns-keeps db.invocations x.db.invocations fair.keeps) in
    record {
      counted = λ t n key. omega (
        arith,
        w.counted t n key,
        fair.balance t n key,
        tally-append (will_ask t n key) before (p ∷ after),
        tally-append (will_ask t n key) before (x.process ∷ after),
        tally-append (asks t n key) x.asked asked,
      );
      unique = λ t n key. fair.unique t n key (w.unique t n key);
      owned =
          All-append (Owns x.db.invocations) before (x.process ∷ after) (carry before front)
            (fair.owns, carry after back);
    }

crash-IsOnce :
    (db : Db) (asked : List InvocationRequest) (before : List Process) (p : Process)
    (after : List Process)
    → IsOnce (record { db = db; processes = before ++ p ∷ after; asked = asked })
    → IsOnce (record { db = db; processes = before ++ after; asked = asked })
crash-IsOnce db asked before p after w =
    let (front, mine, back) = All-split (Owns db.invocations) before p after w.owned in
    record {
      counted = λ t n key. omega (
        arith,
        w.counted t n key,
        tally-append (will_ask t n key) before (p ∷ after),
        tally-append (will_ask t n key) before after,
      );
      unique = w.unique;
      owned = All-append (Owns db.invocations) before after front back;
    }

Step-IsOnce : (rt : Runtime) (v w : World) → Step rt v w → IsOnce v → IsOnce w
Step-IsOnce rt v w (arrive u c job payload) once = record {
  counted = λ t n key. omega (arith, once.counted t n key);
  unique = once.unique;
  owned = (tt, once.owned);
}
Step-IsOnce rt v w (act k db asked before p after) once =
    act-IsOnce rt k db asked before p after once
Step-IsOnce rt v w (crash db asked before p after) once = crash-IsOnce db asked before p after once
Step-IsOnce rt v w (elsewhere u db' same) once = record {
  counted = rw same once.counted;
  unique = rw same once.unique;
  owned = rw same once.owned;
}

Reaches-IsOnce : {rt : Runtime} {v w : World} → Reaches rt v w → IsOnce v → IsOnce w
Reaches-IsOnce (here w) once = once
Reaches-IsOnce {rt} (then_step {v = v} {w = w} r s) once =
    Step-IsOnce rt v w s (Reaches-IsOnce r once)

-- From a database with no two invocations of one key, such as the empty one, before any call has
-- arrived: whatever calls arrive, however their steps interleave and wherever they crash, adapters
-- are asked at most once for a tenant's key at a connector, and only for a key that is stored.
pub asked_once :
    (rt : Runtime) (db : Db) (w : World) (tenant connector key : String)
    → ((t n k : String) → tally (has_key t n k) db.invocations ≤ 1)
    → Reaches rt (record { db = db; processes = []; asked = [] }) w
    → (tally (asks tenant connector key) w.asked ≤ 1)
      × (tally (asks tenant connector key) w.asked
          ≤ tally (has_key tenant connector key) w.db.invocations)
asked_once rt db w tenant connector key distinct r =
    let start : IsOnce (record { db = db; processes = []; asked = [] }) = record {
      counted = λ t n k. omega arith;
      unique = distinct;
      owned = tt;
    } in
    let once = Reaches-IsOnce r start in
    (
      omega (arith, once.counted tenant connector key, once.unique tenant connector key),
      omega (arith, once.counted tenant connector key),
    )
