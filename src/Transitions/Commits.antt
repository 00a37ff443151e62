-- ===== src/Transitions/Commits.antt =====
-- When `apply` commits.
use favl_agentic_content_os.Prelude.{◌≡◌, ◌↔◌, refl, String, eq_iff}
use favl_agentic_content_os.Lifecycle.Safety.{find-value}
use favl_agentic_content_os.Store.Rows.{ConnectorRecord}
use favl_agentic_content_os.Store.Tables.{Db, Clock}
use favl_agentic_content_os.Transitions.Apply.{
  Outcome, applied, Request, moved, commit, take, on_found, on_record, apply,
}
use favl_agentic_content_os.Transitions.Effect.{Taken, Committed, Effect, apply-Effect}

-- `apply` returns a result that is no repeat.
abbrev pub Commits : Db → Request → Clock → Type 0
Commits db q k =
    (after : ConnectorRecord) × (event : String) × ((apply db q k).1 ≡ applied after event)

Taken-commits :
    (db : Db) (q : Request) (k : Clock) (t : Taken db q)
    → (apply db q k).1 ≡ applied (moved q k t.row t.before) t.row.event
unfolding apply on_record on_found take commit
Taken-commits db q k t =
    rw
      (
        t.read,
        (eq_iff t.before.tenant_id q.tenant_id).1 t.owned,
        find-value t.before.status q.target q.event,
        t.permitted,
        t.reasoned,
        t.unaudited,
      )
      refl

Taken-from :
    (db : Db) (q : Request) (o : Db × Outcome) (after : ConnectorRecord) (event : String)
    → Effect db q o
    → o.1 ≡ applied after event
    → Taken db q
Taken-from db q (db', o) after event effect e =
    let committed : Committed db db' q after event = rw e at effect in committed.taken

-- `apply` commits exactly if the connector is there, of the caller's tenant, the table has an edge
-- for its state, the target and the event, a reason that is not blank is given where that edge asks
-- for one, and no audit record of the connector has the next version.
pub apply-Commits_iff : (db : Db) (q : Request) (k : Clock) → Commits db q k ↔ Taken db q
apply-Commits_iff db q k = (
  λ c. Taken-from db q (apply db q k) c.0 c.1 (apply-Effect db q k) c.2,
  λ t. (moved q k t.row t.before, t.row.event, Taken-commits db q k t),
)
