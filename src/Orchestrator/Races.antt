-- ===== src/Orchestrator/Races.antt =====
-- An invocation that commits between the read and the commit of `delete_agent`, which takes no lock.
use favl_agentic_content_os.Prelude.{
  ℕ, zero, suc, ◌+◌, ◌≤◌, String, ◌≡◌, refl, sym, ap, ◌∙◌, none, some, List, [], ◌∷◌, ◌++◌, map,
  arith, count_up, count_up-suc,
}
use mathlib.Core.Path.{subst}
use favl_agentic_content_os.Json.{Fields}
use favl_agentic_content_os.Store.Tables.{Clock}
use favl_agentic_content_os.Outbox.Ordering.{
  applied, Redelivers, again, done, next, applied-Redelivers,
}
use favl_agentic_content_os.Outbox.Delivery.{up_from, count_up-split}
use favl_agentic_content_os.Orchestrator.Agents.{AgentRecord, AgentDb, read_agent, agent_versions}
use favl_agentic_content_os.Orchestrator.Endpoints.{
  tenant_agent, delete_commit, commit_invocation, after_fresh_read, finish_invocation,
  invocation_result,
}
use favl_agentic_content_os.Orchestrator.Laws.{read_agent-remove, announced_self}
use favl_agentic_content_os.Orchestrator.Changes.{tenant_agent-some}
use favl_agentic_content_os.Orchestrator.Versions.{IsOrdered, Covers}

-- The last version of a stream arrives twice.
last_again : (n k m : ℕ) → n + k ≡ m → 1 ≤ m → Redelivers n (map some (up_from n k ++ m ∷ [])) m
last_again n zero m total some_there =
    let here : n ≡ m = omega arith in rw here (again m m (omega arith) some_there (done m))
last_again n (suc k) m total some_there = next n (last_again (suc n) k m (omega arith) some_there)

repeated_last : (m : ℕ) → 1 ≤ m → applied none (map some (count_up m ++ m ∷ [])) ≡ count_up m
unfolding count_up
repeated_last m some_there =
    let from_none : 0 + m ≡ m = omega arith in
    let upward : count_up m ≡ up_from 0 m = sym (count_up-split 0 m ∙ ap count_up from_none) in
    applied-Redelivers _ m (rw upward (last_again 0 m m (omega arith) some_there))

module _ (db : AgentDb) (k k' : Clock) (id : String) (r : AgentRecord) (result : Fields) where
  invoked_db : AgentDb
  invoked_db = commit_invocation db k id result r

  raced_versions :
      agent_versions id (delete_commit invoked_db k' id r).outbox
      ≡ (agent_versions id db.outbox ++ (r.version + 1) ∷ []) ++ (r.version + 1) ∷ []
  unfolding invoked_db commit_invocation delete_commit
  raced_versions =
      announced_self invoked_db (delete_commit invoked_db k' id r) id (r.version + 1)
        (record { event = _; outbox = refl; kind = refl; aggregate = refl; has_version = refl })
      ∙ ap (λ l. l ++ (r.version + 1) ∷ [])
          (announced_self db invoked_db id (r.version + 1) (record {
            event = _;
            outbox = refl;
            kind = refl;
            aggregate = refl;
            has_version = refl;
          }))

-- The database after a deletion whose read came before, and whose commit after, that of an invocation.
abbrev pub raced : AgentDb → String → Clock → Clock → String → AgentRecord → List Fields → AgentDb
raced db tenant k k' id r outputs =
    delete_commit (finish_invocation db tenant k id (some outputs)).0 k' id r

-- If an invocation of an agent commits between the read and the commit of its deletion, the agent is
-- gone, but the version on its last two events is the same, and a consumer that receives each event
-- once in order drops the deletion as a replay.
pub deletion_dropped :
    (db : AgentDb) (tenant : String) (k k' : Clock) (id : String) (r : AgentRecord)
    (outputs : List Fields)
    → IsOrdered db
    → tenant_agent db id tenant ≡ some r
    → (read_agent id (raced db tenant k k' id r outputs).agents ≡ none)
      × (agent_versions id (raced db tenant k k' id r outputs).outbox
          ≡ count_up (r.version + 1) ++ (r.version + 1) ∷ [])
      × (applied none (map some (agent_versions id (raced db tenant k k' id r outputs).outbox))
          ≡ count_up (r.version + 1))
unfolding finish_invocation invoked_db delete_commit
deletion_dropped db tenant k k' id r outputs o read =
    let result = invocation_result id outputs in
    let here = (tenant_agent-some db id tenant r read).0 in
    let before : agent_versions id db.outbox ≡ count_up r.version =
      subst (λ b. Covers b (agent_versions id db.outbox)) here (o.at id) in
    let versions : agent_versions id (raced db tenant k k' id r outputs).outbox
        ≡ count_up (r.version + 1) ++ (r.version + 1) ∷ [] =
      rw (read, after_fresh_read)
        (raced_versions db k k' id r result
          ∙ ap (λ l. l ++ (r.version + 1) ∷ [])
              (ap (λ l. l ++ (r.version + 1) ∷ []) before ∙ sym (count_up-suc r.version))) in
    (
      read_agent-remove id _,
      versions,
      ap (λ l. applied none (map some l)) versions ∙ repeated_last (r.version + 1) (omega arith),
    )
