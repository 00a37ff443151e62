-- ===== src/Orchestrator/Versions.antt =====
-- The events of an agent carry the versions 1, 2, 3, ..., whatever calls are made, so that a consumer
-- drops none of them.
use favl_agentic_content_os.Prelude.{
  ℕ, ◌+◌, String, ◌≡◌, ◌≢◌, ◌⊎◌, inl, inr, refl, sym, ap, ◌∙◌, Option, none, some, List, [], ◌∷◌,
  ◌++◌, dec_string, count_up, count_up-suc,
}
use mathlib.Core.Path.{subst}
use favl_agentic_content_os.Outbox.Ordering.{applied}
use favl_agentic_content_os.Outbox.Delivery.{Delivers, applied-Delivers}
use favl_agentic_content_os.Orchestrator.Agents.{AgentRecord, AgentDb, read_agent, agent_versions}
use favl_agentic_content_os.Orchestrator.FanOut.{MeshSettings, MeshCall, MeshReply}
use favl_agentic_content_os.Orchestrator.Endpoints.{agent_step}
use favl_agentic_content_os.Orchestrator.Laws.{announced_self, announced_other}
use favl_agentic_content_os.Orchestrator.Changes.{
  Change, unchanged, changed, Follows, agent_step-Change,
}
use favl_agentic_content_os.Orchestrator.Runs.{AgentArrival, agent_run}

-- The events of a row that stands are those of its versions; those of a row that does not are 1 to n.
abbrev pub Covers : Option AgentRecord → List ℕ → Type 0
Covers none vs = (n : ℕ) × (vs ≡ count_up n)
Covers (some r) vs = vs ≡ count_up r.version

pub record IsOrdered (db : AgentDb) : Type 0 where
  pub at : (id : String) → Covers (read_agent id db.agents) (agent_versions id db.outbox)

count_up-one : [] ++ 1 ∷ [] ≡ count_up 1
unfolding count_up
count_up-one = refl

Covers-next :
    (before after : Option AgentRecord) (v : ℕ) (vs : List ℕ)
    → Follows before after v
    → (before ≡ none → vs ≡ [])
    → Covers before vs
    → Covers after (vs ++ v ∷ [])
Covers-next none none v vs f empty c = absurd f
Covers-next none (some a) v vs f empty c = rw (f.0, f.1, empty refl) count_up-one
Covers-next (some b) none v vs f empty c = (b.version + 1, rw (f, c) (sym (count_up-suc b.version)))
Covers-next (some b) (some a) v vs f empty c = rw (f.0, f.1, c) (sym (count_up-suc b.version))

Change-IsOrdered :
    (tenant row_id : String) (db db' : AgentDb)
    → agent_versions row_id db.outbox ≡ []
    → Change tenant row_id db db'
    → IsOrdered db
    → IsOrdered db'
Change-IsOrdered tenant row_id db db' new (unchanged e) o = rw e o
Change-IsOrdered tenant row_id db db' new (changed id before after v read _ _ fresh f w n) o =
    record { at = λ j. at_key j (dec_string j id) }
  where
    empty : before ≡ none → agent_versions id db.outbox ≡ []
    empty b = ap (λ i. agent_versions i db.outbox) (fresh b) ∙ new

    here : Covers after (agent_versions id db.outbox ++ v ∷ [])
    here =
        Covers-next before after v (agent_versions id db.outbox) f empty
          (subst (λ b. Covers b (agent_versions id db.outbox)) read (o.at id))

    at_key :
        (j : String)
        → (j ≡ id) ⊎ (j ≢ id)
        → Covers (read_agent j db'.agents) (agent_versions j db'.outbox)
    at_key j (inl e) = rw (e, w.written, announced_self db db' id v n) here
    at_key j (inr ne) = rw (w.others j ne, announced_other db db' id j v n ne) (o.at j)

module _ {S : Type 0} (post : S → MeshCall → S × MeshReply) (s : MeshSettings) where
  -- No id that `uuid4` returns was used for an agent before.
  unfoldable pub IsUnused : S → AgentDb → List AgentArrival → Type 0
  IsUnused mesh db [] = Unit
  IsUnused mesh db (x ∷ xs) =
      let turn = agent_step post s mesh db x.tenant x.clock x.request in
      (agent_versions x.clock.row_id db.outbox ≡ []) × IsUnused turn.mesh turn.db xs

  -- From a database in order, such as the empty one, any calls by any tenants leave it in order, if no
  -- generated id is used twice: the versions on an agent's events are 1, 2, ..., n, each once, where n
  -- is the version of the agent's row if it stands.
  pub agent_run-IsOrdered :
      (mesh : S) (db : AgentDb) (xs : List AgentArrival)
      → IsUnused mesh db xs
      → IsOrdered db
      → IsOrdered (agent_run post s mesh db xs)
  unfolding agent_run IsUnused
  agent_run-IsOrdered mesh db [] u o = o
  agent_run-IsOrdered mesh db (x ∷ xs) u o =
      let turn = agent_step post s mesh db x.tenant x.clock x.request in
      agent_run-IsOrdered turn.mesh turn.db xs u.1 (
        Change-IsOrdered x.tenant x.clock.row_id db turn.db u.0
          (agent_step-Change post s mesh db x.tenant x.clock x.request) o)

  counted : (row : Option AgentRecord) (vs : List ℕ) → Covers row vs → (n : ℕ) × (vs ≡ count_up n)
  counted none vs c = c
  counted (some r) vs c = (r.version, c)

  -- From a database in order, such as the empty one, if no generated id is used twice, and no call comes
  -- between the read and the commit of a deletion: after any calls by any tenants, a consumer that
  -- receives the events of an agent in the order of their insertion, each at least once, applies every
  -- one of them exactly once.
  pub agent_run-applied :
      (mesh : S) (db : AgentDb) (xs : List AgentArrival) (id : String) (messages : List (Option ℕ))
      → IsUnused mesh db xs
      → IsOrdered db
      → Delivers [] (agent_versions id (agent_run post s mesh db xs).outbox) messages
      → applied none messages ≡ agent_versions id (agent_run post s mesh db xs).outbox
  agent_run-applied mesh db xs id messages u o d =
      let after = agent_run post s mesh db xs in
      let (n, ordered) =
        counted (read_agent id after.agents) (agent_versions id after.outbox)
          ((agent_run-IsOrdered mesh db xs u o).at id) in
      applied-Delivers n _ messages ordered d ∙ sym ordered
