-- ===== src/Orchestrator/Changes.antt =====
-- The ways in which a call of the orchestrator's main.py changes its database.
use favl_agentic_content_os.Prelude.{
  ℕ, ◌+◌, String, str_eq, eq_iff, ◌≡◌, ◌≢◌, inl, inr, refl, ◌∙◌, false, Option, none, some, List,
  [], ◌∷◌, arith, Bool-cases, Option-cases, ltb, length,
}
use favl_agentic_content_os.Json.{Fields}
use favl_agentic_content_os.Store.Tables.{Clock}
use favl_agentic_content_os.Orchestrator.Agents.{
  AgentRecord, AgentCreate, AgentDb, is_valid_agent, read_agent, breaks_uniqueness,
}
use favl_agentic_content_os.Orchestrator.FanOut.{MeshSettings, MeshCall, MeshReply}
use favl_agentic_content_os.Orchestrator.Endpoints.{
  if_tenants, tenant_agent, new_agent, insert_agent, create_agent, delete_commit, delete_agent,
  commit_invocation, finish_invocation, AgentRequest, list_all, get_one, create, delete, invoke,
  after_read, invoke_agent, agent_step, after_delete_read, after_fresh_read,
}
use favl_agentic_content_os.Orchestrator.Laws.{
  read_agent-id, read_agent-put, read_agent-put_ne, read_agent-append, read_agent-remove,
  read_agent-remove_ne, Announces,
}

-- One row is written, added or removed, and every other is as it was.
pub record Writes (db db' : AgentDb) (id : String) (after : Option AgentRecord) : Type 0 where
  pub written : read_agent id db'.agents ≡ after
  pub others : (j : String) → j ≢ id → read_agent j db'.agents ≡ read_agent j db.agents

-- The version of the event: a new row's is 1, a changed row's is its next and the event's, a removed
-- row's would have been its next.
abbrev pub Follows : Option AgentRecord → Option AgentRecord → ℕ → Type 0
Follows none none v = ⊥
Follows none (some a) v = (a.version ≡ 1) × (v ≡ 1)
Follows (some b) (some a) v = (a.version ≡ b.version + 1) × (v ≡ b.version + 1)
Follows (some b) none v = v ≡ b.version + 1

abbrev pub IsTenants : String → Option AgentRecord → Type 0
IsTenants tenant none = Unit
IsTenants tenant (some r) = r.tenant_id ≡ tenant

pub data Change (tenant : String) (row_id : String) (db db' : AgentDb) : Type 0 where
  unchanged : db' ≡ db → Change tenant row_id db db'
  changed :
      (id : String) (before after : Option AgentRecord) (v : ℕ)
      → read_agent id db.agents ≡ before
      → IsTenants tenant before
      → IsTenants tenant after
      → (before ≡ none → id ≡ row_id)
      → Follows before after v
      → Writes db db' id after
      → Announces db db' id v
      → Change tenant row_id db db'

pub tenant_agent-some :
    (db : AgentDb) (id tenant : String) (r : AgentRecord)
    → tenant_agent db id tenant ≡ some r
    → (read_agent id db.agents ≡ some r) × (r.tenant_id ≡ tenant)
unfolding tenant_agent
tenant_agent-some db id tenant r h = elim (Option-cases (read_agent id db.agents)) [
  | inl e ↦ cc (rw e at h)
  | inr (a, e) ↦ elim (Bool-cases (str_eq a.tenant_id tenant)) [
    | inl o ↦
        let same : a ≡ r = cc (rw (e, if_tenants, o) at h) in
        (rw (← same) e, rw (← same) ((eq_iff a.tenant_id tenant).0 o))
    | inr o ↦ cc (rw (e, if_tenants, o) at h)
  ]
]

unique_absent :
    (r : AgentRecord) (rows : List AgentRecord)
    → breaks_uniqueness r rows ≡ false
    → read_agent r.id rows ≡ none
unfolding breaks_uniqueness read_agent
unique_absent r [] h = refl
unique_absent r (a ∷ rows) h = ground (arith, unique_absent r rows)

module _ (db : AgentDb) (tenant : String) (k : Clock) where
  insert_agent-Change :
      (p : AgentCreate)
      → breaks_uniqueness (new_agent tenant k p) db.agents ≡ false
      → Change tenant k.row_id db (insert_agent db k (new_agent tenant k p)).0
  unfolding insert_agent
  insert_agent-Change p e =
      let r = new_agent tenant k p in
      let absent = unique_absent r db.agents e in
      rw e (
        changed k.row_id none (some r) 1 absent tt refl (λ b. refl) (refl, refl)
          (record {
            written =
                read_agent-append k.row_id db.agents r absent
                ∙ ground (arith, eq_iff k.row_id k.row_id);
            others =
                λ j ne. read_agent-append j db.agents r absent ∙ ground (arith, eq_iff k.row_id j);
          })
          (record { event = _; outbox = refl; kind = refl; aggregate = refl; has_version = refl }))

  create_agent-Change : (p : AgentCreate) → Change tenant k.row_id db (create_agent db tenant k p).0
  unfolding create_agent insert_agent
  create_agent-Change p = elim (Bool-cases (is_valid_agent p)) [
    | inl v ↦ elim (Bool-cases (breaks_uniqueness (new_agent tenant k p) db.agents)) [
      | inl e ↦ rw (v, e) (unchanged refl)
      | inr e ↦ rw v (insert_agent-Change p e)
    ]
    | inr v ↦ rw v (unchanged refl)
  ]

  delete_agent-Change : (id : String) → Change tenant k.row_id db (delete_agent db tenant k id).0
  unfolding delete_agent delete_commit
  delete_agent-Change id = elim (Option-cases (tenant_agent db id tenant)) [
    | inl e ↦ rw (e, after_delete_read) (unchanged refl)
    | inr (r, e) ↦
        let (read, own) = tenant_agent-some db id tenant r e in
        rw (e, after_delete_read)
          (changed id (some r) none (r.version + 1) read own tt (λ b. cc) refl
            (record {
              written = read_agent-remove id db.agents;
              others = λ j ne. read_agent-remove_ne id j db.agents ne;
            })
            (record {
              event = _;
              outbox = refl;
              kind = refl;
              aggregate = refl;
              has_version = refl;
            }))
  ]

  finish_invocation-Change :
      (id : String) (outputs : Option (List Fields))
      → Change tenant k.row_id db (finish_invocation db tenant k id outputs).0
  unfolding finish_invocation commit_invocation
  finish_invocation-Change id none = unchanged refl
  finish_invocation-Change id (some outputs) = elim (Option-cases (tenant_agent db id tenant)) [
    | inl e ↦ rw (e, after_fresh_read) (unchanged refl)
    | inr (r, e) ↦
        let (read, own) = tenant_agent-some db id tenant r e in
        let here = read_agent-id id db.agents r read in
        let next = record r { version = r.version + 1 } in
        rw (e, after_fresh_read)
          (changed id (some r) (some next) (r.version + 1) read own own (λ b. cc) (refl, refl)
            (record {
              written = read_agent-put id next r db.agents here read;
              others = λ j ne. read_agent-put_ne next j db.agents (λ q. ne (q ∙ here));
            })
            (record {
              event = _;
              outbox = refl;
              kind = refl;
              aggregate = refl;
              has_version = refl;
            }))
  ]

module _ {S : Type 0} (post : S → MeshCall → S × MeshReply) (s : MeshSettings) (mesh : S)
    (db : AgentDb) (tenant : String) (k : Clock) where
  after_read-Change :
      (id : String) (payload : Fields) (seen : Option AgentRecord)
      → Change tenant k.row_id db (after_read post s mesh db tenant k id payload seen).db
  unfolding after_read
  after_read-Change id payload none = unchanged refl
  after_read-Change id payload (some r) =
      elim (Bool-cases (ltb s.max_fan_out (length r.connector_ids))) [
        | inl e ↦ rw e (unchanged refl)
        | inr e ↦ rw e (finish_invocation-Change db tenant k id _)
      ]

  -- Each call makes one of the changes.
  pub agent_step-Change :
      (c : AgentRequest) → Change tenant k.row_id db (agent_step post s mesh db tenant k c).db
  unfolding agent_step invoke_agent
  agent_step-Change list_all = unchanged refl
  agent_step-Change (get_one id) = unchanged refl
  agent_step-Change (create p) = create_agent-Change db tenant k p
  agent_step-Change (delete id) = delete_agent-Change db tenant k id
  agent_step-Change (invoke seen id payload) =
      after_read-Change id payload (tenant_agent seen id tenant)
