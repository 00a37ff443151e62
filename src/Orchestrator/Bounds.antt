-- ===== src/Orchestrator/Bounds.antt =====
-- What the fan-out of an invocation asks of the registry, and what the caller gets.
use mathlib.Core.Path.{subst}
use favl_agentic_content_os.Prelude.{
  ℕ, ◌≤◌, sym, length-append, All-append_left, String, ◌≡◌, ◌⊎◌, inl, inr, refl, ap, Option, none,
  some, List, [], ◌∷◌, ◌++◌, map, arith, first, length, All, leb, ltb, Bool-cases, Option-cases,
}
use favl_agentic_content_os.Json.{Fields, Value, str, obj, get}
use favl_agentic_content_os.Store.Tables.{Clock}
use favl_agentic_content_os.Orchestrator.Agents.{AgentRecord, AgentDb}
use favl_agentic_content_os.Orchestrator.FanOut.{
  MeshSettings, MeshCall, MeshReply, http_error, response, output_of, FannedOut, cons_output,
  internal_call_headers, call_of, fan_out, error_output, success_output,
}
use favl_agentic_content_os.Orchestrator.Endpoints.{
  tenant_agent, invoked, after_fresh_read, invocation_result, finish_invocation, after_read,
  invoke_agent,
}

headers_lem :
    (s : MeshSettings) (tenant : String)
    → first (internal_call_headers s tenant) ≡ some ("X-Tenant-ID", tenant)
unfolding internal_call_headers
headers_lem s tenant = ground arith

-- The id that an output of the fan-out names.
abbrev pub connector_of : Fields → Option Value
connector_of o = get "connector_id" o

error_output-names :
    (id : String) (status : ℕ) (body : Option Value) (o : Fields)
    → error_output id status body ≡ some o
    → connector_of o ≡ some (str id)
unfolding get
error_output-names id status none o h = ground arith
error_output-names id status (some (obj fs)) o h = ground arith
error_output-names id status (some v) o h = ground arith

success_output-names :
    (id : String) (body : Option Value) (o : Fields)
    → success_output id body ≡ some o
    → connector_of o ≡ some (str id)
unfolding get
success_output-names id none o h = cc
success_output-names id (some v) o h = ground arith

output_of-names :
    (id : String) (reply : MeshReply) (o : Fields)
    → output_of id reply ≡ some o
    → connector_of o ≡ some (str id)
unfolding output_of get
output_of-names id (http_error text) o h = ground arith
output_of-names id (response status body) o h = elim (Bool-cases (leb 400 status)) [
  | inl e ↦ error_output-names id status body o (rw e at h)
  | inr e ↦ success_output-names id body o (rw e at h)
]

-- The ids of the connectors, as the outputs name them.
abbrev pub names_of : List String → List (Option Value)
names_of [] = []
names_of (id ∷ ids) = some (str id) ∷ names_of ids

module _ {S : Type 0} (post : S → MeshCall → S × MeshReply) (s : MeshSettings)
    (tenant agent_id : String) (payload : Fields) where
  abbrev pub calls_of : List String → List MeshCall
  calls_of [] = []
  calls_of (id ∷ ids) = call_of post s tenant agent_id payload id ∷ calls_of ids

  -- The calls are those of the connectors in their order, up to a call whose answer is not understood,
  -- and outputs come only of all of them, each naming its connector.
  pub record IsOfAll (ids : List String) (f : FannedOut S) : Type 0 where
    pub left : List MeshCall
    pub in_order : calls_of ids ≡ f.calls ++ left
    pub complete :
        (outputs : List Fields)
        → f.outputs ≡ some outputs
        → (f.calls ≡ calls_of ids) × (map connector_of outputs ≡ names_of ids)

  stopped :
      (mesh : S) (id : String) (ids : List String)
      → IsOfAll (id ∷ ids) (record {
        mesh = mesh;
        calls = call_of post s tenant agent_id payload id ∷ [];
        outputs = none;
      })
  stopped mesh id ids = record { left = calls_of ids; in_order = refl; complete = λ outputs h. cc }

  went_on :
      (id : String) (ids : List String) (o : Fields) (rest : FannedOut S)
      → connector_of o ≡ some (str id)
      → IsOfAll ids rest
      → IsOfAll (id ∷ ids) (record {
        mesh = rest.mesh;
        calls = call_of post s tenant agent_id payload id ∷ rest.calls;
        outputs = cons_output o rest.outputs;
      })
  went_on id ids o rest named w = record {
    left = w.left;
    in_order = ap (λ l. call_of post s tenant agent_id payload id ∷ l) w.in_order;
    complete = λ outputs h. all_of (Option-cases rest.outputs) outputs h;
  }
    where
      all_of :
          (rest.outputs ≡ none) ⊎ ((os : List Fields) × (rest.outputs ≡ some os))
          → (outputs : List Fields) → cons_output o rest.outputs ≡ some outputs
          → (call_of post s tenant agent_id payload id ∷ rest.calls ≡ calls_of (id ∷ ids))
            × (map connector_of outputs ≡ names_of (id ∷ ids))
      all_of (inl e) outputs h = cc (rw e at h)
      all_of (inr (os, e)) outputs h =
          let same : o ∷ os ≡ outputs = cc (rw e at h) in
          let (called, named_rest) = w.complete os e in
          (
            ap (λ l. call_of post s tenant agent_id payload id ∷ l) called,
            rw (← same, named, named_rest) refl,
          )

  fan_out-IsOfAll :
      (mesh : S) (ids : List String) → IsOfAll ids (fan_out post s tenant agent_id payload mesh ids)
  unfolding fan_out
  fan_out-IsOfAll mesh [] = record {
    left = [];
    in_order = refl;
    complete = λ outputs h. (refl, cc);
  }
  fan_out-IsOfAll mesh (id ∷ ids) =
      let turn = post mesh (call_of post s tenant agent_id payload id) in
      elim (Option-cases (output_of id turn.1)) [
        | inl e ↦ rw (fan_out, e) (stopped turn.0 id ids)
        | inr (o, e) ↦
            rw (fan_out, e)
              (went_on id ids o _ (output_of-names id turn.1 o e) (fan_out-IsOfAll turn.0 ids))
      ]

  length-calls_of : (ids : List String) → length (calls_of ids) ≡ length ids
  length-calls_of [] = refl
  length-calls_of (id ∷ ids) = omega (arith, length-calls_of ids)

  calls_of_tenant :
      (ids : List String)
      → All (λ (c : MeshCall). first c.headers ≡ some ("X-Tenant-ID", tenant)) (calls_of ids)
  calls_of_tenant [] = tt
  calls_of_tenant (id ∷ ids) = (headers_lem s tenant, calls_of_tenant ids)

  pub fan_out-IsBounded :
      (mesh : S) (ids : List String)
      → (length (fan_out post s tenant agent_id payload mesh ids).calls ≤ length ids)
        × All
            (λ (c : MeshCall). first c.headers ≡ some ("X-Tenant-ID", tenant))
            (fan_out post s tenant agent_id payload mesh ids).calls
  fan_out-IsBounded mesh ids =
      let f = fan_out post s tenant agent_id payload mesh ids in
      let w = fan_out-IsOfAll mesh ids in
      let P = λ (c : MeshCall). first c.headers ≡ some ("X-Tenant-ID", tenant) in
      (
        omega (
          arith,
          length-calls_of ids,
          ap (length {A = MeshCall}) w.in_order,
          length-append f.calls w.left,
        ),
        (All-append_left P f.calls w.left (subst (All P) w.in_order (calls_of_tenant ids))),
      )

module _ {S : Type 0} (post : S → MeshCall → S × MeshReply) (s : MeshSettings) (mesh : S)
    (db : AgentDb) (tenant : String) (k : Clock) (id : String) (payload : Fields) where
  IsWithin : List MeshCall → Type 0
  IsWithin calls =
      (length calls ≤ s.max_fan_out)
      × All (λ (c : MeshCall). first c.headers ≡ some ("X-Tenant-ID", tenant)) calls

  after_read-IsWithin :
      (seen : Option AgentRecord)
      → IsWithin (after_read post s mesh db tenant k id payload seen).calls
  unfolding after_read IsWithin
  after_read-IsWithin none = (omega arith, tt)
  after_read-IsWithin (some r) = elim (Bool-cases (ltb s.max_fan_out (length r.connector_ids))) [
    | inl e ↦ rw e (omega arith, tt)
    | inr e ↦
        let (few, own) = fan_out-IsBounded post s tenant id payload mesh r.connector_ids in
        rw e (ground arith, own)
  ]

  -- An invocation makes at most MAX_FAN_OUT calls of the registry, whatever the agent and the answers,
  -- and the tenant that each of them names first is the caller's.
  pub invoke_agent-IsBounded :
      (seen : AgentDb)
      → (length (invoke_agent post s mesh seen db tenant k id payload).calls ≤ s.max_fan_out)
        × All
            (λ (c : MeshCall). first c.headers ≡ some ("X-Tenant-ID", tenant))
            (invoke_agent post s mesh seen db tenant k id payload).calls
  unfolding invoke_agent IsWithin
  invoke_agent-IsBounded seen = after_read-IsWithin (tenant_agent seen id tenant)

  finish_invocation-invoked :
      (f : FannedOut S) (result : Fields)
      → (finish_invocation db tenant k id f.outputs).1 ≡ invoked result
      → (outputs : List Fields) × (f.outputs ≡ some outputs)
        × (result ≡ invocation_result id outputs)
  unfolding finish_invocation
  finish_invocation-invoked f result h = elim (Option-cases f.outputs) [
    | inl e ↦ cc (rw e at h)
    | inr (outputs, e) ↦ elim (Option-cases (tenant_agent db id tenant)) [
      | inl gone ↦ cc (rw (e, finish_invocation, gone, after_fresh_read) at h)
      | inr (r, there) ↦
          let same : invocation_result id outputs ≡ result =
            cc (rw (e, finish_invocation, there, after_fresh_read) at h) in
          (outputs, e, sym same)
    ]
  ]

  -- An invocation that answers with a result has called every connector of the agent that was read,
  -- at most MAX_FAN_OUT, each once and in the agent's order, and its outputs are one for each connector
  -- in that order.
  pub invoke_agent-IsOfAll :
      (seen : AgentDb) (r : AgentRecord) (result : Fields)
      → tenant_agent seen id tenant ≡ some r
      → (invoke_agent post s mesh seen db tenant k id payload).answer ≡ invoked result
      → ((invoke_agent post s mesh seen db tenant k id payload).calls
          ≡ calls_of post s tenant id payload r.connector_ids)
        × (length r.connector_ids ≤ s.max_fan_out)
        × ((outputs : List Fields) × (result ≡ invocation_result id outputs)
            × (map connector_of outputs ≡ names_of r.connector_ids))
  unfolding invoke_agent after_read
  invoke_agent-IsOfAll seen r result read h =
      elim (Bool-cases (ltb s.max_fan_out (length r.connector_ids))) [
        | inl e ↦ cc (rw (read, after_read, e) at h)
        | inr e ↦
            let f = fan_out post s tenant id payload mesh r.connector_ids in
            let (outputs, produced, told) =
              finish_invocation-invoked f result (rw (read, after_read, e) at h) in
            let (called, named) =
              (fan_out-IsOfAll post s tenant id payload mesh r.connector_ids).complete outputs
                produced in
            (rw (read, after_read, e) called, ground arith, (outputs, told, named))
      ]
