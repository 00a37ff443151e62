-- ===== src/Invocations/Reads.antt =====
-- `list_invocations`, `get_invocation` and `invoke_connector_internal` of main.py.
use favl_agentic_content_os.Prelude.{
  take, length-take, All-take, All-sort_by, ℕ, ◌≤◌, ◌≡◌, min, max, String, str_eq, eq_iff, append,
  Bool, true, ◌&&◌, Option, none, some, List, [], ◌∷◌, select, sort_by, length, ltb, All, arith,
  Bool-cases, &&-true, inl, inr, if◌then◌else◌,
}
use favl_agentic_content_os.Json.{ℤ, pos, negsuc, Fields}
use favl_agentic_content_os.Store.Rows.{InvocationRecord}
use favl_agentic_content_os.Store.Tables.{Db, Clock}
use favl_agentic_content_os.Registry.Handlers.{tenant_connector}
use favl_agentic_content_os.Invocations.Accept.{Job, status_value}
use favl_agentic_content_os.Invocations.Execute.{Runtime, Times}
use favl_agentic_content_os.Invocations.Endpoint.{Invoked, when_read}

-- The query's filters; an empty status is none.
pub record Filters : Type 0 where
  pub connector_id : Option String
  pub status_filter : Option String
  pub before : Option ℕ

abbrev of_connector : Option String → InvocationRecord → Bool
of_connector none r = true
of_connector (some id) r = str_eq r.connector_id id

abbrev of_status : Option String → InvocationRecord → Bool
of_status none r = true
of_status (some s) r = if str_eq s "" then true else str_eq (status_value r.status) s

abbrev is_before : Option ℕ → InvocationRecord → Bool
is_before none r = true
is_before (some t) r = ltb r.created_at t

abbrev pub is_asked_for : String → Filters → InvocationRecord → Bool
is_asked_for tenant f r =
    str_eq r.tenant_id tenant
    && (of_connector f.connector_id r && (of_status f.status_filter r && is_before f.before r))

-- `max(1, min(limit, 200))`
abbrev pub page_size : ℤ → ℕ
page_size (pos n) = max 1 (min n 200)
page_size (negsuc n) = 1

-- ORDER BY created_at DESC, of the rows in ascending order.
abbrev pub newest_first : List InvocationRecord → List InvocationRecord → List InvocationRecord
newest_first done [] = done
newest_first done (r ∷ rs) = newest_first (r ∷ done) rs

unfoldable pub list_invocations : Db → String → Filters → ℤ → List InvocationRecord
unfolding sort_by
list_invocations db tenant f limit =
    take (page_size limit) (
      newest_first [] (sort_by (λ r. r.created_at) (select (is_asked_for tenant f) db.invocations)))

-- `session.get(InvocationRecord, id)`, with `none` for the 404.
abbrev find_id : String → List InvocationRecord → Option InvocationRecord
find_id id [] = none
find_id id (r ∷ rs) = if str_eq r.id id then some r else find_id id rs

abbrev if_own : String → Option InvocationRecord → Option InvocationRecord
if_own tenant none = none
if_own tenant (some r) = if str_eq r.tenant_id tenant then some r else none

unfoldable pub get_invocation : Db → String → String → Option InvocationRecord
get_invocation db tenant id = if_own tenant (find_id id db.invocations)

-- The arguments that the internal endpoint derives: the digest of the input, the operation and the
-- clamped timeout of the configuration.
pub record AgentCall : Type 0 where
  pub agent_id : String
  pub body : Fields
  pub digest : String
  pub operation : String
  pub timeout : ℕ

abbrev pub agent_job : String → AgentCall → Job
agent_job tenant call = record {
  operation = call.operation;
  idempotency_key = append "agent:" (append call.agent_id (append ":" call.digest));
  actor_id = append "agent:" call.agent_id;
  tenant_id = tenant;
  timeout = call.timeout;
  trace_id = none;
}

-- `none` is the 400 for a tenant that is not forwarded.
unfoldable pub invoke_connector_internal :
    Runtime → Db → String → String → AgentCall → Clock → Times → Option Invoked
invoke_connector_internal rt db tenant id call k t =
    if str_eq tenant ""
    then none
    else some
        (when_read rt db call.body (agent_job tenant call) k t (tenant_connector db id tenant))

abbrev IsOf : String → InvocationRecord → Type 0
IsOf tenant r = r.tenant_id ≡ tenant

select-IsOf :
    (tenant : String) (f : Filters) (rows : List InvocationRecord)
    → All (IsOf tenant) (select (is_asked_for tenant f) rows)
select-IsOf tenant f [] = tt
select-IsOf tenant f (r ∷ rs) = elim (Bool-cases (is_asked_for tenant f r)) [
  | inl e ↦
      let (own, _) = &&-true (str_eq r.tenant_id tenant) _ e in
      rw e ((eq_iff r.tenant_id tenant).0 own, select-IsOf tenant f rs)
  | inr e ↦ rw e (select-IsOf tenant f rs)
]

All-newest_first :
    (P : InvocationRecord → Type 0) (done rows : List InvocationRecord)
    → All P done
    → All P rows
    → All P (newest_first done rows)
All-newest_first P done [] d h = d
All-newest_first P done (r ∷ rs) d h = All-newest_first P (r ∷ done) rs (h.0, d) h.1

page_size-le : (limit : ℤ) → page_size limit ≤ 200
page_size-le (pos n) = omega arith
page_size-le (negsuc n) = omega arith

-- Whatever filters and limit a caller asks for, each row of the answer is of the caller's tenant, and
-- there are at most 200.
pub list_invocations-own :
    (db : Db) (tenant : String) (f : Filters) (limit : ℤ)
    → All (λ r. r.tenant_id ≡ tenant) (list_invocations db tenant f limit)
      × (length (list_invocations db tenant f limit) ≤ 200)
unfolding list_invocations
list_invocations-own db tenant f limit =
    let asked = select (is_asked_for tenant f) db.invocations in
    let sorted = sort_by (λ (r : InvocationRecord). r.created_at) asked in
    let own =
      All-sort_by (IsOf tenant) (λ r. r.created_at) asked (select-IsOf tenant f db.invocations) in
    (
      All-take (IsOf tenant) (page_size limit) (newest_first [] sorted)
          (All-newest_first (IsOf tenant) [] sorted tt own),
      omega (arith, page_size-le limit, length-take (page_size limit) (newest_first [] sorted)),
    )
