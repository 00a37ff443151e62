-- ===== src/Orchestrator/Admission.antt =====
-- Whether the registry lets the orchestrator's calls in.
use favl_agentic_content_os.Prelude.{
  String, str_eq, eq_iff, ◌≡◌, ◌≢◌, ◌↔◌, ◌⊎◌, inl, inr, refl, sym, true, ◌&&◌, &&-true, Bool-cases,
}
use favl_agentic_content_os.Store.Tables.{Db, Clock}
use favl_agentic_content_os.Invocations.Execute.{Runtime, Times}
use favl_agentic_content_os.Invocations.Reads.{AgentCall, invoke_connector_internal}
use favl_agentic_content_os.Invocations.Internal.{
  header_value, CallerEntry, let_in, turned_away, crashes, is_ascii, require_internal_caller,
  stopped, handled, on_entry, internal_endpoint,
}
use favl_agentic_content_os.Orchestrator.FanOut.{MeshSettings, internal_call_headers}

-- What the registry reads of the headers.
header-tenant :
    (s : MeshSettings) (tenant : String)
    → header_value "x-tenant-id" (internal_call_headers s tenant) ≡ tenant
unfolding internal_call_headers
header-tenant s tenant = elim (Bool-cases (str_eq s.internal_service_token "")) [
  | inl e ↦ rw e refl
  | inr e ↦ rw e refl
]

header-token :
    (s : MeshSettings) (tenant : String)
    → header_value "x-internal-service-token" (internal_call_headers s tenant)
      ≡ s.internal_service_token
unfolding internal_call_headers
header-token s tenant = elim (Bool-cases (str_eq s.internal_service_token "")) [
  | inl e ↦ rw e (sym ((eq_iff s.internal_service_token "").0 e))
  | inr e ↦ rw e refl
]

-- The two services share a token.
pub record IsShared (token : String) (s : MeshSettings) : Type 0 where
  pub same : s.internal_service_token ≡ token
  pub is_set : token ≢ ""
  pub ascii : is_ascii token ≡ true

shared :
    (token : String) (s : MeshSettings)
    → require_internal_caller token s.internal_service_token ≡ let_in
    → IsShared token s
unfolding require_internal_caller
shared token s h = elim (Bool-cases (str_eq token "")) [
  | inl e ↦ cc (rw e at h)
  | inr e ↦ elim (Bool-cases (is_ascii s.internal_service_token && is_ascii token)) [
    | inr a ↦ cc (rw (e, a) at h)
    | inl a ↦ elim (Bool-cases (str_eq s.internal_service_token token)) [
      | inr q ↦ cc (rw (e, a, q) at h)
      | inl q ↦ record {
        same = (eq_iff s.internal_service_token token).0 q;
        is_set = λ p. cc ((eq_iff token "").1 p, e);
        ascii = (&&-true (is_ascii s.internal_service_token) (is_ascii token) a).1;
      }
    ]
  ]
]

let_in_iff :
    (token : String) (s : MeshSettings)
    → (require_internal_caller token s.internal_service_token ≡ let_in) ↔ IsShared token s
unfolding require_internal_caller
let_in_iff token s = (
  shared token s,
  λ h. elim (Bool-cases (str_eq token "")) [
    | inl e ↦ absurd (h.is_set ((eq_iff token "").0 e))
    | inr e ↦ rw (h.same, e, h.ascii, (eq_iff token token).1 refl) refl
  ],
)

-- A call of the orchestrator is handled, for the tenant that it forwards, exactly when the two services have
-- the same token, not empty and in ASCII; or else it is stopped before anything of the database is read.
pub internal_endpoint-handles :
    (token : String) (s : MeshSettings) (rt : Runtime) (db : Db) (tenant id : String)
    (call : AgentCall) (k : Clock) (t : Times)
    → let answer = internal_endpoint token rt db (internal_call_headers s tenant) id call k t in
      (IsShared token s × (answer ≡ handled (invoke_connector_internal rt db tenant id call k t)))
      ⊎ ((¬ IsShared token s) × ((e : CallerEntry) × (e ≢ let_in) × (answer ≡ stopped e)))
unfolding internal_endpoint
internal_endpoint-handles token s rt db tenant id call k t =
    rw (header-tenant s tenant, header-token s tenant)
      (go (require_internal_caller token s.internal_service_token) refl)
  where
    go :
        (e : CallerEntry)
        → require_internal_caller token s.internal_service_token ≡ e
        → (IsShared token s
            × (on_entry e (invoke_connector_internal rt db tenant id call k t)
                ≡ handled (invoke_connector_internal rt db tenant id call k t)))
          ⊎ ((¬ IsShared token s)
              × ((f : CallerEntry) × (f ≢ let_in)
                  × (on_entry e (invoke_connector_internal rt db tenant id call k t) ≡ stopped f)))
    go let_in q = inl ((let_in_iff token s).0 q, refl)
    go (turned_away status code) q =
        inr (λ h. cc ((let_in_iff token s).1 h, q), (turned_away status code, λ p. cc, refl))
    go crashes q = inr (λ h. cc ((let_in_iff token s).1 h, q), (crashes, λ p. cc, refl))
