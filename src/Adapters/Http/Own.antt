-- ===== src/Adapters/Http/Own.antt =====
-- Whose secrets a request of the HTTP adapter carries.
use favl_agentic_content_os.Prelude.{
  String, str_eq, ◌≡◌, ◌⊎◌, inl, inr, refl, Option, none, some, [], ◌∷◌, All, arith, Bool-cases,
  if◌then◌else◌,
}
use favl_agentic_content_os.Prelude.Text.{Text, codes}
use favl_agentic_content_os.Json.{
  Fields, Value, null, bool, int, real, str, obj, arr, end, field, get, is_truthy,
}
use favl_agentic_content_os.Security.Outbound.{Headers, is_stripped}
use favl_agentic_content_os.Security.Secrets.{
  SecretRef, Permission, permitted, refused, Resolved, secret, not_found, not_permitted,
  check_addressable, env_name, read_variable, after_check, is_secret_reference, resolve,
}
use favl_agentic_content_os.Security.Secrets.Ownership.{IsOwn, check_addressable-IsOwn}
use favl_agentic_content_os.Invocations.Results.{InvocationRequest}
use favl_agentic_content_os.Adapters.Base.{ConnectorContext, World}
use favl_agentic_content_os.Adapters.Http.{
  Built, made, secret_missing, secret_refused, wrong_type, set_header, resolver, add_resolved,
  without_text, add_headers, header_fields, first_headers, config_headers, add_key, add_trace,
  add_ids, add_request, headers_of,
}

-- The item stands in a dict.
abbrev pub Has : String → Value → Fields → Type 0
Has key v end = ⊥
Has key v (field k u rest) = ((k ≡ key) × (u ≡ v)) ⊎ Has key v rest

-- Where the value of a header may come from: the standard media type, a text that the configuration
-- itself has among its headers, a secret of the connector or of its tenant, or the request.
pub data Source (w : World) (context : ConnectorContext) (q : Option InvocationRequest)
    : String → Type 0 where
  media_type : {v : String} → v ≡ "application/json" → Source w context q v
  literal :
      {v : String} (key : String) (headers : Fields)
      → header_fields (get "headers" context.config) ≡ some headers
      → Has key (str v) headers
      → Source w context q v
  own_secret :
      {v : String} (r : SecretRef)
      → IsOwn (codes context.connector_id) (codes context.tenant_id) r
      → w.environ (env_name r) ≡ some v
      → Source w context q v
  of_request :
      {v : String} (asked : InvocationRequest)
      → q ≡ some asked
      → (v ≡ asked.idempotency_key) ⊎ ((v ≡ asked.invocation_id) ⊎ (asked.trace_id ≡ some v))
      → Source w context q v

-- Each header has a value of one of these sources.
abbrev pub IsSourced : World → ConnectorContext → Option InvocationRequest → Headers → Type 0
IsSourced w context q headers = All (λ (h : String × String). Source w context q h.1) headers

-- What is built, if anything is, has such headers only.
abbrev pub Builds : World → ConnectorContext → Option InvocationRequest → Built → Type 0
Builds w context q (made headers) = IsSourced w context q headers
Builds w context q other = Unit

resolve-IsOwn :
    (w : World) (context : ConnectorContext) (reference value : String)
    → resolver w context reference ≡ secret value
    → (r : SecretRef) × IsOwn (codes context.connector_id) (codes context.tenant_id) r
      × (w.environ (env_name r) ≡ some value)
unfolding resolve
resolve-IsOwn w context reference value h =
    checked (check_addressable (codes reference) owner own_tenant) refl h
  where
    owner : Text
    owner = codes context.connector_id

    own_tenant : Text
    own_tenant = codes context.tenant_id

    read : (o : Option String) → read_variable o ≡ secret value → o ≡ some value
    read none e = cc
    read (some x) e = ground arith

    checked :
        (p : Permission)
        → check_addressable (codes reference) owner own_tenant ≡ p
        → after_check w.environ p ≡ secret value
        → (r : SecretRef) × IsOwn owner own_tenant r × (w.environ (env_name r) ≡ some value)
    checked (refused why) e k = absurd (ground arith)
    checked (permitted r) e k =
        (r, check_addressable-IsOwn (codes reference) owner own_tenant r e, read _ k)

module _ (w : World) (context : ConnectorContext) (q : Option InvocationRequest) where
  set_header-IsSourced :
      (key value : String) (headers : Headers)
      → Source w context q value
      → IsSourced w context q headers
      → IsSourced w context q (set_header key value headers)
  unfolding set_header
  set_header-IsSourced key value [] s h = (s, tt)
  set_header-IsSourced key value ((k, v) ∷ rest) s h = elim (Bool-cases (str_eq k key)) [
    | inl e ↦ rw e (s, h.1)
    | inr e ↦ rw e (h.0, set_header-IsSourced key value rest s h.1)
  ]

  resolved-Builds :
      (key reference : String) (next : String → Built)
      → ((x : String) → Source w context q x → Builds w context q (next x))
      → (r : Resolved) → resolver w context reference ≡ r
      → Builds w context q (add_resolved key reference r next)
  resolved-Builds key reference next go not_found e = tt
  resolved-Builds key reference next go (not_permitted why) e = tt
  resolved-Builds key reference next go (secret x) e =
      let (r, own, read) = resolve-IsOwn w context reference x e in go x (own_secret r own read)

  without_text-Builds :
      (key : String) (b : Built) → Builds w context q b → Builds w context q (without_text key b)
  without_text-Builds key (made headers) h = elim (Bool-cases (is_stripped key)) [
    | inl e ↦ rw e h
    | inr e ↦ rw e tt
  ]
  without_text-Builds key (secret_missing r) h = tt
  without_text-Builds key secret_refused h = tt
  without_text-Builds key wrong_type h = tt

  add_headers-Builds :
      (all_headers : Fields)
      → header_fields (get "headers" context.config) ≡ some all_headers
      → (fields : Fields) → ((key : String) (v : Value) → Has key v fields → Has key v all_headers)
      → (headers : Headers) → IsSourced w context q headers
      → Builds w context q (add_headers (resolver w context) fields headers)
  unfolding add_headers
  add_headers-Builds whole here end within headers h = h
  add_headers-Builds whole here (field key (str v) rest) within headers h =
      elim (Bool-cases (is_secret_reference (codes v))) [
        | inl e ↦ rw e (
            resolved-Builds key v
              (λ x. add_headers (resolver w context) rest (set_header key x headers))
              (λ x s.
                add_headers-Builds whole here rest (λ k u i. within k u (inr i))
                  (set_header key x headers) (set_header-IsSourced key x headers s h))
              (resolver w context v) refl)
        | inr e ↦ rw e (
            add_headers-Builds whole here rest (λ k u i. within k u (inr i))
              (set_header key v headers)
              (set_header-IsSourced key v headers
                (literal key whole here (within key (str v) (inl (refl, refl)))) h))
      ]
  add_headers-Builds whole here (field key null rest) within headers h =
      without_text-Builds key _
        (add_headers-Builds whole here rest (λ k u i. within k u (inr i)) headers h)
  add_headers-Builds whole here (field key (bool b) rest) within headers h =
      without_text-Builds key _
        (add_headers-Builds whole here rest (λ k u i. within k u (inr i)) headers h)
  add_headers-Builds whole here (field key (int n) rest) within headers h =
      without_text-Builds key _
        (add_headers-Builds whole here rest (λ k u i. within k u (inr i)) headers h)
  add_headers-Builds whole here (field key (real n) rest) within headers h =
      without_text-Builds key _
        (add_headers-Builds whole here rest (λ k u i. within k u (inr i)) headers h)
  add_headers-Builds whole here (field key (obj fs) rest) within headers h =
      without_text-Builds key _
        (add_headers-Builds whole here rest (λ k u i. within k u (inr i)) headers h)
  add_headers-Builds whole here (field key (arr vs) rest) within headers h =
      without_text-Builds key _
        (add_headers-Builds whole here rest (λ k u i. within k u (inr i)) headers h)

  config_headers-Builds :
      (fields : Option Fields)
      → header_fields (get "headers" context.config) ≡ fields
      → Builds w context q (config_headers (resolver w context) fields)
  config_headers-Builds none here = tt
  config_headers-Builds (some fields) here =
      add_headers-Builds fields here fields (λ k v i. i) first_headers
        (media_type refl, (media_type refl, tt))

module _ (w : World) (context : ConnectorContext) (asked : InvocationRequest) where
  false_or_wrong :
      (v : Value) (headers : Headers)
      → IsSourced w context (some asked) headers
      → Builds w context (some asked) (if is_truthy v then wrong_type else made headers)
  false_or_wrong v headers h = elim (Bool-cases (is_truthy v)) [ inl e ↦ rw e tt | inr e ↦ rw e h ]

  add_key-Builds :
      (idem : Option Value) (headers : Headers)
      → IsSourced w context (some asked) headers
      → Builds w context (some asked) (add_key idem asked.idempotency_key headers)
  add_key-Builds none headers h = h
  add_key-Builds (some (str name)) headers h = elim (Bool-cases (str_eq name "")) [
    | inl e ↦ rw e h
    | inr e ↦ rw e (
        set_header-IsSourced w context (some asked) name asked.idempotency_key headers
          (of_request asked refl (inl refl)) h)
  ]
  add_key-Builds (some null) headers h = h
  add_key-Builds (some (bool b)) headers h = false_or_wrong (bool b) headers h
  add_key-Builds (some (int n)) headers h = false_or_wrong (int n) headers h
  add_key-Builds (some (real n)) headers h = false_or_wrong (real n) headers h
  add_key-Builds (some (obj fs)) headers h = false_or_wrong (obj fs) headers h
  add_key-Builds (some (arr vs)) headers h = false_or_wrong (arr vs) headers h

  add_trace-IsSourced :
      (trace : Option String) (headers : Headers)
      → asked.trace_id ≡ trace
      → IsSourced w context (some asked) headers
      → IsSourced w context (some asked) (add_trace trace headers)
  add_trace-IsSourced none headers e h = h
  add_trace-IsSourced (some id) headers e h = elim (Bool-cases (str_eq id "")) [
    | inl blank ↦ rw blank h
    | inr given ↦ rw given (
        set_header-IsSourced w context (some asked) "X-FAVL-Trace-ID" id headers
          (of_request asked refl (inr (inr e))) h)
  ]

  add_ids-Builds :
      (built : Built)
      → Builds w context (some asked) built
      → Builds w context (some asked) (add_ids asked built)
  add_ids-Builds (made headers) h = add_trace-IsSourced asked.trace_id _ refl (
      set_header-IsSourced w context (some asked) "X-FAVL-Invocation-ID" asked.invocation_id headers
        (of_request asked refl (inr (inl refl))) h)
  add_ids-Builds (secret_missing reference) h = tt
  add_ids-Builds secret_refused h = tt
  add_ids-Builds wrong_type h = tt

  add_request-Builds :
      (idem : Option Value) (built : Built)
      → Builds w context (some asked) built
      → Builds w context (some asked) (add_request idem (some asked) built)
  add_request-Builds idem (made headers) h = add_ids-Builds _ (add_key-Builds idem headers h)
  add_request-Builds idem (secret_missing reference) h = tt
  add_request-Builds idem secret_refused h = tt
  add_request-Builds idem wrong_type h = tt

made-IsSourced :
    (w : World) (context : ConnectorContext) (q : Option InvocationRequest) (built : Built)
    (headers : Headers)
    → Builds w context q built
    → built ≡ made headers
    → IsSourced w context q headers
made-IsSourced w context q (made hs) headers h e = let same : hs ≡ headers = cc e in rw (← same) h
made-IsSourced w context q (secret_missing r) headers h e = absurd (ground arith)
made-IsSourced w context q secret_refused headers h e = absurd (ground arith)
made-IsSourced w context q wrong_type headers h e = absurd (ground arith)

-- Every header that the HTTP adapter builds for an invocation has the standard media type, a text of the
-- connector's own configuration, the value of the variable that a reference of the connector or of its
-- tenant is read from, or the key, the id or the trace of the request.
pub headers_of-IsSourced :
    (w : World) (context : ConnectorContext) (asked : InvocationRequest) (headers : Headers)
    → headers_of w context (some asked) ≡ made headers
    → IsSourced w context (some asked) headers
unfolding headers_of
headers_of-IsSourced w context asked headers h =
    made-IsSourced w context (some asked) _ headers
      (add_request-Builds w context asked (get "idempotency_header" context.config) _ (
        config_headers-Builds w context (some asked) (header_fields (get "headers" context.config))
          refl))
      h
