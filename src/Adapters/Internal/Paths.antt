-- ===== src/Adapters/Internal/Paths.antt =====
-- What a connector of the kind internal can reach: the registered services, below their base URLs.
use favl_agentic_content_os.Prelude.{
  ◌==◌, ◌≡◌, refl, String, str_eq, append, true, false, Option, none, some, [], any, arith,
  every_char, lstrip_of, split_on, All, All-map, Bool-cases, inl, inr, &&-true, if◌then◌else◌,
}
use Prim.Native.Char.{code}
use favl_agentic_content_os.Json.{
  Fields, Value, str, null, bool, int, real, obj, arr, get, is_truthy,
}
use favl_agentic_content_os.Security.Ssrf.{ValidatedTarget}
use favl_agentic_content_os.Security.Outbound.Hops.{request-own_url}
use favl_agentic_content_os.Invocations.Execute.{raised}
use favl_agentic_content_os.Invocations.Results.{InvocationRequest, seconds_remaining}
use favl_agentic_content_os.Adapters.Base.{ConnectorContext, World, Attempt, Span, json}
use favl_agentic_content_os.Adapters.Internal.{
  Services, is_slash, find_service, is_safe_char, OperationError, operation_error, internal_policy,
  policy_of, base_and_path, InternalSettings, internal_headers, post_internal, checked_post,
  with_operation, with_base, service_of, with_service, invoke_internal,
}

-- A path that stays below its base: of safe characters, with no segment `..`.
pub record IsContained (path : String) : Type 0 where
  pub safe : every_char is_safe_char path ≡ true
  pub no_parent : any (str_eq "..") (split_on b'/' path) ≡ false

lstrip-safe :
    (s : String)
    → every_char is_safe_char s ≡ true
    → every_char is_safe_char (lstrip_of is_slash s) ≡ true
lstrip-safe String.[] h = refl
lstrip-safe (String.◌∷◌ c s) h = elim (Bool-cases (is_slash (code c))) [
  | inl e ↦ rw e (lstrip-safe s (&&-true (is_safe_char (code c)) _ h).1)
  | inr e ↦ rw e h
]

lstrip-no_parent :
    (s : String)
    → any (str_eq "..") (split_on b'/' s) ≡ false
    → any (str_eq "..") (split_on b'/' (lstrip_of is_slash s)) ≡ false
lstrip-no_parent String.[] h = refl
lstrip-no_parent (String.◌∷◌ c s) h = elim (Bool-cases (is_slash (code c))) [
  | inl e ↦ rw e (lstrip-no_parent s (rw e at h))
  | inr e ↦ rw e h
]

-- An operation that passes, in the URL of the request.
operation_error-IsContained :
    (operation : String)
    → operation_error operation ≡ none
    → IsContained (lstrip_of is_slash operation)
unfolding operation_error
operation_error-IsContained operation h = elim (Bool-cases (every_char is_safe_char operation)) [
  | inl safe ↦ record {
    safe = lstrip-safe operation safe;
    no_parent = lstrip-no_parent operation (ground arith);
  }
  | inr unsafe ↦ absurd (ground arith)
]

-- A URL of a registered service, below its base.
pub record IsRegistered (services : Services) (url : String) : Type 0 where
  pub name : String
  pub base : String
  pub path : String
  pub found : find_service name services ≡ some base
  pub below : url ≡ append base (append "/" path)
  pub contained : IsContained path

-- Each target is a registered URL.
abbrev pub Reaches : Services → Attempt → Type 0
Reaches services a = All (λ (t : ValidatedTarget). IsRegistered services t.url) a.targets

module _ (s : InternalSettings) (w : World) (t : Span) (q : InvocationRequest) (name base : String)
    (found : find_service name s.services ≡ some base) where
  post_internal-Reaches :
      (operation : String)
      → operation_error operation ≡ none
      → Reaches s.services (post_internal s w t q base operation)
  unfolding post_internal internal_policy
  post_internal-Reaches operation h =
      let url = base_and_path base operation in
      let own =
        request-own_url w.net (w.client "POST" (json q.payload)) (policy_of s w url)
          (internal_headers q) url refl in
      All-map (λ (t : ValidatedTarget). t.url ≡ url)
        (λ (t : ValidatedTarget). IsRegistered s.services t.url)
        (λ target e. record {
          name = name;
          base = base;
          path = lstrip_of is_slash operation;
          found = found;
          below = e;
          contained = operation_error-IsContained operation h;
        })
        _ own

  checked_post-Reaches :
      (operation : String) (error : Option OperationError)
      → operation_error operation ≡ error
      → Reaches s.services (checked_post s w t q base operation error)
  checked_post-Reaches operation none h = post_internal-Reaches operation h
  checked_post-Reaches operation (some e) h = tt

  not_a_text :
      (v : Value)
      → Reaches s.services (
          if is_truthy v
          then record { targets = []; reply = raised "TypeError" }
          else checked_post s w t q base "" (operation_error ""))
  not_a_text v = elim (Bool-cases (is_truthy v)) [
    | inl e ↦ rw e tt
    | inr e ↦ rw e (checked_post-Reaches "" (operation_error "") refl)
  ]

  with_operation-Reaches : (o : Option Value) → Reaches s.services (with_operation s w t q base o)
  with_operation-Reaches none = checked_post-Reaches "" (operation_error "") refl
  with_operation-Reaches (some (str o)) = checked_post-Reaches o (operation_error o) refl
  with_operation-Reaches (some null) = checked_post-Reaches "" (operation_error "") refl
  with_operation-Reaches (some (bool b)) = not_a_text (bool b)
  with_operation-Reaches (some (int n)) = not_a_text (int n)
  with_operation-Reaches (some (real n)) = not_a_text (real n)
  with_operation-Reaches (some (obj fs)) = not_a_text (obj fs)
  with_operation-Reaches (some (arr vs)) = not_a_text (arr vs)

with_base-Reaches :
    (s : InternalSettings) (w : World) (t : Span) (q : InvocationRequest) (config : Fields)
    (name : String) (base : Option String)
    → find_service name s.services ≡ base
    → Reaches s.services (with_base s w t q config name base)
with_base-Reaches s w t q config name none found = tt
with_base-Reaches s w t q config name (some base) found =
    elim (Bool-cases (seconds_remaining q t.started == 0)) [
      | inl e ↦ rw e tt
      | inr e ↦ rw e (with_operation-Reaches s w t q name base found (get "operation" config))
    ]

-- Whatever its configuration, each URL that an internal connector connects to in an invocation is of a
-- service that the operator has registered: below its base URL, by a path of safe characters without a
-- segment `..`.
pub invoke_internal-Reaches :
    (s : InternalSettings) (w : World) (t : Span) (q : InvocationRequest)
    (context : ConnectorContext)
    → Reaches s.services (invoke_internal s w t q context)
unfolding invoke_internal
invoke_internal-Reaches s w t q context = go (service_of (get "service" context.config))
  where
    go : (name : Option String) → Reaches s.services (with_service s w t q context.config name)
    go none = tt
    go (some name) =
        with_base-Reaches s w t q context.config name (find_service name s.services) refl
