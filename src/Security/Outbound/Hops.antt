-- ===== src/Security/Outbound/Hops.antt =====
-- A request under a policy without redirects goes to its own URL, or nowhere.
use native.Mathlib.Numerals.{add-one}
use mathlib.Core.Path.{subst}
use favl_agentic_content_os.Prelude.{
  ℕ, ◌+◌, ◌≡◌, refl, sym, String, false, Option, none, some, [], ◌∷◌, All, arith, Bool-cases, inl,
  inr,
}
use favl_agentic_content_os.Security.Ssrf.{
  OutboundPolicy, Network, Checked, passed, blocked, ValidatedTarget, target_of, validate_url,
  validate_static, resolve_and_validate,
}
use favl_agentic_content_os.Security.Ssrf.Checks.{after-passed}
use favl_agentic_content_os.Security.Outbound.{
  Headers, sanitise_headers, HttpResponse, Reply, transport_error, responded, Client, call_of,
  Trace, follow, after_reply, visit, loop, is_redirect, request, media_type, type_allowed,
  content_type_rejected,
}

pub validate_url-url :
    (net : Network) (hop : ℕ) (url : String) (policy : OutboundPolicy) (target : ValidatedTarget)
    → validate_url net hop url policy ≡ passed target
    → target.url ≡ url
unfolding validate_url
validate_url-url net hop url policy target e =
    let (endpoint, static, later) = after-passed (validate_static net url policy) _ target e in
    let (address, resolved, done) =
      after-passed (resolve_and_validate net hop endpoint.host endpoint.port policy) _ target
        later in
    let whole : target_of net url endpoint address ≡ target = cc done in rw (← whole) refl

module _ (client : Client) (policy : OutboundPolicy) (none_allowed : policy.max_redirects ≡ 0)
    (url : String) (next : String → Trace) where
  follow_stops :
      (location : Option String) → (follow client policy url 0 location next).targets ≡ []
  follow_stops none = refl
  follow_stops (some location) = ground arith

  after_reply_stops : (r : Reply) → (after_reply client policy url 0 r next).targets ≡ []
  after_reply_stops (transport_error text) = refl
  after_reply_stops (responded r) = elim (Bool-cases (is_redirect r.status_code)) [
    | inl e ↦ rw e (follow_stops r.location)
    | inr e ↦ rw e refl
  ]

  visit_own :
      (headers : Headers) (checked : Checked ValidatedTarget)
      → ((target : ValidatedTarget) → checked ≡ passed target → target.url ≡ url)
      → All
          (λ (t : ValidatedTarget). t.url ≡ url)
          (visit client policy headers url 0 checked next).targets
  visit_own headers (blocked reason) h = tt
  visit_own headers (passed target) h =
      rw (after_reply_stops (client.send 0 (call_of target headers))) (h target refl, tt)

pub request-own_url :
    (net : Network) (client : Client) (policy : OutboundPolicy) (headers : Headers) (url : String)
    → policy.max_redirects ≡ 0
    → All (λ (t : ValidatedTarget). t.url ≡ url) (request net client policy headers url).targets
unfolding request loop
request-own_url net client policy headers url none_allowed =
    let one : policy.max_redirects + 1 ≡ 1 = omega arith in
    subst
      (λ n.
        All (λ (t : ValidatedTarget). t.url ≡ url)
          (loop net client policy (sanitise_headers headers) n 0 url).targets)
      (sym one)
      (visit_own client policy none_allowed url _ (sanitise_headers headers)
        (validate_url net 0 url policy) (validate_url-url net 0 url policy))

-- An answer of a media type that the policy does not list ends the request, after its target was
-- reached.
pub request_rejected :
    (net : Network) (client : Client) (policy : OutboundPolicy) (headers : Headers) (url : String)
    (target : ValidatedTarget) (r : HttpResponse)
    → validate_url net 0 url policy ≡ passed target
    → client.send 0 (call_of target (sanitise_headers headers)) ≡ responded r
    → is_redirect r.status_code ≡ false
    → type_allowed policy (media_type r.content_type) ≡ false
    → request net client policy headers url ≡ record {
      targets = target ∷ [];
      calls = call_of target (sanitise_headers headers) ∷ [];
      outcome = content_type_rejected (media_type r.content_type);
    }
unfolding request loop
request_rejected net client policy headers url target r reached answer here rejected =
    rw (add-one policy.max_redirects, loop, reached, answer, here, rejected) refl
