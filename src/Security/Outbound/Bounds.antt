-- ===== src/Security/Outbound/Bounds.antt =====
-- What a guarded request may do: where it connects, how often, and what it returns.
use native.Mathlib.Numerals.{add-one}
use mathlib.Core.Option.{some-injective}
use favl_agentic_content_os.Prelude.{
  ℕ, zero, suc, ◌+◌, ◌≤◌, ◌≡◌, refl, String, str_eq, Option, none, some, List, [], ◌∷◌, ◌++◌, ltb,
  length, length-append, All, map, ap, arith, Bool-cases, Option-cases, inl, inr,
}
use favl_agentic_content_os.Prelude.Text.{Text}
use favl_agentic_content_os.Security.Address.{IpAddress}
use favl_agentic_content_os.Security.Ssrf.{
  OutboundPolicy, Network, Checked, passed, blocked, ValidatedTarget, target_of, netloc_of,
  validate_url, validate_static, resolve_and_validate, Endpoint,
}
use favl_agentic_content_os.Security.Ssrf.Checks.{
  IsClear, after-passed, resolve_and_validate-Resolves,
}
use favl_agentic_content_os.Security.Outbound.{
  Headers, sanitise_headers, HttpResponse, Reply, transport_error, responded, Client, read_capped,
  HttpCall, call_of, Sent, response, ssrf_blocked, too_many_redirects, failed, out_of_fuel, Trace,
  media_type, type_allowed, finish, follow, after_reply, visit, loop, is_redirect, request,
}

-- The target was checked under the policy, and its address is one that passed.
pub record IsChecked (net : Network) (policy : OutboundPolicy) (target : ValidatedTarget)
    : Type 0 where
  pub endpoint : Endpoint
  pub checked : validate_static net target.url policy ≡ passed endpoint
  pub same_host : target.host ≡ endpoint.host
  pub ip : IpAddress
  pub address : target.address ≡ net.ip_text ip
  pub clear : IsClear policy ip
  pub same_port : target.port ≡ endpoint.port
  pub pinned : target.pinned_url ≡ net.with_netloc target.url (netloc_of target.address target.port)

validate_url-IsChecked :
    (net : Network) (hop : ℕ) (url : String) (policy : OutboundPolicy) (target : ValidatedTarget)
    → validate_url net hop url policy ≡ passed target
    → IsChecked net policy target
unfolding validate_url
validate_url-IsChecked net hop url policy target e =
    let (endpoint, static, later) = after-passed (validate_static net url policy) _ target e in
    let (address, resolved, done) =
      after-passed (resolve_and_validate net hop endpoint.host endpoint.port policy) _ target
        later in
    let (infos, found, good, ip, text, clear) =
      resolve_and_validate-Resolves net hop endpoint.host endpoint.port policy address resolved in
    let whole : target_of net url endpoint address ≡ target = cc done in
    rw (← whole) (record {
      endpoint = endpoint;
      checked = static;
      same_host = refl;
      ip = ip;
      address = text;
      clear = clear;
      same_port = refl;
      pinned = refl;
    })

read_capped-le :
    (limit total : ℕ) (chunks : List Text) (body : Text)
    → total ≤ limit
    → read_capped limit total chunks ≡ some body
    → total + length body ≤ limit
unfolding read_capped
read_capped-le limit total [] body h e =
    let empty : [] ≡ body = some-injective [] body e in rw (← empty) (omega arith)
read_capped-le limit total (chunk ∷ rest) body h e =
    elim (Bool-cases (ltb limit (total + length chunk))) [
      | inl over ↦ cc (rw over at e)
      | inr fits ↦ elim (Option-cases (read_capped limit (total + length chunk) rest)) [
        | inl cut ↦ cc (rw (fits, cut) at e)
        | inr (tail, read) ↦
            let whole : chunk ++ tail ≡ body =
              some-injective (chunk ++ tail) body (rw (fits, read) at e) in
            let short : total + length chunk ≤ limit = ground arith in
            rw (← whole) (
              omega (
                arith,
                length-append chunk tail,
                read_capped-le limit (total + length chunk) rest tail short read,
              ))
      ]
    ]

-- What the end of a request may be.
abbrev pub Fits : OutboundPolicy → Sent → Type 0
Fits policy (response r) =
    (length r.body ≤ policy.max_response_bytes) × (r.redirects ≤ policy.max_redirects)
Fits policy out_of_fuel = ⊥
Fits policy other = Unit

-- A trace within the policy, of at most so many connections.
pub record IsGuarded (net : Network) (policy : OutboundPolicy) (most : ℕ) (t : Trace) : Type 0 where
  pub targets : All (IsChecked net policy) t.targets
  pub calls :
      map (λ (c : HttpCall). c.url) t.calls ≡ map (λ (v : ValidatedTarget). v.pinned_url) t.targets
  pub few : length t.targets ≤ most
  pub outcome : Fits policy t.outcome

module _ (net : Network) (client : Client) (policy : OutboundPolicy) (headers : Headers)
    (redirects : ℕ) (allowed : redirects ≤ policy.max_redirects) where
  stops :
      (most : ℕ) (s : Sent)
      → Fits policy s
      → IsGuarded net policy most (record { targets = []; calls = []; outcome = s })
  stops most s h = record { targets = tt; calls = refl; few = omega arith; outcome = h }

  read_Fits : (url : String) (r : HttpResponse) → Fits policy (finish policy url redirects r)
  read_Fits url r = elim (Bool-cases (type_allowed policy (media_type r.content_type))) [
    | inr other ↦ rw other tt
    | inl good ↦ elim (Option-cases (read_capped policy.max_response_bytes 0 r.chunks)) [
      | inl long ↦ rw (good, long) tt
      | inr (body, read) ↦
          rw (good, read)
            (
              omega (
                arith,
                read_capped-le policy.max_response_bytes 0 r.chunks body (omega arith) read,
              ),
              allowed,
            )
    ]
  ]

  follow-IsGuarded :
      (most : ℕ) (url : String) (location : Option String) (next : String → Trace)
      → ((url' : String)
          → redirects + 1 ≤ policy.max_redirects
          → IsGuarded net policy most (next url'))
      → IsGuarded net policy most (follow client policy url redirects location next)
  follow-IsGuarded most url none next h = stops most (ssrf_blocked "redirect_without_location") tt
  follow-IsGuarded most url (some location) next h = elim (Bool-cases (str_eq location "")) [
    | inl empty ↦ rw empty (stops most (ssrf_blocked "redirect_without_location") tt)
    | inr given ↦ elim (Bool-cases (ltb policy.max_redirects (redirects + 1))) [
      | inl over ↦ rw (given, over) (stops most too_many_redirects tt)
      | inr fits ↦ rw (given, fits) (h (client.url_join url location) (ground arith))
    ]
  ]

  after_reply-IsGuarded :
      (most : ℕ) (url : String) (reply : Reply) (next : String → Trace)
      → ((url' : String)
          → redirects + 1 ≤ policy.max_redirects
          → IsGuarded net policy most (next url'))
      → IsGuarded net policy most (after_reply client policy url redirects reply next)
  after_reply-IsGuarded most url (transport_error text) next h = stops most (failed text) tt
  after_reply-IsGuarded most url (responded r) next h =
      elim (Bool-cases (is_redirect r.status_code)) [
        | inl moved ↦ rw moved (follow-IsGuarded most url r.location next h)
        | inr final ↦ rw final (stops most (finish policy url redirects r) (read_Fits url r))
      ]

  visit-IsGuarded :
      (most : ℕ) (url : String) (c : Checked ValidatedTarget) (next : String → Trace)
      → ((target : ValidatedTarget) → c ≡ passed target → IsChecked net policy target)
      → ((url' : String)
          → redirects + 1 ≤ policy.max_redirects
          → IsGuarded net policy most (next url'))
      → IsGuarded net policy (suc most) (visit client policy headers url redirects c next)
  visit-IsGuarded most url (blocked reason) next safe h = stops (suc most) (ssrf_blocked reason) tt
  visit-IsGuarded most url (passed target) next safe h =
      let rest =
        after_reply-IsGuarded most url (client.send redirects (call_of target headers)) next h in
      record {
        targets = (safe target refl, rest.targets);
        calls = ap (λ urls. target.pinned_url ∷ urls) rest.calls;
        few = omega (arith, rest.few);
        outcome = rest.outcome;
      }

loop-IsGuarded :
    (net : Network) (client : Client) (policy : OutboundPolicy) (headers : Headers)
    (fuel redirects : ℕ) (url : String)
    → redirects + fuel ≡ policy.max_redirects
    → IsGuarded net policy (suc fuel) (loop net client policy headers (suc fuel) redirects url)
unfolding loop
loop-IsGuarded net client policy headers zero redirects url total =
    visit-IsGuarded net client policy headers redirects (omega arith) zero url
      (validate_url net redirects url policy) _ (validate_url-IsChecked net redirects url policy)
      (λ url' more. absurd (omega arith))
loop-IsGuarded net client policy headers (suc n) redirects url total =
    visit-IsGuarded net client policy headers redirects (omega arith) (suc n) url
      (validate_url net redirects url policy) _ (validate_url-IsChecked net redirects url policy)
      (λ url' more. loop-IsGuarded net client policy headers n (redirects + 1) url' (omega arith))

-- Whatever servers answer and wherever they redirect to, a guarded request ends; it connects at most
-- once more often than the policy allows redirects, and only for targets whose URL and address have
-- passed the policy; each URL that the client is given has that address and the port in the place of
-- its host; a body that it returns is within the limit.
pub request-IsGuarded :
    (net : Network) (client : Client) (policy : OutboundPolicy) (headers : Headers) (url : String)
    → IsGuarded net policy (policy.max_redirects + 1) (request net client policy headers url)
unfolding request
request-IsGuarded net client policy headers url = rw add-one (
    loop-IsGuarded net client policy (sanitise_headers headers) policy.max_redirects 0 url
      (omega arith))
