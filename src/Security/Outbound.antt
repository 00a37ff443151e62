-- ===== src/Security/Outbound.antt =====
-- services/connector-registry/app/security/outbound.py: one guarded request, with every redirect
-- checked again. The HTTP client and the resolution of a relative URL are parameters.
pub mod Bounds
pub mod Hops
use favl_agentic_content_os.Prelude.{
  ℕ, zero, suc, append, decimal, ◌+◌, ◌==◌, String, str_eq, Bool, true, false, not, ◌&&◌, ◌||◌,
  Option, none, some, List, [], ◌∷◌, ◌++◌, any, select, leb, ltb, length, if◌then◌else◌,
}
use favl_agentic_content_os.Prelude.Text.{Text, codes, lower, text_eq}
use favl_agentic_content_os.Security.Ssrf.{
  OutboundPolicy, Network, Checked, passed, blocked, ValidatedTarget, validate_url,
}

abbrev stripped_request_headers : List String
stripped_request_headers =
    "authorization" ∷ "proxy-authorization" ∷ "cookie" ∷ "x-api-key" ∷ "connection" ∷ "keep-alive"
    ∷ "proxy-connection" ∷ "transfer-encoding" ∷ "upgrade" ∷ "te" ∷ "trailer" ∷ "host" ∷ []

abbrev pub Headers : Type 0
Headers = List (String × String)

-- `k.lower() in STRIPPED_REQUEST_HEADERS`
abbrev pub is_stripped : String → Bool
is_stripped name = any (λ h. text_eq (lower (codes name)) (codes h)) stripped_request_headers

unfoldable pub sanitise_headers : Headers → Headers
sanitise_headers headers = select (λ h. not (is_stripped h.0)) headers

-- What the client does: a transport error, or a response, whose body comes in chunks of bytes.
pub record HttpResponse : Type 0 where
  pub status_code : ℕ
  pub location : Option String
  pub content_type : String
  pub chunks : List Text
  pub request_id : Option String

pub data Reply : Type 0 where
  transport_error : String → Reply
  responded : HttpResponse → Reply

-- One request of the client: the URL it connects to, the headers, and the name it asks TLS for.
pub record HttpCall : Type 0 where
  pub url : String
  pub headers : Headers
  pub sni_hostname : String

abbrev host_header : ValidatedTarget → String
host_header target =
    if target.port == 80 || target.port == 443
    then target.host
    else append target.host (append ":" (decimal target.port))

abbrev pub call_of : ValidatedTarget → Headers → HttpCall
call_of target headers = record {
  url = target.pinned_url;
  headers = headers ++ ("Host", host_header target) ∷ [];
  sni_hostname = target.host;
}

-- The client, at the time of each hop, and `httpx.URL(current).join(location)`.
pub record Client : Type 0 where
  pub send : ℕ → HttpCall → Reply
  pub url_join : String → String → String

-- `_read_capped`: `none` is ResponseTooLarge.
abbrev pub prepend : Text → Option Text → Option Text
prepend chunk none = none
prepend chunk (some rest) = some (chunk ++ rest)

unfoldable pub read_capped : ℕ → ℕ → List Text → Option Text
read_capped limit total [] = some []
read_capped limit total (chunk ∷ rest) =
    let total' = total + length chunk in
    let body = read_capped limit total' rest in
    if ltb limit total' then none else prepend chunk body

pub record OutboundResponse : Type 0 where
  pub status_code : ℕ
  pub body : Text
  pub final_url : String
  pub provider_request_id : Option String
  pub redirects : ℕ

-- How a request ends: the exceptions of the module, the client's, and `out_of_fuel`, for a loop that
-- was cut off here.
pub data Sent : Type 0 where
  response : OutboundResponse → Sent
  ssrf_blocked : String → Sent
  too_many_redirects : Sent
  content_type_rejected : Text → Sent
  response_too_large : Sent
  failed : String → Sent
  out_of_fuel : Sent

-- The end, and the targets that were connected to, with what the client was given for each, in order.
pub record Trace : Type 0 where
  pub targets : List ValidatedTarget
  pub calls : List HttpCall
  pub outcome : Sent

abbrev ended_with : Sent → Trace
ended_with s = record { targets = []; calls = []; outcome = s }

abbrev pub connected : ValidatedTarget → HttpCall → Trace → Trace
connected target call t = record t { targets = target ∷ t.targets; calls = call ∷ t.calls }

abbrev pub is_redirect : ℕ → Bool
is_redirect code = code == 301 || (code == 302 || (code == 303 || (code == 307 || code == 308)))

-- `.split(";")[0].strip()`, of a header in ASCII.
abbrev is_blank_char : ℕ → Bool
is_blank_char c = c == 32 || (leb 9 c && leb c 13)

abbrev before_semicolon : Text → Text
before_semicolon [] = []
before_semicolon (c ∷ s) = let rest = before_semicolon s in if c == b';' then [] else c ∷ rest

abbrev lstrip : Text → Text
lstrip [] = []
lstrip (c ∷ s) = let rest = lstrip s in if is_blank_char c then rest else c ∷ s

abbrev nothing_left : Text → Bool
nothing_left [] = true
nothing_left (c ∷ s) = false

abbrev rstrip : Text → Text
rstrip [] = []
rstrip (c ∷ s) =
    let rest = rstrip s in if is_blank_char c && nothing_left rest then [] else c ∷ rest

abbrev pub media_type : String → Text
media_type header = rstrip (lstrip (before_semicolon (codes header)))

abbrev pub type_allowed : OutboundPolicy → Text → Bool
type_allowed policy media =
    nothing_left media || any (λ t. text_eq media (codes t)) policy.allowed_content_types

abbrev read_body : String → ℕ → HttpResponse → Option Text → Sent
read_body url redirects r none = response_too_large
read_body url redirects r (some body) = response (record {
  status_code = r.status_code;
  body = body;
  final_url = url;
  provider_request_id = r.request_id;
  redirects = redirects;
})

-- What follows a response that is no redirect.
abbrev pub finish : OutboundPolicy → String → ℕ → HttpResponse → Sent
finish policy url redirects r =
    let media = media_type r.content_type in
    if not (type_allowed policy media)
    then content_type_rejected media
    else read_body url redirects r (read_capped policy.max_response_bytes 0 r.chunks)

-- A redirect, given what the loop does at the next URL.
abbrev pub follow : Client → OutboundPolicy → String → ℕ → Option String → (String → Trace) → Trace
follow client policy url redirects none next = ended_with (ssrf_blocked "redirect_without_location")
follow client policy url redirects (some location) next =
    if str_eq location ""
    then ended_with (ssrf_blocked "redirect_without_location")
    else if ltb policy.max_redirects (redirects + 1)
    then ended_with too_many_redirects
    else next (client.url_join url location)

abbrev pub after_reply : Client → OutboundPolicy → String → ℕ → Reply → (String → Trace) → Trace
after_reply client policy url redirects (transport_error text) next = ended_with (failed text)
after_reply client policy url redirects (responded r) next =
    if is_redirect r.status_code
    then follow client policy url redirects r.location next
    else ended_with (finish policy url redirects r)

-- One turn of the loop, from the check of the URL.
abbrev pub visit :
    Client
    → OutboundPolicy
    → Headers
    → String
    → ℕ
    → Checked ValidatedTarget
    → (String → Trace)
    → Trace
visit client policy headers url redirects (blocked reason) next = ended_with (ssrf_blocked reason)
visit client policy headers url redirects (passed target) next =
    let call = call_of target headers in
    connected target call
      (after_reply client policy url redirects (client.send redirects call) next)

-- `while True`, on fuel.
unfoldable pub loop : Network → Client → OutboundPolicy → Headers → ℕ → ℕ → String → Trace
loop net client policy headers zero redirects url = ended_with out_of_fuel
loop net client policy headers (suc fuel) redirects url =
    visit client policy headers url redirects (validate_url net redirects url policy)
      (loop net client policy headers fuel (redirects + 1))

-- `request`: one turn more than the redirects that the policy allows.
unfoldable pub request : Network → Client → OutboundPolicy → Headers → String → Trace
request net client policy headers url =
    loop net client policy (sanitise_headers headers) (policy.max_redirects + 1) 0 url
