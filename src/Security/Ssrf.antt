-- ===== src/Security/Ssrf.antt =====
-- The checks of a destination in services/connector-registry/app/security/ssrf.py. The parser of URLs,
-- the resolver of names and the text of an address are fields of a parameter.
pub mod Checks
use favl_agentic_content_os.Prelude.{
  ℕ, ◌==◌, String, str_eq, Bool, true, false, not, ◌&&◌, ◌||◌, Option, none, some, List, [], ◌∷◌,
  any, append, decimal, if◌then◌else◌,
}
use favl_agentic_content_os.Prelude.Text.{Text, codes, lower, text_eq, starts_with, ends_with}
use favl_agentic_content_os.Security.Address.{IpAddress, normalise_address, classify}

pub record OutboundPolicy : Type 0 where
  pub allowed_hosts : List String
  pub allowed_schemes : List String
  pub allow_private_addresses : Bool
  pub max_redirects : ℕ
  pub max_response_bytes : ℕ
  pub allowed_content_types : List String

-- What the code reads of `urlparse(url)`, whose scheme is in lower case.
pub record ParsedUrl : Type 0 where
  pub scheme : String
  pub hostname : Option String
  pub username : Option String
  pub password : Option String
  pub port : Option ℕ

-- The URL parser; `getaddrinfo`, with `none` for a gaierror, at the time of each hop; the parser and
-- the text of an address; and the URL with another network location.
pub record Network : Type 0 where
  pub urlparse : String → ParsedUrl
  pub getaddrinfo : ℕ → String → ℕ → Option (List String)
  pub ip_address : String → Option IpAddress
  pub ip_text : IpAddress → String
  pub with_netloc : String → String → String

-- A result, or SSRFBlocked with its reason.
pub data Checked (A : Type 0) : Type 0 where
  passed : A → Checked A
  blocked : String → Checked A

abbrev pub after : {A : Type 0} → {B : Type 0} → Checked A → (A → Checked B) → Checked B
after (passed a) f = f a
after (blocked reason) f = blocked reason

-- `text.rstrip(".")`
abbrev is_empty : Text → Bool
is_empty [] = true
is_empty (c ∷ s) = false

abbrev pub rstrip_dots : Text → Text
rstrip_dots [] = []
rstrip_dots (c ∷ s) =
    let rest = rstrip_dots s in if c == b'.' && is_empty rest then [] else c ∷ rest

abbrev pub host_name : String → Text
host_name host = rstrip_dots (lower (codes host))

abbrev admits : Text → Text → Bool
admits host entry = text_eq host entry || (starts_with entry (codes ".") && ends_with host entry)

-- `host_allowed`
unfoldable pub host_allowed : OutboundPolicy → String → Bool
host_allowed policy host =
    any (λ entry. admits (host_name host) (host_name entry)) policy.allowed_hosts

-- `host.strip("[]")`
abbrev is_bracket : String → Bool
is_bracket c = str_eq c "[" || str_eq c "]"

abbrev pub lstrip_brackets : String → String
lstrip_brackets String.[] = ""
lstrip_brackets (String.◌∷◌ c s) =
    let rest = lstrip_brackets s in if is_bracket (String.◌∷◌ c "") then rest else String.◌∷◌ c s

abbrev pub rstrip_brackets : String → String
rstrip_brackets String.[] = ""
rstrip_brackets (String.◌∷◌ c s) =
    let rest = rstrip_brackets s in
    if is_bracket (String.◌∷◌ c "") && str_eq rest "" then "" else String.◌∷◌ c rest

abbrev pub strip_brackets : String → String
strip_brackets s = rstrip_brackets (lstrip_brackets s)

-- The loop of `resolve_and_validate` over what the name resolved to, and its list of addresses.
abbrev pub after_class : IpAddress → Option String → Checked IpAddress
after_class ip none = passed ip
after_class ip (some reason) = blocked reason

abbrev pub check_parsed : OutboundPolicy → Option IpAddress → Checked IpAddress
check_parsed policy none = blocked "unparsable_address"
check_parsed policy (some parsed) =
    let ip = normalise_address parsed in after_class ip (classify ip policy.allow_private_addresses)

unfoldable pub check_infos : Network → OutboundPolicy → List String → Checked (List IpAddress)
check_infos net policy [] = passed []
check_infos net policy (raw ∷ rest) =
    let others = check_infos net policy rest in
    after (check_parsed policy (net.ip_address raw)) (λ ip. after others (λ ips. passed (ip ∷ ips)))

-- `addresses[0]`, of a list that is not empty.
abbrev pub first_address : Network → List IpAddress → Checked String
first_address net [] = blocked "dns_resolution_failed"
first_address net (ip ∷ rest) = passed (net.ip_text ip)

abbrev pub check_resolved : Network → OutboundPolicy → Option (List String) → Checked String
check_resolved net policy none = blocked "dns_resolution_failed"
check_resolved net policy (some infos) = after (check_infos net policy infos) (first_address net)

unfoldable pub resolve_and_validate : Network → ℕ → String → ℕ → OutboundPolicy → Checked String
resolve_and_validate net hop host port policy =
    check_resolved net policy (net.getaddrinfo hop host port)

abbrev is_set : Option String → Bool
is_set none = false
is_set (some s) = not (str_eq s "")

abbrev host_or_empty : Option String → String
host_or_empty none = ""
host_or_empty (some h) = h

abbrev default_port : String → ℕ
default_port scheme = if str_eq scheme "https" then 443 else 80

abbrev pub port_or_default : Option ℕ → String → ℕ
port_or_default none scheme = default_port scheme
port_or_default (some p) scheme = if p == 0 then default_port scheme else p

-- What `validate_static` returns.
pub record Endpoint : Type 0 where
  pub scheme : String
  pub host : String
  pub port : ℕ

abbrev pub check_literal : OutboundPolicy → Option IpAddress → Endpoint → Checked Endpoint
check_literal policy none e = passed e
check_literal policy (some ip) e = elim (classify ip policy.allow_private_addresses) [
  | none ↦ passed e
  | some reason ↦ blocked reason
]

unfoldable pub validate_static : Network → String → OutboundPolicy → Checked Endpoint
validate_static net url policy =
    let parsed = net.urlparse url in
    let host = host_or_empty parsed.hostname in
    if not (any (str_eq parsed.scheme) policy.allowed_schemes)
    then blocked "scheme_not_allowed"
    else if str_eq host ""
    then blocked "missing_host"
    else if is_set parsed.username || is_set parsed.password
    then blocked "credentials_in_url"
    else if not (host_allowed policy host)
    then blocked "host_not_allowlisted"
    else check_literal policy (net.ip_address (strip_brackets host)) (record {
      scheme = parsed.scheme;
      host = host;
      port = port_or_default parsed.port parsed.scheme;
    })

pub record ValidatedTarget : Type 0 where
  pub url : String
  pub host : String
  pub port : ℕ
  pub scheme : String
  pub address : String
  pub pinned_url : String

-- `f"{literal}:{port}"`, with a literal IPv6 address in brackets.
unfoldable pub netloc_of : String → ℕ → String
netloc_of address port =
    let literal =
      if any (λ c. c == b':') (codes address) then append "[" (append address "]") else address in
    append literal (append ":" (decimal port))

-- `with_netloc` is `urlparse(url)._replace(netloc=…).geturl()`.
abbrev pub target_of : Network → String → Endpoint → String → ValidatedTarget
target_of net url e address = record {
  url = url;
  host = e.host;
  port = e.port;
  scheme = e.scheme;
  address = address;
  pinned_url = net.with_netloc url (netloc_of address e.port);
}

unfoldable pub validate_url : Network → ℕ → String → OutboundPolicy → Checked ValidatedTarget
validate_url net hop url policy = after (validate_static net url policy) (λ e.
    after (resolve_and_validate net hop e.host e.port policy)
      (λ address. passed (target_of net url e address)))
