-- ===== src/Security/Examples.antt =====
-- The theorems on addresses, destinations and guarded requests, at one policy and one network.
use favl_agentic_content_os.Prelude.{
  append, ◌+◌, ◌*◌, ◌^◌, ◌≡◌, refl, arith, true, false, none, some, [], ◌∷◌,
}
use favl_agentic_content_os.Security.Address.{
  IpAddress, v4, v6, quad, normalise_address, classify, always_forbidden, address_is_forbidden,
  match_metadata, match_table,
}
use favl_agentic_content_os.Security.Address.Embedding.{mapped, Embeds-classify}
use favl_agentic_content_os.Security.Address.Ranges.{OutsideRange, classify-ranges}
use favl_agentic_content_os.Security.Ssrf.{
  OutboundPolicy, Network, passed, check_infos, resolve_and_validate,
}
use favl_agentic_content_os.Prelude.Text.{codes}
use favl_agentic_content_os.Security.Secrets.{
  SecretRef, tenant, env_name, permitted, parse_reference, check_addressable,
}
use favl_agentic_content_os.Security.Secrets.Ownership.{env_name_collision}
use favl_agentic_content_os.Security.Policy.{
  Operator, Wanted, build_policy, IsWithin, build_policy-IsWithin,
}
use favl_agentic_content_os.Security.Outbound.{Client, responded, request}
use favl_agentic_content_os.Security.Outbound.Bounds.{IsGuarded, request-IsGuarded}

Embeds-classify_example :
    classify (v6 (0xffff * 2 ^ 32 + quad 127 0 0 1)) true ≡ classify (v4 (quad 127 0 0 1)) true
Embeds-classify_example =
    Embeds-classify (quad 127 0 0 1) (0xffff * 2 ^ 32 + quad 127 0 0 1) true (omega arith) mapped

abbrev public : IpAddress
public = v4 (quad 8 8 8 8)

clear : classify public false ≡ none
unfolding classify address_is_forbidden always_forbidden normalise_address match_metadata
    match_table
clear = refl

normal : normalise_address public ≡ v4 (quad 8 8 8 8)
unfolding normalise_address
normal = refl

classify-ranges_example :
    OutsideRange (quad 127 0 0 0) (quad 127 255 255 255) (quad 8 8 8 8)
    × OutsideRange (quad 169 254 0 0) (quad 169 254 255 255) (quad 8 8 8 8)
    × OutsideRange (quad 100 64 0 0) (quad 100 127 255 255) (quad 8 8 8 8)
    × OutsideRange (quad 224 0 0 0) (quad 239 255 255 255) (quad 8 8 8 8)
    × OutsideRange (quad 0 0 0 0) (quad 0 255 255 255) (quad 8 8 8 8)
classify-ranges_example = classify-ranges public false (quad 8 8 8 8) normal clear

abbrev policy : OutboundPolicy
policy = record {
  allowed_hosts = "api.example" ∷ [];
  allowed_schemes = "https" ∷ [];
  allow_private_addresses = false;
  max_redirects = 3;
  max_response_bytes = 1024;
  allowed_content_types = "application/json" ∷ [];
}

-- One public address stands behind every name.
abbrev network : Network
network = record {
  urlparse = λ url. record {
    scheme = "https";
    hostname = some "api.example";
    username = none;
    password = none;
    port = none;
  };
  getaddrinfo = λ hop host port. some ("8.8.8.8" ∷ []);
  ip_address = λ s. some public;
  ip_text = λ ip. "8.8.8.8";
  with_netloc = λ url netloc. append "https://" netloc;
}

resolved : resolve_and_validate network 0 "api.example" 443 policy ≡ passed "8.8.8.8"
unfolding resolve_and_validate check_infos classify address_is_forbidden always_forbidden
    normalise_address match_metadata match_table
resolved = refl

-- A server that redirects for ever.
abbrev client : Client
client = record {
  send = λ hop call. responded (record {
    status_code = 302;
    location = some "/next";
    content_type = "";
    chunks = [];
    request_id = none;
  });
  url_join = λ current location. current;
}

request-IsGuarded_example :
    IsGuarded network policy
      (policy.max_redirects + 1)
      (request network client policy (("Cookie", "a=b") ∷ []) "https://api.example/")
request-IsGuarded_example =
    request-IsGuarded network client policy (("Cookie", "a=b") ∷ []) "https://api.example/"

abbrev secret : SecretRef
secret = record { scope = tenant; owner = codes "acme"; key = codes "api-key" }

allowed :
    check_addressable (codes "secret://tenant/acme/api-key") (codes "c1") (codes "acme")
    ≡ permitted secret
unfolding check_addressable parse_reference
allowed = refl

env_name_collision_example :
    env_name (record { scope = tenant; owner = codes "acme"; key = codes "eu_key" })
    ≡ env_name (record { scope = tenant; owner = codes "acme_eu"; key = codes "key" })
env_name_collision_example = env_name_collision tenant (codes "acme") (codes "eu") (codes "key")

abbrev operator : Operator
operator = record {
  host_allowlist = ".example" ∷ [];
  allowed_schemes = [];
  allowed_content_types = [];
  allow_private_addresses = false;
  max_response_bytes = 1_048_576;
  max_redirects = 3;
}

abbrev greedy : Wanted
greedy = record {
  allowed_hosts = "api.example" ∷ "evil.test" ∷ [];
  requested_schemes = "http" ∷ [];
  allowed_content_types = "text/html" ∷ [];
  max_response_bytes = some 10_000_000_000;
  max_redirects = some 100_000;
}

build_policy-IsWithin_example : IsWithin operator (build_policy operator greedy 3)
build_policy-IsWithin_example = build_policy-IsWithin operator greedy 3
