-- ===== src/Security/Ssrf/Checks.antt =====
-- What a destination that passes has passed.
use favl_agentic_content_os.Prelude.{
  ℕ, ◌≡◌, refl, String, Option, none, some, List, [], ◌∷◌, Option-cases, inl, inr, All,
}
use favl_agentic_content_os.Security.Address.{IpAddress, normalise_address, classify}
use favl_agentic_content_os.Security.Address.Ranges.{normalise_address_idem}
use favl_agentic_content_os.Security.Ssrf.{
  OutboundPolicy, Network, Checked, passed, blocked, after, check_parsed, check_infos,
  first_address, resolve_and_validate,
}

-- Every address that the name resolved to is unwrapped, and passes.
abbrev pub Resolves : Network → OutboundPolicy → List String → Type 0
Resolves net policy infos =
    All
      (λ raw.
        (parsed : IpAddress) × (net.ip_address raw ≡ some parsed)
        × (classify (normalise_address parsed) policy.allow_private_addresses ≡ none))
      infos

pub after-passed :
    {A : Type 0} {B : Type 0} (c : Checked A) (f : A → Checked B) (b : B)
    → after c f ≡ passed b
    → (a : A) × (c ≡ passed a) × (f a ≡ passed b)
after-passed (passed a) f b e = (a, refl, e)
after-passed (blocked reason) f b e = cc e

check_parsed-passed :
    (policy : OutboundPolicy) (o : Option IpAddress) (ip : IpAddress)
    → check_parsed policy o ≡ passed ip
    → (parsed : IpAddress) × (o ≡ some parsed)
      × (ip ≡ normalise_address parsed)
      × (classify (normalise_address parsed) policy.allow_private_addresses ≡ none)
check_parsed-passed policy none ip e = cc e
check_parsed-passed policy (some parsed) ip e =
    elim (Option-cases (classify (normalise_address parsed) policy.allow_private_addresses)) [
      | inr (reason, bad) ↦ cc (rw bad at e)
      | inl clear ↦ (parsed, refl, cc (rw clear at e), clear)
    ]

-- An address that may be connected to: unwrapped, and passed.
abbrev pub IsClear : OutboundPolicy → IpAddress → Type 0
IsClear policy ip =
    (normalise_address ip ≡ ip) × (classify ip policy.allow_private_addresses ≡ none)

check_infos-passed :
    (net : Network) (policy : OutboundPolicy) (infos : List String) (ips : List IpAddress)
    → check_infos net policy infos ≡ passed ips
    → Resolves net policy infos × All (IsClear policy) ips
unfolding check_infos
check_infos-passed net policy [] ips e = let empty : [] ≡ ips = cc e in (tt, rw (← empty) tt)
check_infos-passed net policy (raw ∷ rest) ips e =
    let (ip, first, later) = after-passed (check_parsed policy (net.ip_address raw)) _ ips e in
    let (others, tail, done) = after-passed (check_infos net policy rest) _ ips later in
    let (parsed, read, same, clear) = check_parsed-passed policy (net.ip_address raw) ip first in
    let (good, all_clear) = check_infos-passed net policy rest others tail in
    let whole : ip ∷ others ≡ ips = cc done in
    (
      ((parsed, read, clear), good),
      rw (← whole, same) ((normalise_address_idem parsed, clear), all_clear),
    )

first-IsClear :
    (net : Network) (policy : OutboundPolicy) (ips : List IpAddress) (address : String)
    → first_address net ips ≡ passed address
    → All (IsClear policy) ips
    → (ip : IpAddress) × (address ≡ net.ip_text ip) × IsClear policy ip
first-IsClear net policy [] address e clear = cc e
first-IsClear net policy (ip ∷ rest) address e clear = (ip, cc e, clear.0)

-- If a name passes, then every address it resolved to was parsed and passed, and the address to
-- connect to is one that the classifier saw as it is written.
pub resolve_and_validate-Resolves :
    (net : Network) (hop : ℕ) (host : String) (port : ℕ) (policy : OutboundPolicy)
    (address : String)
    → resolve_and_validate net hop host port policy ≡ passed address
    → (infos : List String) × (net.getaddrinfo hop host port ≡ some infos)
      × Resolves net policy infos
      × (ip : IpAddress) × (address ≡ net.ip_text ip)
      × IsClear policy ip
unfolding resolve_and_validate
resolve_and_validate-Resolves net hop host port policy address e =
    elim (Option-cases (net.getaddrinfo hop host port)) [
      | inl failed ↦ cc (rw failed at e)
      | inr (infos, found) ↦
          let (ips, seen, picked) =
            after-passed (check_infos net policy infos) (first_address net) address
              (rw found at e) in
          let (good, clear) = check_infos-passed net policy infos ips seen in
          let (ip, text, ok) = first-IsClear net policy ips address picked clear in
          (infos, found, good, ip, text, ok)
    ]
