-- ===== src/Security/Policy.antt =====
-- services/connector-registry/app/security/policy.py: how an operator's bounds and a connector's
-- preferences make one policy. What the environment variables hold is an argument. Parsing reads a
-- configuration.
pub mod Parsing
use favl_agentic_content_os.Prelude.{
  ℕ, ◌≤◌, ◌≡◌, ◌⊎◌, inl, inr, refl, min, String, str_eq, eq_iff, Bool, true, ◌&&◌, ◌||◌, Option,
  none, some, List, [], ◌∷◌, any, select, All, arith, Bool-cases,
}
use favl_agentic_content_os.Prelude.Text.{codes, lower, text_eq, starts_with, ends_with}
use favl_agentic_content_os.Security.Ssrf.{OutboundPolicy, host_name}

-- The ceilings, each list as its variable has it: empty if it is not set.
pub record Operator : Type 0 where
  pub host_allowlist : List String
  pub allowed_schemes : List String
  pub allowed_content_types : List String
  pub allow_private_addresses : Bool
  pub max_response_bytes : ℕ
  pub max_redirects : ℕ

-- What a configuration asks for.
pub record Wanted : Type 0 where
  pub allowed_hosts : List String
  pub requested_schemes : List String
  pub allowed_content_types : List String
  pub max_response_bytes : Option ℕ
  pub max_redirects : Option ℕ

-- `a or b`, of two tuples.
abbrev pub or_list : List String → List String → List String
or_list [] b = b
or_list (x ∷ xs) b = x ∷ xs

abbrev pub default_content_types : List String
default_content_types = "application/json" ∷ "application/problem+json" ∷ "text/plain" ∷ []

abbrev pub default_allowed_schemes : List String
default_allowed_schemes = "https" ∷ []

abbrev pub scheme_ceiling : Operator → List String
scheme_ceiling op = or_list op.allowed_schemes default_allowed_schemes

abbrev pub type_ceiling : Operator → List String
type_ceiling op = or_list op.allowed_content_types default_content_types

-- `x in xs`
abbrev pub one_of_list : List String → String → Bool
one_of_list xs x = any (str_eq x) xs

-- `tuple(x for x in wanted if x in allowed) or allowed`
unfoldable pub narrow : List String → List String → List String
narrow wanted allowed = or_list (select (one_of_list allowed) wanted) allowed

-- The test of a connector's host against an operator's entry.
abbrev pub entry_permits : String → String → Bool
entry_permits host entry =
    text_eq (host_name host) (host_name entry)
    || (starts_with (codes entry) (codes ".")
        && ends_with (lower (codes host)) (lower (codes entry)))

abbrev pub permits : List String → String → Bool
permits entries host = any (entry_permits host) entries

unfoldable pub narrow_hosts : List String → List String → List String
narrow_hosts wanted [] = wanted
narrow_hosts wanted (entry ∷ entries) = select (permits (entry ∷ entries)) wanted

abbrev pub at_most_ceiling : Option ℕ → ℕ → ℕ → ℕ
at_most_ceiling none default_value ceiling = min default_value ceiling
at_most_ceiling (some n) default_value ceiling = min n ceiling

unfoldable pub build_policy : Operator → Wanted → ℕ → OutboundPolicy
unfolding narrow narrow_hosts
build_policy op wanted max_redirects = record {
  allowed_hosts = narrow_hosts wanted.allowed_hosts op.host_allowlist;
  allowed_schemes = narrow wanted.requested_schemes (scheme_ceiling op);
  allow_private_addresses = op.allow_private_addresses;
  max_redirects = at_most_ceiling wanted.max_redirects max_redirects op.max_redirects;
  max_response_bytes =
      at_most_ceiling wanted.max_response_bytes op.max_response_bytes op.max_response_bytes;
  allowed_content_types = narrow wanted.allowed_content_types (type_ceiling op);
}

-- A policy that gives no more than the operator does.
pub record IsWithin (op : Operator) (p : OutboundPolicy) : Type 0 where
  pub schemes : All (λ s. one_of_list (scheme_ceiling op) s ≡ true) p.allowed_schemes
  pub types : All (λ t. one_of_list (type_ceiling op) t ≡ true) p.allowed_content_types
  pub private_addresses : p.allow_private_addresses ≡ op.allow_private_addresses
  pub bytes : p.max_response_bytes ≤ op.max_response_bytes
  pub redirects : p.max_redirects ≤ op.max_redirects
  pub hosts :
      (op.host_allowlist ≡ []) ⊎ All (λ h. permits op.host_allowlist h ≡ true) p.allowed_hosts

select-kept : (keep : String → Bool) (xs : List String) → All (λ x. keep x ≡ true) (select keep xs)
select-kept keep [] = tt
select-kept keep (x ∷ xs) = elim (Bool-cases (keep x)) [
  | inl e ↦ rw e (e, select-kept keep xs)
  | inr e ↦ rw e (select-kept keep xs)
]

-- What is one of a list is one of a longer list that ends in it.
more_of :
    (y : String) (ys xs : List String)
    → All (λ x. one_of_list ys x ≡ true) xs
    → All (λ x. one_of_list (y ∷ ys) x ≡ true) xs
more_of y ys [] h = tt
more_of y ys (x ∷ xs) h = (ground arith, more_of y ys xs h.1)

every_own : (xs : List String) → All (λ x. one_of_list xs x ≡ true) xs
every_own [] = tt
every_own (x ∷ xs) = (rw ((eq_iff x x).1 refl) refl, more_of x xs xs (every_own xs))

or_list-kept :
    (P : String → Type 0) (xs ys : List String) → All P xs → All P ys → All P (or_list xs ys)
or_list-kept P [] ys hx hy = hy
or_list-kept P (x ∷ xs) ys hx hy = hx

narrow-kept :
    (wanted allowed : List String) → All (λ x. one_of_list allowed x ≡ true) (narrow wanted allowed)
unfolding narrow
narrow-kept wanted allowed =
    or_list-kept (λ x. one_of_list allowed x ≡ true) (select (one_of_list allowed) wanted) allowed
      (select-kept (one_of_list allowed) wanted) (every_own allowed)

narrow_hosts-kept :
    (wanted entries : List String)
    → (entries ≡ []) ⊎ All (λ h. permits entries h ≡ true) (narrow_hosts wanted entries)
unfolding narrow_hosts
narrow_hosts-kept wanted [] = inl refl
narrow_hosts-kept wanted (entry ∷ entries) = inr (select-kept (permits (entry ∷ entries)) wanted)

at_most_ceiling-le :
    (asked : Option ℕ) (default_value ceiling : ℕ)
    → at_most_ceiling asked default_value ceiling ≤ ceiling
at_most_ceiling-le none d c = omega arith
at_most_ceiling-le (some n) d c = omega arith

-- Whatever a connector's configuration asks for, each bound of the policy is within the operator's:
-- its schemes and content types are among the operator's, its numbers no larger, private addresses
-- as the operator has them, and, if the operator lists hosts, each of its hosts is permitted by one.
pub build_policy-IsWithin :
    (op : Operator) (wanted : Wanted) (max_redirects : ℕ)
    → IsWithin op (build_policy op wanted max_redirects)
unfolding build_policy
build_policy-IsWithin op wanted max_redirects = record {
  schemes = narrow-kept wanted.requested_schemes (scheme_ceiling op);
  types = narrow-kept wanted.allowed_content_types (type_ceiling op);
  private_addresses = refl;
  bytes = at_most_ceiling-le wanted.max_response_bytes op.max_response_bytes op.max_response_bytes;
  redirects = at_most_ceiling-le wanted.max_redirects max_redirects op.max_redirects;
  hosts = narrow_hosts-kept wanted.allowed_hosts op.host_allowlist;
}
