-- ===== src/Security/Address/Ranges.antt =====
-- Which addresses pass: none of a forbidden network, in its numbers.
use favl_agentic_content_os.Prelude.{
  ℕ, ◌<◌, ◌≡◌, ◌⊎◌, refl, sym, ◌∙◌, inl, inr, String, Bool, true, false, Bool-cases, arith, Option,
  none, some, [], ◌∷◌, All,
}
use favl_agentic_content_os.Security.Address.{
  IpAddress, v4, v6, quad, in_network, Table, metadata_networks, always_forbidden_networks,
  private_networks, normalise_address, match_table, match_metadata, always_forbidden, or_private,
  address_is_forbidden, classify,
}

-- The address is in none of a table's networks.
abbrev pub IsOutside : IpAddress → Table → Type 0
IsOutside ip t = All (λ row. in_network ip row.0 ≡ false) t

match_table-none : (ip : IpAddress) (t : Table) → match_table ip t ≡ none → IsOutside ip t
unfolding match_table
match_table-none ip [] h = tt
match_table-none ip ((network, reason) ∷ rest) h = elim (Bool-cases (in_network ip network)) [
  | inl e ↦ cc (rw e at h)
  | inr e ↦ (e, match_table-none ip rest (rw e at h))
]

-- Unwrapping once is enough.
pub normalise_address_idem :
    (ip : IpAddress) → normalise_address (normalise_address ip) ≡ normalise_address ip
unfolding normalise_address
normalise_address_idem (v4 n) = refl
normalise_address_idem (v6 n) = ground arith

always-none :
    (ip : IpAddress)
    → always_forbidden ip ≡ none
    → match_table (normalise_address ip) always_forbidden_networks ≡ none
unfolding always_forbidden
always-none ip h = elim (Bool-cases (match_metadata (normalise_address ip) metadata_networks)) [
  | inl e ↦ cc (rw e at h)
  | inr e ↦ rw e at h
]

always_normalised : (ip : IpAddress) → always_forbidden (normalise_address ip) ≡ always_forbidden ip
unfolding always_forbidden
always_normalised ip = rw (normalise_address_idem ip) refl

or_private-none :
    (n : IpAddress) (o : Option String)
    → or_private n o ≡ none
    → (o ≡ none) × (match_table n private_networks ≡ none)
or_private-none n none h = (refl, h)
or_private-none n (some reason) h = cc h

classify-always : (ip : IpAddress) (p : Bool) → classify ip p ≡ none → always_forbidden ip ≡ none
unfolding classify address_is_forbidden
classify-always ip true h = h
classify-always ip false h =
    sym (always_normalised ip)
    ∙ (or_private-none (normalise_address ip) (always_forbidden (normalise_address ip)) h).0

classify-private :
    (ip : IpAddress)
    → classify ip false ≡ none
    → match_table (normalise_address ip) private_networks ≡ none
unfolding classify address_is_forbidden
classify-private ip h =
    (or_private-none (normalise_address ip) (always_forbidden (normalise_address ip)) h).1

-- An address that passes is, once unwrapped, in no network of the first table by any policy, and in
-- no private network unless the policy allows them.
pub classify-IsOutside :
    (ip : IpAddress) (allow_private : Bool)
    → classify ip allow_private ≡ none
    → IsOutside (normalise_address ip) always_forbidden_networks
      × ((allow_private ≡ true) ⊎ IsOutside (normalise_address ip) private_networks)
classify-IsOutside ip true h = (
  match_table-none (normalise_address ip) always_forbidden_networks
      (always-none ip (classify-always ip true h)),
  inl refl,
)
classify-IsOutside ip false h = (
  match_table-none (normalise_address ip) always_forbidden_networks
      (always-none ip (classify-always ip false h)),
  inr (match_table-none (normalise_address ip) private_networks (classify-private ip h)),
)

-- A policy that allows private addresses admits all that another does.
pub classify_widens : (ip : IpAddress) → classify ip false ≡ none → classify ip true ≡ none
unfolding classify
classify_widens ip h = classify-always ip false h

-- `lo` to `hi`, both included.
abbrev pub OutsideRange : ℕ → ℕ → ℕ → Type 0
OutsideRange lo hi a = (a < lo) ⊎ (hi < a)

-- An address that is reached over IPv4, directly or unwrapped, and passes by some policy is not of
-- loopback, link-local (the metadata services among them), shared, multicast or unspecified range.
pub classify-ranges :
    (ip : IpAddress) (allow_private : Bool) (a : ℕ)
    → normalise_address ip ≡ v4 a
    → classify ip allow_private ≡ none
    → OutsideRange (quad 127 0 0 0) (quad 127 255 255 255) a
      × OutsideRange (quad 169 254 0 0) (quad 169 254 255 255) a
      × OutsideRange (quad 100 64 0 0) (quad 100 127 255 255) a
      × OutsideRange (quad 224 0 0 0) (quad 239 255 255 255) a
      × OutsideRange (quad 0 0 0 0) (quad 0 255 255 255) a
classify-ranges ip p a e h =
    let (loopback, (_, (link, (_, (multicast, (_, (unspecified, (_, (shared, _))))))))) =
      rw e at ((classify-IsOutside ip p h).0) in
    (ground arith, ground arith, ground arith, ground arith, ground arith)

-- One that passes a policy without private addresses is of no private range either.
pub classify-private_ranges :
    (ip : IpAddress) (a : ℕ)
    → normalise_address ip ≡ v4 a
    → classify ip false ≡ none
    → OutsideRange (quad 10 0 0 0) (quad 10 255 255 255) a
      × OutsideRange (quad 172 16 0 0) (quad 172 31 255 255) a
      × OutsideRange (quad 192 168 0 0) (quad 192 168 255 255) a
classify-private_ranges ip a e h =
    let (ten, (twelve, (sixteen, _))) =
      rw e at (match_table-none (normalise_address ip) private_networks (classify-private ip h)) in
    (ground arith, ground arith, ground arith)
