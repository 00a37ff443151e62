-- ===== src/Security/Address/Embedding.antt =====
-- The IPv6 forms that embed an IPv4 address are classified as that address.
use favl_agentic_content_os.Prelude.{
  ℕ, ◌+◌, ◌-◌, ◌*◌, ◌^◌, ◌<◌, ◌≡◌, refl, Bool, true, false, arith,
}
use favl_agentic_content_os.Security.Address.{
  v4, v6, normalise_address, always_forbidden, address_is_forbidden, classify,
}

-- The numbers of the IPv6 addresses that carry the IPv4 address `a`: `::ffff:a`, 6to4 and Teredo with
-- whatever other bits, and NAT64.
pub data Embeds (a : ℕ) : ℕ → Type 0 where
  mapped : Embeds a (0xffff * 2 ^ 32 + a)
  six_to_four : (rest : ℕ) → rest < 2 ^ 80 → Embeds a (0x2002 * 2 ^ 112 + a * 2 ^ 80 + rest)
  teredo :
      (middle : ℕ)
      → middle < 2 ^ 64
      → Embeds a (0x20010000 * 2 ^ 96 + middle * 2 ^ 32 + (2 ^ 32 - 1 - a))
  nat64 : Embeds a (0x0064ff9b * 2 ^ 96 + a)

embedded : (a n : ℕ) → a < 2 ^ 32 → Embeds a n → normalise_address (v6 n) ≡ v4 a
unfolding normalise_address
embedded a n h mapped = ground arith
embedded a n h (six_to_four rest r) = ground arith
embedded a n h (teredo middle m) = ground arith
embedded a n h nat64 = ground arith

-- An IPv6 address that carries an IPv4 address in one of four forms, IPv4-mapped, 6to4, Teredo and the
-- NAT64 prefix, is classified as that IPv4 address is, by either policy.
pub Embeds-classify :
    (a n : ℕ) (allow_private : Bool)
    → a < 2 ^ 32
    → Embeds a n
    → classify (v6 n) allow_private ≡ classify (v4 a) allow_private
unfolding classify always_forbidden address_is_forbidden normalise_address
Embeds-classify a n true h e = rw (embedded a n h e) refl
Embeds-classify a n false h e = rw (embedded a n h e) refl
