-- ===== src/Security/Address.antt =====
-- The address classes of services/connector-registry/app/security/ssrf.py. An address is its number,
-- as in the standard library's ipaddress, which the operations on addresses here follow.
pub mod Embedding
pub mod Ranges
use favl_agentic_content_os.Prelude.{
  ℕ, ◌+◌, ◌-◌, ◌*◌, ◌/◌, ◌%◌, ◌^◌, ◌==◌, String, Bool, true, false, ◌&&◌, Option, none, some, List,
  [], ◌∷◌, if◌then◌else◌,
}

pub data IpAddress : Type 0 where
  v4 v6 : ℕ → IpAddress

-- An IPv4 or IPv6 network: its number without the host bits, and how many host bits there are.
pub data IpNetwork : Type 0 where
  v4_network v6_network : ℕ → ℕ → IpNetwork

-- `a.b.c.d`
abbrev pub quad : ℕ → ℕ → ℕ → ℕ → ℕ
quad a b c d = ((a * 256 + b) * 256 + c) * 256 + d

-- `IPv4Network("a.b.c.d/length")`, and an IPv6 network by its number.
abbrev pub network4 : ℕ → ℕ → IpNetwork
network4 address length = v4_network (address / 2 ^ (32 - length)) (32 - length)

abbrev pub network6 : ℕ → ℕ → IpNetwork
network6 address length = v6_network (address / 2 ^ (128 - length)) (128 - length)

-- `ip.version == network.version and ip in network`
abbrev pub in_network : IpAddress → IpNetwork → Bool
in_network (v4 n) (v4_network prefix bits) = n / 2 ^ bits == prefix
in_network (v6 n) (v6_network prefix bits) = n / 2 ^ bits == prefix
in_network ip network = false

abbrev pub Table : Type 0
Table = List (IpNetwork × String)

abbrev pub metadata_networks : List IpNetwork
metadata_networks =
    network4 (quad 169 254 169 254) 32
    ∷ network4 (quad 169 254 170 2) 32
    ∷ network4 (quad 100 100 100 200) 32
    ∷ network6 0xfd000ec2000000000000000000000254 128
    ∷ []

abbrev pub always_forbidden_networks : Table
always_forbidden_networks =
    (network4 (quad 127 0 0 0) 8, "loopback_address")
    ∷ (network6 1 128, "loopback_address")
    ∷ (network4 (quad 169 254 0 0) 16, "link_local_address")
    ∷ (network6 0xfe800000000000000000000000000000 10, "link_local_address")
    ∷ (network4 (quad 224 0 0 0) 4, "multicast_address")
    ∷ (network6 0xff000000000000000000000000000000 8, "multicast_address")
    ∷ (network4 (quad 0 0 0 0) 8, "unspecified_address")
    ∷ (network6 0 128, "unspecified_address")
    ∷ (network4 (quad 100 64 0 0) 10, "shared_address_space")
    ∷ (network6 0xfec00000000000000000000000000000 10, "site_local_address")
    ∷ (network6 0 96, "ipv4_compatible_address")
    ∷ (network6 0xffff00000000 96, "ipv4_translated_address")
    ∷ (network4 (quad 192 88 99 0) 24, "reserved_address")
    ∷ (network6 0x20010db8000000000000000000000000 32, "documentation_address")
    ∷ (network6 0x01000000000000000000000000000000 64, "discard_only_address")
    ∷ []

abbrev pub private_networks : Table
private_networks =
    (network4 (quad 10 0 0 0) 8, "private_address")
    ∷ (network4 (quad 172 16 0 0) 12, "private_address")
    ∷ (network4 (quad 192 168 0 0) 16, "private_address")
    ∷ (network6 0xfc000000000000000000000000000000 7, "private_address")
    ∷ (network4 (quad 192 0 0 0) 24, "reserved_address")
    ∷ (network4 (quad 192 0 2 0) 24, "reserved_address")
    ∷ (network4 (quad 198 18 0 0) 15, "reserved_address")
    ∷ (network4 (quad 198 51 100 0) 24, "reserved_address")
    ∷ (network4 (quad 203 0 113 0) 24, "reserved_address")
    ∷ (network4 (quad 240 0 0 0) 4, "reserved_address")
    ∷ (network4 (quad 255 255 255 255) 32, "broadcast_address")
    ∷ []

abbrev pub nat64_prefix : IpNetwork
nat64_prefix = network6 0x0064ff9b000000000000000000000000 96

-- `normalise_address`: the standard library's `ipv4_mapped`, `sixtofour` and `teredo`, each a test of
-- the high bits, and NAT64.
unfoldable pub normalise_address : IpAddress → IpAddress
normalise_address (v4 n) = v4 n
normalise_address (v6 n) =
    if n / 2 ^ 32 == 0xffff
    then v4 (n % 2 ^ 32)
    else if n / 2 ^ 112 == 0x2002
    then v4 (n / 2 ^ 80 % 2 ^ 32)
    else if n / 2 ^ 96 == 0x20010000
    then v4 (2 ^ 32 - 1 - n % 2 ^ 32)
    else if in_network (v6 n) nat64_prefix
    then v4 (n % 2 ^ 32)
    else v6 n

-- `_match`
unfoldable pub match_table : IpAddress → Table → Option String
match_table ip [] = none
match_table ip ((network, reason) ∷ rest) =
    if in_network ip network then some reason else match_table ip rest

unfoldable pub match_metadata : IpAddress → List IpNetwork → Bool
match_metadata ip [] = false
match_metadata ip (network ∷ rest) = if in_network ip network then true else match_metadata ip rest

-- `_always_forbidden`, `_address_is_forbidden` and `classify`: `none` for an address that passes.
unfoldable pub always_forbidden : IpAddress → Option String
always_forbidden ip =
    let normalised = normalise_address ip in
    if match_metadata normalised metadata_networks
    then some "cloud_metadata_endpoint"
    else match_table normalised always_forbidden_networks

abbrev or_private : IpAddress → Option String → Option String
or_private normalised none = match_table normalised private_networks
or_private normalised (some reason) = some reason

unfoldable pub address_is_forbidden : IpAddress → Option String
address_is_forbidden ip =
    let normalised = normalise_address ip in or_private normalised (always_forbidden normalised)

unfoldable pub classify : IpAddress → Bool → Option String
classify ip allow_private = if allow_private then always_forbidden ip else address_is_forbidden ip
