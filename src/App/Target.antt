-- ===== src/App/Target.antt =====
-- `blockedIP`, the choice of an address in `secureClient`'s `DialContext`, and `validateTarget`, in
-- internal/app/app.go. The methods of `netip.Addr` and `netip.Prefix` are written out; `url.Parse`,
-- `netip.ParseAddr`, `net.SplitHostPort` and the resolver are parameters.
pub mod Ranges
pub mod Dialled
use relaybox.Prelude.{
  ℕ, ◌+◌, ◌-◌, ◌*◌, ◌/◌, ◌^◌, Text, codes, Bool, true, false, not, ◌&&◌, ◌||◌, ◌==◌, Option, none,
  some, List, [], ◌∷◌, is_empty, ltb, leb, nat_eq, if◌then◌else◌,
}
use relaybox.Prelude.Try.{Try, bad, good}
use relaybox.App.Auth.{Url}

-- `netip.Addr`: the zero value, 32 bits, or 128 bits with a zone that may be empty.
pub data Addr : Type 0 where
  invalid : Addr
  v4 : ℕ → Addr
  v6 : ℕ → Text → Addr

-- `Addr.Unmap`: an IPv4-mapped address without its zone.
unfoldable pub unmap : Addr → Addr
unmap (v6 n zone) = if nat_eq (n / 2 ^ 32) 65535 then v4 (n - 65535 * 2 ^ 32) else v6 n zone
unmap ip = ip

-- Comparisons with `IPv4Unspecified` and `IPv6Unspecified`, whose zone is empty.
abbrev is_unspecified : Addr → Bool
is_unspecified invalid = false
is_unspecified (v4 n) = nat_eq n 0
is_unspecified (v6 n zone) = nat_eq n 0 && is_empty zone

abbrev is_loopback : Addr → Bool
is_loopback invalid = false
is_loopback (v4 n) = nat_eq (n / 2 ^ 24) 127
is_loopback (v6 n zone) = nat_eq n 1

-- 224.0.0.0/4, ff00::/8
abbrev is_multicast : Addr → Bool
is_multicast invalid = false
is_multicast (v4 n) = nat_eq (n / 2 ^ 28) 14
is_multicast (v6 n zone) = nat_eq (n / 2 ^ 120) 255

-- 169.254.0.0/16, fe80::/10
abbrev is_link_local_unicast : Addr → Bool
is_link_local_unicast invalid = false
is_link_local_unicast (v4 n) = nat_eq (n / 2 ^ 16) 43518
is_link_local_unicast (v6 n zone) = nat_eq (n / 2 ^ 118) 1018

-- 224.0.0.0/24, and ff02::/16 under any flags
abbrev is_link_local_multicast : Addr → Bool
is_link_local_multicast invalid = false
is_link_local_multicast (v4 n) = nat_eq (n / 2 ^ 8) 14680064
is_link_local_multicast (v6 n zone) =
    nat_eq (n / 2 ^ 120) 255 && nat_eq (n / 2 ^ 112 - 16 * (n / 2 ^ 116)) 2

-- ff01::/16 under any flags
abbrev is_interface_local_multicast : Addr → Bool
is_interface_local_multicast (v6 n zone) =
    nat_eq (n / 2 ^ 120) 255 && nat_eq (n / 2 ^ 112 - 16 * (n / 2 ^ 116)) 1
is_interface_local_multicast ip = false

-- 10.0.0.0/8, 172.16.0.0/12, 192.168.0.0/16, fc00::/7
abbrev is_private : Addr → Bool
is_private invalid = false
is_private (v4 n) = nat_eq (n / 2 ^ 24) 10 || nat_eq (n / 2 ^ 20) 2753 || nat_eq (n / 2 ^ 16) 49320
is_private (v6 n zone) = nat_eq (n / 2 ^ 121) 126

abbrev is_broadcast : Addr → Bool
is_broadcast (v4 n) = nat_eq n (2 ^ 32 - 1)
is_broadcast ip = false

abbrev is_invalid : Addr → Bool
is_invalid invalid = true
is_invalid ip = false

abbrev is_global_unicast : Addr → Bool
is_global_unicast ip =
    not (is_invalid ip)
    && not (
        is_unspecified ip
        || is_broadcast ip
        || is_loopback ip
        || is_multicast ip
        || is_link_local_unicast ip)

-- `netip.Prefix`: the value of its address and how many of its last bits are left open.
pub data Prefix : Type 0 where
  prefix4 : ℕ → ℕ → Prefix
  prefix6 : ℕ → ℕ → Prefix

-- `a.b.c.d/bits`, and `a:b:c::/bits`
abbrev ipv4_prefix : ℕ → ℕ → ℕ → ℕ → ℕ → Prefix
ipv4_prefix a b c d bits = prefix4 (((a * 256 + b) * 256 + c) * 256 + d) (32 - bits)

abbrev ipv6_prefix : ℕ → ℕ → ℕ → ℕ → Prefix
ipv6_prefix a b c bits = prefix6 (((a * 65536 + b) * 65536 + c) * 2 ^ 80) (128 - bits)

-- `Prefix.Contains`: never an address of the other family, nor one with a zone.
abbrev prefix_contains : Prefix → Addr → Bool
prefix_contains (prefix4 p open_bits) (v4 n) = nat_eq (n / 2 ^ open_bits) (p / 2 ^ open_bits)
prefix_contains (prefix6 p open_bits) (v6 n zone) =
    is_empty zone && nat_eq (n / 2 ^ open_bits) (p / 2 ^ open_bits)
prefix_contains p ip = false

abbrev non_public_prefixes : List Prefix
non_public_prefixes =
    ipv4_prefix 100 64 0 0 10
    ∷ ipv4_prefix 192 0 0 0 24
    ∷ ipv4_prefix 192 0 2 0 24
    ∷ ipv4_prefix 198 18 0 0 15
    ∷ ipv4_prefix 198 51 100 0 24
    ∷ ipv4_prefix 203 0 113 0 24
    ∷ ipv6_prefix 100 65435 0 96
    ∷ ipv6_prefix 100 65435 1 48
    ∷ ipv6_prefix 8193 0 0 32
    ∷ ipv6_prefix 8193 3512 0 32
    ∷ ipv6_prefix 8194 0 0 16
    ∷ []

abbrev in_some : List Prefix → Addr → Bool
in_some [] ip = false
in_some (p ∷ ps) ip = prefix_contains p ip || in_some ps ip

-- `blockedIP` of an address that is unmapped.
abbrev blocked_unmapped : Addr → Bool
blocked_unmapped ip =
    not (is_global_unicast ip)
    || is_loopback ip
    || is_private ip
    || is_link_local_unicast ip
    || is_link_local_multicast ip
    || is_multicast ip
    || is_unspecified ip
    || is_interface_local_multicast ip
    || in_some non_public_prefixes ip

unfoldable pub blocked_ip : Addr → Bool
unfolding unmap
blocked_ip ip = if is_invalid ip then true else blocked_unmapped (unmap ip)

-- The loop of `DialContext`: the address that is dialled, none where all are blocked.
unfoldable pub dial_choice : Bool → List Addr → Option Addr
unfolding blocked_ip
dial_choice allow_private [] = none
dial_choice allow_private (ip ∷ ips) =
    let rest = dial_choice allow_private ips in
    if not allow_private && blocked_ip ip then rest else some ip

pub data DialError : Type 0 where
  bad_address lookup_failed all_blocked : DialError

abbrev pub dialled : Text → Option Addr → Try DialError (Addr × Text)
dialled port none = bad all_blocked
dialled port (some ip) = good (ip, port)

-- `DialContext` up to the dialler: the address and the port that it is given.
unfoldable pub dial_context :
    (Text → Option (Text × Text))
    → (Text → Option (List Addr))
    → Bool
    → Text
    → Try DialError (Addr × Text)
unfolding dial_choice
dial_context split_host_port lookup allow_private address = elim (split_host_port address) [
  | none ↦ bad bad_address
  | some (host, port) ↦ elim (lookup host) [
    | none ↦ bad lookup_failed
    | some ips ↦ dialled port (dial_choice allow_private ips)
  ]
]

pub data TargetError : Type 0 where
  invalid_url blocked_target : TargetError

-- `u.Scheme != "http" && u.Scheme != "https" || u.Hostname() == "" || u.User != nil`
abbrev pub bad_url : Url → Bool
bad_url u =
    (not (u.scheme == codes "http") && not (u.scheme == codes "https"))
    || is_empty u.hostname
    || u.has_user

abbrev pub check_host : Bool → Option Addr → Option TargetError
check_host allow_private none = none
check_host allow_private (some ip) =
    if not allow_private && blocked_ip ip then some blocked_target else none

abbrev pub check_url : (Text → Option Addr) → Bool → Option Url → Option TargetError
check_url parse_addr allow_private none = some invalid_url
check_url parse_addr allow_private (some u) =
    if bad_url u then some invalid_url else check_host allow_private (parse_addr u.hostname)

-- `validateTarget`: an error, if any.
unfoldable pub validate_target :
    (Text → Option Url) → (Text → Option Addr) → Text → Bool → Option TargetError
validate_target parse_url parse_addr raw allow_private =
    check_url parse_addr allow_private (parse_url raw)
