-- ===== src/UrlSecurity.antt =====
-- crates/oxicrab-core/src/utils/url_security.rs: which addresses a request may go to. The `url`
-- crate's parse of the text and the answer of the name server are arguments.
mod Ranges
mod Resolve
mod Tests
use text.Mathlib.Text.{◌==◌ as str_eq}
use mathlib.Core.Option
use oxicrab.Base.{
  ℕ, ◌+◌, ◌*◌, ◌/◌, ◌%◌, Bool, true, false, not, ◌||◌, ◌&&◌, ◌==◌, leb, String, Option, none, some,
  List, [], ◌∷◌, if◌then◌else◌,
}
use oxicrab.Base.Result.{Result, ok, err}

-- Four octets.
pub record Ipv4Addr : Type 0 where
  pub a : ℕ
  pub b : ℕ
  pub c : ℕ
  pub d : ℕ

-- Eight segments of 16 bits.
pub record Ipv6Addr : Type 0 where
  pub s0 : ℕ
  pub s1 : ℕ
  pub s2 : ℕ
  pub s3 : ℕ
  pub s4 : ℕ
  pub s5 : ℕ
  pub s6 : ℕ
  pub s7 : ℕ

pub data IpAddr : Type 0 where
  v4 : Ipv4Addr → IpAddr
  v6 : Ipv6Addr → IpAddr

pub record SocketAddr : Type 0 where
  pub ip : IpAddr
  pub port : ℕ

-- The address as a number of 32 bits, by which addresses are ordered.
abbrev pub value : Ipv4Addr → ℕ
value i = ((i.a * 256 + i.b) * 256 + i.c) * 256 + i.d

-- The methods of `Ipv4Addr`.
abbrev is_loopback_v4 : Ipv4Addr → Bool
is_loopback_v4 i = i.a == 127

abbrev is_private : Ipv4Addr → Bool
is_private i =
    i.a == 10 || ((i.a == 172 && (leb 16 i.b && leb i.b 31)) || (i.a == 192 && i.b == 168))

abbrev is_link_local : Ipv4Addr → Bool
is_link_local i = i.a == 169 && i.b == 254

abbrev is_broadcast : Ipv4Addr → Bool
is_broadcast i = (i.a == 255 && i.b == 255) && (i.c == 255 && i.d == 255)

abbrev is_multicast_v4 : Ipv4Addr → Bool
is_multicast_v4 i = leb 224 i.a && leb i.a 239

abbrev is_unspecified_v4 : Ipv4Addr → Bool
is_unspecified_v4 i = (i.a == 0 && i.b == 0) && (i.c == 0 && i.d == 0)

abbrev cgnat_start : Ipv4Addr
cgnat_start = record { a = 100; b = 64; c = 0; d = 0 }

abbrev cgnat_end : Ipv4Addr
cgnat_end = record { a = 100; b = 127; c = 255; d = 255 }

-- `check_ip_allowed` of an IPv4 address: it passes.
unfoldable pub check_v4 : Ipv4Addr → Bool
check_v4 i =
    if is_loopback_v4 i
      || (is_private i
          || (is_link_local i
              || (is_broadcast i || (is_multicast_v4 i || (is_unspecified_v4 i || i.a == 0)))))
    then false
    else if leb (value cgnat_start) (value i) && leb (value i) (value cgnat_end)
    then false
    else true

-- The methods of `Ipv6Addr`.
abbrev first_zero : Ipv6Addr → Bool
first_zero i = ((i.s0 == 0 && i.s1 == 0) && (i.s2 == 0 && i.s3 == 0)) && i.s4 == 0

abbrev is_loopback_v6 : Ipv6Addr → Bool
is_loopback_v6 i = first_zero i && (i.s5 == 0 && (i.s6 == 0 && i.s7 == 1))

abbrev is_unspecified_v6 : Ipv6Addr → Bool
is_unspecified_v6 i = first_zero i && (i.s5 == 0 && (i.s6 == 0 && i.s7 == 0))

abbrev is_multicast_v6 : Ipv6Addr → Bool
is_multicast_v6 i = i.s0 / 256 == 255

-- The IPv4 address in the last two segments.
abbrev pub last_v4 : Ipv6Addr → Ipv4Addr
last_v4 i = record { a = i.s6 / 256; b = i.s6 % 256; c = i.s7 / 256; d = i.s7 % 256 }

abbrev is_ipv4_mapped : Ipv6Addr → Bool
is_ipv4_mapped i = first_zero i && i.s5 == 65535

-- `to_ipv4` gives an address.
abbrev is_ipv4 : Ipv6Addr → Bool
is_ipv4 i = first_zero i && (i.s5 == 0 || i.s5 == 65535)

abbrev is_nat64 : Ipv6Addr → Bool
is_nat64 i =
    (i.s0 == 100 && i.s1 == 65435) && ((i.s2 == 0 && i.s3 == 0) && (i.s4 == 0 && i.s5 == 0))

-- `check_ip_allowed` of an IPv6 address: it passes. `s & 0xffc0 == 0xfe80` and
-- `s & 0xfe00 == 0xfc00` compare the quotients by 64 and by 512.
unfoldable pub check_v6 : Ipv6Addr → Bool
check_v6 i =
    if is_loopback_v6 i || (is_unspecified_v6 i || is_multicast_v6 i)
    then false
    else if is_ipv4_mapped i
    then check_v4 (last_v4 i)
    else if is_ipv4 i
    then check_v4 (last_v4 i)
    else if i.s0 / 64 == 1018
    then false
    else if i.s0 / 512 == 126
    then false
    else if i.s0 == 8193 && i.s1 == 3512
    then false
    else if i.s0 == 8193 && i.s1 == 0
    then false
    else if i.s0 == 8194
    then false
    else if is_nat64 i
    then check_v4 (last_v4 i)
    else true

unfoldable pub check_ip_allowed : IpAddr → Bool
check_ip_allowed (v4 i) = check_v4 i
check_ip_allowed (v6 i) = check_v6 i

pub data Host : Type 0 where
  ipv4 : Ipv4Addr → Host
  ipv6 : Ipv6Addr → Host
  domain : String → Host

-- What `url::Url` tells of a parsed text; `default_port` is that of its scheme.
pub record ParsedUrl : Type 0 where
  pub scheme : String
  pub username : String
  pub password : Option String
  pub host : Option Host
  pub port : Option ℕ
  pub default_port : Option ℕ
  pub host_text : String

-- How the lookup of a domain ends within its five seconds.
pub data Lookup : Type 0 where
  timed_out failed : Lookup
  resolved : List SocketAddr → Lookup

pub data UrlError : Type 0 where
  invalid wrong_scheme credentials no_host blocked dns_timed_out dns_failed no_addresses : UrlError

pub record ResolvedUrl : Type 0 where
  pub host : String
  pub addrs : List SocketAddr

abbrev pub is_v6 : SocketAddr → Bool
is_v6 s = elim s.ip [ v4 i ↦ false | v6 i ↦ true ]

-- `sort_by_key` of the family: a stable sort that puts IPv4 first.
unfoldable pub insert_addr : SocketAddr → List SocketAddr → List SocketAddr
insert_addr s [] = s ∷ []
insert_addr s (t ∷ ts) =
    let later = insert_addr s ts in if is_v6 s && not (is_v6 t) then t ∷ later else s ∷ t ∷ ts

unfoldable pub sort_addrs : List SocketAddr → List SocketAddr
sort_addrs [] = []
sort_addrs (s ∷ ss) = insert_addr s (sort_addrs ss)

unfoldable pub all_allowed : List SocketAddr → Bool
all_allowed [] = true
all_allowed (s ∷ ss) = check_ip_allowed s.ip && all_allowed ss

unfoldable pub pin_lookup : Lookup → Result UrlError (List SocketAddr)
pin_lookup timed_out = err dns_timed_out
pin_lookup failed = err dns_failed
pin_lookup (resolved []) = err no_addresses
pin_lookup (resolved (s ∷ ss)) =
    if all_allowed (s ∷ ss) then ok (sort_addrs (s ∷ ss)) else err blocked

-- The addresses of a host, `lookup` being the answer if it is a domain.
unfoldable pub pin_host : Host → ℕ → Lookup → Result UrlError (List SocketAddr)
pin_host (ipv4 i) port lookup =
    if check_ip_allowed (v4 i) then ok (record { ip = v4 i; port = port } ∷ []) else err blocked
pin_host (ipv6 i) port lookup =
    if check_ip_allowed (v6 i) then ok (record { ip = v6 i; port = port } ∷ []) else err blocked
pin_host (domain name) port lookup = pin_lookup lookup

unfoldable pub has_credentials : ParsedUrl → Bool
has_credentials u = not (str_eq u.username "") || elim u.password [ none ↦ false | some p ↦ true ]

-- `port_or_known_default().unwrap_or(80)`.
unfoldable pub port_of : ParsedUrl → ℕ
port_of u = Option.get_or u.port (Option.get_or u.default_port 80)

unfoldable pub with_host : String → Result UrlError (List SocketAddr) → Result UrlError ResolvedUrl
with_host host (ok addrs) = ok (record { host = host; addrs = addrs })
with_host host (err e) = err e

unfoldable pub resolve_host : ParsedUrl → Lookup → Option Host → Result UrlError ResolvedUrl
resolve_host u lookup none = err no_host
resolve_host u lookup (some host) = with_host u.host_text (pin_host host (port_of u) lookup)

unfoldable pub validate_and_resolve : Option ParsedUrl → Lookup → Result UrlError ResolvedUrl
validate_and_resolve none lookup = err invalid
validate_and_resolve (some u) lookup =
    if not (str_eq u.scheme "http" || str_eq u.scheme "https")
    then err wrong_scheme
    else if has_credentials u
    then err credentials
    else resolve_host u lookup u.host
