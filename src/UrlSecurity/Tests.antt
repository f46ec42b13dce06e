-- ===== src/UrlSecurity/Tests.antt =====
-- URLs and addresses, judged.
use text.Mathlib.Text.{◌==◌ as str_eq}
use oxicrab.Base.{true, false, not, ◌||◌, any, Option, none, some, List, [], ◌∷◌, ◌≡◌, refl, arith}
use oxicrab.Base.Result.{ok}
use oxicrab.UrlSecurity.{
  insert_addr, pin_host, pin_lookup, port_of, all_allowed, resolve_host, check_ip_allowed,
  with_host, sort_addrs, Ipv4Addr, Ipv6Addr, SocketAddr, v4, v6, Host, domain, ParsedUrl, resolved,
  ResolvedUrl, value, check_v4, check_v6, has_credentials, validate_and_resolve,
}
use oxicrab.UrlSecurity.Ranges.{
  IsV4, blocked_ranges, is_in, mapped, nat64, low_segments, check_v4_lem, embedded_lem,
}
use oxicrab.UrlSecurity.Resolve.{IsSource, IsPinned, v4_first, validate_and_resolve_ok}

abbrev metadata : Ipv4Addr
metadata = record { a = 169; b = 254; c = 169; d = 254 }

metadata-IsV4 : IsV4 metadata
metadata-IsV4 = ((omega arith, omega arith), (omega arith, omega arith))

abbrev public_v6 : Ipv6Addr
public_v6 = record { s0 = 9734; s1 = 18176; s2 = 0; s3 = 0; s4 = 0; s5 = 0; s6 = 0; s7 = 4369 }

abbrev answer : List SocketAddr
answer =
    record { ip = v6 public_v6; port = 443 }
    ∷ record { ip = v4 (record { a = 1; b = 1; c = 1; d = 1 }); port = 443 }
    ∷ []

abbrev page : ParsedUrl
page = record {
  scheme = "https";
  username = "";
  password = none;
  host = some (domain "one.one");
  port = none;
  default_port = some 443;
  host_text = "one.one";
}

abbrev pinned : ResolvedUrl
pinned = record { host = "one.one"; addrs = v4_first answer }

check_v4_lem_example :
    check_v4 metadata ≡ not (any (λ range. is_in range (value metadata)) blocked_ranges)
check_v4_lem_example = check_v4_lem metadata metadata-IsV4

embedded_lem_example :
    (check_v6 (mapped metadata) ≡ check_v4 metadata)
    × (check_v6 (low_segments metadata) ≡ check_v4 metadata)
    × (check_v6 (nat64 metadata) ≡ check_v4 metadata)
embedded_lem_example = embedded_lem metadata metadata-IsV4

passes : check_v6 public_v6 ≡ true
unfolding check_v6
passes = refl

validated : validate_and_resolve (some page) (resolved answer) ≡ ok pinned
unfolding validate_and_resolve has_credentials resolve_host port_of pin_host pin_lookup all_allowed
    check_ip_allowed check_v4 check_v6 sort_addrs insert_addr with_host
validated = refl

validate_and_resolve_ok_example :
    (u : ParsedUrl) × (host : Host) × (◌≡◌ {A = Option ParsedUrl} (some page) (some u))
    × ((str_eq u.scheme "http" || str_eq u.scheme "https") ≡ true)
    × (has_credentials u ≡ false)
    × (u.host ≡ some host)
    × IsPinned pinned.addrs
    × IsSource (resolved answer) host (port_of u) pinned.addrs
validate_and_resolve_ok_example =
    validate_and_resolve_ok (some page) (resolved answer) pinned validated
