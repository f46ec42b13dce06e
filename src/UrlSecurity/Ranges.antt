-- ===== src/UrlSecurity/Ranges.antt =====
-- The addresses that pass, by ranges.
use oxicrab.Base.{
  ◌∙◌, ap, ◌≢◌, inl, inr, Bool-cases, ap, ℕ, ◌+◌, ◌*◌, ◌/◌, ◌%◌, ◌<◌, Bool, true, false, ◌≡◌, arith,
  any, leb, ◌&&◌, not, List, [], ◌∷◌, refl, ◌==◌,
}
use oxicrab.UrlSecurity.{Ipv4Addr, Ipv6Addr, value, check_v4, check_v6, last_v4}

-- The blocked ranges of IPv4, in CIDR notation 0/8, 10/8, 100.64/10, 127/8, 169.254/16, 172.16/12,
-- 192.168/16, 224/4 and 255.255.255.255/32, by their first and last addresses.
abbrev pub blocked_ranges : List (ℕ × ℕ)
blocked_ranges =
    (0, 16777215)
    ∷ (167772160, 184549375)
    ∷ (1681915904, 1686110207)
    ∷ (2130706432, 2147483647)
    ∷ (2851995648, 2852061183)
    ∷ (2886729728, 2887778303)
    ∷ (3232235520, 3232301055)
    ∷ (3758096384, 4026531839)
    ∷ (4294967295, 4294967295)
    ∷ []

abbrev pub IsV4 : Ipv4Addr → Type 0
IsV4 i = ((i.a < 256) × (i.b < 256)) × ((i.c < 256) × (i.d < 256))

-- The number lies in the range.
unfoldable pub is_in : ℕ × ℕ → ℕ → Bool
is_in range n = leb range.0 n && leb n range.1

module _ (i : Ipv4Addr) (h : IsV4 i) where
  this_network : (i.a == 0) ≡ is_in (0, 16777215) (value i)
  unfolding is_in
  this_network = ground arith

  ten : (i.a == 10) ≡ is_in (167772160, 184549375) (value i)
  unfolding is_in
  ten = ground arith

  loopback : (i.a == 127) ≡ is_in (2130706432, 2147483647) (value i)
  unfolding is_in
  loopback = ground arith

  link_local : (i.a == 169 && i.b == 254) ≡ is_in (2851995648, 2852061183) (value i)
  unfolding is_in
  link_local = ground arith

  private_172 :
      (i.a == 172 && (leb 16 i.b && leb i.b 31)) ≡ is_in (2886729728, 2887778303) (value i)
  unfolding is_in
  private_172 = ground arith

  private_192 : (i.a == 192 && i.b == 168) ≡ is_in (3232235520, 3232301055) (value i)
  unfolding is_in
  private_192 = ground arith

  multicast : (leb 224 i.a && leb i.a 239) ≡ is_in (3758096384, 4026531839) (value i)
  unfolding is_in
  multicast = ground arith

  broadcast :
      ((i.a == 255 && i.b == 255) && (i.c == 255 && i.d == 255))
      ≡ is_in (4294967295, 4294967295) (value i)
  unfolding is_in
  broadcast = ground arith

  shared :
      (leb 1681915904 (value i) && leb (value i) 1686110207)
      ≡ is_in (1681915904, 1686110207) (value i)
  unfolding is_in
  shared = refl

  -- An IPv4 address passes exactly if it lies in none of the blocked ranges.
  pub check_v4_lem : check_v4 i ≡ not (any (λ range. is_in range (value i)) blocked_ranges)
  unfolding check_v4
  check_v4_lem =
      rw
        (
          loopback, ten, private_172, private_192, link_local, broadcast, multicast, shared,
          this_network,
        )
        (ground arith)

-- The IPv6 forms of an IPv4 address: IPv4-mapped, IPv4-compatible and NAT64.
abbrev pub low_segments : Ipv4Addr → Ipv6Addr
low_segments i = record {
  s0 = 0;
  s1 = 0;
  s2 = 0;
  s3 = 0;
  s4 = 0;
  s5 = 0;
  s6 = i.a * 256 + i.b;
  s7 = i.c * 256 + i.d;
}

abbrev pub mapped : Ipv4Addr → Ipv6Addr
mapped i = record (low_segments i) { s5 = 65535 }

abbrev pub nat64 : Ipv4Addr → Ipv6Addr
nat64 i = record (low_segments i) { s0 = 100; s1 = 65435 }

quad : ℕ → ℕ → ℕ → ℕ → Ipv4Addr
quad a b c d = record { a = a; b = b; c = c; d = d }

last_v4-low_segments : (i : Ipv4Addr) → IsV4 i → last_v4 (low_segments i) ≡ i
unfolding quad
last_v4-low_segments i h =
    let a : (i.a * 256 + i.b) / 256 ≡ i.a = omega arith in
    let b : (i.a * 256 + i.b) % 256 ≡ i.b = omega arith in
    let c : (i.c * 256 + i.d) / 256 ≡ i.c = omega arith in
    let d : (i.c * 256 + i.d) % 256 ≡ i.d = omega arith in
    ap
      (λ n.
        quad n (last_v4 (low_segments i)).b (last_v4 (low_segments i)).c
          (last_v4 (low_segments i)).d)
      a
    ∙ ap (λ n. quad i.a n (last_v4 (low_segments i)).c (last_v4 (low_segments i)).d) b
    ∙ ap (λ n. quad i.a i.b n (last_v4 (low_segments i)).d) c
    ∙ ap (λ n. quad i.a i.b i.c n) d

zero_blocked : (i : Ipv4Addr) → i.a ≡ 0 → check_v4 i ≡ false
unfolding check_v4
zero_blocked i e = ground arith

module _ (i : Ipv4Addr) (h : IsV4 i) where
  check-mapped : check_v6 (mapped i) ≡ check_v4 (last_v4 (low_segments i))
  unfolding check_v6
  check-mapped = refl

  check-nat64 : check_v6 (nat64 i) ≡ check_v4 (last_v4 (low_segments i))
  unfolding check_v6
  check-nat64 = refl

  first_octet : (i.a * 256 + i.b == 0) ≡ true → check_v4 (last_v4 (low_segments i)) ≡ false
  first_octet e =
      let zero : (i.a * 256 + i.b) / 256 ≡ 0 = ground arith in
      zero_blocked (last_v4 (low_segments i)) zero

  check-low_segments : check_v6 (low_segments i) ≡ check_v4 (last_v4 (low_segments i))
  unfolding check_v6
  check-low_segments = elim (Bool-cases (i.a * 256 + i.b == 0)) [
    | inl e ↦ let zero : check_v4 (last_v4 (low_segments i)) ≡ false = first_octet e in ground arith
    | inr e ↦ rw e refl
  ]

  -- An IPv4 address that comes inside an IPv6 address, IPv4-mapped, IPv4-compatible or by NAT64, is
  -- judged as the IPv4 address itself.
  pub embedded_lem :
      (check_v6 (mapped i) ≡ check_v4 i)
      × (check_v6 (low_segments i) ≡ check_v4 i)
      × (check_v6 (nat64 i) ≡ check_v4 i)
  embedded_lem =
      let same = ap check_v4 (last_v4-low_segments i h) in
      (check-mapped ∙ same, check-low_segments ∙ same, check-nat64 ∙ same)

-- An IPv6 address that passes lies outside 2002::/16, fc00::/7, fe80::/10, ff00::/8, 2001:db8::/32
-- and 2001::/32.
pub check_v6-blocked :
    (i : Ipv6Addr)
    → check_v6 i ≡ true
    → ((i.s0 ≢ 8194) × (i.s0 / 512 ≢ 126))
      × ((i.s0 / 64 ≢ 1018) × (i.s0 / 256 ≢ 255))
      × (((i.s0 == 8193 && i.s1 == 3512) ≡ false) × ((i.s0 == 8193 && i.s1 == 0) ≡ false))
unfolding check_v6
check_v6-blocked i h = ground arith
