-- ===== src/UrlSecurity/Resolve.antt =====
-- What a validated URL carries.
use text.Mathlib.Text.{◌==◌ as str_eq}
use oxicrab.Base.{
  ℕ, true, false, not, ◌||◌, ◌&&◌, String, Option, none, some, List, [], ◌∷◌, ◌++◌, ◌≡◌, refl, sym,
  ap, ◌∙◌, subst, inl, inr, arith, filter_by, Bool-cases, length, ◌<◌,
}
use oxicrab.Base.Result.{Result, ok, err}
use oxicrab.UrlSecurity.{
  SocketAddr, v4, v6, Host, ipv4, ipv6, domain, ParsedUrl, Lookup, timed_out, failed, resolved,
  UrlError, ResolvedUrl, is_v6, insert_addr, sort_addrs, all_allowed, check_ip_allowed, pin_lookup,
  pin_host, has_credentials, port_of, with_host, resolve_host, validate_and_resolve,
}

-- IPv4 addresses first, each family in the order of the answer.
abbrev pub v4_first : List SocketAddr → List SocketAddr
v4_first ss = filter_by (λ s. not (is_v6 s)) ss ++ filter_by (λ s. is_v6 s) ss

insert_addr-v4 :
    (s : SocketAddr) (ss : List SocketAddr) → is_v6 s ≡ false → insert_addr s ss ≡ s ∷ ss
unfolding insert_addr
insert_addr-v4 s [] e = refl
insert_addr-v4 s (t ∷ ts) e = rw e refl

-- A list without IPv4 addresses.
insert_addr_front :
    (s : SocketAddr) (ss : List SocketAddr)
    → insert_addr s (filter_by (λ t. is_v6 t) ss) ≡ s ∷ filter_by (λ t. is_v6 t) ss
unfolding insert_addr
insert_addr_front s [] = refl
insert_addr_front s (t ∷ ts) = elim (Bool-cases (is_v6 t)) [
  | inr four ↦ rw four (insert_addr_front s ts)
  | inl six ↦ elim (Bool-cases (is_v6 s)) [
    | inl e ↦ rw (six, e) (rw six refl)
    | inr e ↦ rw (six, e) refl
  ]
]

insert_addr-v6 :
    (s : SocketAddr) (ss rest : List SocketAddr)
    → is_v6 s ≡ true
    → insert_addr s (filter_by (λ t. not (is_v6 t)) ss ++ rest)
      ≡ filter_by (λ t. not (is_v6 t)) ss ++ insert_addr s rest
unfolding insert_addr
insert_addr-v6 s [] rest e = refl
insert_addr-v6 s (t ∷ ts) rest e = elim (Bool-cases (is_v6 t)) [
  | inl six ↦ rw six (insert_addr-v6 s ts rest e)
  | inr four ↦ rw four (rw (e, four) (ap (◌∷◌ t) (insert_addr-v6 s ts rest e)))
]

-- The sort is stable and puts the IPv4 addresses first.
sort_addrs_lem : (ss : List SocketAddr) → sort_addrs ss ≡ v4_first ss
unfolding sort_addrs
sort_addrs_lem [] = refl
sort_addrs_lem (s ∷ ss) = elim (Bool-cases (is_v6 s)) [
  | inl six ↦
      ap (insert_addr s) (sort_addrs_lem ss)
      ∙ insert_addr-v6 s ss (filter_by (λ t. is_v6 t) ss) six
      ∙ ap (λ rest. filter_by (λ t. not (is_v6 t)) ss ++ rest) (insert_addr_front s ss)
      ∙ rw six refl
  | inr four ↦
      ap (insert_addr s) (sort_addrs_lem ss) ∙ insert_addr-v4 s (v4_first ss) four ∙ rw four refl
]

all_allowed-insert_addr :
    (s : SocketAddr) (ss : List SocketAddr)
    → all_allowed (insert_addr s ss) ≡ (check_ip_allowed s.ip && all_allowed ss)
unfolding insert_addr all_allowed
all_allowed-insert_addr s [] = refl
all_allowed-insert_addr s (t ∷ ts) = ground (arith, all_allowed-insert_addr s ts)

all_allowed-sort_addrs : (ss : List SocketAddr) → all_allowed (sort_addrs ss) ≡ all_allowed ss
unfolding sort_addrs all_allowed
all_allowed-sort_addrs [] = refl
all_allowed-sort_addrs (s ∷ ss) =
    all_allowed-insert_addr s (sort_addrs ss)
    ∙ ap (λ b. check_ip_allowed s.ip && b) (all_allowed-sort_addrs ss)

length-insert_addr : (s : SocketAddr) (ss : List SocketAddr) → 0 < length (insert_addr s ss)
unfolding insert_addr
length-insert_addr s [] = omega arith
length-insert_addr s (t ∷ ts) = ground arith

length-sort_addrs : (s : SocketAddr) (ss : List SocketAddr) → 0 < length (sort_addrs (s ∷ ss))
unfolding sort_addrs
length-sort_addrs s ss = length-insert_addr s (sort_addrs ss)

-- The addresses of a request: at least one, and each of them allowed.
abbrev pub IsPinned : List SocketAddr → Type 0
IsPinned addrs = (all_allowed addrs ≡ true) × (0 < length addrs)

ok-injective {ℓ} : {A : Type ℓ} (a b : A) → ◌≡◌ {A = Result UrlError A} (ok a) (ok b) → a ≡ b
ok-injective a b h = cc h

pin_lookup-IsPinned :
    (lookup : Lookup) (addrs : List SocketAddr)
    → pin_lookup lookup ≡ ok addrs
    → (ss : List SocketAddr) × (lookup ≡ resolved ss) × (addrs ≡ v4_first ss) × IsPinned addrs
unfolding pin_lookup
pin_lookup-IsPinned timed_out addrs h = absurd (ground arith)
pin_lookup-IsPinned failed addrs h = absurd (ground arith)
pin_lookup-IsPinned (resolved []) addrs h = absurd (ground arith)
pin_lookup-IsPinned (resolved (s ∷ ss)) addrs h = elim (Bool-cases (all_allowed (s ∷ ss))) [
  | inl allowed ↦
      let same = ok-injective (sort_addrs (s ∷ ss)) addrs (rw allowed at h) in
      (s ∷ ss, refl, sym same ∙ sort_addrs_lem (s ∷ ss), subst IsPinned same (sorted s ss allowed))
  | inr denied ↦ absurd (ground arith)
]
  where
    sorted :
        (s : SocketAddr) (ss : List SocketAddr)
        → all_allowed (s ∷ ss) ≡ true
        → IsPinned (sort_addrs (s ∷ ss))
    sorted s ss allowed = (all_allowed-sort_addrs (s ∷ ss) ∙ allowed, length-sort_addrs s ss)

pin_host-IsPinned :
    (host : Host) (port : ℕ) (lookup : Lookup) (addrs : List SocketAddr)
    → pin_host host port lookup ≡ ok addrs
    → IsPinned addrs
unfolding pin_host all_allowed
pin_host-IsPinned (ipv4 i) port lookup addrs h = elim (Bool-cases (check_ip_allowed (v4 i))) [
  | inl e ↦
      let same = ok-injective (record { ip = v4 i; port = port } ∷ []) addrs (rw e at h) in
      subst IsPinned same (rw e refl, omega arith)
  | inr e ↦ absurd (ground arith)
]
pin_host-IsPinned (ipv6 i) port lookup addrs h = elim (Bool-cases (check_ip_allowed (v6 i))) [
  | inl e ↦
      let same = ok-injective (record { ip = v6 i; port = port } ∷ []) addrs (rw e at h) in
      subst IsPinned same (rw e refl, omega arith)
  | inr e ↦ absurd (ground arith)
]
pin_host-IsPinned (domain name) port lookup addrs h =
    let (ss, answer, order, pinned) = pin_lookup-IsPinned lookup addrs h in pinned

with_host-ok :
    (host : String) (pinned : Result UrlError (List SocketAddr)) (r : ResolvedUrl)
    → with_host host pinned ≡ ok r
    → (pinned ≡ ok r.addrs) × (r.host ≡ host)
unfolding with_host
with_host-ok host (err e) r h = absurd (ground arith)
with_host-ok host (ok addrs) r h =
    let same = ok-injective (record { host = host; addrs = addrs }) r h in
    let pinned : ResolvedUrl → Result UrlError (List SocketAddr) = λ q. ok q.addrs in
    (ap pinned same, sym (ap (λ q. q.host) same))

resolve_host-ok :
    (u : ParsedUrl) (lookup : Lookup) (host : Option Host) (r : ResolvedUrl)
    → resolve_host u lookup host ≡ ok r
    → (chosen : Host) × (host ≡ some chosen)
      × (pin_host chosen (port_of u) lookup ≡ ok r.addrs)
      × (r.host ≡ u.host_text)
unfolding resolve_host
resolve_host-ok u lookup none r h = absurd (ground arith)
resolve_host-ok u lookup (some host) r h =
    let (pinned, text) = with_host-ok u.host_text (pin_host host (port_of u) lookup) r h in
    (host, refl, pinned, text)

-- Where the addresses come from: the host itself if it is an address, else the answer, IPv4 first.
abbrev pub IsSource : Lookup → Host → ℕ → List SocketAddr → Type 0
IsSource lookup (ipv4 i) port addrs = addrs ≡ record { ip = v4 i; port = port } ∷ []
IsSource lookup (ipv6 i) port addrs = addrs ≡ record { ip = v6 i; port = port } ∷ []
IsSource lookup (domain name) port addrs =
    (ss : List SocketAddr) × (lookup ≡ resolved ss) × (addrs ≡ v4_first ss)

pin_host-IsSource :
    (host : Host) (port : ℕ) (lookup : Lookup) (addrs : List SocketAddr)
    → pin_host host port lookup ≡ ok addrs
    → IsSource lookup host port addrs
unfolding pin_host
pin_host-IsSource (ipv4 i) port lookup addrs h = elim (Bool-cases (check_ip_allowed (v4 i))) [
  | inl e ↦ sym (ok-injective (record { ip = v4 i; port = port } ∷ []) addrs (rw e at h))
  | inr e ↦ absurd (ground arith)
]
pin_host-IsSource (ipv6 i) port lookup addrs h = elim (Bool-cases (check_ip_allowed (v6 i))) [
  | inl e ↦ sym (ok-injective (record { ip = v6 i; port = port } ∷ []) addrs (rw e at h))
  | inr e ↦ absurd (ground arith)
]
pin_host-IsSource (domain name) port lookup addrs h =
    let (ss, answer, order, pinned) = pin_lookup-IsPinned lookup addrs h in (ss, answer, order)

-- A URL that is validated has the scheme http or https, no credentials and a host; it is resolved to
-- at least one address, all of them allowed: the host itself with its port if it is an address, and
-- for a domain those of the name server's answer, IPv4 first and otherwise in its order.
pub validate_and_resolve_ok :
    (parsed : Option ParsedUrl) (lookup : Lookup) (r : ResolvedUrl)
    → validate_and_resolve parsed lookup ≡ ok r
    → (u : ParsedUrl) × (host : Host) × (parsed ≡ some u)
      × ((str_eq u.scheme "http" || str_eq u.scheme "https") ≡ true)
      × (has_credentials u ≡ false)
      × (u.host ≡ some host)
      × IsPinned r.addrs
      × IsSource lookup host (port_of u) r.addrs
unfolding validate_and_resolve
validate_and_resolve_ok none lookup r h = absurd (ground arith)
validate_and_resolve_ok (some u) lookup r h =
    elim (Bool-cases (str_eq u.scheme "http" || str_eq u.scheme "https")) [
      | inr e ↦ absurd (ground arith)
      | inl web ↦ elim (Bool-cases (has_credentials u)) [
        | inl e ↦ absurd (ground arith)
        | inr bare ↦
            let (host, is, pinned, text) =
              resolve_host-ok u lookup u.host r (rw (web, bare) at h) in
            (
              u,
              host,
              refl,
              web,
              bare,
              is,
              pin_host-IsPinned host (port_of u) lookup r.addrs pinned,
              pin_host-IsSource host (port_of u) lookup r.addrs pinned,
            )
      ]
    ]
