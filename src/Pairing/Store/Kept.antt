-- ===== src/Pairing/Store/Kept.antt =====
-- Who is paired stays paired until a revocation: src/pairing/mod.rs.
use text.Mathlib.Text.{◌==◌ as str_eq}
use text.Mathlib.TextEquality.{eq_iff}
use oxicrab.Base.{
  ℕ, true, false, not, ◌||◌, String, Option, none, some, List, [], ◌∷◌, ◌≡◌, refl, arith, ◌∙◌, ap,
  sym, subst, any, filter_by, All, Bool-cases, Option-cases, inl, inr, leb, ltb, length,
}
use oxicrab.Pairing.Tables.{
  PendingRequest, PairingTables, is_row, cleanup_expired_pending, remove_pending, add_paired_sender,
  remove_paired_sender, record_failed_attempt, evict_oldest_lockout_client, is_sender_paired,
  add_pending_request, find_row, get_all_pending, count_recent_failed_attempts,
  get_pending_for_sender, count_pending_for_channel, group_clients, delete_oldest,
}
use oxicrab.Pairing.Tables.Rows.{any-append}
use oxicrab.Pairing.Store.{
  request_pairing, request_clean, issue, approve_with_client, approve_evicted, settle, revoke,
}
use oxicrab.Pairing.Store.Caps.{
  PairingCall, request, approval, revocation, call_store, call_store_all,
}

-- The call revokes no pairing of this sender in this channel.
unfoldable pub KeepsPaired : String → String → PairingCall → Type 0
KeepsPaired channel sender (request now code c s) = Unit
KeepsPaired channel sender (approval now code client) = Unit
KeepsPaired channel sender (revocation now c s) = is_row channel sender (c, s) ≡ false

issue-allowlist :
    (now : ℕ) (code c s : String) (t : PairingTables)
    → (issue now code c s t).0.allowlist ≡ t.allowlist
unfolding issue add_pending_request
issue-allowlist now code c s t = elim (Bool-cases (any (λ q. str_eq q.code code) t.pending)) [
  | inl h ↦ rw (h, issue, add_pending_request) refl
  | inr h ↦ rw (h, issue, add_pending_request) refl
]

request_clean-allowlist :
    (now : ℕ) (code c s : String) (t : PairingTables)
    → (request_clean now code c s t).0.allowlist ≡ t.allowlist
unfolding request_clean
request_clean-allowlist now code c s t = elim (Bool-cases (is_sender_paired c s t)) [
  | inl e ↦ rw e refl
  | inr e ↦ elim (Bool-cases (leb 3 (count_pending_for_channel now 900 c t))) [
    | inl f ↦ rw (e, f) refl
    | inr f ↦ elim (Option-cases (get_pending_for_sender now 900 c s t)) [
      | inr (r, g) ↦ rw (e, f, g) refl
      | inl g ↦ rw (e, f, g) (issue-allowlist now code c s t)
    ]
  ]
]

delete_oldest-allowlist :
    (groups : List (String × ℕ)) (t : PairingTables)
    → (delete_oldest groups t).allowlist ≡ t.allowlist
unfolding delete_oldest
delete_oldest-allowlist [] t = refl
delete_oldest-allowlist (g ∷ gs) t = refl

evict-allowlist : (t : PairingTables) → (evict_oldest_lockout_client 1000 t).allowlist ≡ t.allowlist
unfolding evict_oldest_lockout_client
evict-allowlist t = elim (Bool-cases (ltb 1000 (length (group_clients [] t.failed_attempts)))) [
  | inl e ↦ rw e (delete_oldest-allowlist (group_clients [] t.failed_attempts) t)
  | inr e ↦ rw e refl
]

module _ (channel sender : String) where
  add_paired_sender-keeps :
      (c s : String) (t : PairingTables)
      → is_sender_paired channel sender t ≡ true
      → is_sender_paired channel sender (add_paired_sender c s t).0 ≡ true
  unfolding add_paired_sender is_sender_paired
  add_paired_sender-keeps c s t h = elim (Bool-cases (any (is_row c s) t.allowlist)) [
    | inl e ↦ rw e h
    | inr e ↦ rw e (
        any-append (is_row channel sender) t.allowlist ((c, s) ∷ [])
        ∙ ap (λ b. b || any (is_row channel sender) ((c, s) ∷ [])) h)
  ]

  settle-keeps :
      (now : ℕ) (client : String) (found : Option PendingRequest) (t : PairingTables)
      → is_sender_paired channel sender t ≡ true
      → is_sender_paired channel sender (settle now client found t).0 ≡ true
  unfolding settle record_failed_attempt remove_pending is_sender_paired
  settle-keeps now client none t h = h
  settle-keeps now client (some r) t h =
      add_paired_sender-keeps r.channel r.sender_id (remove_pending r.code t) h

  approve_evicted-keeps :
      (now : ℕ) (code client : String) (t : PairingTables)
      → is_sender_paired channel sender t ≡ true
      → is_sender_paired channel sender (approve_evicted now code client t).0 ≡ true
  unfolding approve_evicted
  approve_evicted-keeps now code client t h =
      elim (Bool-cases (leb 10 (count_recent_failed_attempts now 300 client t))) [
        | inl e ↦ rw e h
        | inr e ↦ rw e (
            settle-keeps now client (find_row (λ r. str_eq r.code code) (get_all_pending now 900 t))
              t h)
      ]

  -- A row of this sender is no row of another.
  one_row :
      (c s : String) (row : String × String)
      → is_row channel sender (c, s) ≡ false
      → is_row channel sender row ≡ true
      → is_row c s row ≡ false
  one_row c s row other here = elim (Bool-cases (is_row c s row)) [
    | inr e ↦ e
    | inl e ↦
        let x : row.0 ≡ c = (eq_iff row.0 c).0 (ground arith) in
        let y : row.1 ≡ s = (eq_iff row.1 s).0 (ground arith) in
        let same : is_row channel sender (c, s) ≡ true =
          subst (λ k. is_row channel sender (c, k) ≡ true) y
            (subst (λ k. is_row channel sender (k, row.1) ≡ true) x here) in
        absurd (ground (arith, sym same ∙ other))
  ]

  -- Rows of another sender or channel are deleted, and this one is not.
  any-filter_by :
      (c s : String) (rows : List (String × String))
      → is_row channel sender (c, s) ≡ false
      → any (is_row channel sender) rows ≡ true
      → any (is_row channel sender) (filter_by (λ row. not (is_row c s row)) rows) ≡ true
  any-filter_by c s [] other h = h
  any-filter_by c s (row ∷ rows) other h = elim (Bool-cases (is_row channel sender row)) [
    | inl here ↦
        let stays : is_row c s row ≡ false = one_row c s row other here in
        rw stays (
          ap (λ b. b || any (is_row channel sender) (filter_by (λ x. not (is_row c s x)) rows))
            here)
    | inr e ↦
        let later : any (is_row channel sender) rows ≡ true = rw e at h in
        let kept = any-filter_by c s rows other later in
        elim (Bool-cases (is_row c s row)) [ inl f ↦ rw f kept | inr f ↦ rw (f, e) kept ]
  ]

  pub call_store-keeps :
      (up : String → String) (call : PairingCall) (t : PairingTables)
      → KeepsPaired channel sender call
      → is_sender_paired channel sender t ≡ true
      → is_sender_paired channel sender (call_store up call t) ≡ true
  unfolding KeepsPaired call_store request_pairing cleanup_expired_pending approve_with_client
      revoke remove_paired_sender is_sender_paired
  call_store-keeps up (request now code c s) t k h =
      ap (any (is_row channel sender))
        (request_clean-allowlist now code c s (cleanup_expired_pending now 900 t))
      ∙ h
  call_store-keeps up (approval now code client) t k h =
      approve_evicted-keeps now (up code) client (evict_oldest_lockout_client 1000 t)
        (ap (any (is_row channel sender)) (evict-allowlist t) ∙ h)
  call_store-keeps up (revocation now c s) t k h = any-filter_by c s t.allowlist k h

  -- Over any calls of the store that do not revoke the pairing.
  pub call_store_all-keeps :
      (up : String → String) (calls : List PairingCall) (t : PairingTables)
      → All (KeepsPaired channel sender) calls
      → is_sender_paired channel sender t ≡ true
      → is_sender_paired channel sender (call_store_all up calls t) ≡ true
  unfolding call_store_all
  call_store_all-keeps up [] t k h = h
  call_store_all-keeps up (call ∷ calls) t k h =
      call_store_all-keeps up calls (call_store up call t) k.1 (call_store-keeps up call t k.0 h)
