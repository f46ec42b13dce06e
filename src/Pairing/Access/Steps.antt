-- ===== src/Pairing/Access/Steps.antt =====
-- The steps of a pairing, one call at a time.
use text.Mathlib.Text.{◌==◌ as str_eq}
use text.Mathlib.TextPositions.{eq_refl}
use oxicrab.Base.{
  ℕ, ◌<◌, Bool, true, false, String, none, some, List, [], ◌∷◌, ◌++◌, ◌≡◌, refl, arith, ◌∙◌, ap,
  any, filter_by, Bool-cases, inl, inr, if◌then◌else◌, leb, ltb, length,
}
use oxicrab.Base.Result.{ok}
use oxicrab.Pairing.Tables.{
  PendingRequest, PairingTables, is_row, is_live, add_pending_request, remove_pending,
  add_paired_sender, evict_oldest_lockout_client, delete_oldest, is_sender_paired,
  get_pending_for_sender, group_clients, find_row, get_all_pending, count_pending_for_channel,
  count_recent_failed_attempts,
}
use oxicrab.Pairing.Tables.Rows.{any-append}
use oxicrab.Pairing.Store.{request_clean, issue, approve_evicted, settle}
use oxicrab.Pairing.Access.{DenyByDefaultList, check_allowed_sender, is_paired_sender}

module _ {ℓ} {A : Type ℓ} where
  find_row-snoc :
      (p : A → Bool) (xs : List A) (x : A)
      → any p xs ≡ false
      → p x ≡ true
      → find_row p (xs ++ (x ∷ [])) ≡ some x
  unfolding find_row
  find_row-snoc p [] x h e = rw e refl
  find_row-snoc p (y ∷ ys) x h e = elim (Bool-cases (p y)) [
    | inl f ↦ absurd (ground arith)
    | inr f ↦ rw f (find_row-snoc p ys x (rw f at h) e)
  ]

  find_row-filter_by-snoc :
      (p q : A → Bool) (xs : List A) (x : A)
      → any p xs ≡ false
      → p x ≡ true
      → q x ≡ true
      → find_row p (filter_by q (xs ++ (x ∷ []))) ≡ some x
  unfolding find_row
  find_row-filter_by-snoc p q [] x h e k = rw k (rw e refl)
  find_row-filter_by-snoc p q (y ∷ ys) x h e k = elim (Bool-cases (q y)) [
    | inl g ↦ elim (Bool-cases (p y)) [
      | inl f ↦ absurd (ground arith)
      | inr f ↦ rw g (rw f (find_row-filter_by-snoc p q ys x (rw f at h) e k))
    ]
    | inr g ↦ elim (Bool-cases (p y)) [
      | inl f ↦ absurd (ground arith)
      | inr f ↦ rw g (find_row-filter_by-snoc p q ys x (rw f at h) e k)
    ]
  ]

-- The tables with a row for the sender.
abbrev pub with_row : PendingRequest → PairingTables → PairingTables
with_row r t = record t { pending = t.pending ++ (r ∷ []) }

pub issue_fresh :
    (now : ℕ) (code channel sender : String) (t : PairingTables)
    → any (λ q. str_eq q.code code) t.pending ≡ false
    → issue now code channel sender t ≡ (
      with_row (record { channel = channel; sender_id = sender; code = code; created_at = now }) t,
      ok (some code),
    )
unfolding issue add_pending_request
issue_fresh now code channel sender t unused = rw (issue, add_pending_request, unused) refl

pub request_clean_fresh :
    (now : ℕ) (code channel sender : String) (t : PairingTables)
    → is_sender_paired channel sender t ≡ false
    → count_pending_for_channel now 900 channel t < 3
    → get_pending_for_sender now 900 channel sender t ≡ none
    → any (λ q. str_eq q.code code) t.pending ≡ false
    → request_clean now code channel sender t ≡ (
      with_row (record { channel = channel; sender_id = sender; code = code; created_at = now }) t,
      ok (some code),
    )
unfolding request_clean
request_clean_fresh now code channel sender t unpaired room new unused =
    let free : leb 3 (count_pending_for_channel now 900 channel t) ≡ false = ground arith in
    rw (unpaired, free, new) (issue_fresh now code channel sender t unused)

pub unpaired-allowed :
    (sender channel : String) (l : DenyByDefaultList) (t : PairingTables)
    → check_allowed_sender sender l channel (some t) ≡ false
    → is_sender_paired channel sender t ≡ false
unfolding check_allowed_sender is_paired_sender
unpaired-allowed sender channel l t h = ground arith

pub paired-allowed :
    (sender channel : String) (l : DenyByDefaultList) (t : PairingTables)
    → is_sender_paired channel sender t ≡ true
    → check_allowed_sender sender l channel (some t) ≡ true
unfolding check_allowed_sender is_paired_sender
paired-allowed sender channel l t h = ground arith

pub evict-pending : (t : PairingTables) → (evict_oldest_lockout_client 1000 t).pending ≡ t.pending
unfolding evict_oldest_lockout_client delete_oldest
evict-pending t = evicted (group_clients [] t.failed_attempts)
  where
    deleted : (groups : List (String × ℕ)) → (delete_oldest groups t).pending ≡ t.pending
    deleted [] = refl
    deleted (g ∷ gs) = refl

    evicted :
        (groups : List (String × ℕ))
        → (if ltb 1000 (length groups) then delete_oldest groups t else t).pending ≡ t.pending
    evicted groups = elim (Bool-cases (ltb 1000 (length groups))) [
      | inl e ↦ rw e (deleted groups)
      | inr e ↦ rw e refl
    ]

pub add_paired_sender-paired :
    (channel sender : String) (t : PairingTables)
    → is_sender_paired channel sender (add_paired_sender channel sender t).0 ≡ true
unfolding add_paired_sender is_sender_paired
add_paired_sender-paired channel sender t =
    elim (Bool-cases (any (is_row channel sender) t.allowlist)) [
      | inl e ↦ rw e e
      | inr e ↦ rw e (
          any-append (is_row channel sender) t.allowlist ((channel, sender) ∷ [])
          ∙ ground (arith, eq_refl channel, eq_refl sender))
    ]

-- An approval by the code of the last row, which is live.
pub approve_last :
    (later : ℕ) (client : String) (r : PendingRequest) (t u : PairingTables)
    → u.pending ≡ t.pending ++ (r ∷ [])
    → any (λ q. str_eq q.code r.code) t.pending ≡ false
    → is_live later 900 r ≡ true
    → count_recent_failed_attempts later 300 client u < 10
    → approve_evicted later r.code client u ≡ (
      (add_paired_sender r.channel r.sender_id (remove_pending r.code u)).0,
      ok (some (r.channel, r.sender_id)),
    )
unfolding approve_evicted settle get_all_pending
approve_last later client r t u last unused live few =
    let free : leb 10 (count_recent_failed_attempts later 300 client u) ≡ false = ground arith in
    let found : find_row (λ q. str_eq q.code r.code) (filter_by (is_live later 900) u.pending)
        ≡ some r =
      ap (λ rows. find_row (λ q. str_eq q.code r.code) (filter_by (is_live later 900) rows)) last
      ∙ find_row-filter_by-snoc (λ q. str_eq q.code r.code) (is_live later 900) t.pending r unused
          (eq_refl r.code) live in
    rw (free, found) refl
