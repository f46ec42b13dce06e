-- ===== src/Pairing/Store/Justified.antt =====
-- Every pairing goes back to a code that was given out.
use text.Mathlib.Text.{◌==◌ as str_eq}
use text.Mathlib.TextEquality.{eq_iff}
use text.Mathlib.TextPositions.{eq_refl}
use oxicrab.Base.{
  ℕ, ◌-◌, true, not, String, Option, none, some, List, [], ◌∷◌, ◌≡◌, refl, arith, subst, any,
  filter_by, All, All-filter_by, Bool-cases, inl, inr, leb,
}
use oxicrab.Pairing.Tables.{
  PendingRequest, PairingTables, empty_tables, is_row, is_live, cleanup_expired_pending,
  remove_pending, add_paired_sender, remove_paired_sender, record_failed_attempt,
  evict_oldest_lockout_client, is_sender_paired, find_row, get_all_pending,
  count_recent_failed_attempts,
}
use oxicrab.Pairing.Tables.Rows.{All-append, All-map, find_row-true, find_row-All}
use oxicrab.Pairing.Store.{request_pairing, approve_with_client, approve_evicted, settle, revoke}
use oxicrab.Pairing.Store.Caps.{PairingCall, request, approval, revocation}
use oxicrab.Pairing.Store.History.{
  PairingEvent, approved, is_given, is_approved, IsJustified, Trace, seen_approval, observe,
  observe_all, IsGiven, IsAllowed, Known, IsGiven-cons, IsAllowed-cons, Known-pending, Known-failed,
  Known-evict, request_clean-Known,
}

IsAllowed-fresh :
    (now : ℕ) (channel sender code : String) (h : List PairingEvent)
    → IsAllowed (approved now channel sender code ∷ h) (channel, sender)
unfolding IsAllowed is_approved
IsAllowed-fresh now channel sender code h = ground (arith, eq_refl channel, eq_refl sender)

live_rows :
    (now : ℕ) (h : List PairingEvent) (rows : List PendingRequest)
    → All (IsGiven h) rows
    → All (λ q. IsGiven h q × (is_live now 900 q ≡ true)) (filter_by (is_live now 900) rows)
live_rows now h [] g = tt
live_rows now h (r ∷ rows) g = elim (Bool-cases (is_live now 900 r)) [
  | inl e ↦ rw e ((g.0, e), live_rows now h rows g.1)
  | inr e ↦ rw e (live_rows now h rows g.1)
]

-- A row of the allowlist that its approval has just added.
approved-Known :
    (now : ℕ) (channel sender code : String) (t : PairingTables) (h : List PairingEvent)
    → any (is_given channel sender code (now - 900)) h ≡ true
    → Known t h
    → Known (add_paired_sender channel sender t).0 (approved now channel sender code ∷ h)
unfolding add_paired_sender
approved-Known now channel sender code t h out v =
    elim (Bool-cases (is_sender_paired channel sender t)) [
      | inl e ↦ rw e (record { given_out = rows; allowed_by = old; justified = (out, v.justified) })
      | inr e ↦ rw e (record {
        given_out = rows;
        allowed_by =
            All-append (IsAllowed (approved now channel sender code ∷ h)) t.allowlist
              ((channel, sender) ∷ []) old (IsAllowed-fresh now channel sender code h, tt);
        justified = (out, v.justified);
      })
    ]
  where
    rows : All (IsGiven (approved now channel sender code ∷ h)) t.pending
    rows =
        All-map (IsGiven h) (IsGiven (approved now channel sender code ∷ h)) t.pending
          (IsGiven-cons (approved now channel sender code) h) v.given_out

    old : All (IsAllowed (approved now channel sender code ∷ h)) t.allowlist
    old =
        All-map (IsAllowed h) (IsAllowed (approved now channel sender code ∷ h)) t.allowlist
          (IsAllowed-cons (approved now channel sender code) h) v.allowed_by

settle-Known :
    (now : ℕ) (code client : String) (found : Option PendingRequest) (t : PairingTables)
    (h : List PairingEvent)
    → ((r : PendingRequest)
        → found ≡ some r
        → any (is_given r.channel r.sender_id code (now - 900)) h ≡ true)
    → Known t h
    → let (t', answer) = settle now client found t in Known t' (seen_approval now code answer h)
unfolding settle seen_approval record_failed_attempt remove_pending
settle-Known now code client none t h out v = Known-failed h t _ v
settle-Known now code client (some r) t h out v =
    approved-Known now r.channel r.sender_id code (remove_pending r.code t) h (out r refl)
      (Known-pending h t (λ q. not (str_eq q.code r.code)) v)

-- The row that an approval finds was given out for its sender.
found-given :
    (now : ℕ) (code : String) (t : PairingTables) (h : List PairingEvent) (r : PendingRequest)
    → All (IsGiven h) t.pending
    → find_row (λ q. str_eq q.code code) (get_all_pending now 900 t) ≡ some r
    → any (is_given r.channel r.sender_id code (now - 900)) h ≡ true
unfolding get_all_pending IsGiven
found-given now code t h r g e =
    let (known, live) =
      find_row-All (λ q. IsGiven h q × (is_live now 900 q ≡ true)) (λ q. str_eq q.code code)
        (filter_by (is_live now 900) t.pending) r (live_rows now h t.pending g) e in
    let same : r.code ≡ code =
      (eq_iff r.code code).0
        (find_row-true (λ q. str_eq q.code code) (filter_by (is_live now 900) t.pending) r e) in
    subst (λ k. any (is_given r.channel r.sender_id k (now - 900)) h ≡ true) same
      (known (now - 900) (ground arith))

approve_evicted-Known :
    (now : ℕ) (code client : String) (t : PairingTables) (h : List PairingEvent)
    → Known t h
    → let (t', answer) = approve_evicted now code client t in
      Known t' (seen_approval now code answer h)
unfolding approve_evicted seen_approval
approve_evicted-Known now code client t h v =
    elim (Bool-cases (leb 10 (count_recent_failed_attempts now 300 client t))) [
      | inl e ↦ rw e v
      | inr e ↦ rw e (
          settle-Known now code client
            (find_row (λ r. str_eq r.code code) (get_all_pending now 900 t)) t h
            (λ r found. found-given now code t h r v.given_out found) v)
    ]

observe-Known :
    (up : String → String) (call : PairingCall) (s : Trace)
    → Known s.tables s.history
    → Known (observe up call s).tables (observe up call s).history
unfolding observe request_pairing cleanup_expired_pending approve_with_client revoke
    remove_paired_sender
observe-Known up (request now code channel sender) s v =
    request_clean-Known now code channel sender (cleanup_expired_pending now 900 s.tables) s.history
      (Known-pending s.history s.tables (is_live now 900) v)
observe-Known up (approval now code client) s v =
    approve_evicted-Known now (up code) client (evict_oldest_lockout_client 1000 s.tables) s.history
      (Known-evict s.history s.tables v)
observe-Known up (revocation now channel sender) s v = record {
  given_out = v.given_out;
  allowed_by =
      All-filter_by (IsAllowed s.history) (λ row. not (is_row channel sender row))
        s.tables.allowlist v.allowed_by;
  justified = v.justified;
}

observe_all-Known :
    (up : String → String) (calls : List PairingCall) (s : Trace)
    → Known s.tables s.history
    → Known (observe_all up calls s).tables (observe_all up calls s).history
unfolding observe_all
observe_all-Known up [] s v = v
observe_all-Known up (call ∷ calls) s v =
    observe_all-Known up calls (observe up call s) (observe-Known up call s v)

paired-approved :
    (channel sender : String) (rows : List (String × String)) (h : List PairingEvent)
    → All (IsAllowed h) rows
    → any (is_row channel sender) rows ≡ true
    → any (is_approved channel sender) h ≡ true
unfolding IsAllowed
paired-approved channel sender [] h a e = absurd (ground arith)
paired-approved channel sender (row ∷ rows) h a e = elim (Bool-cases (is_row channel sender row)) [
  | inr other ↦ paired-approved channel sender rows h a.1 (rw other at e)
  | inl here ↦
      let c : row.0 ≡ channel = (eq_iff row.0 channel).0 (ground arith) in
      let p : row.1 ≡ sender = (eq_iff row.1 sender).0 (ground arith) in
      subst (λ x. any (is_approved x sender) h ≡ true) c
        (subst (λ x. any (is_approved row.0 x) h ≡ true) p a.0)
]

abbrev pub from_empty : (String → String) → List PairingCall → Trace
from_empty up calls = observe_all up calls (record { tables = empty_tables; history = [] })

-- Over any calls of the store from empty tables, one after another: whoever is paired in the end was approved, and each
-- approval had been preceded, by less than 15 minutes, by its code being given out for that very
-- channel and sender.
pub paired-IsJustified :
    (up : String → String) (calls : List PairingCall) (channel sender : String)
    → is_sender_paired channel sender (from_empty up calls).tables ≡ true
    → IsJustified (from_empty up calls).history
      × (any (is_approved channel sender) (from_empty up calls).history ≡ true)
unfolding is_sender_paired
paired-IsJustified up calls channel sender e =
    let v =
      observe_all-Known up calls (record { tables = empty_tables; history = [] })
        (record { given_out = tt; allowed_by = tt; justified = tt }) in
    (
      v.justified,
      paired-approved channel sender (from_empty up calls).tables.allowlist
          (from_empty up calls).history v.allowed_by e,
    )
