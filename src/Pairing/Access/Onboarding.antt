-- ===== src/Pairing/Access/Onboarding.antt =====
-- A new sender, from the refusal to the access.
use text.Mathlib.Text.{◌==◌ as str_eq}
use oxicrab.Base.{
  ℕ, ◌+◌, ◌≤◌, ◌<◌, true, false, String, none, some, ◌≡◌, refl, arith, any, List, All, Bool-cases,
  inl, inr,
}
use oxicrab.Base.Result.{ok}
use oxicrab.Pairing.Tables.{
  PairingTables, cleanup_expired_pending, remove_pending, add_paired_sender,
  evict_oldest_lockout_client, is_sender_paired, get_pending_for_sender, count_pending_for_channel,
  count_recent_failed_attempts,
}
use oxicrab.Pairing.Store.{request_pairing, approve_with_client, approve_evicted}
use oxicrab.Pairing.Store.Caps.{PairingCall, call_store_all}
use oxicrab.Pairing.Store.Kept.{KeepsPaired, call_store_all-keeps}
use oxicrab.Pairing.Access.{
  DenyByDefaultList, DmPolicy, dm_pairing, allowed, pairing_required, Requester, is_open,
  is_pairing, check_dm_access, check_allowed_sender, ask_pairing, code_given,
}
use oxicrab.Pairing.Access.Steps.{
  with_row, request_clean_fresh, unpaired-allowed, paired-allowed, evict-pending,
  add_paired_sender-paired, approve_last,
}

-- What an access check makes of the tables of a sender whom it asks to pair.
abbrev pub asked : ℕ → String → String → String → PairingTables → PairingTables
asked now code channel sender t =
    with_row (record { channel = channel; sender_id = sender; code = code; created_at = now })
      (cleanup_expired_pending now 900 t)

-- The access check that asks for the pairing.
check_dm_access-asks :
    (sender channel code : String) (l : DenyByDefaultList) (now : ℕ) (t : PairingTables)
    → check_allowed_sender sender l channel (some t) ≡ false
    → count_pending_for_channel now 900 channel (cleanup_expired_pending now 900 t) < 3
    → get_pending_for_sender now 900 channel sender (cleanup_expired_pending now 900 t) ≡ none
    → any (λ q. str_eq q.code code) (cleanup_expired_pending now 900 t).pending ≡ false
    → check_dm_access sender l channel dm_pairing (some (now, code)) (some t)
      ≡ (some (asked now code channel sender t), pairing_required code)
unfolding check_dm_access is_open is_pairing ask_pairing request_pairing code_given
    cleanup_expired_pending is_sender_paired
check_dm_access-asks sender channel code l now t unknown room new unused =
    let unpaired : is_sender_paired channel sender (cleanup_expired_pending now 900 t) ≡ false =
      unpaired-allowed sender channel l t unknown in
    let fresh : request_pairing now code channel sender t
        ≡ (asked now code channel sender t, ok (some code)) =
      request_clean_fresh now code channel sender (cleanup_expired_pending now 900 t) unpaired room
        new unused in
    rw (unknown, fresh) refl

-- The approval of the request that was asked for.
approve_asked :
    (sender channel code client : String) (now later : ℕ) (t : PairingTables)
    → any (λ q. str_eq q.code code) (cleanup_expired_pending now 900 t).pending ≡ false
    → later < now + 900
    → 900 ≤ later
    → count_recent_failed_attempts later 300 client
        (evict_oldest_lockout_client 1000 (asked now code channel sender t))
      < 10
    → approve_evicted later code client
        (evict_oldest_lockout_client 1000 (asked now code channel sender t))
      ≡ (
        (add_paired_sender channel sender (
            remove_pending code
              (evict_oldest_lockout_client 1000 (asked now code channel sender t)))).0,
        ok (some (channel, sender)),
      )
approve_asked sender channel code client now later t unused soon late few =
    approve_last later client
      (record { channel = channel; sender_id = sender; code = code; created_at = now })
      (cleanup_expired_pending now 900 t)
      (evict_oldest_lockout_client 1000 (asked now code channel sender t))
      (evict-pending (asked now code channel sender t)) unused (ground arith) few

-- Whoever is paired passes every access check.
paired-check_dm_access :
    (sender channel : String) (l : DenyByDefaultList) (policy : DmPolicy) (requester : Requester)
    (t : PairingTables)
    → is_sender_paired channel sender t ≡ true
    → check_dm_access sender l channel policy requester (some t) ≡ (some t, allowed)
unfolding check_dm_access
paired-check_dm_access sender channel l policy requester t paired =
    let known : check_allowed_sender sender l channel (some t) ≡ true =
      paired-allowed sender channel l t paired in
    elim (Bool-cases (is_open policy)) [ inl e ↦ rw e refl | inr e ↦ rw (e, known) refl ]

-- A sender who is neither on the list nor paired, has no live request, in a channel with fewer than 3
-- live requests, is asked to pair with the drawn code if no live request has it. An approval by that
-- code, as the first call after the request, less than 15 minutes after it and at least 15 minutes
-- after the epoch, in any case that reads as it in upper case and by a client who is not locked out,
-- pairs that sender. Then, after any further calls of the store of which none revokes that pairing,
-- every access check, by any list and policy, lets the sender in.
pub onboarding :
    (up : String → String) (sender channel code typed client : String)
    (l any_list : DenyByDefaultList) (now later : ℕ) (t : PairingTables) (calls : List PairingCall)
    (policy : DmPolicy) (requester : Requester)
    → check_allowed_sender sender l channel (some t) ≡ false
    → count_pending_for_channel now 900 channel (cleanup_expired_pending now 900 t) < 3
    → get_pending_for_sender now 900 channel sender (cleanup_expired_pending now 900 t) ≡ none
    → any (λ q. str_eq q.code code) (cleanup_expired_pending now 900 t).pending ≡ false
    → later < now + 900
    → 900 ≤ later
    → up typed ≡ code
    → count_recent_failed_attempts later 300 client
        (evict_oldest_lockout_client 1000 (asked now code channel sender t))
      < 10
    → All (KeepsPaired channel sender) calls
    → let t' = asked now code channel sender t in
      let (t'', outcome) = approve_with_client up later typed client t' in
      let u = call_store_all up calls t'' in
      (check_dm_access sender l channel dm_pairing (some (now, code)) (some t)
        ≡ (some t', pairing_required code))
      × (outcome ≡ ok (some (channel, sender)))
      × (check_dm_access sender any_list channel policy requester (some u) ≡ (some u, allowed))
unfolding approve_with_client
onboarding up sender channel code typed client l any_list now later t calls policy requester unknown
      room new unused soon late reads few keeping =
    let u = evict_oldest_lockout_client 1000 (asked now code channel sender t) in
    let paired = (add_paired_sender channel sender (remove_pending code u)).0 in
    let settled : approve_with_client up later typed client (asked now code channel sender t)
        ≡ (paired, ok (some (channel, sender))) =
      rw reads (approve_asked sender channel code client now later t unused soon late few) in
    rw settled (
      check_dm_access-asks sender channel code l now t unknown room new unused,
      refl,
      paired-check_dm_access sender channel any_list policy requester
          (call_store_all up calls paired)
          (call_store_all-keeps channel sender up calls paired keeping
            (add_paired_sender-paired channel sender (remove_pending code u))),
    )
