-- ===== src/Pairing/Access/Tests.antt =====
-- A pairing, from the refusal to the access.
use oxicrab.Base.{List, ◌≡◌, refl, true, arith, [], ◌∷◌, some, none}
use oxicrab.Base.Result.{ok}
use oxicrab.Pairing.Tables.{
  group_clients, count_pending_for_channel, cleanup_expired_pending, count_recent_failed_attempts,
  find_row, is_sender_paired, evict_oldest_lockout_client, get_pending_for_sender, PairingTables,
  empty_tables,
}
use oxicrab.Pairing.Store.{approve_with_client}
use oxicrab.Pairing.Access.{
  check_allowed_sender, is_paired_sender, drop_control, is_empty_list, trim_plus,
  normalize_sender_id, allows_normalized, check_dm_access, dm_pairing, dm_allowlist, allowed,
  pairing_required,
}
use oxicrab.Base.Chars.{is_control}
use oxicrab.Pairing.Store.Caps.{PairingCall, request, revocation, call_store_all}
use oxicrab.Pairing.Store.Kept.{KeepsPaired}
use oxicrab.Pairing.Access.Onboarding.{asked, onboarding}

abbrev tables : PairingTables
tables = asked 1000 "ABC" "slack" "u1" empty_tables

abbrev settled : PairingTables
settled = (approve_with_client (λ s. "ABC") 1500 "abc" "cli" tables).0

-- Another sender asks, and a third one is revoked.
abbrev further_calls : List PairingCall
further_calls = request 1600 "XYZ" "slack" "u2" ∷ revocation 1700 "slack" "u3" ∷ []

abbrev further : PairingTables
further = call_store_all (λ s. "ABC") further_calls settled

onboarding_example :
    (check_dm_access "u1" [] "slack" dm_pairing (some (1000, "ABC")) (some empty_tables)
      ≡ (some tables, pairing_required "ABC"))
    × ((approve_with_client (λ s. "ABC") 1500 "abc" "cli" tables).1 ≡ ok (some ("slack", "u1")))
    × (check_dm_access "u1" [] "slack" dm_allowlist none (some further) ≡ (some further, allowed))
unfolding check_allowed_sender allows_normalized is_empty_list is_paired_sender is_sender_paired
    normalize_sender_id drop_control trim_plus is_control count_pending_for_channel
    cleanup_expired_pending get_pending_for_sender find_row count_recent_failed_attempts
    evict_oldest_lockout_client group_clients KeepsPaired
onboarding_example =
    onboarding (λ s. "ABC") "u1" "slack" "ABC" "abc" "cli" [] [] 1000 1500 empty_tables
      further_calls dm_allowlist none refl (ground arith) refl refl (ground arith) (ground arith)
      refl (ground arith) (tt, (refl, tt))

normalized_sender : normalize_sender_id "++1555" ≡ "1555"
unfolding normalize_sender_id drop_control trim_plus is_control
normalized_sender = refl

plus_allowed : allows_normalized ("+1555" ∷ []) "1555" ≡ true
unfolding allows_normalized is_empty_list normalize_sender_id drop_control trim_plus is_control
plus_allowed = refl
