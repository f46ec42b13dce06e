-- ===== src/Pairing/Store/Tests.antt =====
-- Runs of the pairing store.
use text.Mathlib.Text.{◌==◌ as str_eq}
use oxicrab.Base.{if◌then◌else◌, ◌≡◌, refl, true, arith, List, [], ◌∷◌, String, any, some}
use oxicrab.Base.Result.{ok}
use oxicrab.Pairing.Store.Interleaved.{interleaved_requests_exceed}
use oxicrab.Pairing.Tables.{
  record_failed_attempt, group_clients, count_pending_for_channel, remove_paired_sender,
  add_paired_sender, add_pending_request, note_client, cleanup_expired_pending, find_row,
  count_recent_failed_attempts, evict_oldest_lockout_client, remove_pending, delete_oldest,
  get_pending_for_sender, oldest_client, get_all_pending, empty_tables, is_sender_paired,
  PairingTables,
}
use oxicrab.Pairing.Store.{
  settle, request_clean, approve_with_client, approve_evicted, issue, request_pairing, revoke,
  generate_from, generate_code,
}
use oxicrab.Pairing.Store.Caps.{
  PairingCall, request, approval, revocation, IsCapped, call_store_all, call_store_all-IsCapped,
}
use oxicrab.Pairing.Store.History.{
  observe_all, observe, seen_approval, seen_request, IsJustified, is_approved,
}
use oxicrab.Pairing.Store.Justified.{from_empty, paired-IsJustified}

-- Upper case of the one code of the runs.
abbrev shout : String → String
shout s = if str_eq s "abc" then "ABC" else s

abbrev calls : List PairingCall
calls =
    request 1000 "ABC" "slack" "u1"
    ∷ approval 1100 "zzz" "cli"
    ∷ approval 1200 "abc" "cli"
    ∷ request 1300 "DEF" "slack" "u2"
    ∷ revocation 1400 "slack" "u9"
    ∷ []

call_store_all-IsCapped_example : IsCapped 2000 (call_store_all shout calls empty_tables)
unfolding count_pending_for_channel count_recent_failed_attempts
call_store_all-IsCapped_example =
    call_store_all-IsCapped shout 500 2000 calls empty_tables
      (ground arith, (ground arith, (ground arith, (ground arith, (ground arith, ground arith)))))
      (record { pending = λ channel. ground arith; failed = λ client. ground arith })

paired-IsJustified_example :
    IsJustified (from_empty shout calls).history
    × (any (is_approved "slack" "u1") (from_empty shout calls).history ≡ true)
unfolding is_sender_paired observe_all observe revoke remove_paired_sender request_pairing
    request_clean cleanup_expired_pending approve_with_client approve_evicted
    count_recent_failed_attempts evict_oldest_lockout_client group_clients count_pending_for_channel
    get_pending_for_sender find_row issue seen_approval seen_request settle add_paired_sender
    add_pending_request get_all_pending note_client oldest_client record_failed_attempt
    remove_pending delete_oldest
paired-IsJustified_example = paired-IsJustified shout calls "slack" "u1" refl

-- Two senders have asked.
abbrev asked_twice : PairingTables
asked_twice = record empty_tables {
  pending =
      record { channel = "slack"; sender_id = "u1"; code = "ABC"; created_at = 900 }
      ∷ record { channel = "slack"; sender_id = "u2"; code = "DEF"; created_at = 950 }
      ∷ [];
}

interleaved_requests_exceed_example :
    let (u, answer) = issue 1000 "GHJ" "slack" "u3" asked_twice in
    let (v, other_answer) = issue 1000 "KLM" "slack" "u4" u in
    (request_clean 1000 "GHJ" "slack" "u3" asked_twice ≡ issue 1000 "GHJ" "slack" "u3" asked_twice)
    × (request_clean 1000 "KLM" "slack" "u4" asked_twice
        ≡ issue 1000 "KLM" "slack" "u4" asked_twice)
    × (answer ≡ ok (some "GHJ"))
    × (other_answer ≡ ok (some "KLM"))
    × (count_pending_for_channel 1000 900 "slack" v ≡ 4)
unfolding is_sender_paired count_pending_for_channel get_pending_for_sender find_row
interleaved_requests_exceed_example =
    interleaved_requests_exceed 1000 "GHJ" "KLM" "slack" "u3" "u4" asked_twice (ground arith) refl
      refl refl refl refl refl refl refl

generate_code_first : generate_code (λ n. n) ≡ "23456789"
unfolding generate_from
generate_code_first = refl
