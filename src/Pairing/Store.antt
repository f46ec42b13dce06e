-- ===== src/Pairing/Store.antt =====
-- src/pairing/mod.rs: the pairing store. A call has the time of its reading of the clock, and the code
-- that a request draws (fastrand) is an argument; `to_uppercase` is Unicode's. A call is one step, though
-- the source locks the database, and reads the clock, for each statement of it.
pub mod Caps
pub mod History
mod Interleaved
pub mod Justified
pub mod Kept
mod Tests
use Prim.Native.String.{◌++◌ as ◌++ₛ◌}
use text.Mathlib.Text.{◌==◌ as str_eq}
use mathlib.Core.Option
use oxicrab.Base.{
  ℕ, zero, suc, ◌+◌, Bool, true, false, String, Option, none, some, leb, List, [], ◌∷◌, get_elem?,
  if◌then◌else◌,
}
use oxicrab.Base.Result.{Result, ok, err}
use oxicrab.Pairing.Tables.{
  PendingRequest, PairingTables, is_sender_paired, add_paired_sender, remove_paired_sender,
  add_pending_request, get_all_pending, find_row, get_pending_for_sender, count_pending_for_channel,
  remove_pending, cleanup_expired_pending, record_failed_attempt, count_recent_failed_attempts,
  evict_oldest_lockout_client, list_paired_senders, count_paired_senders,
}

abbrev pub code_alphabet : List String
code_alphabet =
    "2" ∷ "3" ∷ "4" ∷ "5" ∷ "6" ∷ "7" ∷ "8" ∷ "9" ∷ "A" ∷ "B" ∷ "C" ∷ "D" ∷ "E" ∷ "F" ∷ "G" ∷ "H"
    ∷ "J" ∷ "K" ∷ "L" ∷ "M" ∷ "N" ∷ "P" ∷ "Q" ∷ "R" ∷ "S" ∷ "T" ∷ "U" ∷ "V" ∷ "W" ∷ "X" ∷ "Y" ∷ "Z"
    ∷ []

abbrev pub code_length : ℕ
code_length = 8

abbrev pub code_ttl_secs : ℕ
code_ttl_secs = 900

abbrev pub max_pending_per_channel : ℕ
max_pending_per_channel = 3

abbrev pub max_failed_attempts : ℕ
max_failed_attempts = 10

abbrev pub failed_attempt_window_secs : ℕ
failed_attempt_window_secs = 300

abbrev pub max_lockout_clients : ℕ
max_lockout_clients = 1000

pub data PairingError : Type 0 where
  code_taken too_many_attempts : PairingError

-- A code from the draws of the random generator, each an index below the alphabet's length.
unfoldable pub generate_from : ℕ → (ℕ → ℕ) → String
generate_from zero draw = ""
generate_from (suc n) draw =
    generate_from n draw ++ₛ Option.get_or (get_elem? code_alphabet (draw n)) ""

abbrev pub generate_code : (ℕ → ℕ) → String
generate_code draw = generate_from code_length draw

unfoldable pub issue :
    ℕ
    → String
    → String
    → String
    → PairingTables
    → PairingTables × Result PairingError (Option String)
issue now code channel sender_id t =
    elim (add_pending_request
      (record { channel = channel; sender_id = sender_id; code = code; created_at = now }) t) [
        | none ↦ (t, err code_taken)
        | some t' ↦ (t', ok (some code))
      ]

-- The request after the cleanup.
unfoldable pub request_clean :
    ℕ
    → String
    → String
    → String
    → PairingTables
    → PairingTables × Result PairingError (Option String)
request_clean now code channel sender_id t =
    let fresh =
      elim (get_pending_for_sender now code_ttl_secs channel sender_id t)
        as (λ _. PairingTables × Result PairingError (Option String)) [
          | some existing ↦ (t, ok (some existing.code))
          | none ↦ issue now code channel sender_id t
        ] in
    if is_sender_paired channel sender_id t
    then (t, ok none)
    else if leb max_pending_per_channel (count_pending_for_channel now code_ttl_secs channel t)
    then (t, ok none)
    else fresh

unfoldable pub request_pairing :
    ℕ
    → String
    → String
    → String
    → PairingTables
    → PairingTables × Result PairingError (Option String)
request_pairing now code channel sender_id t =
    request_clean now code channel sender_id (cleanup_expired_pending now code_ttl_secs t)

-- The approval once the code is compared.
unfoldable pub settle :
    ℕ
    → String
    → Option PendingRequest
    → PairingTables
    → PairingTables × Result PairingError (Option (String × String))
settle now client none t = (record_failed_attempt client now t, ok none)
settle now client (some r) t = (
  (add_paired_sender r.channel r.sender_id (remove_pending r.code t)).0,
  ok (some (r.channel, r.sender_id)),
)

-- The approval after the eviction.
unfoldable pub approve_evicted :
    ℕ
    → String
    → String
    → PairingTables
    → PairingTables × Result PairingError (Option (String × String))
approve_evicted now code client t =
    if leb max_failed_attempts
      (count_recent_failed_attempts now failed_attempt_window_secs client t)
    then (t, err too_many_attempts)
    else settle now client
        (find_row (λ r. str_eq r.code code) (get_all_pending now code_ttl_secs t)) t

unfoldable pub approve_with_client :
    (String → String)
    → ℕ
    → String
    → String
    → PairingTables
    → PairingTables × Result PairingError (Option (String × String))
approve_with_client to_uppercase now code client t =
    approve_evicted now (to_uppercase code) client
      (evict_oldest_lockout_client max_lockout_clients t)

unfoldable pub approve :
    (String → String)
    → ℕ
    → String
    → PairingTables
    → PairingTables × Result PairingError (Option (String × String))
approve to_uppercase now code t = approve_with_client to_uppercase now code "default" t

abbrev pub is_paired : String → String → PairingTables → Bool
is_paired channel sender_id t = is_sender_paired channel sender_id t

unfoldable pub list_pending : ℕ → PairingTables → List PendingRequest
list_pending now t = get_all_pending now code_ttl_secs t

abbrev pub paired_count : PairingTables → ℕ
paired_count t = count_paired_senders t

unfoldable pub revoke : String → String → PairingTables → PairingTables × Bool
revoke channel sender_id t = remove_paired_sender channel sender_id t

unfoldable pub list_channel_senders : String → PairingTables → Option (List String)
list_channel_senders channel t = elim (list_paired_senders channel t) [
  | [] ↦ none
  | s ∷ ss ↦ some (s ∷ ss)
]
