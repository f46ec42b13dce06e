-- ===== src/Pairing/Tables.antt =====
-- crates/oxicrab-memory/src/memory_db/pairing.rs: the three tables of pairing, by rows in the order of
-- their insertion, and its SQL statements as functions. Times are seconds since the epoch, which fit
-- `i64`. Failures of the database itself are left out, but for the UNIQUE constraint on codes.
pub mod Rows
use text.Mathlib.Text.{◌==◌ as str_eq}
use oxicrab.Base.{
  ℕ, ◌+◌, ◌-◌, max, Bool, true, false, not, ◌||◌, ◌&&◌, String, Option, none, some, ltb, leb, List,
  [], ◌∷◌, ◌++◌, length, any, filter_by, if◌then◌else◌, map,
}

pub record PendingRequest : Type 0 where
  pub channel : String
  pub sender_id : String
  pub code : String
  pub created_at : ℕ

pub record PairingTables : Type 0 where
  pub allowlist : List (String × String)
  pub pending : List PendingRequest
  pub failed_attempts : List (String × ℕ)

abbrev pub empty_tables : PairingTables
empty_tables = record { allowlist = []; pending = []; failed_attempts = [] }

abbrev pub is_row : String → String → String × String → Bool
is_row channel sender_id row = str_eq row.0 channel && str_eq row.1 sender_id

unfoldable pub is_sender_paired : String → String → PairingTables → Bool
is_sender_paired channel sender_id t = any (is_row channel sender_id) t.allowlist

-- `INSERT OR IGNORE`: whether the row is new.
unfoldable pub add_paired_sender : String → String → PairingTables → PairingTables × Bool
add_paired_sender channel sender_id t =
    if is_sender_paired channel sender_id t
    then (t, false)
    else (record t { allowlist = t.allowlist ++ ((channel, sender_id) ∷ []) }, true)

unfoldable pub remove_paired_sender : String → String → PairingTables → PairingTables × Bool
remove_paired_sender channel sender_id t = (
  record t { allowlist = filter_by (λ row. not (is_row channel sender_id row)) t.allowlist },
  is_sender_paired channel sender_id t,
)

unfoldable pub list_paired_senders : String → PairingTables → List String
list_paired_senders channel t =
    map (λ row. row.1) (filter_by (λ row. str_eq row.0 channel) t.allowlist)

unfoldable pub count_paired_senders : PairingTables → ℕ
count_paired_senders t = length t.allowlist

-- `now.saturating_sub(ttl)`; a row is live while it is later than this.
abbrev pub live_since : ℕ → ℕ → ℕ
live_since now ttl = now - ttl

abbrev pub is_live : ℕ → ℕ → PendingRequest → Bool
is_live now ttl r = ltb (live_since now ttl) r.created_at

-- The insertion fails on a code that is there.
unfoldable pub add_pending_request : PendingRequest → PairingTables → Option PairingTables
add_pending_request r t =
    if any (λ q. str_eq q.code r.code) t.pending
    then none
    else some (record t { pending = t.pending ++ (r ∷ []) })

unfoldable pub get_all_pending : ℕ → ℕ → PairingTables → List PendingRequest
get_all_pending now ttl t = filter_by (is_live now ttl) t.pending

-- The first row that passes the test.
unfoldable pub find_row {ℓ} : {A : Type ℓ} → (A → Bool) → List A → Option A
find_row test [] = none
find_row test (x ∷ xs) = let later = find_row test xs in if test x then some x else later

unfoldable pub get_pending_for_sender :
    ℕ → ℕ → String → String → PairingTables → Option PendingRequest
get_pending_for_sender now ttl channel sender_id t =
    find_row (λ r. (str_eq r.channel channel && str_eq r.sender_id sender_id) && is_live now ttl r)
      t.pending

unfoldable pub count_pending_for_channel : ℕ → ℕ → String → PairingTables → ℕ
count_pending_for_channel now ttl channel t =
    length (filter_by (λ r. str_eq r.channel channel && is_live now ttl r) t.pending)

unfoldable pub remove_pending : String → PairingTables → PairingTables
remove_pending code t = record t { pending = filter_by (λ r. not (str_eq r.code code)) t.pending }

unfoldable pub cleanup_expired_pending : ℕ → ℕ → PairingTables → PairingTables
cleanup_expired_pending now ttl t = record t { pending = filter_by (is_live now ttl) t.pending }

unfoldable pub record_failed_attempt : String → ℕ → PairingTables → PairingTables
record_failed_attempt client now t = record t {
  failed_attempts = t.failed_attempts ++ ((client, now) ∷ []);
}

unfoldable pub count_recent_failed_attempts : ℕ → ℕ → String → PairingTables → ℕ
count_recent_failed_attempts now window client t =
    length (filter_by (λ a. str_eq a.0 client && ltb (live_since now window) a.1) t.failed_attempts)

unfoldable pub cleanup_old_failed_attempts : ℕ → ℕ → PairingTables → PairingTables
cleanup_old_failed_attempts now window t = record t {
  failed_attempts = filter_by (λ a. ltb (live_since now window) a.1) t.failed_attempts;
}

-- The clients of the attempts, each once, with the time of the latest attempt of each.
unfoldable pub note_client : String → ℕ → List (String × ℕ) → List (String × ℕ)
note_client client at [] = (client, at) ∷ []
note_client client at ((other, latest) ∷ rest) =
    let noted = note_client client at rest in
    if str_eq other client then (other, max latest at) ∷ rest else (other, latest) ∷ noted

unfoldable pub group_clients : List (String × ℕ) → List (String × ℕ) → List (String × ℕ)
group_clients groups [] = groups
group_clients groups ((client, at) ∷ rest) = group_clients (note_client client at groups) rest

-- The client whose latest attempt is oldest; the first of them, where SQL leaves a tie open.
unfoldable pub oldest_client : String × ℕ → List (String × ℕ) → String
oldest_client best [] = best.0
oldest_client best (g ∷ gs) =
    let keep = oldest_client best gs in
    let change = oldest_client g gs in if ltb g.1 best.1 then change else keep

unfoldable pub delete_oldest : List (String × ℕ) → PairingTables → PairingTables
delete_oldest [] t = t
delete_oldest (g ∷ gs) t = record t {
  failed_attempts = filter_by (λ a. not (str_eq a.0 (oldest_client g gs))) t.failed_attempts;
}

unfoldable pub evict_oldest_lockout_client : ℕ → PairingTables → PairingTables
evict_oldest_lockout_client max_clients t =
    let groups = group_clients [] t.failed_attempts in
    if ltb max_clients (length groups) then delete_oldest groups t else t
