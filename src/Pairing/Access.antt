-- ===== src/Pairing/Access.antt =====
-- crates/oxicrab-channels/src/utils/mod.rs, with the lists of
-- crates/oxicrab-core/src/config/schema/channels.rs: whether a sender may talk to the bot. The
-- database is absent where its file cannot be opened; the requester is the gateway's, over the store.
mod Onboarding
pub mod Steps
mod Tests
use Prim.Native.Char.{code}
use text.Mathlib.Text.{◌==◌ as str_eq}
use oxicrab.Base.{
  ℕ, Bool, true, false, not, ◌||◌, ◌&&◌, ◌==◌, String, Option, none, some, List, [], ◌∷◌, any,
  if◌then◌else◌,
}
use oxicrab.Base.Chars.{is_control}
use oxicrab.Base.Result.{Result, ok, err}
use oxicrab.Pairing.Tables.{PairingTables, is_sender_paired}
use oxicrab.Pairing.Store.{PairingError, request_pairing}

-- `trim_start_matches('+')`.
unfoldable pub trim_plus : String → String
trim_plus String.[] = ""
trim_plus (String.◌∷◌ c s) = let rest = trim_plus s in if code c == 43 then rest else String.◌∷◌ c s

unfoldable pub drop_control : String → String
drop_control String.[] = ""
drop_control (String.◌∷◌ c s) =
    let rest = drop_control s in if is_control c then rest else String.◌∷◌ c rest

unfoldable pub normalize_sender_id : String → String
normalize_sender_id sender = drop_control (trim_plus sender)

abbrev pub DenyByDefaultList : Type 0
DenyByDefaultList = List String

unfoldable pub is_empty_list : DenyByDefaultList → Bool
is_empty_list [] = true
is_empty_list (entry ∷ rest) = false

unfoldable pub allows : DenyByDefaultList → String → Bool
allows l id = not (is_empty_list l) && any (λ entry. str_eq entry id || str_eq entry "*") l

unfoldable pub allows_normalized : DenyByDefaultList → String → Bool
allows_normalized l id =
    let normalized = normalize_sender_id id in
    if is_empty_list l
    then false
    else any
        (λ entry.
          str_eq (normalize_sender_id entry) normalized || str_eq (normalize_sender_id entry) "*")
        l

pub data DmPolicy : Type 0 where
  dm_allowlist dm_pairing dm_open : DmPolicy

pub data DmCheckResult : Type 0 where
  allowed denied : DmCheckResult
  pairing_required : String → DmCheckResult

-- `is_sender_paired` of the channels: the sender as it is, then normalized.
unfoldable pub is_paired_sender : String → String → Option PairingTables → Bool
is_paired_sender channel sender none = false
is_paired_sender channel sender (some t) =
    if is_sender_paired channel sender t
    then true
    else if str_eq (normalize_sender_id sender) sender
    then false
    else is_sender_paired channel (normalize_sender_id sender) t

unfoldable pub check_allowed_sender :
    String → DenyByDefaultList → String → Option PairingTables → Bool
check_allowed_sender sender l channel db =
    if allows_normalized l sender then true else is_paired_sender channel sender db

unfoldable pub check_group_access : String → DenyByDefaultList → Bool
check_group_access group_id groups = allows groups group_id

-- The gateway's requester: a request that fails gives no code.
unfoldable pub code_given : Result PairingError (Option String) → DmCheckResult
code_given (ok (some code)) = pairing_required code
code_given (ok none) = denied
code_given (err e) = denied

-- A requester at the time `now` that would draw `code`, or none.
abbrev pub Requester : Type 0
Requester = Option (ℕ × String)

unfoldable pub ask_pairing :
    String → String → Requester → Option PairingTables → Option PairingTables × DmCheckResult
ask_pairing sender channel none db = (db, denied)
ask_pairing sender channel (some q) none = (none, denied)
ask_pairing sender channel (some q) (some t) =
    let (t', answer) = request_pairing q.0 q.1 channel sender t in (some t', code_given answer)

unfoldable pub is_open : DmPolicy → Bool
is_open dm_open = true
is_open dm_pairing = false
is_open dm_allowlist = false

unfoldable pub is_pairing : DmPolicy → Bool
is_pairing dm_open = false
is_pairing dm_pairing = true
is_pairing dm_allowlist = false

unfoldable pub check_dm_access :
    String
    → DenyByDefaultList
    → String
    → DmPolicy
    → Requester
    → Option PairingTables
    → Option PairingTables × DmCheckResult
check_dm_access sender l channel policy requester db =
    if is_open policy
    then (db, allowed)
    else if check_allowed_sender sender l channel db
    then (db, allowed)
    else if is_pairing policy
    then ask_pairing sender channel requester db
    else (db, denied)
