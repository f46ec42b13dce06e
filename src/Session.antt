-- ===== src/Session.antt =====
-- crates/oxicrab-memory/src/session/manager/mod.rs: a session's messages. The time of a call is its text
-- in RFC 3339; a JSON value is a text or something else, which is copied.
pub mod History
mod Tests
use text.Mathlib.Text.{◌==◌ as str_eq}
use oxicrab.Base.{
  ℕ, ◌-◌, Bool, true, false, not, ◌||◌, String, Option, none, some, ltb, List, [], ◌∷◌, ◌++◌, map,
  take, drop, length, if◌then◌else◌,
}
use oxicrab.Base.Text.{Text, codes}
use oxicrab.Base.Utf8.{floor_char_boundary}
use oxicrab.Base.Dict.{Dict, lookup, insert}

pub data Value {ℓ} (R : Type ℓ) : Type ℓ where
  string : Text → Value R
  other : R → Value R

pub record MessageData {ℓ} (R : Type ℓ) : Type ℓ where
  pub role : Text
  pub content : Text
  pub timestamp : Text
  pub extra : Dict (Value R)

pub record Session {ℓ} (R : Type ℓ) : Type ℓ where
  pub key : String
  pub messages : List (MessageData R)
  pub created_at : Text
  pub updated_at : Text
  pub metadata : Dict (Value R)

abbrev pub max_session_messages : ℕ
max_session_messages = 200

abbrev pub max_reasoning_chars : ℕ
max_reasoning_chars = 2000

unfoldable pub is_reserved : String → Bool
is_reserved k = (str_eq k "role" || str_eq k "content") || str_eq k "timestamp"

module _ {ℓ} {R : Type ℓ} where
  unfoldable pub new_session : String → Text → Session R
  new_session key now = record {
    key = key;
    messages = [];
    created_at = now;
    updated_at = now;
    metadata = [];
  }

  -- The reasoning of a message, cut at a character boundary.
  unfoldable pub cap_value : Option (Value R) → Dict (Value R) → Dict (Value R)
  cap_value none extra = extra
  cap_value (some (other v)) extra = extra
  cap_value (some (string rc)) extra =
      if ltb max_reasoning_chars (length rc)
      then insert "reasoning_content"
          (string (take (floor_char_boundary rc max_reasoning_chars) rc ++ codes "...[truncated]"))
          extra
      else extra

  unfoldable pub cap_reasoning : Dict (Value R) → Dict (Value R)
  cap_reasoning extra = cap_value (lookup "reasoning_content" extra) extra

  unfoldable pub message_of : Text → Text → Text → Dict (Value R) → MessageData R
  message_of now role content extra = record {
    role = role;
    content = content;
    timestamp = now;
    extra = cap_reasoning extra;
  }

  unfoldable pub prune_oldest : List (MessageData R) → List (MessageData R)
  prune_oldest messages =
      if ltb max_session_messages (length messages)
      then drop (length messages - max_session_messages) messages
      else messages

  unfoldable pub add_message : Text → Text → Text → Dict (Value R) → Session R → Session R
  add_message now role content extra s = record s {
    messages = prune_oldest (s.messages ++ (message_of now role content extra ∷ []));
    updated_at = now;
  }

  unfoldable pub copy_extra : Dict (Value R) → Dict (Value R) → Dict (Value R)
  copy_extra [] m = m
  copy_extra ((k, v) ∷ extra) m = copy_extra extra (if is_reserved k then m else insert k v m)

  unfoldable pub with_timestamp : Text → Dict (Value R) → Dict (Value R)
  with_timestamp [] m = m
  with_timestamp (c ∷ cs) m = insert "timestamp" (string (c ∷ cs)) m

  unfoldable pub message_to_map : MessageData R → Dict (Value R)
  message_to_map m = copy_extra m.extra (
      with_timestamp m.timestamp
        (insert "content" (string m.content) (insert "role" (string m.role) [])))

  unfoldable pub get_history : ℕ → Session R → List (Dict (Value R))
  get_history max_messages s =
      let start =
        if ltb max_messages (length s.messages) then length s.messages - max_messages else 0 in
      map message_to_map (drop start s.messages)

  unfoldable pub get_full_history : Session R → List (Dict (Value R))
  get_full_history s = map message_to_map s.messages
