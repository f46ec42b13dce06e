-- ===== src/Pairing/Store/History.antt =====
-- Who is paired, against what the store gave out and what it was asked.
use text.Mathlib.Text.{◌==◌ as str_eq}
use text.Mathlib.TextPositions.{eq_refl}
use oxicrab.Base.{
  length, ℕ, ◌-◌, ◌<◌, Bool, true, false, ◌&&◌, String, Option, none, some, List, [], ◌∷◌, ◌++◌,
  ◌≡◌, arith, any, filter_by, All, All-filter_by, Bool-cases, Option-cases, inl, inr, if◌then◌else◌,
  leb, ltb,
}
use oxicrab.Base.Result.{Result, ok, err}
use oxicrab.Pairing.Tables.{
  PendingRequest, PairingTables, add_pending_request, evict_oldest_lockout_client, delete_oldest,
  is_sender_paired, get_pending_for_sender, group_clients, count_pending_for_channel,
}
use oxicrab.Pairing.Tables.Rows.{All-append, All-map}
use oxicrab.Pairing.Store.{
  PairingError, request_pairing, request_clean, issue, approve_with_client, revoke,
}
use oxicrab.Pairing.Store.Caps.{PairingCall, request, approval, revocation}

-- What an observer sees of a call: a code given out for a sender, and a sender approved by a code.
pub data PairingEvent : Type 0 where
  given : ℕ → String → String → String → PairingEvent
  approved : ℕ → String → String → String → PairingEvent

unfoldable pub is_given : String → String → String → ℕ → PairingEvent → Bool
is_given channel sender code since (given at c s k) =
    (str_eq c channel && str_eq s sender) && (str_eq k code && ltb since at)
is_given channel sender code since (approved at c s k) = false

unfoldable pub is_approved : String → String → PairingEvent → Bool
is_approved channel sender (given at c s k) = false
is_approved channel sender (approved at c s k) = str_eq c channel && str_eq s sender

-- Each approval has its code given out for that very sender less than 15 minutes before.
abbrev pub IsJustified : List PairingEvent → Type 0
IsJustified [] = Unit
IsJustified (given at c s k ∷ h) = IsJustified h
IsJustified (approved at c s k ∷ h) = (any (is_given c s k (at - 900)) h ≡ true) × IsJustified h

pub record Trace : Type 0 where
  pub tables : PairingTables
  pub history : List PairingEvent

unfoldable pub seen_request :
    ℕ
    → String
    → String
    → Result PairingError (Option String)
    → List PairingEvent
    → List PairingEvent
seen_request now channel sender (ok (some code)) h = given now channel sender code ∷ h
seen_request now channel sender (ok none) h = h
seen_request now channel sender (err e) h = h

unfoldable pub seen_approval :
    ℕ
    → String
    → Result PairingError (Option (String × String))
    → List PairingEvent
    → List PairingEvent
seen_approval now code (ok (some (channel, sender))) h = approved now channel sender code ∷ h
seen_approval now code (ok none) h = h
seen_approval now code (err e) h = h

-- A call, with its event; the code of an approval is compared in upper case.
unfoldable pub observe : (String → String) → PairingCall → Trace → Trace
observe up (request now code channel sender) s =
    let (t, answer) = request_pairing now code channel sender s.tables in
    record { tables = t; history = seen_request now channel sender answer s.history }
observe up (approval now code client) s =
    let (t, answer) = approve_with_client up now code client s.tables in
    record { tables = t; history = seen_approval now (up code) answer s.history }
observe up (revocation now channel sender) s = record s {
  tables = (revoke channel sender s.tables).0;
}

unfoldable pub observe_all : (String → String) → List PairingCall → Trace → Trace
observe_all up [] s = s
observe_all up (call ∷ calls) s = observe_all up calls (observe up call s)

-- A pending row's code was given out when the row was made, and a paired sender was approved.
unfoldable pub IsGiven : List PairingEvent → PendingRequest → Type 0
IsGiven h r =
    (since : ℕ) → since < r.created_at → any (is_given r.channel r.sender_id r.code since) h ≡ true

unfoldable pub IsAllowed : List PairingEvent → String × String → Type 0
IsAllowed h row = any (is_approved row.0 row.1) h ≡ true

pub record Known (t : PairingTables) (h : List PairingEvent) : Type 0 where
  pub given_out : All (IsGiven h) t.pending
  pub allowed_by : All (IsAllowed h) t.allowlist
  pub justified : IsJustified h

-- More history.
pub IsGiven-cons :
    (e : PairingEvent) (h : List PairingEvent) (r : PendingRequest)
    → IsGiven h r
    → IsGiven (e ∷ h) r
unfolding IsGiven
IsGiven-cons e h r g since later = ground (arith, g since later)

pub IsAllowed-cons :
    (e : PairingEvent) (h : List PairingEvent) (row : String × String)
    → IsAllowed h row
    → IsAllowed (e ∷ h) row
unfolding IsAllowed
IsAllowed-cons e h row a = ground arith

Known-given :
    (now : ℕ) (channel sender code : String) (t : PairingTables) (h : List PairingEvent)
    → Known t h
    → Known t (given now channel sender code ∷ h)
Known-given now channel sender code t h v = record {
  given_out =
      All-map (IsGiven h) (IsGiven (given now channel sender code ∷ h)) t.pending
        (IsGiven-cons (given now channel sender code) h) v.given_out;
  allowed_by =
      All-map (IsAllowed h) (IsAllowed (given now channel sender code ∷ h)) t.allowlist
        (IsAllowed-cons (given now channel sender code) h) v.allowed_by;
  justified = v.justified;
}

module _ (h : List PairingEvent) where
  pub Known-pending :
      (t : PairingTables) (p : PendingRequest → Bool)
      → Known t h
      → Known (record t { pending = filter_by p t.pending }) h
  Known-pending t p v = record {
    given_out = All-filter_by (IsGiven h) p t.pending v.given_out;
    allowed_by = v.allowed_by;
    justified = v.justified;
  }

  pub Known-failed :
      (t : PairingTables) (rows : List (String × ℕ))
      → Known t h
      → Known (record t { failed_attempts = rows }) h
  Known-failed t rows v = record {
    given_out = v.given_out;
    allowed_by = v.allowed_by;
    justified = v.justified;
  }

  pub Known-evict : (t : PairingTables) → Known t h → Known (evict_oldest_lockout_client 1000 t) h
  unfolding evict_oldest_lockout_client delete_oldest
  Known-evict t v = evicted (group_clients [] t.failed_attempts)
    where
      deleted : (groups : List (String × ℕ)) → Known (delete_oldest groups t) h
      deleted [] = v
      deleted (g ∷ gs) = Known-failed t _ v

      evicted :
          (groups : List (String × ℕ))
          → Known (if ltb 1000 (length groups) then delete_oldest groups t else t) h
      evicted groups = elim (Bool-cases (ltb 1000 (length groups))) [
        | inl e ↦ rw e (deleted groups)
        | inr e ↦ rw e v
      ]

IsGiven-fresh :
    (row : PendingRequest) (h : List PairingEvent)
    → IsGiven (given row.created_at row.channel row.sender_id row.code ∷ h) row
unfolding IsGiven is_given
IsGiven-fresh row h since later =
    ground (arith, eq_refl row.channel, eq_refl row.sender_id, eq_refl row.code)

-- The event of a request and the request.
issue-Known :
    (now : ℕ) (code channel sender : String) (t : PairingTables) (h : List PairingEvent)
    → Known t h
    → let (t', answer) = issue now code channel sender t in
      Known t' (seen_request now channel sender answer h)
unfolding seen_request issue add_pending_request
issue-Known now code channel sender t h v =
    let row : PendingRequest = record {
      channel = channel;
      sender_id = sender;
      code = code;
      created_at = now;
    } in
    elim (Bool-cases (any (λ q. str_eq q.code code) t.pending)) [
      | inl e ↦ rw (e, issue, add_pending_request, seen_request) v
      | inr e ↦ rw (e, issue, add_pending_request, seen_request) (added row)
    ]
  where
    added :
        (row : PendingRequest)
        → Known
            (record t { pending = t.pending ++ (row ∷ []) })
            (given row.created_at row.channel row.sender_id row.code ∷ h)
    added row = record {
      given_out =
          All-append (IsGiven (given row.created_at row.channel row.sender_id row.code ∷ h))
            t.pending (row ∷ [])
            (Known-given row.created_at row.channel row.sender_id row.code t h v).given_out
            (IsGiven-fresh row h, tt);
      allowed_by = (Known-given row.created_at row.channel row.sender_id row.code t h v).allowed_by;
      justified = v.justified;
    }

pub request_clean-Known :
    (now : ℕ) (code channel sender : String) (t : PairingTables) (h : List PairingEvent)
    → Known t h
    → let (t', answer) = request_clean now code channel sender t in
      Known t' (seen_request now channel sender answer h)
unfolding request_clean seen_request
request_clean-Known now code channel sender t h v =
    elim (Bool-cases (is_sender_paired channel sender t)) [
      | inl e ↦ rw e v
      | inr e ↦ elim (Bool-cases (leb 3 (count_pending_for_channel now 900 channel t))) [
        | inl f ↦ rw (e, f) v
        | inr f ↦ elim (Option-cases (get_pending_for_sender now 900 channel sender t)) [
          | inr (r, g) ↦ rw (e, f, g) (Known-given now channel sender r.code t h v)
          | inl g ↦ rw (e, f, g) (issue-Known now code channel sender t h v)
        ]
      ]
    ]
