-- ===== src/Bus/Queue.antt =====
-- src/bus/queue/mod.rs: the message bus with its size limits, its rate limits and the scan of what
-- leaves. Instants and durations are nanoseconds; an instant before the clock's origin cannot be
-- represented (`checked_sub` fails). The bounded channels of tokio appear by the outcome of a send,
-- and the leak detector (crates/oxicrab-safety) by the interface `LeakDetector`.
mod Window
mod Truncation
mod Publish
mod Tests
use Prim.Native.String.{◌++◌ as ◌++ₛ◌}
use mathlib.Core.Option
use oxicrab.Base.{
  ℕ, zero, suc, ◌+◌, ◌-◌, Bool, true, false, not, ◌||◌, ◌&&◌, String, Option, none, some,
  if◌then◌else◌, leb, ltb, List, [], ◌∷◌, ◌++◌, length, any, filter_by, take,
}
use oxicrab.Base.Text.{Text}
use oxicrab.Base.Result.{Result, ok, err}
use oxicrab.Base.Dict.{Dict, lookup, insert}
use oxicrab.Base.Utf8.{is_char_boundary, floor_char_boundary}

abbrev pub default_outbound_rate_limit : ℕ
default_outbound_rate_limit = 60

abbrev pub max_inbound_content_len : ℕ
max_inbound_content_len = 1000000

abbrev pub max_outbound_content_len : ℕ
max_outbound_content_len = 1000000

abbrev pub max_tracked_endpoints : ℕ
max_tracked_endpoints = 5000

-- `rest` stands for the fields that the bus does not look at.
pub record InboundMessage {ℓ} (R : Type ℓ) : Type ℓ where
  pub channel : String
  pub sender_id : String
  pub content : Text
  pub rest : R

pub record OutboundMessage {ℓ} (R : Type ℓ) : Type ℓ where
  pub channel : String
  pub chat_id : String
  pub content : Text
  pub rest : R

pub record RateLimitState : Type 0 where
  pub rate_limit : ℕ
  pub outbound_rate_limit : ℕ
  pub rate_window : ℕ
  pub sender_timestamps : Dict (List ℕ)
  pub outbound_timestamps : Dict (List ℕ)

-- The bus, with the messages that its two channels hold.
pub record MessageBus {ℓ} (R : Type ℓ) : Type ℓ where
  pub inbound : List (InboundMessage R)
  pub outbound : List (OutboundMessage R)
  pub rate_state : RateLimitState

-- What the scans and the redaction of the leak detector are to the bus.
pub record LeakDetector : Type 0 where
  pub scan : Text → Bool
  pub scan_known_secrets : Text → Bool
  pub redact : Text → Text

-- How a send on a bounded channel ends within its timeout.
pub data SendOutcome : Type 0 where
  sent timed_out receiver_closed : SendOutcome

pub data BusError : Type 0 where
  lock_poisoned send_timed_out send_closed : BusError
  rate_limited : String → BusError

-- `now.checked_sub(window).unwrap_or(now)`.
unfoldable pub cutoff : ℕ → ℕ → ℕ
cutoff now window = if leb window now then now - window else now

-- `entry(key).or_default()`.
abbrev pub stamps_of : String → Dict (List ℕ) → List ℕ
stamps_of key d = Option.get_or (lookup key d) []

-- The map without the entries that have no timestamp within the window.
unfoldable pub prune : ℕ → ℕ → Dict (List ℕ) → Dict (List ℕ)
prune now window d = filter_by (λ e. any (λ t. ltb (now - t) window) e.1) d

unfoldable pub prune_large : ℕ → ℕ → Dict (List ℕ) → Dict (List ℕ)
prune_large now window d = if ltb max_tracked_endpoints (length d) then prune now window d else d

unfoldable pub retained : ℕ → ℕ → String → Dict (List ℕ) → List ℕ
retained now window key d = filter_by (λ t. ltb (cutoff now window) t) (stamps_of key d)

-- The rate-limit check of one message: the map afterwards, and whether the message passes.
unfoldable pub check_rate : ℕ → ℕ → ℕ → String → Dict (List ℕ) → Dict (List ℕ) × Bool
check_rate limit window now key d =
    let kept = retained now window key d in
    if leb limit (length kept)
    then (insert key kept d, false)
    else (prune_large now window (insert key (kept ++ (now ∷ [])) d), true)

-- The loop that steps back to a character boundary.
unfoldable pub step_back : Text → ℕ → ℕ
step_back content zero = 0
step_back content (suc pos) =
    let earlier = step_back content pos in
    if not (is_char_boundary content (suc pos)) then earlier else suc pos

unfoldable pub limit_inbound : Text → Text
limit_inbound content =
    if ltb max_inbound_content_len (length content)
    then take (step_back content max_inbound_content_len) content
    else content

unfoldable pub limit_outbound : Text → Text
limit_outbound content =
    if ltb max_outbound_content_len (length content)
    then take (floor_char_boundary content max_outbound_content_len) content
    else content

-- `format!("{a}:{b}")`.
unfoldable pub endpoint_key : String → String → String
endpoint_key a b = a ++ₛ (":" ++ₛ b)

unfoldable pub redacted : LeakDetector → Text → Text
redacted detector content =
    if detector.scan content || detector.scan_known_secrets content
    then detector.redact content
    else content

module _ {ℓ} {R : Type ℓ} where
  -- `with_leak_detector`, with the window already a duration.
  unfoldable pub new_bus : ℕ → ℕ → MessageBus R
  new_bus limit window = record {
    inbound = [];
    outbound = [];
    rate_state = record {
      rate_limit = limit;
      outbound_rate_limit = default_outbound_rate_limit;
      rate_window = window;
      sender_timestamps = [];
      outbound_timestamps = [];
    };
  }

  enqueue_inbound :
      SendOutcome → InboundMessage R → MessageBus R → MessageBus R × Result BusError (Unit {0})
  enqueue_inbound sent msg b = (record b { inbound = b.inbound ++ (msg ∷ []) }, ok tt)
  enqueue_inbound timed_out msg b = (b, err send_timed_out)
  enqueue_inbound receiver_closed msg b = (b, err send_closed)

  enqueue_outbound :
      SendOutcome → OutboundMessage R → MessageBus R → MessageBus R × Result BusError (Unit {0})
  enqueue_outbound sent msg b = (record b { outbound = b.outbound ++ (msg ∷ []) }, ok tt)
  enqueue_outbound timed_out msg b = (b, err send_timed_out)
  enqueue_outbound receiver_closed msg b = (b, err send_closed)

  -- `poisoned` tells whether the lock of the rate state is; `now` is read inside it.
  unfoldable pub publish_inbound :
      Bool
      → ℕ
      → SendOutcome
      → InboundMessage R
      → MessageBus R
      → MessageBus R × Result BusError (Unit {0})
  unfolding enqueue_inbound
  publish_inbound poisoned now outcome msg b =
      let key = endpoint_key msg.channel msg.sender_id in
      let s = b.rate_state in
      let (d, passes) = check_rate s.rate_limit s.rate_window now key s.sender_timestamps in
      let b' : MessageBus R = record b { rate_state = record s { sender_timestamps = d } } in
      if poisoned
      then (b, err lock_poisoned)
      else if passes
      then enqueue_inbound outcome (record msg { content = limit_inbound msg.content }) b'
      else (b', err (rate_limited key))

  unfoldable pub publish_outbound :
      LeakDetector
      → Bool
      → ℕ
      → SendOutcome
      → OutboundMessage R
      → MessageBus R
      → MessageBus R × Result BusError (Unit {0})
  unfolding enqueue_outbound
  publish_outbound detector poisoned now outcome msg b =
      let key = endpoint_key msg.channel msg.chat_id in
      let s = b.rate_state in
      let (d, passes) =
        check_rate s.outbound_rate_limit s.rate_window now key s.outbound_timestamps in
      let b' : MessageBus R = record b { rate_state = record s { outbound_timestamps = d } } in
      if poisoned
      then (b, err lock_poisoned)
      else if passes
      then enqueue_outbound outcome
          (record msg { content = redacted detector (limit_outbound msg.content) }) b'
      else (b', err (rate_limited key))
