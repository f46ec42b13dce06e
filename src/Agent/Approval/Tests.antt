-- ===== src/Agent/Approval/Tests.antt =====
-- The approval store over concrete channels: a function from channel numbers to their states.
use native.Mathlib.Decide.{ℕ_discrete}
use mathlib.Core.Logic.{ite}
use oxicrab.Base.{
  ℕ, Bool, true, false, ◌≡◌, ◌≢◌, ◌⊎◌, refl, Option, none, some, [], ◌∷◌, arith, if◌then◌else◌,
}
use oxicrab.Base.Result.{ok}
use oxicrab.Base.Dict.{lookup}
use oxicrab.Agent.Approval.{
  ApprovalDecision, approved, Oneshot, ApprovalEntry, ApprovalStore, resolve, wrong_channel,
  resolves, step,
}
use oxicrab.Agent.Approval.Laws.{step-Delivers, Delivers}

record Channel : Type 0 where
  gone : Bool
  inbox : Option ApprovalDecision

abbrev put : ℕ → Channel → (ℕ → Channel) → ℕ → Channel
put s c w t = ite (ℕ_discrete s t) c (w t)

abbrev send_channel : ℕ → ApprovalDecision → (ℕ → Channel) → (ℕ → Channel) × Bool
send_channel s d w =
    if (w s).gone then (w, false) else (put s (record { gone = false; inbox = some d }) w, true)

send-open_lem :
    (s : ℕ) (d : ApprovalDecision) (w : ℕ → Channel)
    → (w s).gone ≡ false
    → ((send_channel s d w).1 ≡ true) × (((send_channel s d w).0 s).inbox ≡ some d)
send-open_lem s d w h = ground arith

send-closed_lem :
    (s : ℕ) (d : ApprovalDecision) (w : ℕ → Channel)
    → (w s).gone ≡ true
    → send_channel s d w ≡ (w, false)
send-closed_lem s d w h = rw h

send-other_lem :
    (s t : ℕ) (d : ApprovalDecision) (w : ℕ → Channel)
    → s ≢ t
    → ((send_channel s d w).0 t).inbox ≡ (w t).inbox
send-other_lem s t d w h = ground arith

abbrev channels : Oneshot
channels = record {
  World = ℕ → Channel;
  Sender = ℕ;
  Sender_discrete = ℕ_discrete;
  received = λ s w. (w s).inbox;
  closed = λ s w. (w s).gone;
  send = send_channel;
  send_closed = send-closed_lem;
  send_open = send-open_lem;
  send_other = send-other_lem;
}

abbrev gmail : ApprovalEntry channels
gmail = record {
  sender = 5;
  tool_name = "gmail";
  action = "send";
  requested_by = "user1";
  operator_channel = "slack:C123";
}

abbrev idle : ℕ → Channel
idle n = record { gone = false; inbox = none }

abbrev store : ApprovalStore channels
store = record { pending = ("appr-1", gmail) ∷ []; world = idle }

resolves_ok :
    (resolve channels "appr-1" "slack:C123" approved store).1 ≡ ok ("gmail", "send", "user1")
unfolding resolve lookup wrong_channel
resolves_ok = refl

step-Delivers_example :
    (((step channels store (resolves "appr-1" "slack:C123" approved)).world 5).inbox
      ≡ (store.world 5).inbox)
    ⊎ Delivers channels 5 store (resolves "appr-1" "slack:C123" approved)
step-Delivers_example = step-Delivers channels 5 store (resolves "appr-1" "slack:C123" approved)
