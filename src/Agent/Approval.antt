-- ===== src/Agent/Approval.antt =====
-- src/agent/approval/mod.rs: the store of pending approval requests. The mutex is held through each
-- operation, so operations are atomic. `tokio::sync::oneshot` is the parameter `Oneshot`.
mod Laws
mod Tests
use text.Mathlib.Text.{◌==◌ as str_eq}
use oxicrab.Base.{
  Bool, true, false, not, ◌&&◌, ◌≡◌, ◌≢◌, String, Option, none, some, if◌then◌else◌, List, [], map,
}
use oxicrab.Base.Result.{Result, ok, err}
use oxicrab.Base.Dict.{Dict, lookup, insert, remove}

pub data ApprovalDecision : Type 0 where
  approved : ApprovalDecision
  denied : Option String → ApprovalDecision

-- What the store relies on of a oneshot channel. `World` is the state of all channels; `received` is
-- what a channel's receiver was sent, `closed` tells that the receiver is gone. `send` fails, and
-- changes nothing, exactly when the receiver is gone.
pub record Oneshot : Type 1 where
  pub World : Type 0
  pub Sender : Type 0
  pub Sender_discrete : Discrete Sender
  pub received : Sender → World → Option ApprovalDecision
  pub closed : Sender → World → Bool
  pub send : Sender → ApprovalDecision → World → World × Bool
  pub send_closed :
      (s : Sender) (d : ApprovalDecision) (w : World) → closed s w ≡ true → send s d w ≡ (w, false)
  pub send_open :
      (s : Sender) (d : ApprovalDecision) (w : World)
      → closed s w ≡ false
      → ((send s d w).1 ≡ true) × (received s (send s d w).0 ≡ some d)
  pub send_other :
      (s t : Sender) (d : ApprovalDecision) (w : World)
      → s ≢ t
      → received t (send s d w).0 ≡ received t w

pub data ResolveError : Type 0 where
  already_resolved : ResolveError
  unauthorized_channel : String → ResolveError
  timed_out : ResolveError

module _ (o : Oneshot) where
  open o use {World, Sender, send}

  pub record ApprovalEntry : Type 0 where
    pub sender : Sender
    pub tool_name : String
    pub action : String
    pub requested_by : String
    pub operator_channel : String

  -- The store, with the channels that its senders belong to.
  pub record ApprovalStore : Type 0 where
    pub pending : Dict ApprovalEntry
    pub world : World

  unfoldable pub new : World → ApprovalStore
  new w = record { pending = []; world = w }

  unfoldable pub register : String → ApprovalEntry → ApprovalStore → ApprovalStore
  register approval_id entry s = record s { pending = insert approval_id entry s.pending }

  -- An empty operator channel accepts any source.
  unfoldable pub wrong_channel : ApprovalEntry → String → Bool
  wrong_channel entry source_channel =
      not (str_eq entry.operator_channel "") && not (str_eq source_channel entry.operator_channel)

  deliver :
      ApprovalEntry
      → ApprovalDecision
      → ApprovalStore
      → ApprovalStore × Result ResolveError (String × String × String)
  deliver entry decision s =
      let (w, sent) = send entry.sender decision s.world in
      (
        record s { world = w },
        (if sent then ok (entry.tool_name, entry.action, entry.requested_by) else err timed_out),
      )

  resolve_entry :
      String
      → String
      → ApprovalDecision
      → ApprovalStore
      → Option ApprovalEntry
      → ApprovalStore × Result ResolveError (String × String × String)
  unfolding deliver
  resolve_entry approval_id source_channel decision s none = (s, err already_resolved)
  resolve_entry approval_id source_channel decision s (some entry) =
      let taken : ApprovalStore = record s { pending = remove approval_id s.pending } in
      if wrong_channel entry source_channel
      then (
        record s { pending = insert approval_id entry taken.pending },
        err (unauthorized_channel entry.tool_name),
      )
      else deliver entry decision taken

  unfoldable pub resolve :
      String
      → String
      → ApprovalDecision
      → ApprovalStore
      → ApprovalStore × Result ResolveError (String × String × String)
  unfolding resolve_entry
  resolve approval_id source_channel decision s =
      resolve_entry approval_id source_channel decision s (lookup approval_id s.pending)

  -- `ApprovalStore::remove`.
  unfoldable pub cancel : String → ApprovalStore → ApprovalStore
  cancel approval_id s = record s { pending = remove approval_id s.pending }

  unfoldable pub pending_ids : ApprovalStore → List String
  pending_ids s = map (λ e. e.0) s.pending

  -- One call on the store.
  pub data Call : Type 0 where
    registers : String → ApprovalEntry → Call
    resolves : String → String → ApprovalDecision → Call
    cancels : String → Call

  unfoldable pub step : ApprovalStore → Call → ApprovalStore
  step s (registers id entry) = register id entry s
  step s (resolves id source decision) = (resolve id source decision s).0
  step s (cancels id) = cancel id s
