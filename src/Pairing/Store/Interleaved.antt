-- ===== src/Pairing/Store/Interleaved.antt =====
-- Two requests of src/pairing/mod.rs whose statements interleave: both count the live requests before
-- either inserts its own. `issue` is what a request does after its checks.
use text.Mathlib.Text.{◌==◌ as str_eq}
use text.Mathlib.TextPositions.{eq_refl}
use oxicrab.Base.{
  ℕ, ◌+◌, ◌<◌, false, ◌&&◌, String, none, some, [], ◌∷◌, ◌≡◌, refl, arith, sym, ◌∙◌, any,
}
use oxicrab.Base.Result.{ok}
use oxicrab.Pairing.Tables.{
  PendingRequest, PairingTables, is_live, is_sender_paired, get_pending_for_sender,
  count_pending_for_channel,
}
use oxicrab.Pairing.Tables.Rows.{any-append, length-filter_by_snoc}
use oxicrab.Pairing.Store.{request_clean, issue}
use oxicrab.Pairing.Access.Steps.{with_row, issue_fresh, request_clean_fresh}

abbrev fresh_row : ℕ → String → String → String → PendingRequest
fresh_row now code channel sender = record {
  channel = channel;
  sender_id = sender;
  code = code;
  created_at = now;
}

count-with_row :
    (now : ℕ) (code channel sender : String) (t : PairingTables)
    → 0 < now
    → count_pending_for_channel now 900 channel (with_row (fresh_row now code channel sender) t)
      ≡ count_pending_for_channel now 900 channel t + 1
unfolding count_pending_for_channel
count-with_row now code channel sender t started = ground (
  arith,
  length-filter_by_snoc (λ r. str_eq r.channel channel && is_live now 900 r) t.pending
      (fresh_row now code channel sender),
  eq_refl channel,
)

unused-with_row :
    (now : ℕ) (code other channel sender : String) (t : PairingTables)
    → any (λ q. str_eq q.code other) t.pending ≡ false
    → str_eq code other ≡ false
    → any (λ q. str_eq q.code other) (with_row (fresh_row now code channel sender) t).pending
      ≡ false
unused-with_row now code other channel sender t unused differs =
    any-append (λ q. str_eq q.code other) t.pending (fresh_row now code channel sender ∷ [])
    ∙ ground arith

-- At a time after the epoch a channel has 2 live requests, and two senders, neither paired nor with a
-- live request, ask in it with two different drawn codes that no request has. On the tables as they are,
-- the checks let either sender go on to the insertion. If both are checked before the first insertion,
-- then both insertions succeed, each sender gets the code drawn for it, and the channel has 4 live
-- requests, one more than its cap.
pub interleaved_requests_exceed :
    (now : ℕ) (code other_code channel sender other_sender : String) (t : PairingTables)
    → 0 < now
    → is_sender_paired channel sender t ≡ false
    → is_sender_paired channel other_sender t ≡ false
    → count_pending_for_channel now 900 channel t ≡ 2
    → get_pending_for_sender now 900 channel sender t ≡ none
    → get_pending_for_sender now 900 channel other_sender t ≡ none
    → any (λ q. str_eq q.code code) t.pending ≡ false
    → any (λ q. str_eq q.code other_code) t.pending ≡ false
    → str_eq code other_code ≡ false
    → let (u, answer) = issue now code channel sender t in
      let (v, other_answer) = issue now other_code channel other_sender u in
      (request_clean now code channel sender t ≡ issue now code channel sender t)
      × (request_clean now other_code channel other_sender t
          ≡ issue now other_code channel other_sender t)
      × (answer ≡ ok (some code))
      × (other_answer ≡ ok (some other_code))
      × (count_pending_for_channel now 900 channel v ≡ 4)
interleaved_requests_exceed now code other_code channel sender other_sender t started unpaired
      other_unpaired two new other_new unused other_unused differs =
    let first = issue_fresh now code channel sender t unused in
    let u = with_row (fresh_row now code channel sender) t in
    let second : issue now other_code channel other_sender u
        ≡ (with_row (fresh_row now other_code channel other_sender) u, ok (some other_code)) =
      issue_fresh now other_code channel other_sender u
        (unused-with_row now code other_code channel sender t other_unused differs) in
    let goes_on = request_clean_fresh now code channel sender t unpaired (omega arith) new unused in
    let other_goes_on =
      request_clean_fresh now other_code channel other_sender t other_unpaired (omega arith)
        other_new other_unused in
    let four : count_pending_for_channel now 900 channel
          (with_row (fresh_row now other_code channel other_sender) u)
        ≡ 4 =
      omega (
        arith,
        count-with_row now other_code channel other_sender u started,
        count-with_row now code channel sender t started,
        two,
      ) in
    (
      goes_on ∙ sym first,
      other_goes_on ∙ sym (issue_fresh now other_code channel other_sender t other_unused),
      rw first refl,
      rw first (rw second refl),
      rw first (rw second four),
    )
