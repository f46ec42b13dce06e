-- ===== src/Bus/Queue/Tests.antt =====
-- The bus at concrete inputs.
use oxicrab.Base.{ℕ, true, false, ◌≡◌, ◌⊎◌, refl, String, arith, List, [], ◌∷◌, ◌++◌}
use oxicrab.Base.Text.{Text, codes}
use oxicrab.Base.Dict.{lookup, insert}
use oxicrab.Base.Result.{ok, err}
use oxicrab.Bus.Queue.{
  InboundMessage, OutboundMessage, LeakDetector, sent, BusError, new_bus, check_rate, endpoint_key,
  cutoff, retained, prune_large, limit_outbound, redacted, publish_outbound,
}
use oxicrab.Bus.Queue.Window.{IsLimited, observe_all, observe, rate_window}
use oxicrab.Bus.Queue.Publish.{publish_outbound_lem, IsScanned}

-- Two messages pass in a window of ten, the third does not, and one after the window does.
abbrev burst : List (String × ℕ)
burst = ("a", 100) ∷ ("b", 101) ∷ ("a", 102) ∷ ("a", 103) ∷ ("a", 111) ∷ []

burst_passes :
    (observe_all 2 10 "a" (record { stamps = []; passed = [] }) burst).passed ≡ 111 ∷ 102 ∷ 100 ∷ []
unfolding observe_all observe check_rate retained cutoff prune_large lookup insert
burst_passes = refl

rate_window_example :
    IsLimited 2 10 (observe_all 2 10 "a" (record { stamps = []; passed = [] }) burst).passed
rate_window_example = rate_window 2 10 50 "a" burst (omega arith) (omega arith) (omega arith)

abbrev hides_all : LeakDetector
hides_all = record {
  scan = λ s. true;
  scan_known_secrets = λ s. false;
  redact = λ s. codes "[redacted]";
}

abbrev reply : OutboundMessage (Unit {0})
reply = record { channel = "slack"; chat_id = "C1"; content = codes "key"; rest = tt }

publish_outbound_lem_example :
    let b = new_bus 30 60 in
    let (b', r) = publish_outbound hides_all false 100 sent reply b in
    let s = b.rate_state in
    (b'.inbound ≡ b.inbound)
    × (b'.rate_state.sender_timestamps ≡ s.sender_timestamps)
    × (((r ≡ ok tt)
          × (false ≡ false)
          × (sent ≡ sent)
          × ((check_rate s.outbound_rate_limit s.rate_window 100
                (endpoint_key "slack" "C1")
                s.outbound_timestamps).1
              ≡ true)
          × ((content : Text) × (b'.outbound
                ≡ b.outbound ++ (record reply { content = content } ∷ []))
              × (content ≡ redacted hides_all (limit_outbound (codes "key")))
              × IsScanned hides_all content))
        ⊎ (((e : BusError) × (r ≡ err e)) × (b'.outbound ≡ b.outbound)))
publish_outbound_lem_example = publish_outbound_lem hides_all false 100 sent reply (new_bus 30 60)

abbrev request : InboundMessage (Unit {0})
request = record { channel = "slack"; sender_id = "U1"; content = codes "hi"; rest = tt }
