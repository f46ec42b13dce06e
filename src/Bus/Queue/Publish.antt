-- ===== src/Bus/Queue/Publish.antt =====
-- What a publication does to the bus, on every path.
use oxicrab.Base.{
  ℕ, Bool, true, false, ◌≡◌, ◌⊎◌, inl, inr, refl, arith, [], ◌∷◌, ◌++◌, Bool-cases, ◌||◌,
}
use oxicrab.Base.Text.{Text}
use oxicrab.Base.Result.{ok, err}
use oxicrab.Bus.Queue.{
  InboundMessage, OutboundMessage, MessageBus, LeakDetector, SendOutcome, sent, timed_out,
  receiver_closed, BusError, check_rate, endpoint_key, limit_inbound, limit_outbound, redacted,
  publish_inbound, publish_outbound,
}

-- A content that may leave: neither scan finds anything in it, or it came out of the redaction.
abbrev pub IsScanned : LeakDetector → Text → Type 0
IsScanned detector content =
    ((detector.scan content ≡ false) × (detector.scan_known_secrets content ≡ false))
    ⊎ ((c : Text) × (content ≡ detector.redact c))

redacted-IsScanned :
    (detector : LeakDetector) (content : Text) → IsScanned detector (redacted detector content)
unfolding redacted
redacted-IsScanned detector content =
    elim (Bool-cases (detector.scan content || detector.scan_known_secrets content)) [
      | inl found ↦ rw found (inr (content, refl))
      | inr clean ↦ rw clean (inl (ground (arith, clean), ground (arith, clean)))
    ]

module _ {ℓ} {R : Type ℓ} where
  abbrev passes_outbound : ℕ → OutboundMessage R → MessageBus R → Bool
  passes_outbound now msg b =
      let s = b.rate_state in
      (check_rate s.outbound_rate_limit s.rate_window now (endpoint_key msg.channel msg.chat_id)
        s.outbound_timestamps).1

  abbrev passes_inbound : ℕ → InboundMessage R → MessageBus R → Bool
  passes_inbound now msg b =
      let s = b.rate_state in
      (check_rate s.rate_limit s.rate_window now (endpoint_key msg.channel msg.sender_id)
        s.sender_timestamps).1

  -- An outbound publication succeeds only if the lock holds, the rate check passes and the send does;
  -- then exactly one message is queued behind the others, to the same destination, and its content
  -- is the size-limited content after the scan. In every other case the outbound queue is unchanged.
  -- The inbound side never changes.
  pub publish_outbound_lem :
      (detector : LeakDetector) (poisoned : Bool) (now : ℕ) (outcome : SendOutcome)
      (msg : OutboundMessage R) (b : MessageBus R)
      → let (b', r) = publish_outbound detector poisoned now outcome msg b in
        let s = b.rate_state in
        (b'.inbound ≡ b.inbound)
        × (b'.rate_state.sender_timestamps ≡ s.sender_timestamps)
        × (((r ≡ ok tt)
              × (poisoned ≡ false)
              × (outcome ≡ sent)
              × ((check_rate s.outbound_rate_limit s.rate_window now
                    (endpoint_key msg.channel msg.chat_id)
                    s.outbound_timestamps).1
                  ≡ true)
              × ((content : Text) × (b'.outbound
                    ≡ b.outbound ++ (record msg { content = content } ∷ []))
                  × (content ≡ redacted detector (limit_outbound msg.content))
                  × IsScanned detector content))
            ⊎ (((e : BusError) × (r ≡ err e)) × (b'.outbound ≡ b.outbound)))
  unfolding publish_outbound
  publish_outbound_lem detector true now outcome msg b = (refl, refl, inr ((_, refl), refl))
  publish_outbound_lem detector false now sent msg b =
      elim (Bool-cases (passes_outbound now msg b)) [
        | inl e ↦ rw e (
          refl,
          refl,
          inl (
            refl,
            refl,
            refl,
            refl,
            (_, refl, refl, redacted-IsScanned detector (limit_outbound msg.content)),
          ),
        )
        | inr e ↦ rw e (refl, refl, inr ((_, refl), refl))
      ]
  publish_outbound_lem detector false now timed_out msg b =
      elim (Bool-cases (passes_outbound now msg b)) [
        | inl e ↦ rw e (refl, refl, inr ((_, refl), refl))
        | inr e ↦ rw e (refl, refl, inr ((_, refl), refl))
      ]
  publish_outbound_lem detector false now receiver_closed msg b =
      elim (Bool-cases (passes_outbound now msg b)) [
        | inl e ↦ rw e (refl, refl, inr ((_, refl), refl))
        | inr e ↦ rw e (refl, refl, inr ((_, refl), refl))
      ]

  -- An inbound publication succeeds only if the lock holds, the rate check of its sender passes and
  -- the send does; then exactly one message is queued behind the others, from the same channel and
  -- sender, with the size-limited content. In every other case the inbound queue is unchanged. The
  -- outbound side never changes.
  pub publish_inbound_lem :
      (poisoned : Bool) (now : ℕ) (outcome : SendOutcome) (msg : InboundMessage R)
      (b : MessageBus R)
      → let (b', r) = publish_inbound poisoned now outcome msg b in
        let s = b.rate_state in
        (b'.outbound ≡ b.outbound)
        × (b'.rate_state.outbound_timestamps ≡ s.outbound_timestamps)
        × (((r ≡ ok tt)
              × (outcome ≡ sent)
              × ((check_rate s.rate_limit s.rate_window now
                    (endpoint_key msg.channel msg.sender_id)
                    s.sender_timestamps).1
                  ≡ true)
              × (b'.inbound
                  ≡ b.inbound ++ (record msg { content = limit_inbound msg.content } ∷ [])))
            ⊎ (((e : BusError) × (r ≡ err e)) × (b'.inbound ≡ b.inbound)))
  unfolding publish_inbound
  publish_inbound_lem true now outcome msg b = (refl, refl, inr ((_, refl), refl))
  publish_inbound_lem false now sent msg b = elim (Bool-cases (passes_inbound now msg b)) [
    | inl e ↦ rw e (refl, refl, inl (refl, refl, refl, refl))
    | inr e ↦ rw e (refl, refl, inr ((_, refl), refl))
  ]
  publish_inbound_lem false now timed_out msg b = elim (Bool-cases (passes_inbound now msg b)) [
    | inl e ↦ rw e (refl, refl, inr ((_, refl), refl))
    | inr e ↦ rw e (refl, refl, inr ((_, refl), refl))
  ]
  publish_inbound_lem false now receiver_closed msg b =
      elim (Bool-cases (passes_inbound now msg b)) [
        | inl e ↦ rw e (refl, refl, inr ((_, refl), refl))
        | inr e ↦ rw e (refl, refl, inr ((_, refl), refl))
      ]
