-- ===== src/Errors.antt =====
-- crates/oxicrab-core/src/errors/mod.rs: the typed errors, and `anyhow::Error` as either one of them
-- or a message.
use oxicrab.Base.{ℕ, Bool, true, false, Option}
use oxicrab.Base.Text.{Text}

mutual
  pub data OxicrabError : Type 0 where
    config : Text → OxicrabError
    provider : Text → Bool → OxicrabError
    rate_limit : Option ℕ → OxicrabError
    auth : Text → OxicrabError
    internal : AnyError → OxicrabError

  pub data AnyError : Type 0 where
    typed : OxicrabError → AnyError
    untyped : Text → AnyError

unfoldable pub is_retryable : OxicrabError → Bool
is_retryable (provider message retryable) = retryable
is_retryable (rate_limit retry_after) = true
is_retryable (internal e) = true
is_retryable (auth e) = false
is_retryable (config e) = false

-- `downcast_ref::<OxicrabError>()`.
unfoldable pub downcast_ref : AnyError → Option OxicrabError
downcast_ref (typed e) = Option.some e
downcast_ref (untyped message) = Option.none
