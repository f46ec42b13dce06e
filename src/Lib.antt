-- ===== src/Lib.antt =====
-- Oxicrab is a personal assistant that talks over chat channels and calls language models and tools. A
-- message arrives from a channel (crates/oxicrab-channels) on the message bus, the router decides
-- whether a tool can answer it at once, and otherwise the agent loop (src/agent) asks a chain of
-- language-model providers (crates/oxicrab-providers), runs the tools that they call, stashes what is
-- too long, asks for approval where a tool wants it, and answers through the bus. This library models
-- the parts whose state and decisions carry that path, in Rust as the repository has it, and states
-- what makes each of them correct.
--
-- Which file models which part:
--   Base, Base/*: the helpers. Strings are native strings, or lists of bytes (Base/Text, Base/Utf8)
--     where offsets count; a HashMap is an association list (Base/Dict); `Result` is Base/Result; `i64`
--     is a number below 2 ^ 64 with wrapping addition and the signed order (Base/Signed).
--   Errors: crates/oxicrab-core/src/errors/mod.rs (OxicrabError, and anyhow::Error as typed or not).
--   Provider/Breaker: crates/oxicrab-providers/src/circuit_breaker/mod.rs. `should_allow`,
--     `record_success` and `record_failure` are its three critical sections; `step` and `run` are the
--     interleavings of them by any tasks, and `chat` takes what others do meanwhile.
--   Provider/Fallback: crates/oxicrab-providers/src/fallback/mod.rs, the loop of `chat` as recursion on
--     the chain.
--   Agent/Approval: src/agent/approval/mod.rs, over an interface for tokio's oneshot channel.
--   Agent/Stash: src/agent/tools/stash/mod.rs, over an interface for the lru crate's cache.
--   Bus/Queue: src/bus/queue/mod.rs, with the outcome of a bounded send as an argument and the leak
--     detector as an interface.
--   Router/Triggers: crates/oxicrab-core/src/tools/base/routing_types.rs and the index of literals of
--     crates/oxicrab-router/src/context.rs, which crates/oxicrab-router/src/lib.rs builds again.
--   Router/Context: crates/oxicrab-router/src/context.rs; `ContextCall` is one call of a method that
--     changes the context, and `from_stored` takes the value that a stored context deserializes to.
--   Router/Rules: crates/oxicrab-router/src/rules.rs; JSON text and the regex are the interface
--     `Platform`.
--   Router/Route: crates/oxicrab-router/src/lib.rs and crates/oxicrab-core/src/dispatch/mod.rs; each
--     priority of `route_with_semantic` is a stage, and the stages are tried in the source's order.
--   UrlSecurity: crates/oxicrab-core/src/utils/url_security.rs; the parsed URL and the answer of the
--     name server are arguments.
--   EventMatcher: src/cron/event_matcher/mod.rs over the jobs of
--     crates/oxicrab-core/src/cron_types/mod.rs; a compiled regex is its test.
--   Pairing/Tables: the tables and statements of crates/oxicrab-memory/src/memory_db/pairing.rs;
--     Pairing/Store: src/pairing/mod.rs over them, the drawn code and the clock being arguments. A call
--     of the store is one step at one reading of the clock, while the source locks the database and
--     reads the clock for each statement, so theorems on calls are about calls that run one after
--     another, but for the two interleaved requests of Pairing/Store/Interleaved;
--     Pairing/Access: the access checks of crates/oxicrab-channels/src/utils/mod.rs over both.
--   Cron/Schedule, Cron/Service: src/cron/service/mod.rs, a tick of the polling loop being one function;
--     Cron/Table: the tables and statements of crates/oxicrab-memory/src/memory_db/cron.rs.
--   Shell/Commands, Shell/Paths, Shell/Guard: crates/oxicrab-tools-system/src/shell/mod.rs; a command
--     line is its bytes, and shlex, the file system and the structural analysis are arguments.
--   Dlq: crates/oxicrab-memory/src/memory_db/dlq.rs.
--   Session: the messages of crates/oxicrab-memory/src/session/manager/mod.rs.
--   Agent/Truncation: src/agent/truncation/mod.rs; the regular expressions are arguments.
--
-- How they meet: the breaker and the chain read the same errors (Errors), the router reads the context
-- that it is given and the index of Router/Triggers, and the stash and the bus cut texts by Base/Utf8.
-- The cron service and the event matcher share their jobs. The access checks ask the pairing store for a
-- code, and read the senders that an approval adds.
--
-- Bounds and fuel: every loop is recursion on the list or the number that it consumes. The only fuel is
-- that of `decimal` in Router/Rules and of `decimal_digits` in Agent/Truncation, 20 digits, which a
-- `usize` never exceeds; the search of a name's suffix in Cron/Table/Updates counts down the 10,000
-- candidates of the source. The release profile of Cargo.toml keeps overflow unchecked, so machine
-- integers wrap, and where a wrapped offset is sliced the model returns `panicked`, as does the guard of
-- the shell where it slices inside a character. Clocks are arguments, and a theorem about time says which
-- order of readings it supposes.
--
-- Not modelled: the HTTP clients of the providers, the channels, the gateway, the tools that call
-- services, the other SQLite stores and the command line, which are input and output around this core;
-- the manager that caches the sessions is not modelled either. Logging, metrics and the wording
-- of errors are left out throughout, but where a decision reads the wording (the classification of
-- transient errors) it is modelled.
pub mod Base
pub mod Errors
pub mod Provider
pub mod Agent
pub mod Bus
pub mod Router
pub mod UrlSecurity
pub mod EventMatcher
pub mod Pairing
pub mod Cron
pub mod Shell
pub mod Dlq
pub mod Session
