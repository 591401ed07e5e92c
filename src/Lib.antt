-- ===== src/Lib.antt =====
-- A model of the Rust side of maxgame-admin-guard: the crate `maxion-admin-guard` (rust/src) and the
-- parts of the service template (template/src) that decide something.
--
-- The guard answers an admin's request. It verifies the bearer token offline (Token) with a key that
-- the JWKS client resolves (Jwks), checks the claims' grants (Access), and on a mutation asks the
-- identity provider whether the session is still active (Introspect) before it checks again (Guard).
-- Both clients go out behind a circuit breaker (Breaker). Destructive actions ask for a step-up as
-- well (StepUp). AxumExt is the middleware around the guard, and Template the configuration and the
-- errors of a service that uses it.
--
--   Base        Rust's Result and Option chains, i64 values, and the methods of `str`
--   Error       rust/src/error.rs
--   Json        the part of serde_json's values that the crate matches on
--   Access      rust/src/access.rs; Grants says what a claim grants without the code
--   Breaker     rust/src/circuit_breaker.rs; Permit is the permit, Calls runs of calls one after
--               another, Spec the two-mode machine that they amount to, System any interleaving
--               of the atomic operations, with the failures that it counts (Earned, Opens)
--   Clock       rust/src/clock.rs
--   Introspect  rust/src/introspect.rs; Client is rust/src/introspect_client.rs
--   Token       rust/src/token.rs
--   Guard       rust/src/guard.rs; Blame has the contract that its ports keep, and Wiring is
--               `AdminGuard::new`, over the two real clients
--   Jwks        rust/src/jwks.rs; Client is `AdminJwksClient`, and Client.System any interleaving of
--               tasks inside its `resolve_key`, with counts (Weights, Replaced),
--               what is out (Safety), the spacing of fetches (Floor), the steps left (Progress),
--               the way to the end (Kept, Drain), where keys come from (Origin), how old they get
--               (Age) and a notification that comes early (Early)
--   StepUp      rust/src/step_up.rs
--   AxumExt     rust/src/axum_ext.rs
--   Template    template/src/domain/error.rs and template/src/inbound/error.rs; Config is
--               template/src/config.rs, Example the pagination of template/src/inbound/example.rs,
--               Repo template/src/adapters and template/src/domain/mod.rs, Service the rest of
--               template/src/inbound, with Router for its router.rs, Boot template/src/main.rs, and
--               Server the signals of template/src/infrastructure/server.rs
--   Examples    concrete inputs for the theorems
--
-- A call that may change the world, such as a cache or the network, is a function from the world to
-- its result and the new world. The world of the guard and of the verifier is any type; that of a
-- client is the client's state with the state of a network, which is a parameter: it answers a request
-- or fails, and has a clock. A duration and an instant are nanoseconds. Several readings of the clock
-- within one section of code without an await are one reading. Every loop is structural recursion over
-- a list or a text, but for the decimal text of a number, whose fuel is the number and one more, and a
-- number has no more digits than that.
--
-- Parameters stand for the code of other crates: base64, the derived JSON readers, Ed25519, the
-- text of numbers in messages, the HTTP client, whose constructor may panic, and serde_json's
-- printing; for the service also where axum's `Router::nest` panics, which is assumed of no plain
-- rooted path, and axum's dispatch, which is assumed to take a registered route, and where no path
-- of the table is a pattern the one with exactly the path and method if there is one, axum's
-- server, which is assumed to end without an error only once it has been told to stop, tokio's
-- signals, and Postgres, of which a query's WHERE, ORDER BY, LIMIT and OFFSET are assumed to mean
-- what SQL says, with ties in any order. Logging is left out. Not modelled: the tests and their
-- fakes, but for the clock; what the CORS and trace layers do to a response; the drain of the
-- server's connections; the contract's documents and test vectors; and the JavaScript port.
pub mod Base
pub mod Error
pub mod Json
pub mod Access
pub mod Breaker
pub mod Clock
pub mod Introspect
pub mod Token
pub mod Guard
pub mod Jwks
pub mod StepUp
pub mod AxumExt
pub mod Template
pub mod Examples
