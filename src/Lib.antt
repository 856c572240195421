-- ===== src/Lib.antt =====
-- meshly-core: a server that introduces the clients of a group to one another, and clients that publish
-- services and consume them over QUIC connections, directly or relayed by the server.
--
-- The parts and the files that model them:
-- * crates/common/src/alpn.rs, `Alpn`: which service names are accepted and the ALPN of each.
--   `Alpn.Grammar` is about the accepted names, `Alpn.Names` about the ALPNs.
-- * crates/common/src/protocol.rs, `Protocol`: the frames. `Protocol.Encode` has `encode_payload` and
--   `decode`, `Protocol.Wire` the framing `write_to` and `read_from`, `Protocol.Proof` the HMAC proof.
--   `Protocol.OpenPayload`, `RoundTrip`, `Stream`, `Panics` and `CutOpen` hold the proofs.
-- * crates/common/src/config.rs, `Config`: the configuration; `Config.Validate` has `validate` and `load`.
-- * crates/server/src/registry.rs, `Registry`: the server's state and each operation on it.
-- * crates/server/src/control.rs and `sweep_dead_sessions` of crates/server/src/main.rs, `Control`: a
--   control session as a step function from what happens on its streams to the new state of the
--   server, the phase of the session and the reply. It reads frames of `Protocol` and works on `Registry`.
-- * crates/server/src/ratelimit.rs, `RateLimit`: the token bucket and the throttled copy.
-- * crates/server/src/relay.rs, `Relay`: what becomes of a consumer's stream, and the task that relays it.
-- * the server as a whole, `System`: the control sessions of any number of connections, the sweeps and the
--   relay tasks as the steps of one relation. `System.Groups`, `Changes`, `Sessions`, `Events` and `Invariant` hold
--   what is true of every state that is reached; `System.Directory` is the abstract view, a function
--   from a group and a service to a provider, with the effect that each step has on it.
-- * crates/client/src/expose.rs, `Client` (`register_with_server`) and `Client.Provider` (the handlers):
--   `Client.Discovery` and `Subscription` run the client's requests against the server's `Control.step`.
-- * crates/client/src/consume.rs, `Client` (`subscribe`), `Client.Dial` (the two dials, as functions of a
--   network that answers what has been written on a stream; `Client.Dial.Agreement` puts the provider's
--   handler and the server's relay at its other end, `Client.Dial.Classify` has `is_auth_error`) and
--   `Client.Consumer` (`dial_stream`), which sleeps for the backoff that crates/client/src/main.rs clamps.
-- * crates/client/src/status.rs, `Client.Status`: what `--status` shows.
-- * crates/client/src/static_http.rs, `StaticHttp`: `Percent` decodes paths, `Feed` reads lines and headers
--   from the chunks that arrive, `Parse` a request, `Answers` builds the response to it, `Listing` a row of
--   a page, and `Serve` goes from the bytes of a request to those of its answer.
-- * crates/common/src/identity.rs, `Identity`: the key file, over files that are passed as state and calls
--   that may fail; `Identity.Whole` and `Identity.Persists` are about what a run leaves.
-- * crates/common/src/endpoint.rs, `Endpoint`: the two forms of an id's text.
-- `Common` holds what they share: results with panics, slices, UTF-8, little-endian words, maps, checks.
--
-- How the code is read. A number is a natural number; a word on the wire is written with `%` and `/`. A
-- `String` is the list of its UTF-8 bytes. A `HashMap`, `DashMap` or `HashSet` is a list of its entries in
-- some order, and theorems ask that no key stands twice where that matters. An `Arc<AtomicU64>` is the
-- index of a cell of the server's state, which the registry and the relay task share. A panic is a
-- third kind of result. Asynchronous code takes what its awaits bring as arguments: the events of a
-- control session, the rounds of `acquire` (what each reads from the clock and the handle), the chunks of
-- a copy, the rounds of a dial. These lists are finite and of any length, so there is no fuel to choose.
--
-- What an event of a session, a sweep or a relay task does to the server's state is one step of `System`;
-- the accesses of `drop_session` are also steps of their own, with other steps in between.
--
-- Given from outside, as parameters: the operations of `f64`, serde_json, the HMAC and its constant-time
-- comparison, TOML, the file system, the bytes of a `SecretKey`, `EndpointId` and its texts, and the parsers
-- of iroh and of hex, over which `Endpoint` has `parse_endpoint_id`; what calls that takes any such parser.
-- Of the client, also the file system under the static service, with `std::path`.
--
-- Not modelled: crates/common/src/tunnel.rs, the modes of the key file, the start-up and the status output
-- of both programs, the tasks that send heartbeats, the copies of `copy_bidirectional` and `bridge`, the
-- page around the rows of a listing, and the local listeners of the consumer.
-- The length of the sleeps of `acquire` is open.
pub mod Common
pub mod Alpn
pub mod Protocol
pub mod Config
pub mod Registry
pub mod Control
pub mod RateLimit
pub mod Relay
pub mod System
pub mod Client
pub mod StaticHttp
pub mod Endpoint
pub mod Identity
