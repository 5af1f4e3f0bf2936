-- ===== src/Lib.antt =====
-- OnionRoute: a VPN client whose traffic goes to gateways over Tor, and those gateways. This library
-- models the parts of it that decide: what may be sent, what is accepted, what is queued, and what a
-- client does when something fails.
--
-- The program's parts and their files here (the paths are the repository's):
--
-- GatewayProtocol: crates/gateway-protocol, the framed protocol between a client and a gateway.
--   Varint, Envelope, Framing: framing.rs. A frame is a canonical varint length and a protobuf
--     message. `push` is FrameDecoder::push, which takes the chunks that a transport delivers;
--     `read_frame` is the asynchronous reader, over the bytes that the stream will deliver;
--     `scan_gateway_envelope` checks the fields of the envelope before the message is decoded.
--   Flow: flow.rs, the FlowController: the ledger of credit of the connection and of each stream.
--   Scheduler: scheduler.rs, the FairScheduler: the bounded queues of what is to be sent.
--   Negotiation: negotiation.rs, the choice of a version at the handshake; Negotiation/Capabilities,
--     that of the capabilities and the client's check of it.
--   Messages: proto/gateway/v1, the messages, as the code that is generated from them has them.
--   Validation: validation.rs, the checks of a frame and of each kind of message (Validation/Fields,
--     Handshake and Streams).
--   Session: session.rs, the Session: its state and its guards. Session/Outbound has the calls by
--     which a side sends, Session/Inbound the flush and the receipt of a frame, Session/Flush the
--     loop of `flush_all`, Session/Handshake what the endpoints set when a step of the handshake is
--     done. Session/History puts the calls in histories: `run` are the calls, `live` has the
--     handshake's `configure_negotiated` too. Session/Advance is the contract of the calls, a
--     preorder on sessions, and Session/Steps, Calls and Traffic show that the steps and the calls
--     keep it; Session/Atomic is what a failing call undoes.
--   Binding, Client, Server: binding.rs, client.rs and server.rs, the two handshakes:
--     `connect_inner` and `accept_inner`, with the calls on the session that they make in `greet`
--     and `welcome`.
--   Limits, Error: limits.rs and error.rs.
--   A session calls the three in turn: a frame that the decoder yields becomes a call on the ledger,
--   and what the ledger permits is queued in the scheduler.
-- Client: crates/common-types, state.rs and error.rs: the client's connection states, the errors, and
--   the recovery that an error calls for.
-- Multihop: crates/gateway-multihop, quota.rs, route.rs and recovery.rs: what an entry gateway may use
--   at an exit, and the choice of an exit, at first and after a failure. Mux and Pool are mux.rs: the
--   queue of a relay's frames (Mux/Abstraction is the scheduler that it is) and the limits of its
--   connections.
-- PacketEngine: crates/packet-engine, packet.rs: the parsing of the tunnel's packets and the packets
--   that the engine makes, with their checksums.
-- Circuit: crates/circuit-manager, rotation.rs: the gate that keeps Tor contexts from rotating together.
-- Tokens: crates/auth-tokens. Error, Policy, Claims, Wire and Codec are error.rs, policy.rs, types.rs,
--   wire.rs and codec.rs, Issuer is issuer.rs, Verifier verifier.rs, Revocation revocation.rs, and
--   Replay replay.rs, the store of the sessions that tokens hold, which the verifier calls. The protobuf
--   coders, the signature scheme, the hash and the random bytes are parameters.
-- Policy: crates/policy-engine, lib.rs: the gateways of a route.
-- Prelude: the names that the modules share: Boolean tests and words, lists, results and methods, maps,
--   sets as lists of members, texts.
--
-- Conventions. A method with `&mut self` is a function of the state that returns the state beside
-- the result, so what an early return leaves changed is visible. A `BTreeMap` or `HashMap` is an
-- association list (Prelude/Maps): an old key keeps its place and a new one goes to the end. A set
-- is a list of its members. Machine words are natural numbers; where the code checks or saturates,
-- so does the model, at 2^32 and 2^64; `usize` has 64 bits. `Instant::now()` and the other clocks
-- are arguments, in whole units. The subtractions that saturate in the code stop at 0 here. A mutex
-- is the sequence of the calls that hold it; a poisoned lock is not modelled. The protobuf library
-- is a parameter of Framing: a decoding function of bytes, and a test of whether a message has a
-- body. It is one of the sessions too: `encode_message` stands for `encode_to_vec`, `decode_message`
-- for `GatewayFrame::decode`. A session's transport is not part of its state: what it will deliver
-- is an argument of `receive`, and whether it takes a frame one of `flush_one`. The handshakes take
-- the random bytes, SHA-256, the authenticator and the verifier of tokens as arguments.
-- Prelude/Keeps and Prelude/Outcomes have methods whose steps stay shut until a proof unfolds them.
--
-- Bounds and fuel. The varint decoders run over the bytes, at most 5 of a length prefix and 10
-- of a wire value, the bounds of the code. The loop of the envelope's scan and that of `flush_all`
-- give `none` if their rounds run out, which no end of theirs gives. The scan has one round more
-- than there are bytes, since each takes at least one; `flush_all` has one round more than there
-- are queued frames, of which each round but the last takes one. A checksum
-- folds its carries in at most four rounds, enough for 32 bits. All else is structural.
--
-- Not modelled: sockets, TLS, Tor, cryptography, the operating system's packet filters and the
-- services' databases, which the code calls; the timeouts around the two handshakes; the flows of
-- packet-engine; dns-engine, directory-client, gateway-daemon, the desktop client and the services.
pub mod Prelude
pub mod GatewayProtocol
pub mod Client
pub mod Multihop
pub mod Circuit
pub mod Tokens
pub mod Policy
pub mod PacketEngine
