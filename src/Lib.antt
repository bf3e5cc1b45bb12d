-- ===== src/Lib.antt =====
-- slt: a VPN whose client and server speak a framed message protocol over TLS/TCP and, after an upgrade,
-- over UDP with QUIC-style short-header packets (UDP-QSP). This library models the wire protocol, the
-- UDP-QSP sessions with their packet keys and replay window, the address extraction of tunnelled packets, the
-- server's session registry and session handlers, the front door's classifiers and the configuration's validation.
--
-- Parts, and the files that model them (paths from the repository's root):
--   Proto/Kinds, Proto/Framing, Proto/Message: slt-core/src/proto/{types,framing,message}.rs. A buffer is a
--     list of bytes; `decode_frame`, `decode_message` and `decode_padded_message` read its front, and the
--     encoders append to an output. `Ok(None)`, an incomplete buffer, is `ok none`.
--   Proto/Payloads: slt-core/src/proto/payloads. Each payload type has `decode_X` and `encode_X` for its
--     `decode` and `encode` methods; Payloads/Codec states what a fixed layout promises.
--   Proto/Admissibility: slt-core/src/proto/admissibility.rs, against the table of
--     docs/protocol/connection-flow.md, section 8.3.
--   Cid: slt-core/src/types/cid.rs.
--   Qsp/Replay: `ReplayWindow` of slt-core/src/crypto/udp_qsp/session.rs, with the state passed on by
--     each operation, against a specification that remembers every accepted packet number.
--   Qsp/Pn, Qsp/Header: slt-core/src/crypto/udp_qsp/{pn,packet}.rs. A packet is a list of bytes.
--   Qsp/Backend, Qsp/Derivation, Qsp/Schedule, Qsp/Keys: backend.rs, derivation.rs, schedule.rs and mod.rs of
--     slt-core/src/crypto/udp_qsp/keys, with BoringSSL's primitives as the parameter of Qsp/Boring.
--   Qsp/Session: `QuicQspSession` of session.rs. `send` and `open_packet` take the session and return it with
--     their result; they use the keys through the interface of Qsp/Crypto, which Qsp/Keys/Sides fills.
--     Qsp/Session/Runs has the calls of a session's life as steps, Qsp/Session/EndToEnd puts two ends together.
--   Ipv4: slt-core/src/packet.rs, the addresses of a tunnelled packet.
--   Server/Registry: slt-server/src/registry.rs, one function for each method. Server/Registry/Reach has the
--     methods as steps, Server/Registry/Effects what they change.
--   Server/Upgrade: the state of an upgrade attempt and its history of stale IDs, from
--     slt-server/src/sessions/upgrade.rs and `UdpUpgradeState` of sessions/mod.rs. Server/Upgrade/Heard has the upgrade
--     IDs that were received, which are kept beside a session to say what its flags stand for.
--   Server/Sessions: `ClientSessionBase` of slt-server/src/sessions, a session's state passed on by each handler.
--     Egress, Handshake, Register, Forward, Tcp, Udp and Lifecycle have the functions of egress.rs, upgrade.rs,
--     register.rs, mod.rs, tcp.rs, udp.rs and lifecycle.rs; a session uses Registry, Qsp/Session and Proto. Its
--     input and output are calls to `Environment`, whose answers are functions of all earlier calls, so every
--     behaviour of sockets, timers and the tunnel is one of its values. Invariant has what the handlers keep, with
--     the turns of the event loop as steps in Invariant/Reach.
--   Claim: the front door's decision what is VPN traffic. Claim/Token is slt-core/src/crypto/client_hello.rs, the
--     token in a ClientHello; Claim/Tcp and Claim/Quic are the classifiers of slt-core/src/classifier.rs. A TLS
--     record reader is passed on with the bytes that it has read; Claim/Records says apart from the readers what a
--     stream of records carries.
--   Config/Server: the validation of the server's configuration, slt-core/src/config/{server,validate}.rs and
--     slt-core/src/types/{server_config,tun_config}.rs; Config/Clients has which clients it admits,
--     and Config/Subnet what the test of a subnet says.
--   Prelude: shared lists, bytes, bits, maps and results. Tests: concrete runs.
--
-- A message is decoded from a frame, checked for admissibility with its payload's decoder, and handed to a
-- session; the server finds the session of a datagram or a tunnelled packet in the registry, and the UDP
-- transport drops packets that the replay window refuses.
--
-- Conventions. A result is `ok`, `err`, or `panic`: slicing and indexing out of range panic, so a theorem
-- that excludes `panic` covers them. Numbers are natural numbers with the machine's bounds written out;
-- `usize` has 64 bits. Hash maps are functions from byte strings to options, and the sender of a
-- session's event channel is a type parameter. The registry's identifier counter saturates, so its theorems
-- ask for room below the 64-bit maximum; that no other client has a registered address is what the
-- server's configuration check establishes. Four loops have fuel, and running out of it is a
-- `panic`: the key rotation of `send`, with the packet number and two more, since each round raises the
-- threshold; the key expansion, with 256, since its counter is a byte; the reader of TLS
-- records, with the bytes left and one more, since each round takes a header or some bytes; and the reader of the
-- rest of a ClientHello, with the bytes that remain and one more.
--
-- Where the documents differ from the code, the model follows the code. The transmit keys rotate by the packet
-- number alone: docs/protocol/key-update.md, section 8, has a sender wait for packets with the new key phase before
-- it rotates again. A first packet below the expected number is too old: docs/protocol/udp-qsp.md, section 7, has
-- a first packet always accepted.
--
-- Not modelled: sockets, TLS, timers and task scheduling (input and output), so the I/O layer's errors in
-- `recv`; the AEAD, header-protection and MAC primitives (third-party); the shutdown of a
-- session, which cancels a running handler, and the client's side of the upgrade; the NAT
-- table of the QUIC front door; the parsing and the defaults of the configuration, and the client's
-- configuration; the command-line tools and the Android client.
pub mod Prelude
pub mod Cid
pub mod Proto
pub mod Qsp
pub mod Server
pub mod Claim
pub mod Config
pub mod Ipv4
pub mod Tests
