-- ===== src/Qsp/Session/EndToEnd.antt =====
-- A packet between the two ends of a session: `send` of slt-core/src/crypto/udp_qsp/session.rs at the one, the network,
-- and `open_packet` at the other, with the packet keys of keys/mod.rs.
use slt.Prelude.{
  ℕ, ◌≡◌, refl, ap, List, [], ◌++◌, length, replicate, Bool, true, false, none, some, Bool-cases,
  inl, inr, ok,
}
use slt.Cid
use slt.Proto.Message.{Message, MessageLimits, encode_message, decode_padded_message}
use slt.Proto.Message.RoundTrip.{Admits, decode_message-encode_message}
use slt.Qsp.Boring.{Boring, BoringLaws}
use slt.Qsp.Crypto.{Crypto, OpenedPacket}
use slt.Qsp.Keys.{UdpQspKeys, packet_crypto, pad_len}
use slt.Qsp.Keys.RoundTrip.{open_into-protect_into}
use slt.Qsp.Keys.Sides.{Side, keys_generations}
use slt.Qsp.Pn.{packet_number_len}
use slt.Qsp.Pn.Reconstruct.{IsNear}
use slt.Qsp.Replay.{check_and_update, expected_pn}
use slt.Qsp.Session.{
  Session, Outcome, send, open_packet, try_open, accept_opened, maybe_confirm_previous_rx_keys,
  is_expired, same_phase, verdict_outcome,
}
use slt.Qsp.Session.Transmit.{IsSending, send-IsSent}

same_phase_refl : (b : Bool) → same_phase b b ≡ true
same_phase_refl true = refl
same_phase_refl false = refl

-- An attempt that succeeds under the keys of the packet's phase.
opens_now :
    {Keys : Type 0} (c : Crypto Keys) (t : Session Keys) (o : OpenedPacket)
    (miss : Outcome Keys OpenedPacket)
    → o.key_phase ≡ t.rx_key_phase
    → (check_and_update t.replay_window o.pn).1 ≡ ok tt
    → (try_open t (ok o) (same_phase t.rx_key_phase) (accept_opened c t) miss).1 ≡ ok o
unfolding accept_opened
opens_now c t o miss phase fresh =
    let tried : same_phase t.rx_key_phase o.key_phase ≡ true =
      rw phase (same_phase_refl t.rx_key_phase) in
    rw (tried, accept_opened) (ap (λ v. verdict_outcome c v o) fresh)

open_packet_now :
    {Keys : Type 0} (c : Crypto Keys) (r : Session Keys) (packet : List ℕ) (o : OpenedPacket)
    → c.open_into r.keys r.scid.len packet (expected_pn r.replay_window) ≡ ok o
    → o.key_phase ≡ r.rx_key_phase
    → (check_and_update r.replay_window o.pn).1 ≡ ok tt
    → (open_packet c r packet).1 ≡ ok o
unfolding open_packet maybe_confirm_previous_rx_keys
open_packet_now c r packet o opened phase fresh =
    elim (Bool-cases (is_expired c r.previous_rx (expected_pn r.replay_window))) [
      | inl yes' ↦
          rw (open_packet, maybe_confirm_previous_rx_keys, yes', opened)
            (opens_now c (record r { previous_rx = none }) o _ phase fresh)
      | inr no' ↦
          rw (open_packet, maybe_confirm_previous_rx_keys, no', opened)
            (opens_now c r o _ phase fresh)
    ]

-- The two ends: `t` has sent the packet number `pn`, and `r` is to receive it, with the same key under the same
-- phase bit, the connection ID's length, and a window that does not refuse the number.
pub record IsPeer (t r : Session UdpQspKeys) (pn : ℕ) : Type 0 where
  pub same_hp : t.keys.tx.hp ≡ r.keys.rx.hp
  pub same_aead : t.keys.tx.aead ≡ r.keys.rx.aead
  pub same_key_phase : t.tx_key_phase ≡ r.rx_key_phase
  pub same_cid_len : length (Cid.as_slice t.dcid) ≡ r.scid.len
  pub near : IsNear pn (expected_pn r.replay_window) (packet_number_len pn)
  pub fresh : (check_and_update r.replay_window pn).1 ≡ ok tt

module _ (boring : Boring) (laws : BoringLaws boring) (start : ℕ) (first : Side boring)
    (phase : Bool) (s : Session UdpQspKeys)
    (sending : IsSending (packet_crypto boring) (keys_generations boring) start first phase s)
    (r : Session UdpQspKeys) where
  -- What `send` makes of a payload, the peer's `open_packet` returns. With BoringSSL's laws, for a session as it is
  -- between calls: when `send` returns a packet, and the peer has the matching keys, phase bit and length of
  -- connection ID, has the packet number near and does not refuse it, `open_packet` gives the payload with its
  -- zero padding, under that number and phase.
  pub open_packet-send :
      (payload packet : List ℕ)
      → (send (packet_crypto boring) s payload).1 ≡ ok packet
      → IsPeer (send (packet_crypto boring) s payload).0 r s.next_pn
      → (open_packet (packet_crypto boring) r packet).1
        ≡ ok (record {
          pn = s.next_pn;
          pn_len = packet_number_len s.next_pn;
          key_phase = (send (packet_crypto boring) s payload).0.tx_key_phase;
          payload = payload ++ replicate (pad_len r.scid.len s.next_pn (length payload)) 0;
        })
  open_packet-send payload packet returned peer =
      let c = packet_crypto boring in
      let t = (send c s payload).0 in
      let sent =
        ((send-IsSent c (keys_generations boring) start first phase s payload sending).packet_sent
          packet returned).1 in
      let opened =
        open_into-protect_into boring laws t.keys r.keys peer.same_hp peer.same_aead
          (Cid.as_slice t.dcid) s.next_pn t.tx_key_phase payload packet
          (expected_pn r.replay_window) sent.made peer.near in
      open_packet_now c r packet _ (rw peer.same_cid_len at opened) peer.same_key_phase peer.fresh

  -- With BoringSSL's laws, for a session as it is between calls, and a peer with the matching keys, phase bit and
  -- length of connection ID that has the packet number near and does not refuse it: a message within the limits
  -- that is encoded and sent, when `send` returns a packet, is opened by the peer's `open_packet`, and decoding the
  -- payload that it returns gives the message and its frame, whatever padding the packet needed.
  pub decode_padded_message-open_packet :
      (limits : MessageLimits) (m : Message) (frame packet : List ℕ)
      → Admits limits m
      → encode_message m [] ≡ ok frame
      → (send (packet_crypto boring) s frame).1 ≡ ok packet
      → IsPeer (send (packet_crypto boring) s frame).0 r s.next_pn
      → (o : OpenedPacket) × ((open_packet (packet_crypto boring) r packet).1 ≡ ok o)
        × (decode_padded_message o.payload limits ≡ ok (some (m, frame)))
  decode_padded_message-open_packet limits m frame packet fits encoded returned peer =
      let (bytes, wrote, read, padded) =
        decode_message-encode_message limits m []
          (replicate (pad_len r.scid.len s.next_pn (length frame)) 0) fits in
      let is : frame ≡ bytes = cc (encoded, wrote) in
      (_, open_packet-send frame packet returned peer, cc (is, padded))
