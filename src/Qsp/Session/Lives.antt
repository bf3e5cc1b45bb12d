-- ===== src/Qsp/Session/Lives.antt =====
-- What holds over the whole life of a session of slt-core/src/crypto/udp_qsp/session.rs that starts with `new`.
-- The keys rotate by the packet number alone, where docs/protocol/key-update.md, section 8, has a sender wait for
-- packets with the new key phase.
use slt.Prelude.{ℕ, suc, ◌≤◌, ◌<◌, ◌≡◌, ◌≢◌, arith, List, Bool, ok, panic}
use slt.Prelude.Words.{u64_max}
use slt.Cid.{Cid}
use slt.Qsp.Crypto.{Crypto, Generations}
use slt.Qsp.Replay.History.{Distinct}
use slt.Qsp.Replay.Refines.{new-Represents}
use slt.Qsp.Session.{Session, new, send}
use slt.Qsp.Session.Transmit.{IsSending, IsProtected, IsSent, send-IsSent}
use slt.Qsp.Session.Runs.{Run, new-IsSending, Run-IsSending, Run-Represents}

module _ {Keys : Type 0} (c : Crypto Keys) {Side : Type 0} (g : Generations c Side)
    (scid dcid : Cid) (keys : Keys) (send_pn recv_pn : ℕ) (phase : Bool) (fits : send_pn ≤ u64_max)
    (s : Session Keys) (h : List ℕ)
    (life : Run c (new scid dcid keys send_pn recv_pn phase) s h) where
  now-IsSending : IsSending c g send_pn (g.tx keys) phase s
  now-IsSending =
      (Run-IsSending c g send_pn (g.tx keys) phase (new scid dcid keys send_pn recv_pn phase) s h
        (new-IsSending c g scid dcid keys send_pn recv_pn phase fits) life).0

  now-IsSent :
      (payload : List ℕ) → IsSent c g send_pn (g.tx keys) phase s payload (send c s payload)
  now-IsSent payload = send-IsSent c g send_pn (g.tx keys) phase s payload now-IsSending

  -- In a session that starts with a 64-bit packet number, after any sequence of sends and receptions, of sends alone
  -- too, a packet that `send` returns uses up the current number, and is the protection of the payload under that number: by
  -- keys whose transmit side is the first one, moved on as many times as the number's block of 2^21 numbers is
  -- after the first number's block, and with the phase bit flipped that many times.
  pub send-IsProtected :
      (payload packet : List ℕ)
      → (send c s payload).1 ≡ ok packet
      → ((send c s payload).0.next_pn ≡ suc s.next_pn)
        × IsProtected c g send_pn (g.tx keys) phase (send c s payload).0 s.next_pn payload packet
  send-IsProtected payload packet returned = (now-IsSent payload).packet_sent packet returned

  -- In a session that starts with a 64-bit packet number, after any sequence of sends and receptions: when `send`
  -- returns a packet, every later state, after any further calls, uses a larger packet number.
  pub send-ascends :
      (payload packet : List ℕ) (t : Session Keys) (h' : List ℕ)
      → (send c s payload).1 ≡ ok packet
      → Run c (send c s payload).0 t h'
      → s.next_pn < t.next_pn
  send-ascends payload packet t h' returned later =
      let sent = now-IsSent payload in
      let (used_up, made) = sent.packet_sent packet returned in
      let (still, up) =
        Run-IsSending c g send_pn (g.tx keys) phase (send c s payload).0 t h' sent.sending later in
      omega (arith, used_up, up)

  -- In a session that starts with a 64-bit packet number, after any sequence of sends and receptions, `send` returns
  -- a packet or an error: its key rotation loop ends within its fuel, as long as the keys' own operations return.
  pub send-ne-panic :
      (payload : List ℕ)
      → ((k : Keys) → c.with_next_tx_keys k ≢ panic)
      → ((k : Keys) (d : List ℕ) (pn : ℕ) (b : Bool) (p : List ℕ)
          → c.protect_into k d pn b p ≢ panic)
      → (send c s payload).1 ≢ panic
  send-ne-panic payload = (now-IsSent payload).no_panic

  -- In a session that starts with a 64-bit packet number, whatever packets arrive and whatever they open to under
  -- the current, the previous and the next receive keys: the packet numbers of the packets that `open_packet`
  -- returns over the session's life are pairwise distinct.
  pub Run-Distinct : Distinct h
  unfolding new
  Run-Distinct =
      (Run-Represents c g send_pn (g.tx keys) phase recv_pn
        (new scid dcid keys send_pn recv_pn phase) s h
        (new-IsSending c g scid dcid keys send_pn recv_pn phase fits) (new-Represents recv_pn)
        life).1
