-- ===== src/Qsp/Session/Transmit.antt =====
-- What `send` of slt-core/src/crypto/udp_qsp/session.rs does with packet numbers and keys.
use slt.Prelude.{ℕ, suc, ◌+◌, ◌-◌, ◌/◌, ◌≤◌, ◌≡◌, ◌≢◌, refl, ap, ◌∙◌, arith, inl, inr, List}
use slt.Prelude.{Bool, ltb, Result, ok, err, panic, Bool-cases}
use slt.Prelude.Words.{u64_max}
use slt.Cid
use slt.Qsp.Crypto.{Crypto, Generations, QspCryptoError}
use slt.Qsp.Session.{Session, Outcome, send, protect_next, then_do, try_keys, crypto}
use slt.Qsp.Session.{packet_number_overflow, QspSessionError}
use slt.Qsp.Session.Rotation.{InBlock, IsRotated, flip, times, maybe_rotate_tx_keys-IsRotated}

module _ {Keys : Type 0} (c : Crypto Keys) {Side : Type 0} (g : Generations c Side) (start : ℕ)
    (first : Side) (phase : Bool) where
  -- The state between two calls.
  pub record IsSending (s : Session Keys) : Type 0 where
    pub block : ℕ
    pub in_block : InBlock g start first phase block s
    pub fits : s.next_pn ≤ u64_max

  -- The packet is the protection of the payload under the number `pn`, by keys whose transmit side is the one
  -- of the number's block, with that block's phase bit.
  pub record IsProtected (s : Session Keys) (pn : ℕ) (payload packet : List ℕ) : Type 0 where
    pub own_generation : g.tx s.keys ≡ times (pn / 2097152 - start / 2097152) g.next first
    pub own_phase : s.tx_key_phase ≡ flip (pn / 2097152 - start / 2097152) phase
    pub made : c.protect_into s.keys (Cid.as_slice s.dcid) pn s.tx_key_phase payload ≡ ok packet

  -- What a call of `send` comes to: the window and the state between calls are kept, the number is used up when a
  -- packet is returned, and that packet is protected under the number and the keys of its block.
  pub record IsSent (s : Session Keys) (payload : List ℕ) (r : Outcome Keys (List ℕ)) : Type 0 where
    pub sending : IsSending r.0
    pub same_window : r.0.replay_window ≡ s.replay_window
    pub not_before : s.next_pn ≤ r.0.next_pn
    pub packet_sent :
        (packet : List ℕ)
        → r.1 ≡ ok packet
        → (r.0.next_pn ≡ suc s.next_pn) × IsProtected r.0 s.next_pn payload packet
    pub no_panic :
        ((k : Keys) → c.with_next_tx_keys k ≢ panic)
        → ((k : Keys) (dcid : List ℕ) (pn : ℕ) (b : Bool) (p : List ℕ)
            → c.protect_into k dcid pn b p ≢ panic)
        → r.1 ≢ panic

  -- The same block, with a later number.
  advanced-InBlock :
      (e n : ℕ) (t : Session Keys)
      → InBlock g start first phase e t
      → t.next_pn ≤ n
      → InBlock g start first phase e (record t { next_pn = n })
  advanced-InBlock e n t b later = record {
    policy = b.policy;
    started = b.started;
    reached = omega (arith, b.reached, later);
    threshold = b.threshold;
    updates = b.updates;
    flips = b.flips;
  }

  -- An outcome without a packet.
  unsent :
      (s : Session Keys) (payload : List ℕ) (r : Outcome Keys (List ℕ))
      → IsSending r.0
      → r.0.replay_window ≡ s.replay_window
      → s.next_pn ≤ r.0.next_pn
      → ((packet : List ℕ) → r.1 ≢ ok packet)
      → (((k : Keys) → c.with_next_tx_keys k ≢ panic)
          → ((k : Keys) (dcid : List ℕ) (pn : ℕ) (b : Bool) (p : List ℕ)
              → c.protect_into k dcid pn b p ≢ panic)
          → r.1 ≢ panic)
      → IsSent s payload r
  unsent s payload r sending window later none_sent safe = record {
    sending = sending;
    same_window = window;
    not_before = later;
    packet_sent = λ packet h. absurd (none_sent packet h);
    no_panic = safe;
  }

  module _ (s : Session Keys) (payload : List ℕ) (t : Session Keys) (pn : t.next_pn ≡ s.next_pn)
      (window : t.replay_window ≡ s.replay_window)
      (b : InBlock g start first phase (s.next_pn / 2097152) t) where
    abbrev used : Session Keys
    used = record t { next_pn = s.next_pn + 1 }

    used-IsSending : s.next_pn + 1 ≤ u64_max → IsSending used
    used-IsSending room = record {
      block = s.next_pn / 2097152;
      in_block = advanced-InBlock (s.next_pn / 2097152) (s.next_pn + 1) t b (omega (arith, pn));
      fits = room;
    }

    protected :
        (made : Result QspCryptoError (List ℕ))
        → s.next_pn + 1 ≤ u64_max
        → c.protect_into t.keys (Cid.as_slice t.dcid) s.next_pn t.tx_key_phase payload ≡ made
        → IsSent s payload (try_keys used made (λ packet. (used, ok packet)))
    protected (ok packet) room m = record {
      sending = used-IsSending room;
      same_window = window;
      not_before = omega arith;
      packet_sent = λ p h. (
        omega arith,
        record {
          own_generation = b.updates;
          own_phase = b.flips;
          made = m ∙ (let is : packet ≡ p = cc h in ap ok is);
        },
      );
      no_panic = λ h k q. cc q;
    }
    protected (err x) room m =
        unsent s payload (used, err (crypto x)) (used-IsSending room) window (omega arith)
          (λ p h. cc h) (λ h k q. cc q)
    protected panic room m =
        unsent s payload (used, panic) (used-IsSending room) window (omega arith) (λ p h. cc h)
          (λ h k q. k t.keys (Cid.as_slice t.dcid) s.next_pn t.tx_key_phase payload m)

    protect_next-IsSent : IsSending t → IsSent s payload (protect_next c payload s.next_pn t)
    unfolding protect_next
    protect_next-IsSent sending = elim (Bool-cases (ltb u64_max (s.next_pn + 1))) [
      | inl over ↦
          rw (over, protect_next)
            (unsent s payload (t, err packet_number_overflow) sending window (omega (arith, pn))
              (λ p h. cc h) (λ h k q. cc q))
      | inr room ↦ rw (room, protect_next) (protected _ (ground arith) refl)
    ]

  rotated-IsSent :
      (s : Session Keys) (payload : List ℕ) (t : Session Keys)
      (r : Result QspSessionError (Unit {0}))
      → s.next_pn ≤ u64_max
      → IsRotated c g start first phase s (t, r)
      → IsSent s payload (then_do (t, r) (λ s' done. protect_next c payload s.next_pn s'))
  rotated-IsSent s payload t r fits i = by_result r i
    where
      sending :
          {r' : Result QspSessionError (Unit {0})}
          → IsRotated c g start first phase s (t, r')
          → IsSending t
      sending i' =
          let (e, b) = i'.some_block in
          record { block = e; in_block = b; fits = omega (arith, i'.same_pn, fits) }

      by_result :
          (r' : Result QspSessionError (Unit {0}))
          → IsRotated c g start first phase s (t, r')
          → IsSent s payload (then_do (t, r') (λ s' done. protect_next c payload s.next_pn s'))
      by_result (ok u) i' =
          protect_next-IsSent s payload t i'.same_pn i'.same_window (i'.own_block refl) (sending i')
      by_result (err x) i' =
          unsent s payload (t, err x) (sending i') i'.same_window (omega (arith, i'.same_pn))
            (λ p h. cc h) (λ h k q. cc q)
      by_result panic i' =
          unsent s payload (t, panic) (sending i') i'.same_window (omega (arith, i'.same_pn))
            (λ p h. cc h) (λ h k q. i'.enough_fuel h refl)

  pub send-IsSent :
      (s : Session Keys) (payload : List ℕ) → IsSending s → IsSent s payload (send c s payload)
  unfolding send
  send-IsSent s payload v =
      rotated-IsSent s payload _ _ v.fits
        (maybe_rotate_tx_keys-IsRotated c g start first phase v.block s v.in_block v.fits)
