-- ===== src/Qsp/Keys/Sides.antt =====
-- The two directions of the keys of slt-core/src/crypto/udp_qsp/keys/mod.rs, and the interface that sessions use.
use slt.Prelude.{
  ℕ, ◌≡◌, refl, sym, ap, ap₂, ◌∙◌, List, Result, ok, err, panic, ok-bind, ok-guard, length, ◌==◌,
}
use slt.Proto.Payloads.Registration.{CipherSuite}
use slt.Qsp.Boring.{Boring, AeadKind}
use slt.Qsp.Backend.{
  for_suite, HeaderProtectionKey, PacketKey, clone_hp_key, clone_packet_key, new_hp_key,
  new_packet_key, new_aead_context, aead_iv_len, hp_key_len, hp_key_ready,
}
use slt.Qsp.Crypto.{Generations, QspCryptoError, crypto_fail}
use slt.Qsp.Schedule.{DirectionKeys, next_generation, clone_direction}
use slt.Qsp.Keys.{UdpQspKeys, packet_crypto, with_next_tx_keys, with_next_rx_keys, try_clone}

module _ (boring : Boring) where
  new_packet_key_ok :
      (key iv : List ℕ) (aead : AeadKind) (k' : PacketKey)
      → new_packet_key boring key iv aead ≡ ok k'
      → record { key = key; iv = iv; aead = aead } ≡ k'
  unfolding new_packet_key new_aead_context
  new_packet_key_ok key iv aead k' h =
      let sized = ok-guard (length iv == aead_iv_len) crypto_fail _ k' h in
      let (u, p, made) = ok-bind (new_aead_context boring aead key) _ k' sized in cc made

  clone_hp_key-same : (k k' : HeaderProtectionKey) → clone_hp_key boring k ≡ ok k' → k ≡ k'
  unfolding clone_hp_key new_hp_key
  clone_hp_key-same k k' h =
      let sized = ok-guard (length k.key == hp_key_len k.kind) crypto_fail _ k' h in
      let made = ok-guard (hp_key_ready boring k.kind k.key) crypto_fail _ k' sized in cc made

  clone_packet_key-same : (k k' : PacketKey) → clone_packet_key boring k ≡ ok k' → k ≡ k'
  unfolding clone_packet_key
  clone_packet_key-same k k' h = new_packet_key_ok k.key k.iv k.aead k' h

  clone_direction-same : (d d' : DirectionKeys) → clone_direction boring d ≡ ok d' → d ≡ d'
  unfolding clone_direction
  clone_direction-same d d' h =
      let (hp, p, h') = ok-bind (clone_hp_key boring d.hp) _ d' h in
      let (aead, q, made) = ok-bind (clone_packet_key boring d.aead) _ d' h' in
      ap₂ (λ x y. record { secret = d.secret; hp = x; aead = y }) (clone_hp_key-same d.hp hp p)
        (clone_packet_key-same d.aead aead q)
      ∙ cc made

  -- One direction, with the cipher suite that its next secret's keys are made for.
  abbrev pub Side : Type 0
  Side = CipherSuite × DirectionKeys

  -- The next side; that of a failed derivation stays.
  abbrev pub next_of : CipherSuite → DirectionKeys → Result QspCryptoError DirectionKeys → Side
  next_of cipher d (ok d') = (cipher, d')
  next_of cipher d (err e) = (cipher, d)
  next_of cipher d panic = (cipher, d)

  abbrev pub next_side : Side → Side
  next_side (cipher, d) = next_of cipher d (next_generation boring d (for_suite cipher))

  -- What an update of the transmit keys makes of them: the cipher suite and the receive direction are as before, and
  -- the transmit direction is the next one.
  pub tx_update :
      (k k' : UdpQspKeys)
      → with_next_tx_keys boring k ≡ ok k'
      → (k.cipher ≡ k'.cipher)
        × (k.rx ≡ k'.rx)
        × (next_generation boring k.tx (for_suite k.cipher) ≡ ok k'.tx)
  unfolding with_next_tx_keys
  tx_update k k' h =
      let (tx, p, h') = ok-bind (next_generation boring k.tx (for_suite k.cipher)) _ k' h in
      let (rx, q, made) = ok-bind (clone_direction boring k.rx) _ k' h' in
      let is : record { cipher = k.cipher; tx = tx; rx = rx } ≡ k' = cc made in
      (
        ap (λ x. x.cipher) is,
        clone_direction-same k.rx rx q ∙ ap (λ x. x.rx) is,
        p ∙ ap (λ x. ok x.tx) is,
      )

  pub rx_update :
      (k k' : UdpQspKeys)
      → with_next_rx_keys boring k ≡ ok k'
      → (k.cipher ≡ k'.cipher)
        × (k.tx ≡ k'.tx)
        × (next_generation boring k.rx (for_suite k.cipher) ≡ ok k'.rx)
  unfolding with_next_rx_keys
  rx_update k k' h =
      let (tx, p, h') = ok-bind (clone_direction boring k.tx) _ k' h in
      let (rx, q, made) = ok-bind (next_generation boring k.rx (for_suite k.cipher)) _ k' h' in
      let is : record { cipher = k.cipher; tx = tx; rx = rx } ≡ k' = cc made in
      (
        ap (λ x. x.cipher) is,
        clone_direction-same k.tx tx p ∙ ap (λ x. x.tx) is,
        q ∙ ap (λ x. ok x.rx) is,
      )

  pub try_clone-same : (k k' : UdpQspKeys) → try_clone boring k ≡ ok k' → k ≡ k'
  unfolding try_clone
  try_clone-same k k' h =
      let (tx, p, h') = ok-bind (clone_direction boring k.tx) _ k' h in
      let (rx, q, made) = ok-bind (clone_direction boring k.rx) _ k' h' in
      ap₂ (λ x y. record { cipher = k.cipher; tx = x; rx = y }) (clone_direction-same k.tx tx p)
        (clone_direction-same k.rx rx q)
      ∙ cc made

  pub next_of_ok :
      (cipher cipher' : CipherSuite) (d d' : DirectionKeys)
      (r : Result QspCryptoError DirectionKeys)
      → r ≡ ok d'
      → cipher ≡ cipher'
      → (cipher', d') ≡ next_of cipher d r
  next_of_ok cipher cipher' d d' r h c = rw (h, c) refl

  -- The keys are what a session asks of them.
  unfoldable pub keys_generations : Generations (packet_crypto boring) Side
  keys_generations = record {
    tx = λ k. (k.cipher, k.tx);
    rx = λ k. (k.cipher, k.rx);
    next = next_side;
    next_tx-tx = λ k k' h.
        let (c, o, n) = tx_update k k' h in next_of_ok k.cipher k'.cipher k.tx k'.tx _ n c;
    next_tx-rx = λ k k' h. let (c, o, n) = tx_update k k' h in ap₂ (λ x y. (x, y)) (sym c) (sym o);
    next_rx-tx = λ k k' h. let (c, o, n) = rx_update k k' h in ap₂ (λ x y. (x, y)) (sym c) (sym o);
    next_rx-rx = λ k k' h.
        let (c, o, n) = rx_update k k' h in next_of_ok k.cipher k'.cipher k.rx k'.rx _ n c;
    clone-tx = λ k k' h. ap (λ x. (x.cipher, x.tx)) (sym (try_clone-same k k' h));
    clone-rx = λ k k' h. ap (λ x. (x.cipher, x.rx)) (sym (try_clone-same k k' h));
  }
