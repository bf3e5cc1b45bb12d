-- ===== src/Qsp/Session/Rotation.antt =====
-- Which generation of transmit keys a session of slt-core/src/crypto/udp_qsp/session.rs uses: key phases are
-- the blocks of `KEY_UPDATE_INTERVAL` packet numbers.
use slt.Prelude.{
  ℕ, zero, suc, ◌+◌, ◌-◌, ◌*◌, ◌/◌, ◌≤◌, ◌<◌, ◌≡◌, ◌≢◌, refl, sym, ap, ◌∙◌, arith, Option, none,
  some,
}
use slt.Prelude.{
  ltb→lt, ltb, if◌then◌else◌, Bool, not, Result, ok, err, panic, Bool-cases, inl, inr,
}
use slt.Prelude.Words.{u64_max}
use slt.Qsp.Crypto.{Crypto, Generations, QspCryptoError}
use slt.Qsp.Session.{Session, defaults, next_rekey_after, rotate_tx_keys, rotate_loop, rotate_round}
use slt.Qsp.Session.{maybe_rotate_tx_keys, Outcome, try_keys, crypto}

-- The end of the block `e`, if it is a 64-bit number.
abbrev pub block_end : ℕ → Option ℕ
block_end e = if ltb u64_max (e * 2097152 + 2097152) then none else some (e * 2097152 + 2097152)

-- `f`, `n` times.
abbrev pub times : {A : Type 0} → ℕ → (A → A) → A → A
times zero f a = a
times (suc n) f a = f (times n f a)

-- A key phase bit after `n` updates.
abbrev pub flip : ℕ → Bool → Bool
flip zero b = b
flip (suc n) b = not (flip n b)

pub next_rekey_after-block_end : (pn : ℕ) → next_rekey_after pn 2097152 ≡ block_end (pn / 2097152)
unfolding next_rekey_after
next_rekey_after-block_end pn = ground arith

-- The session is in block `e` of its transmit numbers: the block that `start` lies in or a later one, not beyond
-- the next number, with the keys and the phase bit of as many updates as there are blocks between.
pub record InBlock {Keys : Type 0} {c : Crypto Keys} {Side : Type 0} (g : Generations c Side)
    (start : ℕ) (first : Side) (phase : Bool) (e : ℕ) (s : Session Keys) : Type 0 where
  pub policy : s.rekey_policy ≡ defaults
  pub started : start / 2097152 ≤ e
  pub reached : e * 2097152 ≤ s.next_pn
  pub threshold : s.tx_next_rekey_pn ≡ block_end e
  pub updates : g.tx s.keys ≡ times (e - start / 2097152) g.next first
  pub flips : s.tx_key_phase ≡ flip (e - start / 2097152) phase

module _ {Keys : Type 0} (c : Crypto Keys) {Side : Type 0} (g : Generations c Side) (start : ℕ)
    (first : Side) (phase : Bool) where
  rotate_tx_keys-InBlock :
      (e : ℕ) (s : Session Keys) (keys : Keys)
      → InBlock g start first phase e s
      → e * 2097152 + 2097152 ≤ s.next_pn
      → c.with_next_tx_keys s.keys ≡ ok keys
      → InBlock g start first phase (suc e) (rotate_tx_keys c s (e * 2097152 + 2097152) keys)
  unfolding rotate_tx_keys defaults
  rotate_tx_keys-InBlock e s keys b past made = record {
    policy = b.policy;
    started = omega (arith, b.started);
    reached = omega (arith, past);
    threshold =
        ap (λ p. next_rekey_after (e * 2097152 + 2097152) p.interval) b.policy
        ∙ next_rekey_after-block_end (e * 2097152 + 2097152)
        ∙ ap block_end (omega arith);
    updates =
        let later : suc e - start / 2097152 ≡ suc (e - start / 2097152) =
          omega (arith, b.started) in
        g.next_tx-tx s.keys keys made
        ∙ ap g.next b.updates
        ∙ ap (λ n. times n g.next first) (sym later);
    flips =
        let later : suc e - start / 2097152 ≡ suc (e - start / 2097152) =
          omega (arith, b.started) in
        ap not b.flips ∙ ap (λ n. flip n phase) (sym later);
  }

  -- What a run of the loop from block `e` comes to. It keeps the next number; if it is done, the session is in the
  -- block of that number, and otherwise in some block.
  pub record IsRotated (s : Session Keys) (r : Outcome Keys (Unit {0})) : Type 0 where
    pub same_pn : r.0.next_pn ≡ s.next_pn
    pub same_window : r.0.replay_window ≡ s.replay_window
    pub some_block : (e : ℕ) × InBlock g start first phase e r.0
    pub own_block : r.1 ≡ ok tt → InBlock g start first phase (s.next_pn / 2097152) r.0
    pub enough_fuel : ((k : Keys) → c.with_next_tx_keys k ≢ panic) → r.1 ≢ panic

  in_own_block :
      (e : ℕ) (s : Session Keys)
      → InBlock g start first phase e s
      → s.next_pn < e * 2097152 + 2097152
      → InBlock g start first phase (s.next_pn / 2097152) s
  in_own_block e s b below =
      let is : e ≡ s.next_pn / 2097152 = omega (arith, b.reached, below) in rw (← is) b

  ends :
      (e : ℕ) (s : Session Keys)
      → InBlock g start first phase e s
      → s.next_pn < e * 2097152 + 2097152
      → IsRotated s (s, ok tt)
  ends e s b below = record {
    same_pn = refl;
    same_window = refl;
    some_block = (e, b);
    own_block = λ h. in_own_block e s b below;
    enough_fuel = λ h q. cc q;
  }

  fails :
      (e : ℕ) (s : Session Keys) (r : Result _ (Unit {0}))
      → InBlock g start first phase e s
      → r ≢ ok tt
      → (((k : Keys) → c.with_next_tx_keys k ≢ panic) → r ≢ panic)
      → IsRotated s (s, r)
  fails e s r b bad fuel = record {
    same_pn = refl;
    same_window = refl;
    some_block = (e, b);
    own_block = λ h. absurd (bad h);
    enough_fuel = fuel;
  }

  -- A round that the threshold does not end, given what the rest of the loop does.
  rotates_past :
      (again : Session Keys → Outcome Keys (Unit {0})) (e : ℕ) (s : Session Keys)
      (made : Result QspCryptoError Keys)
      → InBlock g start first phase e s
      → e * 2097152 + 2097152 ≤ s.next_pn
      → c.with_next_tx_keys s.keys ≡ made
      → ((keys : Keys)
          → InBlock g start first phase (suc e) (rotate_tx_keys c s (e * 2097152 + 2097152) keys)
          → IsRotated s (again (rotate_tx_keys c s (e * 2097152 + 2097152) keys)))
      → IsRotated s
          (try_keys s made (λ keys. again (rotate_tx_keys c s (e * 2097152 + 2097152) keys)))
  rotates_past again e s (ok keys) b past m rest =
      rest keys (rotate_tx_keys-InBlock e s keys b past m)
  rotates_past again e s (err x) b past m rest =
      fails e s (err (crypto x)) b (λ q. cc q) (λ h q. cc q)
  rotates_past again e s panic b past m rest = fails e s panic b (λ q. cc q) (λ h q. h s.keys m)

  round_rotates :
      (again : Session Keys → Outcome Keys (Unit {0})) (e : ℕ) (s : Session Keys) (t : Option ℕ)
      → InBlock g start first phase e s
      → s.next_pn ≤ u64_max
      → t ≡ block_end e
      → (e * 2097152 + 2097152 ≤ s.next_pn
          → (keys : Keys)
          → InBlock g start first phase (suc e) (rotate_tx_keys c s (e * 2097152 + 2097152) keys)
          → IsRotated s (again (rotate_tx_keys c s (e * 2097152 + 2097152) keys)))
      → IsRotated s (rotate_round c again s s.next_pn t)
  unfolding rotate_round
  round_rotates again e s t b fits h rest =
      elim (Bool-cases (ltb u64_max (e * 2097152 + 2097152))) [
        | inl over ↦
            let is : t ≡ none = rw over at h in
            rw is (ends e s b (omega (arith, ltb→lt u64_max (e * 2097152 + 2097152) over, fits)))
        | inr within ↦
            let is : t ≡ some (e * 2097152 + 2097152) = rw within at h in
            elim (Bool-cases (ltb s.next_pn (e * 2097152 + 2097152))) [
              | inl below ↦
                  rw (is, below, rotate_round)
                    (ends e s b (ltb→lt s.next_pn (e * 2097152 + 2097152) below))
              | inr past ↦
                  let reached : e * 2097152 + 2097152 ≤ s.next_pn = ground arith in
                  rw (is, past, rotate_round)
                    (rotates_past again e s (c.with_next_tx_keys s.keys) b reached refl
                      (rest reached))
            ]
      ]

  -- The rounds keep the next number, so the result of the rest is a result of the whole.
  from_rest :
      (s s' : Session Keys) (r : Outcome Keys (Unit {0}))
      → s'.next_pn ≡ s.next_pn
      → s'.replay_window ≡ s.replay_window
      → IsRotated s' r
      → IsRotated s r
  from_rest s s' r pn window i = record {
    same_pn = i.same_pn ∙ pn;
    same_window = i.same_window ∙ window;
    some_block = i.some_block;
    own_block = λ h. let b = i.own_block h in rw (← pn) b;
    enough_fuel = i.enough_fuel;
  }

  rotates :
      (fuel e : ℕ) (s : Session Keys)
      → InBlock g start first phase e s
      → s.next_pn ≤ u64_max
      → s.next_pn < e + fuel
      → IsRotated s (rotate_loop c fuel s s.next_pn)
  unfolding rotate_loop rotate_tx_keys
  rotates zero e s b fits enough = absurd (omega (arith, enough, b.reached))
  rotates (suc fuel) e s b fits enough =
      round_rotates (λ s'. rotate_loop c fuel s' s.next_pn) e s s.tx_next_rekey_pn b fits
        b.threshold
        (λ reached keys b'.
          from_rest s (rotate_tx_keys c s (e * 2097152 + 2097152) keys) _ refl refl (
            rotates fuel (suc e) (rotate_tx_keys c s (e * 2097152 + 2097152) keys) b' fits
              (omega (arith, enough))))

  pub maybe_rotate_tx_keys-IsRotated :
      (e : ℕ) (s : Session Keys)
      → InBlock g start first phase e s
      → s.next_pn ≤ u64_max
      → IsRotated s (maybe_rotate_tx_keys c s s.next_pn)
  unfolding maybe_rotate_tx_keys
  maybe_rotate_tx_keys-IsRotated e s b fits = rotates (suc (suc s.next_pn)) e s b fits (omega arith)
