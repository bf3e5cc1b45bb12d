-- ===== src/Server/Sessions/Success.antt =====
-- Calls of slt-server/src/sessions that succeed when the environment's answers are good.
use slt.Prelude.{
  ℕ, ◌≡◌, refl, ap, List, [], ◌∷◌, Option, none, some, true, false, Result, ok, err, panic,
}
use slt.Prelude.Actions.{Action, follow, lift_result, if_both, along}
use slt.Proto.Framing.{FrameError}
use slt.Proto.Message.{Message, encode_message}
use slt.Qsp.Session.{Session, send}
use slt.Server.Upgrade.{UdpUpgradeState}
use slt.Server.Sessions.{
  ClientSession, Environment, SessionError, IoError, Call, key_update, tcp_write, written,
  ActiveTransport, note, is_some,
}
use slt.Server.Sessions.Egress.{
  UdpFailureRecovery, write_frame, with_keys_updated, send_tcp_message_inner, send_tcp_message,
  write_outcome, queue_encoded, queue_on, queue_udp_message, on_error, send_udp_message,
  flush_udp_session, send_udp_message_and_flush,
}

-- The call succeeds, and then `Q` holds.
abbrev pub Succeeds : {S E A : Type 0} → (A → S → Type 0) → S × Result E A → Type 0
Succeeds Q (s, ok a) = Q a s
Succeeds Q (s, err e) = ⊥
Succeeds Q (s, panic) = ⊥

pub Succeeds-follow :
    {S E A B : Type 0} (r : S × Result E A) (k : A → Action S E B) (P : A → S → Type 0)
    (Q : B → S → Type 0)
    → Succeeds P r
    → ((a : A) (s : S) → P a s → Succeeds Q (k a s))
    → Succeeds Q (follow r k)
Succeeds-follow (s, ok a) k P Q h f = f a s h
Succeeds-follow (s, err e) k P Q h f = absurd h
Succeeds-follow (s, panic) k P Q h f = absurd h

pub Succeeds-map :
    {S E A : Type 0} (r : S × Result E A) (P Q : A → S → Type 0)
    → Succeeds P r
    → ((a : A) (s : S) → P a s → Q a s)
    → Succeeds Q r
Succeeds-map (s, ok a) P Q h f = f a s h
Succeeds-map (s, err e) P Q h f = absurd h
Succeeds-map (s, panic) P Q h f = absurd h

pub Succeeds-lift :
    {S E F A B : Type 0} (f : F → E) (r : Result F A) (a : A) (k : A → Action S E B)
    (Q : B → S → Type 0) (s : S)
    → r ≡ ok a
    → Succeeds Q (k a s)
    → Succeeds Q (follow (lift_result f r s) k)
Succeeds-lift f r a k Q s e h = along (λ x. Succeeds Q (follow (lift_result f x s) k)) (ok a) r e h

-- The frames written to TCP, the latest first.
abbrev pub frames : List Call → List Message
frames [] = []
frames (tcp_write m ∷ rest) = m ∷ frames rest
frames (_ ∷ rest) = frames rest

-- Every call for TCP has the good answer.
pub record TcpWorks {Keys : Type 0} (env : Environment Keys) : Type 0 where
  pub key_update : (calls : List Call) → env.key_update_error calls ≡ none
  pub tcp_write : (calls : List Call) → env.tcp_write_result calls ≡ written

-- The same for UDP too.
pub record IsWorking {Keys : Type 0} (env : Environment Keys) : Type 0 where
  pub on_tcp : TcpWorks env
  pub udp_send : (calls : List Call) → env.udp_send_error calls ≡ none
  pub udp_flush : (calls : List Call) → env.udp_flush_error calls ≡ none

-- A state that can write to TCP, by what the upgrade depends on.
pub record At {Keys Tx : Type 0} (u : UdpUpgradeState) (a : ActiveTransport) (sent : List Message)
    (s : ClientSession Keys Tx) : Type 0 where
  pub upgrade : s.udp_upgrade ≡ u
  pub transport : s.active_transport ≡ a
  pub sent_frames : frames s.calls ≡ sent
  pub writable : s.tcp_write_interrupted ≡ false

-- The session that a UDP message goes over, and its UDP session behind it.
abbrev pub WithUdp :
    {Keys Tx : Type 0}
    → Option (Session Keys)
    → UdpUpgradeState
    → ActiveTransport
    → List Message
    → ClientSession Keys Tx
    → Type 0
WithUdp o u a sent s = At u a sent s × (s.udp_session ≡ o)

module _ {Keys Tx : Type 0} (env : Environment Keys) (works : TcpWorks env) where
  write_frame-Succeeds :
      (m : Message) (r : Result FrameError (List ℕ)) (bytes : List ℕ) (s : ClientSession Keys Tx)
      → r ≡ ok bytes
      → write_frame env m r s ≡ (note (tcp_write m) s, ok tt)
  unfolding write_frame
  write_frame-Succeeds m r bytes s e = rw e (
      ap (λ w. (note (tcp_write m) s, w))
        (ap write_outcome (works.tcp_write (note (tcp_write m) s).calls)))

  pub keys-Succeeds :
      (o : Option IoError) (m : Message) (bytes : List ℕ) (s : ClientSession Keys Tx)
      → o ≡ none
      → encode_message m [] ≡ ok bytes
      → with_keys_updated env o m s ≡ (note (tcp_write m) s, ok tt)
  keys-Succeeds none m bytes s e h = write_frame-Succeeds m (encode_message m []) bytes s h
  keys-Succeeds (some x) m bytes s e h = cc e

module _ {Keys Tx : Type 0} (env : Environment Keys) (works : IsWorking env) where
  pub send_tcp_message-Succeeds :
      (o : Option (Session Keys)) (u : UdpUpgradeState) (a : ActiveTransport) (sent : List Message)
      (m : Message) (bytes : List ℕ) (s : ClientSession Keys Tx)
      → encode_message m [] ≡ ok bytes
      → WithUdp o u a sent s
      → Succeeds (λ _ t. WithUdp o u a (m ∷ sent) t) (send_tcp_message env m s)
  unfolding send_tcp_message send_tcp_message_inner
  send_tcp_message-Succeeds o u a sent m bytes s e (h, k) =
      if_both (Succeeds (λ _ t. WithUdp o u a (m ∷ sent) t)) s.tcp_write_interrupted _ _
        (λ t. cc (t, h.writable))
        (λ f.
          let s' = note key_update (record s { tcp_write_interrupted = true }) in
          along
            (λ (r : ClientSession Keys Tx × Result SessionError (Unit {0})).
              Succeeds (λ _ t. WithUdp o u a (m ∷ sent) t)
                (record r.0 { tcp_write_interrupted = false }, r.1))
            (note (tcp_write m) s', ok tt) _
            (keys-Succeeds env works.on_tcp (env.key_update_error s'.calls) m bytes s'
              (works.on_tcp.key_update s'.calls) e)
            (
              record {
                upgrade = h.upgrade;
                transport = h.transport;
                sent_frames = ap (λ l. m ∷ l) h.sent_frames;
                writable = refl;
              },
              k,
            ))

  -- UDP sends when the UDP session protects the message.
  queue_on-Succeeds :
      (session : Session Keys) (u : UdpUpgradeState) (a : ActiveTransport) (sent : List Message)
      (r : Result FrameError (List ℕ)) (bytes packet : List ℕ) (s : ClientSession Keys Tx)
      → r ≡ ok bytes
      → (send env.crypto session bytes).1 ≡ ok packet
      → At u a sent s
      → Succeeds
          (λ _ t. WithUdp (some (send env.crypto session bytes).0) u a sent t)
          (queue_on env (some session) r s)
  unfolding queue_encoded
  queue_on-Succeeds session u a sent r bytes packet s e f h =
      rw (e, f, works.udp_send _)
        (
          record {
            upgrade = h.upgrade;
            transport = h.transport;
            sent_frames = h.sent_frames;
            writable = h.writable;
          },
          refl,
        )

  on_error-Succeeds :
      {E : Type 0} (Q : Unit {0} → ClientSession Keys Tx → Type 0)
      (r : ClientSession Keys Tx × Result E (Unit {0}))
      (k : E → ClientSession Keys Tx → ClientSession Keys Tx × Result SessionError (Unit {0}))
      → Succeeds Q r
      → Succeeds Q (on_error r k)
  on_error-Succeeds Q (s, ok a) k h = h
  on_error-Succeeds Q (s, err e) k h = absurd h
  on_error-Succeeds Q (s, panic) k h = absurd h

  flush_udp_session-Succeeds :
      (o : Option (Session Keys)) (u : UdpUpgradeState) (a : ActiveTransport) (sent : List Message)
      (s : ClientSession Keys Tx)
      → WithUdp o u a sent s
      → Succeeds (λ _ t. WithUdp o u a sent t) (flush_udp_session env s)
  unfolding flush_udp_session
  flush_udp_session-Succeeds o u a sent s (h, k) =
      if_both (Succeeds (λ _ t. WithUdp o u a sent t)) (is_some s.udp_session) _ _
        (λ t. rw (works.udp_flush _) (
          record {
            upgrade = h.upgrade;
            transport = h.transport;
            sent_frames = h.sent_frames;
            writable = h.writable;
          },
          k,
        ))
        (λ f. (h, k))

  pub send_udp_message_and_flush-Succeeds :
      (session : Session Keys) (u : UdpUpgradeState) (a : ActiveTransport) (sent : List Message)
      (m : Message) (recovery : UdpFailureRecovery) (bytes packet : List ℕ)
      (s : ClientSession Keys Tx)
      → encode_message m [] ≡ ok bytes
      → (send env.crypto session bytes).1 ≡ ok packet
      → WithUdp (some session) u a sent s
      → Succeeds
          (λ _ t. WithUdp (some (send env.crypto session bytes).0) u a sent t)
          (send_udp_message_and_flush env m recovery s)
  unfolding send_udp_message_and_flush send_udp_message queue_udp_message
  send_udp_message_and_flush-Succeeds session u a sent m recovery bytes packet s e f (h, k) =
      let Q = λ (_ : Unit {0}) (t : ClientSession Keys Tx).
        WithUdp (some (send env.crypto session bytes).0) u a sent t in
      Succeeds-follow (send_udp_message env m recovery s) _ Q Q
        (on_error-Succeeds Q (queue_udp_message env m s) _ (
          along (λ o. Succeeds Q (queue_on env o (encode_message m []) s)) (some session)
            s.udp_session k
            (queue_on-Succeeds session u a sent (encode_message m []) bytes packet s e f h)))
        (λ b t g.
          on_error-Succeeds Q (flush_udp_session env t) _
            (flush_udp_session-Succeeds (some (send env.crypto session bytes).0) u a sent t g))
