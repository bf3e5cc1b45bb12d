-- ===== src/Server/Sessions/View.antt =====
-- What the choice of a transport depends on in a session of slt-server/src/sessions, and which functions of
-- sessions/egress.rs keep it.
use slt.Prelude.{ℕ, ◌≡◌, refl, sym, ap, ◌∙◌, List, [], Option, none, some, Bool, true}
use slt.Prelude.{false, Result, ok, err, panic, ◌⊎◌, inl, inr}
use slt.Prelude.Actions.{Action, follow, Ends, Ends-follow, Ends-map, to_Ends, if_both}
use slt.Proto.Framing.{FrameError}
use slt.Proto.Message.{Message, encode_message, fallback_to_tcp}
use slt.Proto.Payloads.Control.{encode_fallback_to_tcp}
use slt.Qsp.Session.{Session, QspSessionError, send}
use slt.Server.Upgrade.{UdpUpgradeState, reset_udp_upgrade_state}
use slt.Server.Sessions.{
  ClientSession, Environment, SessionError, UdpQspError, IoError, qsp, qsp_io, ActiveTransport, tcp,
  udp, is_some, set_active_transport, switch_transport, udp_qsp, note, key_update, random_u64,
  discard,
}
use slt.Server.Sessions.Egress.{
  UdpFailureRecovery, retry_message_on_tcp, signal_tcp_fallback, retire_only, retire_udp_transport,
  write_frame, with_keys_updated, send_tcp_message_inner, send_tcp_message, send_packet,
  queue_encoded, queue_on, queue_udp_message, send_tcp_fallback_request, recover_on_tcp,
  apply_udp_failure_recovery, recover_from_udp_send_error, recover_from_udp_flush_error, on_error,
  send_udp_message, flush_udp_session, send_udp_message_and_flush,
}

pub record View : Type 0 where
  pub active_transport : ActiveTransport
  pub has_udp : Bool
  pub upgrade : UdpUpgradeState
  pub tcp_alive : Bool

abbrev pub view : {Keys Tx : Type 0} → ClientSession Keys Tx → View
view s = record {
  active_transport = s.active_transport;
  has_udp = is_some s.udp_session;
  upgrade = s.udp_upgrade;
  tcp_alive = s.tcp_alive;
}

abbrev pub with_transport : ActiveTransport → View → View
with_transport a v = record v { active_transport = a }

-- Back on TCP, with no UDP session and no upgrade under way.
abbrev pub retired : View
retired = record {
  active_transport = tcp;
  has_udp = false;
  upgrade = reset_udp_upgrade_state;
  tcp_alive = true;
}

abbrev pub IsRetired : {Keys Tx : Type 0} → ClientSession Keys Tx → Type 0
IsRetired s = view s ≡ retired

abbrev pub KeepsView :
    {Keys Tx E A : Type 0} → ClientSession Keys Tx → ClientSession Keys Tx × Result E A → Type 0
KeepsView s r = view r.0 ≡ view s

-- What a view becomes when UDP may fail.
abbrev pub KeptOrRetired : View → View → Type 0
KeptOrRetired v w = (w ≡ v) ⊎ (w ≡ retired)

kept_then : (v w x : View) → KeptOrRetired v w → KeptOrRetired w x → KeptOrRetired v x
kept_then v w x (inl e) (inl f) = inl (f ∙ e)
kept_then v w x (inr e) (inl f) = inr (f ∙ e)
kept_then v w x h (inr f) = inr f

abbrev pub EndsRetired : {Keys Tx A : Type 0} → A → ClientSession Keys Tx → Type 0
EndsRetired a s = view s ≡ retired

abbrev pub EndsKept : {Keys Tx A : Type 0} → View → A → ClientSession Keys Tx → Type 0
EndsKept v a s = KeptOrRetired v (view s)

pub follow-view :
    {Keys Tx E A B : Type 0} (r : ClientSession Keys Tx × Result E A)
    (k : A → Action (ClientSession Keys Tx) E B)
    → ((a : A) (s : ClientSession Keys Tx) → view (k a s).0 ≡ view s)
    → view (follow r k).0 ≡ view r.0
follow-view (s, ok a) k h = h a s
follow-view (s, err e) k h = refl
follow-view (s, panic) k h = refl

discard-view :
    {Keys Tx : Type 0} (o : Option (Session Keys)) (s : ClientSession Keys Tx)
    → view {Tx = Tx} (record (discard o s) { active_transport = tcp }) ≡ with_transport tcp (view s)
discard-view none s = refl
discard-view (some session) s = refl

switch_transport-view :
    {Keys Tx : Type 0} (a b : ActiveTransport) (s : ClientSession Keys Tx)
    → s.active_transport ≡ a
    → view (switch_transport a b s) ≡ with_transport b (view s)
unfolding switch_transport
switch_transport-view tcp tcp s h = ap (λ a. with_transport a (view s)) h
switch_transport-view udp udp s h = ap (λ a. with_transport a (view s)) h
switch_transport-view tcp udp s h = refl
switch_transport-view udp tcp s h = discard-view s.udp_session s

pub set_active_transport-view :
    {Keys Tx : Type 0} (b : ActiveTransport) (s : ClientSession Keys Tx)
    → view (set_active_transport b s) ≡ with_transport b (view s)
unfolding set_active_transport
set_active_transport-view b s = switch_transport-view s.active_transport b s refl

module _ {Keys Tx : Type 0} (env : Environment Keys) where
  write_frame-view :
      (m : Message) (r : Result FrameError (List ℕ)) (s : ClientSession Keys Tx)
      → view (write_frame env m r s).0 ≡ view s
  unfolding write_frame
  write_frame-view m (ok bytes) s = refl
  write_frame-view m (err e) s = refl
  write_frame-view m panic s = refl

  with_keys_updated-view :
      (o : Option IoError) (m : Message) (s : ClientSession Keys Tx)
      → view (with_keys_updated env o m s).0 ≡ view s
  with_keys_updated-view none m s = write_frame-view m (encode_message m []) s
  with_keys_updated-view (some e) m s = refl

  pub send_tcp_message-view :
      (m : Message) (s : ClientSession Keys Tx) → view (send_tcp_message env m s).0 ≡ view s
  unfolding send_tcp_message send_tcp_message_inner
  send_tcp_message-view m s =
      if_both (KeepsView s) s.tcp_write_interrupted _ _ (λ t. refl)
        (λ f.
          let s' = note key_update (record s { tcp_write_interrupted = true }) in
          with_keys_updated-view (env.key_update_error s'.calls) m s')

  send_packet-view :
      (r : Result QspSessionError (List ℕ)) (s : ClientSession Keys Tx)
      → view (send_packet env r s).0 ≡ view s
  send_packet-view (ok packet) s = refl
  send_packet-view (err e) s = refl
  send_packet-view panic s = refl

  queue_encoded-view :
      (session : Session Keys) (r : Result FrameError (List ℕ)) (s : ClientSession Keys Tx)
      → is_some s.udp_session ≡ true
      → view (queue_encoded env session r s).0 ≡ view s
  unfolding queue_encoded
  queue_encoded-view session (ok bytes) s h =
      let (session', result) = send env.crypto session bytes in
      send_packet-view result (record s { udp_session = some session' })
      ∙ ap (λ b. record (view s) { has_udp = b }) (sym h)
  queue_encoded-view session (err e) s h = refl
  queue_encoded-view session panic s h = refl

  queue_on-view :
      (o : Option (Session Keys)) (r : Result FrameError (List ℕ)) (s : ClientSession Keys Tx)
      → is_some s.udp_session ≡ is_some o
      → view (queue_on env o r s).0 ≡ view s
  queue_on-view none r s h = refl
  queue_on-view (some session) r s h = queue_encoded-view session r s h

  pub queue_udp_message-view :
      (m : Message) (s : ClientSession Keys Tx) → view (queue_udp_message env m s).0 ≡ view s
  unfolding queue_udp_message
  queue_udp_message-view m s = queue_on-view s.udp_session (encode_message m []) s refl

  pub send_tcp_fallback_request-view :
      (s : ClientSession Keys Tx) → view (send_tcp_fallback_request env s).0 ≡ view s
  unfolding send_tcp_fallback_request
  send_tcp_fallback_request-view s =
      if_both (KeepsView s) (is_some s.pending_tcp_fallback) _ _ (λ t. refl)
        (λ f.
          let s' = note random_u64 s in
          let m =
            fallback_to_tcp
              (encode_fallback_to_tcp (record { fallback_id = env.random s'.calls }) []) in
          follow-view (send_tcp_message env m s') _ (λ a t. refl) ∙ send_tcp_message-view m s')

  recover_on_tcp-view :
      (o : Option Message) (recovery : UdpFailureRecovery) (s : ClientSession Keys Tx)
      → view (recover_on_tcp env o recovery s).0 ≡ view s
  unfolding recover_on_tcp
  recover_on_tcp-view none retry_message_on_tcp s = send_tcp_fallback_request-view s
  recover_on_tcp-view (some m) retry_message_on_tcp s =
      follow-view (send_tcp_fallback_request env s) _ (λ a t. send_tcp_message-view m t)
      ∙ send_tcp_fallback_request-view s
  recover_on_tcp-view none signal_tcp_fallback s = send_tcp_fallback_request-view s
  recover_on_tcp-view (some m) signal_tcp_fallback s = send_tcp_fallback_request-view s
  recover_on_tcp-view none retire_only s = refl
  recover_on_tcp-view (some m) retire_only s = refl

  -- A UDP failure ends with the session back on TCP, or with the error.
  pub apply_udp_failure_recovery-retired :
      (o : Option Message) (recovery : UdpFailureRecovery) (e : SessionError)
      (s : ClientSession Keys Tx)
      → Ends EndsRetired (apply_udp_failure_recovery env o recovery e (retire_udp_transport s))
  unfolding apply_udp_failure_recovery retire_udp_transport
  apply_udp_failure_recovery-retired o recovery e s =
      if_both (Ends EndsRetired) s.tcp_alive _ _
        (λ alive.
          to_Ends
            (recover_on_tcp env o recovery (set_active_transport tcp (retire_udp_transport s)))
            IsRetired
            (recover_on_tcp-view o recovery (set_active_transport tcp (retire_udp_transport s))
              ∙ set_active_transport-view tcp (retire_udp_transport s)
              ∙ ap (λ b. record retired { tcp_alive = b }) alive))
        (λ dead. tt)

  recover_from_udp_send_error-retired :
      (m : Message) (recovery : UdpFailureRecovery) (e : UdpQspError) (s : ClientSession Keys Tx)
      → Ends EndsRetired (recover_from_udp_send_error env m recovery e s)
  unfolding recover_from_udp_send_error
  recover_from_udp_send_error-retired m recovery (UdpQspError.frame e) s = tt
  recover_from_udp_send_error-retired m recovery (qsp e) s =
      apply_udp_failure_recovery-retired (some m) recovery (udp_qsp (qsp e)) s
  recover_from_udp_send_error-retired m recovery (qsp_io e) s =
      apply_udp_failure_recovery-retired (some m) recovery (udp_qsp (qsp_io e)) s
  recover_from_udp_send_error-retired m recovery (UdpQspError.io e) s =
      apply_udp_failure_recovery-retired (some m) recovery (udp_qsp (UdpQspError.io e)) s

  pub recover_from_udp_flush_error-retired :
      (o : Option Message) (recovery : UdpFailureRecovery) (e : IoError) (s : ClientSession Keys Tx)
      → Ends EndsRetired (recover_from_udp_flush_error env o recovery e s)
  unfolding recover_from_udp_flush_error
  recover_from_udp_flush_error-retired o recovery e s =
      apply_udp_failure_recovery-retired o recovery (udp_qsp (UdpQspError.io e)) s

  on_error-view :
      {E : Type 0} (r : ClientSession Keys Tx × Result E (Unit {0}))
      (k : E → ClientSession Keys Tx → ClientSession Keys Tx × Result SessionError (Unit {0}))
      (v : View)
      → view r.0 ≡ v
      → ((e : E) (t : ClientSession Keys Tx) → Ends EndsRetired (k e t))
      → Ends (EndsKept v) (on_error r k)
  on_error-view (s, ok a) k v h f = inl h
  on_error-view (s, err e) k v h f =
      Ends-map (k e s) EndsRetired (EndsKept v) (f e s) (λ a t g. inr g)
  on_error-view (s, panic) k v h f = tt

  pub send_udp_message-view :
      (m : Message) (recovery : UdpFailureRecovery) (s : ClientSession Keys Tx)
      → Ends (EndsKept (view s)) (send_udp_message env m recovery s)
  unfolding send_udp_message
  send_udp_message-view m recovery s =
      on_error-view (queue_udp_message env m s) _ (view s) (queue_udp_message-view m s)
        (recover_from_udp_send_error-retired m recovery)

  flush_udp_session-view : (s : ClientSession Keys Tx) → view (flush_udp_session env s).0 ≡ view s
  unfolding flush_udp_session
  flush_udp_session-view s =
      if_both (KeepsView s) (is_some s.udp_session) _ _ (λ t. refl) (λ f. refl)

  pub send_udp_message_and_flush-view :
      (m : Message) (recovery : UdpFailureRecovery) (s : ClientSession Keys Tx)
      → Ends (EndsKept (view s)) (send_udp_message_and_flush env m recovery s)
  unfolding send_udp_message_and_flush
  send_udp_message_and_flush-view m recovery s =
      Ends-follow (send_udp_message env m recovery s) _ (EndsKept (view s)) (EndsKept (view s))
        (send_udp_message-view m recovery s)
        (λ a t h.
          Ends-map
            (on_error (flush_udp_session env t)
              (recover_from_udp_flush_error env (some m) recovery))
            (EndsKept (view t)) (EndsKept (view s))
            (on_error-view (flush_udp_session env t) _ (view t) (flush_udp_session-view t)
              (recover_from_udp_flush_error-retired (some m) recovery))
            (λ b u g. kept_then (view s) (view t) (view u) h g))
