-- ===== src/Server/Sessions/Invariant/Registering.antt =====
-- A registration keeps the session consistent.
use slt.Prelude.{refl, [], ◌∷◌, Option, none, some, true, Result, ok, err, panic}
use slt.Prelude.Maps.{Key}
use slt.Prelude.Actions.{follow, Ends, Ends-follow, Ends-lift, if_both}
use slt.Cid.{CidError, CidPrefix}
use slt.Proto.Message.{Message, register_ok, register_fail}
use slt.Proto.Payloads.Errors.{PayloadError}
use slt.Proto.Payloads.Registration.{
  RegisterCidPayload, RegisterFailCode, encode_register_ok, encode_register_fail, invalid_cid,
  invalid_cipher_code,
}
use slt.Proto.Payloads.Control.{}
use slt.Qsp.Crypto.{QspCryptoError}
use slt.Server.Registry.{Registry, CidInsertError, insert_cid}
use slt.Server.Upgrade.Attempt.{reset_udp_upgrade_state-IsAttempt}
use slt.Server.Sessions.{
  ClientSession, Environment, IoError, continue, payload_encode, allows, note, create_io,
}
use slt.Server.Sessions.Egress.{send_tcp_message}
use slt.Server.Sessions.View.{view}
use slt.Server.Sessions.Invariant.{Known, Inv, EndsInv, send_tcp_message-keeps}
use slt.Server.Sessions.Register.{
  with_udp_session, with_only_cid, send_register_fail, refuse, create_result, create_udp_io,
  accept_register, judge_insert, judge_prefix, judge_keys, judge_register,
  register_decode_fail_code, crypto_fail_code,
}
use slt.Server.Sessions.Forward.{}
use slt.Server.Sessions.Tcp.{}

module _ {Keys Tx : Type 0} (env : Environment Keys) (known : Known) where
  -- A message over TCP, then the end of the handler.
  pub send_last :
      (m : Message) (s : ClientSession Keys Tx)
      → Inv known (view s)
      → Ends (EndsInv known) (follow (send_tcp_message env m s) (λ _ t. (t, ok continue)))
  send_last m s h =
      Ends-follow (send_tcp_message env m s) _ (EndsInv known) (EndsInv known)
        (send_tcp_message-keeps env known (Inv known) m s h) (λ a t k. k)

  refuse-Inv :
      (code : RegisterFailCode) (s : ClientSession Keys Tx)
      → Inv known (view s)
      → Ends (EndsInv known) (refuse env code s)
  unfolding refuse send_register_fail
  refuse-Inv code s h =
      send_last (register_fail (encode_register_fail (record { code = code }) [])) s h

  create_result-Inv :
      (o : Option IoError) (s : ClientSession Keys Tx)
      → Inv known (view s)
      → Ends (EndsInv known) (create_result env o s)
  create_result-Inv none s h = h
  create_result-Inv (some e) s h = tt

  with_udp_session-Inv :
      (register : RegisterCidPayload) (keys : Keys) (s : ClientSession Keys Tx)
      → Inv known (view s)
      → Inv known (view (with_udp_session register keys s))
  unfolding with_udp_session
  with_udp_session-Inv register keys s (c, h) = (
    record {
      attempt = reset_udp_upgrade_state-IsAttempt true;
      connected = λ e. refl;
      live = c.live;
    },
    h,
  )

  accept_register-Inv :
      (register : RegisterCidPayload) (keys : Keys) (prefix : Key) (registry : Registry Tx)
      (s : ClientSession Keys Tx)
      → Inv known (view s)
      → Ends (EndsInv known) (accept_register env register keys prefix registry s)
  unfolding accept_register create_udp_io
  accept_register-Inv register keys prefix registry s h =
      let s' =
        note (create_io (record { ip = 0 ∷ 0 ∷ 0 ∷ 0 ∷ []; port = 0 }))
          (with_only_cid registry prefix s) in
      Ends-follow (create_result env (env.create_io_error s'.calls) s') _ (EndsInv known)
        (EndsInv known) (create_result-Inv (env.create_io_error s'.calls) s' h)
        (λ a t k.
          Ends-lift payload_encode
            (encode_register_ok (record { client_to_server_cid = register.client_to_server_cid })
              [])
            _ (EndsInv known) (with_udp_session register keys t)
            (λ bytes.
              send_last (register_ok bytes) (with_udp_session register keys t)
                (with_udp_session-Inv register keys t k)))

  judge_insert-Inv :
      (register : RegisterCidPayload) (keys : Keys) (prefix : Key)
      (r : Result CidInsertError (Registry Tx)) (s : ClientSession Keys Tx)
      → Inv known (view s)
      → Ends (EndsInv known) (judge_insert env register keys prefix r s)
  unfolding judge_insert
  judge_insert-Inv register keys prefix (ok registry) s h =
      accept_register-Inv register keys prefix registry s h
  judge_insert-Inv register keys prefix (err e) s h = refuse-Inv invalid_cid s h
  judge_insert-Inv register keys prefix panic s h = tt

  judge_prefix-Inv :
      (register : RegisterCidPayload) (keys : Keys) (r : Result CidError CidPrefix)
      (s : ClientSession Keys Tx)
      → Inv known (view s)
      → Ends (EndsInv known) (judge_prefix env register keys r s)
  unfolding judge_prefix
  judge_prefix-Inv register keys (ok prefix) s h =
      judge_insert-Inv register keys prefix.bytes
        (insert_cid s.registry s.client_id s.session_id prefix.bytes s.tx) s h
  judge_prefix-Inv register keys (err e) s h = refuse-Inv invalid_cid s h
  judge_prefix-Inv register keys panic s h = tt

  judge_keys-Inv :
      (register : RegisterCidPayload) (r : Result QspCryptoError Keys) (s : ClientSession Keys Tx)
      → Inv known (view s)
      → Ends (EndsInv known) (judge_keys env register r s)
  unfolding judge_keys
  judge_keys-Inv register (ok keys) s h = judge_prefix-Inv register keys _ s h
  judge_keys-Inv register (err e) s h = refuse-Inv (crypto_fail_code e) s h
  judge_keys-Inv register panic s h = tt

  pub judge_register-Inv :
      (r : Result PayloadError RegisterCidPayload) (s : ClientSession Keys Tx)
      → Inv known (view s)
      → Ends (EndsInv known) (judge_register env r s)
  unfolding judge_register
  judge_register-Inv (ok register) s h =
      if_both (Ends (EndsInv known)) (allows s.allowed_ciphers register.cipher) _ _
        (λ t. judge_keys-Inv register (env.from_register register) s h)
        (λ f. refuse-Inv invalid_cipher_code s h)
  judge_register-Inv (err e) s h = refuse-Inv (register_decode_fail_code e) s h
  judge_register-Inv panic s h = tt
