-- ===== src/Server/Sessions/Register.antt =====
-- The handler of `RegisterCid`: slt-server/src/sessions/register.rs.
use slt.Prelude.{ℕ, List, [], ◌∷◌, Option, none, some}
use slt.Prelude.{if◌then◌else◌, Result, ok, err, panic}
use slt.Prelude.Maps.{Key}
use slt.Prelude.Actions.{◌>>=◌, ◌>>◌, return, fail, modify, lift_result}
use slt.Cid
use slt.Cid.{CidError, CidPrefix}
use slt.Proto.Message.{register_ok, register_fail}
use slt.Proto.Payloads.Errors.{
  PayloadError, length_mismatch, length_too_short, invalid_client_to_server_cid_len,
  invalid_server_to_client_cid_len, invalid_cipher, invalid_auth_fail_code,
  invalid_register_fail_code, invalid_close_code, invalid_key_phase,
}
use slt.Proto.Payloads.Registration.{
  RegisterCidPayload, decode_register_cid, RegisterFailCode, invalid_cipher_code, invalid_cid,
  invalid_keys, encode_register_ok, encode_register_fail,
}
use slt.Qsp.Crypto.{
  QspCryptoError, unsupported_cipher, packet_too_short, invalid_header, invalid_packet_number,
  crypto_fail,
}
use slt.Qsp.Session
use slt.Qsp.Session.{Session}
use slt.Server.Registry.{Registry, CidInsertError, insert_cid, remove_cids_for_session_except}
use slt.Server.Upgrade.{reset_udp_upgrade_state}
use slt.Server.Sessions.{
  ClientSession, Handler, Environment, SessionControl, continue, IoError, connection,
  payload_encode, allows, note, create_io,
}
use slt.Server.Sessions.Egress.{send_tcp_message}

unfoldable pub register_decode_fail_code : PayloadError → RegisterFailCode
register_decode_fail_code (invalid_cipher b) = invalid_cipher_code
register_decode_fail_code (length_mismatch a b) = invalid_keys
register_decode_fail_code (invalid_key_phase b) = invalid_keys
register_decode_fail_code (length_too_short a b) = invalid_cid
register_decode_fail_code (invalid_client_to_server_cid_len n) = invalid_cid
register_decode_fail_code (invalid_server_to_client_cid_len n) = invalid_cid
register_decode_fail_code (invalid_auth_fail_code b) = invalid_cid
register_decode_fail_code (invalid_register_fail_code b) = invalid_cid
register_decode_fail_code (invalid_close_code b) = invalid_cid

unfoldable pub crypto_fail_code : QspCryptoError → RegisterFailCode
crypto_fail_code unsupported_cipher = invalid_cipher_code
crypto_fail_code packet_too_short = invalid_keys
crypto_fail_code invalid_header = invalid_keys
crypto_fail_code invalid_packet_number = invalid_keys
crypto_fail_code crypto_fail = invalid_keys
crypto_fail_code QspCryptoError.invalid_cid = invalid_keys

module _ {Keys Tx : Type 0} where
  -- The session with its new UDP session, registered and with the upgrade started anew.
  unfoldable pub with_udp_session :
      RegisterCidPayload → Keys → ClientSession Keys Tx → ClientSession Keys Tx
  unfolding Session.new reset_udp_upgrade_state
  with_udp_session register keys s = record s {
    udp_session = some (
        Session.new register.client_to_server_cid register.server_to_client_cid keys
          register.pn_start register.pn_start_rx register.key_phase);
    udp_peer_packet_number = none;
    last_authenticated_udp_activity = none;
    udp_upgrade = reset_udp_upgrade_state;
  }

  -- The routes of the session's earlier CIDs go, the new one stays.
  abbrev pub with_only_cid : Registry Tx → Key → ClientSession Keys Tx → ClientSession Keys Tx
  with_only_cid registry prefix s = record s {
    registry = remove_cids_for_session_except registry s.session_id prefix;
  }

  module _ (env : Environment Keys) where
    unfoldable pub send_register_fail : RegisterFailCode → Handler Keys Tx (Unit {0})
    unfolding send_tcp_message
    send_register_fail code =
        send_tcp_message env (register_fail (encode_register_fail (record { code = code }) []))

    -- `self.send_register_fail(code).await?; return Ok(SessionControl::Continue)`
    unfoldable pub refuse : RegisterFailCode → Handler Keys Tx SessionControl
    unfolding send_register_fail
    refuse code = do send_register_fail code; return continue

    abbrev pub create_result : Option IoError → Handler Keys Tx (Unit {0})
    create_result none = return tt
    create_result (some e) = fail (connection e)

    -- `udp_io_factory.create(placeholder_peer)`
    unfoldable pub create_udp_io : Handler Keys Tx (Unit {0})
    create_udp_io s =
        let s' = note (create_io (record { ip = 0 ∷ 0 ∷ 0 ∷ 0 ∷ []; port = 0 })) s in
        create_result (env.create_io_error s'.calls) s'

    -- The handler behind `insert_cid`.
    unfoldable pub accept_register :
        RegisterCidPayload → Keys → Key → Registry Tx → Handler Keys Tx SessionControl
    unfolding create_udp_io with_udp_session send_tcp_message
    accept_register register keys prefix registry = do
      modify (with_only_cid registry prefix)
      create_udp_io
      modify (with_udp_session register keys)
      ok_buf ←
          lift_result payload_encode (
            encode_register_ok (record { client_to_server_cid = register.client_to_server_cid }) [])
      send_tcp_message env (register_ok ok_buf)
      return continue

    -- The outcome of `insert_cid`.
    unfoldable pub judge_insert :
        RegisterCidPayload
        → Keys
        → Key
        → Result CidInsertError (Registry Tx)
        → Handler Keys Tx SessionControl
    unfolding accept_register refuse
    judge_insert register keys prefix (ok registry) = accept_register register keys prefix registry
    judge_insert register keys prefix (err e) = refuse invalid_cid
    judge_insert register keys prefix panic = λ s. (s, panic)

    unfoldable pub judge_prefix :
        RegisterCidPayload → Keys → Result CidError CidPrefix → Handler Keys Tx SessionControl
    unfolding judge_insert refuse
    judge_prefix register keys (ok prefix) = λ s.
        judge_insert register keys prefix.bytes
          (insert_cid s.registry s.client_id s.session_id prefix.bytes s.tx) s
    judge_prefix register keys (err e) = refuse invalid_cid
    judge_prefix register keys panic = λ s. (s, panic)

    unfoldable pub judge_keys :
        RegisterCidPayload → Result QspCryptoError Keys → Handler Keys Tx SessionControl
    unfolding judge_prefix refuse
    judge_keys register (ok keys) =
        judge_prefix register keys (Cid.prefix register.client_to_server_cid)
    judge_keys register (err e) = refuse (crypto_fail_code e)
    judge_keys register panic = λ s. (s, panic)

    unfoldable pub judge_register :
        Result PayloadError RegisterCidPayload → Handler Keys Tx SessionControl
    unfolding judge_keys refuse
    judge_register (ok register) = λ s.
        if allows s.allowed_ciphers register.cipher
        then judge_keys register (env.from_register register) s
        else refuse invalid_cipher_code s
    judge_register (err e) = refuse (register_decode_fail_code e)
    judge_register panic = λ s. (s, panic)

    unfoldable pub handle_register_cid : List ℕ → Handler Keys Tx SessionControl
    unfolding judge_register
    handle_register_cid payload = judge_register (decode_register_cid payload)
