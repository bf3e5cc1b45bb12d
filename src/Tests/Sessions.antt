-- ===== src/Tests/Sessions.antt =====
-- Sessions of slt-server/src/sessions, run in an environment whose packets are their plain text.
use slt.Prelude.{
  ℕ, ◌≡◌, refl, arith, List, [], ◌∷◌, ◌++◌, replicate, Option, none, some, false, true, ok, err,
}
use slt.Prelude.{slice}
use slt.Proto.Admissibility.{validate_message}
use slt.Server.Upgrade
use slt.Prelude.Actions.{Ends, ◌>>◌}
use slt.Cid.{Cid}
use slt.Proto.Message.{Message, udp_ready, from_mtu, tunnel_data, encode_message, ty, payload}
use slt.Proto.Framing.{encode_frame}
use slt.Proto.Kinds.{to_byte}
use slt.Prelude.Bytes.{to_be, from_be}
use slt.Proto.Payloads.Registration.{aes128_gcm, decode_register_cid}
use slt.Proto.Payloads.Upgrade.{
  encode_upgrade_probe, encode_udp_ready, encode_switch_ack, decode_udp_ready,
}
use slt.Qsp.Crypto.{Crypto, crypto_fail}
use slt.Qsp.Session.{
  Session, send, protect_next, maybe_rotate_tx_keys, rotate_loop, rotate_round, defaults,
  next_rekey_after, crypto,
}
use slt.Qsp.Session
use slt.Qsp.Replay
use slt.Server.Registry
use slt.Server.Registry.{Registry}
use slt.Server.Upgrade.{reset_udp_upgrade_state}
use slt.Server.Sessions.{
  ClientSession, Environment, IoError, written, continue, new, udp, accepted, qsp_io, not_connected,
}
use slt.Server.Sessions.Egress.{queue_udp_message, queue_encoded}
use slt.Server.Sessions.Forward.{handle_tun_packet}
use slt.Server.Sessions.Handshake.{handle_upgrade_probe, handle_udp_ready, handle_switch_ack}
use slt.Server.Sessions.Register.{handle_register_cid}
use slt.Server.Sessions.Lifecycle.{}
use slt.Server.Sessions.Tcp.{handle_tcp_read}
use slt.Server.Upgrade.Heard.{silence}
use slt.Server.Sessions.View.{view}
use slt.Server.Sessions.Invariant.{IsConsistent}
use slt.Server.Sessions.Invariant.Reach.{start, next, buffered, reachable-IsConsistent}
use slt.Server.Sessions.Success.{Succeeds, TcpWorks, IsWorking}
use slt.Server.Sessions.Requests.{Committed, request_for}
use slt.Server.Sessions.Commit.{handshake-commits}
use slt.Server.Sessions.Recovery.{FellBack, handle_tun_packet-falls_back}
use slt.Server.Sessions.Registration.{Outcome, handle_register_cid-outcomes}

abbrev plain : Crypto ℕ
plain = record {
  protect_into = λ k dcid pn key_phase payload. ok payload;
  open_into = λ k len packet expected. err crypto_fail;
  with_next_tx_keys = λ k. ok k;
  with_next_rx_keys = λ k. ok k;
  try_clone = λ k. ok k;
}

-- The error of a UDP send is a parameter; all else works.
abbrev env : Option IoError → Environment ℕ
env e = record {
  crypto = plain;
  from_register = λ register. ok 7;
  key_update_error = λ calls. none;
  tcp_write_result = λ calls. written;
  udp_send_error = λ calls. e;
  udp_flush_error = λ calls. none;
  has_pending_flush = λ calls. false;
  create_io_error = λ calls. none;
  random = λ calls. 5;
  now = λ calls. 100;
  tun_outcome = λ calls. ok accepted;
}

works_tcp : (e : Option IoError) → TcpWorks (env e)
works_tcp e = record { key_update = λ calls. refl; tcp_write = λ calls. refl }

works : IsWorking (env none)
works = record { on_tcp = works_tcp none; udp_send = λ calls. refl; udp_flush = λ calls. refl }

abbrev created : ClientSession ℕ ℕ
created =
    new 1 (1 ∷ []) (10 ∷ 0 ∷ 0 ∷ 2 ∷ []) Registry.new 9 (from_mtu 1400)
      (record { ping_min = 10; ping_max = 10; udp_liveness_timeout = 30; idle_timeout = 60 })
      (aes128_gcm ∷ []) 0

-- A ready message with ID 3 arrives on TCP.
abbrev told : List Message
told = udp_ready (0 ∷ 0 ∷ 0 ∷ 0 ∷ 0 ∷ 0 ∷ 0 ∷ 3 ∷ []) ∷ []

abbrev readied : ClientSession ℕ ℕ
readied = (handle_tcp_read (env none) told none created).0

read_step : handle_tcp_read (env none) told none created ≡ (readied, ok continue)
unfolding handle_tcp_read new validate_message ty decode_udp_ready slice Upgrade.note_upgrade_id
read_step = refl

ready_noted : (readied.udp_upgrade.ready_seen ≡ true) × (readied.udp_upgrade.upgrade_id ≡ some 3)
unfolding handle_tcp_read new validate_message ty decode_udp_ready slice Upgrade.note_upgrade_id
    from_be
ready_noted = (refl, refl)

reachable-IsConsistent_example :
    IsConsistent (record { probes = []; readies = 3 ∷ [] }) (view readied)
unfolding decode_udp_ready slice from_be new
reachable-IsConsistent_example =
    reachable-IsConsistent (env none) readied (record { probes = []; readies = 3 ∷ [] })
      (next created readied (record { probes = []; readies = 3 ∷ [] }) silence
        (start 1 (1 ∷ []) (10 ∷ 0 ∷ 0 ∷ 2 ∷ []) Registry.new 9 (from_mtu 1400) _ _ 0)
        (buffered told none readied refl read_step))

abbrev cid : ℕ → Cid
cid b = record { len = 4; bytes = replicate 4 b ++ replicate 16 0 }

abbrev udp_session : Session ℕ
udp_session = Session.new (cid 1) (cid 2) 7 0 0 false

abbrev ready_to_upgrade : ClientSession ℕ ℕ
ready_to_upgrade = record created { udp_session = some udp_session }

handshake-commits_example :
    Succeeds
      (λ c t. Committed 3 (request_for 3 ∷ []) t)
      ((handle_upgrade_probe
            (env none)
            (encode_upgrade_probe (record { upgrade_id = 3; nonce = 8 }) [])
          >> handle_udp_ready (env none) (encode_udp_ready (record { upgrade_id = 3 }) [])
          >> handle_switch_ack (env none) (encode_switch_ack (record { upgrade_id = 3 }) []))
        ready_to_upgrade)
    × Succeeds
        (λ c t. Committed 3 (request_for 3 ∷ []) t)
        ((handle_udp_ready (env none) (encode_udp_ready (record { upgrade_id = 3 }) [])
            >> handle_upgrade_probe
                (env none)
                (encode_upgrade_probe (record { upgrade_id = 3; nonce = 8 }) [])
            >> handle_switch_ack (env none) (encode_switch_ack (record { upgrade_id = 3 }) []))
          ready_to_upgrade)
unfolding send protect_next maybe_rotate_tx_keys rotate_loop rotate_round Session.new Replay.new
    defaults next_rekey_after new reset_udp_upgrade_state
handshake-commits_example =
    handshake-commits (env none) works udp_session 3 8 [] _ [] ready_to_upgrade (omega arith)
      (omega arith) refl refl
      (record { upgrade = refl; transport = refl; sent_frames = refl; writable = refl }, refl)

abbrev on_udp : ClientSession ℕ ℕ
on_udp = record ready_to_upgrade { active_transport = udp }

handle_tun_packet-falls_back_example :
    Succeeds
      (λ c t. FellBack (tunnel_data (1 ∷ 2 ∷ [])) on_udp t)
      (handle_tun_packet (env (some not_connected)) (1 ∷ 2 ∷ []) on_udp)
unfolding queue_udp_message queue_encoded encode_message encode_frame ty payload to_be to_byte send
    protect_next maybe_rotate_tx_keys rotate_loop rotate_round Session.new Replay.new defaults
    next_rekey_after new from_mtu
handle_tun_packet-falls_back_example =
    handle_tun_packet-falls_back (env (some not_connected)) (1 ∷ 2 ∷ []) (qsp_io not_connected)
      on_udp (works_tcp (some not_connected)) (omega arith) (omega arith) refl refl refl refl refl
      refl

abbrev registration : List ℕ
registration =
    20 ∷ replicate 20 1 ++ 4 ∷ replicate 4 2 ++ 1 ∷ replicate 64 7 ++ replicate 16 0 ++ 0 ∷ []

handle_register_cid-outcomes_example :
    Ends
      (λ c t. Outcome (env none) (decode_register_cid registration) created t)
      (handle_register_cid (env none) registration created)
handle_register_cid-outcomes_example = handle_register_cid-outcomes (env none) registration created
