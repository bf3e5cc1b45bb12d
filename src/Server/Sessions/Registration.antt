-- ===== src/Server/Sessions/Registration.antt =====
-- What a registration changes: `handle_register_cid` of slt-server/src/sessions/register.rs with the registry.
use slt.Prelude.{
  ℕ, ◌≡◌, refl, ap, List, [], ◌∷◌, Option, none, some, Bool, true, false, not, ◌||◌, ◌==◌, Result,
  ok, err, panic, ◌⊎◌, inl, inr, ==_refl, ==_iff,
}
use slt.Prelude.Maps.{
  Key, same, same_refl, same-eq, retain-found, retain-keeps, insert, insert-here,
}
use slt.Prelude.Actions.{follow, Ends, Ends-follow, Ends-lift, if_both, along}
use slt.Cid
use slt.Cid.{Cid, CidError, CidPrefix}
use slt.Proto.Framing.{FrameError}
use slt.Proto.Message.{Message, encode_message, register_ok, register_fail}
use slt.Proto.Payloads.Errors.{PayloadError}
use slt.Proto.Payloads.Registration.{
  RegisterCidPayload, decode_register_cid, RegisterFailCode, encode_register_ok,
  encode_register_fail, invalid_cid, invalid_cipher_code,
}
use slt.Qsp.Crypto.{QspCryptoError}
use slt.Qsp.Session
use slt.Qsp.Session.{Session}
use slt.Server.Registry.{
  Registry, CidRoute, CidInsertError, insert_cid, add_cid_route, lookup_cid, route_tx,
  remove_cids_for_session_except,
}
use slt.Server.Upgrade.{reset_udp_upgrade_state}
use slt.Server.Registry.Reach.{insert_cid_ok}
use slt.Server.Sessions.{
  ClientSession, Environment, SessionError, IoError, SessionControl, continue, Call, key_update,
  tcp_write, create_io, note, payload_encode, allows,
}
use slt.Server.Sessions.Egress.{
  write_frame, with_keys_updated, send_tcp_message_inner, send_tcp_message,
}
use slt.Server.Sessions.Register.{
  with_udp_session, with_only_cid, send_register_fail, refuse, create_result, create_udp_io,
  accept_register, judge_insert, judge_prefix, judge_keys, judge_register, handle_register_cid,
  register_decode_fail_code, crypto_fail_code,
}

-- Nothing that UDP depends on has changed.
abbrev pub Refused : {Keys Tx : Type 0} → ClientSession Keys Tx → ClientSession Keys Tx → Type 0
Refused s t =
    (t.registry ≡ s.registry)
    × (t.udp_session ≡ s.udp_session)
    × (t.udp_upgrade ≡ s.udp_upgrade)
    × (t.active_transport ≡ s.active_transport)

-- The session has the UDP session of the payload, with no upgrade under way, and the prefix of its CID is the one
-- prefix that leads to the session.
pub record Accepted {Keys Tx : Type 0} (env : Environment Keys) (register : RegisterCidPayload)
    (s t : ClientSession Keys Tx) : Type 0 where
  pub keys : Keys
  pub prefix : CidPrefix
  pub keys_derived : env.from_register register ≡ ok keys
  pub cipher_allowed : allows s.allowed_ciphers register.cipher ≡ true
  pub prefix_of : Cid.prefix register.client_to_server_cid ≡ ok prefix
  pub udp_session :
      t.udp_session
      ≡ some (
          Session.new register.client_to_server_cid register.server_to_client_cid keys
            register.pn_start register.pn_start_rx register.key_phase)
  pub upgrade : t.udp_upgrade ≡ reset_udp_upgrade_state
  pub transport : t.active_transport ≡ s.active_transport
  pub routed : lookup_cid t.registry prefix.bytes ≡ some s.tx
  pub only :
      (q : Key) (route : CidRoute Tx)
      → t.registry.cid_routes q ≡ some route
      → route.session_id ≡ s.session_id
      → q ≡ prefix.bytes

-- The registry after the two calls of the handler.
registered-routed :
    {Tx : Type 0} (r : Registry Tx) (id : ℕ) (p : Key) (tx : Tx)
    → lookup_cid (remove_cids_for_session_except (add_cid_route r id p tx) id p) p ≡ some tx
unfolding lookup_cid remove_cids_for_session_except add_cid_route
registered-routed r id p tx = ap route_tx (
    retain-keeps _ (insert p (record { session_id = id; tx = tx }) r.cid_routes) p _
      (insert-here p _ r.cid_routes) (rw (==_refl id, same_refl p) refl))

registered-only :
    {Tx : Type 0} (r : Registry Tx) (id : ℕ) (p q : Key) (route : CidRoute Tx)
    → (remove_cids_for_session_except r id p).cid_routes q ≡ some route
    → route.session_id ≡ id
    → q ≡ p
unfolding remove_cids_for_session_except
registered-only r id p q route e i =
    let kept = (retain-found _ r.cid_routes q route e).1 in
    same-eq q p
      (kept_same (route.session_id == id) (same q p) kept ((==_iff route.session_id id).1 i))
  where
    kept_same : (a b : Bool) → (not a || b) ≡ true → a ≡ true → b ≡ true
    kept_same true b h t = h
    kept_same false b h t = cc t

module _ {Keys Tx : Type 0} (env : Environment Keys) where
  -- Writing to TCP adds calls and resets the marker, and changes nothing else.
  abbrev Wrote : ClientSession Keys Tx → ClientSession Keys Tx → Type 0
  Wrote s t =
      (calls : List Call) × (b : Bool) × (t ≡ record s { calls = calls; tcp_write_interrupted = b })

  abbrev Written : ClientSession Keys Tx → ClientSession Keys Tx → Type 0
  Written s t = (calls : List Call) × (t ≡ record s { calls = calls })

  write_frame-Written :
      (m : Message) (r : Result FrameError (List ℕ)) (s : ClientSession Keys Tx)
      → Written s (write_frame env m r s).0
  unfolding write_frame
  write_frame-Written m (ok bytes) s = (tcp_write m ∷ s.calls, refl)
  write_frame-Written m (err e) s = (s.calls, refl)
  write_frame-Written m panic s = (s.calls, refl)

  keys-Written :
      (o : Option IoError) (m : Message) (s : ClientSession Keys Tx)
      → Written s (with_keys_updated env o m s).0
  keys-Written none m s = write_frame-Written m (encode_message m []) s
  keys-Written (some e) m s = (s.calls, refl)

  send_tcp_message-Wrote :
      (m : Message) (s : ClientSession Keys Tx) → Wrote s (send_tcp_message env m s).0
  unfolding send_tcp_message send_tcp_message_inner
  send_tcp_message-Wrote m s =
      if_both (λ (r : ClientSession Keys Tx × Result SessionError (Unit {0})). Wrote s r.0)
        s.tcp_write_interrupted _ _ (λ t. (s.calls, s.tcp_write_interrupted, refl))
        (λ f.
          let s' = note key_update (record s { tcp_write_interrupted = true }) in
          let (calls, e) = keys-Written (env.key_update_error s'.calls) m s' in
          (
            calls,
            false,
            ap (λ (t : ClientSession Keys Tx). record t { tcp_write_interrupted = false }) e,
          ))

  -- The last step of the handler: a message, of which the property does not depend.
  send_last :
      (P : ClientSession Keys Tx → Type 0) (m : Message) (s : ClientSession Keys Tx)
      → ((calls : List Call) (b : Bool) → P (record s { calls = calls; tcp_write_interrupted = b }))
      → Ends (λ c t. P t) (follow (send_tcp_message env m s) (λ _ t. (t, ok continue)))
  send_last P m s h =
      let (calls, b, e) = send_tcp_message-Wrote m s in
      last (send_tcp_message env m s)
        (along P (record s { calls = calls; tcp_write_interrupted = b }) _ e (h calls b))
    where
      last :
          (r : ClientSession Keys Tx × Result SessionError (Unit {0}))
          → P r.0
          → Ends (λ c t. P t) (follow r (λ _ t. (t, ok continue)))
      last (t, ok u) k = k
      last (t, err e) k = tt
      last (t, panic) k = tt

  abbrev pub Outcome :
      Result PayloadError RegisterCidPayload
      → ClientSession Keys Tx
      → ClientSession Keys Tx
      → Type 0
  Outcome r s t =
      Refused s t
      ⊎ ((register : RegisterCidPayload) × (r ≡ ok register) × Accepted env register s t)

  refuse-Refused :
      (r : Result PayloadError RegisterCidPayload) (code : RegisterFailCode)
      (s : ClientSession Keys Tx)
      → Ends (λ c t. Outcome r s t) (refuse env code s)
  unfolding refuse send_register_fail
  refuse-Refused r code s =
      send_last (Outcome r s) (register_fail (encode_register_fail (record { code = code }) [])) s
        (λ calls b. inl (refl, refl, refl, refl))

  create_result-Written :
      (o : Option IoError) (s : ClientSession Keys Tx) → Ends (λ _ t. t ≡ s) (create_result env o s)
  create_result-Written none s = refl
  create_result-Written (some e) s = tt

  accept_register-Accepted :
      (register : RegisterCidPayload) (keys : Keys) (prefix : CidPrefix) (registry : Registry Tx)
      (s : ClientSession Keys Tx)
      → env.from_register register ≡ ok keys
      → allows s.allowed_ciphers register.cipher ≡ true
      → Cid.prefix register.client_to_server_cid ≡ ok prefix
      → add_cid_route s.registry s.session_id prefix.bytes s.tx ≡ registry
      → Ends
          (λ c t. Outcome (ok register) s t)
          (accept_register env register keys prefix.bytes registry s)
  unfolding accept_register create_udp_io with_udp_session
  accept_register-Accepted register keys prefix registry s k a p e =
      let Q = λ (c : SessionControl) (t : ClientSession Keys Tx). Outcome (ok register) s t in
      let s' =
        note (create_io (record { ip = 0 ∷ 0 ∷ 0 ∷ 0 ∷ []; port = 0 }))
          (with_only_cid registry prefix.bytes s) in
      Ends-follow (create_result env (env.create_io_error s'.calls) s') _ (λ _ t. t ≡ s') Q
        (create_result-Written (env.create_io_error s'.calls) s')
        (λ u t same.
          Ends-lift payload_encode
            (encode_register_ok (record { client_to_server_cid = register.client_to_server_cid })
              [])
            _ Q (with_udp_session register keys t)
            (λ bytes.
              along
                (λ (v : ClientSession Keys Tx). Ends Q (
                  follow
                    (send_tcp_message env (register_ok bytes) (with_udp_session register keys v))
                    (λ _ w. (w, ok continue))))
                s' t same
                (send_last (Outcome (ok register) s) (register_ok bytes)
                  (with_udp_session register keys s')
                  (λ calls b. inr (
                    register,
                    refl,
                    record {
                      keys = keys;
                      prefix = prefix;
                      keys_derived = k;
                      cipher_allowed = a;
                      prefix_of = p;
                      udp_session = refl;
                      upgrade = refl;
                      transport = refl;
                      routed =
                          rw (← e) (registered-routed s.registry s.session_id prefix.bytes s.tx);
                      only = registered-only registry s.session_id prefix.bytes;
                    },
                  )))))

  judge_insert-Outcome :
      (register : RegisterCidPayload) (keys : Keys) (prefix : CidPrefix)
      (r : Result CidInsertError (Registry Tx)) (s : ClientSession Keys Tx)
      → env.from_register register ≡ ok keys
      → allows s.allowed_ciphers register.cipher ≡ true
      → Cid.prefix register.client_to_server_cid ≡ ok prefix
      → insert_cid s.registry s.client_id s.session_id prefix.bytes s.tx ≡ r
      → Ends (λ c t. Outcome (ok register) s t) (judge_insert env register keys prefix.bytes r s)
  unfolding judge_insert
  judge_insert-Outcome register keys prefix (ok registry) s k a p e =
      accept_register-Accepted register keys prefix registry s k a p
        (insert_cid_ok s.registry registry s.client_id s.session_id prefix.bytes s.tx e).2
  judge_insert-Outcome register keys prefix (err x) s k a p e =
      refuse-Refused (ok register) invalid_cid s
  judge_insert-Outcome register keys prefix panic s k a p e = tt

  judge_prefix-Outcome :
      (register : RegisterCidPayload) (keys : Keys) (r : Result CidError CidPrefix)
      (s : ClientSession Keys Tx)
      → env.from_register register ≡ ok keys
      → allows s.allowed_ciphers register.cipher ≡ true
      → Cid.prefix register.client_to_server_cid ≡ r
      → Ends (λ c t. Outcome (ok register) s t) (judge_prefix env register keys r s)
  unfolding judge_prefix
  judge_prefix-Outcome register keys (ok prefix) s k a p =
      judge_insert-Outcome register keys prefix _ s k a p refl
  judge_prefix-Outcome register keys (err e) s k a p = refuse-Refused (ok register) invalid_cid s
  judge_prefix-Outcome register keys panic s k a p = tt

  judge_keys-Outcome :
      (register : RegisterCidPayload) (r : Result QspCryptoError Keys) (s : ClientSession Keys Tx)
      → env.from_register register ≡ r
      → allows s.allowed_ciphers register.cipher ≡ true
      → Ends (λ c t. Outcome (ok register) s t) (judge_keys env register r s)
  unfolding judge_keys
  judge_keys-Outcome register (ok keys) s k a =
      judge_prefix-Outcome register keys (Cid.prefix register.client_to_server_cid) s k a refl
  judge_keys-Outcome register (err e) s k a = refuse-Refused (ok register) (crypto_fail_code e) s
  judge_keys-Outcome register panic s k a = tt

  judge_register-Outcome :
      (r : Result PayloadError RegisterCidPayload) (s : ClientSession Keys Tx)
      → Ends (λ c t. Outcome r s t) (judge_register env r s)
  unfolding judge_register
  judge_register-Outcome (ok register) s =
      if_both (Ends (λ (c : SessionControl) t. Outcome (ok register) s t))
        (allows s.allowed_ciphers register.cipher) _ _
        (λ a. judge_keys-Outcome register (env.from_register register) s refl a)
        (λ f. refuse-Refused (ok register) invalid_cipher_code s)
  judge_register-Outcome (err e) s = refuse-Refused (err e) (register_decode_fail_code e) s
  judge_register-Outcome panic s = tt

  -- A registration payload, whatever it holds, that the handler does not fail on is either refused, and then the
  -- registry, the UDP session, the upgrade and the preferred transport are as before; or it decodes, its cipher is
  -- allowed and its keys derive, and then the session has the UDP session of the payload, no upgrade under way and the
  -- transport it had, the prefix of the client's CID leads to the session, and no other prefix does.
  pub handle_register_cid-outcomes :
      (payload : List ℕ) (s : ClientSession Keys Tx)
      → Ends (λ c t. Outcome (decode_register_cid payload) s t) (handle_register_cid env payload s)
  unfolding handle_register_cid
  handle_register_cid-outcomes payload s = judge_register-Outcome (decode_register_cid payload) s
