-- ===== src/Server/Registry/Register.antt =====
-- `register_session` of slt-server/src/registry.rs keeps the registry well formed.
use slt.Prelude.{◌<◌, ◌≡◌, ◌≢◌, sym, ap, ◌∙◌, arith, some, inl, inr, ◌⊎◌}
use slt.Prelude.Maps.{Key, insert-found, insert-here, insert-other}
use slt.Server.Registry.{Registry, SessionHandle, CidRoute, register_session, u64_max}
use slt.Server.Registry.{replace_ip_route}
use slt.Server.Registry.Invariant.{IsWellFormed}
use slt.Server.Registry.Routes.{
  replace_ip_route-found, replace_ip_route-other, replace_cid_routes-found,
}

-- No client but `client` has an active session with the address.
unfoldable pub IsFree : {Tx : Type 0} → Registry Tx → Key → Key → Type 0
IsFree {Tx} r client ip =
    (c : Key) (h : SessionHandle Tx) → r.sessions c ≡ some h → h.assigned_ipv4 ≡ ip → c ≡ client

module _ {Tx : Type 0} (r : Registry Tx) (w : IsWellFormed r) (client ip : Key) (tx : Tx)
    (free : IsFree r client ip) (room : r.next_session_id < u64_max) where
  abbrev after : Registry Tx
  after = (register_session r client ip tx).0

  abbrev handle : SessionHandle Tx
  handle = (register_session r client ip tx).1

  session-found :
      (c : Key) (h : SessionHandle Tx)
      → after.sessions c ≡ some h
      → ((client ≡ c) × (handle ≡ h)) ⊎ ((client ≢ c) × (r.sessions c ≡ some h))
  unfolding register_session
  session-found c h e = insert-found client handle r.sessions c h e

  -- The session that is replaced, if there is one, is the client's.
  old-client : (o : SessionHandle Tx) → r.sessions client ≡ some o → o.client_id ≡ client
  old-client o e = w.named client o e

  routed_after :
      (c : Key) (h : SessionHandle Tx)
      → after.sessions c ≡ some h
      → after.ip_routes h.assigned_ipv4 ≡ some h
  unfolding register_session IsFree
  routed_after c h e = elim (session-found c h e) [
    | inl (at_c, is) ↦ rw (← is) (insert-here ip handle _)
    | inr (other, before) ↦
        insert-other ip handle _ h.assigned_ipv4 (λ i. other (sym (free c h before (sym i))))
        ∙ replace_ip_route-other (r.sessions client) ip r.ip_routes h.assigned_ipv4 (λ o f g.
          let route_o : r.ip_routes h.assigned_ipv4 ≡ some o =
            ap r.ip_routes (sym g) ∙ w.routed client o f in
          let is : o ≡ h = cc (route_o, w.routed c h before) in
          other (sym (old-client o f) ∙ ap (λ x. x.client_id) is ∙ w.named c h before))
        ∙ w.routed c h before
  ]

  ip_active_after :
      (j : Key) (h : SessionHandle Tx)
      → after.ip_routes j ≡ some h
      → (h.assigned_ipv4 ≡ j) × (after.sessions h.client_id ≡ some h)
  unfolding register_session
  ip_active_after j h e =
      elim (insert-found ip handle (replace_ip_route (r.sessions client) ip r.ip_routes) j h e) [
        | inl (at_j, is) ↦ rw (← is) (at_j, insert-here client handle r.sessions)
        | inr (other, kept) ↦
            let (before, not_old) =
              replace_ip_route-found (r.sessions client) ip r.ip_routes j h other kept in
            let (at_j, active) = w.ip_active j h before in
            (
              at_j,
              insert-other client handle r.sessions h.client_id
                    (λ c. not_old h (ap r.sessions c ∙ active) at_j)
                  ∙ active,
            )
      ]

  cid_active_after :
      (p : Key) (route : CidRoute Tx)
      → after.cid_routes p ≡ some route
      → (c : Key) × (h : SessionHandle Tx) × (after.sessions c ≡ some h)
        × (h.session_id ≡ route.session_id)
  unfolding register_session
  cid_active_after p route e =
      let (before, not_old) = replace_cid_routes-found (r.sessions client) r.cid_routes p route e in
      let (c, h, active, owns) = w.cid_active p route before in
      (
        c,
        h,
        insert-other client handle r.sessions c (λ k. not_old h (rw (← k) at active) (sym owns))
            ∙ active,
        owns,
      )

  older_after :
      (c : Key) (h : SessionHandle Tx)
      → after.sessions c ≡ some h
      → h.session_id < after.next_session_id
  unfolding register_session
  older_after c h e = elim (session-found c h e) [
    | inl (at_c, is) ↦ rw (← is) (omega (arith, room))
    | inr (other, before) ↦ omega (arith, room, w.older c h before)
  ]

  unique_after :
      (c d : Key) (h k : SessionHandle Tx)
      → after.sessions c ≡ some h
      → after.sessions d ≡ some k
      → h.session_id ≡ k.session_id
      → c ≡ d
  unfolding register_session
  unique_after c d h k e f s = elim (session-found c h e) [
    | inl (at_c, is) ↦ elim (session-found d k f) [
      | inl (at_d, is_k) ↦ sym at_c ∙ at_d
      | inr (other, before) ↦
          let id : r.next_session_id ≡ h.session_id = ap (λ x. x.session_id) is in
          absurd (omega (arith, id, s, w.older d k before))
    ]
    | inr (other, before) ↦ elim (session-found d k f) [
      | inl (at_d, is_k) ↦
          let id : r.next_session_id ≡ k.session_id = ap (λ x. x.session_id) is_k in
          absurd (omega (arith, id, s, w.older c h before))
      | inr (other_k, before_k) ↦ w.unique c d h k before before_k s
    ]
  ]

  named_after : (c : Key) (h : SessionHandle Tx) → after.sessions c ≡ some h → h.client_id ≡ c
  unfolding register_session
  named_after c h e = elim (session-found c h e) [
    | inl (at_c, is) ↦ sym (ap (λ x. x.client_id) is) ∙ at_c
    | inr (other, before) ↦ w.named c h before
  ]

  pub register_session-IsWellFormed : IsWellFormed (register_session r client ip tx).0
  register_session-IsWellFormed = record {
    named = named_after;
    older = older_after;
    unique = unique_after;
    routed = routed_after;
    ip_active = ip_active_after;
    cid_active = cid_active_after;
  }
