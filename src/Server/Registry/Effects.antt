-- ===== src/Server/Registry/Effects.antt =====
-- What each method of slt-server/src/registry.rs changes, and what it leaves alone.
use slt.Prelude.{ℕ, ◌≡◌, ◌≢◌, refl, sym, ap, ◌∙◌, arith, Option, none, some, true, false, ◌⊎◌}
use slt.Prelude.{inl, inr, Bool-cases, ==_iff, ok, err, ◌↔◌, if◌then◌else◌}
use slt.Prelude.Maps.{
  Key, Map, same, Key-cases, same-ne, same_refl, insert-here, insert-other, remove-here,
}
use slt.Server.Registry.{
  Registry, SessionHandle, CidRoute, register_session, remove_session, insert_cid,
}
use slt.Server.Registry.{lookup_cid, lookup_ip, replace_cid_routes, replace_ip_route, add_cid_route}
use slt.Server.Registry.{
  stale_session, prefix_collision, is_session, is_foreign, active_session_id, handle_tx, route_tx,
}
use slt.Server.Registry.Invariant.{IsWellFormed}
use slt.Server.Registry.Routes.{
  replace_cid_routes-found, without_session-found, without_session-kept,
}
use slt.Server.Registry.Routes.{remove_if_session-found, remove_if_session-kept}
use slt.Server.Registry.Reach.{IsOwn}

module _ {Tx : Type 0} where
  replace_cid_routes-kept :
      (old : Option (SessionHandle Tx)) (m : Map (CidRoute Tx)) (p : Key) (route : CidRoute Tx)
      → m p ≡ some route
      → ((o : SessionHandle Tx) → old ≡ some o → route.session_id ≢ o.session_id)
      → replace_cid_routes old m p ≡ some route
  unfolding replace_cid_routes
  replace_cid_routes-kept none m p route e n = e
  replace_cid_routes-kept (some old) m p route e n =
      without_session-kept old.session_id m p route e (n old refl)

  replace_ip_route-gone :
      (o : SessionHandle Tx) (ip : Key) (m : Map (SessionHandle Tx))
      → o.assigned_ipv4 ≢ ip
      → replace_ip_route (some o) ip m o.assigned_ipv4 ≡ none
  unfolding replace_ip_route
  replace_ip_route-gone o ip m n = rw (same-ne o.assigned_ipv4 ip n) (remove-here o.assigned_ipv4 m)

lookup_ip-some :
    {Tx : Type 0} (r : Registry Tx) (ip : Key) (h : SessionHandle Tx)
    → r.ip_routes ip ≡ some h
    → lookup_ip r ip ≡ some h.tx
unfolding lookup_ip
lookup_ip-some r ip h e = ap handle_tx e

lookup_ip-none :
    {Tx : Type 0} (r : Registry Tx) (ip : Key) → r.ip_routes ip ≡ none → lookup_ip r ip ≡ none
unfolding lookup_ip
lookup_ip-none r ip e = ap handle_tx e

lookup_cid-add :
    {Tx : Type 0} (r : Registry Tx) (id : ℕ) (p : Key) (tx : Tx)
    → (lookup_cid (add_cid_route r id p tx) p ≡ some tx)
      × ((q : Key) → p ≢ q → lookup_cid (add_cid_route r id p tx) q ≡ lookup_cid r q)
unfolding lookup_cid add_cid_route
lookup_cid-add r id p tx =
    let route : CidRoute _ = record { session_id = id; tx = tx } in
    (
      ap route_tx (insert-here p route r.cid_routes),
      λ q n. ap route_tx (insert-other p route r.cid_routes q n),
    )

is_foreign-found :
    {Tx : Type 0} (id : ℕ) (o : Option (CidRoute Tx))
    → is_foreign id o ≡ true
    → (route : CidRoute Tx) × (o ≡ some route) × (route.session_id ≢ id)
is_foreign-found id none e = cc e
is_foreign-found id (some route) e = (route, refl, λ i. ground (arith, e, i))

active-is_session :
    {Tx : Type 0} (id : ℕ) (o : Option (SessionHandle Tx))
    → is_session id o ≡ true
    → active_session_id o ≡ some id
active-is_session id none e = cc e
active-is_session id (some h) e = ap some ((==_iff h.session_id id).0 e)

active-not_session :
    {Tx : Type 0} (id : ℕ) (o : Option (SessionHandle Tx))
    → is_session id o ≡ false
    → active_session_id o ≢ some id
active-not_session id none e f = cc f
active-not_session id (some h) e f = let i : h.session_id ≡ id = cc f in ground (arith, e, i)

not_foreign :
    {Tx : Type 0} (id : ℕ) (o : Option (CidRoute Tx))
    → is_foreign id o ≡ false
    → (o ≡ none) ⊎ ((route : CidRoute Tx) × (o ≡ some route) × (route.session_id ≡ id))
not_foreign id none e = inl refl
not_foreign id (some route) e = inr (route, refl, ground (arith, e))

-- When a registration replaces a session of the same client, the address leads to the new channel, the
-- CID routes left are exactly those of other sessions, and the address of the replaced session leads to
-- the new channel if it stayed the same and nowhere otherwise.
pub register_session-replaces :
    {Tx : Type 0} (r : Registry Tx) (client ip : Key) (tx : Tx) (old : SessionHandle Tx)
    → r.sessions client ≡ some old
    → (lookup_ip (register_session r client ip tx).0 ip ≡ some tx)
      × ((p : Key) (route : CidRoute Tx)
          → ((register_session r client ip tx).0.cid_routes p ≡ some route)
            ↔ ((r.cid_routes p ≡ some route) × (route.session_id ≢ old.session_id)))
      × (lookup_ip (register_session r client ip tx).0 old.assigned_ipv4
          ≡ (if same old.assigned_ipv4 ip then some tx else none))
unfolding register_session
register_session-replaces {Tx} r client ip tx old e = (
  at_ip,
  λ p route. (
    λ k.
        let (was, other) = replace_cid_routes-found (r.sessions client) r.cid_routes p route k in
        (was, other old e),
    λ k. rw e (
        replace_cid_routes-kept (some old) r.cid_routes p route k.0
          (λ o f g. let is : old ≡ o = cc f in k.1 (g ∙ sym (ap (λ x. x.session_id) is)))),
  ),
  elim (Key-cases old.assigned_ipv4 ip) [
    | inl i ↦ rw (i, same_refl ip) at_ip
    | inr n ↦
        let gone : routes old.assigned_ipv4 ≡ none =
          rw e (replace_ip_route-gone old ip r.ip_routes n) in
        rw (same-ne old.assigned_ipv4 ip n) (
          lookup_ip-none (register_session r client ip tx).0 old.assigned_ipv4
            (insert-other ip handle routes old.assigned_ipv4 (λ i. n (sym i)) ∙ gone))
  ],
)
  where
    handle : SessionHandle Tx
    handle = (register_session r client ip tx).1

    routes : Map (SessionHandle Tx)
    routes = replace_ip_route (r.sessions client) ip r.ip_routes

    at_ip : lookup_ip (register_session r client ip tx).0 ip ≡ some tx
    at_ip =
        lookup_ip-some (register_session r client ip tx).0 ip handle (insert-here ip handle routes)

-- Removing a session under its own client and address from a well-formed registry leaves exactly the
-- session entries, the IP routes and the CID routes of the other sessions.
pub remove_session-forgets :
    {Tx : Type 0} (r : Registry Tx) (id : ℕ) (client ip : Key)
    → IsWellFormed r
    → IsOwn r id client ip
    → ((c : Key) (h : SessionHandle Tx)
        → ((remove_session r id client ip).sessions c ≡ some h)
          ↔ ((r.sessions c ≡ some h) × (h.session_id ≢ id)))
      × ((j : Key) (h : SessionHandle Tx)
          → ((remove_session r id client ip).ip_routes j ≡ some h)
            ↔ ((r.ip_routes j ≡ some h) × (h.session_id ≢ id)))
      × ((p : Key) (route : CidRoute Tx)
          → ((remove_session r id client ip).cid_routes p ≡ some route)
            ↔ ((r.cid_routes p ≡ some route) × (route.session_id ≢ id)))
unfolding remove_session IsOwn
remove_session-forgets r id client ip w own = (
  λ c h. (
    λ e.
        let (was, not_id) = remove_if_session-found id client r.sessions c h e in
        (was, λ i. not_id (sym (own c h was i).0) i),
    λ k. remove_if_session-kept id client r.sessions c h k.0 k.1,
  ),
  λ j h. (
    λ e.
        let (was, not_id) = remove_if_session-found id ip r.ip_routes j h e in
        let (at_j, active) = w.ip_active j h was in
        (was, λ i. not_id (sym (own h.client_id h active i).1 ∙ at_j) i),
    λ k. remove_if_session-kept id ip r.ip_routes j h k.0 k.1,
  ),
  λ p route. (
    without_session-found id r.cid_routes p route,
    λ k. without_session-kept id r.cid_routes p route k.0 k.1,
  ),
)

-- The three outcomes of inserting a CID prefix. If the session is not the client's active one, the error
-- names the active one. Else, if another session owns the prefix, the insertion is refused. Else it
-- succeeds: the prefix leads to the given channel and every other prefix leads where it did.
pub insert_cid-outcomes :
    {Tx : Type 0} (r : Registry Tx) (client : Key) (id : ℕ) (p : Key) (tx : Tx)
    → ((active_session_id (r.sessions client) ≢ some id)
        × (insert_cid r client id p tx
            ≡ err (stale_session client id (active_session_id (r.sessions client)))))
      ⊎ (((active_session_id (r.sessions client) ≡ some id)
            × ((route : CidRoute Tx) × (r.cid_routes p ≡ some route) × (route.session_id ≢ id))
            × (insert_cid r client id p tx ≡ err (prefix_collision p)))
          ⊎ ((active_session_id (r.sessions client) ≡ some id)
              × ((r.cid_routes p ≡ none)
                  ⊎ ((route : CidRoute Tx) × (r.cid_routes p ≡ some route)
                      × (route.session_id ≡ id)))
              × ((s : Registry Tx) × (insert_cid r client id p tx ≡ ok s)
                  × (lookup_cid s p ≡ some tx)
                  × ((q : Key) → p ≢ q → lookup_cid s q ≡ lookup_cid r q))))
unfolding insert_cid
insert_cid-outcomes r client id p tx = elim (Bool-cases (is_session id (r.sessions client))) [
  | inr n ↦ inl (active-not_session id _ n, rw n refl)
  | inl t ↦ elim (Bool-cases (is_foreign id (r.cid_routes p))) [
    | inl f ↦ inr (inl (active-is_session id _ t, is_foreign-found id _ f, rw (t, f) refl))
    | inr g ↦
        let (here, others) = lookup_cid-add r id p tx in
        inr (
          inr (
            active-is_session id _ t,
            not_foreign id _ g,
            (add_cid_route r id p tx, rw (t, g) refl, here, others),
          ))
  ]
]
