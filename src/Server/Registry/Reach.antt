-- ===== src/Server/Registry/Reach.antt =====
-- The methods of slt-server/src/registry.rs as steps, and what holds after every sequence of them.
use slt.Prelude.{ℕ, ◌<◌, ◌≡◌, ◌≢◌, refl, sym, ap, ◌∙◌, Option, none, some, true, false, not, ◌==◌}
use slt.Prelude.{inl, inr, Bool-cases, ==_iff, ok, ◌||◌}
use slt.Prelude.Maps.{Key, Map, same, insert-found, insert, retain-found}
use slt.Server.Registry.{Registry, SessionHandle, CidRoute, new, register_session, remove_session}
use slt.Server.Registry.{
  insert_cid, add_cid_route, remove_cids_for_session, remove_cids_for_session_except,
}
use slt.Server.Registry.{is_session, is_foreign, u64_max}
use slt.Server.Registry.Invariant.{IsWellFormed, new-IsWellFormed}
use slt.Server.Registry.Routes.{
  remove_if_session-found, remove_if_session-kept, without_session-found,
}
use slt.Server.Registry.Register.{IsFree, register_session-IsWellFormed}

-- The session of the identifier, if it is active, is the client's and has the address.
unfoldable pub IsOwn : {Tx : Type 0} → Registry Tx → ℕ → Key → Key → Type 0
IsOwn {Tx} r id client ip =
    (c : Key) (h : SessionHandle Tx)
    → r.sessions c ≡ some h
    → h.session_id ≡ id
    → (c ≡ client) × (h.assigned_ipv4 ≡ ip)

pub remove_session-IsWellFormed :
    {Tx : Type 0} (r : Registry Tx) (id : ℕ) (client ip : Key)
    → IsWellFormed r
    → IsOwn r id client ip
    → IsWellFormed (remove_session r id client ip)
unfolding remove_session IsOwn
remove_session-IsWellFormed {Tx} r id client ip w own = record {
  named = λ c h e. w.named c h (before c h e);
  older = λ c h e. w.older c h (before c h e);
  unique = λ c d h k e f s. w.unique c d h k (before c h e) (before d k f) s;
  routed = λ c h e.
      remove_if_session-kept id ip r.ip_routes h.assigned_ipv4 h (w.routed c h (before c h e))
        (λ i. gone c h e (sym (own c h (before c h e) i).0) i);
  ip_active = λ j h e.
      let (was, not_id) = remove_if_session-found id ip r.ip_routes j h e in
      let (at_j, active) = w.ip_active j h was in
      (
        at_j,
        remove_if_session-kept id client r.sessions h.client_id h active
            (λ i. not_id (sym (own h.client_id h active i).1 ∙ at_j) i),
      );
  cid_active = λ p route e.
      let (was, other) = without_session-found id r.cid_routes p route e in
      let (c, h, active, owns) = w.cid_active p route was in
      (
        c,
        h,
        remove_if_session-kept id client r.sessions c h active (λ i. other (sym owns ∙ i)),
        owns,
      );
}
  where
    before :
        (c : Key) (h : SessionHandle Tx)
        → (remove_session r id client ip).sessions c ≡ some h
        → r.sessions c ≡ some h
    before c h e = (remove_if_session-found id client r.sessions c h e).0

    gone :
        (c : Key) (h : SessionHandle Tx)
        → (remove_session r id client ip).sessions c ≡ some h
        → client ≡ c
        → h.session_id ≢ id
    gone c h e = (remove_if_session-found id client r.sessions c h e).1

-- Only the CID routes change, and each route leads to an active session.
with_cid_routes :
    {Tx : Type 0} (r : Registry Tx) (routes : Map (CidRoute Tx))
    → IsWellFormed r
    → ((p : Key) (route : CidRoute Tx)
        → routes p ≡ some route
        → (c : Key) × (h : SessionHandle Tx) × (r.sessions c ≡ some h)
          × (h.session_id ≡ route.session_id))
    → IsWellFormed (record {
      next_session_id = r.next_session_id;
      sessions = r.sessions;
      ip_routes = r.ip_routes;
      cid_routes = routes;
    })
with_cid_routes r routes w active = record {
  named = w.named;
  older = w.older;
  unique = w.unique;
  routed = w.routed;
  ip_active = w.ip_active;
  cid_active = active;
}

is_session-found :
    {Tx : Type 0} (id : ℕ) (o : Option (SessionHandle Tx))
    → is_session id o ≡ true
    → (h : SessionHandle Tx) × (o ≡ some h) × (h.session_id ≡ id)
is_session-found id none e = cc e
is_session-found id (some h) e = (h, refl, (==_iff h.session_id id).0 e)

-- `insert_cid` succeeds exactly when the session is the client's active one and no other session
-- owns the prefix; it then changes that route alone.
pub insert_cid_ok :
    {Tx : Type 0} (r r' : Registry Tx) (client : Key) (id : ℕ) (p : Key) (tx : Tx)
    → insert_cid r client id p tx ≡ ok r'
    → (is_session id (r.sessions client) ≡ true)
      × (is_foreign id (r.cid_routes p) ≡ false)
      × (add_cid_route r id p tx ≡ r')
unfolding insert_cid
insert_cid_ok r r' client id p tx e = elim (Bool-cases (is_session id (r.sessions client))) [
  | inl t ↦ elim (Bool-cases (is_foreign id (r.cid_routes p))) [
    | inl f ↦ let e' = rw (t, f) at e in cc e'
    | inr n ↦ let e' : ok (add_cid_route r id p tx) ≡ ok r' = rw (t, n) at e in (t, n, cc e')
  ]
  | inr n ↦ let e' = rw n at e in cc e'
]

insert_cid-IsWellFormed :
    {Tx : Type 0} (r r' : Registry Tx) (client : Key) (id : ℕ) (p : Key) (tx : Tx)
    → IsWellFormed r
    → insert_cid r client id p tx ≡ ok r'
    → IsWellFormed r'
unfolding add_cid_route
insert_cid-IsWellFormed {Tx} r r' client id p tx w e =
    let (active, own, is) = insert_cid_ok r r' client id p tx e in
    let (h, found, owns) = is_session-found id (r.sessions client) active in
    let route : CidRoute Tx = record { session_id = id; tx = tx } in
    rw (← is) (
      with_cid_routes r (insert p route r.cid_routes) w λ q x k.
        elim (insert-found p route r.cid_routes q x k) [
          | inl (at_q, same_route) ↦ (client, h, found, owns ∙ ap (λ y. y.session_id) same_route)
          | inr (other, before) ↦ w.cid_active q x before
        ])

-- One call of a method that changes the registry, under what its callers keep to: a registered address is
-- no other client's, the counter has room, and a session is removed under its own client and address.
pub data Step {Tx : Type 0} (r : Registry Tx) : Registry Tx → Type 0 where
  registered :
      (client ip : Key) (tx : Tx)
      → IsFree r client ip
      → r.next_session_id < u64_max
      → Step r (register_session r client ip tx).0
  removed :
      (id : ℕ) (client ip : Key) → IsOwn r id client ip → Step r (remove_session r id client ip)
  cid_inserted :
      (r' : Registry Tx) (client : Key) (id : ℕ) (p : Key) (tx : Tx)
      → insert_cid r client id p tx ≡ ok r'
      → Step r r'
  cids_removed : (id : ℕ) → Step r (remove_cids_for_session r id)
  cids_removed_except : (id : ℕ) (p : Key) → Step r (remove_cids_for_session_except r id p)

pub data IsReachable {Tx : Type 0} : Registry Tx → Type 0 where
  start : IsReachable new
  next : (r s : Registry Tx) → IsReachable r → Step r s → IsReachable s

Step-IsWellFormed : {Tx : Type 0} (r s : Registry Tx) → IsWellFormed r → Step r s → IsWellFormed s
unfolding remove_cids_for_session remove_cids_for_session_except
Step-IsWellFormed r _ w (registered client ip tx free room) =
    register_session-IsWellFormed r w client ip tx free room
Step-IsWellFormed r _ w (removed id client ip own) =
    remove_session-IsWellFormed r id client ip w own
Step-IsWellFormed r s w (cid_inserted _ client id p tx e) =
    insert_cid-IsWellFormed r s client id p tx w e
Step-IsWellFormed r _ w (cids_removed id) =
    with_cid_routes r _ w
      (λ p route e. w.cid_active p route (without_session-found id r.cid_routes p route e).0)
Step-IsWellFormed r _ w (cids_removed_except id p) = with_cid_routes r _ w (λ q route e.
    w.cid_active q route
      (retain-found (λ k x. not (x.session_id == id) || same k p) r.cid_routes q route e).0)

-- After every sequence of registrations, removals and CID changes from the empty registry, in which each
-- registered address is no other client's, the identifier counter has not reached its 64-bit end, and
-- sessions are removed under their own client and address: sessions have distinct identifiers, every
-- session's address leads to it, and every IP route and CID route leads to an active session.
pub reachable-IsWellFormed : {Tx : Type 0} (r : Registry Tx) → IsReachable r → IsWellFormed r
reachable-IsWellFormed _ start = new-IsWellFormed
reachable-IsWellFormed _ (next r s reach step) =
    Step-IsWellFormed r s (reachable-IsWellFormed r reach) step
