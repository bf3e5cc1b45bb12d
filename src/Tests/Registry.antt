-- ===== src/Tests/Registry.antt =====
-- The registry of slt-server/src/registry.rs with two clients.
use slt.Prelude.{
  ℕ, ◌≡◌, ◌≢◌, ◌↔◌, ◌⊎◌, refl, sym, ap, inl, inr, arith, [], ◌∷◌, some, none, ok, err,
  if◌then◌else◌,
}
use slt.Prelude.Maps.{Key, same, insert, insert-found, empty}
use slt.Server.Registry.{Registry, SessionHandle, CidRoute, new, register_session, remove_session}
use slt.Server.Registry.{insert_cid, lookup_ip, lookup_cid, active_session_id, stale_session}
use slt.Server.Registry.{prefix_collision}
use slt.Server.Registry.Invariant.{IsWellFormed}
use slt.Server.Registry.Register.{IsFree}
use slt.Server.Registry.Reach.{IsReachable, start, next, registered, IsOwn, reachable-IsWellFormed}
use slt.Server.Registry.Effects.{
  register_session-replaces, remove_session-forgets, insert_cid-outcomes,
}

abbrev alice : Key
alice = 1 ∷ []

abbrev address : Key
address = 10 ∷ 0 ∷ 0 ∷ 2 ∷ []

abbrev prefix : Key
prefix = 7 ∷ 7 ∷ []

abbrev one_session : Registry ℕ
one_session = (register_session new alice address 100).0

abbrev first_handle : SessionHandle ℕ
first_handle = record { session_id = 1; client_id = alice; assigned_ipv4 = address; tx = 100 }

first-IsFree : IsFree {Tx = ℕ} new alice address
unfolding new IsFree
first-IsFree c h e = cc e

first-IsReachable : IsReachable one_session
unfolding new
first-IsReachable =
    next new one_session start (registered alice address 100 first-IsFree (omega arith))

alice_active : one_session.sessions alice ≡ some first_handle
unfolding register_session new insert same
alice_active = refl

reachable-IsWellFormed_example : IsWellFormed one_session
reachable-IsWellFormed_example = reachable-IsWellFormed one_session first-IsReachable

register_session-replaces_example :
    (lookup_ip (register_session one_session alice address 200).0 address ≡ some 200)
    × ((p : Key) (route : CidRoute ℕ)
        → ((register_session one_session alice address 200).0.cid_routes p ≡ some route)
          ↔ ((one_session.cid_routes p ≡ some route) × (route.session_id ≢ 1)))
    × (lookup_ip (register_session one_session alice address 200).0 address
        ≡ (if same address address then some 200 else none))
register_session-replaces_example =
    register_session-replaces one_session alice address 200 first_handle alice_active

first-IsOwn : IsOwn one_session 1 alice address
unfolding IsOwn register_session new
first-IsOwn c h e i = elim (insert-found alice first_handle empty c h e) [
  | inl (at_c, is) ↦ (sym at_c, sym (ap (λ x. x.assigned_ipv4) is))
  | inr (other, none_yet) ↦ cc none_yet
]

remove_session-forgets_example :
    ((c : Key) (h : SessionHandle ℕ)
      → ((remove_session one_session 1 alice address).sessions c ≡ some h)
        ↔ ((one_session.sessions c ≡ some h) × (h.session_id ≢ 1)))
    × ((j : Key) (h : SessionHandle ℕ)
        → ((remove_session one_session 1 alice address).ip_routes j ≡ some h)
          ↔ ((one_session.ip_routes j ≡ some h) × (h.session_id ≢ 1)))
    × ((p : Key) (route : CidRoute ℕ)
        → ((remove_session one_session 1 alice address).cid_routes p ≡ some route)
          ↔ ((one_session.cid_routes p ≡ some route) × (route.session_id ≢ 1)))
remove_session-forgets_example =
    remove_session-forgets one_session 1 alice address
      (reachable-IsWellFormed one_session first-IsReachable) first-IsOwn

insert_cid-outcomes_example :
    ((active_session_id (one_session.sessions alice) ≢ some 1)
      × (insert_cid one_session alice 1 prefix 100
          ≡ err (stale_session alice 1 (active_session_id (one_session.sessions alice)))))
    ⊎ (((active_session_id (one_session.sessions alice) ≡ some 1)
          × ((route : CidRoute ℕ) × (one_session.cid_routes prefix ≡ some route)
              × (route.session_id ≢ 1))
          × (insert_cid one_session alice 1 prefix 100 ≡ err (prefix_collision prefix)))
        ⊎ ((active_session_id (one_session.sessions alice) ≡ some 1)
            × ((one_session.cid_routes prefix ≡ none)
                ⊎ ((route : CidRoute ℕ) × (one_session.cid_routes prefix ≡ some route)
                    × (route.session_id ≡ 1)))
            × ((s : Registry ℕ) × (insert_cid one_session alice 1 prefix 100 ≡ ok s)
                × (lookup_cid s prefix ≡ some 100)
                × ((q : Key) → prefix ≢ q → lookup_cid s q ≡ lookup_cid one_session q))))
insert_cid-outcomes_example = insert_cid-outcomes one_session alice 1 prefix 100
