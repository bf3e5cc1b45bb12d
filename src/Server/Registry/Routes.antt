-- ===== src/Server/Registry/Routes.antt =====
-- The changes that slt-server/src/registry.rs makes to one table: what a changed table still holds.
use slt.Prelude.{ℕ, ◌≡◌, ◌≢◌, refl, sym, ap, ◌∙◌, arith, Option, none, some, not, true, false, ◌==◌}
use slt.Prelude.{Bool-cases, inl, inr, ==_iff}
use slt.Prelude.Maps.{Key, Map, same, same-eq, remove, remove-found, remove-other}
use slt.Prelude.Maps.{retain-found, retain-keeps}
use slt.Server.Registry.{SessionHandle, CidRoute, without_session, is_session, remove_if_session}
use slt.Server.Registry.{replace_ip_route, replace_cid_routes}

module _ {Tx : Type 0} where
  pub without_session-found :
      (id : ℕ) (m : Map (CidRoute Tx)) (p : Key) (route : CidRoute Tx)
      → without_session id m p ≡ some route
      → (m p ≡ some route) × (route.session_id ≢ id)
  unfolding without_session
  without_session-found id m p route h =
      let (before, kept) = retain-found (λ q x. not (x.session_id == id)) m p route h in
      (before, λ e. ground (arith, kept, e))

  pub without_session-kept :
      (id : ℕ) (m : Map (CidRoute Tx)) (p : Key) (route : CidRoute Tx)
      → m p ≡ some route
      → route.session_id ≢ id
      → without_session id m p ≡ some route
  unfolding without_session
  without_session-kept id m p route h n =
      retain-keeps (λ q x. not (x.session_id == id)) m p route h (ground (arith, n))

  pub replace_ip_route-found :
      (old : Option (SessionHandle Tx)) (ip : Key) (m : Map (SessionHandle Tx)) (j : Key)
      (h : SessionHandle Tx)
      → ip ≢ j
      → replace_ip_route old ip m j ≡ some h
      → (m j ≡ some h) × ((o : SessionHandle Tx) → old ≡ some o → o.assigned_ipv4 ≢ j)
  unfolding replace_ip_route
  replace_ip_route-found none ip m j h n e = (e, λ o f. cc f)
  replace_ip_route-found (some old) ip m j h n e = elim (Bool-cases (same old.assigned_ipv4 ip)) [
    | inl t ↦
        let kept : m j ≡ some h = rw t at e in
        let at_ip : old.assigned_ipv4 ≡ ip = same-eq old.assigned_ipv4 ip t in
        (kept, λ o f g. let is : old ≡ o = cc f in n (sym at_ip ∙ ap (λ x. x.assigned_ipv4) is ∙ g))
    | inr f ↦
        let kept : remove old.assigned_ipv4 m j ≡ some h = rw f at e in
        let (other, before) = remove-found old.assigned_ipv4 m j h kept in
        (before, λ o g k. let is : old ≡ o = cc g in other (ap (λ x. x.assigned_ipv4) is ∙ k))
  ]

  pub replace_ip_route-other :
      (old : Option (SessionHandle Tx)) (ip : Key) (m : Map (SessionHandle Tx)) (j : Key)
      → ((o : SessionHandle Tx) → old ≡ some o → o.assigned_ipv4 ≢ j)
      → replace_ip_route old ip m j ≡ m j
  unfolding replace_ip_route
  replace_ip_route-other none ip m j n = refl
  replace_ip_route-other (some old) ip m j n = elim (Bool-cases (same old.assigned_ipv4 ip)) [
    | inl t ↦ rw t refl
    | inr f ↦ rw f (remove-other old.assigned_ipv4 m j (n old refl))
  ]

  pub replace_cid_routes-found :
      (old : Option (SessionHandle Tx)) (m : Map (CidRoute Tx)) (p : Key) (route : CidRoute Tx)
      → replace_cid_routes old m p ≡ some route
      → (m p ≡ some route)
        × ((o : SessionHandle Tx) → old ≡ some o → route.session_id ≢ o.session_id)
  unfolding replace_cid_routes
  replace_cid_routes-found none m p route e = (e, λ o f. cc f)
  replace_cid_routes-found (some old) m p route e =
      let (before, other) = without_session-found old.session_id m p route e in
      (before, λ o f g. let is : old ≡ o = cc f in other (g ∙ sym (ap (λ x. x.session_id) is)))

  pub remove_if_session-found :
      (id : ℕ) (key : Key) (m : Map (SessionHandle Tx)) (j : Key) (h : SessionHandle Tx)
      → remove_if_session id key m j ≡ some h
      → (m j ≡ some h) × (key ≡ j → h.session_id ≢ id)
  unfolding remove_if_session
  remove_if_session-found id key m j h e = elim (Bool-cases (is_session id (m key))) [
    | inl t ↦
        let kept : remove key m j ≡ some h = rw t at e in
        let (other, before) = remove-found key m j h kept in (before, λ f. absurd (other f))
    | inr f ↦
        let kept : m j ≡ some h = rw f at e in
        (
          kept,
          λ k g.
              let at_key : is_session id (m j) ≡ false = rw k at f in
              let tested : (h.session_id == id) ≡ false = rw kept at at_key in
              ground (arith, tested, g),
        )
  ]

  pub remove_if_session-kept :
      (id : ℕ) (key : Key) (m : Map (SessionHandle Tx)) (j : Key) (h : SessionHandle Tx)
      → m j ≡ some h
      → h.session_id ≢ id
      → remove_if_session id key m j ≡ some h
  unfolding remove_if_session
  remove_if_session-kept id key m j h before n = elim (Bool-cases (is_session id (m key))) [
    | inl t ↦ rw t (
        remove-other key m j (λ e.
          let at_j : is_session id (m j) ≡ true = rw e at t in
          let tested : (h.session_id == id) ≡ true = rw before at at_j in
          n ((==_iff h.session_id id).0 tested))
        ∙ before)
    | inr f ↦ rw f before
  ]
