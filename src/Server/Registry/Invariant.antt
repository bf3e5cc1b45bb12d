-- ===== src/Server/Registry/Invariant.antt =====
-- What the registry of slt-server/src/registry.rs keeps true, through every method.
use slt.Prelude.{◌<◌, ◌≡◌, some}
use slt.Prelude.Maps.{Key}
use slt.Server.Registry.{Registry, SessionHandle, CidRoute, new}

-- Every table agrees with the others: a session stands under its client, its identifier is one that was
-- given out and no other session's, its address leads to it, and every route leads to an active session.
pub record IsWellFormed {Tx : Type 0} (r : Registry Tx) : Type 0 where
  pub named : (c : Key) (h : SessionHandle Tx) → r.sessions c ≡ some h → h.client_id ≡ c
  pub older :
      (c : Key) (h : SessionHandle Tx) → r.sessions c ≡ some h → h.session_id < r.next_session_id
  pub unique :
      (c d : Key) (h k : SessionHandle Tx)
      → r.sessions c ≡ some h
      → r.sessions d ≡ some k
      → h.session_id ≡ k.session_id
      → c ≡ d
  pub routed :
      (c : Key) (h : SessionHandle Tx)
      → r.sessions c ≡ some h
      → r.ip_routes h.assigned_ipv4 ≡ some h
  pub ip_active :
      (ip : Key) (h : SessionHandle Tx)
      → r.ip_routes ip ≡ some h
      → (h.assigned_ipv4 ≡ ip) × (r.sessions h.client_id ≡ some h)
  pub cid_active :
      (p : Key) (route : CidRoute Tx)
      → r.cid_routes p ≡ some route
      → (c : Key) × (h : SessionHandle Tx) × (r.sessions c ≡ some h)
        × (h.session_id ≡ route.session_id)

pub new-IsWellFormed : {Tx : Type 0} → IsWellFormed (new {Tx = Tx})
unfolding new
new-IsWellFormed = record {
  named = λ c h e. cc e;
  older = λ c h e. cc e;
  unique = λ c d h k e f s. cc e;
  routed = λ c h e. cc e;
  ip_active = λ ip h e. cc e;
  cid_active = λ p route e. cc e;
}
