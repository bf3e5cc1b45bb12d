-- ===== src/Server/Registry.antt =====
-- The session registry: slt-server/src/registry.rs. A client identifier, an IPv4 address and a CID prefix
-- are byte strings; `Tx` stands for the sender of a session's event channel. Each method takes the
-- registry's lock for its whole body, so it is one step on the registry.
pub mod Invariant
pub mod Routes
pub mod Register
pub mod Reach
pub mod Effects
use slt.Prelude.{ℕ, ◌+◌, ◌^◌, ◌-◌, min, Option, none, some, Bool, not, ◌||◌, ◌==◌, if◌then◌else◌}
use slt.Prelude.{Result, ok, err, true, false}
use slt.Prelude.Maps.{Key, Map, same, empty, insert, remove, retain}

abbrev pub u64_max : ℕ
u64_max = 2 ^ 64 - 1

pub data CidInsertError : Type 0 where
  prefix_collision : Key → CidInsertError
  stale_session : Key → ℕ → Option ℕ → CidInsertError

pub record CidRoute (Tx : Type 0) : Type 0 where
  pub session_id : ℕ
  pub tx : Tx

pub record SessionHandle (Tx : Type 0) : Type 0 where
  pub session_id : ℕ
  pub client_id : Key
  pub assigned_ipv4 : Key
  pub tx : Tx

pub record Registry (Tx : Type 0) : Type 0 where
  pub next_session_id : ℕ
  pub sessions : Map (SessionHandle Tx)
  pub ip_routes : Map (SessionHandle Tx)
  pub cid_routes : Map (CidRoute Tx)

module _ {Tx : Type 0} where
  unfoldable pub new : Registry Tx
  new = record { next_session_id = 1; sessions = empty; ip_routes = empty; cid_routes = empty }

  -- `cid_routes.retain(|_, route| route.session_id != session_id)`
  unfoldable pub without_session : ℕ → Map (CidRoute Tx) → Map (CidRoute Tx)
  without_session session_id = retain (λ p route. not (route.session_id == session_id))

  -- The IP route of a replaced session is removed unless its address is the new one.
  unfoldable pub replace_ip_route :
      Option (SessionHandle Tx) → Key → Map (SessionHandle Tx) → Map (SessionHandle Tx)
  replace_ip_route none ip routes = routes
  replace_ip_route (some old) ip routes =
      if same old.assigned_ipv4 ip then routes else remove old.assigned_ipv4 routes

  unfoldable pub replace_cid_routes :
      Option (SessionHandle Tx) → Map (CidRoute Tx) → Map (CidRoute Tx)
  unfolding without_session
  replace_cid_routes none routes = routes
  replace_cid_routes (some old) routes = without_session old.session_id routes

  unfoldable pub register_session : Registry Tx → Key → Key → Tx → Registry Tx × SessionHandle Tx
  unfolding replace_ip_route replace_cid_routes
  register_session r client ip tx =
      let handle : SessionHandle Tx = record {
        session_id = r.next_session_id;
        client_id = client;
        assigned_ipv4 = ip;
        tx = tx;
      } in
      let old = r.sessions client in
      (
        record {
          next_session_id = min (r.next_session_id + 1) u64_max;
          sessions = insert client handle r.sessions;
          ip_routes = insert ip handle (replace_ip_route old ip r.ip_routes);
          cid_routes = replace_cid_routes old r.cid_routes;
        },
        handle,
      )

  -- `get(key).is_some_and(|handle| handle.session_id == session_id)`
  abbrev pub is_session : ℕ → Option (SessionHandle Tx) → Bool
  is_session session_id none = false
  is_session session_id (some handle) = handle.session_id == session_id

  -- Remove the entry at `key` if it is still the session's.
  unfoldable pub remove_if_session : ℕ → Key → Map (SessionHandle Tx) → Map (SessionHandle Tx)
  remove_if_session session_id key m = if is_session session_id (m key) then remove key m else m

  unfoldable pub remove_session : Registry Tx → ℕ → Key → Key → Registry Tx
  unfolding remove_if_session without_session
  remove_session r session_id client ip = record {
    next_session_id = r.next_session_id;
    sessions = remove_if_session session_id client r.sessions;
    ip_routes = remove_if_session session_id ip r.ip_routes;
    cid_routes = without_session session_id r.cid_routes;
  }

  -- A route that another session owns.
  abbrev pub is_foreign : ℕ → Option (CidRoute Tx) → Bool
  is_foreign session_id none = false
  is_foreign session_id (some route) = not (route.session_id == session_id)

  abbrev pub active_session_id : Option (SessionHandle Tx) → Option ℕ
  active_session_id none = none
  active_session_id (some handle) = some handle.session_id

  unfoldable pub add_cid_route : Registry Tx → ℕ → Key → Tx → Registry Tx
  add_cid_route r session_id prefix tx = record {
    next_session_id = r.next_session_id;
    sessions = r.sessions;
    ip_routes = r.ip_routes;
    cid_routes = insert prefix (record { session_id = session_id; tx = tx }) r.cid_routes;
  }

  unfoldable pub insert_cid : Registry Tx → Key → ℕ → Key → Tx → Result CidInsertError (Registry Tx)
  unfolding add_cid_route
  insert_cid r client session_id prefix tx =
      if is_session session_id (r.sessions client)
      then if is_foreign session_id (r.cid_routes prefix)
        then err (prefix_collision prefix)
        else ok (add_cid_route r session_id prefix tx)
      else err (stale_session client session_id (active_session_id (r.sessions client)))

  unfoldable pub remove_cids_for_session : Registry Tx → ℕ → Registry Tx
  unfolding without_session
  remove_cids_for_session r session_id = record {
    next_session_id = r.next_session_id;
    sessions = r.sessions;
    ip_routes = r.ip_routes;
    cid_routes = without_session session_id r.cid_routes;
  }

  unfoldable pub remove_cids_for_session_except : Registry Tx → ℕ → Key → Registry Tx
  remove_cids_for_session_except r session_id keep_prefix = record {
    next_session_id = r.next_session_id;
    sessions = r.sessions;
    ip_routes = r.ip_routes;
    cid_routes =
        retain (λ p route. not (route.session_id == session_id) || same p keep_prefix) r.cid_routes;
  }

  abbrev pub route_tx : Option (CidRoute Tx) → Option Tx
  route_tx none = none
  route_tx (some route) = some route.tx

  abbrev pub handle_tx : Option (SessionHandle Tx) → Option Tx
  handle_tx none = none
  handle_tx (some handle) = some handle.tx

  unfoldable pub lookup_cid : Registry Tx → Key → Option Tx
  lookup_cid r prefix = route_tx (r.cid_routes prefix)

  unfoldable pub lookup_ip : Registry Tx → Key → Option Tx
  lookup_ip r ip = handle_tx (r.ip_routes ip)

  unfoldable pub has_cid : Registry Tx → Key → Bool
  has_cid r prefix = elim (r.cid_routes prefix) [ none ↦ false | some route ↦ true ]
