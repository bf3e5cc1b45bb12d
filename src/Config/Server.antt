-- ===== src/Config/Server.antt =====
-- `ServerConfig::validate` and what it calls: slt-core/src/config/{server,validate,mod}.rs and
-- slt-core/src/types/{server_config,tun_config}.rs. A duration is its number of nanoseconds, an IPv4 address its four
-- octets, a socket address its port, and a name its bytes. The name of a field is a constructor.
use slt.Prelude.{
  ℕ, ◌-◌, ◌*◌, ◌/◌, ◌^◌, List, [], ◌∷◌, Bool, true, false, not, ◌||◌, ◌==◌, leb, ltb, if◌then◌else◌,
}
use slt.Prelude.{Result, ok, ◌>>◌, guard}
use slt.Prelude.Maps.{same}
use slt.Prelude.Bytes.{from_be}
use slt.Proto.Payloads.Registration.{CipherSuite}

pub data Field : Type 0 where
  listen_tcp_field listen_udp_field nginx_tcp_upstream_field nginx_udp_upstream_field : Field
  ping_min_field ping_max_field auth_timeout_field tcp_write_timeout_field
        udp_liveness_timeout_field :
      Field
  idle_timeout_field metrics_interval_field tcp_classification_timeout_field : Field

pub data ConfigError : Type 0 where
  invalid_tun_mtu : ℕ → ℕ → ConfigError
  invalid_ping_interval : ℕ → ℕ → ConfigError
  interval_too_small : Field → ℕ → ℕ → ConfigError
  invalid_reconnect_interval : ℕ → ℕ → ConfigError
  empty_hostname require_udp_needs_upgrade : ConfigError
  client_tun_ip_mismatch : List ℕ → List ℕ → ConfigError
  zero_port : Field → ConfigError
  empty_tun_name : ConfigError
  invalid_tun_prefix : ℕ → ConfigError
  client_outside_tun_subnet : List ℕ → List ℕ → ℕ → ConfigError
  client_uses_tun_address : List ℕ → ConfigError
  duplicate_client_id : List ℕ → ConfigError
  duplicate_assigned_ipv4 : List ℕ → ConfigError
  zero_session_queue_size zero_max_auth_inflight : ConfigError
  zero_tcp_connection_cap zero_udp_nat_max_entries : ConfigError
  empty_udp_qsp_allowed_ciphers : ConfigError
  zero_timeout : Field → ConfigError
  timeout_too_large : Field → ℕ → ℕ → ConfigError

abbrev pub Valid : Type 0
Valid = Result ConfigError (Unit {0})

abbrev pub max_timeout : ℕ
max_timeout = 3600000000000

abbrev pub min_interval : ℕ
min_interval = 1000000

abbrev pub max_tun_mtu : ℕ
max_tun_mtu = 1406

unfoldable pub validate_interval : Field → ℕ → Valid
validate_interval field value =
    guard (leb min_interval value) (interval_too_small field value min_interval)

unfoldable pub validate_timeout : Field → ℕ → Valid
validate_timeout field value = do
  guard (not (value == 0)) (zero_timeout field)
  guard (leb value max_timeout) (timeout_too_large field value max_timeout)

unfoldable pub validate_ping_interval : ℕ → ℕ → Valid
unfolding validate_interval
validate_ping_interval least most = do
  validate_interval ping_min_field least
  validate_interval ping_max_field most
  guard (leb least most) (invalid_ping_interval least most)

pub record TunConfig : Type 0 where
  pub tun_name : List ℕ
  pub tun_mtu : ℕ
  pub tun_ipv4 : List ℕ
  pub tun_prefix : ℕ

abbrev pub is_empty {ℓ} : {A : Type ℓ} → List A → Bool
is_empty [] = true
is_empty (x ∷ xs) = false

unfoldable pub validate_tun : TunConfig → Valid
validate_tun c = do
  guard (not (is_empty c.tun_name)) empty_tun_name
  guard (not (c.tun_mtu == 0 || ltb max_tun_mtu c.tun_mtu)) (invalid_tun_mtu c.tun_mtu max_tun_mtu)
  guard (not (c.tun_prefix == 0 || ltb 32 c.tun_prefix)) (invalid_tun_prefix c.tun_prefix)

-- The address as a number with the bits below the prefix cleared; `u32::MAX << (32 - prefix)` keeps the others.
unfoldable pub ipv4_network_bits : List ℕ → ℕ → ℕ
ipv4_network_bits addr prefix =
    if prefix == 0
    then 0
    else if leb prefix 32
    then from_be addr / 2 ^ (32 - prefix) * 2 ^ (32 - prefix)
    else from_be addr

unfoldable pub contains_ipv4 : TunConfig → List ℕ → Bool
unfolding ipv4_network_bits
contains_ipv4 c addr =
    ipv4_network_bits addr c.tun_prefix == ipv4_network_bits c.tun_ipv4 c.tun_prefix

pub record ServerNetworkConfig : Type 0 where
  pub listen_tcp : ℕ
  pub listen_udp : ℕ
  pub nginx_tcp_upstream : ℕ
  pub nginx_udp_upstream : ℕ

unfoldable pub validate_network : ServerNetworkConfig → Valid
validate_network c = do
  guard (not (c.listen_tcp == 0)) (zero_port listen_tcp_field)
  guard (not (c.listen_udp == 0)) (zero_port listen_udp_field)
  guard (not (c.nginx_tcp_upstream == 0)) (zero_port nginx_tcp_upstream_field)
  guard (not (c.nginx_udp_upstream == 0)) (zero_port nginx_udp_upstream_field)

pub record ServerTimingConfig : Type 0 where
  pub ping_min : ℕ
  pub ping_max : ℕ
  pub auth_timeout : ℕ
  pub tcp_write_timeout : ℕ
  pub udp_liveness_timeout : ℕ
  pub idle_timeout : ℕ
  pub metrics_interval : ℕ
  pub tcp_classification_timeout : ℕ

unfoldable pub validate_timing : ServerTimingConfig → Valid
unfolding validate_ping_interval validate_timeout
validate_timing c = do
  validate_ping_interval c.ping_min c.ping_max
  validate_timeout auth_timeout_field c.auth_timeout
  validate_timeout tcp_write_timeout_field c.tcp_write_timeout
  validate_timeout udp_liveness_timeout_field c.udp_liveness_timeout
  validate_timeout idle_timeout_field c.idle_timeout
  validate_timeout metrics_interval_field c.metrics_interval
  validate_timeout tcp_classification_timeout_field c.tcp_classification_timeout

pub record ServerClient : Type 0 where
  pub client_id : List ℕ
  pub pubkey_ed25519 : List ℕ
  pub assigned_ipv4 : List ℕ
  pub enabled : Bool

-- `HashSet::insert` says whether the value is new; the set is the list of its values.
unfoldable pub is_seen : List ℕ → List (List ℕ) → Bool
is_seen x [] = false
is_seen x (y ∷ ys) = same x y || is_seen x ys

-- The loop of `ServerConfig::validate` over the clients, with the two sets.
unfoldable pub validate_clients :
    TunConfig → List (List ℕ) → List (List ℕ) → List ServerClient → Valid
unfolding contains_ipv4 is_seen
validate_clients tun ids addresses [] = ok tt
validate_clients tun ids addresses (c ∷ cs) = do
  guard (not (same c.assigned_ipv4 tun.tun_ipv4)) (client_uses_tun_address c.assigned_ipv4)
  guard (contains_ipv4 tun c.assigned_ipv4)
      (client_outside_tun_subnet c.assigned_ipv4 tun.tun_ipv4 tun.tun_prefix)
  guard (not (is_seen c.client_id ids)) (duplicate_client_id c.client_id)
  guard (not (is_seen c.assigned_ipv4 addresses)) (duplicate_assigned_ipv4 c.assigned_ipv4)
  validate_clients tun (c.client_id ∷ ids) (c.assigned_ipv4 ∷ addresses) cs

-- Without the secret and the TLS material, which are not validated; of the transport, the allowed cipher suites.
pub record ServerConfig : Type 0 where
  pub network : ServerNetworkConfig
  pub tun : TunConfig
  pub timing : ServerTimingConfig
  pub allowed_ciphers : List CipherSuite
  pub udp_nat_max_entries : ℕ
  pub session_queue_size : ℕ
  pub max_auth_inflight : ℕ
  pub tcp_connection_cap : ℕ
  pub clients : List ServerClient

unfoldable pub validate_server : ServerConfig → Valid
unfolding validate_network validate_tun validate_clients validate_timing
validate_server c = do
  validate_network c.network
  validate_tun c.tun
  validate_clients c.tun [] [] c.clients
  validate_timing c.timing
  guard (not (is_empty c.allowed_ciphers)) empty_udp_qsp_allowed_ciphers
  guard (not (c.session_queue_size == 0)) zero_session_queue_size
  guard (not (c.max_auth_inflight == 0)) zero_max_auth_inflight
  guard (not (c.tcp_connection_cap == 0)) zero_tcp_connection_cap
  guard (not (c.udp_nat_max_entries == 0)) zero_udp_nat_max_entries
