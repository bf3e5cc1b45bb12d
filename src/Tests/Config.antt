-- ===== src/Tests/Config.antt =====
-- A list of two clients.
use slt.Prelude.{ℕ, arith, ◌≡◌, ◌↔◌, refl, List, [], ◌∷◌, true, replicate, ok}
use slt.Prelude.Maps.{same}
use slt.Prelude.Bytes.{from_be}
use slt.Config.Server.{TunConfig, ServerClient, validate_clients}
use slt.Config.Clients.{IsAllowlist, validate_clients-iff-IsAllowlist}

abbrev tun : TunConfig
tun = record {
  tun_name = 116 ∷ 117 ∷ 110 ∷ 48 ∷ [];
  tun_mtu = 1280;
  tun_ipv4 = 10 ∷ 10 ∷ 0 ∷ 1 ∷ [];
  tun_prefix = 24;
}

abbrev client : ℕ → ServerClient
client n = record {
  client_id = replicate 16 n;
  pubkey_ed25519 = replicate 32 n;
  assigned_ipv4 = 10 ∷ 10 ∷ 0 ∷ n ∷ [];
  enabled = true;
}

abbrev two_clients : List ServerClient
two_clients = client 2 ∷ client 3 ∷ []

two_clients-valid : validate_clients tun [] [] two_clients ≡ ok tt
unfolding validate_clients same from_be
two_clients-valid = refl

validate_clients-iff-IsAllowlist_example :
    (validate_clients tun [] [] two_clients ≡ ok tt) ↔ IsAllowlist tun two_clients
validate_clients-iff-IsAllowlist_example =
    validate_clients-iff-IsAllowlist tun two_clients (omega arith) (omega arith)
