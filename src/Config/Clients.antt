-- ===== src/Config/Clients.antt =====
-- Which lists of clients the server's configuration admits: the loop of `ServerConfig::validate` in
-- slt-core/src/config/server.rs.
use slt.Prelude.{
  ℕ, List, [], ◌∷◌, Bool, true, false, not, ◌≡◌, ◌≢◌, ◌↔◌, refl, ok, guard, ◌>>◌, Bool-cases, inl,
  inr,
}
use slt.Prelude.Lists.{All}
use slt.Prelude.Maps.{same, same_refl, same-ne}
use slt.Prelude.{◌-◌, ◌^◌, ◌≤◌}
use slt.Prelude.Bytes.{from_be}
use slt.Config.Subnet.{SameBlock, contains_ipv4-iff-SameBlock}
use slt.Config.Server.{
  TunConfig, ServerClient, ConfigError, Valid, contains_ipv4, is_seen, validate_clients,
}

map_key : (ServerClient → List ℕ) → List ServerClient → List (List ℕ)
map_key f [] = []
map_key f (c ∷ cs) = f c ∷ map_key f cs

-- No two clients have the same value.
abbrev pub Distinct : (ServerClient → List ℕ) → List ServerClient → Type 0
Distinct f [] = Unit
Distinct f (c ∷ cs) = All (λ d. f d ≢ f c) cs × Distinct f cs

-- A client's address is another one in the tunnel's subnet, the block of addresses that share the prefix.
abbrev pub InSubnet : TunConfig → ServerClient → Type 0
InSubnet tun c =
    (c.assigned_ipv4 ≢ tun.tun_ipv4)
    × SameBlock (2 ^ (32 - tun.tun_prefix)) (from_be c.assigned_ipv4) (from_be tun.tun_ipv4)

-- The same, by the test of the code.
abbrev PassesTest : TunConfig → ServerClient → Type 0
PassesTest tun c = (c.assigned_ipv4 ≢ tun.tun_ipv4) × (contains_ipv4 tun c.assigned_ipv4 ≡ true)

abbrev pub IsAllowlist : TunConfig → List ServerClient → Type 0
IsAllowlist tun cs =
    All (InSubnet tun) cs × Distinct (λ c. c.client_id) cs × Distinct (λ c. c.assigned_ipv4) cs

abbrev Unseen : (ServerClient → List ℕ) → List (List ℕ) → ServerClient → Type 0
Unseen f seen c = is_seen (f c) seen ≡ false

not-true : (b : Bool) → not b ≡ true → b ≡ false
not-true true h = cc h
not-true false h = refl

-- What a guard that lets pass has tested.
passed :
    (b : Bool) (e : ConfigError) (m : Valid) → (guard b e >> m) ≡ ok tt → (b ≡ true) × (m ≡ ok tt)
passed true e m h = (refl, h)
passed false e m h = cc h

same-false-ne : (x y : List ℕ) → same x y ≡ false → x ≢ y
same-false-ne x y h e = let t : same x y ≡ true = rw e (same_refl y) in cc (t, h)

is_seen-cons :
    (x y : List ℕ) (ys : List (List ℕ))
    → is_seen x (y ∷ ys) ≡ false
    → (x ≢ y) × (is_seen x ys ≡ false)
unfolding is_seen
is_seen-cons x y ys h = elim (Bool-cases (same x y)) [
  | inl t ↦ let f : true ≡ false = rw t at h in cc f
  | inr n ↦ (same-false-ne x y n, rw n at h)
]

unseen-cons :
    (x y : List ℕ) (ys : List (List ℕ)) → x ≢ y → is_seen x ys ≡ false → is_seen x (y ∷ ys) ≡ false
unfolding is_seen
unseen-cons x y ys n h = rw (same-ne x y n, h)

module _ (f : ServerClient → List ℕ) where
  All-split :
      (y : List ℕ) (seen : List (List ℕ)) (cs : List ServerClient)
      → All (Unseen f (y ∷ seen)) cs
      → All (λ d. f d ≢ y) cs × All (Unseen f seen) cs
  All-split y seen [] h = (tt, tt)
  All-split y seen (c ∷ cs) (h, hs) =
      let (n, s) = is_seen-cons (f c) y seen h in
      let (ns, ss) = All-split y seen cs hs in ((n, ns), (s, ss))

  All-join :
      (y : List ℕ) (seen : List (List ℕ)) (cs : List ServerClient)
      → All (λ d. f d ≢ y) cs
      → All (Unseen f seen) cs
      → All (Unseen f (y ∷ seen)) cs
  All-join y seen [] h k = tt
  All-join y seen (c ∷ cs) (n, ns) (s, ss) =
      (unseen-cons (f c) y seen n s, All-join y seen cs ns ss)

  All-Unseen : (cs : List ServerClient) → All (Unseen f []) cs
  unfolding is_seen
  All-Unseen [] = tt
  All-Unseen (c ∷ cs) = (refl, All-Unseen cs)

abbrev id_of : ServerClient → List ℕ
id_of c = c.client_id

abbrev address_of : ServerClient → List ℕ
address_of c = c.assigned_ipv4

abbrev Admitted : TunConfig → List (List ℕ) → List (List ℕ) → List ServerClient → Type 0
Admitted tun ids addresses cs =
    All (PassesTest tun) cs
    × Distinct id_of cs
    × Distinct address_of cs
    × All (Unseen id_of ids) cs
    × All (Unseen address_of addresses) cs

validate_clients-Admitted :
    (tun : TunConfig) (ids addresses : List (List ℕ)) (cs : List ServerClient)
    → validate_clients tun ids addresses cs ≡ ok tt
    → Admitted tun ids addresses cs
unfolding validate_clients
validate_clients-Admitted tun ids addresses [] h = (tt, tt, tt, tt, tt)
validate_clients-Admitted tun ids addresses (c ∷ cs) h =
    let (a, h1) = passed (not (same c.assigned_ipv4 tun.tun_ipv4)) _ _ h in
    let (b, h2) = passed (contains_ipv4 tun c.assigned_ipv4) _ _ h1 in
    let (i, h3) = passed (not (is_seen c.client_id ids)) _ _ h2 in
    let (j, h4) = passed (not (is_seen c.assigned_ipv4 addresses)) _ _ h3 in
    let (inside, d, e, s, t) =
      validate_clients-Admitted tun (c.client_id ∷ ids) (c.assigned_ipv4 ∷ addresses) cs h4 in
    let (ns, s') = All-split id_of c.client_id ids cs s in
    let (ms, t') = All-split address_of c.assigned_ipv4 addresses cs t in
    (
      ((same-false-ne c.assigned_ipv4 tun.tun_ipv4 (not-true _ a), b), inside),
      (ns, d),
      (ms, e),
      (not-true _ i, s'),
      (not-true _ j, t'),
    )

Admitted-validates :
    (tun : TunConfig) (ids addresses : List (List ℕ)) (cs : List ServerClient)
    → Admitted tun ids addresses cs
    → validate_clients tun ids addresses cs ≡ ok tt
unfolding validate_clients
Admitted-validates tun ids addresses [] h = refl
Admitted-validates tun ids addresses (c ∷ cs) (((n, b), inside), (ns, d), (ms, e), (i, s), (j, t)) =
    rw (same-ne c.assigned_ipv4 tun.tun_ipv4 n, b, i, j)
      (Admitted-validates tun (c.client_id ∷ ids) (c.assigned_ipv4 ∷ addresses) cs (
        inside,
        d,
        e,
        All-join id_of c.client_id ids cs ns s,
        All-join address_of c.assigned_ipv4 addresses cs ms t,
      ))

All-iff :
    {P Q : ServerClient → Type 0} (cs : List ServerClient)
    → ((c : ServerClient) → P c ↔ Q c)
    → All P cs ↔ All Q cs
All-iff [] h = (λ p. tt, λ q. tt)
All-iff (c ∷ cs) h =
    (λ (p, ps). ((h c).0 p, (All-iff cs h).0 ps), λ (q, qs). ((h c).1 q, (All-iff cs h).1 qs))

PassesTest-iff-InSubnet :
    (tun : TunConfig) (c : ServerClient)
    → 1 ≤ tun.tun_prefix
    → tun.tun_prefix ≤ 32
    → PassesTest tun c ↔ InSubnet tun c
PassesTest-iff-InSubnet tun c one most =
    let (forth, back) = contains_ipv4-iff-SameBlock tun c.assigned_ipv4 one most in
    (λ (n, t). (n, forth t), λ (n, b). (n, back b))

-- For a tunnel whose prefix has 1 to 32 bits, the loop over the clients accepts a list exactly if every client's
-- address is not the tunnel's own but in the same block of 2^(32 - prefix) addresses, and no two clients have the
-- same ID or the same address.
pub validate_clients-iff-IsAllowlist :
    (tun : TunConfig) (cs : List ServerClient)
    → 1 ≤ tun.tun_prefix
    → tun.tun_prefix ≤ 32
    → (validate_clients tun [] [] cs ≡ ok tt) ↔ IsAllowlist tun cs
validate_clients-iff-IsAllowlist tun cs one most =
    let (forth, back) = All-iff cs (λ c. PassesTest-iff-InSubnet tun c one most) in
    (
      λ h.
          let (inside, d, e, _, _) = validate_clients-Admitted tun [] [] cs h in
          (forth inside, d, e),
      λ (inside, d, e).
          Admitted-validates tun [] [] cs
            (back inside, d, e, All-Unseen id_of cs, All-Unseen address_of cs),
    )
