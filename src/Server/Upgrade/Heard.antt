-- ===== src/Server/Upgrade/Heard.antt =====
-- The upgrade IDs that a session of slt-server/src/sessions has received: of the probes that its UDP packets held, and
-- of the ready messages on TCP. They are kept beside the session, to say what its flags stand for.
use slt.Prelude.{ℕ, ◌≡◌, arith, List, [], ◌∷◌, ◌++◌, true, Result, ok, err, panic}
use slt.Prelude.Lists.{All}
use slt.Proto.Message.{Message, udp_ready, upgrade_probe}
use slt.Proto.Payloads.Errors.{PayloadError}
use slt.Proto.Payloads.Upgrade.{
  UdpReadyPayload, UpgradeProbePayload, decode_udp_ready, decode_upgrade_probe,
}
use slt.Server.Upgrade.{contains}

pub record Heard : Type 0 where
  pub probes : List ℕ
  pub readies : List ℕ

abbrev pub silence : Heard
silence = record { probes = []; readies = [] }

abbrev pub join : Heard → Heard → Heard
join r s = record { probes = r.probes ++ s.probes; readies = r.readies ++ s.readies }

-- The ID of a payload that decodes.
abbrev pub probe_id : Result PayloadError UpgradeProbePayload → List ℕ
probe_id (ok p) = p.upgrade_id ∷ []
probe_id (err e) = []
probe_id panic = []

abbrev pub ready_id : Result PayloadError UdpReadyPayload → List ℕ
ready_id (ok p) = p.upgrade_id ∷ []
ready_id (err e) = []
ready_id panic = []

abbrev pub message_probes : Message → List ℕ
message_probes (upgrade_probe payload) = probe_id (decode_upgrade_probe payload)
message_probes _ = []

abbrev pub message_readies : Message → List ℕ
message_readies (udp_ready payload) = ready_id (decode_udp_ready payload)
message_readies _ = []

abbrev pub all_readies : List Message → List ℕ
all_readies [] = []
all_readies (m ∷ ms) = message_readies m ++ all_readies ms

abbrev pub IsIn : List ℕ → ℕ → Type 0
IsIn ids id = contains ids id ≡ true

pub IsIn-left : (xs ys : List ℕ) (id : ℕ) → IsIn xs id → IsIn (xs ++ ys) id
IsIn-left [] ys id h = cc h
IsIn-left (x ∷ xs) ys id h = ground (arith, IsIn-left xs ys id, h)

pub IsIn-right : (xs ys : List ℕ) (id : ℕ) → IsIn ys id → IsIn (xs ++ ys) id
IsIn-right [] ys id h = h
IsIn-right (x ∷ xs) ys id h = ground (arith, IsIn-right xs ys id h)

All-IsIn : (xs zs : List ℕ) → ((id : ℕ) → IsIn xs id → IsIn zs id) → All (IsIn zs) xs
All-IsIn [] zs h = tt
All-IsIn (x ∷ xs) zs h = (h x (ground arith), All-IsIn xs zs (λ id k. h id (ground (arith, k))))

pub All-IsIn_left : (xs ys : List ℕ) → All (IsIn (xs ++ ys)) xs
All-IsIn_left xs ys = All-IsIn xs (xs ++ ys) (IsIn-left xs ys)
