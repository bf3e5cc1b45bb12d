-- ===== src/Tests/Claim.antt =====
-- A ClientHello with a claim token, and the classifier on it.
use slt.Prelude.{ℕ, ◌≡◌, ◌≢◌, ◌⊎◌, refl, List, ◌∷◌, ◌++◌, true, take, replicate, ok, index, slice}
use slt.Prelude.Maps.{same}
use slt.Claim.Token.{
  ClientHelloLayout, zero_session_id, fill_legacy_session_id, verify_legacy_session_id,
  client_hello_layout, get_range,
}
use slt.Claim.Tcp as Tcp
use slt.Claim.Tcp.{classify_tcp_client_hello}
use slt.Claim.TokenLayout.{with_session_id}
use slt.Claim.TokenLaws.{fill_legacy_session_id-verifies}
use slt.Claim.TcpTotal.{IsClaimed, classify_tcp_client_hello-judges}
use slt.Tests.Toy.{toy, toy-BoringLaws}

abbrev random : List ℕ
random = replicate 32 7

-- A message of 71 bytes with an empty session ID.
abbrev hello : List ℕ
hello = 1 ∷ 0 ∷ 0 ∷ 67 ∷ 3 ∷ 3 ∷ (random ++ (32 ∷ zero_session_id))

abbrev secret : List ℕ
secret = replicate 32 5

abbrev layout : ClientHelloLayout
layout = record { random = random; session_id_start = 39 }

hello-has-layout : client_hello_layout hello ≡ ok layout
unfolding client_hello_layout get_range index
hello-has-layout = refl

abbrev token : List ℕ
token = replicate 16 36 ++ replicate 16 87

fill_legacy_session_id-verifies_example :
    (fill_legacy_session_id toy hello zero_session_id secret ≡ ok token)
    × (verify_legacy_session_id toy (with_session_id hello token) secret ≡ ok true)
unfolding with_session_id same
fill_legacy_session_id-verifies_example =
    fill_legacy_session_id-verifies toy toy-BoringLaws hello zero_session_id secret
      (replicate 32 36) (replicate 32 87) layout refl hello-has-layout refl refl refl

-- The message in one TLS record is claimed; without its last byte it is incomplete.
abbrev stream : List ℕ
stream = 22 ∷ 3 ∷ 1 ∷ 0 ∷ 71 ∷ (take 39 hello ++ token)

stream_claimed : classify_tcp_client_hello toy stream secret ≡ ok Tcp.claim
unfolding classify_tcp_client_hello index slice same get_range
stream_claimed = refl

stream_cut : classify_tcp_client_hello toy (take 75 stream) secret ≡ ok Tcp.incomplete
unfolding classify_tcp_client_hello index slice same get_range
stream_cut = refl

stream_without_token : classify_tcp_client_hello toy (take 5 stream ++ hello) secret ≡ ok Tcp.pass
unfolding classify_tcp_client_hello index slice same get_range
stream_without_token = refl

classify_tcp_client_hello-judges_example :
    (v : Tcp.Verdict) × (classify_tcp_client_hello toy stream secret ≡ ok v)
    × ((v ≢ Tcp.claim) ⊎ IsClaimed toy secret stream)
classify_tcp_client_hello-judges_example = classify_tcp_client_hello-judges toy stream secret
