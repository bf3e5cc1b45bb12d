-- ===== src/Proto/Payloads/Errors.antt =====
-- Payload errors: slt-core/src/proto/payloads/error.rs.
use slt.Prelude.{ℕ}

pub data PayloadError : Type 0 where
  length_mismatch : ℕ → ℕ → PayloadError
  length_too_short : ℕ → ℕ → PayloadError
  invalid_client_to_server_cid_len : ℕ → PayloadError
  invalid_server_to_client_cid_len : ℕ → PayloadError
  invalid_cipher : ℕ → PayloadError
  invalid_auth_fail_code : ℕ → PayloadError
  invalid_register_fail_code : ℕ → PayloadError
  invalid_close_code : ℕ → PayloadError
  invalid_key_phase : ℕ → PayloadError
