-- ===== src/Operations.antt =====
-- src/tributo_broker_redis/operations.py: what a validated request hands to the driver.
pub mod Prepare
pub mod Answers
pub mod Fits
use tributo_broker_redis.Base.{ℕ, String, Option}
use tributo_broker_redis.Json.{Fields}

-- `timeout_ms` is `int(timeout_seconds * 1000)`, all that is read of it.
pub record PreparedOperation : Type 0 where
  pub operation_payload : Fields
  pub credential_ref : Option String
  pub timeout_ms : Option ℕ
