-- ===== src/State.antt =====
-- The state of one provider process: what the runtime object, its two consumers and its watcher hold,
-- and the trace of the calls that were made.
pub mod Counts
pub mod Delivered
pub mod OneMore
use tributo_broker_redis.Base.{ℕ, String, Bool, Option, List, ◌∷◌, Dict}
use tributo_broker_redis.Json.{Json}
use tributo_broker_redis.Exec.{Exec, Result, ok, raised}
use tributo_broker_redis.Config.{OperationType, training, batch_inference}
use tributo_broker_redis.Services.{ActiveSubmission, Call, Step, returned, failed, Trace}

-- The `metadata` of a delivery. `received_at_ms` is the decimal text of a number, or absent.
pub record Metadata : Type 0 where
  pub stream : String
  pub operation_type : OperationType
  pub outer_operation_id : String
  pub outer_identity_field : String
  pub envelope_error : String
  pub payload_error : String
  pub encoding_error : String
  pub received_at_ms : Option ℕ

-- `tributo.integrations.broker.Message`
pub record Message : Type 0 where
  pub payload : Json
  pub delivery_token : String
  pub metadata : Metadata

-- What one `RedisTaskConsumer` keeps.
pub record Delivery : Type 0 where
  pub pending_messages : List Message
  pub claim_cursor : String

-- What the `CancelWatcher` keeps: `running` is a thread that was started, `closed` the event that ends
-- its loop.
pub record Watcher : Type 0 where
  pub stop_requested : List String
  pub timeout_requested : List String
  pub running : Bool
  pub closed : Bool

pub record State : Type 0 where
  pub trace : Trace
  pub active : Dict ActiveSubmission
  pub watcher : Watcher
  pub training : Delivery
  pub batch_inference : Delivery
  pub next_channel : ℕ
  pub next_pending_recovery_ms : ℕ
  pub started : Bool
  pub closed : Bool

abbrev pub Action : Type 0 → Type 0
Action = Exec State

abbrev pub step_of : {A : Type 0} → Result A → Call → Step
step_of (ok a) c = returned c
step_of (raised e) c = failed c

-- A call of a service: the trace before it gives the answer, and the call is noted.
unfoldable pub perform : {A : Type 0} → (Trace → Result A) → Call → Action A
perform answer call s = let r = answer s.trace in (r, record s { trace = step_of r call ∷ s.trace })

abbrev pub delivery : OperationType → State → Delivery
delivery training s = s.training
delivery batch_inference s = s.batch_inference

abbrev pub set_delivery : OperationType → Delivery → State → State
set_delivery training d s = record s { training = d }
set_delivery batch_inference d s = record s { batch_inference = d }
