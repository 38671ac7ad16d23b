-- ===== src/Runtime/Default.antt =====
-- The runtime of src/tributo_broker_redis/runtime.py with the defaults of its constructor:
-- `parse_request` and `prepare_operation`.
use tributo_broker_redis.Base.{ℕ, Option, String, ◌≡◌, sym, ◌∙◌, ap, true, some}
use tributo_broker_redis.Json.{Text, Json}
use tributo_broker_redis.Exec.{Result, ok, is_ok}
use tributo_broker_redis.Connection.{RedisConnectionConfig}
use tributo_broker_redis.Protocol.{GenericRequest}
use tributo_broker_redis.Operations.{PreparedOperation}
use tributo_broker_redis.Protocol.Credentials.{UrlTools}
use tributo_broker_redis.Protocol.Parse.{parse_request}
use tributo_broker_redis.Protocol.Accepted.{parse_request-IsAligned}
use tributo_broker_redis.Protocol.Answers.{IsDecoded, Answers}
use tributo_broker_redis.Operations.Prepare.{Contracts, prepare_operation}
use tributo_broker_redis.Operations.Answers.{AreValidations}
use tributo_broker_redis.Services.{Services, ActiveSubmission}
use tributo_broker_redis.State.{State, Message}
use tributo_broker_redis.Cancellation.{get_active}
use tributo_broker_redis.Runtime.Types.{Setup}
use tributo_broker_redis.Runtime.Handle.{handle, raw_of}
use tributo_broker_redis.Runtime.Admission.{driver_fields_of}
use tributo_broker_redis.Runtime.Submits.{submits}
use tributo_broker_redis.Runtime.Known.{KeepsIdentity, submits-handle_known}

-- What the two defaults call outside of the repository: `json.loads`, `str.strip`, `urlsplit` with
-- `parse_qsl`, and the contracts of the package `tributo`.
pub record Outside : Type 0 where
  pub loads : Text → Result Json
  pub strip : String → String
  pub urls : UrlTools
  pub contracts : Contracts

-- `request_parser` and `operation_preparer` are the defaults.
pub record IsDefault (outside : Outside) (setup : Setup) : Type 0 where
  pub parser : setup.request_parser ≡ parse_request outside.loads outside.strip outside.urls
  pub preparer : setup.operation_preparer ≡ prepare_operation outside.contracts

-- `json.loads` reads the delivery's payload or raises `JSONDecodeError` on it, which it does not on a very
-- long integer or a deep nesting; the contracts validate or raise `ValidationError`; and the driver input
-- that comes of the payload can be written as JSON and UTF-8, which it cannot with a lone surrogate in it.
pub record IsOrdinary (outside : Outside) (services : Services) (setup : Setup) (message : Message)
    : Type 0 where
  pub decodes : (raw : Text) → raw_of message.payload ≡ some raw → IsDecoded (outside.loads raw)
  pub validations : AreValidations outside.contracts
  pub written :
      (raw : Text) (request : GenericRequest) (prepared : PreparedOperation)
      (connection : RedisConnectionConfig) (received_at_ms : ℕ) (deadline_at_ms : Option ℕ)
      → raw_of message.payload ≡ some raw
      → setup.request_parser raw message.metadata.outer_operation_id message.metadata.operation_type
        ≡ ok request
      → setup.operation_preparer request ≡ ok prepared
      → is_ok (
          services.encode_driver_input (
            driver_fields_of setup request message.metadata.operation_type prepared connection
              received_at_ms deadline_at_ms))
        ≡ true

module _ (outside : Outside) (setup : Setup) (message : Message)
    (default : IsDefault outside setup) where
  default-KeepsIdentity : KeepsIdentity setup message
  default-KeepsIdentity raw request parsed =
      (parse_request-IsAligned outside.urls message.metadata.outer_operation_id
        message.metadata.operation_type outside.strip outside.loads raw request
        (ap
            (λ parser.
              parser raw message.metadata.outer_operation_id message.metadata.operation_type)
            (sym default.parser)
          ∙ parsed)).identity

-- With the default parser, a delivery of an operation that has an active submission submits no Ray job,
-- whatever the payload is and whatever Redis and Ray do.
pub submits-handle_default :
    (outside : Outside) (services : Services) (setup : Setup) (message : Message)
    (item : ActiveSubmission) (s : State)
    → IsDefault outside setup
    → get_active s.active message.metadata.outer_operation_id ≡ some item
    → submits (handle services setup message s).1 ≡ submits s
submits-handle_default outside services setup message item s default =
    submits-handle_known services setup message item s
      (default-KeepsIdentity outside setup message default)
