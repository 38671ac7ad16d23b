-- ===== src/Runtime/Total.antt =====
-- Where `handle` of src/tributo_broker_redis/runtime.py can raise.
use tributo_broker_redis.Base.{
  ℕ, truthy, ltb, len, option_or, if◌then◌else◌, String, ◌≡◌, refl, ap, true, Option, none, some,
}
use tributo_broker_redis.Json.{Text}
use tributo_broker_redis.Exec.{
  Result, ok, protocol_failure, mapping_failure, is_ok, lift, gets, ◌>>=◌,
}
use tributo_broker_redis.Exec.Rules.{Preserves, gets-Preserves, lift-Preserves}
use tributo_broker_redis.Exec.Returns.{
  Returns, returns_rules, given-Returns, gets-Returns, Returns-anywhere, pure-Returns, if-Returns,
  bind-Returns,
}
use tributo_broker_redis.Config.{OperationType, ExecutionProfile, single_worker}
use tributo_broker_redis.Connection.{
  RedisConnectionConfig, transport_accepted, ray_driver_connection,
}
use tributo_broker_redis.Connection.Driver.{ray_driver_connection-accepted}
use tributo_broker_redis.Protocol.{GenericRequest, DriverInput, run_id_of}
use tributo_broker_redis.Protocol.Answers.{Answers, answered, refused}
use tributo_broker_redis.Operations.{PreparedOperation}
use tributo_broker_redis.Services.{Services}
use tributo_broker_redis.State.{State, Action, Message}
use tributo_broker_redis.Cancellation.{get_active}
use tributo_broker_redis.Reporter.Quiet.{IsQuiet}
use tributo_broker_redis.Runtime.Types.{Setup, TaskOutcome}
use tributo_broker_redis.Runtime.Reports.{invalid, invalid_default}
use tributo_broker_redis.Runtime.Resume.{resume_existing_submission}
use tributo_broker_redis.Runtime.Admission.{admit, deadline_of, admit_job, driver_input_of}
use tributo_broker_redis.Runtime.Quiet.{early_cancel-Preserves, late_cancel-Preserves}
use tributo_broker_redis.Runtime.Known.{KeepsIdentity, Finds, Finds-quiet}
use tributo_broker_redis.Runtime.Handle.{
  handle, envelope_stage, parse_stage, prepare_stage, admit_stage, prepared_stage, parsed_stage,
  raw_stage, raw_of, early_cancel, late_cancel, otherwise,
}

-- The driver input of a request can be made and written.
abbrev pub Ships : Services → Setup → GenericRequest → OperationType → PreparedOperation → Type 0
Ships services setup request operation_type prepared =
    (connection : RedisConnectionConfig) (received_at_ms : ℕ) (deadline_at_ms : Option ℕ)
    → (value : DriverInput) × ((driver_input_of setup request operation_type prepared connection
            received_at_ms deadline_at_ms
          ≡ ok value)
        × (is_ok (services.encode_driver_input value) ≡ true))

-- What `handle` is built from raises, for this delivery, nothing but the refusals that it catches.
pub record IsTame (services : Services) (setup : Setup) (message : Message) : Type 0 where
  pub accepted : transport_accepted setup.tools setup.transport ≡ true
  pub identity : KeepsIdentity setup message
  pub parser :
      (raw : Text)
      → raw_of message.payload ≡ some raw
      → Answers protocol_failure (
          setup.request_parser raw message.metadata.outer_operation_id
            message.metadata.operation_type)
  pub preparer :
      (request : GenericRequest) → Answers mapping_failure (setup.operation_preparer request)
  pub ships :
      (raw : Text) (request : GenericRequest) (prepared : PreparedOperation)
      → raw_of message.payload ≡ some raw
      → setup.request_parser raw message.metadata.outer_operation_id message.metadata.operation_type
        ≡ ok request
      → setup.operation_preparer request ≡ ok prepared
      → Ships services setup request message.metadata.operation_type prepared

module _ (services : Services) (setup : Setup) (message : Message) {P : State → Type 0} where
  invalid-Returns :
      (operation_type : OperationType) (code text : String) (profile : ExecutionProfile)
      (run_id : Option String) (attempt_id : String)
      → Returns P
          (invalid services setup message operation_type code text profile run_id attempt_id)
  unfolding invalid
  invalid-Returns operation_type code text profile run_id attempt_id =
      Returns-anywhere _ (search (returns_rules) depth 8)

  default-Returns :
      (operation_type : OperationType) (code text : String)
      → Returns P (invalid_default services setup message operation_type code text)
  unfolding invalid_default
  default-Returns operation_type code text =
      invalid-Returns operation_type code text single_worker none "attempt-1"

  early-Returns : Returns P (early_cancel services setup message)
  unfolding early_cancel
  early-Returns = search (returns_rules) depth 8

  late-Returns : (request : GenericRequest) → Returns P (late_cancel services setup message request)
  unfolding late_cancel
  late-Returns request = search (returns_rules) depth 8

  otherwise-Returns :
      (known : Option TaskOutcome) (next : Action TaskOutcome)
      → Returns P next
      → Returns P (otherwise services setup message known next)
  otherwise-Returns none next h = h
  otherwise-Returns (some outcome) next h = pure-Returns outcome

module _ (services : Services) (setup : Setup) (message : Message) {P : State → Type 0}
    (accepted : transport_accepted setup.tools setup.transport ≡ true) where
  admit_job-Returns :
      (request : GenericRequest) (operation_type : OperationType) (encoded : String)
      (received_at_ms : _) (deadline_at_ms : Option _)
      → Returns P
          (admit_job services setup request operation_type encoded received_at_ms deadline_at_ms)
  unfolding admit_job
  admit_job-Returns request operation_type encoded received_at_ms deadline_at_ms =
      search (returns_rules) depth 8

  derived-Returns : Returns P (lift (ray_driver_connection setup.tools setup.transport))
  derived-Returns = record {
    returns = λ s p.
        let (c, derived) = ray_driver_connection-accepted setup.tools setup.transport accepted in
        ap is_ok derived.returned;
  }

  -- From the driver input on.
  shipped-Returns :
      (request : GenericRequest) (operation_type : OperationType) (received_at_ms : ℕ)
      (deadline_at_ms : Option ℕ) (r : Result DriverInput)
      → (value : DriverInput) × ((r ≡ ok value)
          × (is_ok (services.encode_driver_input value) ≡ true))
      → Returns P (do
        driver_input ← lift r
        encoded ← lift (services.encode_driver_input driver_input)
        if ltb setup.transport.max_driver_input_bytes (len encoded)
            then invalid_default services setup message operation_type "DRIVER_INPUT_TOO_LARGE"
                "validated driver input exceeds transport limit"
            else admit_job services setup request operation_type encoded received_at_ms
                deadline_at_ms)
  shipped-Returns request operation_type received_at_ms deadline_at_ms r (value, (made, written)) =
      given-Returns value r _ made (
        bind-Returns (lift (services.encode_driver_input value)) _
          (record { returns = λ s p. written })
          (lift-Preserves (services.encode_driver_input value))
          (λ encoded.
            if-Returns (ltb setup.transport.max_driver_input_bytes (len encoded)) _ _
              (default-Returns services setup message operation_type "DRIVER_INPUT_TOO_LARGE"
                "validated driver input exceeds transport limit")
              (admit_job-Returns request operation_type encoded received_at_ms deadline_at_ms)))

  admit-Returns :
      (request : GenericRequest) (operation_type : OperationType) (prepared : PreparedOperation)
      → Ships services setup request operation_type prepared
      → Returns P (admit services setup request operation_type message prepared)
  unfolding admit
  admit-Returns request operation_type prepared ships =
      bind-Returns (gets (λ s. services.now_ms s.trace)) _ (gets-Returns _) (gets-Preserves _)
        (λ now.
          bind-Returns (lift (ray_driver_connection setup.tools setup.transport)) _ derived-Returns
            (lift-Preserves _)
            (λ c.
              let received_at_ms = option_or message.metadata.received_at_ms now in
              let deadline_at_ms = deadline_of received_at_ms prepared.timeout_ms in
              shipped-Returns request operation_type received_at_ms deadline_at_ms
                (driver_input_of setup request operation_type prepared c received_at_ms
                  deadline_at_ms)
                (ships c received_at_ms deadline_at_ms)))

module _ (services : Services) (setup : Setup) (message : Message)
    (tame : IsTame services setup message) where
  open tame use {accepted, identity, parser, preparer, ships}

  -- No submission of the delivery's operation is active.
  abbrev Idle : State → Type 0
  Idle = Finds message.metadata.outer_operation_id none

  Idle-quiet : IsQuiet Idle
  Idle-quiet = Finds-quiet message.metadata.outer_operation_id none

  resume-Returns :
      (request : GenericRequest) (operation_type : OperationType)
      → request.operation_id ≡ message.metadata.outer_operation_id
      → Returns Idle (resume_existing_submission services setup request operation_type)
  unfolding resume_existing_submission
  resume-Returns request operation_type same = record {
    returns = λ s idle.
        let found : get_active s.active request.operation_id ≡ none = rw same idle in rw found refl;
  }

  resume-Idle :
      (request : GenericRequest) (operation_type : OperationType)
      → request.operation_id ≡ message.metadata.outer_operation_id
      → Preserves Idle (resume_existing_submission services setup request operation_type)
  unfolding resume_existing_submission
  resume-Idle request operation_type same = record {
    after = λ s idle.
        let found : get_active s.active request.operation_id ≡ none = rw same idle in rw found idle;
  }

  admit_stage-Returns :
      (request : GenericRequest) (prepared : PreparedOperation)
      → request.operation_id ≡ message.metadata.outer_operation_id
      → Ships services setup request message.metadata.operation_type prepared
      → Returns Idle (admit_stage services setup message request prepared)
  unfolding admit_stage
  admit_stage-Returns request prepared same shipped =
      search
        (
          bind-Returns,
          resume-Returns,
          resume-Idle,
          otherwise-Returns services setup message,
          late-Returns services setup message,
          late_cancel-Preserves services Idle-quiet setup message,
          admit-Returns services setup message accepted,
        )
        depth 9

  -- The request is the one that the delivery's payload holds.
  abbrev Parsed : GenericRequest → Type 0
  Parsed request =
      (raw : Text) × ((raw_of message.payload ≡ some raw)
        × (setup.request_parser raw message.metadata.outer_operation_id
              message.metadata.operation_type
            ≡ ok request))

  prepared_stage-Returns :
      (request : GenericRequest) (r : Result PreparedOperation)
      → request.operation_id ≡ message.metadata.outer_operation_id
      → Parsed request
      → setup.operation_preparer request ≡ r
      → Answers mapping_failure r
      → Returns Idle (prepared_stage services setup message request r)
  prepared_stage-Returns request _ same (raw, (read, parsed)) e (answered prepared) =
      admit_stage-Returns request prepared same (ships raw request prepared read parsed e)
  prepared_stage-Returns request _ same from e (refused code text) =
      invalid-Returns services setup message _ code text _ _ _

  prepare_stage-Returns :
      (request : GenericRequest)
      → request.operation_id ≡ message.metadata.outer_operation_id
      → Parsed request
      → Returns Idle (prepare_stage services setup message request)
  unfolding prepare_stage
  prepare_stage-Returns request same from =
      if-Returns _ _ _ (prepared_stage-Returns request _ same from refl (preparer request)) (
        invalid-Returns services setup message message.metadata.operation_type
          "UNSUPPORTED_EXECUTION_PROFILE" "execution profile is disabled by provider configuration"
          request.execution_profile (some (run_id_of request)) request.attempt_id)

  parsed_stage-Returns :
      (raw : Text) (r : Result GenericRequest)
      → raw_of message.payload ≡ some raw
      → setup.request_parser raw message.metadata.outer_operation_id message.metadata.operation_type
        ≡ r
      → Answers protocol_failure r
      → Returns Idle (parsed_stage services setup message r)
  parsed_stage-Returns raw _ read e (answered request) =
      prepare_stage-Returns request (identity raw request e) (raw, (read, e))
  parsed_stage-Returns raw _ read e (refused code text) =
      default-Returns services setup message _ code text

  raw_stage-Returns :
      (raw : Option Text)
      → raw_of message.payload ≡ raw
      → Returns Idle (raw_stage services setup message raw)
  raw_stage-Returns none read = default-Returns services setup message _ _ _
  raw_stage-Returns (some raw) read =
      unfold parse_stage in parsed_stage-Returns raw _ read refl (parser raw read)

  envelope_stage-Returns : Returns Idle (envelope_stage services setup message)
  unfolding envelope_stage
  envelope_stage-Returns =
      let refused = default-Returns services setup message message.metadata.operation_type in
      if-Returns (truthy message.metadata.encoding_error) _ _
        (refused "INVALID_PAYLOAD" "payload is not valid UTF-8")
        (if-Returns (truthy message.metadata.envelope_error) _ _
          (refused "INVALID_ENVELOPE" "task envelope must contain only identity and payload")
          (if-Returns (truthy message.metadata.payload_error) _ _
            (refused "PAYLOAD_TOO_LARGE" "payload exceeds configured size limit")
            (raw_stage-Returns (raw_of message.payload) refl)))

  handle-Returns : Returns Idle (handle services setup message)
  unfolding handle
  handle-Returns =
      search
        (
          if-Returns,
          bind-Returns,
          early-Returns services setup message,
          early_cancel-Preserves services Idle-quiet setup message,
          otherwise-Returns services setup message,
          envelope_stage-Returns,
          default-Returns services setup message,
        )
        depth 9

-- Whatever Redis and Ray answer or raise, `handle` answers a delivery whose operation has no active
-- submission. The transport is an accepted one, the preparer returns or raises `MappingFailure`, the parser
-- keeps the outer identity and returns or raises `ProtocolFailure` on the delivery's payload, and the driver
-- input that comes of it can be made and written.
pub handle-returns :
    (services : Services) (setup : Setup) (message : Message) (s : State)
    → IsTame services setup message
    → get_active s.active message.metadata.outer_operation_id ≡ none
    → is_ok (handle services setup message s).0 ≡ true
handle-returns services setup message s tame idle =
    (handle-Returns services setup message tame).returns s idle
