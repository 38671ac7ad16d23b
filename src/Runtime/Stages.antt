-- ===== src/Runtime/Stages.antt =====
-- A proof rule for `handle`: what is to be shown of its parts, so that it leads from `P` to `Q`.
use tributo_broker_redis.Base.{String, ◌≡◌, refl, Option, none, some}
use tributo_broker_redis.Json.{Text}
use tributo_broker_redis.Exec.{Result, ok, raised, protocol_failure, mapping_failure}
use tributo_broker_redis.Exec.Rules.{Preserves, pure-Preserves, throw-Preserves}
use tributo_broker_redis.Exec.Leads.{Leads, Leads-of_Preserves, if-Leads, bind-Leads}
use tributo_broker_redis.Config.{OperationType, ExecutionProfile, single_worker}
use tributo_broker_redis.Protocol.{GenericRequest}
use tributo_broker_redis.Operations.{PreparedOperation}
use tributo_broker_redis.Services.{Services}
use tributo_broker_redis.State.{State, Action, Message}
use tributo_broker_redis.Runtime.Types.{Setup, TaskOutcome}
use tributo_broker_redis.Runtime.Reports.{invalid, invalid_default}
use tributo_broker_redis.Runtime.Handle.{
  handle, envelope_stage, parse_stage, prepare_stage, admit_stage, prepared_stage, parsed_stage,
  raw_stage, early_cancel, otherwise,
}

pub record HandleRule (services : Services) (setup : Setup) (message : Message)
    (P Q : State → Type 0) : Type 0 where
  pub weaken : (s : State) → P s → Q s
  pub early : Preserves P (early_cancel services setup message)
  pub refused :
      (operation_type : OperationType) (code text : String) (profile : ExecutionProfile)
      (run_id : Option String) (attempt_id : String)
      → Preserves P
          (invalid services setup message operation_type code text profile run_id attempt_id)
  pub admission :
      (raw : Text) (request : GenericRequest) (prepared : PreparedOperation)
      → setup.request_parser raw message.metadata.outer_operation_id message.metadata.operation_type
        ≡ ok request
      → Leads P Q (admit_stage services setup message request prepared)

module _ {services : Services} {setup : Setup} {message : Message} {P Q : State → Type 0}
    (rule : HandleRule services setup message P Q) where
  open rule use {weaken, early, refused, admission}

  refused-Leads :
      (operation_type : OperationType) (code text : String) (profile : ExecutionProfile)
      (run_id : Option String) (attempt_id : String)
      → Leads P Q
          (invalid services setup message operation_type code text profile run_id attempt_id)
  refused-Leads operation_type code text profile run_id attempt_id =
      Leads-of_Preserves _ weaken (refused operation_type code text profile run_id attempt_id)

  default-Leads :
      (operation_type : OperationType) (code text : String)
      → Leads P Q (invalid_default services setup message operation_type code text)
  unfolding invalid_default
  default-Leads operation_type code text =
      refused-Leads operation_type code text single_worker none "attempt-1"

  otherwise-Leads :
      (known : Option TaskOutcome) (next : Action TaskOutcome)
      → Leads P Q next
      → Leads P Q (otherwise services setup message known next)
  otherwise-Leads none next h = h
  otherwise-Leads (some outcome) next h = Leads-of_Preserves _ weaken (pure-Preserves outcome)

  module _ (raw : Text) (request : GenericRequest)
      (parsed : setup.request_parser raw message.metadata.outer_operation_id
          message.metadata.operation_type
        ≡ ok request) where
    prepared_stage-Leads :
        (r : Result PreparedOperation) → Leads P Q (prepared_stage services setup message request r)
    prepared_stage-Leads (ok prepared) = admission raw request prepared parsed
    prepared_stage-Leads (raised (mapping_failure code text)) = search (refused-Leads)
    prepared_stage-Leads (raised e) = Leads-of_Preserves _ weaken (throw-Preserves e)

    prepare_stage-Leads : Leads P Q (prepare_stage services setup message request)
    unfolding prepare_stage
    prepare_stage-Leads = search (if-Leads, prepared_stage-Leads, refused-Leads)

  parsed_stage-Leads :
      (raw : Text) (r : Result GenericRequest)
      → setup.request_parser raw message.metadata.outer_operation_id message.metadata.operation_type
        ≡ r
      → Leads P Q (parsed_stage services setup message r)
  parsed_stage-Leads raw (ok request) e = prepare_stage-Leads raw request e
  parsed_stage-Leads raw (raised (protocol_failure code text)) e = default-Leads _ code text
  parsed_stage-Leads raw (raised x) e = Leads-of_Preserves _ weaken (throw-Preserves x)

  raw_stage-Leads : (raw : Option Text) → Leads P Q (raw_stage services setup message raw)
  raw_stage-Leads none = default-Leads _ _ _
  raw_stage-Leads (some raw) = unfold parse_stage in parsed_stage-Leads raw _ refl

  envelope_stage-Leads : Leads P Q (envelope_stage services setup message)
  unfolding envelope_stage
  envelope_stage-Leads = search (if-Leads, raw_stage-Leads, default-Leads)

  pub handle-Leads : Leads P Q (handle services setup message)
  unfolding handle
  handle-Leads =
      search
        (if-Leads, bind-Leads, weaken, early, otherwise-Leads, envelope_stage-Leads, default-Leads)
        depth 8
