-- ===== src/Runtime/Stable.antt =====
-- What every part of `handle` keeps, from what each single effect keeps.
use tributo_broker_redis.Base.{ℕ, String, Option, none, some}
use tributo_broker_redis.Exec.{Result}
use tributo_broker_redis.Exec.Rules.{Preserves, preserves_rules, pure-Preserves}
use tributo_broker_redis.Config.{OperationType}
use tributo_broker_redis.Protocol.{GenericRequest}
use tributo_broker_redis.Operations.{PreparedOperation}
use tributo_broker_redis.Services.{
  ActiveSubmission, RayJobSubmission, SubmitRequest, Services, Trace, Call,
}
use tributo_broker_redis.State.{State, Action, Message, perform}
use tributo_broker_redis.Cancellation.{put_active, remove_active}
use tributo_broker_redis.Runtime.Types.{Setup, TaskOutcome}
use tributo_broker_redis.Runtime.Reports.{invalid_default}
use tributo_broker_redis.Runtime.Admission.{submit_job, confirm, admit_job, admit}
use tributo_broker_redis.Runtime.Handle.{handle, admit_stage, otherwise}
use tributo_broker_redis.Runtime.Stages.{HandleRule, handle-Leads}
use tributo_broker_redis.Reporter.Quiet.{IsQuiet}
use tributo_broker_redis.Runtime.Quiet.{
  published-Preserves, invalid-Preserves, resume_existing-Preserves, early_cancel-Preserves,
  late_cancel-Preserves,
}

pub record IsStable (P : State → Type 0) : Type 0 where
  pub quiet : IsQuiet P
  pub on_submit :
      (answer : Trace → Result RayJobSubmission) (request : SubmitRequest)
      → Preserves P (perform answer (Call.submit request))
  pub on_put :
      (s : State) (item : ActiveSubmission)
      → P s
      → P (record s { active = put_active s.active item })
  pub on_remove :
      (s : State) (operation_id : String)
      → P s
      → P (record s { active = remove_active s.active operation_id })

module _ (services : Services) (setup : Setup) {P : State → Type 0} (stable : IsStable P) where
  open stable use {quiet, on_submit, on_put, on_remove}

  module _ (request : GenericRequest) (operation_type : OperationType) (encoded : String)
      (received_at_ms : ℕ) (deadline_at_ms : Option ℕ) where
    submit_job-Preserves :
        Preserves P
          (submit_job services setup request operation_type encoded received_at_ms deadline_at_ms)
    submit_job-Preserves = unfold submit_job in search (preserves_rules, on_submit) depth 8

    confirm-Preserves :
        (job : RayJobSubmission)
        → Preserves P
            (confirm services setup request operation_type job received_at_ms deadline_at_ms)
    confirm-Preserves job =
        unfold confirm in
        search (preserves_rules, on_put, published-Preserves services quiet) depth 9

    pub admit_job-Preserves :
        Preserves P
          (admit_job services setup request operation_type encoded received_at_ms deadline_at_ms)
    admit_job-Preserves =
        unfold admit_job in
        search (preserves_rules, submit_job-Preserves, confirm-Preserves) depth 9

  module _ (message : Message) where
    default-Preserves :
        (operation_type : OperationType) (code text : String)
        → Preserves P (invalid_default services setup message operation_type code text)
    default-Preserves operation_type code text =
        unfold invalid_default in search (invalid-Preserves services quiet)

    admit-Preserves :
        (request : GenericRequest) (operation_type : OperationType) (prepared : PreparedOperation)
        → Preserves P (admit services setup request operation_type message prepared)
    admit-Preserves request operation_type prepared =
        unfold admit in search (preserves_rules, admit_job-Preserves, default-Preserves) depth 9

    otherwise-Preserves :
        (known : Option TaskOutcome) (next : Action TaskOutcome)
        → Preserves P next
        → Preserves P (otherwise services setup message known next)
    otherwise-Preserves none next h = h
    otherwise-Preserves (some outcome) next h = pure-Preserves outcome

    admit_stage-Preserves :
        (request : GenericRequest) (prepared : PreparedOperation)
        → Preserves P (admit_stage services setup message request prepared)
    admit_stage-Preserves request prepared =
        unfold admit_stage in
        search
          (
            preserves_rules,
            otherwise-Preserves,
            resume_existing-Preserves services quiet setup on_remove,
            late_cancel-Preserves services quiet,
            admit-Preserves,
          )
          depth 9

    stable_rule : HandleRule services setup message P P
    stable_rule = record {
      weaken = λ s p. p;
      early = early_cancel-Preserves services quiet setup message;
      refused = invalid-Preserves services quiet setup message;
      admission = λ raw request prepared _. record {
        leads = λ s. (admit_stage-Preserves request prepared).after s;
      };
    }

    pub handle-Preserves : Preserves P (handle services setup message)
    handle-Preserves = record { after = λ s. (handle-Leads stable_rule).leads s }
