-- ===== src/Runtime/Submits.antt =====
-- How often `handle` submits a Ray job.
use tributo_broker_redis.Base.{ℕ, ◌+◌, ◌≤◌, String, refl, Option, none, some}
use tributo_broker_redis.Exec.Rules.{
  Preserves, preserves_rules, pure-Preserves, gets-Preserves, lift-Preserves,
}
use tributo_broker_redis.Exec.Leads.{
  Leads, Leads-of_Preserves, if-Leads, try-Leads, bind-Leads, bind-Leads_last,
}
use tributo_broker_redis.Config.{OperationType, ExecutionProfile, single_worker}
use tributo_broker_redis.Protocol.{GenericRequest}
use tributo_broker_redis.Operations.{PreparedOperation}
use tributo_broker_redis.Services.{Services, RayJobSubmission, Call}
use tributo_broker_redis.State.{State, Action, Message}
use tributo_broker_redis.State.Counts.{Made, perform-Made, is_submit, count_calls}
use tributo_broker_redis.State.OneMore.{OneMore, one_more, OneMore-Preserves, perform-OneMore}
use tributo_broker_redis.Runtime.Types.{Setup, TaskOutcome}
use tributo_broker_redis.Runtime.Reports.{invalid, invalid_default}
use tributo_broker_redis.Runtime.Admission.{submit_job, confirm, admit_job, admit}
use tributo_broker_redis.Runtime.Handle.{handle, admit_stage, otherwise}
use tributo_broker_redis.Runtime.Stages.{HandleRule, handle-Leads}
use tributo_broker_redis.Reporter.Quiet.{IsQuiet}
use tributo_broker_redis.Runtime.Quiet.{
  published-Preserves, invalid-Preserves, resume_existing-Preserves, early_cancel-Preserves,
  late_cancel-Preserves,
}

abbrev pub submits : State → ℕ
submits s = count_calls is_submit s.trace

pub submit_quiet : (n : ℕ) → IsQuiet (Made is_submit n)
submit_quiet n = record {
  on_exists = λ answer key. perform-Made is_submit n answer (Call.exists key) refl;
  on_xrevrange = λ answer stream k. perform-Made is_submit n answer (Call.xrevrange stream k) refl;
  on_xadd =
      λ answer stream f event k. perform-Made is_submit n answer (Call.xadd stream f event k) refl;
}

ruleset leads_rules = (bind-Leads, if-Leads, gets-Preserves, lift-Preserves, one_more)

module _ (services : Services) (setup : Setup) (message : Message) (n : ℕ) where
  -- An invalid request submits nothing.
  refused-Leads :
      (operation_type : OperationType) (code text : String) (profile : ExecutionProfile)
      (run_id : Option String) (attempt_id : String)
      → Leads
          (Made is_submit n)
          (OneMore is_submit n)
          (invalid services setup message operation_type code text profile run_id attempt_id)
  refused-Leads operation_type code text profile run_id attempt_id =
      Leads-of_Preserves _ (one_more is_submit n) (
        invalid-Preserves services (submit_quiet n) setup message operation_type code text profile
          run_id attempt_id)

  refused_default-Leads :
      (operation_type : OperationType) (code text : String)
      → Leads
          (Made is_submit n)
          (OneMore is_submit n)
          (invalid_default services setup message operation_type code text)
  unfolding invalid_default
  refused_default-Leads operation_type code text =
      refused-Leads operation_type code text single_worker none "attempt-1"

module _ (services : Services) (setup : Setup) (request : GenericRequest)
    (operation_type : OperationType) (n : ℕ) where
  submit_job-Leads :
      (encoded : String) (received_at_ms : ℕ) (deadline_at_ms : Option ℕ)
      → Leads
          (Made is_submit n)
          (OneMore is_submit n)
          (submit_job services setup request operation_type encoded received_at_ms deadline_at_ms)
  unfolding submit_job
  submit_job-Leads encoded received_at_ms deadline_at_ms =
      search (leads_rules, perform-OneMore is_submit n) depth 8

  confirm-Made :
      (job : RayJobSubmission) (received_at_ms : ℕ) (deadline_at_ms : Option ℕ)
      → Preserves
          (Made is_submit n)
          (confirm services setup request operation_type job received_at_ms deadline_at_ms)
  confirm-Made job received_at_ms deadline_at_ms =
      unfold confirm in
      search (preserves_rules, published-Preserves services (submit_quiet n)) depth 9

module _ (services : Services) (setup : Setup) (request : GenericRequest)
    (operation_type : OperationType) (n : ℕ) where
  admit_job-Leads :
      (encoded : String) (received_at_ms : ℕ) (deadline_at_ms : Option ℕ)
      → Leads
          (Made is_submit n)
          (OneMore is_submit n)
          (admit_job services setup request operation_type encoded received_at_ms deadline_at_ms)
  unfolding admit_job
  admit_job-Leads encoded received_at_ms deadline_at_ms =
      try-Leads _ _
        (bind-Leads_last _ _
          (submit_job-Leads services setup request operation_type n encoded received_at_ms
            deadline_at_ms)
          (λ job. OneMore-Preserves is_submit n _ (λ k.
            confirm-Made services setup request operation_type k job received_at_ms
              deadline_at_ms)))
        (λ e. pure-Preserves _)

  admit-Leads :
      (message : Message) (prepared : PreparedOperation)
      → Leads
          (Made is_submit n)
          (OneMore is_submit n)
          (admit services setup request operation_type message prepared)
  unfolding admit
  admit-Leads message prepared =
      search (leads_rules, refused_default-Leads services setup message n, admit_job-Leads) depth 8

module _ (services : Services) (setup : Setup) (message : Message) (n : ℕ) where
  otherwise-Leads :
      (known : Option TaskOutcome) (next : Action TaskOutcome)
      → Leads (Made is_submit n) (OneMore is_submit n) next
      → Leads (Made is_submit n) (OneMore is_submit n) (otherwise services setup message known next)
  otherwise-Leads none next h = h
  otherwise-Leads (some outcome) next h =
      Leads-of_Preserves _ (one_more is_submit n) (pure-Preserves outcome)

  admit_stage-Leads :
      (request : GenericRequest) (prepared : PreparedOperation)
      → Leads
          (Made is_submit n)
          (OneMore is_submit n)
          (admit_stage services setup message request prepared)
  unfolding admit_stage
  admit_stage-Leads request prepared =
      search
        (
          leads_rules,
          otherwise-Leads,
          resume_existing-Preserves services (submit_quiet n) setup (λ s k h. h),
          late_cancel-Preserves services (submit_quiet n),
          admit-Leads services setup,
        )
        depth 9

submits_rule :
    (services : Services) (setup : Setup) (message : Message) (n : ℕ)
    → HandleRule services setup message (Made is_submit n) (OneMore is_submit n)
submits_rule services setup message n = record {
  weaken = one_more is_submit n;
  early = early_cancel-Preserves services (submit_quiet n) setup message;
  refused = invalid-Preserves services (submit_quiet n) setup message;
  admission = λ raw request prepared _. admit_stage-Leads services setup message n request prepared;
}

-- Whatever Redis, Ray and the request are, handling one delivery submits at most one Ray job.
pub submits-handle :
    (services : Services) (setup : Setup) (message : Message) (s : State)
    → submits (handle services setup message s).1 ≤ submits s + 1
submits-handle services setup message s =
    ((handle-Leads (submits_rule services setup message (submits s))).leads s refl).1
