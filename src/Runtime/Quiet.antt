-- ===== src/Runtime/Quiet.antt =====
-- The parts of `handle` that make no call of a given kind.
use tributo_broker_redis.Base.{String, Option, none, some}
use tributo_broker_redis.Json.{Fields}
use tributo_broker_redis.Exec.Rules.{Preserves, preserves_rules, pure-Preserves}
use tributo_broker_redis.Config.{OperationType, ExecutionProfile}
use tributo_broker_redis.Protocol.{GenericRequest}
use tributo_broker_redis.Services.{Services, ActiveSubmission}
use tributo_broker_redis.State.{State, Message}
use tributo_broker_redis.Reporter.{Reporter}
use tributo_broker_redis.Cancellation.{remove_active}
use tributo_broker_redis.Reporter.Quiet.{IsQuiet, publish-Preserves}
use tributo_broker_redis.Cancellation.Stable.{terminal-Preserves}
use tributo_broker_redis.Runtime.Types.{Setup}
use tributo_broker_redis.Runtime.Reports.{published, invalid}
use tributo_broker_redis.Runtime.Resume.{reconfirm, resume, resume_if, resume_existing_submission}
use tributo_broker_redis.Runtime.Handle.{is_marked, report_unless, early_cancel, late_cancel}

module _ (services : Services) {P : State → Type 0} (quiet : IsQuiet P) where
  open quiet use {on_exists}

  pub published-Preserves :
      (reporter : Reporter) (event_type : String) (payload : Fields) (phase : Option String)
      → Preserves P (published services reporter event_type payload phase)
  published-Preserves reporter event_type payload phase =
      unfold published in search (preserves_rules, publish-Preserves services quiet) depth 8

  pub invalid-Preserves :
      (setup : Setup) (message : Message) (operation_type : OperationType) (code text : String)
      (profile : ExecutionProfile) (run_id : Option String) (attempt_id : String)
      → Preserves P
          (invalid services setup message operation_type code text profile run_id attempt_id)
  invalid-Preserves setup message operation_type code text profile run_id attempt_id =
      unfold invalid in search (preserves_rules, published-Preserves) depth 8

  module _ (setup : Setup)
      (removal : (s : State) (operation_id : String)
        → P s
        → P (record s { active = remove_active s.active operation_id })) where
    reconfirm-Preserves :
        (request : GenericRequest) (operation_type : OperationType) (existing : ActiveSubmission)
        → Preserves P (reconfirm services setup request operation_type existing)
    reconfirm-Preserves request operation_type existing =
        unfold reconfirm in search (preserves_rules, published-Preserves) depth 8

    pub resume-Preserves :
        (request : GenericRequest) (operation_type : OperationType) (existing : ActiveSubmission)
        → Preserves P (resume services setup request operation_type existing)
    resume-Preserves request operation_type existing =
        unfold resume in
        search (preserves_rules, reconfirm-Preserves, terminal-Preserves services quiet, removal)
          depth 8

    resume_if-Preserves :
        (request : GenericRequest) (operation_type : OperationType)
        (existing : Option ActiveSubmission)
        → Preserves P (resume_if services setup request operation_type existing)
    resume_if-Preserves request operation_type none = pure-Preserves none
    resume_if-Preserves request operation_type (some existing) =
        search (preserves_rules, resume-Preserves) depth 8

    pub resume_existing-Preserves :
        (request : GenericRequest) (operation_type : OperationType)
        → Preserves P (resume_existing_submission services setup request operation_type)
    resume_existing-Preserves request operation_type =
        unfold resume_existing_submission in search (preserves_rules, resume_if-Preserves) depth 8

  module _ (setup : Setup) where
    module _ (message : Message) where
      pub is_marked-Preserves :
          (operation_id : String) → Preserves P (is_marked services setup message operation_id)
      is_marked-Preserves operation_id =
          unfold is_marked in search (preserves_rules, on_exists) depth 8

      report_unless-Preserves :
          (existing : Option ActiveSubmission)
          → Preserves P (report_unless services setup message existing)
      report_unless-Preserves none = search (published-Preserves)
      report_unless-Preserves (some existing) = pure-Preserves tt

      pub early_cancel-Preserves : Preserves P (early_cancel services setup message)
      early_cancel-Preserves =
          unfold early_cancel in
          search (preserves_rules, is_marked-Preserves, report_unless-Preserves) depth 9

      pub late_cancel-Preserves :
          (request : GenericRequest) → Preserves P (late_cancel services setup message request)
      late_cancel-Preserves request =
          unfold late_cancel in
          search (preserves_rules, is_marked-Preserves, published-Preserves) depth 9
