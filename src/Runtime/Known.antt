-- ===== src/Runtime/Known.antt =====
-- A delivery whose operation already has an active submission.
use tributo_broker_redis.Base.{ℕ, String, ◌≡◌, refl, Option, some}
use tributo_broker_redis.Json.{Text}
use tributo_broker_redis.Exec.{Result, ok, raised, and_then, pure}
use tributo_broker_redis.Exec.Rules.{Preserves}
use tributo_broker_redis.Exec.Leads.{Leads}
use tributo_broker_redis.Protocol.{GenericRequest}
use tributo_broker_redis.Operations.{PreparedOperation}
use tributo_broker_redis.Services.{ActiveSubmission, Services, Trace, Call}
use tributo_broker_redis.State.{State, Action, Message, perform}
use tributo_broker_redis.State.Counts.{Made, is_submit}
use tributo_broker_redis.Cancellation.{get_active}
use tributo_broker_redis.Runtime.Types.{Setup, TaskOutcome}
use tributo_broker_redis.Runtime.Resume.{resume, resume_existing_submission}
use tributo_broker_redis.Runtime.Handle.{handle, admit_stage, otherwise}
use tributo_broker_redis.Runtime.Stages.{HandleRule, handle-Leads}
use tributo_broker_redis.Reporter.Quiet.{IsQuiet}
use tributo_broker_redis.Runtime.Quiet.{invalid-Preserves, early_cancel-Preserves, resume-Preserves}
use tributo_broker_redis.Runtime.Submits.{submits, submit_quiet}

-- Every request that the parser returns has the delivery's outer identity.
abbrev pub KeepsIdentity : Setup → Message → Type 0
KeepsIdentity setup message =
    (raw : Text) (request : GenericRequest)
    → setup.request_parser raw message.metadata.outer_operation_id message.metadata.operation_type
      ≡ ok request
    → request.operation_id ≡ message.metadata.outer_operation_id

abbrev pub Finds : String → Option ActiveSubmission → State → Type 0
Finds operation_id found s = get_active s.active operation_id ≡ found

abbrev pub Knows : String → ActiveSubmission → State → Type 0
Knows operation_id item = Finds operation_id (some item)

module _ (operation_id : String) (found : Option ActiveSubmission) where
  perform-Finds :
      {A : Type 0} (answer : Trace → Result A) (call : Call)
      → Preserves (Finds operation_id found) (perform answer call)
  unfolding perform
  perform-Finds answer call = record { after = λ s h. h }

  pub Finds-quiet : IsQuiet (Finds operation_id found)
  Finds-quiet = record {
    on_exists = λ answer key. perform-Finds answer (Call.exists key);
    on_xrevrange = λ answer stream k. perform-Finds answer (Call.xrevrange stream k);
    on_xadd = λ answer stream f event k. perform-Finds answer (Call.xadd stream f event k);
  }

both-Preserves :
    {A : Type 0} {P Q : State → Type 0} (m : Action A)
    → Preserves P m
    → Preserves Q m
    → Preserves (λ s. P s × Q s) m
both-Preserves m p q = record { after = λ s h. (p.after s h.0, q.after s h.1) }

module _ (services : Services) (setup : Setup) (message : Message) (request : GenericRequest)
    (prepared : PreparedOperation) (item : ActiveSubmission) where
  -- What follows a `resume` that was made is nothing.
  resumed_only :
      (r : Result TaskOutcome) (s : State) (next : Action TaskOutcome)
      → and_then
          (and_then r (λ outcome. pure (some outcome)) s).0
          (λ resumed. otherwise services setup message resumed next)
          (and_then r (λ outcome. pure (some outcome)) s).1
        ≡ (r, s)
  resumed_only (ok outcome) s next = refl
  resumed_only (raised e) s next = refl

  -- With an active submission, admission is `resume`, and nothing else.
  pub admit_stage-known :
      (s : State)
      → Knows request.operation_id item s
      → admit_stage services setup message request prepared s
        ≡ resume services setup request message.metadata.operation_type item s
  admit_stage-known s e =
      unfold admit_stage resume_existing_submission in
      rw e (
        let (r, s') = resume services setup request message.metadata.operation_type item s in
        resumed_only r s' _)

module _ (services : Services) (setup : Setup) (message : Message) (item : ActiveSubmission)
    (identity : KeepsIdentity setup message) (n : ℕ) where
  abbrev Before : State → Type 0
  Before s = Made is_submit n s × Knows message.metadata.outer_operation_id item s

  known_admission :
      (raw : Text) (request : GenericRequest) (prepared : PreparedOperation)
      → setup.request_parser raw message.metadata.outer_operation_id message.metadata.operation_type
        ≡ ok request
      → Leads Before (Made is_submit n) (admit_stage services setup message request prepared)
  known_admission raw request prepared parsed = record {
    leads = λ s h.
        rw
          (admit_stage-known services setup message request prepared item s
            (rw (identity raw request parsed) h.1))
          ((resume-Preserves services (submit_quiet n) setup (λ t k p. p) request
              message.metadata.operation_type item).after
            s h.0);
  }

  known_rule : HandleRule services setup message Before (Made is_submit n)
  known_rule = record {
    weaken = λ s h. h.0;
    early = both-Preserves _ (early_cancel-Preserves services (submit_quiet n) setup message) (
        early_cancel-Preserves services
          (Finds-quiet message.metadata.outer_operation_id (some item)) setup message);
    refused = λ operation_type code text profile run_id attempt_id.
        both-Preserves _
          (invalid-Preserves services (submit_quiet n) setup message operation_type code text
            profile run_id attempt_id)
          (invalid-Preserves services (Finds-quiet message.metadata.outer_operation_id (some item))
            setup message operation_type code text profile run_id attempt_id);
    admission = known_admission;
  }

-- While an operation has an active submission, a delivery of that operation submits no Ray job, if the
-- parser keeps the outer identity.
pub submits-handle_known :
    (services : Services) (setup : Setup) (message : Message) (item : ActiveSubmission) (s : State)
    → KeepsIdentity setup message
    → get_active s.active message.metadata.outer_operation_id ≡ some item
    → submits (handle services setup message s).1 ≡ submits s
submits-handle_known services setup message item s identity known =
    (handle-Leads (known_rule services setup message item identity (submits s))).leads s
      (refl, known)
