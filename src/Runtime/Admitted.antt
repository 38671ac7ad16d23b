-- ===== src/Runtime/Admitted.antt =====
-- What an admission leaves behind once Ray has the job.
use tributo_broker_redis.Base.{ℕ, String, ◌≡◌, refl, Option, some, eq_refl, dict_get-put}
use tributo_broker_redis.Exec.{ok, ◌>>=◌, pure, try_except, modify}
use tributo_broker_redis.Exec.Rules.{pure-Preserves, preserves_rules}
use tributo_broker_redis.Exec.Leads.{Leads, try-Leads, bind-Leads_last}
use tributo_broker_redis.Config.{OperationType}
use tributo_broker_redis.Protocol.{GenericRequest}
use tributo_broker_redis.Services.{RayJobSubmission, ActiveSubmission, Services}
use tributo_broker_redis.State.{State, Message, Action}
use tributo_broker_redis.Cancellation.{get_active, put_active}
use tributo_broker_redis.Runtime.Types.{Setup, TaskOutcome, retry_with}
use tributo_broker_redis.Runtime.Admission.{active_of, submit_job, confirm, admit_job}
use tributo_broker_redis.Runtime.Quiet.{published-Preserves}
use tributo_broker_redis.Runtime.Handle.{handle}
use tributo_broker_redis.Runtime.Submits.{submits}
use tributo_broker_redis.Runtime.Known.{KeepsIdentity, submits-handle_known, Knows, Finds-quiet}

module _ (services : Services) (setup : Setup) (request : GenericRequest)
    (operation_type : OperationType) (received_at_ms : ℕ) (deadline_at_ms : Option ℕ)
    (job : RayJobSubmission) where
  abbrev admitted : ActiveSubmission
  admitted = active_of setup request operation_type job received_at_ms deadline_at_ms

  put-Leads :
      Leads
        (λ _. Unit)
        (Knows request.operation_id admitted)
        (modify (λ s. record s { active = put_active s.active admitted }))
  unfolding get_active put_active active_of
  put-Leads = record { leads = λ s u. rw dict_get-put (rw (eq_refl request.operation_id) refl) }

  confirm-Leads :
      Leads
        (λ _. Unit)
        (Knows request.operation_id admitted)
        (confirm services setup request operation_type job received_at_ms deadline_at_ms)
  confirm-Leads =
      unfold confirm in
      search
        (
          preserves_rules,
          bind-Leads_last,
          put-Leads,
          published-Preserves services (Finds-quiet request.operation_id (some admitted)),
        )
        depth 8

  Knows-taken :
      (take : Action RayJobSubmission) (outcome : TaskOutcome) (s : State)
      → (take s).0 ≡ ok job
      → Knows request.operation_id admitted
          (try_except
            (do
              submitted ← take
              confirm services setup request operation_type submitted received_at_ms deadline_at_ms)
            (λ _. pure outcome)
            s).1
  Knows-taken take outcome s taken = rw taken (
      (try-Leads _ (λ _. pure outcome) confirm-Leads (λ e. pure-Preserves outcome)).leads (take s).1
        tt)

  -- If Ray took the job, the runtime knows it as the operation's active submission afterwards, whether the
  -- ACCEPTED event was published or not.
  pub get_active-admit_job :
      (encoded : String) (s : State)
      → (submit_job services setup request operation_type encoded received_at_ms deadline_at_ms s).0
        ≡ ok job
      → get_active
          (admit_job services setup request operation_type encoded received_at_ms deadline_at_ms
            s).1.active
          request.operation_id
        ≡ some (active_of setup request operation_type job received_at_ms deadline_at_ms)
  unfolding admit_job
  get_active-admit_job encoded s taken =
      Knows-taken
        (submit_job services setup request operation_type encoded received_at_ms deadline_at_ms)
        (retry_with "RAY_ADMISSION_UNKNOWN" "Ray admission could not be confirmed") s taken

  -- If Ray took the job, a delivery of the same operation that is handled next submits no second one,
  -- if the parser keeps the outer identity: also where the first delivery was left for a retry, since its
  -- ACCEPTED event could not be published.
  pub submits-handle_admitted :
      (encoded : String) (s : State) (message : Message)
      → (submit_job services setup request operation_type encoded received_at_ms deadline_at_ms s).0
        ≡ ok job
      → KeepsIdentity setup message
      → message.metadata.outer_operation_id ≡ request.operation_id
      → submits
          (handle services setup message
            (admit_job services setup request operation_type encoded received_at_ms deadline_at_ms
              s).1).1
        ≡ submits
            (admit_job services setup request operation_type encoded received_at_ms deadline_at_ms
              s).1
  submits-handle_admitted encoded s message taken identity same =
      submits-handle_known services setup message admitted _ identity
        (rw same (get_active-admit_job encoded s taken))
