-- ===== src/Runtime/Intents.antt =====
-- The watcher's causes and the rest of src/tributo_broker_redis/runtime.py: nothing that the loop does takes
-- an operation out of the watcher's sets, not even what takes its submission out of the active ones.
use tributo_broker_redis.Base.{
  String, ℕ, ◌≢◌, Option, none, some, subst, sym, set_has, ◌≡◌, ap, ◌∙◌, false,
}
use tributo_broker_redis.Exec.{Result, ok, ◌>>=◌}
use tributo_broker_redis.Exec.Rules.{Preserves}
use tributo_broker_redis.Config.{OperationType, training, batch_inference}
use tributo_broker_redis.Services.{RayJobSubmission, ActiveSubmission, Services, Trace, Call}
use tributo_broker_redis.State.{State, Message, Delivery, perform, set_delivery}
use tributo_broker_redis.Cancellation.{
  WatcherConfig, get_active, watcher_reporter, cancelled_payload, forget, settle,
}
use tributo_broker_redis.Cancellation.Outcomes.{forget-report_cancelled}
use tributo_broker_redis.Reporter.{publish}
use tributo_broker_redis.Protocol.{GenericRequest}
use tributo_broker_redis.Runtime.Handle.{handle}
use tributo_broker_redis.Runtime.Admission.{active_of, submit_job, admit_job}
use tributo_broker_redis.Runtime.Admitted.{get_active-admit_job}
use tributo_broker_redis.Runtime.Stable.{handle-Preserves, admit_job-Preserves}
use tributo_broker_redis.Cancellation.Causes.{
  Cause, by_cancel, cause, cause_of, phase_of, decide, enact,
}
use tributo_broker_redis.Cancellation.Follows.{settle-enact}
use tributo_broker_redis.Runtime.Types.{Setup}
use tributo_broker_redis.Runtime.Process.{IsProcessStable}

module _ (item : ActiveSubmission) (c : Cause) where
  abbrev pub Asked : State → Type 0
  Asked s = cause_of item s ≡ c

  perform-Asked :
      {A : Type 0} (answer : Trace → Result A) (call : Call) → Preserves Asked (perform answer call)
  unfolding perform
  perform-Asked answer call = record { after = λ s h. h }

  set_delivery-Asked :
      (operation : OperationType) (d : Delivery) (s : State)
      → Asked s
      → Asked (set_delivery operation d s)
  set_delivery-Asked training d s h = h
  set_delivery-Asked batch_inference d s h = h

  pub Asked-process : IsProcessStable Asked
  Asked-process = record {
    stable = record {
      quiet = record {
        on_exists = λ answer key. perform-Asked answer (Call.exists key);
        on_xrevrange = λ answer stream k. perform-Asked answer (Call.xrevrange stream k);
        on_xadd = λ answer stream f event k. perform-Asked answer (Call.xadd stream f event k);
      };
      on_submit = λ answer request. perform-Asked answer (Call.submit request);
      on_put = λ s put h. h;
      on_remove = λ s operation_id h. h;
    };
    consume = λ operation. record {
      on_read = λ answer stream group consumer block.
          perform-Asked answer (Call.xreadgroup stream group consumer block);
      on_claim = λ answer stream group consumer min_idle cursor k.
          perform-Asked answer (Call.xautoclaim stream group consumer min_idle cursor k);
      on_ack = λ answer stream group token. perform-Asked answer (Call.xack stream group token);
      on_delivery = set_delivery-Asked operation;
    };
    on_list = λ answer url. perform-Asked answer (Call.list_jobs url);
    on_channel = λ s k h. h;
    on_due = λ s k h. h;
    on_started = λ s h. h;
    on_thread = λ s h. h;
  }

module _ (services : Services) (setup : Setup) (config : WatcherConfig) (message : Message)
    (request : GenericRequest) (operation_type : OperationType) (encoded : String)
    (received_at_ms : ℕ) (deadline_at_ms : Option ℕ) (job : RayJobSubmission) where
  -- The delivery is handled, and then the request is admitted.
  abbrev pub after_admission : State → State
  after_admission s =
      (admit_job services setup request operation_type encoded received_at_ms deadline_at_ms
        (handle services setup message s).1).1

  abbrev pub newer : ActiveSubmission
  newer = active_of setup request operation_type job received_at_ms deadline_at_ms

  newer-Asked :
      (old : ActiveSubmission) (s : State)
      → cause_of old s ≡ by_cancel
      → request.operation_id ≡ old.operation_id
      → cause_of newer (after_admission s) ≡ by_cancel
  unfolding active_of
  newer-Asked old s h same =
      let stable = (Asked-process newer by_cancel).stable in
      (admit_job-Preserves services setup stable request operation_type encoded received_at_ms
          deadline_at_ms).after
        (handle services setup message s).1
        ((handle-Preserves services setup stable message).after s (
          subst
            (λ id.
              cause (set_has s.watcher.timeout_requested id) (set_has s.watcher.stop_requested id)
              ≡ by_cancel)
            (sym same) h))

  -- A stop that was asked for because of a cancel key outlives its submission. If a delivery is handled that
  -- takes the submission out of the active ones, as one does whose job has a terminal event, and Ray then
  -- takes a new job for the same operation, that one is the operation's active submission; and if Ray
  -- reports it STOPPED, although nobody asked for that and with neither cancel key nor deadline, the watcher
  -- publishes CANCELLED for it and forgets it.
  pub settle-inherited :
      (old : ActiveSubmission) (s : State)
      → cause_of old s ≡ by_cancel
      → get_active (handle services setup message s).1.active old.operation_id ≡ none
      → request.operation_id ≡ old.operation_id
      → old.submission.submission_id ≢ job.submission_id
      → (submit_job services setup request operation_type encoded received_at_ms deadline_at_ms
          (handle services setup message s).1).0
        ≡ ok job
      → (get_active (after_admission s).active request.operation_id ≡ some newer)
        × (settle services config newer "STOPPED" false false (after_admission s)
            ≡ (do
              _ ←
                  publish services
                    (watcher_reporter config newer)
                    "CANCELLED"
                    cancelled_payload
                    (some "CANCELLED")
              forget services config newer)
                (after_admission s))
  settle-inherited old s h ended same other taken = (
    get_active-admit_job services setup request operation_type received_at_ms deadline_at_ms job
        encoded (handle services setup message s).1 taken,
    settle-enact services config newer "STOPPED" false false (after_admission s)
        ∙ ap
            (λ cause.
              enact services config newer (decide (phase_of "STOPPED") cause false false)
                (after_admission s))
            (newer-Asked old s h same)
        ∙ forget-report_cancelled services config newer (after_admission s),
  )
