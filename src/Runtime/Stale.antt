-- ===== src/Runtime/Stale.antt =====
-- A look of the watcher at an item of an older snapshot, behind an admission of the same operation.
use tributo_broker_redis.Base.{
  ℕ, String, ◌≡◌, ◌≢◌, refl, true, Option, none, some, subst, eq_refl, dict_get-pop,
}
use tributo_broker_redis.Exec.{ok}
use tributo_broker_redis.Config.{OperationType}
use tributo_broker_redis.Protocol.{GenericRequest}
use tributo_broker_redis.Services.{RayJobSubmission, ActiveSubmission, Services}
use tributo_broker_redis.State.{State}
use tributo_broker_redis.Cancellation.{
  WatcherConfig, get_active, remove_active, terminal_event_published, forget, check_item,
}
use tributo_broker_redis.Runtime.Types.{Setup}
use tributo_broker_redis.Runtime.Admission.{active_of, submit_job, admit_job}
use tributo_broker_redis.Runtime.Admitted.{get_active-admit_job}

module _ (services : Services) (config : WatcherConfig) (item : ActiveSubmission) where
  get_active-forget :
      (s : State) → get_active (forget services config item s).1.active item.operation_id ≡ none
  unfolding forget get_active remove_active
  get_active-forget s =
      rw (dict_get-pop s.active item.operation_id item.operation_id)
        (rw (eq_refl item.operation_id) refl)

  -- Whatever active submission the operation has by then.
  get_active-check_item :
      (s : State)
      → (terminal_event_published services item s).0 ≡ ok true
      → get_active (check_item services config item s).1.active item.operation_id ≡ none
  unfolding check_item
  get_active-check_item s ended =
      rw ended (get_active-forget (terminal_event_published services item s).1)

module _ (services : Services) (setup : Setup) (config : WatcherConfig) (request : GenericRequest)
    (operation_type : OperationType) (received_at_ms : ℕ) (deadline_at_ms : Option ℕ)
    (job : RayJobSubmission) where
  abbrev pub after_admission : String → State → State
  after_admission encoded s =
      (admit_job services setup request operation_type encoded received_at_ms deadline_at_ms s).1

  -- The watcher removes by operation, not by submission. If Ray took a job, the runtime knows it as the
  -- operation's active submission; but if the watcher then comes to an older submission of the same
  -- operation, which is another job and still stood in its snapshot, and finds the older job's terminal
  -- event, the operation has no active submission any more.
  pub get_active-check_item_stale :
      (encoded : String) (s : State) (item : ActiveSubmission)
      → (submit_job services setup request operation_type encoded received_at_ms deadline_at_ms s).0
        ≡ ok job
      → item.operation_id ≡ request.operation_id
      → item.submission.submission_id ≢ job.submission_id
      → (terminal_event_published services item (after_admission encoded s)).0 ≡ ok true
      → (get_active (after_admission encoded s).active request.operation_id
          ≡ some (active_of setup request operation_type job received_at_ms deadline_at_ms))
        × (get_active
              (check_item services config item (after_admission encoded s)).1.active
              request.operation_id
            ≡ none)
  get_active-check_item_stale encoded s item taken same older ended = (
    get_active-admit_job services setup request operation_type received_at_ms deadline_at_ms job
        encoded s taken,
    subst
        (λ operation_id.
          get_active (check_item services config item (after_admission encoded s)).1.active
            operation_id
          ≡ none)
        same (get_active-check_item services config item _ ended),
  )
