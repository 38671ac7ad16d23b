-- ===== src/Cancellation.antt =====
-- src/tributo_broker_redis/cancellation.py: the active submissions and the watcher of their Ray jobs.
mod ActiveMap
pub mod Terminal
pub mod Stable
pub mod Outcomes
pub mod Scan
pub mod Keyed
pub mod Retention
pub mod Cancelled
pub mod Pass
pub mod Thread
pub mod Causes
pub mod Follows
unfoldable pub use ActiveMap.{put_active, remove_active, get_active, snapshot}
unfoldable pub use Terminal.{terminal_event_published, scan_entries, entry_verdict, event_verdict}
use tributo_broker_redis.Base.{
  ℕ, String, Bool, true, false, not, ◌&&◌, ◌||◌, Option, none, some, List, [], ◌∷◌, leb, ◌==◌,
  if◌then◌else◌, set_has, set_add, set_discard,
}
use tributo_broker_redis.Json.{Fields, no_fields, field, json_str, bool}
use tributo_broker_redis.Exec.{◌>>=◌, ◌>>◌, pure, gets, modify, try_except}
use tributo_broker_redis.Config.{cancel_key}
use tributo_broker_redis.Services.{ActiveSubmission, Services, Call}
use tributo_broker_redis.State.{State, Watcher, Action, perform}
use tributo_broker_redis.Reporter.{Reporter, new_reporter, publish}

-- The constructor's arguments; the interval only paces the thread.
pub record WatcherConfig : Type 0 where
  pub dashboard_url : String
  pub max_event_bytes : ℕ
  pub max_stream_length : ℕ

unfoldable pub watcher_reporter : WatcherConfig → ActiveSubmission → Reporter
unfolding new_reporter
watcher_reporter config item =
    new_reporter item.channel.event_stream_prefix item.channel.outer_identity_field
      (record {
        operation_id = item.operation_id;
        operation_type = item.operation_type;
        execution_profile = item.execution_profile;
        run_id = item.run_id;
        attempt_id = item.submission.attempt_id;
        submission_id = some item.submission.submission_id;
        ray_job_id = item.submission.ray_job_id;
      })
      config.max_event_bytes config.max_stream_length

abbrev pub fallback_payload : String → Fields
fallback_payload code = field "error_code" (json_str code) (
    field "sanitized_message" (json_str "Ray job ended before publishing a terminal event")
      (field "retryable" (bool false) no_fields))

abbrev pub cancelled_payload : Fields
cancelled_payload = field "reason" (json_str "cancel key observed after admission") no_fields

-- `timeout_stop`: the stop was asked for because of the deadline.
unfoldable pub timeout_stop : (timeout_requested stop_requested cancelled timed_out : Bool) → Bool
timeout_stop timeout_requested stop_requested cancelled timed_out =
    timeout_requested || (timed_out && not cancelled && not stop_requested)

unfoldable pub ended_code : (by_timeout : Bool) → (status : String) → String
ended_code by_timeout status =
    if by_timeout
    then "EXECUTION_TIMEOUT"
    else if status == "FAILED"
    then "RAY_JOB_FAILED"
    else "TERMINAL_EVENT_MISSING"

abbrev pub deadline_passed : Option ℕ → ℕ → Bool
deadline_passed none now = false
deadline_passed (some deadline) now = leb deadline now

module _ (services : Services) (config : WatcherConfig) where
  unfoldable pub report_failed : ActiveSubmission → String → Action (Unit {0})
  unfolding publish watcher_reporter
  report_failed item code = do
    _ ←
        publish services (watcher_reporter config item) "FAILED" (fallback_payload code)
          (some "FAILED")
    pure tt

  unfoldable pub report_cancelled : ActiveSubmission → Action (Unit {0})
  unfolding publish watcher_reporter
  report_cancelled item = do
    _ ←
        publish services (watcher_reporter config item) "CANCELLED" cancelled_payload
          (some "CANCELLED")
    pure tt

  -- The three lines that take an item out of the watcher.
  unfoldable pub forget : ActiveSubmission → Action (Unit {0})
  unfolding remove_active set_discard
  forget item = modify (λ s. record s {
    active = remove_active s.active item.operation_id;
    watcher = record s.watcher {
      stop_requested = set_discard s.watcher.stop_requested item.operation_id;
      timeout_requested = set_discard s.watcher.timeout_requested item.operation_id;
    };
  })

  unfoldable pub note_stop : Bool → ActiveSubmission → Action (Unit {0})
  unfolding set_add
  note_stop cancelled item = modify (λ s. record s {
    watcher =
        if cancelled
        then record s.watcher {
          stop_requested = set_add s.watcher.stop_requested item.operation_id;
        }
        else record s.watcher {
          timeout_requested = set_add s.watcher.timeout_requested item.operation_id;
        };
  })

  -- The branch for `SUCCEEDED` and `FAILED`.
  unfoldable pub settle_ended : ActiveSubmission → Bool → String → Action (Unit {0})
  unfolding ended_code report_failed forget
  settle_ended item by_timeout status = do
    report_failed item (ended_code by_timeout status)
    forget item

  unfoldable pub report_stopped :
      ActiveSubmission → (by_timeout cancelled : Bool) → Action (Unit {0})
  unfolding report_failed report_cancelled
  report_stopped item by_timeout cancelled =
      if by_timeout
      then report_failed item "EXECUTION_TIMEOUT"
      else if cancelled
      then report_cancelled item
      else report_failed item "RAY_JOB_STOPPED"

  -- The branch for `STOPPED`.
  unfoldable pub settle_stopped :
      ActiveSubmission → (by_timeout cancelled : Bool) → Action (Unit {0})
  unfolding report_stopped forget
  settle_stopped item by_timeout cancelled = do
    report_stopped item by_timeout cancelled
    forget item

  unfoldable pub ask_stop : ActiveSubmission → Bool → Action (Unit {0})
  unfolding perform note_stop
  ask_stop item cancelled = do
    perform (λ t. services.stop_job t item.submission.submission_id)
        (Call.stop_job item.submission.submission_id)
    note_stop cancelled item

  -- The part of the loop body behind the two questions to Ray and Redis.
  unfoldable pub settle :
      ActiveSubmission → String → (cancelled timed_out : Bool) → Action (Unit {0})
  unfolding timeout_stop settle_ended settle_stopped ask_stop
  settle item status cancelled timed_out = do
    watcher ← gets (λ s. s.watcher)
    let stop_requested = set_has watcher.stop_requested item.operation_id
    let timeout_requested = set_has watcher.timeout_requested item.operation_id
    let by_timeout = timeout_stop timeout_requested stop_requested cancelled timed_out
    if status == "SUCCEEDED" || status == "FAILED"
        then settle_ended item by_timeout status
        else if status == "STOPPED"
        then settle_stopped item by_timeout (cancelled || stop_requested)
        else if cancelled || timed_out
        then ask_stop item cancelled
        else pure tt

  -- The part of the `try` behind the search for a terminal event.
  unfoldable pub look_item : ActiveSubmission → Action (Unit {0})
  look_item item = do
    status ←
        perform (λ t. services.job_status t item.submission.submission_id)
          (Call.job_status item.submission.submission_id)
    cancelled ←
        perform (λ t. services.exists t (cancel_key item.channel item.operation_id))
          (Call.exists (cancel_key item.channel item.operation_id))
    now ← gets (λ s. services.now_ms s.trace)
    settle item status cancelled (deadline_passed item.deadline_at_ms now)

  -- The body of the `try` for one item.
  unfoldable pub check_item : ActiveSubmission → Action (Unit {0})
  unfolding look_item
  check_item item = do
    published ← terminal_event_published services item
    if published then forget item else look_item item

  -- An exception ends only its own item.
  unfoldable pub check_items : List ActiveSubmission → Action (Unit {0})
  unfolding check_item
  check_items [] = pure tt
  check_items (item ∷ items) = do try_except (check_item item) (λ _. pure tt); check_items items

  unfoldable pub check_once : Action (Unit {0})
  unfolding check_items snapshot
  check_once = do items ← gets (λ s. snapshot s.active); check_items items
