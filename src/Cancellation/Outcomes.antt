-- ===== src/Cancellation/Outcomes.antt =====
-- What one look of the watcher at an item does.
use tributo_broker_redis.Base.{
  some, refl, String, ◌≡◌, Bool, true, false, not, ◌||◌, arith, ◌==◌, eq_refl, if◌then◌else◌,
  set_has, set_has-add,
}
use tributo_broker_redis.Exec.{Result, ok, raised, lift, ◌>>◌, ◌>>=◌, pure}
use tributo_broker_redis.Services.{Event, ActiveSubmission, Services}
use tributo_broker_redis.State.{State}
use tributo_broker_redis.Reporter.{publish}
use tributo_broker_redis.Cancellation.{
  watcher_reporter, cancelled_payload, report_cancelled, WatcherConfig, timeout_stop, report_failed,
  forget, report_stopped, settle_stopped, ask_stop, settle,
}

-- A status in which the job has not ended.
pub record IsLive (status : String) : Type 0 where
  pub not_succeeded : (status == "SUCCEEDED") ≡ false
  pub not_failed : (status == "FAILED") ≡ false
  pub not_stopped : (status == "STOPPED") ≡ false

module _ (services : Services) (config : WatcherConfig) (item : ActiveSubmission) where
  settle-live :
      (status : String) (cancelled timed_out : Bool) (s : State)
      → IsLive status
      → settle services config item status cancelled timed_out s
        ≡ (if cancelled || timed_out then ask_stop services config item cancelled else pure tt) s
  unfolding settle
  settle-live status cancelled timed_out s live =
      rw (live.not_succeeded, live.not_failed, live.not_stopped)

  -- What a returned `ask_stop` leaves in the two sets.
  pub has-ask_stop :
      (cancelled : Bool) (s s' : State)
      → ask_stop services config item cancelled s ≡ (ok tt, s')
      → (set_has s'.watcher.stop_requested item.operation_id
          ≡ (cancelled || set_has s.watcher.stop_requested item.operation_id))
        × (set_has s'.watcher.timeout_requested item.operation_id
            ≡ (not cancelled || set_has s.watcher.timeout_requested item.operation_id))
  unfolding ask_stop
  has-ask_stop true s s' e = ground (
    arith,
    set_has-add s.watcher.stop_requested item.operation_id item.operation_id,
    eq_refl item.operation_id,
  )
  has-ask_stop false s s' e = ground (
    arith,
    set_has-add s.watcher.timeout_requested item.operation_id item.operation_id,
    eq_refl item.operation_id,
  )

  published_then :
      (r : Result Event) (s : State)
      → ((lift r >>= λ _. pure tt) >>= λ _. forget services config item) s
        ≡ (lift r >>= λ _. forget services config item) s
  published_then (ok event) s = refl
  published_then (raised e) s = refl

  pub forget-report_cancelled :
      (s : State)
      → (report_cancelled services config item >> forget services config item) s
        ≡ (do
          _ ←
              publish services
                (watcher_reporter config item)
                "CANCELLED"
                cancelled_payload
                (some "CANCELLED")
          forget services config item)
            s
  unfolding report_cancelled
  forget-report_cancelled s =
      let (r, s') =
        publish services (watcher_reporter config item) "CANCELLED" cancelled_payload
          (some "CANCELLED") s in
      published_then r s'

  -- What a cancellation comes to, down to the event.
  pub settle_stopped-cancelled :
      (s : State)
      → settle_stopped services config item false true s
        ≡ (do
          _ ←
              publish services
                (watcher_reporter config item)
                "CANCELLED"
                cancelled_payload
                (some "CANCELLED")
          forget services config item)
            s
  unfolding settle_stopped report_stopped
  settle_stopped-cancelled s = forget-report_cancelled s

  -- If a look at a live job asks Ray to stop it because of a cancel key, and no stop was asked for because
  -- of the deadline before, then a look that finds it STOPPED publishes CANCELLED as the submission's
  -- terminal event and forgets the item, even if the key is gone and the deadline has passed by then.
  pub settle-ask_cancel :
      (status : String) (timed_out later_timed_out : Bool) (s s' : State)
      → IsLive status
      → set_has s.watcher.timeout_requested item.operation_id ≡ false
      → settle services config item status true timed_out s ≡ (ok tt, s')
      → settle services config item "STOPPED" false later_timed_out s'
        ≡ (do
          _ ←
              publish services
                (watcher_reporter config item)
                "CANCELLED"
                cancelled_payload
                (some "CANCELLED")
          forget services config item)
            s'
  settle-ask_cancel status timed_out later_timed_out s s' live fresh asked =
      let sets = has-ask_stop true s s' (rw settle-live at asked) in
      unfold settle timeout_stop in
      rw (sets.0, sets.1, fresh, ← settle_stopped-cancelled s') (ground arith)

  -- If a look at a live job asks Ray to stop it because the deadline passed, with no cancel key, then a look
  -- that finds it STOPPED reports EXECUTION_TIMEOUT and forgets the item, whether or not there is a
  -- cancel key by then.
  pub settle-ask_timeout :
      (status : String) (cancelled later_timed_out : Bool) (s s' : State)
      → IsLive status
      → settle services config item status false true s ≡ (ok tt, s')
      → settle services config item "STOPPED" cancelled later_timed_out s'
        ≡ (do report_failed services config item "EXECUTION_TIMEOUT"; forget services config item)
            s'
  settle-ask_timeout status cancelled later_timed_out s s' live asked =
      let sets = has-ask_stop false s s' (rw settle-live at asked) in
      unfold settle timeout_stop settle_stopped report_stopped in rw (sets.0, sets.1)
