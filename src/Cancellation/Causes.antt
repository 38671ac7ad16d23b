-- ===== src/Cancellation/Causes.antt =====
-- What the watcher is to do, without its sets and its messages: one cause for each submission, and a decision
-- at each look.
use tributo_broker_redis.Base.{String, Bool, true, false, ◌==◌, if◌then◌else◌, set_has}
use tributo_broker_redis.Exec.{Result, ok, raised, pure, ◌>>◌}
use tributo_broker_redis.Services.{Services, ActiveSubmission}
use tributo_broker_redis.State.{State, Action}
use tributo_broker_redis.Cancellation.{
  WatcherConfig, report_failed, report_cancelled, forget, ask_stop,
}

-- Why Ray was asked to stop the job.
pub data Cause : Type 0 where
  unasked : Cause
  by_cancel : Cause
  by_deadline : Cause

pub data Phase : Type 0 where
  live : Phase
  succeeded : Phase
  failed : Phase
  stopped : Phase

pub data Decision : Type 0 where
  fails : (code : String) → Decision
  cancels : Decision
  stops : (cancelled : Bool) → Decision
  waits : Decision

abbrev pub phase_of : (status : String) → Phase
phase_of status =
    if status == "SUCCEEDED"
    then succeeded
    else if status == "FAILED"
    then failed
    else if status == "STOPPED"
    then stopped
    else live

-- A job that ended before it was asked to stop ended for what there is to see.
abbrev pub blame : Cause → (cancelled timed_out : Bool) → Cause
blame by_deadline cancelled timed_out = by_deadline
blame by_cancel cancelled timed_out = by_cancel
blame unasked true timed_out = by_cancel
blame unasked false true = by_deadline
blame unasked false false = unasked

abbrev pub verdict : Phase → Cause → (cancelled timed_out : Bool) → Decision
verdict succeeded by_deadline cancelled timed_out = fails "EXECUTION_TIMEOUT"
verdict succeeded _ cancelled timed_out = fails "TERMINAL_EVENT_MISSING"
verdict failed by_deadline cancelled timed_out = fails "EXECUTION_TIMEOUT"
verdict failed _ cancelled timed_out = fails "RAY_JOB_FAILED"
verdict stopped by_deadline cancelled timed_out = fails "EXECUTION_TIMEOUT"
verdict stopped by_cancel cancelled timed_out = cancels
verdict stopped unasked cancelled timed_out = fails "RAY_JOB_STOPPED"
verdict live c true timed_out = stops true
verdict live c false true = stops false
verdict live c false false = waits

abbrev pub decide : Phase → Cause → (cancelled timed_out : Bool) → Decision
decide phase c cancelled timed_out = verdict phase (blame c cancelled timed_out) cancelled timed_out

-- A deadline outlasts a cancel, and the end of the submission both.
abbrev pub next : Cause → Decision → Cause
next c (fails code) = unasked
next c cancels = unasked
next c waits = c
next by_deadline (stops cancelled) = by_deadline
next _ (stops true) = by_cancel
next _ (stops false) = by_deadline

-- What raised has decided nothing.
abbrev pub next_after : Result (Unit {0}) → Cause → Decision → Cause
next_after (ok _) c d = next c d
next_after (raised e) c d = c

abbrev pub cause : (timeout_requested stop_requested : Bool) → Cause
cause true stop_requested = by_deadline
cause false true = by_cancel
cause false false = unasked

abbrev pub cause_of : ActiveSubmission → State → Cause
cause_of item s =
    cause (set_has s.watcher.timeout_requested item.operation_id)
      (set_has s.watcher.stop_requested item.operation_id)

abbrev pub enact : Services → WatcherConfig → ActiveSubmission → Decision → Action (Unit {0})
enact services config item (fails code) = do
  report_failed services config item code
  forget services config item
enact services config item cancels = do
  report_cancelled services config item
  forget services config item
enact services config item (stops cancelled) = ask_stop services config item cancelled
enact services config item waits = pure tt
