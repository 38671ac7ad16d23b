-- ===== src/Cancellation/Stable.antt =====
-- What every part of the watcher keeps, from what each single effect keeps.
use tributo_broker_redis.Base.{String, Bool}
use tributo_broker_redis.Exec.{Result}
use tributo_broker_redis.Exec.Rules.{Preserves, preserves_rules}
use tributo_broker_redis.Services.{ActiveSubmission, Services, Trace, Call}
use tributo_broker_redis.State.{State, perform}
use tributo_broker_redis.Reporter.Quiet.{IsQuiet, publish-Preserves}
use tributo_broker_redis.Cancellation.{
  WatcherConfig, terminal_event_published, report_failed, report_cancelled, forget, note_stop,
  settle_ended, report_stopped, settle_stopped, ask_stop, settle, check_item,
}

module _ (services : Services) {P : State → Type 0} (quiet : IsQuiet P) where
  open quiet use {on_xrevrange}

  pub terminal-Preserves :
      (item : ActiveSubmission) → Preserves P (terminal_event_published services item)
  terminal-Preserves item =
      unfold terminal_event_published in search (preserves_rules, on_xrevrange) depth 8

pub record IsWatchStable (services : Services) (config : WatcherConfig) (P : State → Type 0)
    : Type 0 where
  pub quiet : IsQuiet P
  pub on_status :
      (answer : Trace → Result String) (id : String)
      → Preserves P (perform answer (Call.job_status id))
  pub on_stop :
      (answer : Trace → Result (Unit {0})) (id : String)
      → Preserves P (perform answer (Call.stop_job id))
  pub on_forget : (item : ActiveSubmission) → Preserves P (forget services config item)
  pub on_note :
      (cancelled : Bool) (item : ActiveSubmission)
      → Preserves P (note_stop services config cancelled item)

module _ (services : Services) (config : WatcherConfig) {P : State → Type 0}
    (stable : IsWatchStable services config P) where
  open stable use {quiet, on_status, on_stop, on_forget, on_note}

  report_failed-Preserves :
      (item : ActiveSubmission) (code : String)
      → Preserves P (report_failed services config item code)
  report_failed-Preserves item code =
      unfold report_failed in search (preserves_rules, publish-Preserves services quiet) depth 8

  report_cancelled-Preserves :
      (item : ActiveSubmission) → Preserves P (report_cancelled services config item)
  report_cancelled-Preserves item =
      unfold report_cancelled in search (preserves_rules, publish-Preserves services quiet) depth 8

  settle_ended-Preserves :
      (item : ActiveSubmission) (by_timeout : Bool) (status : String)
      → Preserves P (settle_ended services config item by_timeout status)
  settle_ended-Preserves item by_timeout status =
      unfold settle_ended in search (preserves_rules, report_failed-Preserves, on_forget) depth 8

  report_stopped-Preserves :
      (item : ActiveSubmission) (by_timeout cancelled : Bool)
      → Preserves P (report_stopped services config item by_timeout cancelled)
  report_stopped-Preserves item by_timeout cancelled =
      unfold report_stopped in
      search (preserves_rules, report_failed-Preserves, report_cancelled-Preserves) depth 8

  settle_stopped-Preserves :
      (item : ActiveSubmission) (by_timeout cancelled : Bool)
      → Preserves P (settle_stopped services config item by_timeout cancelled)
  settle_stopped-Preserves item by_timeout cancelled =
      unfold settle_stopped in search (preserves_rules, report_stopped-Preserves, on_forget) depth 8

  ask_stop-Preserves :
      (item : ActiveSubmission) (cancelled : Bool)
      → Preserves P (ask_stop services config item cancelled)
  ask_stop-Preserves item cancelled =
      unfold ask_stop in search (preserves_rules, on_stop, on_note) depth 8

  settle-Preserves :
      (item : ActiveSubmission) (status : String) (cancelled timed_out : Bool)
      → Preserves P (settle services config item status cancelled timed_out)
  settle-Preserves item status cancelled timed_out =
      unfold settle in
      search (preserves_rules, settle_ended-Preserves, settle_stopped-Preserves, ask_stop-Preserves)
        depth 9

  pub check_item-Preserves :
      (item : ActiveSubmission) → Preserves P (check_item services config item)
  check_item-Preserves item =
      unfold check_item in
      search
        (
          preserves_rules,
          terminal-Preserves services quiet,
          on_forget,
          on_status,
          quiet.on_exists,
          settle-Preserves,
        )
        depth 10
