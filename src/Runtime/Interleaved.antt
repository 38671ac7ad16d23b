-- ===== src/Runtime/Interleaved.antt =====
-- Every method of the process is made of single effects.
use tributo_broker_redis.Base.{Bool, true, false}
use tributo_broker_redis.Config.{OperationType}
use tributo_broker_redis.Exec.{Result}
use tributo_broker_redis.Exec.Rules.{Preserves, preserves_rules}
use tributo_broker_redis.Services.{ActiveSubmission, Services, Trace, Call}
use tributo_broker_redis.State.{State, perform, step_of}
use tributo_broker_redis.Cancellation.{WatcherConfig, forget, note_stop}
use tributo_broker_redis.Cancellation.Stable.{IsWatchStable, check_item-Preserves}
use tributo_broker_redis.Cancellation.Thread.{stop_watcher}
use tributo_broker_redis.Reporter.Quiet.{IsQuiet}
use tributo_broker_redis.Runtime.Types.{Setup}
use tributo_broker_redis.Runtime.Loop.{close, close_client}
use tributo_broker_redis.Runtime.Consumed.{IsConsumeStable}
use tributo_broker_redis.Runtime.Process.{IsProcessStable, start-Preserves, run_once-Preserves}
use tributo_broker_redis.Runtime.System.{Reach, booted, started, served, looked, closed}
use tributo_broker_redis.Runtime.Effects.{
  called, put, removed, stop_noted, timeout_noted, stop_dropped, timeout_dropped, delivered, turned,
  due, marked_started, marked_closed, watcher_started, watcher_closed, Steps, at_boot, step,
}

module _ (boot : State) where
  perform-Steps :
      {A : Type 0} (answer : Trace → Result A) (call : Call)
      → Preserves (Steps boot) (perform answer call)
  unfolding perform
  perform-Steps answer call = record {
    after = λ s h. step h (called s (step_of (answer s.trace) call));
  }

  Steps-quiet : IsQuiet (Steps boot)
  Steps-quiet = record {
    on_exists = λ answer key. perform-Steps answer (Call.exists key);
    on_xrevrange = λ answer stream k. perform-Steps answer (Call.xrevrange stream k);
    on_xadd = λ answer stream f event k. perform-Steps answer (Call.xadd stream f event k);
  }

  Steps-consume : (operation : OperationType) → IsConsumeStable operation (Steps boot)
  Steps-consume operation = record {
    on_read = λ answer stream group consumer block.
        perform-Steps answer (Call.xreadgroup stream group consumer block);
    on_claim = λ answer stream group consumer min_idle cursor k.
        perform-Steps answer (Call.xautoclaim stream group consumer min_idle cursor k);
    on_ack = λ answer stream group token. perform-Steps answer (Call.xack stream group token);
    on_delivery = λ d s h. step h (delivered s operation d);
  }

  Steps-process : IsProcessStable (Steps boot)
  Steps-process = record {
    stable = record {
      quiet = Steps-quiet;
      on_submit = λ answer request. perform-Steps answer (Call.submit request);
      on_put = λ s item h. step h (put s item);
      on_remove = λ s operation_id h. step h (removed s operation_id);
    };
    consume = Steps-consume;
    on_list = λ answer url. perform-Steps answer (Call.list_jobs url);
    on_channel = λ s n h. step h (turned s n);
    on_due = λ s n h. step h (due s n);
    on_started = λ s h. step h (marked_started s);
    on_thread = λ s h. step h (watcher_started s);
  }

  module _ (services : Services) (config : WatcherConfig) where
    -- Three effects: the loop may run between them.
    forget-Steps : (item : ActiveSubmission) → Preserves (Steps boot) (forget services config item)
    unfolding forget
    forget-Steps item = record {
      after = λ s h.
          let id = item.operation_id in
          step (step (step h (removed s id)) (stop_dropped _ id)) (timeout_dropped _ id);
    }

    noted :
        (cancelled : Bool) (item : ActiveSubmission) (s : State)
        → Steps boot s
        → Steps boot (note_stop services config cancelled item s).1
    unfolding note_stop
    noted true item s h = step h (stop_noted s item.operation_id)
    noted false item s h = step h (timeout_noted s item.operation_id)

    Steps-watch : IsWatchStable services config (Steps boot)
    Steps-watch = record {
      quiet = Steps-quiet;
      on_status = λ answer id. perform-Steps answer (Call.job_status id);
      on_stop = λ answer id. perform-Steps answer (Call.stop_job id);
      on_forget = forget-Steps;
      on_note = λ cancelled item. record { after = noted cancelled item };
    }

  close-Steps :
      (services : Services) (setup : Setup) → Preserves (Steps boot) (close services setup)
  close-Steps services setup =
      unfold close stop_watcher close_client in
      search
        (
          preserves_rules,
          perform-Steps,
          λ (s : State) (h : Steps boot s). step h (marked_closed s),
          λ (s : State) (h : Steps boot s). step h (watcher_closed s),
        )
        depth 9

-- A state that methods of the process reach one after the other, single effects reach too.
pub Steps-Reach :
    (services : Services) (setup : Setup) (config : WatcherConfig) (boot s : State)
    → Reach services setup config boot s
    → Steps boot s
Steps-Reach services setup config boot _ booted = at_boot
Steps-Reach services setup config boot _ (started r) =
    (start-Preserves (Steps-process boot) services setup).after _
      (Steps-Reach services setup config boot _ r)
Steps-Reach services setup config boot _ (served timeout_ms r) =
    (run_once-Preserves (Steps-process boot) services setup timeout_ms).after _
      (Steps-Reach services setup config boot _ r)
Steps-Reach services setup config boot _ (looked item r) =
    (check_item-Preserves services config (Steps-watch boot services config) item).after _
      (Steps-Reach services setup config boot _ r)
Steps-Reach services setup config boot _ (closed r) =
    (close-Steps boot services setup).after _ (Steps-Reach services setup config boot _ r)
