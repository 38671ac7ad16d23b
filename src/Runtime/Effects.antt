-- ===== src/Runtime/Effects.antt =====
-- The single effects of the process, in any order: what the loop's thread, the watcher's thread and the
-- callers of `close` of src/tributo_broker_redis/runtime.py do between two switches. A call of a service, a
-- locked change of the active submissions and an assignment are each one effect.
use tributo_broker_redis.Base.{ℕ, String, true, ◌∷◌, set_add, set_discard}
use tributo_broker_redis.Config.{OperationType}
use tributo_broker_redis.Services.{ActiveSubmission, Step}
use tributo_broker_redis.State.{State, Delivery, set_delivery}
use tributo_broker_redis.Cancellation.{put_active, remove_active}

pub data Effect : State → State → Type 0 where
  called : (s : State) (step : Step) → Effect s (record s { trace = step ∷ s.trace })
  put :
      (s : State) (item : ActiveSubmission)
      → Effect s (record s { active = put_active s.active item })
  removed :
      (s : State) (operation_id : String)
      → Effect s (record s { active = remove_active s.active operation_id })
  stop_noted :
      (s : State) (operation_id : String)
      → Effect s (record s {
        watcher = record s.watcher {
          stop_requested = set_add s.watcher.stop_requested operation_id;
        };
      })
  timeout_noted :
      (s : State) (operation_id : String)
      → Effect s (record s {
        watcher = record s.watcher {
          timeout_requested = set_add s.watcher.timeout_requested operation_id;
        };
      })
  stop_dropped :
      (s : State) (operation_id : String)
      → Effect s (record s {
        watcher = record s.watcher {
          stop_requested = set_discard s.watcher.stop_requested operation_id;
        };
      })
  timeout_dropped :
      (s : State) (operation_id : String)
      → Effect s (record s {
        watcher = record s.watcher {
          timeout_requested = set_discard s.watcher.timeout_requested operation_id;
        };
      })
  delivered :
      (s : State) (operation : OperationType) (d : Delivery) → Effect s (set_delivery operation d s)
  turned : (s : State) (n : ℕ) → Effect s (record s { next_channel = n })
  due : (s : State) (n : ℕ) → Effect s (record s { next_pending_recovery_ms = n })
  marked_started : (s : State) → Effect s (record s { started = true })
  marked_closed : (s : State) → Effect s (record s { closed = true })
  watcher_started :
      (s : State) → Effect s (record s { watcher = record s.watcher { running = true } })
  watcher_closed :
      (s : State) → Effect s (record s { watcher = record s.watcher { closed = true } })

-- Any number of effects, whichever thread each is of.
pub data Steps (boot : State) : State → Type 0 where
  at_boot : Steps boot boot
  step : {s t : State} → Steps boot s → Effect s t → Steps boot t
