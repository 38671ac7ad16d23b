-- ===== src/Cancellation/Thread.antt =====
-- The thread of the watcher of src/tributo_broker_redis/cancellation.py: `start`, `_run` and `close`.
use tributo_broker_redis.Base.{ℕ, zero, suc, true, if◌then◌else◌}
use tributo_broker_redis.Exec.{◌>>=◌, ◌>>◌, pure, gets, modify}
use tributo_broker_redis.Services.{Services}
use tributo_broker_redis.State.{Action}
use tributo_broker_redis.Cancellation.{WatcherConfig, check_once}

-- There is one thread: a second `start` finds it.
unfoldable pub start_watcher : Action (Unit {0})
start_watcher = do
  running ← gets (λ s. s.watcher.running)
  if running
      then pure tt
      else modify (λ s. record s { watcher = record s.watcher { running = true } })

-- Joining the thread waits for a pass that runs, or for a time.
unfoldable pub stop_watcher : Action (Unit {0})
stop_watcher = modify (λ s. record s { watcher = record s.watcher { closed = true } })

-- `_run`, for a number of intervals: each begins with the look at the event.
unfoldable pub watch_rounds : Services → WatcherConfig → ℕ → Action (Unit {0})
unfolding check_once
watch_rounds services config zero = pure tt
watch_rounds services config (suc intervals) = do
  closed ← gets (λ s. s.watcher.closed)
  let rest = watch_rounds services config intervals
  if closed then pure tt else do check_once services config; rest
