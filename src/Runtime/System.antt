-- ===== src/Runtime/System.antt =====
-- The process as a whole: the loop, the watcher and the calls from outside, in any order. The watcher's
-- looks take any item, since its snapshot may be older than the active submissions. The steps are whole
-- methods; Effects has the single effects that they are made of.
use tributo_broker_redis.Base.{ℕ, Option}
use tributo_broker_redis.Services.{ActiveSubmission, Services}
use tributo_broker_redis.State.{State}
use tributo_broker_redis.Cancellation.{WatcherConfig, check_item}
use tributo_broker_redis.Runtime.Types.{Setup}
use tributo_broker_redis.Runtime.Loop.{run_once, start, close}

pub data Reach (services : Services) (setup : Setup) (config : WatcherConfig) (boot : State)
    : State → Type 0 where
  booted : Reach services setup config boot boot
  started :
      {s : State}
      → Reach services setup config boot s
      → Reach services setup config boot (start services setup s).1
  served :
      {s : State} (timeout_ms : Option ℕ)
      → Reach services setup config boot s
      → Reach services setup config boot (run_once services setup timeout_ms s).1
  looked :
      {s : State} (item : ActiveSubmission)
      → Reach services setup config boot s
      → Reach services setup config boot (check_item services config item s).1
  closed :
      {s : State}
      → Reach services setup config boot s
      → Reach services setup config boot (close services setup s).1
