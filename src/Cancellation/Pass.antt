-- ===== src/Cancellation/Pass.antt =====
-- One pass of the watcher of src/tributo_broker_redis/cancellation.py over all its items.
use tributo_broker_redis.Base.{ℕ, zero, suc, ◌≡◌, Bool, true, false, List, [], ◌∷◌, if◌then◌else◌}
use tributo_broker_redis.Exec.{ok, pure, try_except, ◌>>◌}
use tributo_broker_redis.Exec.Returns.{Gives, pure-Gives, try-Gives_only, bind-Gives}
use tributo_broker_redis.Services.{Services, ActiveSubmission}
use tributo_broker_redis.State.{State, Action}
use tributo_broker_redis.Cancellation.{WatcherConfig, check_item, check_items, check_once, snapshot}
use tributo_broker_redis.Cancellation.Thread.{watch_rounds}

module _ (services : Services) (config : WatcherConfig) where
  items-Gives :
      (items : List ActiveSubmission) → Gives {S = State} tt (check_items services config items)
  unfolding check_items
  items-Gives [] = pure-Gives tt
  items-Gives (item ∷ items) =
      bind-Gives tt tt (try_except (check_item services config item) (λ _. pure tt)) _
        (try-Gives_only (check_item services config item) (λ _. pure tt) (λ e. pure-Gives tt))
        (items-Gives items)

-- A pass of the watcher over its snapshot never raises, whatever Redis and Ray do with any of the items.
pub check_once-returns :
    (services : Services) (config : WatcherConfig) (s : State)
    → (check_once services config s).0 ≡ ok tt
unfolding check_once
check_once-returns services config s = (items-Gives services config (snapshot s.active)).gives s

module _ (services : Services) (config : WatcherConfig) where
  end-Gives :
      (was : Bool) (m : Action (Unit {0}))
      → Gives {S = State} tt m
      → Gives {S = State} tt (if was then pure tt else m)
  end-Gives true m h = pure-Gives tt
  end-Gives false m h = h

  rounds-Gives : (intervals : ℕ) → Gives {S = State} tt (watch_rounds services config intervals)
  unfolding watch_rounds
  rounds-Gives zero = pure-Gives tt
  rounds-Gives (suc intervals) = record {
    gives = λ s.
        (end-Gives s.watcher.closed
            (do check_once services config; watch_rounds services config intervals)
            (bind-Gives tt tt (check_once services config)
              (λ _. watch_rounds services config intervals)
              (record { gives = check_once-returns services config })
              (rounds-Gives intervals))).gives
          s;
  }

-- The watcher's thread never dies of an exception: over any number of intervals, whatever Redis and Ray do
-- with any of the items, its loop raises nothing.
pub watch_rounds-returns :
    (services : Services) (config : WatcherConfig) (intervals : ℕ) (s : State)
    → (watch_rounds services config intervals s).0 ≡ ok tt
watch_rounds-returns services config intervals s = (rounds-Gives services config intervals).gives s
