-- ===== src/Runtime/Keyed.antt =====
-- The active submissions of every reachable state are a dictionary by operation.
use tributo_broker_redis.Base.{◌≡◌, true, some}
use tributo_broker_redis.Config.{training, batch_inference}
use mathlib.Core.List.{Memᴰ}
use tributo_broker_redis.Services.{ActiveSubmission}
use tributo_broker_redis.State.{State}
use tributo_broker_redis.Cancellation.{get_active, snapshot}
use tributo_broker_redis.Cancellation.Keyed.{
  keyed, keyed-put_active, keyed-remove_active, get_active-snapshot,
}
use tributo_broker_redis.Runtime.Effects.{
  Effect, called, put, removed, stop_noted, timeout_noted, stop_dropped, timeout_dropped, delivered,
  turned, due, marked_started, marked_closed, watcher_started, watcher_closed, Steps, at_boot, step,
}

keyed-Effect : (s t : State) → Effect s t → keyed s.active ≡ true → keyed t.active ≡ true
keyed-Effect s _ (put _ item) h = keyed-put_active s.active item h
keyed-Effect s _ (removed _ operation_id) h = keyed-remove_active s.active operation_id h
keyed-Effect s _ (delivered _ training d) h = h
keyed-Effect s _ (delivered _ batch_inference d) h = h
keyed-Effect s _ (called _ x) h = h
keyed-Effect s _ (stop_noted _ id) h = h
keyed-Effect s _ (timeout_noted _ id) h = h
keyed-Effect s _ (stop_dropped _ id) h = h
keyed-Effect s _ (timeout_dropped _ id) h = h
keyed-Effect s _ (turned _ n) h = h
keyed-Effect s _ (due _ n) h = h
keyed-Effect s _ (marked_started _) h = h
keyed-Effect s _ (marked_closed _) h = h
keyed-Effect s _ (watcher_started _) h = h
keyed-Effect s _ (watcher_closed _) h = h

pub keyed-Steps : (boot s : State) → keyed boot.active ≡ true → Steps boot s → keyed s.active ≡ true
keyed-Steps boot _ first at_boot = first
keyed-Steps boot _ first (step {s} {t} steps effect) =
    keyed-Effect s t effect (keyed-Steps boot s first steps)

-- In every state that single effects of the loop, the watcher and the callers of `close` reach, in whatever
-- order, from one whose active submissions are keyed: each submission in the watcher's snapshot is the one
-- that the runtime finds for its operation, so that no operation has two.
pub get_active-snapshot_stepped :
    (boot s : State) (item : ActiveSubmission)
    → keyed boot.active ≡ true
    → Steps boot s
    → Memᴰ item (snapshot s.active)
    → get_active s.active item.operation_id ≡ some item
get_active-snapshot_stepped boot s item first steps =
    get_active-snapshot item s.active (keyed-Steps boot s first steps)
