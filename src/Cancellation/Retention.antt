-- ===== src/Cancellation/Retention.antt =====
-- An item stays with the watcher until its end is known and reported.
use tributo_broker_redis.Base.{
  ap, subst, String, ◌≡◌, Bool, false, none, Dict, eq_refl, set_has, dict_get-pop, set_has-discard,
}
use tributo_broker_redis.Exec.{Exception, Result, ok, raised, ◌>>=◌, lift}
use tributo_broker_redis.Exec.Rules.{Preserves, preserves_rules}
use tributo_broker_redis.Exec.Atomic.{IsAtomic, atomic_rules}
use tributo_broker_redis.Services.{ActiveSubmission, Services, Trace, Call}
use tributo_broker_redis.State.{State, Watcher, perform}
use tributo_broker_redis.Reporter.Quiet.{IsQuiet, publish-Preserves}
use tributo_broker_redis.Cancellation.{
  WatcherConfig, get_active, remove_active, report_failed, report_cancelled, forget, note_stop,
  settle_ended, report_stopped, settle_stopped, ask_stop, settle, check_item,
}
use tributo_broker_redis.Cancellation.Stable.{terminal-Preserves}

-- What the watcher knows: the active submissions, and the two sets.
abbrev pub knowledge : State → Dict ActiveSubmission × Watcher
knowledge s = (s.active, s.watcher)

abbrev Same : Dict ActiveSubmission × Watcher → State → Type 0
Same v s = knowledge s ≡ v

perform-Same :
    {A : Type 0} (v : Dict ActiveSubmission × Watcher) (answer : Trace → Result A) (call : Call)
    → Preserves (Same v) (perform answer call)
unfolding perform
perform-Same v answer call = record { after = λ s h. h }

Same-quiet : (v : Dict ActiveSubmission × Watcher) → IsQuiet (Same v)
Same-quiet v = record {
  on_exists = λ answer key. perform-Same v answer (Call.exists key);
  on_xrevrange = λ answer stream k. perform-Same v answer (Call.xrevrange stream k);
  on_xadd = λ answer stream f event k. perform-Same v answer (Call.xadd stream f event k);
}

module _ (services : Services) (config : WatcherConfig) (item : ActiveSubmission) where
  report_failed-Same :
      (v : Dict ActiveSubmission × Watcher) (code : String)
      → Preserves (Same v) (report_failed services config item code)
  report_failed-Same v code =
      unfold report_failed in
      search (preserves_rules, publish-Preserves services (Same-quiet v)) depth 8

  report_cancelled-Same :
      (v : Dict ActiveSubmission × Watcher)
      → Preserves (Same v) (report_cancelled services config item)
  report_cancelled-Same v =
      unfold report_cancelled in
      search (preserves_rules, publish-Preserves services (Same-quiet v)) depth 8

  report_stopped-Same :
      (v : Dict ActiveSubmission × Watcher) (by_timeout cancelled : Bool)
      → Preserves (Same v) (report_stopped services config item by_timeout cancelled)
  report_stopped-Same v by_timeout cancelled =
      unfold report_stopped in
      search (preserves_rules, report_failed-Same, report_cancelled-Same) depth 8

  forget-IsAtomic : IsAtomic knowledge (forget services config item)
  forget-IsAtomic = unfold forget in search atomic_rules

  ask_stop-IsAtomic :
      (cancelled : Bool) → IsAtomic knowledge (ask_stop services config item cancelled)
  ask_stop-IsAtomic cancelled =
      unfold ask_stop note_stop in search (atomic_rules, perform-Same) depth 8

  settle_ended-IsAtomic :
      (by_timeout : Bool) (status : String)
      → IsAtomic knowledge (settle_ended services config item by_timeout status)
  settle_ended-IsAtomic by_timeout status =
      unfold settle_ended in search (atomic_rules, report_failed-Same) depth 8

  settle_stopped-IsAtomic :
      (by_timeout cancelled : Bool)
      → IsAtomic knowledge (settle_stopped services config item by_timeout cancelled)
  settle_stopped-IsAtomic by_timeout cancelled =
      unfold settle_stopped in search (atomic_rules, report_stopped-Same) depth 8

  pub settle-IsAtomic :
      (status : String) (cancelled timed_out : Bool)
      → IsAtomic knowledge (settle services config item status cancelled timed_out)
  settle-IsAtomic status cancelled timed_out =
      unfold settle in
      search
        (
          atomic_rules, preserves_rules, settle_ended-IsAtomic, settle_stopped-IsAtomic,
          ask_stop-IsAtomic,
        )
        depth 9

  check_item-IsAtomic : IsAtomic knowledge (check_item services config item)
  check_item-IsAtomic =
      unfold check_item in
      search
        (
          atomic_rules,
          perform-Same,
          λ (v : Dict ActiveSubmission × Watcher). terminal-Preserves services (Same-quiet v) item,
          forget-IsAtomic,
          settle-IsAtomic,
          preserves_rules,
        )
        depth 12

-- If a look at an item raises, whichever call failed, the active submissions and the watcher's two sets
-- are as they were, so the next look starts from the same knowledge.
pub check_item_raised :
    (services : Services) (config : WatcherConfig) (item : ActiveSubmission) (s : State)
    (e : Exception)
    → (check_item services config item s).0 ≡ raised e
    → ((check_item services config item s).1.active ≡ s.active)
      × ((check_item services config item s).1.watcher ≡ s.watcher)
check_item_raised services config item s e h =
    let same = (check_item-IsAtomic services config item).undone s e h in
    (
      ap (λ (v : Dict ActiveSubmission × Watcher). v.0) same,
      ap (λ (v : Dict ActiveSubmission × Watcher). v.1) same,
    )

module _ (services : Services) (config : WatcherConfig) (item : ActiveSubmission) where
  abbrev pub IsForgotten : State → Type 0
  IsForgotten s =
      (get_active s.active item.operation_id ≡ none)
      × (set_has s.watcher.stop_requested item.operation_id ≡ false)
      × (set_has s.watcher.timeout_requested item.operation_id ≡ false)

  IsForgotten-forget : (s : State) → IsForgotten (forget services config item s).1
  IsForgotten-forget s =
      let id = item.operation_id in
      let same = eq_refl id in
      unfold forget get_active remove_active in
      (rw dict_get-pop (rw same), rw set_has-discard (rw same), rw set_has-discard (rw same))

  pub IsForgotten-forget_after :
      (r : Result (Unit {0})) (s s' : State)
      → ◌>>=◌ (lift r) (λ _. forget services config item) s ≡ (ok tt, s')
      → IsForgotten s'
  IsForgotten-forget_after (ok _) s s' e =
      subst (λ (x : Result Unit × State). IsForgotten x.1) e (IsForgotten-forget s)
  IsForgotten-forget_after (raised x) s s' e = cc

  -- When a look at an ended job has settled it without a raise, the operation is in none of the watcher's
  -- three sets.
  pub IsForgotten-settle_ended :
      (by_timeout : Bool) (status : String) (s s' : State)
      → settle_ended services config item by_timeout status s ≡ (ok tt, s')
      → IsForgotten s'
  unfolding settle_ended
  IsForgotten-settle_ended by_timeout status s s' e = IsForgotten-forget_after _ _ s' e

  pub IsForgotten-settle_stopped :
      (by_timeout cancelled : Bool) (s s' : State)
      → settle_stopped services config item by_timeout cancelled s ≡ (ok tt, s')
      → IsForgotten s'
  unfolding settle_stopped
  IsForgotten-settle_stopped by_timeout cancelled s s' e = IsForgotten-forget_after _ _ s' e
