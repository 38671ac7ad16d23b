-- ===== src/Cancellation/Follows.antt =====
-- The watcher's code keeps to the machine of Causes.
use tributo_broker_redis.Base.{
  String, ◌≡◌, refl, sym, ◌∙◌, ap, Bool, true, false, not, ◌||◌, ◌==◌, if◌then◌else◌, arith,
  set_has, eq_of_test,
}
use tributo_broker_redis.Exec.{Result, ok, raised, pure}
use tributo_broker_redis.Services.{Services, ActiveSubmission}
use tributo_broker_redis.State.{State}
use tributo_broker_redis.Cancellation.{
  WatcherConfig, report_failed, report_cancelled, ask_stop, timeout_stop, ended_code, settle_ended,
  settle_stopped, report_stopped, settle,
}
use tributo_broker_redis.Cancellation.Outcomes.{has-ask_stop}
use tributo_broker_redis.Cancellation.Retention.{
  settle-IsAtomic, IsForgotten, IsForgotten-forget_after,
}
use tributo_broker_redis.Cancellation.Causes.{
  unasked, Decision, fails, cancels, stops, waits, phase_of, decide, next, next_after, cause,
  cause_of, enact,
}

apart : (status : String) → (status == "SUCCEEDED") ≡ true → (status == "FAILED") ≡ false
apart status e = rw (eq_of_test status "SUCCEEDED" e) refl

merged :
    (cancelled a b : Bool)
    → cause (not cancelled || a) (cancelled || b) ≡ next (cause a b) (stops cancelled)
merged true true b = refl
merged true false true = refl
merged true false false = refl
merged false true b = refl
merged false false true = refl
merged false false false = refl

module _ (services : Services) (config : WatcherConfig) (item : ActiveSubmission) where
  -- The code, with the tests on the sets taken out.
  by_sets :
      (timeout_requested stop_requested cancelled timed_out : Bool) (status : String) (s : State)
      → let by_timeout = timeout_stop timeout_requested stop_requested cancelled timed_out in
        (if status == "SUCCEEDED" || status == "FAILED"
            then settle_ended services config item by_timeout status
            else if status == "STOPPED"
            then settle_stopped services config item by_timeout (cancelled || stop_requested)
            else if cancelled || timed_out
            then ask_stop services config item cancelled
            else pure tt)
          s
        ≡ enact services config item
            (decide (phase_of status) (cause timeout_requested stop_requested) cancelled timed_out)
            s
  unfolding timeout_stop ended_code settle_ended settle_stopped report_stopped
  by_sets a b c d status s = ground (arith, apart status)

  pub settle-enact :
      (status : String) (cancelled timed_out : Bool) (s : State)
      → settle services config item status cancelled timed_out s
        ≡ enact services config item
            (decide (phase_of status) (cause_of item s) cancelled timed_out)
            s
  unfolding settle
  settle-enact status cancelled timed_out s =
      by_sets (set_has s.watcher.timeout_requested item.operation_id)
        (set_has s.watcher.stop_requested item.operation_id) cancelled timed_out status s

  forgotten : (s : State) → IsForgotten services config item s → cause_of item s ≡ unasked
  forgotten s h = let (inactive, stop, timeout) = h in rw (timeout, stop) refl

  asked :
      (cancelled : Bool) (s s' : State)
      → ask_stop services config item cancelled s ≡ (ok tt, s')
      → cause_of item s' ≡ next (cause_of item s) (stops cancelled)
  asked cancelled s s' e =
      let sets = has-ask_stop services config item cancelled s s' e in
      rw (sets.0, sets.1) (merged cancelled _ _)

  next-enact :
      (d : Decision) (s s' : State)
      → enact services config item d s ≡ (ok tt, s')
      → cause_of item s' ≡ next (cause_of item s) d
  next-enact (fails code) s s' e = forgotten s' (
      IsForgotten-forget_after services config item (report_failed services config item code s).0
        (report_failed services config item code s).1 s' e)
  next-enact cancels s s' e = forgotten s' (
      IsForgotten-forget_after services config item (report_cancelled services config item s).0
        (report_cancelled services config item s).1 s' e)
  next-enact (stops cancelled) s s' e = asked cancelled s s' e
  next-enact waits s s' e = ap (λ (x : Result Unit × State). cause_of item x.1) (sym e)

  module _ (status : String) (cancelled timed_out : Bool) (s : State) where
    abbrev pub decision : Decision
    decision = decide (phase_of status) (cause_of item s) cancelled timed_out

    by_result :
        (r : Result (Unit {0}))
        → (settle services config item status cancelled timed_out s).0 ≡ r
        → cause_of item (settle services config item status cancelled timed_out s).1
          ≡ next_after r (cause_of item s) decision
    by_result (ok _) e =
        next-enact decision s (settle services config item status cancelled timed_out s).1 (
          sym (settle-enact status cancelled timed_out s)
          ∙ ap
              (λ (r : Result Unit).
                (r, (settle services config item status cancelled timed_out s).1))
              e)
    by_result (raised x) e =
        ap
          (λ k.
            cause (set_has k.1.timeout_requested item.operation_id)
              (set_has k.1.stop_requested item.operation_id))
          ((settle-IsAtomic services config item status cancelled timed_out).undone s x e)

    -- The code keeps to a machine that remembers one cause of a stop for each submission: what it does at a
    -- look is what the machine decides from the cause, the phase of the job, the cancel key and the deadline,
    -- and the two sets hold the machine's next cause, which is the old one if a call raised.
    pub settle-Follows :
        (settle services config item status cancelled timed_out s
          ≡ enact services config item decision s)
        × (cause_of item (settle services config item status cancelled timed_out s).1
            ≡ next_after
                (settle services config item status cancelled timed_out s).0
                (cause_of item s)
                decision)
    settle-Follows = (settle-enact status cancelled timed_out s, by_result _ refl)
