-- ===== src/Cancellation/Cancelled.antt =====
-- When the watcher publishes CANCELLED.
use tributo_broker_redis.Base.{
  ℕ, test_of_ne, String, ◌≡◌, ◌≢◌, refl, ap, ◌∙◌, Bool, false, Option, ◌==◌, if◌then◌else◌,
}
use tributo_broker_redis.Json.{Fields}
use tributo_broker_redis.Exec.{gets, Result, ok, raised, ◌>>=◌, lift}
use tributo_broker_redis.Exec.Rules.{Preserves, preserves_rules}
use tributo_broker_redis.Config.{cancel_key}
use tributo_broker_redis.Services.{ActiveSubmission, Services, Event, Trace, Call}
use tributo_broker_redis.State.{State, Action, perform}
use tributo_broker_redis.State.Counts.{Made, perform-Made, is_event, count_calls}
use tributo_broker_redis.Reporter.{Reporter, send, event_of, publish}
use tributo_broker_redis.Cancellation.{
  WatcherConfig, report_failed, forget, note_stop, settle_ended, ask_stop, settle, check_item,
  look_item, deadline_passed, terminal_event_published,
}

-- Events of one type so far.
abbrev pub events : String → State → ℕ
events event_type s = count_calls (is_event event_type) s.trace

send-Made_other :
    (services : Services) (kind : String) (n : ℕ) (reporter : Reporter) (event : Event)
    → (event.event_type == kind) ≡ false
    → Preserves (Made (is_event kind) n) (send services reporter event)
send-Made_other services kind n reporter event other =
    unfold send in search (preserves_rules, perform-Made) depth 8

publish-Made_other :
    (services : Services) (kind : String) (n : ℕ) (reporter : Reporter) (event_type : String)
    (payload : Fields) (phase : Option String)
    → (event_type == kind) ≡ false
    → Preserves (Made (is_event kind) n) (publish services reporter event_type payload phase)
publish-Made_other services kind n reporter event_type payload phase other =
    unfold publish event_of in search (preserves_rules, send-Made_other) depth 8

module _ {A B : Type 0} {P : State → Type 0} where
  bound_after :
      (t : Trace) (answer : Trace → Result A) (f : A → Action B) (r : Result A) (s : State)
      → answer t ≡ r
      → ((a : A) (t : Trace) → answer t ≡ ok a → Preserves P (f a))
      → P s
      → P (◌>>=◌ (lift r) f s).1
  bound_after t answer f (ok a) s e h p = (h a t e).after s p
  bound_after t answer f (raised x) s e h p = p

  -- The rest of a block may use that the call gave its value.
  perform_bind-Preserves :
      (answer : Trace → Result A) (call : Call) (f : A → Action B)
      → Preserves P (perform answer call)
      → ((a : A) (t : Trace) → answer t ≡ ok a → Preserves P (f a))
      → Preserves P (perform answer call >>= f)
  unfolding perform
  perform_bind-Preserves answer call f hm hf = record {
    after = λ s p. bound_after s.trace answer f (answer s.trace) _ refl hf (hm.after s p);
  }

untaken-Preserves :
    {A : Type 0} {P : State → Type 0} (b : Bool) (m n : Action A)
    → b ≡ false
    → Preserves P n
    → Preserves P (if b then m else n)
untaken-Preserves b m n e h = rw e h

abbrev Cancels : ℕ → State → Type 0
Cancels = Made (is_event "CANCELLED")

module _ (services : Services) (config : WatcherConfig) (item : ActiveSubmission) (n : ℕ) where
  report_failed-Cancels :
      (code : String) → Preserves (Cancels n) (report_failed services config item code)
  report_failed-Cancels code =
      unfold report_failed in
      search (preserves_rules, publish-Made_other services "CANCELLED" n) depth 8

  forget-Cancels : Preserves (Cancels n) (forget services config item)
  forget-Cancels = unfold forget in search preserves_rules

  settle_ended-Cancels :
      (by_timeout : Bool) (status : String)
      → Preserves (Cancels n) (settle_ended services config item by_timeout status)
  settle_ended-Cancels by_timeout status =
      unfold settle_ended in search (preserves_rules, report_failed-Cancels, forget-Cancels) depth 8

  ask_stop-Cancels :
      (cancelled : Bool) → Preserves (Cancels n) (ask_stop services config item cancelled)
  ask_stop-Cancels cancelled =
      unfold ask_stop note_stop in search (preserves_rules, perform-Made) depth 8

  -- With another status than STOPPED nothing is reported as cancelled.
  settle-Cancels :
      (status : String) (cancelled timed_out : Bool)
      → status ≢ "STOPPED"
      → Preserves (Cancels n) (settle services config item status cancelled timed_out)
  settle-Cancels status cancelled timed_out other =
      unfold settle in
      search
        (
          preserves_rules,
          untaken-Preserves,
          test_of_ne status "STOPPED" other,
          settle_ended-Cancels,
          ask_stop-Cancels,
        )
        depth 9

  -- The questions to Redis and Ray publish nothing.
  asked-Cancels :
      {A : Type 0} (answer : Trace → Result A) (call : Call)
      → is_event "CANCELLED" call ≡ false
      → Preserves (Cancels n) (perform answer call)
  asked-Cancels answer call other = perform-Made (is_event "CANCELLED") n answer call other

  marked-Cancels :
      (status : String)
      → status ≢ "STOPPED"
      → Preserves (Cancels n) (do
        cancelled ←
            perform
              (λ t. services.exists t (cancel_key item.channel item.operation_id))
              (Call.exists (cancel_key item.channel item.operation_id))
        now ← gets (λ s. services.now_ms s.trace)
        settle services config item status cancelled (deadline_passed item.deadline_at_ms now))
  marked-Cancels status other = search (preserves_rules, asked-Cancels, settle-Cancels) depth 8

  look_item-Cancels :
      ((t : Trace) → services.job_status t item.submission.submission_id ≢ ok "STOPPED")
      → Preserves (Cancels n) (look_item services config item)
  unfolding look_item
  look_item-Cancels never =
      perform_bind-Preserves _ _ _ (asked-Cancels _ _ refl)
        (λ status t e. marked-Cancels status (λ p. never t (e ∙ ap ok p)))

  terminal-Cancels : Preserves (Cancels n) (terminal_event_published services item)
  terminal-Cancels =
      unfold terminal_event_published in search (preserves_rules, asked-Cancels) depth 8

  check_item-Cancels :
      ((t : Trace) → services.job_status t item.submission.submission_id ≢ ok "STOPPED")
      → Preserves (Cancels n) (check_item services config item)
  check_item-Cancels never =
      unfold check_item in
      search (preserves_rules, terminal-Cancels, forget-Cancels, look_item-Cancels) depth 8

-- As long as Ray does not answer STOPPED for the item's submission, a look at the item publishes no
-- CANCELLED event.
pub events-check_item :
    (services : Services) (config : WatcherConfig) (item : ActiveSubmission) (s : State)
    → ((t : Trace) → services.job_status t item.submission.submission_id ≢ ok "STOPPED")
    → events "CANCELLED" (check_item services config item s).1 ≡ events "CANCELLED" s
events-check_item services config item s never =
    (check_item-Cancels services config item (events "CANCELLED" s) never).after s refl
