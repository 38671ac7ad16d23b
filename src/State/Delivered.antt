-- ===== src/State/Delivered.antt =====
-- How many calls of one kind returned.
use tributo_broker_redis.Base.{
  ℕ, suc, ◌≡◌, refl, Bool, false, String, [], ◌∷◌, if◌then◌else◌, ◌∙◌, ap,
}
use tributo_broker_redis.Exec.{Result, ok, raised}
use tributo_broker_redis.Exec.Rules.{Preserves}
use tributo_broker_redis.Exec.Ends.{Ends, After}
use tributo_broker_redis.Services.{Event, Call, returned, failed, Trace}
use tributo_broker_redis.State.{State, perform, step_of}
use tributo_broker_redis.State.Counts.{is_event}

abbrev pub count_returned : (Call → Bool) → Trace → ℕ
count_returned p [] = 0
count_returned p (returned c ∷ trace) =
    if p c then suc (count_returned p trace) else count_returned p trace
count_returned p (failed c ∷ trace) = count_returned p trace

-- Events of one type that Redis took.
abbrev pub delivered : String → State → ℕ
delivered event_type s = count_returned (is_event event_type) s.trace

-- `c` COMPLETED and `f` FAILED events were delivered.
abbrev pub Has : ℕ → ℕ → State → Type 0
Has c f s = (delivered "COMPLETED" s ≡ c) × (delivered "FAILED" s ≡ f)

count-step_of :
    {A : Type 0} (p : Call → Bool) (r : Result A) (call : Call) (trace : Trace)
    → p call ≡ false
    → count_returned p (step_of r call ∷ trace) ≡ count_returned p trace
count-step_of p (ok a) call trace other = rw other refl
count-step_of p (raised e) call trace other = refl

-- A call that is no such event.
pub perform-Has :
    {A : Type 0} (c f : ℕ) (answer : Trace → Result A) (call : Call)
    → is_event "COMPLETED" call ≡ false
    → is_event "FAILED" call ≡ false
    → Preserves (Has c f) (perform answer call)
unfolding perform
perform-Has c f answer call no_completed no_failed = record {
  after = λ s h. (
    count-step_of (is_event "COMPLETED") (answer s.trace) call s.trace no_completed ∙ h.0,
    count-step_of (is_event "FAILED") (answer s.trace) call s.trace no_failed ∙ h.1,
  );
}

module _ (c f : ℕ) (stream outer : String) (event : Event) (maxlen : ℕ) where
  added_completed :
      (r : Result (Unit {0})) (s : State)
      → event.event_type ≡ "COMPLETED"
      → Has c f s
      → After
          (λ _. Has (suc c) f)
          (Has c f)
          r
          (record s { trace = step_of r (Call.xadd stream outer event maxlen) ∷ s.trace })
  added_completed (ok _) s named h = (rw named (ap suc h.0), rw named h.1)
  added_completed (raised e) s named h = h

  added_failed :
      (r : Result (Unit {0})) (s : State)
      → event.event_type ≡ "FAILED"
      → Has c f s
      → After
          (λ _. Has c (suc f))
          (Has c f)
          r
          (record s { trace = step_of r (Call.xadd stream outer event maxlen) ∷ s.trace })
  added_failed (ok _) s named h = (rw named h.0, rw named (ap suc h.1))
  added_failed (raised e) s named h = h

  pub perform-completed :
      (answer : Trace → Result (Unit {0}))
      → event.event_type ≡ "COMPLETED"
      → Ends
          (Has c f)
          (λ _. Has (suc c) f)
          (Has c f)
          (perform answer (Call.xadd stream outer event maxlen))
  unfolding perform
  perform-completed answer named = record {
    ends = λ s h. added_completed (answer s.trace) s named h;
  }

  pub perform-failed :
      (answer : Trace → Result (Unit {0}))
      → event.event_type ≡ "FAILED"
      → Ends
          (Has c f)
          (λ _. Has c (suc f))
          (Has c f)
          (perform answer (Call.xadd stream outer event maxlen))
  unfolding perform
  perform-failed answer named = record { ends = λ s h. added_failed (answer s.trace) s named h }
