-- ===== src/State/OneMore.antt =====
-- Actions that make at most one more call of a kind.
use tributo_broker_redis.Base.{ℕ, ◌+◌, ◌≤◌, Bool, refl, arith}
use tributo_broker_redis.Exec.{Result}
use tributo_broker_redis.Exec.Rules.{Preserves}
use tributo_broker_redis.Exec.Leads.{Leads}
use tributo_broker_redis.Services.{Call, Trace}
use tributo_broker_redis.State.{State, Action, perform}
use tributo_broker_redis.State.Counts.{Made, count_calls, call_of-step_of}

-- At least `n` calls, and at most one more.
abbrev pub OneMore : (Call → Bool) → ℕ → State → Type 0
OneMore p n s = (n ≤ count_calls p s.trace) × (count_calls p s.trace ≤ n + 1)

module _ (p : Call → Bool) (n : ℕ) where
  pub one_more : (s : State) → Made p n s → OneMore p n s
  one_more s h = (omega arith, omega arith)

  -- What makes no such call from any number on keeps `OneMore`.
  pub OneMore-Preserves :
      {A : Type 0} (m : Action A) → ((k : ℕ) → Preserves (Made p k) m) → Preserves (OneMore p n) m
  OneMore-Preserves m h = record {
    after = λ s q. let e = (h (count_calls p s.trace)).after s refl in (omega arith, omega arith);
  }

  pub perform-OneMore :
      {A : Type 0} (answer : Trace → Result A) (call : Call)
      → Leads (Made p n) (OneMore p n) (perform answer call)
  unfolding perform
  perform-OneMore answer call = record {
    leads = λ s q. let c = call_of-step_of (answer s.trace) call in (ground arith, ground arith);
  }
