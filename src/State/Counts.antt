-- ===== src/State/Counts.antt =====
-- How often a trace has a call of one kind, returned or raised.
use tributo_broker_redis.Base.{
  ℕ, suc, ◌≡◌, refl, Bool, true, false, String, ◌==◌, [], ◌∷◌, if◌then◌else◌, arith,
}
use tributo_broker_redis.Exec.{Result, ok, raised}
use tributo_broker_redis.Exec.Rules.{Preserves}
use tributo_broker_redis.Services.{Call, Step, returned, failed, Trace}
use tributo_broker_redis.State.{State, perform, step_of}

abbrev pub call_of : Step → Call
call_of (returned c) = c
call_of (failed c) = c

abbrev pub call_of-step_of : {A : Type 0} (r : Result A) (c : Call) → call_of (step_of r c) ≡ c
call_of-step_of (ok a) c = refl
call_of-step_of (raised e) c = refl

abbrev pub count_calls : (Call → Bool) → Trace → ℕ
count_calls p [] = 0
count_calls p (step ∷ trace) =
    if p (call_of step) then suc (count_calls p trace) else count_calls p trace

abbrev pub is_submit : Call → Bool
is_submit (Call.submit request) = true
is_submit _ = false

abbrev pub is_ack : Call → Bool
is_ack (Call.xack stream group token) = true
is_ack _ = false

abbrev pub is_close : Call → Bool
is_close Call.close_client = true
is_close _ = false

abbrev pub is_event : String → Call → Bool
is_event event_type (Call.xadd stream f event maxlen) = event.event_type == event_type
is_event event_type _ = false

-- `n` calls of one kind so far.
abbrev pub Made : (Call → Bool) → ℕ → State → Type 0
Made p n s = count_calls p s.trace ≡ n

pub perform-Made :
    {A : Type 0} (p : Call → Bool) (n : ℕ) (answer : Trace → Result A) (call : Call)
    → p call ≡ false
    → Preserves (Made p n) (perform answer call)
unfolding perform
perform-Made p n answer call other = record {
  after = λ s h. ground (arith, call_of-step_of (answer s.trace) call);
}
