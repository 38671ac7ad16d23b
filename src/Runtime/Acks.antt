-- ===== src/Runtime/Acks.antt =====
-- When the runtime acknowledges a delivery to Redis.
use tributo_broker_redis.Base.{
  ℕ, ◌+◌, ◌≡◌, refl, ap, ◌∙◌, ◌%◌, true, Option, some, List, [], ◌∷◌, false, if◌then◌else◌,
}
use tributo_broker_redis.Exec.{Result, ok, raised, pure, ◌>>=◌, ◌>>◌, modify, lift}
use tributo_broker_redis.Services.{Services, Call, Trace}
use tributo_broker_redis.State.{State, Message, perform}
use tributo_broker_redis.State.Counts.{is_ack, call_of, call_of-step_of}
use tributo_broker_redis.Exec.Rules.{Preserves}
use tributo_broker_redis.Consumer
use tributo_broker_redis.Runtime.Types.{Setup, channel_of, BrokerError, TaskOutcome, Disposition}
use tributo_broker_redis.Runtime.Handle.{handle}
use tributo_broker_redis.Runtime.Loop.{apply_outcome, finish, operation_at}
use tributo_broker_redis.Runtime.Stable.{IsStable, handle-Preserves}

-- The acknowledgements of a trace with all they say, the newest first.
abbrev ack_calls : Trace → List Call
ack_calls [] = []
ack_calls (step ∷ trace) =
    if is_ack (call_of step) then call_of step ∷ ack_calls trace else ack_calls trace

abbrev pub acks : State → List Call
acks s = ack_calls s.trace

abbrev Acked : List Call → State → Type 0
Acked calls s = acks s ≡ calls

perform-Acked :
    {A : Type 0} (calls : List Call) (answer : Trace → Result A) (call : Call)
    → is_ack call ≡ false
    → Preserves (Acked calls) (perform answer call)
unfolding perform
perform-Acked calls answer call other = record {
  after = λ s h. rw (call_of-step_of (answer s.trace) call, other) h;
}

ack_stable : (calls : List Call) → IsStable (Acked calls)
ack_stable calls = record {
  quiet = record {
    on_exists = λ answer key. perform-Acked calls answer (Call.exists key) refl;
    on_xrevrange = λ answer stream k. perform-Acked calls answer (Call.xrevrange stream k) refl;
    on_xadd =
        λ answer stream f event k. perform-Acked calls answer (Call.xadd stream f event k) refl;
  };
  on_submit = λ answer request. perform-Acked calls answer (Call.submit request) refl;
  on_put = λ s item h. h;
  on_remove = λ s operation_id h. h;
}

acks-handle :
    (services : Services) (setup : Setup) (message : Message) (s : State)
    → acks (handle services setup message s).1 ≡ acks s
acks-handle services setup message s =
    (handle-Preserves services setup (ack_stable (acks s)) message).after s refl

-- With the acknowledgement that a delivery is to get: one for ACK and REJECT, none for RETRY, and none if
-- `handle` raised.
abbrev pub with_asked : Disposition → Call → List Call → List Call
with_asked Disposition.ack call calls = call ∷ calls
with_asked Disposition.retry call calls = calls
with_asked Disposition.reject call calls = call ∷ calls

abbrev pub with_due : Result TaskOutcome → Call → List Call → List Call
with_due (ok outcome) call calls = with_asked outcome.disposition call calls
with_due (raised e) call calls = calls

-- The acknowledgement of the delivery: on its channel's task stream, in its group, with its own token.
abbrev pub ack_of : Setup → ℕ → Message → Call
ack_of setup index message =
    let channel = channel_of setup (operation_at index) in
    Call.xack channel.task_stream_key channel.consumer_group message.delivery_token

module _ (services : Services) (setup : Setup) (index : ℕ) (message : Message) where
  acks-ack :
      (s : State)
      → acks
          (Consumer.ack services setup.transport
            (channel_of setup (operation_at index))
            (operation_at index)
            message
            s).1
        ≡ ack_of setup index message ∷ acks s
  unfolding Consumer.ack
  acks-ack s =
      let channel = channel_of setup (operation_at index) in
      let answer = services.xack s.trace channel.task_stream_key message.delivery_token in
      rw (call_of-step_of answer (ack_of setup index message)) refl

  acks-apply :
      (disposition : Disposition) (error : Option BrokerError) (s : State)
      → acks
          (apply_outcome services setup
            (operation_at index)
            message
            (record { disposition = disposition; error = error })
            s).1
        ≡ with_asked disposition (ack_of setup index message) (acks s)
  acks-apply Disposition.ack error s = unfold apply_outcome Consumer.reject in acks-ack s
  acks-apply Disposition.retry error s = unfold apply_outcome Consumer.retry in refl
  acks-apply Disposition.reject error s = unfold apply_outcome Consumer.reject in acks-ack s

  -- What follows `apply_outcome` makes no call.
  acks-turned :
      (r : Result (Unit {0})) (s : State)
      → acks
          (◌>>=◌
            (lift r)
            (λ _. modify (λ t. record t { next_channel = (index + 1) % 2 }) >> pure true)
            s).1
        ≡ acks s
  acks-turned (ok _) s = refl
  acks-turned (raised e) s = refl

  acks-finished :
      (r : Result TaskOutcome) (s : State)
      → acks
          (◌>>=◌
            (lift r)
            (λ outcome.
              (apply_outcome services setup (operation_at index) message outcome
                >> (modify (λ t. record t { next_channel = (index + 1) % 2 }) >> pure true)))
            s).1
        ≡ with_due r (ack_of setup index message) (acks s)
  acks-finished (raised e) s = refl
  acks-finished (ok outcome) s =
      let (r, s') = apply_outcome services setup (operation_at index) message outcome s in
      acks-turned r s' ∙ acks-apply outcome.disposition outcome.error s

-- A delivery that was read is acknowledged to Redis exactly as its outcome says: once for ACK and REJECT, on
-- its channel's task stream, in its group and with its own token, never for RETRY, and never if handling it
-- raised. No other delivery is acknowledged.
pub acks-finish :
    (services : Services) (setup : Setup) (index : ℕ) (message : Message) (s : State)
    → acks (finish services setup index (some message) s).1
      ≡ with_due (handle services setup message s).0 (ack_of setup index message) (acks s)
acks-finish services setup index message s =
    let (r, s') = handle services setup message s in
    acks-finished services setup index message r s'
    ∙ ap (with_due r (ack_of setup index message)) (acks-handle services setup message s)
