-- ===== src/Runtime/Waiting.antt =====
-- A delivery that was claimed and waits in its consumer, while src/tributo_broker_redis/runtime.py claims
-- more and serves the other channel.
use tributo_broker_redis.Base.{
  ℕ, String, ◌≡◌, refl, ◌∙◌, ◌+◌, ltb, Bool, true, false, List, ◌∷◌, if◌then◌else◌,
}
use tributo_broker_redis.Exec.{Result, ok, pure}
use tributo_broker_redis.Exec.Rules.{Preserves}
use tributo_broker_redis.Exec.Returns.{Gives, pure-Gives, bind-Gives, try-Gives_only}
use tributo_broker_redis.Config.{OperationType, training, batch_inference}
use tributo_broker_redis.Services.{Services, Trace, Call}
use tributo_broker_redis.State.{State, Action, Message, Delivery, delivery, set_delivery, perform}
use tributo_broker_redis.Consumer
use tributo_broker_redis.Runtime.Types.{Setup}
use tributo_broker_redis.Runtime.Loop.{
  pending_recovery_interval_ms, recover_channel, claim_channels, recover_pending,
}
use tributo_broker_redis.Runtime.Stable.{IsStable}
use tributo_broker_redis.Runtime.Process.{recover_pending-Preserves}
use tributo_broker_redis.Runtime.Consumed.{IsConsumeStable, recover_channel-Preserves}

abbrev pub other_of : OperationType → OperationType
other_of training = batch_inference
other_of batch_inference = training

abbrev pub waiting : Message → List Message → String → Delivery
waiting message rest cursor = record { pending_messages = message ∷ rest; claim_cursor = cursor }

-- The consumer of the operation keeps `d`.
abbrev pub Holds : OperationType → Delivery → State → Type 0
Holds operation d s = delivery operation s ≡ d

untouched :
    (operation : OperationType) (d : Delivery) (s t : State)
    → t.training ≡ s.training
    → t.batch_inference ≡ s.batch_inference
    → Holds operation d s
    → Holds operation d t
untouched training d s t a b h = a ∙ h
untouched batch_inference d s t a b h = b ∙ h

module _ (operation : OperationType) (d : Delivery) where
  perform-Holds :
      {A : Type 0} (answer : Trace → Result A) (call : Call)
      → Preserves (Holds operation d) (perform answer call)
  unfolding perform
  perform-Holds answer call = record { after = λ s h. untouched operation d s _ refl refl h }

  pub Holds-stable : IsStable (Holds operation d)
  Holds-stable = record {
    quiet = record {
      on_exists = λ answer key. perform-Holds answer (Call.exists key);
      on_xrevrange = λ answer stream k. perform-Holds answer (Call.xrevrange stream k);
      on_xadd = λ answer stream f event k. perform-Holds answer (Call.xadd stream f event k);
    };
    on_submit = λ answer request. perform-Holds answer (Call.submit request);
    on_put = λ s item h. untouched operation d s _ refl refl h;
    on_remove = λ s operation_id h. untouched operation d s _ refl refl h;
  }

pub on_channel-Holds :
    (operation : OperationType) (d : Delivery) (s : State) (n : ℕ)
    → Holds operation d s
    → Holds operation d (record s { next_channel = n })
on_channel-Holds operation d s n h = untouched operation d s _ refl refl h

set_other-Holds :
    (operation : OperationType) (d e : Delivery) (s : State)
    → Holds operation d s
    → Holds operation d (set_delivery (other_of operation) e s)
set_other-Holds training d e s h = h
set_other-Holds batch_inference d e s h = h

set_delivery-next :
    (operation : OperationType) (e : Delivery) (s : State)
    → (set_delivery operation e s).next_channel ≡ s.next_channel
set_delivery-next training e s = refl
set_delivery-next batch_inference e s = refl

-- Its next turn is the channel `n`, besides.
abbrev pub Waits : OperationType → Delivery → ℕ → State → Type 0
Waits operation d n s = Holds operation d s × (s.next_channel ≡ n)

module _ (operation : OperationType) (d : Delivery) where
  -- To serve the other channel changes nothing of it.
  pub Holds-consume : IsConsumeStable (other_of operation) (Holds operation d)
  Holds-consume = record {
    on_read = λ answer stream group consumer block.
        perform-Holds operation d answer (Call.xreadgroup stream group consumer block);
    on_claim = λ answer stream group consumer min_idle cursor k.
        perform-Holds operation d answer (Call.xautoclaim stream group consumer min_idle cursor k);
    on_ack = λ answer stream group token.
        perform-Holds operation d answer (Call.xack stream group token);
    on_delivery = set_other-Holds operation d;
  }

  module _ (n : ℕ) where
    perform-Waits :
        {A : Type 0} (answer : Trace → Result A) (call : Call)
        → Preserves (Waits operation d n) (perform answer call)
    unfolding perform
    perform-Waits answer call = record {
      after = λ s h. (untouched operation d s _ refl refl h.0, h.1);
    }

    Waits-consume : IsConsumeStable (other_of operation) (Waits operation d n)
    Waits-consume = record {
      on_read = λ answer stream group consumer block.
          perform-Waits answer (Call.xreadgroup stream group consumer block);
      on_claim = λ answer stream group consumer min_idle cursor k.
          perform-Waits answer (Call.xautoclaim stream group consumer min_idle cursor k);
      on_ack = λ answer stream group token. perform-Waits answer (Call.xack stream group token);
      on_delivery = λ e s h.
          (set_other-Holds operation d e s h.0, set_delivery-next (other_of operation) e s ∙ h.1);
    }

module _ (services : Services) (setup : Setup) where
  -- A consumer that keeps a delivery claims no more.
  recover_channel-waiting :
      (operation : OperationType) (message : Message) (rest : List Message) (cursor : String)
      (s : State)
      → Holds operation (waiting message rest cursor) s
      → recover_channel services setup operation s ≡ (ok tt, s)
  unfolding Consumer.recover_pending
  recover_channel-waiting operation message rest cursor s h = rw h refl

  recover_channel-Gives :
      (operation : OperationType) → Gives {S = State} tt (recover_channel services setup operation)
  recover_channel-Gives operation = try-Gives_only _ (λ _. pure tt) (λ e. pure-Gives tt)

  module _ (message : Message) (rest : List Message) (cursor : String) (n : ℕ) where
    abbrev d : Delivery
    d = waiting message rest cursor

    own-Waits :
        (operation : OperationType)
        → Preserves (Waits operation d n) (recover_channel services setup operation)
    own-Waits operation = record {
      after = λ s h. rw (recover_channel-waiting operation message rest cursor s h.0) h;
    }

    other-Waits :
        (operation : OperationType)
        → Preserves (Waits operation d n) (recover_channel services setup (other_of operation))
    other-Waits operation = recover_channel-Preserves (Waits-consume operation d n) services setup

    due-Waits :
        (operation : OperationType) (k : ℕ) (s : State)
        → Waits operation d n s
        → Waits operation d n (record s { next_pending_recovery_ms = k })
    due-Waits operation k s h = (untouched operation d s _ refl refl h.0, h.1)

    -- What is claimed for the other channel leaves it waiting.
    pub recover_pending-Waits :
        (operation : OperationType)
        → Preserves (Waits operation d n) (recover_pending services setup)
    recover_pending-Waits training =
        recover_pending-Preserves (λ s k. due-Waits training k s) services setup
          (own-Waits training) (other-Waits training)
    recover_pending-Waits batch_inference =
        recover_pending-Preserves (λ s k. due-Waits batch_inference k s) services setup
          (other-Waits batch_inference) (own-Waits batch_inference)

  if-Gives :
      (b : Bool) (m : Action (Unit {0})) (s : State)
      → Gives tt m
      → ((if b then pure tt else m) s).0 ≡ ok tt
  if-Gives true m s h = refl
  if-Gives false m s h = h.gives s

  -- The claims that fail are logged.
  pub recover_pending-Gives : Gives {S = State} tt (recover_pending services setup)
  unfolding recover_pending
  recover_pending-Gives = record {
    gives = λ s.
        if-Gives (ltb (services.monotonic_ms s.trace) s.next_pending_recovery_ms)
          (claim_channels services setup (services.monotonic_ms s.trace)) s
          (record {
            gives = λ t.
                (bind-Gives tt tt (recover_channel services setup training)
                    (λ _. recover_channel services setup batch_inference)
                    (recover_channel-Gives training) (recover_channel-Gives batch_inference)).gives
                  (record t {
                    next_pending_recovery_ms =
                        services.monotonic_ms s.trace + pending_recovery_interval_ms;
                  });
          });
  }
