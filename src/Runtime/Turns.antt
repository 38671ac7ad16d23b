-- ===== src/Runtime/Turns.antt =====
-- One round and its turns: `run_once` of src/tributo_broker_redis/runtime.py, where a delivery waits.
use tributo_broker_redis.Base.{
  ℕ, ◌+◌, ◌%◌, ◌≡◌, ◌⊎◌, inl, inr, refl, ap, ◌∙◌, Bool, true, false, Option, none, some, String,
  List, if◌then◌else◌, arith, num_eq, Bool-cases,
}
use tributo_broker_redis.Exec.{Result, ok, raised, ◌>>=◌, ◌>>◌, pure, modify, and_then}
use tributo_broker_redis.Exec.Ends.{Ends, bind-Ends, pure-Ends}
use tributo_broker_redis.Exec.Returns.{anything-Preserves}
use tributo_broker_redis.Config.{OperationType, training, batch_inference}
use tributo_broker_redis.Services.{Services}
use tributo_broker_redis.State.{State, Action, Message, Delivery, delivery, set_delivery}
use tributo_broker_redis.Consumer
use tributo_broker_redis.Runtime.Types.{Setup, TaskOutcome, channel_of}
use tributo_broker_redis.Runtime.Handle.{handle}
use tributo_broker_redis.Runtime.Loop.{
  operation_at, recover_pending, finish, serve_channel, channel_timeout, run_once, apply_outcome,
}
use tributo_broker_redis.Runtime.Consumed.{IsConsumeStable}
use tributo_broker_redis.Runtime.Waiting.{
  other_of, waiting, Holds, recover_pending-Waits, recover_pending-Gives,
}

-- The place of an operation in `operations`.
abbrev pub index_of : OperationType → ℕ
index_of training = 0
index_of batch_inference = 1

parity : (n : ℕ) → (n % 2 ≡ 0) ⊎ (n % 2 ≡ 1)
parity n = elim (Bool-cases (num_eq (n % 2) 0)) [
  | inl even ↦ inl (ground arith)
  | inr odd ↦ inr (ground arith)
]

pub turns :
    (operation : OperationType) (n : ℕ)
    → (n % 2 ≡ index_of operation) ⊎ (n % 2 ≡ index_of (other_of operation))
turns training n = parity n
turns batch_inference n = elim (parity n) [ inl even ↦ inr even | inr odd ↦ inl odd ]

pub turn_passes :
    (operation : OperationType) (n : ℕ)
    → n % 2 ≡ index_of (other_of operation)
    → (n + 1) % 2 ≡ index_of operation
turn_passes training n h = omega arith
turn_passes batch_inference n h = omega arith

pub turn_comes :
    (operation : OperationType) → (index_of (other_of operation) + 1) % 2 % 2 ≡ index_of operation
turn_comes training = refl
turn_comes batch_inference = refl

pub consumer_of :
    (operation : OperationType) (P : State → Type 0)
    → IsConsumeStable operation P
    → IsConsumeStable (operation_at (index_of operation)) P
consumer_of training P h = h
consumer_of batch_inference P h = h

-- A consumer that keeps one delivery less.
abbrev pub without : List Message → String → Delivery
without rest cursor = record { pending_messages = rest; claim_cursor = cursor }

released_of :
    (operation : OperationType) (d : Delivery) (s : State)
    → delivery operation (set_delivery operation d s) ≡ d
released_of training d s = refl
released_of batch_inference d s = refl

module _ (services : Services) (setup : Setup) where
  pub serve_waiting :
      (operation : OperationType) (message : Message) (rest : List Message) (cursor : String)
      (timeout_ms : ℕ) (s : State)
      → Holds operation (waiting message rest cursor) s
      → serve_channel services setup timeout_ms (index_of operation) s
        ≡ finish services setup
            (index_of operation)
            (some message)
            (set_delivery operation (without rest cursor) s)
  unfolding serve_channel Consumer.poll
  serve_waiting training message rest cursor timeout_ms s h = rw h refl
  serve_waiting batch_inference message rest cursor timeout_ms s h = rw h refl

  -- A round, by the two turns that it may take.
  pub run_once-turns :
      (a b : ℕ) (timeout_ms : Option ℕ) (s : State)
      → let s' = (recover_pending services setup s).1 in
        s'.next_channel % 2 ≡ a
        → (s'.next_channel + 1) % 2 ≡ b
        → run_once services setup timeout_ms s
          ≡ (do
            served ← serve_channel services setup (channel_timeout services setup timeout_ms) a
            if served
                then pure true
                else serve_channel services setup (channel_timeout services setup timeout_ms) b)
              s'
  unfolding run_once
  run_once-turns a b timeout_ms s ha hb =
      rw ((recover_pending-Gives services setup).gives s, ha, hb) refl

  last_true :
      (index : ℕ) (r : Result (Unit {0})) (s : State) (more : Action Bool)
      → let p =
          and_then r
            (λ _. modify (λ t. record t { next_channel = (index + 1) % 2 }) >> pure true)
            s in
        and_then p.0 (λ served. if served then pure true else more) p.1 ≡ p
  last_true index (ok _) s more = refl
  last_true index (raised e) s more = refl

  -- What was served ends the round.
  pub served_ends :
      (index : ℕ) (message : Message) (r : Result TaskOutcome) (s : State) (more : Action Bool)
      → let p =
          and_then r
            (λ outcome. do
              apply_outcome services setup (operation_at index) message outcome
              modify (λ t. record t { next_channel = (index + 1) % 2 })
              pure true)
            s in
        and_then p.0 (λ served. if served then pure true else more) p.1 ≡ p
  served_ends index message (ok outcome) s more = last_true index _ _ more
  served_ends index message (raised e) s more = refl

  -- A channel that was served has its turn behind the other.
  abbrev pub Passes : ℕ → Bool → State → Type 0
  Passes index served s = served ≡ true → s.next_channel ≡ (index + 1) % 2

  finish-Passes :
      (index : ℕ) (message : Option Message)
      → Ends (λ _. Unit) (Passes index) (λ _. Unit) (finish services setup index message)
  finish-Passes index none = pure-Ends false (λ s u e. cc)
  finish-Passes index (some message) =
      bind-Ends (handle services setup message) _ (anything-Preserves _) (λ outcome.
        bind-Ends (apply_outcome services setup (operation_at index) message outcome) _
          (anything-Preserves _) (λ _. record { ends = λ s u e. refl }))

  pub serve_channel-Passes :
      (timeout_ms index : ℕ)
      → Ends (λ _. Unit) (Passes index) (λ _. Unit) (serve_channel services setup timeout_ms index)
  serve_channel-Passes timeout_ms index =
      unfold serve_channel in
      bind-Ends
        (Consumer.poll services setup.transport (channel_of setup (operation_at index))
          (operation_at index) timeout_ms)
        (finish services setup index) (anything-Preserves _) (finish-Passes index)

module _ (services : Services) (setup : Setup) (operation : OperationType) (message : Message)
    (rest : List Message) (cursor : String) where
  abbrev pub d : Delivery
  d = waiting message rest cursor

  -- The round hands the delivery on: it is `handle` and what follows, from a state in which the consumer
  -- keeps the delivery no longer, and keeps those behind it.
  pub record HandsOn (timeout_ms : Option ℕ) (s : State) : Type 0 where
    pub from : State
    pub released : delivery operation from ≡ without rest cursor
    pub handed :
        run_once services setup timeout_ms s
        ≡ finish services setup (index_of operation) (some message) from

  pub handed_on :
      (timeout_ms : Option ℕ) (s t : State)
      → run_once services setup timeout_ms s
        ≡ finish services setup
            (index_of operation)
            (some message)
            (set_delivery operation (without rest cursor) t)
      → HandsOn timeout_ms s
  handed_on timeout_ms s t e = record {
    from = set_delivery operation (without rest cursor) t;
    released = released_of operation (without rest cursor) t;
    handed = e;
  }

  pub own_turn :
      (timeout_ms : Option ℕ) (s : State)
      → Holds operation d s
      → s.next_channel % 2 ≡ index_of operation
      → HandsOn timeout_ms s
  own_turn timeout_ms s h turn =
      let s' = (recover_pending services setup s).1 in
      let w =
        (recover_pending-Waits services setup message rest cursor s.next_channel operation).after s
          (h, refl) in
      handed_on timeout_ms s s' (
        run_once-turns services setup (index_of operation) _ timeout_ms s
          (ap (λ k. k % 2) w.1 ∙ turn) refl
        ∙ rw
            (serve_waiting services setup operation message rest cursor
              (channel_timeout services setup timeout_ms) s' w.0)
            (served_ends services setup (index_of operation) message _ _ _))
