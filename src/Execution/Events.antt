-- ===== src/Execution/Events.antt =====
-- What the events of src/tributo_broker_redis/execution_driver.py do to the counts of the terminal ones.
use tributo_broker_redis.Base.{ℕ, zero, suc, ltb, String, ◌≡◌, refl, false, Option, some, ◌==◌}
use tributo_broker_redis.Json.{Fields}
use tributo_broker_redis.Exec.{Result, lift, gets, terminal_event_publication_error, value_error}
use tributo_broker_redis.Exec.Rules.{
  Preserves, preserves_rules, try-Preserves, lift-Preserves, gets-Preserves, pure-Preserves,
}
use tributo_broker_redis.Exec.Ends.{
  Ends, pure-Ends, gets-Ends, throw-Ends, if-Ends, try-Ends, bind-Ends, then-Ends,
}
use tributo_broker_redis.Services.{Services, Event, Call, Trace}
use tributo_broker_redis.State.{State, perform}
use tributo_broker_redis.State.Delivered.{Has, perform-Has, perform-completed, perform-failed}
use tributo_broker_redis.Reporter.{Reporter, send, publish, event_of, failed, failed_payload}
use tributo_broker_redis.Runtime.Reports.{published}
use tributo_broker_redis.Execution.{publish_completed, publish_attempts, publish_nonterminal}

module _ (services : Services) (reporter : Reporter) where
  module _ {P Q : State → Type 0} where
    send-Ends :
        (event : Event)
        → ((answer : Trace → Result (Unit {0}))
            → Ends P
                (λ _. Q)
                P
                (perform answer (
                  Call.xadd reporter.stream reporter.outer_identity_field event
                    reporter.max_stream_length)))
        → Ends P (λ _. Q) P (send services reporter event)
    unfolding send
    send-Ends event h =
        bind-Ends (lift (services.encoded_bytes event)) _ (lift-Preserves _) (λ size.
          if-Ends (ltb reporter.max_event_bytes size) _ _ (throw-Ends value_error (λ s p. p)) (
            then-Ends (λ _. Q) (perform (λ t. services.xadd t reporter.stream event) _) _ (h _)
              (λ _. gets-Ends (λ _. event) (λ s q. q))))

    publish-Ends :
        (event_type : String) (payload : Fields) (phase : Option String)
        → ((event : Event) (answer : Trace → Result (Unit {0}))
            → event.event_type ≡ event_type
            → Ends P
                (λ _. Q)
                P
                (perform answer (
                  Call.xadd reporter.stream reporter.outer_identity_field event
                    reporter.max_stream_length)))
        → Ends P (λ _. Q) P (publish services reporter event_type payload phase)
    unfolding publish event_of
    publish-Ends event_type payload phase h =
        bind-Ends (gets (λ s. services.uuid s.trace)) _ (gets-Preserves _) (λ event_id.
          bind-Ends (gets (λ s. services.now_ms s.trace)) _ (gets-Preserves _) (λ timestamp_ms.
            send-Ends
              (event_of services.repr reporter event_id timestamp_ms event_type payload phase)
              (λ answer. h _ answer refl)))

  pub publish_completed-Ends :
      (c f : ℕ) (payload : Fields)
      → Ends (Has c f) (λ _. Has (suc c) f) (Has c f) (publish_completed services reporter payload)
  unfolding publish_completed published
  publish_completed-Ends c f payload =
      try-Ends (Has c f) (published services reporter "COMPLETED" payload (some "COMPLETED")) _
        (then-Ends (λ _. Has (suc c) f)
          (publish services reporter "COMPLETED" payload (some "COMPLETED")) _
          (publish-Ends "COMPLETED" payload (some "COMPLETED") (λ event answer named.
            perform-completed c f reporter.stream reporter.outer_identity_field event
              reporter.max_stream_length answer named))
          (λ _. pure-Ends tt (λ s q. q)))
        (λ e. throw-Ends terminal_event_publication_error (λ s p. p))

  pub failed-Ends :
      (c f : ℕ) (code error_type phase message : String)
      → Ends
          (Has c f)
          (λ _. Has c (suc f))
          (Has c f)
          (failed services reporter code error_type phase message)
  unfolding failed
  failed-Ends c f code error_type phase message =
      publish-Ends "FAILED" (failed_payload code error_type message) (some phase)
        (λ event answer named.
          perform-failed c f reporter.stream reporter.outer_identity_field event
            reporter.max_stream_length answer named)

  send-Has :
      (c f : ℕ) (event : Event)
      → (event.event_type == "COMPLETED") ≡ false
      → (event.event_type == "FAILED") ≡ false
      → Preserves (Has c f) (send services reporter event)
  unfolding send
  send-Has c f event no_completed no_failed = search (preserves_rules, perform-Has) depth 8

  publish-Has :
      (c f : ℕ) (event_type : String) (payload : Fields) (phase : Option String)
      → (event_type == "COMPLETED") ≡ false
      → (event_type == "FAILED") ≡ false
      → Preserves (Has c f) (published services reporter event_type payload phase)
  unfolding published publish event_of
  publish-Has c f event_type payload phase no_completed no_failed =
      search (preserves_rules, send-Has) depth 8

  attempts-Has :
      (c f attempts : ℕ) (event_type : String) (payload : Fields) (phase : String)
      → (event_type == "COMPLETED") ≡ false
      → (event_type == "FAILED") ≡ false
      → Preserves (Has c f) (publish_attempts services reporter attempts event_type payload phase)
  unfolding publish_attempts
  attempts-Has c f zero event_type payload phase no_completed no_failed = pure-Preserves tt
  attempts-Has c f (suc attempts) event_type payload phase no_completed no_failed =
      try-Preserves (published services reporter event_type payload (some phase)) _
        (publish-Has c f event_type payload (some phase) no_completed no_failed)
        (λ e. attempts-Has c f attempts event_type payload phase no_completed no_failed)

  pub nonterminal-Has :
      (c f : ℕ) (event_type : String) (payload : Fields) (phase : String)
      → (event_type == "COMPLETED") ≡ false
      → (event_type == "FAILED") ≡ false
      → Preserves (Has c f) (publish_nonterminal services reporter event_type payload phase)
  unfolding publish_nonterminal
  nonterminal-Has c f event_type payload phase no_completed no_failed =
      attempts-Has c f 2 event_type payload phase no_completed no_failed
