-- ===== src/Reporter/Quiet.antt =====
-- What publishing an event keeps, from what the single calls keep.
use tributo_broker_redis.Base.{ℕ, String, Bool, Option, List}
use tributo_broker_redis.Json.{Fields}
use tributo_broker_redis.Exec.{Result}
use tributo_broker_redis.Exec.Rules.{Preserves, preserves_rules}
use tributo_broker_redis.Services.{Event, Call, Services, Trace, Entry}
use tributo_broker_redis.State.{State, perform}
use tributo_broker_redis.Reporter.{Reporter, send, publish}

-- Questions to Redis and events keep `P`.
pub record IsQuiet (P : State → Type 0) : Type 0 where
  pub on_exists :
      (answer : Trace → Result Bool) (key : String) → Preserves P (perform answer (Call.exists key))
  pub on_xrevrange :
      (answer : Trace → Result (List Entry)) (stream : String) (n : ℕ)
      → Preserves P (perform answer (Call.xrevrange stream n))
  pub on_xadd :
      (answer : Trace → Result (Unit {0})) (stream f : String) (event : Event) (n : ℕ)
      → Preserves P (perform answer (Call.xadd stream f event n))

module _ (services : Services) {P : State → Type 0} (quiet : IsQuiet P) where
  open quiet use {on_exists, on_xrevrange, on_xadd}

  send-Preserves :
      (reporter : Reporter) (event : Event) → Preserves P (send services reporter event)
  unfolding send
  send-Preserves reporter event = search (preserves_rules, on_xadd) depth 8

  pub publish-Preserves :
      (reporter : Reporter) (event_type : String) (payload : Fields) (phase : Option String)
      → Preserves P (publish services reporter event_type payload phase)
  publish-Preserves reporter event_type payload phase =
      unfold publish in search (preserves_rules, send-Preserves) depth 8
