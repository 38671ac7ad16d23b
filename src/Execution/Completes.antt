-- ===== src/Execution/Completes.antt =====
-- Training workloads that succeed, in src/tributo_broker_redis/execution_driver.py.
use tributo_broker_redis.Base.{ℕ, zero, suc, String, ◌≡◌, refl, false, ltb, some}
use tributo_broker_redis.Json.{Json, Fields, fields_get}
use tributo_broker_redis.Exec.{Result, ok, lift, ◌>>=◌}
use tributo_broker_redis.Exec.Returns.{
  Gives, pure-Gives, lift-Gives, try-Gives, try-Gives_only, bind-Gives,
}
use tributo_broker_redis.Config.{training}
use tributo_broker_redis.Protocol.{DriverInput}
use tributo_broker_redis.Services.{Services, Event, Call, Trace}
use tributo_broker_redis.State.{State, Action, perform}
use tributo_broker_redis.Reporter.{Reporter, send, publish, event_of}
use tributo_broker_redis.Runtime.Reports.{published}
use tributo_broker_redis.Execution.{
  publish_completed, publish_attempts, publish_nonterminal, resolve_credential_reference,
}
use tributo_broker_redis.Execution.Workload.{
  Work, Process, TrainingResult, run_training, run_driver, report, execute, item_of, serialized,
  phase_payload, log_payload, metrics_payload, training_payload,
}

-- The COMPLETED event with this payload, made behind `t`.
abbrev pub completed_event : Services → Reporter → Fields → Trace → Event
unfolding event_of
completed_event services reporter payload t =
    event_of services.repr reporter (services.uuid t) (services.now_ms t) "COMPLETED" payload
      (some "COMPLETED")

-- Redis takes this event, and it is not too large, whenever it is made.
pub record TakesCompleted (services : Services) (reporter : Reporter) (payload : Fields)
    : Type 0 where
  pub size : Trace → ℕ
  pub encoded :
      (t : Trace)
      → services.encoded_bytes (completed_event services reporter payload t) ≡ ok (size t)
  pub small : (t : Trace) → ltb reporter.max_event_bytes (size t) ≡ false
  pub taken :
      (t : Trace)
      → services.xadd t reporter.stream (completed_event services reporter payload t) ≡ ok tt

module _ (services : Services) (reporter : Reporter) where
  attempts-Gives :
      (attempts : ℕ) (event_type : String) (payload : Fields) (phase : String)
      → Gives {S = State} tt (publish_attempts services reporter attempts event_type payload phase)
  unfolding publish_attempts
  attempts-Gives zero event_type payload phase = pure-Gives tt
  attempts-Gives (suc attempts) event_type payload phase =
      try-Gives_only (published services reporter event_type payload (some phase)) _
        (λ e. attempts-Gives attempts event_type payload phase)

  -- An informational event never ends the workload.
  nonterminal-Gives :
      (event_type : String) (payload : Fields) (phase : String)
      → Gives {S = State} tt (publish_nonterminal services reporter event_type payload phase)
  unfolding publish_nonterminal
  nonterminal-Gives event_type payload phase = attempts-Gives 2 event_type payload phase

  module _ (payload : Fields) (takes : TakesCompleted services reporter payload) where
    send-Gives :
        (s : State)
        → (send services reporter (completed_event services reporter payload s.trace) s).0
          ≡ ok (completed_event services reporter payload s.trace)
    unfolding send perform
    send-Gives s = rw (takes.encoded s.trace, takes.small s.trace, takes.taken s.trace) refl

    published-Gives :
        Gives {S = State} tt (published services reporter "COMPLETED" payload (some "COMPLETED"))
    unfolding published publish
    published-Gives = record { gives = λ s. rw (send-Gives s) refl }

    completed-Gives : Gives {S = State} tt (publish_completed services reporter payload)
    unfolding publish_completed
    completed-Gives =
        try-Gives tt (published services reporter "COMPLETED" payload (some "COMPLETED")) _
          published-Gives

-- The workload of a training returns `result`, and its result can be written as JSON.
pub record Trains {Request Plan : Type 0} (work : Work Request Plan) (value : DriverInput)
    (result : TrainingResult) : Type 0 where
  pub config : Json
  pub given : Fields
  pub dumped : Fields
  pub imported : work.import_training ≡ ok tt
  pub configured : fields_get value.operation_payload "training_config" ≡ some config
  pub is_dict : work.dict_of config ≡ ok given
  pub trained : (t : Trace) → work.train t given ≡ ok result
  pub written : result.dumped ≡ ok dumped

module _ {Request Plan : Type 0} (services : Services) (work : Work Request Plan)
    (value : DriverInput) (reporter : Reporter) (result : TrainingResult)
    (trains : Trains work value result)
    (takes : TakesCompleted services reporter (training_payload result trains.dumped)) where
  open trains use {config, given, dumped, imported, configured, is_dict, trained, written}

  perform-Gives :
      {A : Type 0} (a : A) (answer : Trace → Result A) (call : Call)
      → ((t : Trace) → answer t ≡ ok a)
      → Gives {S = State} a (perform answer call)
  unfolding perform
  perform-Gives a answer call h = record { gives = λ s. h s.trace }

  -- An informational event, and the rest.
  then-nonterminal :
      (event_type : String) (payload : Fields) (phase : String) (rest : Unit {0} → Action ℕ)
      → Gives 0 (rest tt)
      → Gives {S = State} 0
          (publish_nonterminal services reporter event_type payload phase >>= rest)
  then-nonterminal event_type payload phase rest h =
      bind-Gives tt 0 (publish_nonterminal services reporter event_type payload phase) rest
        (nonterminal-Gives services reporter event_type payload phase) h

  then-lift :
      {A : Type 0} (a : A) (r : Result A) (rest : A → Action ℕ)
      → r ≡ ok a
      → Gives 0 (rest a)
      → Gives {S = State} 0 (lift r >>= rest)
  then-lift a r rest e h = bind-Gives a 0 (lift r) rest (lift-Gives a r e) h

  training-Gives : Gives {S = State} 0 (run_training services work value reporter)
  unfolding run_training
  training-Gives = then-lift tt work.import_training _ imported (
      then-nonterminal "PHASE" (phase_payload "PREPARING") "PREPARING" _ (
        then-nonterminal "LOG" (log_payload "Training driver started") "PREPARING" _ (
          then-nonterminal "PHASE" (phase_payload "EXECUTING") "EXECUTING" _ (
            then-lift config (item_of (fields_get value.operation_payload "training_config")) _
              (rw configured refl)
              (then-lift given (work.dict_of config) _ is_dict (
                bind-Gives result 0 (perform (λ t. work.train t given) (Call.run_workload training))
                  _ (perform-Gives result _ _ trained)
                  (then-lift dumped (serialized result.dumped) _ (rw written refl) (
                    then-nonterminal "METRICS" (metrics_payload dumped) "EXECUTING" _ (
                      then-nonterminal "PHASE" (phase_payload "MATERIALIZING") "MATERIALIZING" _ (
                        bind-Gives tt 0
                          (publish_completed services reporter (training_payload result dumped)) _
                          (completed-Gives services reporter (training_payload result dumped) takes)
                          (pure-Gives 0)))))))))))

-- What `main` does before the workload succeeds: the credential and Ray.
pub record IsPrepared {Request Plan : Type 0} (work : Work Request Plan) (process : Process)
    (value : DriverInput) : Type 0 where
  pub is_training : value.operation_type ≡ training
  pub credential :
      resolve_credential_reference process.files process.env.environ value.credential_ref ≡ ok tt
  pub initialised : (t : Trace) → work.init t ≡ ok tt

-- A training that succeeds ends with exit code 0, whatever Redis does with
-- the informational events: the credential resolves, Ray starts, the workload returns a result that can be
-- written, and the COMPLETED event of this result is not too large and taken by Redis.
pub execute-completes :
    {Request Plan : Type 0} (services : Services) (work : Work Request Plan) (process : Process)
    (value : DriverInput) (submission_id : String) (reporter : Reporter) (result : TrainingResult)
    (s : State)
    → (trains : Trains work value result)
    → TakesCompleted services reporter (training_payload result trains.dumped)
    → IsPrepared work process value
    → (execute services work process value submission_id reporter s).0 ≡ ok 0
unfolding execute run_driver
execute-completes services work process value submission_id reporter result s trains takes
      prepared =
    (try-Gives 0 (run_driver services work process value submission_id reporter)
        (report services work process reporter)
        (then-lift services work value reporter result trains takes tt
          (resolve_credential_reference process.files process.env.environ value.credential_ref) _
          prepared.credential
          (bind-Gives tt 0 (perform work.init Call.init_ray) _
            (perform-Gives services work value reporter result trains takes tt work.init
              Call.init_ray prepared.initialised)
            (rw prepared.is_training
              (training-Gives services work value reporter result trains takes))))).gives
      s
