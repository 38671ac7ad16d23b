-- ===== src/Execution/Once.antt =====
-- How often src/tributo_broker_redis/execution_driver.py runs a workload.
use tributo_broker_redis.Base.{ℕ, zero, suc, ◌+◌, ◌≤◌, String, refl, Bool, true, false, some}
use tributo_broker_redis.Json.{Fields, no_fields, field, num, fields_get}
use tributo_broker_redis.Exec.{Exception, Result, pure, lift, ◌>>=◌, ◌>>◌}
use tributo_broker_redis.Exec.Rules.{
  Preserves, preserves_rules, pure-Preserves, try-Preserves, lift-Preserves,
}
use tributo_broker_redis.Exec.Leads.{Leads, try-Leads, bind-Leads, bind-Leads_last}
use tributo_broker_redis.Config.{OperationType, training, batch_inference}
use tributo_broker_redis.Protocol.{DriverInput}
use tributo_broker_redis.Services.{Services, Call, Trace}
use tributo_broker_redis.State.{State, Action, perform}
use tributo_broker_redis.State.Counts.{Made, perform-Made, count_calls}
use tributo_broker_redis.State.OneMore.{OneMore, one_more, OneMore-Preserves, perform-OneMore}
use tributo_broker_redis.Reporter.{Reporter, failed}
use tributo_broker_redis.Reporter.Quiet.{IsQuiet, publish-Preserves}
use tributo_broker_redis.Runtime.Quiet.{published-Preserves}
use tributo_broker_redis.Execution.{
  resolve_credential_reference, publish_completed, publish_attempts, publish_nonterminal,
}
use tributo_broker_redis.Execution.Workload.{
  Work, Process, InferenceResult, TrainingResult, phase_payload, log_payload, metrics_payload,
  training_payload, serialized, item_of, report, run_training, run_batch_inference, run_operation,
  conclude_inference, run_driver, execute,
}

abbrev pub is_run : Call → Bool
is_run (Call.run_workload operation_type) = true
is_run _ = false

run_quiet : (n : ℕ) → IsQuiet (Made is_run n)
run_quiet n = record {
  on_exists = λ answer key. perform-Made is_run n answer (Call.exists key) refl;
  on_xrevrange = λ answer stream k. perform-Made is_run n answer (Call.xrevrange stream k) refl;
  on_xadd =
      λ answer stream f event k. perform-Made is_run n answer (Call.xadd stream f event k) refl;
}

module _ (services : Services) (reporter : Reporter) (n : ℕ) where
  attempts-Made :
      (attempts : ℕ) (event_type : String) (payload : Fields) (phase : String)
      → Preserves
          (Made is_run n)
          (publish_attempts services reporter attempts event_type payload phase)
  unfolding publish_attempts
  attempts-Made zero event_type payload phase = pure-Preserves tt
  attempts-Made (suc attempts) event_type payload phase =
      try-Preserves _ _
        (published-Preserves services (run_quiet n) reporter event_type payload (some phase))
        (λ e. attempts-Made attempts event_type payload phase)

  nonterminal-Made :
      (event_type : String) (payload : Fields) (phase : String)
      → Preserves (Made is_run n) (publish_nonterminal services reporter event_type payload phase)
  unfolding publish_nonterminal
  nonterminal-Made event_type payload phase = attempts-Made 2 event_type payload phase

  completed-Made :
      (payload : Fields) → Preserves (Made is_run n) (publish_completed services reporter payload)
  completed-Made payload =
      unfold publish_completed in
      search (preserves_rules, published-Preserves services (run_quiet n)) depth 8

module _ {Request Plan : Type 0} (services : Services) (work : Work Request Plan)
    (value : DriverInput) (reporter : Reporter) where
  conclude-Made :
      (n : ℕ) (result : InferenceResult)
      → Preserves (Made is_run n) (conclude_inference services work value reporter result)
  conclude-Made n result =
      unfold conclude_inference failed in
      search
        (
          preserves_rules,
          nonterminal-Made services reporter n,
          completed-Made services reporter n,
          publish-Preserves services (run_quiet n),
        )
        depth 9

  run-Leads :
      {A B : Type 0} (n : ℕ) (answer : Trace → Result A) (call : Call) (f : A → Action B)
      → ((a : A) (k : ℕ) → Preserves (Made is_run k) (f a))
      → Leads (Made is_run n) (OneMore is_run n) (perform answer call >>= f)
  run-Leads n answer call f h =
      bind-Leads_last (perform answer call) f (perform-OneMore is_run n answer call)
        (λ a. OneMore-Preserves is_run n (f a) (h a))

  before-Leads :
      {A B : Type 0} (n : ℕ) (m : Action A) (f : A → Action B)
      → Preserves (Made is_run n) m
      → ((a : A) → Leads (Made is_run n) (OneMore is_run n) (f a))
      → Leads (Made is_run n) (OneMore is_run n) (m >>= f)
  before-Leads n m f = bind-Leads m f (one_more is_run n)

  -- What follows the training.
  abbrev after_training : TrainingResult → Action ℕ
  after_training result = do
    serialized_result ← lift (serialized result.dumped)
    publish_nonterminal services reporter "METRICS" (metrics_payload serialized_result) "EXECUTING"
    publish_nonterminal services reporter "PHASE" (phase_payload "MATERIALIZING") "MATERIALIZING"
    publish_completed services reporter (training_payload result serialized_result)
    pure 0

  trained : (result : TrainingResult) (k : ℕ) → Preserves (Made is_run k) (after_training result)
  trained result k =
      search
        (preserves_rules, nonterminal-Made services reporter k, completed-Made services reporter k)
        depth 9

  phase-Leads :
      {B : Type 0} (n : ℕ) (event_type : String) (payload : Fields) (phase : String)
      (f : Unit {0} → Action B)
      → ((u : Unit {0}) → Leads (Made is_run n) (OneMore is_run n) (f u))
      → Leads
          (Made is_run n)
          (OneMore is_run n)
          (publish_nonterminal services reporter event_type payload phase >>= f)
  phase-Leads n event_type payload phase f =
      before-Leads n (publish_nonterminal services reporter event_type payload phase) f
        (nonterminal-Made services reporter n event_type payload phase)

  lift-Leads :
      {A B : Type 0} (n : ℕ) (r : Result A) (f : A → Action B)
      → ((a : A) → Leads (Made is_run n) (OneMore is_run n) (f a))
      → Leads (Made is_run n) (OneMore is_run n) (lift r >>= f)
  lift-Leads n r f = before-Leads n (lift r) f (lift-Preserves r)

  run_training-Leads :
      (n : ℕ) → Leads (Made is_run n) (OneMore is_run n) (run_training services work value reporter)
  unfolding run_training
  run_training-Leads n = lift-Leads n work.import_training _ (λ _.
      phase-Leads n "PHASE" (phase_payload "PREPARING") "PREPARING" _ (λ _.
        phase-Leads n "LOG" (log_payload "Training driver started") "PREPARING" _ (λ _.
          phase-Leads n "PHASE" (phase_payload "EXECUTING") "EXECUTING" _ (λ _.
            lift-Leads n (item_of (fields_get value.operation_payload "training_config")) _
              (λ config. lift-Leads n (work.dict_of config) _ (λ given.
                run-Leads n (λ t. work.train t given) (Call.run_workload training) after_training
                  trained))))))

  run_batch_inference-Leads :
      (n : ℕ) (submission_id : String)
      → Leads
          (Made is_run n)
          (OneMore is_run n)
          (run_batch_inference services work value reporter submission_id)
  unfolding run_batch_inference
  run_batch_inference-Leads n submission_id = lift-Leads n work.import_inference _ (λ _.
      lift-Leads n (item_of (fields_get value.operation_payload "inference_request")) _ (λ body.
        lift-Leads n (work.validate_request body) _ (λ request.
          phase-Leads n "PHASE" (phase_payload "PREPARING") "PREPARING" _ (λ _.
            phase-Leads n "LOG" (log_payload "Batch inference driver started") "PREPARING" _ (λ _.
              phase-Leads n "PROGRESS" (field "progress" (num "0.0") no_fields) "PREPARING" _ (λ _.
                lift-Leads n (work.resolve request value.run_id value.attempt_id submission_id) _
                  (λ plan. phase-Leads n "PHASE" (phase_payload "EXECUTING") "EXECUTING" _ (λ _.
                    run-Leads n (λ t. work.infer t plan) (Call.run_workload batch_inference)
                      (conclude_inference services work value reporter)
                      (λ result k. conclude-Made k result)))))))))

  run_operation-Leads :
      (n : ℕ) (operation_type : OperationType) (submission_id : String)
      → Leads
          (Made is_run n)
          (OneMore is_run n)
          (run_operation services work value reporter operation_type submission_id)
  run_operation-Leads n training submission_id = run_training-Leads n
  run_operation-Leads n batch_inference submission_id = run_batch_inference-Leads n submission_id

module _ {Request Plan : Type 0} (services : Services) (work : Work Request Plan)
    (process : Process) (n : ℕ) where
  report-Made :
      (reporter : Reporter) (e : Exception)
      → Preserves (Made is_run n) (report services work process reporter e)
  unfolding report failed
  report-Made reporter e =
      search (preserves_rules, publish-Preserves services (run_quiet n)) depth 8

  run_driver-Leads :
      (value : DriverInput) (submission_id : String) (reporter : Reporter)
      → Leads
          (Made is_run n)
          (OneMore is_run n)
          (run_driver services work process value submission_id reporter)
  unfolding run_driver
  run_driver-Leads value submission_id reporter =
      lift-Leads services work value reporter n
        (resolve_credential_reference process.files process.env.environ value.credential_ref) _
        (λ _.
          before-Leads services work value reporter n (perform work.init Call.init_ray) _
            (perform-Made is_run n work.init Call.init_ray refl)
            (λ _.
              run_operation-Leads services work value reporter n value.operation_type
                submission_id))

-- Whatever Redis, Ray and the workload do, one run of the driver runs at most one workload: no exception and
-- no report of one makes it run a second time.
pub runs-execute :
    {Request Plan : Type 0} (services : Services) (work : Work Request Plan) (process : Process)
    (value : DriverInput) (submission_id : String) (reporter : Reporter) (s : State)
    → count_calls is_run (execute services work process value submission_id reporter s).1.trace
      ≤ count_calls is_run s.trace + 1
unfolding execute
runs-execute services work process value submission_id reporter s =
    let n = count_calls is_run s.trace in
    ((try-Leads (run_driver services work process value submission_id reporter)
        (report services work process reporter)
        (run_driver-Leads services work process n value submission_id reporter)
        (λ e.
          OneMore-Preserves is_run n (report services work process reporter e)
            (λ k. report-Made services work process k reporter e))).leads
      s refl).1
