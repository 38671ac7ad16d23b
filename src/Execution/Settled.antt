-- ===== src/Execution/Settled.antt =====
-- The exit code of src/tributo_broker_redis/execution_driver.py and the terminal events that Redis took.
use tributo_broker_redis.Base.{ℕ, suc, String, refl}
use tributo_broker_redis.Json.{Fields}
use tributo_broker_redis.Exec.{Exception, pure, ◌>>◌}
use tributo_broker_redis.Exec.Rules.{lift-Preserves}
use tributo_broker_redis.Exec.Ends.{Ends, After, pure-Ends, if-Ends, try-Ends, bind-Ends, then-Ends}
use tributo_broker_redis.Config.{OperationType, training, batch_inference}
use tributo_broker_redis.Protocol.{DriverInput}
use tributo_broker_redis.Services.{Services, Event}
use tributo_broker_redis.State.{State}
use tributo_broker_redis.State.Delivered.{Has, delivered, perform-Has}
use tributo_broker_redis.Reporter.{Reporter, failed}
use tributo_broker_redis.Execution.{publish_completed}
use tributo_broker_redis.Execution.Workload.{
  Work, Process, InferenceResult, run_training, conclude_inference, run_batch_inference,
  run_operation, report, error_code_of, error_type_of, phase_of, run_driver, execute,
}
use tributo_broker_redis.Execution.Events.{publish_completed-Ends, failed-Ends, nonterminal-Has}

-- What an exit code stands for: one COMPLETED and no FAILED, or one FAILED and no COMPLETED, more than the
-- `c` and `f` before.
pub data IsSettled (c f : ℕ) : ℕ → State → Type 0 where
  completed : (s : State) → Has (suc c) f s → IsSettled c f 0 s
  failed_once : (s : State) → Has c (suc f) s → IsSettled c f 1 s

ruleset ends_rules = (bind-Ends, nonterminal-Has, lift-Preserves, perform-Has)

module _ {Request Plan : Type 0} (services : Services) (work : Work Request Plan)
    (reporter : Reporter) (c f : ℕ) where
  completed-Ends :
      (payload : Fields)
      → Ends
          (Has c f)
          (IsSettled c f)
          (Has c f)
          (publish_completed services reporter payload >> pure 0)
  completed-Ends payload =
      then-Ends (λ _. Has (suc c) f) (publish_completed services reporter payload) _
        (publish_completed-Ends services reporter c f payload)
        (λ _. pure-Ends 0 (λ s q. completed s q))

  failed-IsSettled :
      (code error_type phase message : String)
      → Ends
          (Has c f)
          (IsSettled c f)
          (Has c f)
          (◌>>◌ {A = Event} (failed services reporter code error_type phase message) (pure 1))
  failed-IsSettled code error_type phase message =
      then-Ends (λ _. Has c (suc f)) (failed services reporter code error_type phase message) _
        (failed-Ends services reporter c f code error_type phase message)
        (λ _. pure-Ends 1 (λ s q. failed_once s q))

  training-Ends :
      (value : DriverInput)
      → Ends (Has c f) (IsSettled c f) (Has c f) (run_training services work value reporter)
  unfolding run_training
  training-Ends value = search (ends_rules, completed-Ends) depth 16

  conclude-Ends :
      (value : DriverInput) (result : InferenceResult)
      → Ends
          (Has c f)
          (IsSettled c f)
          (Has c f)
          (conclude_inference services work value reporter result)
  unfolding conclude_inference
  conclude-Ends value result =
      search (ends_rules, if-Ends, completed-Ends, failed-IsSettled) depth 12

  batch-Ends :
      (value : DriverInput) (submission_id : String)
      → Ends
          (Has c f)
          (IsSettled c f)
          (Has c f)
          (run_batch_inference services work value reporter submission_id)
  unfolding run_batch_inference
  batch-Ends value submission_id = search (ends_rules, conclude-Ends) depth 16

  operation-Ends :
      (value : DriverInput) (operation_type : OperationType) (submission_id : String)
      → Ends
          (Has c f)
          (IsSettled c f)
          (Has c f)
          (run_operation services work value reporter operation_type submission_id)
  operation-Ends value training submission_id = training-Ends value
  operation-Ends value batch_inference submission_id = batch-Ends value submission_id

module _ {Request Plan : Type 0} (services : Services) (work : Work Request Plan)
    (process : Process) (reporter : Reporter) (c f : ℕ) where
  report-Ends :
      (e : Exception)
      → Ends (Has c f) (IsSettled c f) (Has c f) (report services work process reporter e)
  unfolding report
  report-Ends e =
      failed-IsSettled services work reporter c f (error_code_of e) (error_type_of e) (phase_of e)
        "operation failed"

  run_driver-Ends :
      (value : DriverInput) (submission_id : String)
      → Ends
          (Has c f)
          (IsSettled c f)
          (Has c f)
          (run_driver services work process value submission_id reporter)
  unfolding run_driver
  run_driver-Ends value submission_id =
      search (ends_rules, operation-Ends services work reporter c f) depth 8

  pub execute-Ends :
      (value : DriverInput) (submission_id : String)
      → Ends
          (Has c f)
          (IsSettled c f)
          (Has c f)
          (execute services work process value submission_id reporter)
  unfolding execute
  execute-Ends value submission_id =
      try-Ends (Has c f) (run_driver services work process value submission_id reporter)
        (report services work process reporter) (run_driver-Ends value submission_id) report-Ends

-- What ends the process and what Redis has taken agree, whatever Redis, Ray and the workload do. From `c`
-- COMPLETED and `f` FAILED events: with exit code 0 exactly one COMPLETED more and no FAILED; with exit code
-- 1 exactly one FAILED more and no COMPLETED; and if the try statement raises, none of either. There is no
-- other exit code.
pub execute-IsSettled :
    {Request Plan : Type 0} (services : Services) (work : Work Request Plan) (process : Process)
    (value : DriverInput) (submission_id : String) (reporter : Reporter) (s : State)
    → After
        (IsSettled (delivered "COMPLETED" s) (delivered "FAILED" s))
        (Has (delivered "COMPLETED" s) (delivered "FAILED" s))
        (execute services work process value submission_id reporter s).0
        (execute services work process value submission_id reporter s).1
execute-IsSettled services work process value submission_id reporter s =
    (execute-Ends services work process reporter (delivered "COMPLETED" s) (delivered "FAILED" s)
        value submission_id).ends
      s (refl, refl)
