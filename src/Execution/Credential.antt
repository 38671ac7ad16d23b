-- ===== src/Execution/Credential.antt =====
-- Ray and the credential reference, in src/tributo_broker_redis/execution_driver.py.
use tributo_broker_redis.Base.{ℕ, String, ◌≡◌, refl, Bool, true, false}
use tributo_broker_redis.Exec.{Exception, raised}
use tributo_broker_redis.Exec.Rules.{Preserves, preserves_rules}
use tributo_broker_redis.Protocol.{DriverInput}
use tributo_broker_redis.Services.{Services, Call}
use tributo_broker_redis.State.{State}
use tributo_broker_redis.State.Counts.{Made, perform-Made, count_calls}
use tributo_broker_redis.Reporter.{Reporter, failed}
use tributo_broker_redis.Reporter.Quiet.{IsQuiet, publish-Preserves}
use tributo_broker_redis.Execution.{resolve_credential_reference}
use tributo_broker_redis.Execution.Workload.{Work, Process, report, run_driver, execute}

abbrev pub is_work : Call → Bool
is_work Call.init_ray = true
is_work (Call.run_workload operation_type) = true
is_work _ = false

work_quiet : (n : ℕ) → IsQuiet (Made is_work n)
work_quiet n = record {
  on_exists = λ answer key. perform-Made is_work n answer (Call.exists key) refl;
  on_xrevrange = λ answer stream k. perform-Made is_work n answer (Call.xrevrange stream k) refl;
  on_xadd =
      λ answer stream f event k. perform-Made is_work n answer (Call.xadd stream f event k) refl;
}

module _ {Request Plan : Type 0} (services : Services) (work : Work Request Plan)
    (process : Process) where
  report-Made :
      (n : ℕ) (reporter : Reporter) (e : Exception)
      → Preserves (Made is_work n) (report services work process reporter e)
  unfolding report failed
  report-Made n reporter e =
      search (preserves_rules, publish-Preserves services (work_quiet n)) depth 8

  execute-refused :
      (value : DriverInput) (submission_id : String) (reporter : Reporter) (e : Exception)
      (s : State)
      → resolve_credential_reference process.files process.env.environ value.credential_ref
        ≡ raised e
      → execute services work process value submission_id reporter s
        ≡ report services work process reporter e s
  unfolding execute run_driver
  execute-refused value submission_id reporter e s h = rw h refl

-- If the credential reference does not resolve, Ray is neither initialised nor given a workload.
pub execute-unavailable :
    {Request Plan : Type 0} (services : Services) (work : Work Request Plan) (process : Process)
    (value : DriverInput) (submission_id : String) (reporter : Reporter) (e : Exception) (s : State)
    → resolve_credential_reference process.files process.env.environ value.credential_ref ≡ raised e
    → count_calls is_work (execute services work process value submission_id reporter s).1.trace
      ≡ count_calls is_work s.trace
execute-unavailable services work process value submission_id reporter e s h =
    rw (execute-refused services work process value submission_id reporter e s h)
      ((report-Made services work process (count_calls is_work s.trace) reporter e).after s refl)
