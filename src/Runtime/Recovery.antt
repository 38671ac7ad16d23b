-- ===== src/Runtime/Recovery.antt =====
-- `_recover_active_submissions` of src/tributo_broker_redis/runtime.py.
use tributo_broker_redis.Base.{Option, none, some, List, [], ◌∷◌, if◌then◌else◌}
use tributo_broker_redis.Exec.{◌>>=◌, ◌>>◌, pure, gets, modify}
use tributo_broker_redis.Services.{RayJob, ActiveSubmission, Services, Call}
use tributo_broker_redis.State.{Action, perform}
use tributo_broker_redis.Cancellation.{
  put_active, get_active, remove_active, terminal_event_published,
}
use tributo_broker_redis.Runtime.Types.{Setup}
use tributo_broker_redis.Runtime.Metadata.{recovered_of}

module _ (setup : Setup) where
  -- A job whose operation is already known is ignored.
  abbrev pub keep_recovered :
      Services → ActiveSubmission → Option ActiveSubmission → Action (Unit {0})
  keep_recovered services item (some known) = pure tt
  keep_recovered services item none = do
    modify (λ s. record s { active = put_active s.active item })
    ended ← terminal_event_published services item
    if ended
        then modify (λ s. record s { active = remove_active s.active item.operation_id })
        else pure tt

  abbrev pub recover_found : Services → Option ActiveSubmission → Action (Unit {0})
  recover_found services none = pure tt
  recover_found services (some item) = do
    known ← gets (λ s. get_active s.active item.operation_id)
    keep_recovered services item known

  unfoldable pub recover_job : Services → RayJob → Action (Unit {0})
  unfolding recovered_of put_active get_active remove_active terminal_event_published
  recover_job services job = recover_found services (recovered_of setup job)

  unfoldable pub recover_jobs : Services → List RayJob → Action (Unit {0})
  unfolding recover_job
  recover_jobs services [] = pure tt
  recover_jobs services (job ∷ jobs) = do recover_job services job; recover_jobs services jobs

  unfoldable pub recover_active_submissions : Services → Action (Unit {0})
  unfolding recover_jobs perform
  recover_active_submissions services = do
    jobs ← perform services.list_jobs (Call.list_jobs setup.execution.ray_dashboard_url)
    recover_jobs services jobs
