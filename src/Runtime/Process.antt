-- ===== src/Runtime/Process.antt =====
-- What the loop of the process keeps, from what each single effect keeps.
use tributo_broker_redis.Base.{
  ℕ, zero, suc, ◌+◌, ltb, String, Option, none, some, true, false, List, [], ◌∷◌,
}
use tributo_broker_redis.Exec.{Result, gets, modify}
use tributo_broker_redis.Exec.Rules.{
  Preserves, preserves_rules, bind-Preserves, pure-Preserves, gets-Preserves, modify-Preserves,
  if-Preserves,
}
use tributo_broker_redis.Config.{OperationType, training, batch_inference}
use tributo_broker_redis.Services.{ActiveSubmission, RayJob, Services, Trace, Call}
use tributo_broker_redis.State.{State, Message, perform}
use tributo_broker_redis.Cancellation.Stable.{terminal-Preserves}
use tributo_broker_redis.Cancellation.Thread.{start_watcher}
use tributo_broker_redis.Runtime.Types.{Setup}
use tributo_broker_redis.Runtime.Metadata.{recovered_of}
use tributo_broker_redis.Runtime.Recovery.{
  keep_recovered, recover_found, recover_job, recover_jobs, recover_active_submissions,
}
use tributo_broker_redis.Runtime.Loop.{
  operation_at, recover_channel, claim_channels, pending_recovery_interval_ms, recover_pending,
  apply_outcome, finish, serve_channel, run_once, run_rounds, start,
}
use tributo_broker_redis.Runtime.Stable.{IsStable, handle-Preserves}
use tributo_broker_redis.Runtime.Consumed.{
  IsConsumeStable, poll-Preserves, recover_channel-Preserves, apply-Preserves,
}

-- One channel is served.
module _ {P : State → Type 0} (stable : IsStable P)
    (on_channel : (s : State) (n : ℕ) → P s → P (record s { next_channel = n }))
    (services : Services) (setup : Setup) (index : ℕ)
    (consume : IsConsumeStable (operation_at index) P) where
  finish-Preserves : (message : Option Message) → Preserves P (finish services setup index message)
  finish-Preserves none = pure-Preserves false
  finish-Preserves (some message) =
      unfold apply_outcome in
      search
        (
          preserves_rules,
          handle-Preserves services setup stable,
          apply-Preserves consume,
          on_channel,
        )
        depth 9

  pub serve_channel-Preserves :
      (timeout_ms : ℕ) → Preserves P (serve_channel services setup timeout_ms index)
  serve_channel-Preserves timeout_ms =
      unfold serve_channel in
      search (preserves_rules, poll-Preserves consume, finish-Preserves) depth 8

-- The claims of both channels are made.
module _ {P : State → Type 0}
    (on_due : (s : State) (n : ℕ) → P s → P (record s { next_pending_recovery_ms = n }))
    (services : Services) (setup : Setup)
    (first : Preserves P (recover_channel services setup training))
    (second : Preserves P (recover_channel services setup batch_inference)) where
  pub recover_pending-Preserves : Preserves P (recover_pending services setup)
  recover_pending-Preserves =
      unfold recover_pending in
      bind-Preserves (gets (λ s. services.monotonic_ms s.trace)) _ (gets-Preserves _) (λ now.
        bind-Preserves (gets (λ s. s.next_pending_recovery_ms)) _ (gets-Preserves _) (λ due.
          if-Preserves (ltb now due) _ (claim_channels services setup now) (pure-Preserves tt) (
            bind-Preserves
              (modify
                (λ s. record s { next_pending_recovery_ms = now + pending_recovery_interval_ms }))
              _ (modify-Preserves _ (λ s. on_due s (now + pending_recovery_interval_ms)))
              (λ _.
                bind-Preserves (recover_channel services setup training) _ first (λ _. second)))))

-- Every single effect of the loop but the end of the process.
pub record IsProcessStable (P : State → Type 0) : Type 0 where
  pub stable : IsStable P
  pub consume : (operation : OperationType) → IsConsumeStable operation P
  pub on_list :
      (answer : Trace → Result (List RayJob)) (url : String)
      → Preserves P (perform answer (Call.list_jobs url))
  pub on_channel : (s : State) (n : ℕ) → P s → P (record s { next_channel = n })
  pub on_due : (s : State) (n : ℕ) → P s → P (record s { next_pending_recovery_ms = n })
  pub on_started : (s : State) → P s → P (record s { started = true })
  pub on_thread : (s : State) → P s → P (record s { watcher = record s.watcher { running = true } })

module _ {P : State → Type 0} (process : IsProcessStable P) where
  open process use {stable, consume, on_list, on_channel, on_due, on_started, on_thread}

  module _ (services : Services) (setup : Setup) where
    start_watcher-Preserves : Preserves P start_watcher
    start_watcher-Preserves = unfold start_watcher in search (preserves_rules, on_thread) depth 8

    claimed-Preserves : Preserves P (recover_pending services setup)
    claimed-Preserves =
        recover_pending-Preserves on_due services setup
          (recover_channel-Preserves (consume training) services setup)
          (recover_channel-Preserves (consume batch_inference) services setup)

    served-Preserves :
        (timeout_ms index : ℕ) → Preserves P (serve_channel services setup timeout_ms index)
    served-Preserves timeout_ms index =
        serve_channel-Preserves stable on_channel services setup index
          (consume (operation_at index)) timeout_ms

    pub run_once-Preserves :
        (timeout_ms : Option ℕ) → Preserves P (run_once services setup timeout_ms)
    run_once-Preserves timeout_ms =
        unfold run_once in search (preserves_rules, claimed-Preserves, served-Preserves) depth 9

    keep_recovered-Preserves :
        (item : ActiveSubmission) (known : Option ActiveSubmission)
        → Preserves P (keep_recovered setup services item known)
    keep_recovered-Preserves item (some known) = pure-Preserves tt
    keep_recovered-Preserves item none =
        search
          (
            preserves_rules,
            stable.on_put,
            stable.on_remove,
            terminal-Preserves services stable.quiet,
          )
          depth 9

    recover_found-Preserves :
        (found : Option ActiveSubmission) → Preserves P (recover_found setup services found)
    recover_found-Preserves none = pure-Preserves tt
    recover_found-Preserves (some item) = search (preserves_rules, keep_recovered-Preserves) depth 8

    recover_job-Preserves : (job : RayJob) → Preserves P (recover_job setup services job)
    unfolding recover_job
    recover_job-Preserves job = recover_found-Preserves (recovered_of setup job)

    recover_jobs-Preserves : (jobs : List RayJob) → Preserves P (recover_jobs setup services jobs)
    unfolding recover_jobs
    recover_jobs-Preserves [] = pure-Preserves tt
    recover_jobs-Preserves (job ∷ jobs) =
        bind-Preserves _ _ (recover_job-Preserves job) (λ _. recover_jobs-Preserves jobs)

    pub start-Preserves : Preserves P (start services setup)
    start-Preserves =
        unfold start recover_active_submissions in
        search
          (
            preserves_rules, on_list, start_watcher-Preserves, on_started, recover_jobs-Preserves,
            claimed-Preserves,
          )
          depth 9

    pub run_rounds-Preserves : (rounds : ℕ) → Preserves P (run_rounds services setup rounds)
    unfolding run_rounds
    run_rounds-Preserves zero = pure-Preserves tt
    run_rounds-Preserves (suc rounds) =
        bind-Preserves _ _ (gets-Preserves (λ s. s.closed)) (λ closed.
          if-Preserves closed _ _ (pure-Preserves tt)
            (bind-Preserves _ _ (run_once-Preserves none) (λ _. run_rounds-Preserves rounds)))
