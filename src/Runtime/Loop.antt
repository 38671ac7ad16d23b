-- ===== src/Runtime/Loop.antt =====
-- The consume loop of src/tributo_broker_redis/runtime.py.
use tributo_broker_redis.Base.{
  ℕ, zero, suc, ◌+◌, ◌/◌, ◌%◌, Bool, true, false, Option, none, some, ltb, if◌then◌else◌,
}
use tributo_broker_redis.Exec.{◌>>=◌, ◌>>◌, pure, gets, modify, try_except}
use tributo_broker_redis.Config.{OperationType, training, batch_inference}
use tributo_broker_redis.Services.{Services, Call}
use tributo_broker_redis.State.{Message, Action, perform}
use tributo_broker_redis.Consumer
use tributo_broker_redis.Cancellation.Thread.{start_watcher, stop_watcher}
use tributo_broker_redis.Runtime.Types.{Setup, channel_of, TaskOutcome, Disposition}
use tributo_broker_redis.Runtime.Handle.{handle}
use tributo_broker_redis.Runtime.Recovery.{recover_active_submissions}

-- `_PENDING_RECOVERY_INTERVAL_SECONDS`, in milliseconds.
abbrev pub pending_recovery_interval_ms : ℕ
pending_recovery_interval_ms = 1000

-- `operations[index]`
abbrev pub operation_at : ℕ → OperationType
operation_at zero = training
operation_at (suc _) = batch_inference

module _ (services : Services) (setup : Setup) where
  abbrev pub recover_channel : OperationType → Action (Unit {0})
  recover_channel operation_type =
      try_except
        (do
          _ ←
              Consumer.recover_pending services setup.transport (channel_of setup operation_type)
                operation_type
          pure tt)
        (λ _. pure tt)

  abbrev pub claim_channels : ℕ → Action (Unit {0})
  claim_channels now = do
    modify (λ s. record s { next_pending_recovery_ms = now + pending_recovery_interval_ms })
    recover_channel training
    recover_channel batch_inference

  -- At most one page for each channel in each interval.
  unfoldable pub recover_pending : Action (Unit {0})
  unfolding Consumer.recover_pending
  recover_pending = do
    now ← gets (λ s. services.monotonic_ms s.trace)
    due ← gets (λ s. s.next_pending_recovery_ms)
    if ltb now due then pure tt else claim_channels now

  abbrev pub apply_disposition : OperationType → Message → Disposition → Action (Unit {0})
  apply_disposition operation_type message Disposition.ack =
      Consumer.ack services setup.transport (channel_of setup operation_type) operation_type message
  apply_disposition operation_type message Disposition.retry =
      Consumer.retry services setup.transport (channel_of setup operation_type) operation_type
        message
  apply_disposition operation_type message Disposition.reject =
      Consumer.reject services setup.transport (channel_of setup operation_type) operation_type
        message

  unfoldable pub apply_outcome : OperationType → Message → TaskOutcome → Action (Unit {0})
  unfolding Consumer.ack Consumer.retry Consumer.reject
  apply_outcome operation_type message outcome =
      apply_disposition operation_type message outcome.disposition

  abbrev pub finish : ℕ → Option Message → Action Bool
  finish index none = pure false
  finish index (some message) = do
    outcome ← handle services setup message
    apply_outcome (operation_at index) message outcome
    modify (λ s. record s { next_channel = (index + 1) % 2 })
    pure true

  -- The body of the loop over the channels: `false` is `continue`.
  unfoldable pub serve_channel : ℕ → ℕ → Action Bool
  unfolding Consumer.poll handle apply_outcome
  serve_channel timeout_ms index = do
    let operation_type = operation_at index
    message ←
        Consumer.poll services setup.transport (channel_of setup operation_type) operation_type
          timeout_ms
    finish index message

  unfoldable pub channel_timeout : Option ℕ → ℕ
  channel_timeout none = setup.transport.block_ms
  channel_timeout (some timeout_ms) = timeout_ms / 2

  unfoldable pub run_once : Option ℕ → Action Bool
  unfolding recover_pending serve_channel channel_timeout
  run_once timeout_ms = do
    recover_pending
    next ← gets (λ s. s.next_channel)
    served ← serve_channel (channel_timeout timeout_ms) (next % 2)
    if served then pure true else do serve_channel (channel_timeout timeout_ms) ((next + 1) % 2)

  unfoldable pub start : Action (Unit {0})
  unfolding recover_active_submissions recover_pending start_watcher
  start = do
    started ← gets (λ s. s.started)
    if started then pure tt else do
      recover_active_submissions setup services
      recover_pending
      start_watcher
      modify (λ s. record s { started = true })

  -- A client may have no `close`.
  unfoldable pub close_client : Action (Unit {0})
  unfolding perform
  close_client =
      if services.has_close then perform services.close_client Call.close_client else pure tt

  -- The flag stands before the client is closed, which may raise.
  abbrev pub close_now : Action (Unit {0})
  close_now = do modify (λ s. record s { closed = true }); stop_watcher; close_client

  unfoldable pub close : Action (Unit {0})
  unfolding stop_watcher close_client
  close = do closed ← gets (λ s. s.closed); if closed then pure tt else close_now

  -- `run_forever`, for the rounds that it makes before `close` is called.
  unfoldable pub run_rounds : ℕ → Action (Unit {0})
  unfolding run_once
  run_rounds zero = pure tt
  run_rounds (suc rounds) = do
    closed ← gets (λ s. s.closed)
    let rest = run_rounds rounds
    if closed then pure tt else do run_once none; rest
