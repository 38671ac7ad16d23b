-- ===== src/Runtime/Marked.antt =====
-- A delivery whose operation has a cancel key, or whose key cannot be asked for.
use tributo_broker_redis.Base.{
  ◌∙◌, String, Option, none, ◌≡◌, refl, ◌≢◌, true, some, test_of_ne, ◌∷◌,
}
use tributo_broker_redis.Exec.{Exception, Result, ok, raised, ◌>>=◌, ◌>>◌, pure, lift, try_except}
use tributo_broker_redis.Json.{field, no_fields, json_str}
use tributo_broker_redis.Config.{cancel_key, single_worker}
use tributo_broker_redis.Reporter.{publish}
use tributo_broker_redis.Runtime.Reports.{new_runtime_reporter, published}
use tributo_broker_redis.Services.{ActiveSubmission, Event, Services, Call, failed, returned}
use tributo_broker_redis.State.{State, Message, Action, perform}
use tributo_broker_redis.Cancellation.{get_active}
use tributo_broker_redis.Runtime.Types.{Setup, channel_of, TaskOutcome, acked}
use tributo_broker_redis.Runtime.Handle.{
  queued_payload, handle, early_cancel, is_marked, check_unavailable, report_unless, otherwise,
}

abbrev pub key_of : Setup → Message → String
key_of setup message =
    cancel_key (channel_of setup message.metadata.operation_type)
      message.metadata.outer_operation_id

module _ (services : Services) (setup : Setup) (message : Message) (s : State)
    (named : message.metadata.outer_operation_id ≢ "") where
  -- A cancellation's outcome is the delivery's.
  answered :
      (r : Result (Unit {0})) (s' : State) (next : Action TaskOutcome)
      → ◌>>=◌
          (try_except (lift r >> pure (some acked)) (λ _. pure (some check_unavailable)))
          (λ known. otherwise services setup message known next)
          s'
        ≡ try_except (lift r >> pure acked) (λ _. pure check_unavailable) s'
  answered (ok _) s' next = refl
  answered (raised e) s' next = refl

  -- If Redis cannot be asked for the cancel key, the delivery is left for a retry and nothing else is
  -- done: the state is as it was but for the failed question.
  pub handle-unasked :
      (e : Exception)
      → services.exists s.trace (key_of setup message) ≡ raised e
      → handle services setup message s ≡ (
        ok check_unavailable,
        record s { trace = failed (Call.exists (key_of setup message)) ∷ s.trace },
      )
  unfolding handle early_cancel is_marked perform
  handle-unasked e down = rw (test_of_ne message.metadata.outer_operation_id "" named, down)

  -- What a cancel key makes of a delivery: nothing but an ACK if its operation has an active submission;
  -- else the event CANCELLED in the name of the operation's first attempt, and an ACK if that was
  -- published.
  abbrev pub marked_ends : Option ActiveSubmission → Action TaskOutcome
  marked_ends (some existing) = pure acked
  marked_ends none =
      try_except
        (do
          _ ←
              publish services
                (new_runtime_reporter setup message.metadata.outer_operation_id
                  message.metadata.operation_type single_worker message.metadata.outer_operation_id
                  "attempt-1" none)
                "CANCELLED" (field "reason" (json_str "cancelled before admission") no_fields)
                (some "QUEUED")
          pure acked)
        (λ _. pure check_unavailable)

  published_then :
      (r : Result Event) (s' : State)
      → try_except ((lift r >>= λ _. pure tt) >> pure acked) (λ _. pure check_unavailable) s'
        ≡ try_except (lift r >>= λ _. pure acked) (λ _. pure check_unavailable) s'
  published_then (ok event) s' = refl
  published_then (raised e) s' = refl

  reported :
      (existing : Option ActiveSubmission) (s' : State)
      → try_except
          (report_unless services setup message existing >> pure acked)
          (λ _. pure check_unavailable)
          s'
        ≡ marked_ends existing s'
  unfolding published
  reported (some existing) s' = refl
  reported none s' =
      let (r, t) =
        publish services
          (new_runtime_reporter setup message.metadata.outer_operation_id
            message.metadata.operation_type single_worker message.metadata.outer_operation_id
            "attempt-1" none)
          "CANCELLED" queued_payload (some "QUEUED") s' in
      published_then r t

  -- If there is a cancel key, the delivery is answered before its payload is read, however malformed that
  -- is: with an active submission it is acknowledged at once, and nothing is published; else CANCELLED is
  -- published first, and the delivery is left for a retry if that fails.
  pub handle-marked :
      services.exists s.trace (key_of setup message) ≡ ok true
      → handle services setup message s
        ≡ marked_ends
            (get_active s.active message.metadata.outer_operation_id)
            (record s { trace = returned (Call.exists (key_of setup message)) ∷ s.trace })
  unfolding handle early_cancel is_marked perform
  handle-marked marked =
      rw (test_of_ne message.metadata.outer_operation_id "" named, marked)
        (let existing = get_active s.active message.metadata.outer_operation_id in
          let asked = record s {
            trace = returned (Call.exists (key_of setup message)) ∷ s.trace;
          } in
          let (r, s') = report_unless services setup message existing asked in
          answered r s' _ ∙ reported existing asked)
