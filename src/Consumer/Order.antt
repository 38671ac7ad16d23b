-- ===== src/Consumer/Order.antt =====
-- The order in which claimed deliveries are handed out.
use tributo_broker_redis.Base.{
  ℕ, zero, suc, String, ◌≡◌, refl, ap, Option, some, List, [], ◌∷◌, length, map, true,
}
use tributo_broker_redis.Exec.{ok, ◌>>=◌, pure}
use tributo_broker_redis.Config.{OperationType, training, batch_inference, ChannelConfig}
use tributo_broker_redis.Connection.{RedisTransportConfig}
use tributo_broker_redis.Services.{Entry, Services, Call, returned, Trace}
use tributo_broker_redis.State.{State, Message, Delivery, Action, perform, delivery, set_delivery}
use tributo_broker_redis.Consumer.{poll, recover_pending, claim_page, keep_page, messages_of}

module _ (services : Services) (transport : RedisTransportConfig) (channel : ChannelConfig)
    (timeout_ms : ℕ) where
  -- Two assignments of one consumer's fields; the second may depend on the trace.
  set_delivery-set_delivery :
      (operation_type : OperationType) (d : Delivery) (f : Trace → Delivery) (s : State)
      → set_delivery operation_type
          (f (set_delivery operation_type d s).trace)
          (set_delivery operation_type d s)
        ≡ set_delivery operation_type (f s.trace) s
  set_delivery-set_delivery training d f s = refl
  set_delivery-set_delivery batch_inference d f s = refl

  unfoldable pub poll_times : OperationType → ℕ → Action (List (Option Message))
  poll_times operation_type zero = pure []
  poll_times operation_type (suc n) = do
    message ← poll services transport channel operation_type timeout_ms
    rest ← poll_times operation_type n
    pure (message ∷ rest)

  -- Polls hand the kept deliveries out in order, without a call of Redis.
  poll_times-kept :
      (operation_type : OperationType) (messages : List Message) (cursor : String) (s : State)
      → poll_times operation_type (length messages) (
          set_delivery operation_type
            (record { pending_messages = messages; claim_cursor = cursor })
            s)
        ≡ (
          ok (map some messages),
          set_delivery operation_type (record { pending_messages = []; claim_cursor = cursor }) s,
        )
  unfolding poll_times poll
  poll_times-kept training [] cursor s = refl
  poll_times-kept batch_inference [] cursor s = refl
  poll_times-kept training (message ∷ messages) cursor s =
      rw (poll_times-kept training messages cursor s) refl
  poll_times-kept batch_inference (message ∷ messages) cursor s =
      rw (poll_times-kept batch_inference messages cursor s) refl

  module _ (operation_type : OperationType) where
    length-messages_of :
        (now : ℕ) (entries : List Entry)
        → length (messages_of services transport channel operation_type now entries)
          ≡ length entries
    unfolding messages_of
    length-messages_of now [] = refl
    length-messages_of now (entry ∷ entries) = ap suc (length-messages_of now entries)

    -- The state behind the claim of a page.
    abbrev pub claimed_at : String → State → State
    claimed_at cursor s = record s {
      trace =
          returned (
            Call.xautoclaim channel.task_stream_key channel.consumer_group channel.consumer_name
              transport.claim_idle_ms cursor transport.claim_count)
          ∷ s.trace;
    }

    abbrev pub claimed : String → List Entry → State → List Message
    claimed cursor entries s =
        messages_of services transport channel operation_type
          (services.now_ms (claimed_at cursor s).trace) entries

    module _ (before after : String) (entries : List Entry) (s : State)
        (can_claim : services.has_xautoclaim ≡ true)
        (nothing_kept : (delivery operation_type s).pending_messages ≡ [])
        (from_before : (delivery operation_type s).claim_cursor ≡ before)
        (answer : services.xautoclaim s.trace channel.task_stream_key before
          ≡ ok (some (after, some entries))) where
      claim_page-claimed :
          (claim_page services transport channel operation_type before s).1
          ≡ set_delivery operation_type
              (record { pending_messages = claimed before entries s; claim_cursor = after })
              (claimed_at before s)
      unfolding claim_page keep_page perform
      claim_page-claimed = rw answer (
          set_delivery-set_delivery operation_type _
            (λ trace. record {
              pending_messages =
                  messages_of services transport channel operation_type (services.now_ms trace)
                    entries;
              claim_cursor = after;
            })
            (claimed_at before s))

      recover_pending-claimed :
          (recover_pending services transport channel operation_type s).1
          ≡ set_delivery operation_type
              (record { pending_messages = claimed before entries s; claim_cursor = after })
              (claimed_at before s)
      unfolding recover_pending
      recover_pending-claimed = rw (nothing_kept, from_before, can_claim) claim_page-claimed

      -- Each delivery of a claimed page is handed out by the polls that follow, in the order of the page and
      -- before any new one; the next claim goes on behind the page.
      pub poll_times-recover_pending :
          poll_times operation_type
            (length entries)
            (recover_pending services transport channel operation_type s).1
          ≡ (
            ok (map some (claimed before entries s)),
            set_delivery operation_type
                (record { pending_messages = []; claim_cursor = after })
                (claimed_at before s),
          )
      poll_times-recover_pending =
          rw
            (
              recover_pending-claimed,
              ← length-messages_of (services.now_ms (claimed_at before s).trace) entries,
            )
            (poll_times-kept operation_type (claimed before entries s) after (claimed_at before s))
