-- ===== src/Consumer.antt =====
-- src/tributo_broker_redis/consumer.py: the deliveries of one operation's channel. The two ways of
-- `poll` and `recover_pending` to make a call (raw, or by the client's method) are one call here.
mod Envelope
pub mod Order
pub mod Group
unfoldable pub use Envelope.{
  message_of, decode, decoded_fields, envelope_ok, identity_of, encoded_size,
}
use tributo_broker_redis.Base.{
  ℕ, zero, suc, String, Option, none, some, List, [], ◌∷◌, ltb, length, if◌then◌else◌, map,
}
use tributo_broker_redis.Json.{text}
use tributo_broker_redis.Exec.{
  Exception, ok, raised, timeout_error, ◌>>=◌, ◌>>◌, pure, throw, gets, modify, try_except,
}
use tributo_broker_redis.Config.{OperationType, ChannelConfig}
use tributo_broker_redis.Connection.{RedisTransportConfig}
use tributo_broker_redis.Services.{Entry, ClaimPage, Services, Call}
use tributo_broker_redis.State.{State, Message, Delivery, Action, perform, delivery, set_delivery}

-- Each delivery is read by the clock after the call that brought it.
unfoldable pub messages_of :
    Services → RedisTransportConfig → ChannelConfig → OperationType → ℕ → List Entry → List Message
unfolding message_of
messages_of services transport channel operation_type now [] = []
messages_of services transport channel operation_type now (entry ∷ entries) =
    message_of services transport channel operation_type now entry
    ∷ messages_of services transport channel operation_type now entries

module _ (services : Services) (transport : RedisTransportConfig) (channel : ChannelConfig)
    (operation_type : OperationType) where
  abbrev block_of : ℕ → Option ℕ
  block_of timeout_ms = if ltb 0 timeout_ms then some timeout_ms else none

  -- `except TimeoutError: return None`
  abbrev pub no_entries : Exception → Action (List Entry)
  no_entries timeout_error = pure []
  no_entries e = throw e

  unfoldable pub read_group : ℕ → Action (List Entry)
  unfolding perform
  read_group timeout_ms =
      try_except
        (perform (λ t. services.xreadgroup t channel.task_stream_key (block_of timeout_ms))
          (Call.xreadgroup channel.task_stream_key channel.consumer_group channel.consumer_name
            (block_of timeout_ms)))
        no_entries

  abbrev pub first_message : ℕ → List Entry → Option Message
  first_message now [] = none
  first_message now (entry ∷ _) =
      some (message_of services transport channel operation_type now entry)

  unfoldable pub read_new : ℕ → Action (Option Message)
  unfolding read_group message_of
  read_new timeout_ms = do
    entries ← read_group timeout_ms
    now ← gets (λ s. services.now_ms s.trace)
    pure (first_message now entries)

  -- `self._pending_messages.pop(0)`
  abbrev pub take_pending : List Message → String → ℕ → Action (Option Message)
  take_pending [] cursor timeout_ms = read_new timeout_ms
  take_pending (message ∷ rest) cursor timeout_ms = do
    modify (set_delivery operation_type (record { pending_messages = rest; claim_cursor = cursor }))
    pure (some message)

  unfoldable pub poll : ℕ → Action (Option Message)
  unfolding read_new
  poll timeout_ms = do
    d ← gets (delivery operation_type)
    take_pending d.pending_messages d.claim_cursor timeout_ms

  unfoldable pub ack : Message → Action (Unit {0})
  unfolding perform
  ack message =
      perform (λ t. services.xack t channel.task_stream_key message.delivery_token)
        (Call.xack channel.task_stream_key channel.consumer_group message.delivery_token)

  -- `retry` only logs: the delivery stays pending in the group.
  unfoldable pub retry : Message → Action (Unit {0})
  retry message = pure tt

  unfoldable pub reject : Message → Action (Unit {0})
  unfolding ack
  reject message = ack message

  -- The entries of the page; `none` is what is no list.
  abbrev pub keep_claimed : String → Option (List Entry) → Action ℕ
  keep_claimed cursor none = pure 0
  keep_claimed cursor (some entries) = do
    now ← gets (λ s. services.now_ms s.trace)
    modify (λ s.
        set_delivery operation_type
          (record {
            pending_messages = messages_of services transport channel operation_type now entries;
            claim_cursor = cursor;
          })
          s)
    pure (length entries)

  -- The lines behind the claim: the cursor, then the page. `none` is an answer of another shape.
  unfoldable pub keep_page : ClaimPage → Action ℕ
  unfolding messages_of
  keep_page none = pure 0
  keep_page (some (cursor, claimed)) = do
    modify (λ s.
        set_delivery operation_type
          (record {
            pending_messages = (delivery operation_type s).pending_messages;
            claim_cursor = cursor;
          })
          s)
    keep_claimed cursor claimed

  unfoldable pub claim_page : String → Action ℕ
  unfolding perform keep_page
  claim_page cursor = do
    page ←
        perform (λ t. services.xautoclaim t channel.task_stream_key cursor)
          (Call.xautoclaim channel.task_stream_key channel.consumer_group channel.consumer_name
            transport.claim_idle_ms cursor transport.claim_count)
    keep_page page

  abbrev pub claim_if_empty : List Message → String → Action ℕ
  claim_if_empty (message ∷ rest) cursor = pure 0
  claim_if_empty [] cursor = if services.has_xautoclaim then claim_page cursor else pure 0

  unfoldable pub recover_pending : Action ℕ
  unfolding claim_page
  recover_pending = do
    d ← gets (delivery operation_type)
    claim_if_empty d.pending_messages d.claim_cursor
