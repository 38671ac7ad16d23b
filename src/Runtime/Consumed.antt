-- ===== src/Runtime/Consumed.antt =====
-- What the consumers' methods and the outcome of a delivery keep, from what each single effect keeps.
use tributo_broker_redis.Base.{ℕ, String, Option, none, some, List, [], ◌∷◌}
use tributo_broker_redis.Exec.{Exception, Result, timeout_error}
use tributo_broker_redis.Exec.Rules.{Preserves, preserves_rules, pure-Preserves, throw-Preserves}
use tributo_broker_redis.Config.{OperationType, ChannelConfig}
use tributo_broker_redis.Services.{Services, Entry, ClaimPage, Trace, Call}
use tributo_broker_redis.State.{State, Message, set_delivery, Delivery, perform}
use tributo_broker_redis.Consumer
use tributo_broker_redis.Runtime.Types.{Setup, Disposition, channel_of}
use tributo_broker_redis.Runtime.Loop.{recover_channel, apply_disposition}

-- The effects of the consumer of one operation.
pub record IsConsumeStable (operation_type : OperationType) (P : State → Type 0) : Type 0 where
  pub on_read :
      (answer : Trace → Result (List Entry)) (stream group consumer : String) (block : Option ℕ)
      → Preserves P (perform answer (Call.xreadgroup stream group consumer block))
  pub on_claim :
      (answer : Trace → Result ClaimPage) (stream group consumer : String) (min_idle : ℕ)
      (cursor : String) (n : ℕ)
      → Preserves P (perform answer (Call.xautoclaim stream group consumer min_idle cursor n))
  pub on_ack :
      (answer : Trace → Result (Unit {0})) (stream group token : String)
      → Preserves P (perform answer (Call.xack stream group token))
  pub on_delivery : (d : Delivery) (s : State) → P s → P (set_delivery operation_type d s)

module _ {operation_type : OperationType} {P : State → Type 0}
    (stable : IsConsumeStable operation_type P) where
  open stable use {on_read, on_claim, on_ack, on_delivery}

  module _ (services : Services) (setup : Setup) where
    abbrev channel : ChannelConfig
    channel = channel_of setup operation_type

    no_entries-Preserves :
        (e : Exception)
        → Preserves P (Consumer.no_entries services setup.transport channel operation_type e)
    no_entries-Preserves timeout_error = pure-Preserves []
    no_entries-Preserves e = throw-Preserves e

    read_new-Preserves :
        (timeout_ms : ℕ)
        → Preserves P (Consumer.read_new services setup.transport channel operation_type timeout_ms)
    read_new-Preserves timeout_ms =
        unfold Consumer.read_new Consumer.read_group in
        search (preserves_rules, on_read, no_entries-Preserves) depth 9

    take_pending-Preserves :
        (pending : List Message) (cursor : String) (timeout_ms : ℕ)
        → Preserves P (
            Consumer.take_pending services setup.transport channel operation_type pending cursor
              timeout_ms)
    take_pending-Preserves [] cursor timeout_ms = read_new-Preserves timeout_ms
    take_pending-Preserves (message ∷ rest) cursor timeout_ms =
        search (preserves_rules, on_delivery) depth 8

    pub poll-Preserves :
        (timeout_ms : ℕ)
        → Preserves P (Consumer.poll services setup.transport channel operation_type timeout_ms)
    poll-Preserves timeout_ms =
        unfold Consumer.poll in search (preserves_rules, take_pending-Preserves) depth 8

    keep_claimed-Preserves :
        (cursor : String) (claimed : Option (List Entry))
        → Preserves P
            (Consumer.keep_claimed services setup.transport channel operation_type cursor claimed)
    keep_claimed-Preserves cursor none = pure-Preserves 0
    keep_claimed-Preserves cursor (some entries) = search (preserves_rules, on_delivery) depth 8

    keep_page-Preserves :
        (page : ClaimPage)
        → Preserves P (Consumer.keep_page services setup.transport channel operation_type page)
    unfolding Consumer.keep_page
    keep_page-Preserves none = pure-Preserves 0
    keep_page-Preserves (some (cursor, claimed)) =
        search (preserves_rules, on_delivery, keep_claimed-Preserves) depth 8

    claim_if_empty-Preserves :
        (pending : List Message) (cursor : String)
        → Preserves P
            (Consumer.claim_if_empty services setup.transport channel operation_type pending cursor)
    claim_if_empty-Preserves [] cursor =
        unfold Consumer.claim_page in
        search (preserves_rules, on_claim, keep_page-Preserves) depth 8
    claim_if_empty-Preserves (message ∷ rest) cursor = pure-Preserves 0

    pub recover_channel-Preserves : Preserves P (recover_channel services setup operation_type)
    recover_channel-Preserves =
        unfold Consumer.recover_pending in
        search (preserves_rules, claim_if_empty-Preserves) depth 9

    pub apply-Preserves :
        (message : Message) (disposition : Disposition)
        → Preserves P (apply_disposition services setup operation_type message disposition)
    apply-Preserves message Disposition.ack = unfold Consumer.ack in search (on_ack)
    apply-Preserves message Disposition.retry = unfold Consumer.retry in pure-Preserves tt
    apply-Preserves message Disposition.reject = unfold Consumer.reject in search (on_ack)
