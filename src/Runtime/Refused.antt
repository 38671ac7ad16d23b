-- ===== src/Runtime/Refused.antt =====
-- Deliveries that are no valid request.
use tributo_broker_redis.Base.{
  String, ◌≡◌, ◌≢◌, refl, false, Option, none, some, test_of_ne, truthy,
}
use tributo_broker_redis.Json.{Text}
use tributo_broker_redis.Exec.{Result, ok, raised, protocol_failure, lift, pure, try_except, ◌>>◌}
use tributo_broker_redis.Config.{OperationType, ExecutionProfile, single_worker}
use tributo_broker_redis.Services.{Services}
use tributo_broker_redis.State.{State, Message, perform}
use tributo_broker_redis.Runtime.Types.{Setup, TaskOutcome, acked_with}
use tributo_broker_redis.Runtime.Reports.{invalid, invalid_default}
use tributo_broker_redis.Runtime.Handle.{
  handle, early_cancel, is_marked, envelope_stage, parse_stage, raw_of,
}
use tributo_broker_redis.Runtime.Marked.{key_of}

module _ (services : Services) (setup : Setup) (message : Message) where
  reported :
      (r : Result (Unit {0})) (outcome : TaskOutcome) (s : State)
      → (◌>>◌ (try_except (lift r) (λ _. pure tt)) (pure outcome) s).0 ≡ ok outcome
  reported (ok _) outcome s = refl
  reported (raised e) outcome s = refl

  invalid-acked :
      (operation_type : OperationType) (code text : String) (profile : ExecutionProfile)
      (run_id : Option String) (attempt_id : String) (s : State)
      → (invalid services setup message operation_type code text profile run_id attempt_id s).0
        ≡ ok (acked_with code text)
  unfolding invalid
  invalid-acked operation_type code text profile run_id attempt_id s = reported _ _ _

  -- A delivery with no cancel key and a sound envelope, whose payload the parser refuses, is acknowledged
  -- with the parser's code, whether the FAILED event could be published or not: it does not come back.
  pub handle-refused :
      (s : State) (raw : Text) (code text : String)
      → message.metadata.outer_operation_id ≢ ""
      → services.exists s.trace (key_of setup message) ≡ ok false
      → truthy message.metadata.encoding_error ≡ false
      → truthy message.metadata.envelope_error ≡ false
      → truthy message.metadata.payload_error ≡ false
      → raw_of message.payload ≡ some raw
      → setup.request_parser raw message.metadata.outer_operation_id message.metadata.operation_type
        ≡ raised (protocol_failure code text)
      → (handle services setup message s).0 ≡ ok (acked_with code text)
  unfolding handle early_cancel is_marked perform envelope_stage parse_stage invalid_default
  handle-refused s raw code text named unmarked encoded envelope sized is_raw refused =
      rw
        (
          test_of_ne message.metadata.outer_operation_id "" named,
          unmarked,
          encoded,
          envelope,
          sized,
          is_raw,
          refused,
        )
        (invalid-acked message.metadata.operation_type code text single_worker none "attempt-1" _)
