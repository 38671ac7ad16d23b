-- ===== src/Runtime/Shipped.antt =====
-- The driver input that src/tributo_broker_redis/runtime.py builds, against the validators of the `DriverInput`
-- of src/tributo_broker_redis/protocol.py that the driver applies to it.
use tributo_broker_redis.Base.{
  ℕ, String, ◌≡◌, refl, ap, ◌∙◌, subst, Bool, true, false, not, ◌&&◌, Option, none, some, [], ◌∷◌,
  ◌==◌, if◌then◌else◌, arith, leb, count,
}
use tributo_broker_redis.Json.{
  text, escaped, Json, null, bool, num, str, arr, obj, Fields, fields_get,
}
use tributo_broker_redis.Exec.{ok}
use tributo_broker_redis.Optional.{◌>>=◌, Yields, bind-Yields, some-Yields, require}
use tributo_broker_redis.Patterns.{is_credential_reference, codes, is_field_name}
use tributo_broker_redis.Config.{OperationType, training, batch_inference}
use tributo_broker_redis.Config.Channels.{channel_accepted, identity_field_accepted}
use tributo_broker_redis.Connection.{
  RedisConnectionConfig, reference_accepted, transport_accepted, ray_driver_connection,
}
use tributo_broker_redis.Connection.Driver.{ray_driver_connection-accepted}
use tributo_broker_redis.Protocol.{GenericRequest, DriverInput}
use tributo_broker_redis.Protocol.Contract.{
  driver_fields_accepted, driver_input_accepted, new_driver_input,
}
use tributo_broker_redis.Protocol.Parse.{only_fields, optional_text, as_object, is_literal}
use tributo_broker_redis.Operations.{PreparedOperation}
use tributo_broker_redis.Operations.Prepare.{
  Contracts, Spec, credential_text, validate_training_spec, validate_batch_inference_spec,
  profile_given, prepare_operation,
}
use tributo_broker_redis.Operations.Fits.{IsFor, prepare_operation-IsFor}
use tributo_broker_redis.Runtime.Types.{Setup, channel_of}
use tributo_broker_redis.Runtime.Admission.{driver_fields_of, driver_input_of}

reference_of_text :
    (s : String) (b : Bool) (reference : Option String)
    → is_credential_reference s ≡ b
    → ((if b then some s else none) >>= (λ t. some (some t))) ≡ some reference
    → reference_accepted reference ≡ true
unfolding reference_accepted
reference_of_text s true reference matches h =
    let same : some s ≡ reference = cc in subst (λ r. reference_accepted r ≡ true) same matches
reference_of_text s false reference matches h = cc

reference-accepted :
    (v : Option Json) (reference : Option String)
    → optional_text credential_text v ≡ some reference
    → reference_accepted reference ≡ true
unfolding reference_accepted
reference-accepted none reference h =
    let same : none ≡ reference = cc in subst (λ r. reference_accepted r ≡ true) same refl
reference-accepted (some null) reference h =
    let same : none ≡ reference = cc in subst (λ r. reference_accepted r ≡ true) same refl
reference-accepted (some (str (text s))) reference h =
    reference_of_text s (is_credential_reference s) reference refl h
reference-accepted (some (str (escaped cs))) reference h = cc
reference-accepted (some (bool b)) reference h = cc
reference-accepted (some (num n)) reference h = cc
reference-accepted (some (arr xs)) reference h = cc
reference-accepted (some (obj fs)) reference h = cc

abbrev Refers : Spec → Type 0
Refers spec = reference_accepted spec.credential_ref ≡ true

training-Refers : (spec : Fields) → Yields Refers (validate_training_spec spec)
unfolding validate_training_spec
training-Refers spec =
    bind-Yields (require (only_fields ("algorithm" ∷ "config" ∷ "credential_ref" ∷ []) spec)) _
      (λ _ _. bind-Yields (require (is_literal (fields_get spec "algorithm") "xgboost")) _ (λ _ _.
        bind-Yields (as_object (fields_get spec "config")) _ (λ config _.
          bind-Yields (optional_text credential_text (fields_get spec "credential_ref")) _
            (λ reference given.
              some-Yields _
                (reference-accepted (fields_get spec "credential_ref") reference given)))))

inference-Refers : (spec : Fields) → Yields Refers (validate_batch_inference_spec spec)
unfolding validate_batch_inference_spec
inference-Refers spec =
    bind-Yields (require (only_fields ("profile" ∷ "request" ∷ "credential_ref" ∷ []) spec)) _
      (λ _ _.
        bind-Yields (require (is_literal (some (profile_given spec)) "bundle-backed")) _ (λ _ _.
          bind-Yields (as_object (fields_get spec "request")) _ (λ request _.
            bind-Yields (optional_text credential_text (fields_get spec "credential_ref")) _
              (λ reference given.
                some-Yields _
                  (reference-accepted (fields_get spec "credential_ref") reference given)))))

prepared-accepted :
    (operation_type : OperationType) (contracts : Contracts) (request : GenericRequest)
    (prepared : PreparedOperation)
    → IsFor operation_type contracts request prepared
    → reference_accepted prepared.credential_ref ≡ true
prepared-accepted training contracts request prepared fits =
    ap reference_accepted fits.credential
    ∙ (training-Refers request.spec).holds fits.spec fits.closed
prepared-accepted batch_inference contracts request prepared fits =
    ap reference_accepted fits.credential
    ∙ (inference-Refers request.spec).holds fits.spec fits.closed

first_of_last : (a b c d e f g : Bool) → (a && b && c && d && e && (f && not g)) ≡ true → f ≡ true
first_of_last a b c d e f g h = ground arith

pub driver_fields_of-accepted :
    (contracts : Contracts) (setup : Setup) (request : GenericRequest)
    (operation_type : OperationType) (prepared : PreparedOperation)
    (connection : RedisConnectionConfig) (received_at_ms : ℕ) (deadline_at_ms : Option ℕ)
    → channel_accepted (channel_of setup operation_type) ≡ true
    → prepare_operation contracts request ≡ ok prepared
    → driver_fields_accepted (
        driver_fields_of setup request operation_type prepared connection received_at_ms
          deadline_at_ms)
      ≡ true
unfolding driver_fields_accepted driver_fields_of channel_accepted identity_field_accepted
driver_fields_of-accepted contracts setup request operation_type prepared connection received_at_ms
      deadline_at_ms channel h =
    let named : is_field_name (codes (channel_of setup operation_type).outer_identity_field)
        ≡ true =
      first_of_last (leb 1 (count (channel_of setup operation_type).task_stream_key))
        (leb 1 (count (channel_of setup operation_type).event_stream_prefix))
        (leb 1 (count (channel_of setup operation_type).cancel_key_prefix))
        (leb 1 (count (channel_of setup operation_type).consumer_group))
        (leb 1 (count (channel_of setup operation_type).group_start_id)) _
        ((channel_of setup operation_type).outer_identity_field == "payload") channel in
    rw
      (
        named,
        prepared-accepted request.operation_type contracts request prepared
            (prepare_operation-IsFor contracts request prepared h),
      )
      refl

-- What the runtime ships is accepted on both sides: for an accepted transport and channel and an operation
-- that the default preparer prepared, the connection for the driver can be derived, the constructor of the
-- driver input does not raise, and the driver's validators, those of the connection in it included, accept
-- the input again.
pub driver_input_of-accepted :
    (contracts : Contracts) (setup : Setup) (request : GenericRequest)
    (operation_type : OperationType) (prepared : PreparedOperation) (received_at_ms : ℕ)
    (deadline_at_ms : Option ℕ)
    → transport_accepted setup.tools setup.transport ≡ true
    → channel_accepted (channel_of setup operation_type) ≡ true
    → prepare_operation contracts request ≡ ok prepared
    → (c : RedisConnectionConfig) × ((ray_driver_connection setup.tools setup.transport ≡ ok c)
        × ((value : DriverInput) × ((driver_input_of setup request operation_type prepared c
                  received_at_ms deadline_at_ms
                ≡ ok value)
              × (driver_input_accepted setup.tools value ≡ true))))
unfolding driver_input_of new_driver_input driver_input_accepted
driver_input_of-accepted contracts setup request operation_type prepared received_at_ms
      deadline_at_ms accepted channel h =
    let (c, derived) = ray_driver_connection-accepted setup.tools setup.transport accepted in
    let value =
      driver_fields_of setup request operation_type prepared c received_at_ms deadline_at_ms in
    let fields =
      driver_fields_of-accepted contracts setup request operation_type prepared c received_at_ms
        deadline_at_ms channel h in
    (
      c,
      (
        derived.returned,
        (value, (rw fields refl, unfold driver_fields_of in rw (derived.accepted, fields) refl)),
      ),
    )
