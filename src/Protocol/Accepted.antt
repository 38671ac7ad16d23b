-- ===== src/Protocol/Accepted.antt =====
-- What a request that `parse_request` of src/tributo_broker_redis/protocol.py returns is known to be.
use tributo_broker_redis.Base.{
  String, ◌≡◌, refl, Bool, true, false, Option, none, some, is_some, ◌==◌, if◌then◌else◌,
  eq_of_test, option_or, sym, ◌∙◌, ap, subst,
}
use tributo_broker_redis.Json.{Text, Json, null, bool, num, str, arr, obj, Fields, fields_get}
use tributo_broker_redis.Exec.{
  Result, ok, raised, Exception, protocol_failure, mapping_failure, json_decode_error,
  validation_error, value_error, type_error, timeout_error, response_error, credential_unavailable,
  terminal_event_publication_error, other,
}
use tributo_broker_redis.Optional.{Yields, bind-Yields, some-Yields, require}
use tributo_broker_redis.Config.{
  OperationType, training, batch_inference, type_eq, type_of_name, profile_of_name,
}
use tributo_broker_redis.Protocol.{GenericRequest, protocol_profile, protocol_version}
use tributo_broker_redis.Protocol.Credentials.{UrlTools, credential_path}
use tributo_broker_redis.Protocol.Exposure.{spec_exposes, credential_path-exposes}
use tributo_broker_redis.Protocol.Parse.{
  parse_request, parse_value, parse_object, unless_leaked, aligned, validate_request, is_literal,
  as_object, identity_text, optional_text, text_or, literal, digest_text, only_fields,
  request_fields,
}

type_of_test : (a b : OperationType) → type_eq a b ≡ true → a ≡ b
type_of_test training training h = refl
type_of_test batch_inference batch_inference h = refl
type_of_test training batch_inference h = cc
type_of_test batch_inference training h = cc

-- The request has the identity and the operation type that it was asked for, and its specification is the
-- payload's and exposes no secret.
pub record IsAligned (loads : Text → Result Json) (urls : UrlTools) (raw : Text) (outer : String)
    (expected : OperationType) (request : GenericRequest) : Type 0 where
  pub identity : request.operation_id ≡ outer
  pub operation : request.operation_type ≡ expected
  pub value : Fields
  pub read : loads raw ≡ ok (obj value)
  pub spec : fields_get value "spec" ≡ some (obj request.spec)
  pub sealed : spec_exposes urls request.spec ≡ false

object_of : (v : Option Json) (fs : Fields) → as_object v ≡ some fs → v ≡ some (obj fs)
object_of none fs h = cc
object_of (some (obj gs)) fs h = let same : gs ≡ fs = cc in ap (λ x. some (obj x)) same
object_of (some null) fs h = cc
object_of (some (bool b)) fs h = cc
object_of (some (num n)) fs h = cc
object_of (some (str t)) fs h = cc
object_of (some (arr xs)) fs h = cc

spec-Yields :
    (strip : String → String) (value : Fields)
    → Yields
        (λ request. fields_get value "spec" ≡ some (obj request.spec))
        (validate_request strip value)
unfolding validate_request
spec-Yields strip value = bind-Yields (require (only_fields request_fields value)) _ (λ _ _.
    bind-Yields (require (is_literal (fields_get value "protocol_profile") protocol_profile)) _
      (λ _ _.
        bind-Yields (require (is_literal (fields_get value "protocol_version") protocol_version)) _
          (λ _ _.
            bind-Yields (identity_text strip 256 (option_or (fields_get value "operation_id") null))
              _
              (λ id _.
                bind-Yields (literal type_of_name (fields_get value "operation_type")) _ (λ type _.
                  bind-Yields (literal profile_of_name (fields_get value "execution_profile")) _
                    (λ profile _.
                      bind-Yields
                        (optional_text (identity_text strip 256) (fields_get value "run_id")) _
                        (λ run _.
                          bind-Yields
                            (text_or "attempt-1" (identity_text strip 128)
                              (fields_get value "attempt_id"))
                            _
                            (λ attempt _.
                              bind-Yields
                                (optional_text digest_text (fields_get value "request_digest")) _
                                (λ digest _.
                                  bind-Yields (as_object (fields_get value "spec")) _
                                    (λ spec is_spec.
                                      some-Yields _ (object_of _ spec is_spec)))))))))))

pub if-ok :
    {A : Type 0} (b : Bool) (next : Result A) (e : Exception) (a : A)
    → (if b then next else raised e) ≡ ok a
    → (b ≡ true) × (next ≡ ok a)
if-ok true next e a h = (refl, h)
if-ok false next e a h = cc

aligned-ok :
    (outer : String) (expected : OperationType) (m : Option GenericRequest)
    (request : GenericRequest)
    → aligned outer expected m ≡ ok request
    → (m ≡ some request) × ((request.operation_id ≡ outer) × (request.operation_type ≡ expected))
aligned-ok outer expected none request h = cc
aligned-ok outer expected (some found) request h =
    let (same, h') = if-ok (found.operation_id == outer) _ _ request h in
    let (fits, h'') = if-ok (type_eq found.operation_type expected) _ _ request h' in
    let found_is : found ≡ request = cc in
    (
      ap some found_is,
      subst (λ r. (r.operation_id ≡ outer) × (r.operation_type ≡ expected)) found_is
          (eq_of_test _ _ same, type_of_test _ _ fits),
    )

unless_leaked-ok :
    (leak : Option String) (next : Result GenericRequest) (request : GenericRequest)
    → unless_leaked leak next ≡ ok request
    → (is_some leak ≡ false) × (next ≡ ok request)
unless_leaked-ok none next request h = (refl, h)
unless_leaked-ok (some path) next request h = cc

module _ (urls : UrlTools) (outer : String) (expected : OperationType)
    (strip : String → String) where
  object-IsAligned :
      (loads : Text → Result Json) (raw : Text) (value : Fields) (request : GenericRequest)
      → loads raw ≡ ok (obj value)
      → parse_object strip urls value outer expected ≡ ok request
      → IsAligned loads urls raw outer expected request
  unfolding parse_object
  object-IsAligned loads raw value request read h =
      let (_, h) =
        if-ok (is_literal (fields_get value "protocol_profile") protocol_profile) _ _ request h in
      let (_, h) =
        if-ok (is_literal (fields_get value "protocol_version") protocol_version) _ _ request h in
      let (no_leak, h) = unless_leaked-ok _ _ request h in
      let (valid, (identity, operation)) =
        aligned-ok outer expected (validate_request strip value) request h in
      let spec = (spec-Yields strip value).holds request valid in
      record {
        identity = identity;
        operation = operation;
        value = value;
        read = read;
        spec = spec;
        sealed =
            sym (credential_path-exposes urls request.spec)
            ∙ (ap (λ v. is_some (credential_path urls "spec" (option_or v null))) (sym spec)
                ∙ no_leak);
      }

  value-ok :
      (read : Result Json) (request : GenericRequest)
      → parse_value strip urls read outer expected ≡ ok request
      → (value : Fields) × ((read ≡ ok (obj value))
          × (parse_object strip urls value outer expected ≡ ok request))
  value-ok (ok (obj value)) request h = (value, (refl, h))
  value-ok (ok null) request h = cc
  value-ok (ok (bool b)) request h = cc
  value-ok (ok (num n)) request h = cc
  value-ok (ok (str t)) request h = cc
  value-ok (ok (arr xs)) request h = cc
  value-ok (raised json_decode_error) request h = cc
  value-ok (raised (protocol_failure c m)) request h = cc
  value-ok (raised (mapping_failure c m)) request h = cc
  value-ok (raised validation_error) request h = cc
  value-ok (raised value_error) request h = cc
  value-ok (raised type_error) request h = cc
  value-ok (raised timeout_error) request h = cc
  value-ok (raised (response_error m)) request h = cc
  value-ok (raised credential_unavailable) request h = cc
  value-ok (raised terminal_event_publication_error) request h = cc
  value-ok (raised (other n)) request h = cc

  -- A request that `parse_request` returns has the identity of the envelope and the operation type of
  -- the channel, its specification is that of the JSON object that was read, and exposes no secret: the
  -- only given value under a sensitive key is its own `credential_ref`, and no URL has user data or a
  -- sensitive query item. This holds of every payload, JSON decoder and URL parser.
  pub parse_request-IsAligned :
      (loads : Text → Result Json) (raw : Text) (request : GenericRequest)
      → parse_request loads strip urls raw outer expected ≡ ok request
      → IsAligned loads urls raw outer expected request
  unfolding parse_request
  parse_request-IsAligned loads raw request h =
      let (value, (read, parsed)) = value-ok (loads raw) request h in
      object-IsAligned loads raw value request read parsed
