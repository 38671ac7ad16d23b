-- ===== src/Consumer/Envelope.antt =====
-- `_decode` and `_message` of src/tributo_broker_redis/consumer.py.
use tributo_broker_redis.Base.{
  ℕ, ◌+◌, String, count, len, Bool, true, false, ◌&&◌, ◌||◌, some, List, [], ◌∷◌, ltb, leb, num_eq,
  ◌==◌, if◌then◌else◌,
}
use tributo_broker_redis.Json.{Text, text, escaped, str, obj, no_fields, field}
use tributo_broker_redis.Config.{OperationType, ChannelConfig}
use tributo_broker_redis.Connection.{RedisTransportConfig}
use tributo_broker_redis.Services.{Raw, decoded, bytes, Entry, Services}
use tributo_broker_redis.State.{Message}

abbrev pub max_operation_id_length : ℕ
max_operation_id_length = 256

unfoldable pub decode : Services → Raw → Text
decode services (decoded t) = t
decode services (bytes b) = services.decode_escape b

abbrev list_eq : List ℕ → List ℕ → Bool
list_eq [] [] = true
list_eq (a ∷ s) (b ∷ t) = num_eq a b && list_eq s t
list_eq _ _ = false

abbrev pub text_eq : Text → Text → Bool
text_eq (text s) (text t) = s == t
text_eq (escaped s) (escaped t) = list_eq s t
text_eq _ _ = false

abbrev pub put_text : List (Text × Text) → Text → Text → List (Text × Text)
put_text [] k v = (k, v) ∷ []
put_text ((j, w) ∷ d) k v = if text_eq j k then (j, v) ∷ d else (j, w) ∷ put_text d k v

abbrev pub get_text : List (Text × Text) → String → Text
get_text [] k = text ""
get_text ((j, v) ∷ d) k = if text_eq j (text k) then v else get_text d k

-- `{_decode(key): _decode(value) for key, value in fields.items()}`
unfoldable pub decoded_onto : Services → List (Text × Text) → List (Raw × Raw) → List (Text × Text)
unfolding decode
decoded_onto services d [] = d
decoded_onto services d ((k, v) ∷ fs) =
    decoded_onto services (put_text d (decode services k) (decode services v)) fs

unfoldable pub decoded_fields : Services → List (Raw × Raw) → List (Text × Text)
unfolding decoded_onto
decoded_fields services fs = decoded_onto services [] fs

abbrev pub is_surrogate : ℕ → Bool
is_surrogate c = leb 0xD800 c && leb c 0xDFFF

abbrev any_surrogate : List ℕ → Bool
any_surrogate [] = false
any_surrogate (c ∷ s) = is_surrogate c || any_surrogate s

-- The characters of a `String` are no surrogates.
abbrev pub has_surrogate : Text → Bool
has_surrogate (text s) = false
has_surrogate (escaped s) = any_surrogate s

abbrev pub invalid_encoding : List (Text × Text) → Bool
invalid_encoding [] = false
invalid_encoding ((k, v) ∷ d) = (has_surrogate k || has_surrogate v) || invalid_encoding d

abbrev pub has_key : List (Text × Text) → String → Bool
has_key [] k = false
has_key ((j, v) ∷ d) k = text_eq j (text k) || has_key d k

abbrev pub only_keys : List (Text × Text) → String → String → Bool
only_keys [] a b = true
only_keys ((j, v) ∷ d) a b = (text_eq j (text a) || text_eq j (text b)) && only_keys d a b

-- `set(decoded) == expected_fields`
unfoldable pub envelope_ok : String → List (Text × Text) → Bool
envelope_ok identity_field d =
    only_keys d identity_field "payload" && has_key d identity_field && has_key d "payload"

-- Of a text that `_decode` makes, whose surrogates are all in this range; `encode` would raise on another.
abbrev code_bytes : ℕ → ℕ
code_bytes c =
    if leb 0xDC80 c && leb c 0xDCFF
    then 1
    else if ltb c 0x80
    then 1
    else if ltb c 0x800
    then 2
    else if ltb c 0x10000
    then 3
    else 4

abbrev escaped_bytes : List ℕ → ℕ
escaped_bytes [] = 0
escaped_bytes (c ∷ s) = code_bytes c + escaped_bytes s

-- `len(raw.encode("utf-8", errors="surrogateescape"))`
unfoldable pub encoded_size : Text → ℕ
encoded_size (text s) = len s
encoded_size (escaped s) = escaped_bytes s

-- The outer identity, emptied if it is too long or has a surrogate.
unfoldable pub identity_of : Text → String
identity_of (text s) = if ltb max_operation_id_length (count s) then "" else s
identity_of (escaped s) = ""

unfoldable pub message_of :
    Services → RedisTransportConfig → ChannelConfig → OperationType → ℕ → Entry → Message
unfolding decoded_fields envelope_ok identity_of encoded_size
message_of services transport channel operation_type now entry =
    let d = decoded_fields services entry.fields in
    let raw = get_text d "payload" in
    record {
      payload = obj (field "raw" (str raw) no_fields);
      delivery_token = entry.entry_id;
      metadata = record {
        stream = channel.task_stream_key;
        operation_type = operation_type;
        outer_operation_id = identity_of (get_text d channel.outer_identity_field);
        outer_identity_field = channel.outer_identity_field;
        envelope_error =
            if envelope_ok channel.outer_identity_field d
            then ""
            else "task envelope contains unsupported or missing fields";
        payload_error =
            if ltb transport.max_payload_bytes (encoded_size raw)
            then "payload exceeds configured size limit"
            else "";
        encoding_error = if invalid_encoding d then "payload is not valid UTF-8" else "";
        received_at_ms = some now;
      };
    }
