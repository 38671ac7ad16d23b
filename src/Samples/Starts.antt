-- ===== src/Samples/Starts.antt =====
-- A delivery that comes again.
use tributo_broker_redis.Base.{
  String, ◌≡◌, ◌≢◌, refl, ap, Bool, true, false, ◌==◌, some, ◌∷◌, [], dict_get,
}
use tributo_broker_redis.Json.{text, fields_get}
use tributo_broker_redis.Exec.{ok, raised, timeout_error}
use tributo_broker_redis.Protocol.{GenericRequest, run_id_of}
use tributo_broker_redis.Services.{Services, ActiveSubmission}
use tributo_broker_redis.State.{State}
use tributo_broker_redis.Cancellation.{get_active}
use tributo_broker_redis.Runtime.{handle}
use tributo_broker_redis.Runtime.Types.{Setup}
use tributo_broker_redis.Runtime.Handle.{raw_of}
use tributo_broker_redis.Runtime.Resume.{same_identity}
use tributo_broker_redis.Runtime.Escape.{handle-raised}
use tributo_broker_redis.Runtime.Startup.{Paths}
use tributo_broker_redis.Samples.{services, setup, message, fresh, request, prepared, job, item}

abbrev pub paths : Paths
paths = record {
  expanduser = λ p. p;
  resolve = λ p. p;
  join = λ p q. p;
  is_dir = λ p. true;
  exists = λ p. true;
}

abbrev pub digested : GenericRequest
digested = record (request "op") { request_digest = some "d" }

abbrev digested_item : ActiveSubmission
digested_item = record item { submission = record job { request_digest = some "d" } }

abbrev pub digested_setup : Setup
digested_setup = record setup { request_parser = λ raw outer operation_type. ok digested }

abbrev holding : State
holding = record fresh { active = ("op", digested_item) ∷ [] }

abbrev no_streams : Services
no_streams = record services { xrevrange = λ t stream n. raised timeout_error }

abbrev is_op : String → Bool
is_op s = s == "op"

op_named : message.metadata.outer_operation_id ≢ ""
op_named e = let same : true ≡ false = ap is_op e in cc

op_active : get_active holding.active "op" ≡ some digested_item
unfolding get_active dict_get
op_active = refl

op_same : same_identity digested_item digested message.metadata.operation_type ≡ true
unfolding same_identity run_id_of
op_same = refl

op_read : raw_of message.payload ≡ some (text "{}")
unfolding raw_of fields_get
op_read = refl

handle-raised_example : (handle no_streams digested_setup message holding).0 ≡ raised timeout_error
handle-raised_example =
    handle-raised no_streams digested_setup message digested_item timeout_error holding refl
      (λ t stream n. refl)
      (record {
        raw = text "{}";
        request = digested;
        prepared = prepared;
        named = op_named;
        unmarked = refl;
        encoded = refl;
        envelope = refl;
        sized = refl;
        read = op_read;
        parsed = refl;
        enabled = refl;
        mapped = refl;
        active = op_active;
        same = op_same;
      })
