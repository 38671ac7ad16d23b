-- ===== src/Samples/Deliveries.antt =====
-- Theorems about deliveries, admission and the transport at inputs that meet their hypotheses.
use tributo_broker_redis.Base.{
  ◌≡◌, ◌≢◌, refl, true, none, some, [], ◌∷◌, map, List, length, dict_get, eq_iff, arith,
}
use mathlib.Core.List.{Memᴰ}
use tributo_broker_redis.Json.{
  Json, Fields, no_fields, field, json_str, obj, fields_get, text, Text,
}
use tributo_broker_redis.Exec.{ok, raised, timeout_error, protocol_failure}
use tributo_broker_redis.Config.{training}
use tributo_broker_redis.Connection.{
  RedisConnectionConfig, transport_accepted, connection_accepted, validate_redis_url,
  redis_url_accepted, sentinel_nodes_loop, driver_nodes_accepted, all_distinct,
}
use tributo_broker_redis.Connection.Driver.{IsDerived, ray_driver_connection-accepted}
use tributo_broker_redis.Services.{Services, Call, returned, failed, Entry, decoded}
use tributo_broker_redis.State.{perform, set_delivery}
use tributo_broker_redis.Transport.{driver_transport, read_driver_input}
use tributo_broker_redis.Transport.RoundTrip.{read_driver_input-driver_transport}
use tributo_broker_redis.Reporter.{redact}
use tributo_broker_redis.Reporter.Clean.{clean, clean-redact}
use tributo_broker_redis.Consumer.{recover_pending}
use tributo_broker_redis.Consumer.Order.{
  poll_times, poll_times-recover_pending, claimed, claimed_at,
}
use tributo_broker_redis.Cancellation.{get_active, snapshot, check_item, terminal_event_published}
use tributo_broker_redis.Cancellation.Keyed.{keyed}
use tributo_broker_redis.Runtime.{raw_of, handle, submit_job, admit_job}
use tributo_broker_redis.Runtime.Handle.{check_unavailable}
use tributo_broker_redis.Runtime.Types.{Setup, acked_with}
use tributo_broker_redis.Runtime.Refused.{handle-refused}
use tributo_broker_redis.Runtime.Submits.{submits}
use tributo_broker_redis.Runtime.Marked.{marked_ends, handle-unasked, handle-marked, key_of}
use tributo_broker_redis.Runtime.Admitted.{submits-handle_admitted}
use tributo_broker_redis.Runtime.System.{booted, looked}
use tributo_broker_redis.Runtime.Keyed.{get_active-snapshot_stepped}
use tributo_broker_redis.Runtime.Interleaved.{Steps-Reach}
use tributo_broker_redis.Samples.{
  services_with, services, setup, message, item, fresh, busy, watcher_config, request, job,
  transport, tools, channel,
}

read_driver_input-driver_transport_example :
    read_driver_input
      (driver_transport "/tmp/p" "e30=" (("A", "b") ∷ []) []).input_file
      (driver_transport "/tmp/p" "e30=" (("A", "b") ∷ []) []).env
    ≡ ok "e30="
read_driver_input-driver_transport_example =
    read_driver_input-driver_transport "/tmp/p" "e30=" (("A", "b") ∷ []) []

abbrev payload : Json
payload = obj (field "user" (obj (field "api_token" (json_str "s3cret") no_fields)) no_fields)

abbrev no_repr : Json → Text
no_repr v = text "repr"

clean-redact_example : clean (redact no_repr payload) ≡ true
clean-redact_example = clean-redact no_repr payload

outer_named : message.metadata.outer_operation_id ≢ ""
outer_named e = ground (arith, eq_iff "op" "")

abbrev down : Services
down = services_with (raised timeout_error) (ok "RUNNING")

handle-unasked_example : handle down setup message fresh ≡ (
  ok check_unavailable,
  record fresh { trace = failed (Call.exists (key_of setup message)) ∷ [] },
)
handle-unasked_example = handle-unasked down setup message fresh outer_named timeout_error refl

abbrev marked : Services
marked = services_with (ok true) (ok "RUNNING")

handle-marked_example :
    handle marked setup message fresh
    ≡ marked_ends marked setup message fresh outer_named none
        (record fresh { trace = returned (Call.exists (key_of setup message)) ∷ [] })
unfolding get_active dict_get
handle-marked_example = handle-marked marked setup message fresh outer_named refl

pub ray_takes :
    (submit_job services setup (request "op") training "e30=" 4000 none fresh).0 ≡ ok job
unfolding submit_job perform
ray_takes = refl

submits-handle_admitted_example :
    submits
      (handle services setup message
        (admit_job services setup (request "op") training "e30=" 4000 none fresh).1).1
    ≡ submits (admit_job services setup (request "op") training "e30=" 4000 none fresh).1
submits-handle_admitted_example =
    submits-handle_admitted services setup (request "op") training 4000 none job "e30=" fresh
      message ray_takes (λ raw r parsed. cc) refl

busy_keyed : keyed busy.active ≡ true
unfolding keyed dict_get
busy_keyed = refl

item_listed : Memᴰ item (snapshot (check_item down watcher_config item busy).1.active)
unfolding snapshot check_item perform terminal_event_published
item_listed = Memᴰ.head refl

get_active-snapshot_stepped_example :
    get_active (check_item down watcher_config item busy).1.active item.operation_id ≡ some item
get_active-snapshot_stepped_example =
    get_active-snapshot_stepped busy (check_item down watcher_config item busy).1 item busy_keyed
      (Steps-Reach down setup watcher_config busy (check_item down watcher_config item busy).1
        (looked item booted))
      item_listed

-- A stream entry with a terminal event of the sample's submission.
abbrev pub ended_event : Fields
ended_event =
    field "event_type" (json_str "COMPLETED") (field "submission_id" (json_str "job-1") no_fields)

abbrev pub ended_entry : Entry
ended_entry = record {
  entry_id = "2-0";
  fields = (decoded (text "payload"), decoded (text "{}")) ∷ [];
}

abbrev pub reads_ended : Services
reads_ended = record services { loads = λ t. ok (obj ended_event) }

abbrev two_entries : List Entry
two_entries = ended_entry ∷ record ended_entry { entry_id = "3-0" } ∷ []

abbrev claims_two : Services
claims_two = record services { xautoclaim = λ t stream cursor. ok (some ("9-0", some two_entries)) }

poll_times-recover_pending_example :
    poll_times claims_two transport
      (channel "t")
      1000
      training
      (length two_entries)
      (recover_pending claims_two transport (channel "t") training fresh).1
    ≡ (
      ok (
          map some
            (claimed claims_two transport (channel "t") 1000 training "0-0" two_entries fresh)),
      set_delivery training
          (record { pending_messages = []; claim_cursor = "9-0" })
          (claimed_at claims_two transport (channel "t") 1000 training "0-0" fresh),
    )
poll_times-recover_pending_example =
    poll_times-recover_pending claims_two transport (channel "t") 1000 training "0-0" "9-0"
      two_entries fresh refl refl refl refl

pub transport_good : transport_accepted tools transport ≡ true
unfolding transport_accepted connection_accepted validate_redis_url redis_url_accepted
    sentinel_nodes_loop driver_nodes_accepted all_distinct
transport_good = refl

ray_driver_connection-accepted_example : (c : RedisConnectionConfig) × IsDerived tools transport c
ray_driver_connection-accepted_example =
    ray_driver_connection-accepted tools transport transport_good

abbrev refusing : Setup
refusing = record setup {
  request_parser =
      λ raw outer operation_type. raised (protocol_failure "INVALID_REQUEST" "bad request");
}

raw_read : raw_of message.payload ≡ some (text "{}")
unfolding raw_of fields_get
raw_read = refl

handle-refused_example :
    (handle services refusing message fresh).0 ≡ ok (acked_with "INVALID_REQUEST" "bad request")
handle-refused_example =
    handle-refused services refusing message fresh (text "{}") "INVALID_REQUEST" "bad request"
      outer_named refl refl refl refl raw_read refl
