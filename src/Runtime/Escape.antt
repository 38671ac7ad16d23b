-- ===== src/Runtime/Escape.antt =====
-- Where an exception of Redis leaves `handle` of src/tributo_broker_redis/runtime.py.
use tributo_broker_redis.Base.{
  ℕ, String, ◌≡◌, ◌≢◌, refl, ap, ◌∙◌, true, false, some, test_of_ne, truthy,
}
use tributo_broker_redis.Json.{Text}
use tributo_broker_redis.Exec.{Exception, ok, raised}
use tributo_broker_redis.Config.{OperationType}
use tributo_broker_redis.Protocol.{GenericRequest}
use tributo_broker_redis.Operations.{PreparedOperation}
use tributo_broker_redis.Services.{Services, ActiveSubmission, Trace}
use tributo_broker_redis.State.{State, Message, perform}
use tributo_broker_redis.Cancellation.{terminal_event_published, get_active}
use tributo_broker_redis.Runtime.Types.{Setup, profile_in, profiles_of}
use tributo_broker_redis.Runtime.Resume.{resume, same_identity}
use tributo_broker_redis.Runtime.Handle.{
  handle, early_cancel, is_marked, envelope_stage, parse_stage, prepare_stage, admit_stage, raw_of,
}
use tributo_broker_redis.Runtime.Known.{admit_stage-known}
use tributo_broker_redis.Runtime.Marked.{key_of}

-- A delivery that Redis delivers again while its job is active: it is sound, is the same request, and has
-- no cancel key.
pub record IsAgain (services : Services) (setup : Setup) (message : Message)
    (item : ActiveSubmission) (s : State) : Type 0 where
  pub raw : Text
  pub request : GenericRequest
  pub prepared : PreparedOperation
  pub named : message.metadata.outer_operation_id ≢ ""
  pub unmarked : services.exists s.trace (key_of setup message) ≡ ok false
  pub encoded : truthy message.metadata.encoding_error ≡ false
  pub envelope : truthy message.metadata.envelope_error ≡ false
  pub sized : truthy message.metadata.payload_error ≡ false
  pub read : raw_of message.payload ≡ some raw
  pub parsed :
      setup.request_parser raw message.metadata.outer_operation_id message.metadata.operation_type
      ≡ ok request
  pub enabled :
      profile_in request.execution_profile (profiles_of setup message.metadata.operation_type)
      ≡ true
  pub mapped : setup.operation_preparer request ≡ ok prepared
  pub active : get_active s.active request.operation_id ≡ some item
  pub same : same_identity item request message.metadata.operation_type ≡ true

module _ (services : Services) (item : ActiveSubmission) (e : Exception)
    (streams : services.has_xrevrange ≡ true)
    (down : (t : Trace) (stream : String) (n : ℕ) → services.xrevrange t stream n ≡ raised e) where
  terminal-raised : (s : State) → (terminal_event_published services item s).0 ≡ raised e
  unfolding terminal_event_published perform
  terminal-raised s = rw (streams, down) refl

  resume-raised :
      (setup : Setup) (request : GenericRequest) (operation_type : OperationType) (s : State)
      → same_identity item request operation_type ≡ true
      → (resume services setup request operation_type item s).0 ≡ raised e
  unfolding resume
  resume-raised setup request operation_type s same = rw (same, terminal-raised s) refl

  admit_stage-raised :
      (setup : Setup) (message : Message) (request : GenericRequest) (prepared : PreparedOperation)
      (s : State)
      → get_active s.active request.operation_id ≡ some item
      → same_identity item request message.metadata.operation_type ≡ true
      → (admit_stage services setup message request prepared s).0 ≡ raised e
  admit_stage-raised setup message request prepared s active same =
      ap (λ p. p.0) (admit_stage-known services setup message request prepared item s active)
      ∙ resume-raised setup request message.metadata.operation_type s same

-- While Redis cannot be asked for the events of a stream, a sound delivery without a cancel key that comes
-- again for its active job, with the same identity, makes `handle` raise.
pub handle-raised :
    (services : Services) (setup : Setup) (message : Message) (item : ActiveSubmission)
    (e : Exception) (s : State)
    → services.has_xrevrange ≡ true
    → ((t : Trace) (stream : String) (n : ℕ) → services.xrevrange t stream n ≡ raised e)
    → IsAgain services setup message item s
    → (handle services setup message s).0 ≡ raised e
unfolding handle early_cancel is_marked perform envelope_stage parse_stage prepare_stage
handle-raised services setup message item e s streams down again =
    rw
      (
        test_of_ne message.metadata.outer_operation_id "" again.named,
        again.unmarked,
        again.encoded,
        again.envelope,
        again.sized,
        again.read,
        again.parsed,
        again.enabled,
        again.mapped,
      )
      (admit_stage-raised services item e streams down setup message again.request again.prepared _
        again.active again.same)
