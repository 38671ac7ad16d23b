-- ===== src/Runtime/Restart.antt =====
-- What a restart makes of an admission: the metadata that src/tributo_broker_redis/runtime.py submits with a
-- job, and reads when it recovers.
use tributo_broker_redis.Base.{
  ℕ, String, ◌≡◌, refl, Bool, true, false, not, Option, none, some, [], ◌∷◌, ◌++◌, Dict, ◌==◌,
  eq_refl,
}
use tributo_broker_redis.Patterns.{decimal}
use tributo_broker_redis.Json.{Json, json_str, Fields, no_fields, field, fields_get}
use tributo_broker_redis.Config.{
  OperationType, training, batch_inference, ExecutionProfile, single_worker, distributed, type_name,
  type_of_name, profile_name, profile_of_name,
}
use tributo_broker_redis.Protocol.{GenericRequest, run_id_of}
use tributo_broker_redis.Services.{RayJobSubmission, RayJob}
use tributo_broker_redis.Runtime.Types.{Setup, channel_of}
use tributo_broker_redis.Runtime.Admission.{deadline_entry, metadata_of, active_of}
use tributo_broker_redis.Runtime.Metadata.{
  is_recoverable, digest_of, some_text, metadata_milliseconds, submission_of, recovered_of,
}

abbrev pub fields_of : Dict String → Fields
fields_of [] = no_fields
fields_of ((key, value) ∷ d) = field key (json_str value) (fields_of d)

abbrev pub digest_entry : Option String → Dict String
digest_entry none = []
digest_entry (some digest) = ("tributo.request_digest", digest) ∷ []

-- What Ray lists of a job that was submitted with this metadata; the digest is what the submission adds.
abbrev pub listed : Dict String → Option String → Fields
listed metadata digest = fields_of (metadata ++ digest_entry digest)

abbrev is_given : Option String → Bool
is_given none = true
is_given (some s) = not (s == "")

type_of_name-type_name : (t : OperationType) → type_of_name (type_name t) ≡ some t
type_of_name-type_name training = refl
type_of_name-type_name batch_inference = refl

profile_of_name-profile_name : (p : ExecutionProfile) → profile_of_name (profile_name p) ≡ some p
profile_of_name-profile_name single_worker = refl
profile_of_name-profile_name distributed = refl

type_name-named : (t : OperationType) → (type_name t == "") ≡ false
type_name-named training = refl
type_name-named batch_inference = refl

profile_name-named : (p : ExecutionProfile) → (profile_name p == "") ≡ false
profile_name-named single_worker = refl
profile_name-named distributed = refl

not-false : (b : Bool) → not b ≡ true → b ≡ false
not-false true h = cc
not-false false h = refl

module _ (setup : Setup) (request : GenericRequest) (operation_type : OperationType) where
  -- Nothing of the identity is empty, and `int(str(n))` is `n`.
  pub record IsNamed (submission_id : String) (digest : Option String) : Type 0 where
    pub operation : (request.operation_id == "") ≡ false
    pub run : (run_id_of request == "") ≡ false
    pub attempt : (request.attempt_id == "") ≡ false
    pub driver : (setup.driver_entrypoint == "") ≡ false
    pub stream : ((channel_of setup operation_type).task_stream_key == "") ≡ false
    pub submission : (submission_id == "") ≡ false
    pub digested : is_given digest ≡ true
    pub numbers : (n : ℕ) → setup.tools.int_of (json_str (decimal n)) ≡ some n

  abbrev pub taken : String → Option String → Option String → RayJobSubmission
  taken submission_id ray_job_id digest = record {
    run_id = run_id_of request;
    attempt_id = request.attempt_id;
    submission_id = submission_id;
    ray_job_id = ray_job_id;
    request_digest = digest;
  }

  -- The two entries that may be missing.
  deadline-listed :
      (digest : Option String) (deadline_at_ms : Option ℕ)
      → ((n : ℕ) → setup.tools.int_of (json_str (decimal n)) ≡ some n)
      → metadata_milliseconds setup.tools.int_of (
          fields_get
            (fields_of (deadline_entry deadline_at_ms ++ digest_entry digest))
            "tributo.deadline_at_ms")
        ≡ deadline_at_ms
  unfolding fields_get metadata_milliseconds
  deadline-listed none none numbers = refl
  deadline-listed (some digest) none numbers = refl
  deadline-listed digest (some deadline) numbers = numbers deadline

  received-listed :
      (n : ℕ)
      → ((m : ℕ) → setup.tools.int_of (json_str (decimal m)) ≡ some m)
      → metadata_milliseconds setup.tools.int_of (some (json_str (decimal n))) ≡ some n
  unfolding metadata_milliseconds
  received-listed n numbers = numbers n

  digest-listed :
      (digest : Option String) (deadline_at_ms : Option ℕ)
      → is_given digest ≡ true
      → digest_of (
          fields_get
            (fields_of (deadline_entry deadline_at_ms ++ digest_entry digest))
            "tributo.request_digest")
        ≡ some digest
  unfolding fields_get
  digest-listed none none h = refl
  digest-listed none (some deadline) h = refl
  digest-listed (some digest) none h = rw (not-false (digest == "") h, digest_of) refl
  digest-listed (some digest) (some deadline) h = rw (not-false (digest == "") h, digest_of) refl

  submission_of-listed :
      (submission_id : String) (job : RayJob) (digest : Option String) (received_at_ms : ℕ)
      (deadline_at_ms : Option ℕ)
      → IsNamed submission_id digest
      → job.submission_id ≡ json_str submission_id
      → submission_of setup
          (listed (metadata_of setup request operation_type received_at_ms deadline_at_ms) digest)
          job
        ≡ some (
            active_of setup request operation_type
              (taken submission_id (some_text job.job_id) digest)
              received_at_ms
              deadline_at_ms)
  unfolding submission_of active_of fields_get
  submission_of-listed submission_id job digest received_at_ms deadline_at_ms h e =
      rw
        (
          h.operation,
          h.run,
          h.attempt,
          h.driver,
          h.stream,
          e,
          h.submission,
          type_name-named operation_type,
          profile_name-named request.execution_profile,
          type_of_name-type_name operation_type,
          profile_of_name-profile_name request.execution_profile,
          eq_refl setup.driver_entrypoint,
          eq_refl (channel_of setup operation_type).task_stream_key,
          digest-listed digest deadline_at_ms h.digested,
          deadline-listed digest deadline_at_ms h.numbers,
          received-listed received_at_ms h.numbers,
        )
        refl

  -- What Ray lists of the job.
  abbrev pub listed_job :
      (submission_id status : String) → Json → Option String → ℕ → Option ℕ → RayJob
  listed_job submission_id status job_id digest received_at_ms deadline_at_ms = record {
    status = status;
    metadata =
        some
          (listed (metadata_of setup request operation_type received_at_ms deadline_at_ms) digest);
    submission_id = json_str submission_id;
    job_id = job_id;
  }

  -- What a restart finds of a job that this provider submitted is what the admission had put down: if Ray lists
  -- the job in a recoverable status, with the metadata of its submission and its digest, the recovery takes
  -- the same active submission from it, its times included. No part of the identity is empty, and Python
  -- reads a number back from its decimal text.
  pub recovered_of-metadata_of :
      (submission_id status : String) (job_id : Json) (digest : Option String) (received_at_ms : ℕ)
      (deadline_at_ms : Option ℕ)
      → IsNamed submission_id digest
      → is_recoverable (setup.tools.upper status) ≡ true
      → recovered_of setup
          (listed_job submission_id status job_id digest received_at_ms deadline_at_ms)
        ≡ some (
            active_of setup request operation_type
              (taken submission_id (some_text job_id) digest)
              received_at_ms
              deadline_at_ms)
  unfolding recovered_of
  recovered_of-metadata_of submission_id status job_id digest received_at_ms deadline_at_ms h
        alive =
      rw alive (
        submission_of-listed submission_id
          (listed_job submission_id status job_id digest received_at_ms deadline_at_ms) digest
          received_at_ms deadline_at_ms h refl)
