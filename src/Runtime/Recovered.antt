-- ===== src/Runtime/Recovered.antt =====
-- What a recovered submission says about its Ray job.
use tributo_broker_redis.Base.{◌≡◌, refl, ◌∙◌, ap, some, ◌==◌, eq_of_test}
use tributo_broker_redis.Json.{Fields, fields_get}
use tributo_broker_redis.Config.{type_of_name, profile_of_name}
use tributo_broker_redis.Services.{RayJob, ActiveSubmission}
use tributo_broker_redis.Optional.{require, Yields, bind-Yields, some-Yields, test_of_require}
use tributo_broker_redis.Runtime.Types.{Setup, channel_of}
use tributo_broker_redis.Runtime.Metadata.{submission_of, get_some_text, some_text, digest_of}

-- The job's metadata names the operation, this driver and the stream of the channel that the submission
-- belongs to, which is the configured one of its operation type.
pub record IsVouched (setup : Setup) (metadata : Fields) (job : RayJob) (item : ActiveSubmission)
    : Type 0 where
  pub operation : get_some_text metadata "tributo.operation_id" ≡ some item.operation_id
  pub driver : get_some_text metadata "tributo.driver_entrypoint" ≡ some setup.driver_entrypoint
  pub stream : get_some_text metadata "tributo.task_stream" ≡ some item.channel.task_stream_key
  pub attempt : get_some_text metadata "tributo.attempt_id" ≡ some item.submission.attempt_id
  pub submission : some_text job.submission_id ≡ some item.submission.submission_id
  pub configured : item.channel ≡ channel_of setup item.operation_type

submission-Yields :
    (setup : Setup) (metadata : Fields) (job : RayJob)
    → Yields (IsVouched setup metadata job) (submission_of setup metadata job)
unfolding submission_of
submission-Yields setup metadata job =
    bind-Yields (get_some_text metadata "tributo.operation_id") _ (λ id operation.
      bind-Yields (get_some_text metadata "tributo.operation_type") _ (λ type_name _.
        bind-Yields (get_some_text metadata "tributo.execution_profile") _ (λ profile_name _.
          bind-Yields (get_some_text metadata "tributo.run_id") _ (λ run_id _.
            bind-Yields (get_some_text metadata "tributo.attempt_id") _ (λ attempt_id attempt.
              bind-Yields (get_some_text metadata "tributo.driver_entrypoint") _
                (λ entrypoint driver.
                  bind-Yields (get_some_text metadata "tributo.task_stream") _
                    (λ task_stream stream.
                      bind-Yields (some_text job.submission_id) _ (λ submission_id submission.
                        bind-Yields (type_of_name type_name) _ (λ operation_type _.
                          bind-Yields (profile_of_name profile_name) _ (λ profile _.
                            bind-Yields (require (entrypoint == setup.driver_entrypoint)) _
                              (λ _ same_driver.
                                bind-Yields
                                  (require (
                                    task_stream
                                    == (channel_of setup operation_type).task_stream_key))
                                  _
                                  (λ _ same_stream.
                                    bind-Yields
                                      (digest_of (fields_get metadata "tributo.request_digest")) _
                                      (λ digest _. some-Yields _ (record {
                                        operation = operation;
                                        driver =
                                            driver
                                            ∙ ap some
                                                (eq_of_test _ _ (test_of_require _ same_driver));
                                        stream =
                                            stream
                                            ∙ ap some
                                                (eq_of_test _ _ (test_of_require _ same_stream));
                                        attempt = attempt;
                                        submission = submission;
                                        configured = refl;
                                      }))))))))))))))

-- A submission whose metadata is taken after a restart is vouched for by it: the metadata names the
-- operation, the attempt, this driver and the task stream of the submission's channel, the channel is the
-- configured one of the operation type, and the job's identifier is the submission's.
pub submission_of-IsVouched :
    (setup : Setup) (metadata : Fields) (job : RayJob) (item : ActiveSubmission)
    → submission_of setup metadata job ≡ some item
    → IsVouched setup metadata job item
submission_of-IsVouched setup metadata job item taken =
    (submission-Yields setup metadata job).holds item taken
