-- ===== src/Samples/Rounds.antt =====
-- Rounds of the loop and the watcher that meet the hypotheses of the theorems about them.
use tributo_broker_redis.Base.{
  dict_get, dict_pop, [], arith, eq_iff, false, none, refl, set_has, some, true, ◌+◌, ◌∷◌, ◌≡◌, ◌≢◌,
  ◌≤◌,
}
use tributo_broker_redis.Json.{Fields, no_fields, field, fields_get, obj, json_str, text}
use tributo_broker_redis.Exec.{ok, ◌>>=◌}
use tributo_broker_redis.Config.{training, batch_inference}
use tributo_broker_redis.Services.{Services, ActiveSubmission}
use tributo_broker_redis.State.{State, perform}
use tributo_broker_redis.State.Counts.{count_calls}
use tributo_broker_redis.Cancellation.{get_active, check_item, terminal_event_published}
use tributo_broker_redis.Reporter.{publish}
use tributo_broker_redis.Cancellation.Causes.{cause_of, by_cancel}
use tributo_broker_redis.Runtime.Handle.{handle, admit_stage}
use tributo_broker_redis.Runtime.Resume.{resume_existing_submission, same_identity}
use tributo_broker_redis.Cancellation.{
  settle, forget, watcher_reporter, cancelled_payload, scan_entries, entry_verdict, event_verdict,
  remove_active,
}
use tributo_broker_redis.Runtime.Intents
use tributo_broker_redis.Runtime.Intents.{newer, settle-inherited}
use tributo_broker_redis.Cancellation.Pass.{watch_rounds-returns}
use tributo_broker_redis.Cancellation.Scan.{scan_entries-terminal, none_left}
use tributo_broker_redis.Cancellation.Thread.{watch_rounds}
use tributo_broker_redis.Execution.Once.{is_run, runs-execute}
use tributo_broker_redis.Execution.Workload.{execute}
use tributo_broker_redis.Protocol.{run_id_of}
use tributo_broker_redis.Runtime.Types.{Setup}
use tributo_broker_redis.Runtime.Admission.{active_of, submit_job}
use tributo_broker_redis.Runtime.Closing.{ClosedWith, closes, closes-Reach}
use tributo_broker_redis.Runtime.Fairness.{IsServed, run_once-IsServed}
use tributo_broker_redis.Runtime.Loop.{close, run_once}
use tributo_broker_redis.Runtime.Metadata.{some_text, recovered_of}
use tributo_broker_redis.Runtime.Restart.{listed_job, taken, recovered_of-metadata_of}
use tributo_broker_redis.Runtime.Stale.{after_admission, get_active-check_item_stale}
use tributo_broker_redis.Runtime.System.{booted, served, closed}
use tributo_broker_redis.Samples.{
  services, setup, fresh, busy, item, job, watcher_config, request, message,
}
use tributo_broker_redis.Samples.Deliveries.{ended_entry, reads_ended}
use tributo_broker_redis.Samples.Decimals.{int_of_text, int_of_text-decimal}
use tributo_broker_redis.Samples.Starts.{digested, digested_setup}
use tributo_broker_redis.Samples.Processes.{work, process, value, reporter}

watch_rounds-returns_example : (watch_rounds reads_ended watcher_config 3 busy).0 ≡ ok tt
watch_rounds-returns_example = watch_rounds-returns reads_ended watcher_config 3 busy

runs-execute_example :
    count_calls is_run (execute services work process value "job-1" reporter fresh).1.trace
    ≤ count_calls is_run fresh.trace + 1
runs-execute_example = runs-execute services work process value "job-1" reporter fresh

-- A round and two calls of `close`.
abbrev closed_twice : State
closed_twice =
    (close services setup (close services setup (run_once services setup none fresh).1).1).1

closes-Reach_example : ClosedWith services (closes fresh) closed_twice
closes-Reach_example =
    closes-Reach services setup watcher_config fresh closed_twice refl
      (closed (closed (served none booted)))

-- Redis has the terminal event of an older job, and Ray takes a newer one.
abbrev older : ActiveSubmission
older = record item {
  submission = record job { submission_id = "job-0"; request_digest = some "d" };
}

older_other : older.submission.submission_id ≢ job.submission_id
older_other e = ground (arith, eq_iff "job-0" "job-1")

abbrev older_event : Fields
older_event =
    field "event_type" (json_str "COMPLETED") (field "submission_id" (json_str "job-0") no_fields)

abbrev ended_before : Services
ended_before = record services {
  loads = λ t. ok (obj older_event);
  xrevrange = λ t stream n. ok (ended_entry ∷ []);
}

event_type_known : fields_get older_event "event_type" ≡ some (json_str "COMPLETED")
unfolding fields_get
event_type_known = refl

submission_known : fields_get older_event "submission_id" ≡ some (json_str "job-0")
unfolding fields_get
submission_known = refl

newer_taken :
    (submit_job ended_before setup (request "op") training "e30=" 4000 none fresh).0 ≡ ok job
unfolding submit_job perform
newer_taken = refl

older_found : scan_entries ended_before older (ended_entry ∷ []) ≡ ok true
older_found =
    scan_entries-terminal ended_before older [] ended_entry [] (text "{}") older_event "COMPLETED"
      none_left refl refl event_type_known refl submission_known

older_ended :
    (terminal_event_published ended_before older (
      after_admission ended_before setup watcher_config
        (request "op")
        training
        4000
        none
        job
        "e30="
        fresh)).0
    ≡ ok true
unfolding terminal_event_published perform
older_ended = older_found

get_active-check_item_stale_example :
    (get_active
        (after_admission ended_before setup watcher_config
          (request "op")
          training
          4000
          none
          job
          "e30="
          fresh).active
        "op"
      ≡ some (active_of setup (request "op") training job 4000 none))
    × (get_active
          (check_item ended_before watcher_config older (
            after_admission ended_before setup watcher_config
              (request "op")
              training
              4000
              none
              job
              "e30="
              fresh)).1.active
          "op"
        ≡ none)
get_active-check_item_stale_example =
    get_active-check_item_stale ended_before setup watcher_config (request "op") training 4000 none
      job "e30=" fresh older newer_taken refl older_other older_ended

-- The older job was asked to stop because of a cancel key, and has ended; its delivery comes again.
abbrev intent_left : State
intent_left = record fresh {
  active = ("op", older) ∷ [];
  watcher = record fresh.watcher { stop_requested = "op" ∷ [] };
}

cancel_left : cause_of older intent_left ≡ by_cancel
unfolding set_has
cancel_left = refl

older_gone :
    get_active (handle ended_before digested_setup message intent_left).1.active "op" ≡ none
unfolding handle admit_stage resume_existing_submission same_identity terminal_event_published
    scan_entries entry_verdict event_verdict get_active remove_active dict_get dict_pop fields_get
    run_id_of perform
older_gone = refl

taken_behind :
    (submit_job ended_before digested_setup digested training "e30=" 4000 none
      (handle ended_before digested_setup message intent_left).1).0
    ≡ ok job
unfolding submit_job perform
taken_behind = refl

settle-inherited_example :
    (get_active
        (Intents.after_admission ended_before digested_setup watcher_config message digested
          training "e30=" 4000 none job intent_left).active
        "op"
      ≡ some (
          newer ended_before digested_setup watcher_config message digested training "e30=" 4000
            none job))
    × (settle ended_before watcher_config
          (newer ended_before digested_setup watcher_config message digested training "e30=" 4000
            none job)
          "STOPPED"
          false
          false
          (Intents.after_admission ended_before digested_setup watcher_config message digested
            training "e30=" 4000 none job intent_left)
        ≡ (do
          _ ←
              publish ended_before
                (watcher_reporter watcher_config (
                  newer ended_before digested_setup watcher_config message digested training "e30="
                    4000 none job))
                "CANCELLED"
                cancelled_payload
                (some "CANCELLED")
          forget ended_before watcher_config (
              newer ended_before digested_setup watcher_config message digested training "e30=" 4000
                none job))
            (Intents.after_admission ended_before digested_setup watcher_config message digested
              training "e30=" 4000 none job intent_left))
settle-inherited_example =
    settle-inherited ended_before digested_setup watcher_config message digested training "e30="
      4000 none job older intent_left cancel_left older_gone refl older_other taken_behind

abbrev waits : State
waits = record fresh {
  batch_inference = record { pending_messages = message ∷ []; claim_cursor = "0-0" };
}

run_once-IsServed_example : IsServed services setup batch_inference message [] "0-0" none none waits
run_once-IsServed_example =
    run_once-IsServed services setup batch_inference message [] "0-0" none none waits refl

abbrev reading : Setup
reading = record setup { tools = record setup.tools { int_of = int_of_text } }

recovered_of-metadata_of_example :
    recovered_of reading (
      listed_job reading
        (request "op")
        training
        "job-1"
        "RUNNING"
        (json_str "id")
        (some "d")
        4000
        (some 9000))
    ≡ some (
        active_of reading
          (request "op")
          training
          (taken reading (request "op") training "job-1" (some_text (json_str "id")) (some "d"))
          4000
          (some 9000))
unfolding run_id_of
recovered_of-metadata_of_example =
    recovered_of-metadata_of reading (request "op") training "job-1" "RUNNING" (json_str "id")
      (some "d") 4000 (some 9000)
      (record {
        operation = refl;
        run = refl;
        attempt = refl;
        driver = refl;
        stream = refl;
        submission = refl;
        digested = refl;
        numbers = int_of_text-decimal;
      })
      refl
