-- ===== src/Runtime.antt =====
-- src/tributo_broker_redis/runtime.py: the consume loop and the admission of Ray jobs.
pub mod Types
pub mod Reports
pub mod Admission
pub mod Resume
pub mod Handle
pub mod Metadata
pub mod Recovery
pub mod Loop
pub mod Quiet
pub mod Stages
pub mod Submits
pub mod Known
pub mod Total
pub mod Default
pub mod Startup
pub mod Waiting
pub mod Turns
pub mod Fairness
pub mod Create
pub mod Escape
pub mod Shipped
pub mod Stable
pub mod Acks
pub mod System
pub mod Effects
pub mod Interleaved
pub mod Consumed
pub mod Process
pub mod Keyed
pub mod Closing
pub mod Admitted
pub mod Stale
pub mod Intents
pub mod Marked
pub mod Recovered
pub mod Restart
pub mod Refused
unfoldable pub use Types.*
unfoldable pub use Reports.{new_runtime_reporter, published, invalid, invalid_default}
unfoldable pub use Admission.{
  deadline_of, driver_fields_of, driver_input_of, submit_request_of, active_of, submit_job, confirm,
  admit_job, admit,
}
unfoldable pub use Resume.{resume_existing_submission, resume, reconfirm, same_identity}
unfoldable pub use Handle.{
  handle, early_cancel, late_cancel, envelope_stage, parse_stage, prepare_stage, admit_stage,
  raw_of, is_marked, check_unavailable,
}
unfoldable pub use Recovery.{recover_active_submissions, recover_jobs, recover_job}
unfoldable pub use Metadata.{recovered_of, submission_of}
unfoldable pub use Loop.{
  recover_pending, apply_outcome, serve_channel, run_once, run_rounds, start, close,
}
