-- ===== src/Runtime/Closing.antt =====
-- The client is closed with the runtime, once. src/tributo_broker_redis/runtime.py: `close`, which a signal
-- handler, the end of the command and a caller may all call.
use tributo_broker_redis.Base.{ℕ, suc, ◌≡◌, refl, Bool, true, false, if◌then◌else◌, arith}
use tributo_broker_redis.Exec.{Result, pure}
use tributo_broker_redis.Exec.Rules.{Preserves}
use tributo_broker_redis.Config.{OperationType, training, batch_inference}
use tributo_broker_redis.Services.{ActiveSubmission, Services, Trace, Call}
use tributo_broker_redis.State.{State, Delivery, perform, set_delivery}
use tributo_broker_redis.State.Counts.{count_calls, call_of-step_of, is_close}
use tributo_broker_redis.Cancellation.{WatcherConfig, forget, note_stop}
use tributo_broker_redis.Cancellation.Stable.{IsWatchStable, check_item-Preserves}
use tributo_broker_redis.Cancellation.Thread.{stop_watcher}
use tributo_broker_redis.Reporter.Quiet.{IsQuiet}
use tributo_broker_redis.Runtime.Types.{Setup}
use tributo_broker_redis.Runtime.Loop.{close, close_now, close_client}
use tributo_broker_redis.Runtime.Consumed.{IsConsumeStable}
use tributo_broker_redis.Runtime.Process.{IsProcessStable, start-Preserves, run_once-Preserves}
use tributo_broker_redis.Runtime.System.{Reach, booted, started, served, looked, closed}

-- How often the client was closed.
abbrev pub closes : State → ℕ
closes s = count_calls is_close s.trace

-- One more than `n` if the runtime is closed and the client can be, else `n`.
abbrev pub ClosedWith : Services → ℕ → State → Type 0
ClosedWith services n s =
    closes s ≡ (if s.closed then (if services.has_close then suc n else n) else n)

module _ (services : Services) (n : ℕ) where
  perform-ClosedWith :
      {A : Type 0} (answer : Trace → Result A) (call : Call)
      → is_close call ≡ false
      → Preserves (ClosedWith services n) (perform answer call)
  unfolding perform
  perform-ClosedWith answer call other = record {
    after = λ s h. ground (arith, call_of-step_of (answer s.trace) call);
  }

  ClosedWith-quiet : IsQuiet (ClosedWith services n)
  ClosedWith-quiet = record {
    on_exists = λ answer key. perform-ClosedWith answer (Call.exists key) refl;
    on_xrevrange = λ answer stream k. perform-ClosedWith answer (Call.xrevrange stream k) refl;
    on_xadd =
        λ answer stream f event k. perform-ClosedWith answer (Call.xadd stream f event k) refl;
  }

  set_delivery-ClosedWith :
      (operation : OperationType) (d : Delivery) (s : State)
      → ClosedWith services n s
      → ClosedWith services n (set_delivery operation d s)
  set_delivery-ClosedWith training d s h = h
  set_delivery-ClosedWith batch_inference d s h = h

  ClosedWith-consume :
      (operation : OperationType) → IsConsumeStable operation (ClosedWith services n)
  ClosedWith-consume operation = record {
    on_read = λ answer stream group consumer block.
        perform-ClosedWith answer (Call.xreadgroup stream group consumer block) refl;
    on_claim = λ answer stream group consumer min_idle cursor k.
        perform-ClosedWith answer (Call.xautoclaim stream group consumer min_idle cursor k) refl;
    on_ack =
        λ answer stream group token. perform-ClosedWith answer (Call.xack stream group token) refl;
    on_delivery = set_delivery-ClosedWith operation;
  }

  pub ClosedWith-process : IsProcessStable (ClosedWith services n)
  ClosedWith-process = record {
    stable = record {
      quiet = ClosedWith-quiet;
      on_submit = λ answer request. perform-ClosedWith answer (Call.submit request) refl;
      on_put = λ s item h. h;
      on_remove = λ s operation_id h. h;
    };
    consume = ClosedWith-consume;
    on_list = λ answer url. perform-ClosedWith answer (Call.list_jobs url) refl;
    on_channel = λ s k h. h;
    on_due = λ s k h. h;
    on_started = λ s h. h;
    on_thread = λ s h. h;
  }

  module _ (config : WatcherConfig) where
    forget-ClosedWith :
        (item : ActiveSubmission) → Preserves (ClosedWith services n) (forget services config item)
    unfolding forget
    forget-ClosedWith item = record { after = λ s h. h }

    note_stop-ClosedWith :
        (cancelled : Bool) (item : ActiveSubmission)
        → Preserves (ClosedWith services n) (note_stop services config cancelled item)
    unfolding note_stop
    note_stop-ClosedWith cancelled item = record { after = λ s h. h }

    pub ClosedWith-watch : IsWatchStable services config (ClosedWith services n)
    ClosedWith-watch = record {
      quiet = ClosedWith-quiet;
      on_status = λ answer id. perform-ClosedWith answer (Call.job_status id) refl;
      on_stop = λ answer id. perform-ClosedWith answer (Call.stop_job id) refl;
      on_forget = forget-ClosedWith;
      on_note = note_stop-ClosedWith;
    }

  abbrev once_more : ℕ
  once_more = if services.has_close then suc n else n

  closed_client :
      (has : Bool) (s : State)
      → closes s ≡ n
      → s.closed ≡ true
      → let s' = ((if has then perform services.close_client Call.close_client else pure tt) s).1 in
        closes s' ≡ (if s'.closed then (if has then suc n else n) else n)
  unfolding perform
  closed_client true s h e = simp (e, call_of-step_of (services.close_client s.trace), h)
  closed_client false s h e = simp (e, h)

  close_unless :
      (was : Bool) (setup : Setup) (s : State)
      → s.closed ≡ was
      → closes s ≡ (if was then once_more else n)
      → ClosedWith services n ((if was then pure tt else close_now services setup) s).1
  unfolding stop_watcher close_client
  close_unless true setup s e h = simp e h
  close_unless false setup s e h = closed_client services.has_close _ h refl

  -- However often it is called.
  pub close-ClosedWith : (setup : Setup) → Preserves (ClosedWith services n) (close services setup)
  unfolding close
  close-ClosedWith setup = record { after = λ s h. close_unless s.closed setup s refl h }

-- In every state that the loop, the watcher and the calls of `close` reach, in whatever order they run and
-- whatever raises: the client has been closed exactly once more if the runtime is closed, where the client
-- can be closed at all, and not at all while it is open.
pub closes-Reach :
    (services : Services) (setup : Setup) (config : WatcherConfig) (boot s : State)
    → boot.closed ≡ false
    → Reach services setup config boot s
    → ClosedWith services (closes boot) s
closes-Reach services setup config boot _ fresh booted = rw fresh refl
closes-Reach services setup config boot _ fresh (started r) =
    (start-Preserves (ClosedWith-process services (closes boot)) services setup).after _
      (closes-Reach services setup config boot _ fresh r)
closes-Reach services setup config boot _ fresh (served timeout_ms r) =
    (run_once-Preserves (ClosedWith-process services (closes boot)) services setup timeout_ms).after
      _ (closes-Reach services setup config boot _ fresh r)
closes-Reach services setup config boot _ fresh (looked item r) =
    (check_item-Preserves services config (ClosedWith-watch services (closes boot) config)
        item).after
      _ (closes-Reach services setup config boot _ fresh r)
closes-Reach services setup config boot _ fresh (closed r) =
    (close-ClosedWith services (closes boot) setup).after _
      (closes-Reach services setup config boot _ fresh r)
