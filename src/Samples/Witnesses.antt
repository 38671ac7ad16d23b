-- ===== src/Samples/Witnesses.antt =====
-- Theorems at inputs that meet their hypotheses, and tests of the definitions they are about.
use tributo_broker_redis.Base.{
  ◌≤◌, String, ◌≡◌, ◌≢◌, refl, Bool, true, false, some, dict_get, ap, sym, ◌∙◌, ◌==◌, set_has,
  set_add,
}
use tributo_broker_redis.Exec.{◌>>=◌, Result, ok, raised, timeout_error}
use tributo_broker_redis.Services.{Services}
use tributo_broker_redis.State.{State, perform}
use tributo_broker_redis.Reporter.{publish}
use tributo_broker_redis.Cancellation.{
  watcher_reporter, cancelled_payload, check_item, settle, ask_stop, note_stop,
  terminal_event_published, get_active, scan_entries, look_item, forget,
}
use tributo_broker_redis.Cancellation.Cancelled.{events, events-check_item}
use tributo_broker_redis.Cancellation.Retention.{check_item_raised}
use tributo_broker_redis.Cancellation.Outcomes.{IsLive, settle-ask_cancel}
use tributo_broker_redis.Cancellation.Causes.{cause_of, next_after, enact}
use tributo_broker_redis.Cancellation.Follows.{decision, settle-Follows}
use tributo_broker_redis.Runtime.{handle}
use tributo_broker_redis.Runtime.Submits.{submits, submits-handle}
use tributo_broker_redis.Runtime.Known.{submits-handle_known}
use tributo_broker_redis.Runtime.Acks.{acks, with_due, ack_of, acks-finish}
use tributo_broker_redis.Runtime.Loop.{finish}
use tributo_broker_redis.Samples.{
  services_with, services, setup, message, item, fresh, busy, watcher_config,
}

submits-handle_example : submits (handle services setup message fresh).1 ≤ 1
submits-handle_example = submits-handle services setup message fresh

busy_knows : get_active busy.active "op" ≡ some item
unfolding get_active dict_get
busy_knows = refl

submits-handle_known_example : submits (handle services setup message busy).1 ≡ 0
submits-handle_known_example =
    submits-handle_known services setup message item busy (λ raw request parsed. cc) busy_knows

acks-finish_example :
    acks (finish services setup 0 (some message) fresh).1
    ≡ with_due (handle services setup message fresh).0 (ack_of setup 0 message) (acks fresh)
acks-finish_example = acks-finish services setup 0 message fresh

abbrev is_stopped : Result String → Bool
is_stopped (ok status) = status == "STOPPED"
is_stopped (raised e) = false

-- Ray's answer is RUNNING.
not_stopped : (r : Result String) → r ≡ ok "RUNNING" → r ≢ ok "STOPPED"
not_stopped r running stopped =
    let same : false ≡ true = ap is_stopped (sym running ∙ stopped) in cc

events-check_item_example : events "CANCELLED" (check_item services watcher_config item busy).1 ≡ 0
events-check_item_example =
    events-check_item services watcher_config item busy (λ t. not_stopped (ok "RUNNING") refl)

-- A look at a submission that Redis cannot be asked about.
abbrev down : Services
down = services_with (raised timeout_error) (ok "RUNNING")

down_raises : (check_item down watcher_config item busy).0 ≡ raised timeout_error
unfolding check_item terminal_event_published scan_entries look_item settle perform
down_raises = refl

check_item_raised_example :
    ((check_item down watcher_config item busy).1.active ≡ busy.active)
    × ((check_item down watcher_config item busy).1.watcher ≡ busy.watcher)
check_item_raised_example =
    check_item_raised down watcher_config item busy timeout_error down_raises

running_IsLive : IsLive "RUNNING"
running_IsLive = record { not_succeeded = refl; not_failed = refl; not_stopped = refl }

abbrev after_cancel : State
after_cancel = (settle services watcher_config item "RUNNING" true false busy).1

not_timed_out : set_has busy.watcher.timeout_requested item.operation_id ≡ false
unfolding set_has
not_timed_out = refl

cancel_asked : settle services watcher_config item "RUNNING" true false busy ≡ (ok tt, after_cancel)
unfolding settle ask_stop perform note_stop set_has set_add
cancel_asked = refl

settle-ask_cancel_example :
    settle services watcher_config item "STOPPED" false true after_cancel
    ≡ (do
      _ ←
          publish services
            (watcher_reporter watcher_config item)
            "CANCELLED"
            cancelled_payload
            (some "CANCELLED")
      forget services watcher_config item)
        after_cancel
settle-ask_cancel_example =
    settle-ask_cancel services watcher_config item "RUNNING" false true busy after_cancel
      running_IsLive not_timed_out cancel_asked

-- The job is found FAILED behind its deadline.
settle-Follows_example :
    (settle services watcher_config item "FAILED" false true busy
      ≡ enact services watcher_config item
          (decision services watcher_config item "FAILED" false true busy)
          busy)
    × (cause_of item (settle services watcher_config item "FAILED" false true busy).1
        ≡ next_after
            (settle services watcher_config item "FAILED" false true busy).0
            (cause_of item busy)
            (decision services watcher_config item "FAILED" false true busy))
settle-Follows_example = settle-Follows services watcher_config item "FAILED" false true busy
