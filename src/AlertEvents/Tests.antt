-- ===== src/AlertEvents/Tests.antt =====
-- Tests of the events, and their theorems at one open event.
use ithiltir.Shared.{◌≡◌, refl, true, false, some, none, [], ◌∷◌}
use ithiltir.Shared.Int.{ℤ, pos}
use ithiltir.Shared.Text.{codes}
use ithiltir.Outbox.{Channel, Store, failed, OnOk, rule_stale}
use ithiltir.Outbox.Enqueue.{
  insert_alert_notifications, insert_notifications, build_rows, blocked_notification_schedule,
  is_notify_type, alert_params, alert_notification_dedupe_key,
}
use ithiltir.AlertEvents.{
  AlertOpenEventParams, AlertCloseEventParams, EventStore, write_open_event, insert_open_event,
  opened_event, rule_holds,
}
use ithiltir.AlertEvents.Repeats.{Answers, write_open-Answers}
use ithiltir.AlertEvents.History.{opens, closes, touches, run, OneOpen, run-OneOpen}

abbrev channel_five : Channel
channel_five = record {
  id = pos 5;
  name = codes "ops";
  kind = codes "telegram";
  config = codes "sealed";
  enabled = true;
  is_deleted = false;
  revision = 3;
  last_success_at = some 110;
  last_failure_at = none;
  consecutive_failures = 0;
  last_error_code = none;
  last_error = none;
  config_updated_at = 10;
}

abbrev outbox : Store
outbox = record {
  rows = [];
  channels = channel_five ∷ [];
  settings = none;
  last_id = 0;
  last_channel = 5;
}

abbrev empty : EventStore ℤ
empty = record { events = []; rules = []; outbox = outbox; last_event = 0 }

abbrev offline : AlertOpenEventParams ℤ
offline = record {
  rule_id = pos 1;
  rule_generation = pos 1;
  is_builtin = true;
  rule_snapshot = codes "{}";
  object_type = codes "server";
  object_id = pos 9;
  triggered_at = 100;
  current_value = pos 1;
  effective_threshold = pos 1;
  title = codes "offline";
  message = codes "node 9";
  notifications =
      record {
        transition = codes "opened";
        message = record {
          channel_id = pos 5;
          channel_type = codes "email";
          payload = record { title = codes "offline"; body = codes "node 9"; metadata = [] };
        };
      }
      ∷ [];
}

abbrev stored : AlertOpenEventParams ℤ
stored = record offline { is_builtin = false; rule_id = pos 3 }

abbrev recovery : AlertCloseEventParams ℤ
recovery = record {
  event_id = pos 1;
  rule_id = pos 1;
  rule_generation = pos 1;
  object_type = codes "server";
  object_id = pos 9;
  closed_at = 200;
  current_value = none;
  close_reason = codes "condition_cleared";
  notifications = [];
}

write_open-Answers_example : Answers offline 110 150 empty (write_open_event offline 110 empty)
write_open-Answers_example = write_open-Answers offline 110 150 empty

run-OneOpen_example :
    OneOpen
      (run empty (
        opens offline 110
        ∷ touches (pos 1) 120 (pos 2) (pos 1)
        ∷ closes recovery 210
        ∷ opens offline 300
        ∷ [])).events
run-OneOpen_example =
    run-OneOpen empty
      (opens offline 110
        ∷ touches (pos 1) 120 (pos 2) (pos 1)
        ∷ closes recovery 210
        ∷ opens offline 300
        ∷ [])
      tt

-- The first event has the number 1, and a rule that is not stored opens none.
opens_first :
    OnOk
      (λ r. r.0 ≡ record { event_id = pos 1; created = true })
      (write_open_event offline 110 empty)
unfolding write_open_event insert_open_event opened_event rule_holds insert_alert_notifications
    is_notify_type insert_notifications build_rows blocked_notification_schedule alert_params
    alert_notification_dedupe_key
opens_first = refl

opens_none : write_open_event stored 110 empty ≡ failed rule_stale
unfolding write_open_event insert_open_event opened_event rule_holds
opens_none = refl
