-- ===== src/Outbox/Tests.antt =====
-- Tests of the outbox, and its theorems at a table of four notifications.
use ithiltir.Shared.{
  ℕ, ◌≡◌, ◌≢◌, refl, ◌⊎◌, inl, inr, true, false, Bool, ◌||◌, Option, none, some, List, [], ◌∷◌,
  arith,
}
use ithiltir.Shared.Tests.{Eq, ◌==◌}
use ithiltir.Shared.Int.{ℤ, pos, int_eq}
use ithiltir.Shared.Text.{Text, codes, text_eq}
use ithiltir.Alert.Retry.{pending, sending, sent, blocked, discarded}
use ithiltir.Outbox.{ok, Row, Payload, Channel, items, Store, OnOk, status_eqb, rank}
use ithiltir.Outbox.Enqueue.{
  NotificationParams, insert_notifications, build_rows, blocked_notification_schedule,
  is_notify_type,
}
use ithiltir.Outbox.Take.{
  item_of, take_next_notification, is_claimable, first_of, predecessor_ready, precedes, taken,
  take_notification_batch, batch_with, batch_of, candidates, joined, join_row,
}
use ithiltir.Outbox.Sending.{StoredFailure, update_sending_notification}
use ithiltir.Outbox.Deliver.{record_channel_failure, channel_version_changed}
use ithiltir.Outbox.Failures.{
  record_notification_failure, failed_by, uncounted_rows, count_failure, coalesce_queued,
  counted_failure, notification_failure_updates, block_notification,
}
use ithiltir.Outbox.Rows.{In, IsTable, IsSound}
use ithiltir.Outbox.Calls.{Call, takes, takes_batch, completes, run, step}
use ithiltir.Outbox.Histories.{status_of, row_of, Follows, step-Follows, run-IsTable, run-stays}
use ithiltir.Outbox.Ordering.{Takes, take_next-Takes}
use ithiltir.Outbox.Sequence.{closing_follows}
use ithiltir.Outbox.Errors.{AnswersLate, late-AnswersLate}
use ithiltir.Outbox.Circuit.{Ends, IsTimely, IsOpen, Silent, block-Silent}
use ithiltir.Outbox.Built.{HasKeys}
use ithiltir.Outbox.Keys.{Again, IsAllowed, insert-Again}

abbrev text_of : Payload
text_of = record { title = codes "cpu"; body = codes "high"; metadata = [] }

abbrev opening : Row
opening = record {
  id = pos 1;
  event_id = some (pos 7);
  transition = codes "opened";
  channel_id = pos 5;
  channel_type = codes "telegram";
  payload = some text_of;
  dedupe_key = codes "alert:7:opened:5";
  status = sent;
  attempt_count = 1;
  probe_count = 0;
  is_probe = false;
  next_attempt_at = 100;
  failure_code = none;
  last_error = none;
  sent_at = some 110;
}

abbrev closing : Row
closing = record opening {
  id = pos 2;
  transition = codes "closed";
  dedupe_key = codes "alert:7:closed:5";
  status = pending;
  attempt_count = 0;
  next_attempt_at = 120;
  sent_at = none;
}

abbrev later_opening : Row
later_opening = record opening {
  id = pos 3;
  event_id = some (pos 8);
  dedupe_key = codes "alert:8:opened:5";
  status = pending;
  attempt_count = 0;
  next_attempt_at = 130;
  sent_at = none;
}

abbrev in_flight : Row
in_flight = record later_opening {
  id = pos 4;
  event_id = some (pos 9);
  channel_id = pos 6;
  dedupe_key = codes "alert:9:opened:6";
  status = sending;
  next_attempt_at = 90;
}

abbrev channel_five : Channel
channel_five = record {
  id = pos 5;
  name = codes "ops";
  kind = codes "telegram";
  config = codes "sealed";
  enabled = true;
  is_deleted = false;
  revision = 3;
  last_success_at = some 110;
  last_failure_at = none;
  consecutive_failures = 0;
  last_error_code = none;
  last_error = none;
  config_updated_at = 10;
}

abbrev channel_six : Channel
channel_six = record channel_five { id = pos 6; name = codes "dev" }

abbrev table : List Row → Store
table rows = record {
  rows = rows;
  channels = channel_five ∷ channel_six ∷ [];
  settings = some (record { enabled = true; channel_ids = items (pos 5 ∷ pos 6 ∷ []) });
  last_id = 4;
  last_channel = 6;
}

abbrev busy : Store
busy = table (opening ∷ closing ∷ later_opening ∷ in_flight ∷ [])

abbrev units : List Payload → ℕ
units messages = 100

abbrev seal : ℤ → Text → Text → Option Text
seal id kind config = some config

differ : {K : Type 0} ⦃e : Eq K⦄ (a b : K) → (a == b) ≡ false → a ≢ b
differ ⦃e⦄ a b h p = let q = (e.same_iff a b).1 p in cc

opening-IsSound : IsSound opening
unfolding status_eqb rank
opening-IsSound = record { probes = λ h. cc; counted = λ h. absurd (h refl); dated = refl }

closing-IsSound : IsSound closing
unfolding status_eqb rank
closing-IsSound = record { probes = λ h. cc; counted = λ h. absurd (h refl); dated = refl }

later_opening-IsSound : IsSound later_opening
unfolding status_eqb rank
later_opening-IsSound = record { probes = λ h. cc; counted = λ h. absurd (h refl); dated = refl }

in_flight-IsSound : IsSound in_flight
unfolding status_eqb rank
in_flight-IsSound = record { probes = λ h. cc; counted = λ h. absurd (h refl); dated = refl }

differs :
    {K L : Type 0} ⦃e : Eq K⦄ ⦃f : Eq L⦄ (a b : K) (c d : L)
    → (a == b) ≡ false
    → (c == d) ≡ false
    → (a ≢ b) × (c ≢ d)
differs a b c d h k = (differ a b h, differ c d k)

busy-IsTable : IsTable busy
busy-IsTable = record {
  apart = (
    (differs _ _ _ _ refl refl, (differs _ _ _ _ refl refl, (differs _ _ _ _ refl refl, tt))),
    (
      (differs _ _ _ _ refl refl, (differs _ _ _ _ refl refl, tt)),
      ((differs _ _ _ _ refl refl, tt), (tt, tt)),
    ),
  );
  numbered = (
    (1, refl, omega arith),
    ((2, refl, omega arith), ((3, refl, omega arith), ((4, refl, omega arith), tt))),
  );
  sound = (opening-IsSound, (closing-IsSound, (later_opening-IsSound, (in_flight-IsSound, tt))));
}

abbrev delivery : List Call
delivery = takes 200 ∷ completes (pos 4) (pos 6) (pos 3) 210 ∷ takes 220 ∷ []

step-Follows_example :
    Follows
      (status_of busy (pos 4))
      (status_of (step units seal busy (completes (pos 4) (pos 6) (pos 3) 210)) (pos 4))
step-Follows_example =
    step-Follows units seal busy (completes (pos 4) (pos 6) (pos 3) 210) (pos 4) busy-IsTable

run-IsTable_example : IsTable (run units seal busy delivery)
run-IsTable_example = run-IsTable units seal busy delivery busy-IsTable

run-stays_example : row_of (pos 1) (run units seal busy delivery).rows ≡ some opening
unfolding status_eqb rank
run-stays_example = run-stays units seal busy delivery (pos 1) opening busy-IsTable refl refl

-- Two closings of one channel, whose openings have been sent: the second joins the first.
abbrev sent_opening : Row
sent_opening = record opening {
  id = pos 3;
  event_id = some (pos 8);
  dedupe_key = codes "alert:8:opened:5";
}

abbrev joined_closing : Row
joined_closing = record closing {
  id = pos 4;
  event_id = some (pos 8);
  dedupe_key = codes "alert:8:closed:5";
  next_attempt_at = 121;
}

abbrev resting : Store
resting = table (opening ∷ closing ∷ sent_opening ∷ joined_closing ∷ [])

sent_opening-IsSound : IsSound sent_opening
unfolding status_eqb rank
sent_opening-IsSound = record { probes = λ h. cc; counted = λ h. absurd (h refl); dated = refl }

joined_closing-IsSound : IsSound joined_closing
unfolding status_eqb rank
joined_closing-IsSound = record { probes = λ h. cc; counted = λ h. absurd (h refl); dated = refl }

resting-IsTable : IsTable resting
resting-IsTable = record {
  apart = (
    (differs _ _ _ _ refl refl, (differs _ _ _ _ refl refl, (differs _ _ _ _ refl refl, tt))),
    (
      (differs _ _ _ _ refl refl, (differs _ _ _ _ refl refl, tt)),
      ((differs _ _ _ _ refl refl, tt), (tt, tt)),
    ),
  );
  numbered = (
    (1, refl, omega arith),
    ((2, refl, omega arith), ((3, refl, omega arith), ((4, refl, omega arith), tt))),
  );
  sound =
      (opening-IsSound, (closing-IsSound, (sent_opening-IsSound, (joined_closing-IsSound, tt))));
}

batch_of_two :
    (take_notification_batch units 125 resting).1
    ≡ item_of closing ∷ record joined_closing { status = sending } ∷ []
unfolding take_notification_batch take_next_notification taken is_claimable first_of
    predecessor_ready precedes batch_with batch_of candidates joined join_row status_eqb rank
batch_of_two = refl

joined_item :
    In (record joined_closing { status = sending }) (take_notification_batch units 125 resting).1
joined_item = rw batch_of_two (inr (inl refl))

closing_follows_example :
    ((sent ≡ sent) ⊎ (sent ≡ discarded))
    × (row_of (pos 3) (run units seal resting (takes_batch 125 ∷ delivery)).rows
        ≡ some sent_opening)
closing_follows_example =
    closing_follows units seal resting 125 (record joined_closing { status = sending }) sent_opening
      delivery resting-IsTable joined_item refl (inr (inr (inl refl)))
      ((pos 8, refl, refl), refl, refl)

take_next-Takes_example : Takes 200 busy (take_next_notification 200 busy).1
take_next-Takes_example = take_next-Takes 200 busy

abbrev timed_out : StoredFailure
timed_out = record {
  id = pos 4;
  channel_id = pos 6;
  channel_revision = pos 3;
  code = codes "timeout";
  last_error = codes "deadline exceeded";
  failed_at = 210;
  next_attempt_at = 510;
}

-- The failure of an attempt whose row has been sent in the meantime.
abbrev outdated : StoredFailure
outdated = record timed_out { id = pos 1; channel_id = pos 5 }

late-AnswersLate_example : AnswersLate 220 outdated 230 busy
unfolding status_eqb rank
late-AnswersLate_example = late-AnswersLate 220 outdated 230 busy channel_five refl refl

timed_out-IsTimely : IsTimely timed_out busy
unfolding status_eqb rank
timed_out-IsTimely = record {
  under_way = refl;
  room = (
    (omega arith, omega arith),
    ((omega arith, omega arith), ((omega arith, omega arith), ((omega arith, omega arith), tt))),
  );
  channels_room = (omega arith, (omega arith, tt));
}

channel_six-IsOpen : IsOpen channel_six (pos 3)
unfolding channel_version_changed
channel_six-IsOpen = record { kept = refl; enabled = refl; current = refl; positive = refl }

block-Silent_example : Ends (block_notification 220 timed_out busy) (Silent 400 (pos 6))
block-Silent_example =
    block-Silent 220 400 timed_out busy channel_six refl channel_six-IsOpen timed_out-IsTimely
      (omega arith)

abbrev new_notification : NotificationParams
new_notification = record {
  event_id = some (pos 9);
  transition = codes "closed";
  channel_id = pos 6;
  channel_type = codes "telegram";
  payload = text_of;
  dedupe_key = codes "alert:9:closed:6";
}

-- The events that there are.
abbrev is_event : ℤ → Bool
is_event id = id == pos 7 || id == pos 8 || id == pos 9

new_notification-IsAllowed : IsAllowed is_event busy new_notification
unfolding is_notify_type
new_notification-IsAllowed = (refl, refl, refl)

insert-Again_example :
    (t : Store) × (insert_notifications is_event (new_notification ∷ []) 240 busy ≡ ok t)
    × HasKeys (new_notification ∷ []) t.rows
    × Again (new_notification ∷ []) 300 t
insert-Again_example =
    insert-Again is_event (new_notification ∷ []) 240 300 busy (refl, tt)
      (new_notification-IsAllowed, tt)

-- The results at these inputs.
blocked_again :
    OnOk (λ t. status_of t (pos 4) ≡ some blocked) (block_notification 220 timed_out busy)
unfolding block_notification record_notification_failure failed_by uncounted_rows
    channel_version_changed count_failure update_sending_notification record_channel_failure
    coalesce_queued counted_failure notification_failure_updates status_of status_eqb rank
blocked_again = refl

inserted :
    OnOk
      (λ t. status_of t (pos 5) ≡ some pending)
      (insert_notifications is_event (new_notification ∷ []) 240 busy)
unfolding insert_notifications build_rows is_notify_type blocked_notification_schedule status_of
    status_eqb rank
inserted = refl
