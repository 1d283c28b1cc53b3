-- ===== src/Outbox/Enqueue.antt =====
-- alert_notifications.go: how notifications enter the outbox, each under its dedupe key.
use ithiltir.Shared.{
  ℕ, suc, Bool, true, false, not, ◌&&◌, ◌||◌, Option, none, some, List, [], ◌∷◌, ◌++◌, map,
}
use ithiltir.Shared.Tests.{◌==◌, ltb, if◌then◌else◌, nat_eq}
use ithiltir.Shared.Int.{ℤ, pos, int_eq, leb_ℤ}
use ithiltir.Shared.Maps.{insert}
use ithiltir.Shared.Text.{Text, codes, text_eq, trim_space}
use ithiltir.Shared.Decimal.{format_int}
use ithiltir.Shared.Time.{Time, is_zero, before}
use ithiltir.Alert.Retry.{OutboxStatus, pending, blocked}
use ithiltir.Outbox.{
  Row, Payload, Store, Result, ok, missing_fields, key_too_long, constraint_violated, Channel,
  ◌>>=◌, ◌>>◌, reject_if, exists, filter, is_queued, status_eq,
}

-- alertstore.NotificationParams, and AlertNotificationParams with its transition.
pub record ChannelMessage : Type 0 where
  pub channel_id : ℤ
  pub channel_type : Text
  pub payload : Payload

pub record AlertNotificationParams : Type 0 where
  pub transition : Text
  pub message : ChannelMessage

pub record NotificationParams : Type 0 where
  pub event_id : Option ℤ
  pub transition : Text
  pub channel_id : ℤ
  pub channel_type : Text
  pub payload : Payload
  pub dedupe_key : Text

unfoldable pub alert_notification_dedupe_key : ℤ → Text → ℤ → Text
alert_notification_dedupe_key event_id transition channel_id =
    codes "alert:" ++ format_int event_id ++ b':' ∷ transition ++ b':' ∷ format_int channel_id

unfoldable pub notification_dedupe_key : Text → ℤ → Text
notification_dedupe_key key channel_id = key ++ b':' ∷ format_int channel_id

-- MIN(next_attempt_at) over the blocked rows of a channel.
abbrev pub earliest : List Row → Option Time → Option Time
earliest [] least = least
earliest (r ∷ rows) none = earliest rows (some r.next_attempt_at)
earliest (r ∷ rows) (some t) =
    earliest rows (some (if before r.next_attempt_at t then r.next_attempt_at else t))

-- The entry of blockedNotificationSchedules for a channel.
unfoldable pub blocked_notification_schedule : List Row → ℤ → Option Time
blocked_notification_schedule rows channel_id =
    if leb_ℤ channel_id (pos 0)
    then none
    else earliest (filter (is_queued channel_id (blocked ∷ [])) rows) none

abbrev pub scheduled_status : Option Time → OutboxStatus
scheduled_status none = pending
scheduled_status (some t) = blocked

abbrev pub scheduled_at : Time → Option Time → Time
scheduled_at now none = now
scheduled_at now (some t) = t

-- The row of a notification; the table gives it its number.
abbrev pub new_row : Time → Option Time → NotificationParams → ℕ → Row
new_row now schedule param id = record {
  id = pos id;
  event_id = param.event_id;
  transition = param.transition;
  channel_id = param.channel_id;
  channel_type = param.channel_type;
  payload = some param.payload;
  dedupe_key = param.dedupe_key;
  status = scheduled_status schedule;
  attempt_count = 0;
  probe_count = 0;
  is_probe = false;
  next_attempt_at = scheduled_at now schedule;
  failure_code = none;
  last_error = none;
  sent_at = none;
}

abbrev pub is_incomplete : NotificationParams → Bool
is_incomplete param =
    leb_ℤ param.channel_id (pos 0)
    || param.channel_type == []
    || param.transition == []
    || param.dedupe_key == []

-- The loop that builds the rows, each waiting for its number.
unfoldable pub build_rows : List Row → Time → List NotificationParams → Result (List (ℕ → Row))
unfolding blocked_notification_schedule
build_rows rows now [] = ok []
build_rows rows now (param ∷ params) = do
  reject_if (is_incomplete param) missing_fields
  built ← build_rows rows now params
  ok (new_row now (blocked_notification_schedule rows param.channel_id) param ∷ built)

abbrev pub has_key : Text → List Row → Bool
has_key key rows = exists (λ (r : Row). r.dedupe_key == key) rows

abbrev pub last_number : ℕ → List (ℕ → Row) → ℕ
last_number last [] = last
last_number last (make ∷ built) = last_number (suc last) built

-- The number comes from the sequence also where a row is left out for its dedupe key.
abbrev pub create_or_ignore : ℕ → List (ℕ → Row) → List Row → List Row
create_or_ignore last [] rows = rows
create_or_ignore last (make ∷ built) rows =
    create_or_ignore (suc last) built
      (if has_key (make (suc last)).dedupe_key rows then rows else rows ++ make (suc last) ∷ [])

-- The rows that the table gets.
abbrev pub new_rows : ℕ → List (ℕ → Row) → List Row → List Row
new_rows last [] rows = []
new_rows last (make ∷ built) rows =
    let known = has_key (make (suc last)).dedupe_key rows in
    let rest = new_rows (suc last) built (if known then rows else rows ++ make (suc last) ∷ []) in
    if known then rest else make (suc last) ∷ rest

-- The type notify_type of the schema.
unfoldable pub is_notify_type : Text → Bool
is_notify_type kind =
    kind == codes "telegram"
    || kind == codes "email"
    || kind == codes "webhook"
    || kind == codes "wechat"
    || kind == codes "slack"
    || kind == codes "discord"

-- The references of a row to the tables of events and of channels.
abbrev pub is_known : (ℤ → Bool) → Option ℤ → Bool
is_known is_event none = true
is_known is_event (some event_id) = is_event event_id

abbrev pub refers_well : (ℤ → Bool) → List Channel → Row → Bool
refers_well is_event channels r =
    is_known is_event r.event_id && exists (λ (c : Channel). c.id == r.channel_id) channels

-- Whether the database refuses the rows. References are tested for the rows that it inserts.
abbrev pub violates : (ℤ → Bool) → Store → List (ℕ → Row) → Bool
violates is_event s built =
    exists (λ (make : ℕ → Row). not (is_notify_type (make 0).channel_type)) built
    || exists (λ r. not (refers_well is_event s.channels r)) (new_rows s.last_id built s.rows)

-- `is_event` tells which events there are.
unfoldable pub insert_notifications :
    (ℤ → Bool) → List NotificationParams → Time → Store → Result Store
unfolding build_rows
insert_notifications is_event params now s = do
  built ← build_rows s.rows now params
  reject_if (violates is_event s built) constraint_violated
  ok (record s {
    rows = create_or_ignore s.last_id built s.rows;
    last_id = last_number s.last_id built;
  })

unfoldable pub alert_params : ℤ → AlertNotificationParams → NotificationParams
unfolding alert_notification_dedupe_key
alert_params event_id param =
    let message = param.message in
    let key = alert_notification_dedupe_key event_id param.transition message.channel_id in
    record {
      event_id = some event_id;
      transition = param.transition;
      channel_id = message.channel_id;
      channel_type = message.channel_type;
      payload = record message.payload {
        metadata = insert (codes "dedupe_key") key (
            insert (codes "transition") param.transition
              (insert (codes "event_id") (format_int event_id) message.payload.metadata));
      };
      dedupe_key = key;
    }

unfoldable pub insert_alert_notifications :
    (ℤ → Bool) → ℤ → List AlertNotificationParams → Time → Store → Result Store
unfolding insert_notifications alert_params
insert_alert_notifications is_event event_id params now s =
    insert_notifications is_event (map (alert_params event_id) params) now s

-- `len` of a string counts its bytes.
abbrev pub utf8_length : Text → ℕ
utf8_length [] = 0
utf8_length (c ∷ s) =
    let rest = utf8_length s in
    if ltb c 0x80
    then suc rest
    else if ltb c 0x800
    then suc (suc rest)
    else if ltb c 0x10000
    then suc (suc (suc rest))
    else suc (suc (suc (suc rest)))

unfoldable pub build_items : Text → Text → List ChannelMessage → Result (List NotificationParams)
unfolding notification_dedupe_key
build_items key event [] = ok []
build_items key event (param ∷ params) =
    let dedupe_key = notification_dedupe_key key param.channel_id in
    do
      reject_if (ltb 255 (utf8_length dedupe_key)) key_too_long
      built ← build_items key event params
      ok (
          record {
            event_id = none;
            transition = event;
            channel_id = param.channel_id;
            channel_type = param.channel_type;
            payload = param.payload;
            dedupe_key = dedupe_key;
          }
          ∷ built)

unfoldable pub enqueue_notifications :
    Time → Text → Text → List ChannelMessage → Time → Store → Result Store
unfolding insert_notifications build_items
enqueue_notifications clock key event params now s = do
  reject_if (trim_space key == [] || trim_space event == []) missing_fields
  items ← build_items (trim_space key) (trim_space event) params
  insert_notifications (λ id. false) items (if is_zero now then clock else now) s
