-- ===== src/AlertEvents.antt =====
-- internal/store/alert/alert_events.go: how events are opened_event, touched and closed, each together with
-- the notifications of its transition (Outbox).
pub mod Repeats
pub mod History
mod Tests
use ithiltir.Shared.{
  ℕ, suc, Bool, true, false, not, ◌&&◌, ◌||◌, Option, none, some, List, [], ◌∷◌, ◌++◌,
}
use ithiltir.Shared.Tests.{◌==◌, ltb, if◌then◌else◌}
use ithiltir.Shared.Int.{ℤ, pos, int_eq, leb_ℤ, ltb_ℤ}
use ithiltir.Shared.Text.{Text, text_eq}
use ithiltir.Shared.Time.{Time}
use ithiltir.AlertSpec.Rules.{AlertRule}
use ithiltir.Outbox.{
  Store, Result, ok, failed, rule_stale, ◌>>=◌, update_where, find, exists, empty_to_nil,
}
use ithiltir.Outbox.Enqueue.{AlertNotificationParams, insert_alert_notifications}

pub data AlertStatus : Type 0 where
  alert_open alert_closed : AlertStatus

abbrev pub is_open : AlertStatus → Bool
is_open alert_open = true
is_open alert_closed = false

-- model.AlertEvent
pub record AlertEvent (F : Type 0) : Type 0 where
  pub id : ℤ
  pub rule_id : ℤ
  pub rule_generation : ℤ
  pub rule_snapshot : Text
  pub object_type : Text
  pub object_id : ℤ
  pub status : AlertStatus
  pub first_trigger_at : Time
  pub last_trigger_at : Time
  pub closed_at : Option Time
  pub current_value : Option F
  pub effective_threshold : Option F
  pub close_reason : Option Text
  pub title : Option Text
  pub message : Option Text

pub record AlertOpenEventParams (F : Type 0) : Type 0 where
  pub rule_id : ℤ
  pub rule_generation : ℤ
  pub is_builtin : Bool
  pub rule_snapshot : Text
  pub object_type : Text
  pub object_id : ℤ
  pub triggered_at : Time
  pub current_value : F
  pub effective_threshold : F
  pub title : Text
  pub message : Text
  pub notifications : List AlertNotificationParams

pub record AlertOpenEventResult : Type 0 where
  pub event_id : ℤ
  pub created : Bool

pub record AlertCloseEventParams (F : Type 0) : Type 0 where
  pub event_id : ℤ
  pub rule_id : ℤ
  pub rule_generation : ℤ
  pub object_type : Text
  pub object_id : ℤ
  pub closed_at : Time
  pub current_value : Option F
  pub close_reason : Text
  pub notifications : List AlertNotificationParams

-- The event that has been closed, or that none was found.
pub data AlertCloseEventResult : Type 0 where
  event_closed : ℤ → AlertCloseEventResult
  event_not_found : AlertCloseEventResult

-- The tables, with the sequence of the events.
pub record EventStore (F : Type 0) : Type 0 where
  pub events : List (AlertEvent F)
  pub rules : List (AlertRule F)
  pub outbox : Store
  pub last_event : ℕ

module _ {F : Type 0} where
  -- The columns of the unique index on open events.
  abbrev pub is_open_at : ℤ → ℤ → Text → ℤ → AlertEvent F → Bool
  is_open_at rule_id generation object_type object_id e =
      is_open e.status
      && e.rule_id == rule_id
      && e.rule_generation == generation
      && e.object_type == object_type
      && e.object_id == object_id

  abbrev pub is_conflict : AlertOpenEventParams F → AlertEvent F → Bool
  is_conflict p e = is_open_at p.rule_id p.rule_generation p.object_type p.object_id e

  -- The rule is stored in this generation, enabled and not deleted.
  abbrev pub is_current : ℤ → ℤ → AlertRule F → Bool
  is_current id generation r =
      r.id == id && r.generation == generation && r.enabled && not r.is_deleted

  unfoldable pub rule_holds : AlertOpenEventParams F → List (AlertRule F) → Bool
  rule_holds p rules = p.is_builtin || exists (is_current p.rule_id p.rule_generation) rules

  abbrev pub open_event : AlertOpenEventParams F → ℤ → AlertEvent F
  open_event p id = record {
    id = id;
    rule_id = p.rule_id;
    rule_generation = p.rule_generation;
    rule_snapshot = p.rule_snapshot;
    object_type = p.object_type;
    object_id = p.object_id;
    status = alert_open;
    first_trigger_at = p.triggered_at;
    last_trigger_at = p.triggered_at;
    closed_at = none;
    current_value = some p.current_value;
    effective_threshold = some p.effective_threshold;
    close_reason = none;
    title = empty_to_nil p.title;
    message = empty_to_nil p.message;
  }

  -- The number of the inserted event, none where the rule or the index keeps it out. The sequence goes
  -- on also where the index does.
  unfoldable pub insert_open_event : AlertOpenEventParams F → EventStore F → Option ℤ × EventStore F
  unfolding rule_holds
  insert_open_event p s =
      if not (rule_holds p s.rules)
      then (none, s)
      else if exists (is_conflict p) s.events
      then (none, record s { last_event = suc s.last_event })
      else (
        some (pos (suc s.last_event)),
        record s {
          events = s.events ++ open_event p (pos (suc s.last_event)) ∷ [];
          last_event = suc s.last_event;
        },
      )

  -- The event that is open already, if the rule still holds.
  abbrev pub stands_open :
      Bool → Option (AlertEvent F) → EventStore F → Result (AlertOpenEventResult × EventStore F)
  stands_open true (some e) s = ok (record { event_id = e.id; created = false }, s)
  stands_open _ _ s = failed rule_stale

  abbrev pub has_event : EventStore F → ℤ → Bool
  has_event s id = exists (λ (e : AlertEvent F). e.id == id) s.events

  unfoldable pub opened_event :
      AlertOpenEventParams F
      → Time
      → Option ℤ × EventStore F
      → Result (AlertOpenEventResult × EventStore F)
  opened_event p now (none, s) =
      stands_open (rule_holds p s.rules) (find (is_conflict p) s.events) s
  opened_event p now (some id, s) = do
    outbox ← insert_alert_notifications (has_event s) id p.notifications now s.outbox
    ok (record { event_id = id; created = true }, record s { outbox = outbox })

  unfoldable pub write_open_event :
      AlertOpenEventParams F → Time → EventStore F → Result (AlertOpenEventResult × EventStore F)
  unfolding opened_event insert_open_event
  write_open_event p now s = opened_event p now (insert_open_event p s)

  abbrev pub is_closing : AlertCloseEventParams F → AlertEvent F → Bool
  is_closing p e =
      if ltb_ℤ (pos 0) p.event_id
      then is_open e.status && e.id == p.event_id
      else is_open_at p.rule_id p.rule_generation p.object_type p.object_id e

  abbrev pub or_kept : Option F → Option F → Option F
  or_kept none old = old
  or_kept (some v) old = some v

  abbrev pub as_closed : AlertCloseEventParams F → AlertEvent F → AlertEvent F
  as_closed p e = record e {
    status = alert_closed;
    closed_at = some p.closed_at;
    last_trigger_at = p.closed_at;
    close_reason = empty_to_nil p.close_reason;
    current_value = or_kept p.current_value e.current_value;
  }

  unfoldable pub close_found :
      AlertCloseEventParams F
      → Time
      → Option (AlertEvent F)
      → EventStore F
      → Result (AlertCloseEventResult × EventStore F)
  close_found p now none s = ok (event_not_found, s)
  close_found p now (some e) s = do
    outbox ← insert_alert_notifications (has_event s) e.id p.notifications now s.outbox
    ok (
      event_closed e.id,
      record s {
        events = update_where (λ (d : AlertEvent F). d.id == e.id) (as_closed p) s.events;
        outbox = outbox;
      },
    )

  unfoldable pub write_close_event :
      AlertCloseEventParams F → Time → EventStore F → Result (AlertCloseEventResult × EventStore F)
  unfolding close_found
  write_close_event p now s = close_found p now (find (is_closing p) s.events) s

  abbrev pub is_touched : ℤ → AlertEvent F → Bool
  is_touched id e = e.id == id && is_open e.status

  unfoldable pub touch_event : ℤ → Time → F → F → EventStore F → Bool × EventStore F
  touch_event id triggered_at value threshold s = if leb_ℤ id (pos 0) then (false, s) else (
    exists (is_touched id) s.events,
    record s {
      events =
          update_where (is_touched id)
            (λ (e : AlertEvent F). record e {
              last_trigger_at = triggered_at;
              current_value = some value;
              effective_threshold = some threshold;
              close_reason = none;
            })
            s.events;
    },
  )
