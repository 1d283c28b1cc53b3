-- ===== src/Alert/Process.antt =====
-- internal/alert/service_eval.go and what it takes from service.go and service_notify.go:
-- one server's evaluation with its writes. What the store and the notification cache answer is the
-- environment, a function of the transition that they are asked about; each is asked once.
pub mod Cleared
pub mod Flushed
pub mod Accounts
pub mod Untouched
pub mod Keys
pub mod Outcome
pub mod Lasting
pub mod Total
use ithiltir.Shared.{
  ℕ, ◌+◌, ◌*◌, ◌-◌, Bool, true, false, not, ◌&&◌, ◌||◌, Option, none, some, List, [], ◌∷◌, ◌++◌,
}
use mathlib.Core.Option
use ithiltir.Shared.Tests.{◌==◌, ltb, leb, if◌then◌else◌, nat_eq}
use ithiltir.Shared.Text.{Text, text_eq}
use ithiltir.Shared.Lists.{contains}
use ithiltir.Shared.Maps.{lookup, insert, erase}
use ithiltir.Shared.Int.{ℤ, pos, ltb_ℤ, int_eq}
use ithiltir.Shared.Float.{Float}
use ithiltir.Shared.Time.{Time, nanos, is_zero, before}
use ithiltir.NodeView.{NodeView}
use ithiltir.Alert.Compile.{CompiledRule, CompiledRules, for_mounts}
use ithiltir.Alert.Runtime.{
  Phase, no_phase, pending, firing, cooldown, RuntimeState, OpenTransition, CloseTransition,
  CloseReason, rule_unmounted, condition_cleared, EvalResult, cooldown_after_close,
  new_cooldown_state, apply_open_transition, should_heartbeat_firing,
}
use ithiltir.Alert.Evaluate.{evaluate_server}
use ithiltir.Alert.Environment.{
  NotifyTargets, Notify, CloseStatus, CloseWrite, OpenWrite, TouchWrite, Env, notification_params,
  should_drop_runtime_after_close, is_closed, unavailable, notify, closed, not_found, close_done,
  close_stale, close_failed, open_done, open_stale, open_failed, touched, touch_failed,
}

module _ {F : Type 0} where
  unfoldable pub open_notification_params : Env F → OpenTransition F → Notify
  open_notification_params env t = notification_params (env.targets_for_open t)

  unfoldable pub close_notification_params : Env F → CloseTransition F → Notify
  close_notification_params env c = elim c.close_reason [
    | rule_unmounted ↦ notify []
    | condition_cleared ↦ notification_params (env.targets_for_close c)
  ]

  unfoldable pub filter_startup_opens :
      List (OpenTransition F) → Time → Time → List (OpenTransition F)
  filter_startup_opens ts now open_after =
      if is_zero open_after || not (before now open_after) then ts else []

abbrev pub firing_heartbeat_interval : ℤ
firing_heartbeat_interval = pos (60 * nanos)

-- The states and the keys that are being closed.
abbrev pub Closing : Type 0 → Type 0
Closing F = List (Text × RuntimeState F) × List Text

module _ {F : Type 0} ⦃fl : Float F⦄ where
  -- The states after a close transition has been written.
  unfoldable pub drop_closed :
      CloseTransition F → CloseStatus → List (Text × RuntimeState F) → List (Text × RuntimeState F)
  drop_closed c status next =
      let rest = erase c.key next in
      if should_drop_runtime_after_close status
      then (if cooldown_after_close c && is_closed status
          then insert c.key (new_cooldown_state c.rule c.closed_at) rest
          else rest)
      else next

  pub after_close_write : CloseTransition F → CloseWrite → Closing F → Closing F
  after_close_write c (close_done status) (next, keys) = (drop_closed c status next, c.key ∷ keys)
  after_close_write c close_stale (next, keys) = (erase c.key next, keys)
  after_close_write c close_failed (next, keys) = (next, keys)

  pub notified_close : Env F → CloseTransition F → Notify → Closing F → Closing F
  unfolding after_close_write
  notified_close env c unavailable st = st
  notified_close env c (notify channels) st = after_close_write c (env.write_close c channels) st

  -- The body of the loop over the close transitions.
  unfoldable pub write_close_transition : Env F → CloseTransition F → Closing F → Closing F
  unfolding notified_close
  write_close_transition env c st = notified_close env c (close_notification_params env c) st

  unfoldable pub write_close_transitions : Env F → List (CloseTransition F) → Closing F → Closing F
  write_close_transitions env [] st = st
  write_close_transitions env (c ∷ cs) st =
      write_close_transitions env cs (write_close_transition env c st)

  pub after_open_write :
      OpenTransition F → OpenWrite → List (Text × RuntimeState F) → List (Text × RuntimeState F)
  after_open_write t (open_done event_id) next =
      if ltb_ℤ (pos 0) event_id then apply_open_transition next t event_id else next
  after_open_write t open_stale next = next
  after_open_write t open_failed next = next

  pub notified_open :
      Env F
      → OpenTransition F
      → Notify
      → List (Text × RuntimeState F)
      → List (Text × RuntimeState F)
  unfolding after_open_write
  notified_open env t unavailable next = next
  notified_open env t (notify channels) next = after_open_write t (env.write_open t channels) next

  write_open_transition :
      Env F → OpenTransition F → List (Text × RuntimeState F) → List (Text × RuntimeState F)
  unfolding notified_open
  write_open_transition env t next = notified_open env t (open_notification_params env t) next

  -- `none` is the error of a rule that has no compiled snapshot, which ends the evaluation.
  unfoldable pub write_open_transitions :
      Env F
      → List (OpenTransition F)
      → List (Text × RuntimeState F)
      → Option (List (Text × RuntimeState F))
  unfolding write_open_transition
  write_open_transitions env [] next = some next
  write_open_transitions env (t ∷ ts) next =
      let rest = write_open_transitions env ts (write_open_transition env t next) in
      elim t.rule.snapshot_raw [ none ↦ none | some _ ↦ rest ]

  -- The states that a touch leaves for a key.
  touch_state : Text → RuntimeState F → TouchWrite → Option (RuntimeState F)
  touch_state key s touch_failed = some s
  touch_state key s (touched found) =
      if found then some (record s { last_db_heartbeat_at = s.last_observed_at }) else none

  -- The body of the loop of `flushHeartbeats`, with the state that the key had before.
  unfoldable pub flush_state :
      Env F → List Text → Text → RuntimeState F → Option (RuntimeState F) → Option (RuntimeState F)
  unfolding touch_state
  flush_state env keys key s none = some s
  flush_state env keys key s (some previous) =
      if should_heartbeat_firing previous s firing_heartbeat_interval (contains key keys)
      then touch_state key s (env.touch_open_event key s)
      else some s

  pub add_some :
      Text → Option (RuntimeState F) → List (Text × RuntimeState F) → List (Text × RuntimeState F)
  add_some key none rest = rest
  add_some key (some s) rest = (key, s) ∷ rest

  unfoldable pub flush_heartbeats :
      Env F
      → List (Text × RuntimeState F)
      → List Text
      → List (Text × RuntimeState F)
      → List (Text × RuntimeState F)
  unfolding flush_state add_some
  flush_heartbeats env current keys [] = []
  flush_heartbeats env current keys ((key, s) ∷ next) =
      add_some key (flush_state env keys key s (lookup key current))
        (flush_heartbeats env current keys next)

  -- processServer from the states that it has loaded to those that it saves, or its error.
  unfoldable pub process_server :
      Env F
      → ℤ
      → Option (NodeView F)
      → CompiledRules F
      → List (ℤ × Bool)
      → List (Text × RuntimeState F)
      → Time
      → Time
      → Option (List (Text × RuntimeState F))
  process_server env server_id snapshot compiled mounts current now open_after =
      let result = evaluate_server server_id snapshot (for_mounts compiled mounts) current now in
      let opens = filter_startup_opens result.open_transitions now open_after in
      let (next, keys) = write_close_transitions env result.close_transitions (result.next, []) in
      Option.map (flush_heartbeats env current keys) (write_open_transitions env opens next)
