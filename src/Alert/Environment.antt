-- ===== src/Alert/Environment.antt =====
-- What processServer of internal/alert/service_eval.go asks: the cache of notification targets of
-- notify_cache.go and service_notify.go, and the store of internal/store/alert.
use ithiltir.Shared.{Bool, true, false, not, ◌&&◌, List, []}
use ithiltir.Shared.Tests.{if◌then◌else◌, nat_eq}
use ithiltir.Shared.Text.{Text, text_eq}
use ithiltir.Shared.Int.{ℤ, int_eq}
use ithiltir.Alert.Runtime.{RuntimeState, OpenTransition, CloseTransition}

-- notifyTargets, with the identifiers of its channels.
pub record NotifyTargets : Type 0 where
  pub enabled : Bool
  pub channels : List ℤ
  pub ready : Bool

-- What notificationParams gives: errNotificationTargetsUnavailable, or the channels of the
-- notifications, also where cached targets are used after an error.
pub data Notify : Type 0 where
  unavailable : Notify
  notify : List ℤ → Notify

pub data CloseStatus : Type 0 where
  closed not_found : CloseStatus

-- The answers of WriteCloseTransition, WriteOpenTransition and TouchOpenEvent: stale is
-- ErrAlertRuleVersionStale, failed any other error.
pub data CloseWrite : Type 0 where
  close_done : CloseStatus → CloseWrite
  close_stale close_failed : CloseWrite

pub data OpenWrite : Type 0 where
  open_done : ℤ → OpenWrite
  open_stale open_failed : OpenWrite

pub data TouchWrite : Type 0 where
  touched : Bool → TouchWrite
  touch_failed : TouchWrite

-- `targets_*` are the targets of the cache and whether it met an error.
pub record Env (F : Type 0) : Type 0 where
  pub targets_for_close : CloseTransition F → NotifyTargets × Bool
  pub targets_for_open : OpenTransition F → NotifyTargets × Bool
  pub write_close : CloseTransition F → List ℤ → CloseWrite
  pub write_open : OpenTransition F → List ℤ → OpenWrite
  pub touch_open_event : Text → RuntimeState F → TouchWrite

unfoldable pub notification_params : NotifyTargets × Bool → Notify
notification_params (targets, failed) =
    if failed && not targets.ready
    then unavailable
    else if not targets.enabled
    then notify []
    else notify targets.channels

unfoldable pub should_drop_runtime_after_close : CloseStatus → Bool
should_drop_runtime_after_close closed = true
should_drop_runtime_after_close not_found = true

abbrev pub is_closed : CloseStatus → Bool
is_closed closed = true
is_closed not_found = false
