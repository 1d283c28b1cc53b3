-- ===== src/Alert/Tests.antt =====
-- Tests of the alert service, and its theorems at concrete inputs.
use ithiltir.Shared.{
  ◌+◌, ◌≡◌, refl, Bool, true, Option, none, some, List, [], ◌∷◌, map, ◌⊎◌, ◌↔◌, ◌*◌,
}
use ithiltir.Shared.Lists.{All}
use ithiltir.Shared.Text.{Text, codes, text_eq}
use ithiltir.Shared.Maps.{lookup, Unique}
use ithiltir.Shared.Int.{ℤ, pos}
use ithiltir.Shared.Rfc3339.{parse_rfc3339}
use ithiltir.AlertSpec.Rules.{effective_threshold, ok, normalize_rule_model}
use ithiltir.Alert.Runtime.{EvalResult, OpenTransition, CloseTransition, RuntimeState}
use ithiltir.Alert.Evaluate.{evaluate_server, scene_of, Scene}
use ithiltir.Alert.Evaluate.Kept.{Fits}
use ithiltir.Alert.Evaluate.Closes.{ClosesWell, OpensWell}
use ithiltir.Alert.Evaluate.Result.{
  evaluate_server-Fits, evaluate_server-ClosesWell, evaluate_server-Sustained, Sustained,
  evaluate_server-OpensWell,
}
use ithiltir.Alert.Samples.{
  int_float, noon, later, sample_view, sample_rules, sample_states, stored_rule, firing_state,
  sample_env,
}
use ithiltir.Shared.Tests.{if◌then◌else◌}
use ithiltir.Shared.Float.{finite}
use ithiltir.Shared.Time.{Time, nanos}
use ithiltir.AlertSpec.Extract.{resolve_cpu_cores}
use ithiltir.AlertSpec.Passing.{trimmed}
use ithiltir.AlertSpec.Laws.{
  IsValidRule, normalize_rule_model_iff, normalize_rule_model_idem, threshold_of,
  effective_threshold-normalize,
}
use ithiltir.Alert.Compile.Tests.{
  stored_rules, compiled_rules, compiled_rules_lem, stored_rule_valid,
}
use ithiltir.Alert.Process.{process_server, filter_startup_opens}
use ithiltir.Alert.Saving.{save_runtime_state}
use ithiltir.Alert.Process.Accounts.{Accounted}
use ithiltir.Alert.Process.Outcome.{
  evaluated, process_server-Accounted, NoneNew, process_server-NoneNew,
}
use ithiltir.Alert.Process.Lasting.{Lasts, process_server-Lasts}
use ithiltir.Alert.Saving.Merge.{Merged, save_runtime_state-Merged}
use ithiltir.Alert.Process.Total.{process_server_total}
use ithiltir.Alert.Retry.{OutboxItem, NotificationFailure, retry, fail_notification}
use ithiltir.Alert.Retry.Delays.{Scheduled, fail_notification-Scheduled}

-- A probe that fails for the third time, on a channel that asks for a wait of a minute.
abbrev failed_probe : OutboxItem
failed_probe = record { is_probe = true; attempt_count = 3; probe_count = 2 }

abbrev timed_out : NotificationFailure
timed_out = record { status = retry; retry_after = pos (60 * nanos) }

parses : parse_rfc3339 (codes "2024-05-01T02:01:30.5+02:00") ≡ some (later + 500_000_000)
unfolding parse_rfc3339
parses = refl

result : EvalResult ℤ
result = evaluate_server (pos 7) (some sample_view) sample_rules sample_states later

opened : List Text
opened = map (λ (t : OpenTransition ℤ). t.key) result.open_transitions

closed : List ℤ
closed = map (λ (t : CloseTransition ℤ). t.event_id) result.close_transitions

abbrev sample_result : EvalResult ℤ
sample_result = evaluate_server (pos 7) (some sample_view) sample_rules sample_states later

sample_states-Unique : Unique sample_states
unfolding lookup
sample_states-Unique = (refl, (refl, tt))

gone_fires : lookup (codes "9:2") sample_states ≡ some firing_state
unfolding lookup
gone_fires = refl

evaluate_server-Fits_example :
    Fits (lookup (codes "9:2") sample_states) (lookup (codes "9:2") sample_result.next)
evaluate_server-Fits_example =
    evaluate_server-Fits (pos 7) (some sample_view) sample_rules sample_states later (codes "9:2")
      sample_states-Unique

evaluate_server-ClosesWell_example : All (ClosesWell sample_states) sample_result.close_transitions
evaluate_server-ClosesWell_example =
    evaluate_server-ClosesWell (pos 7) (some sample_view) sample_rules sample_states later
      sample_states-Unique

evaluate_server-OpensWell_example :
    (sample_result.open_transitions ≡ [])
    ⊎ ((sc : Scene ℤ) × (scene_of (pos 7) (some sample_view) later ≡ some sc)
        × All (OpensWell sc sample_states) sample_result.open_transitions)
evaluate_server-OpensWell_example =
    evaluate_server-OpensWell (pos 7) (some sample_view) sample_rules sample_states later

evaluate_server-Sustained_example : All (Sustained sample_states) sample_result.open_transitions
evaluate_server-Sustained_example =
    evaluate_server-Sustained (pos 7) (some sample_view) sample_rules sample_states later

-- The rules that the compiler gives for the stored rule, on a server without mounts but for it.
abbrev mounts : List (ℤ × Bool)
mounts = (pos 3, true) ∷ []

abbrev processed : Time → Option (List (Text × RuntimeState ℤ))
processed open_after =
    process_server sample_env (pos 7) (some sample_view) compiled_rules mounts sample_states later
      open_after

abbrev outcome :
    (open_after : Time) → (next : List (Text × RuntimeState ℤ)) × (processed open_after ≡ some next)
outcome open_after =
    process_server_total stored_rules noon compiled_rules sample_env (pos 7) (some sample_view)
      mounts sample_states later open_after compiled_rules_lem

process_server_total_example : (next : List (Text × RuntimeState ℤ)) × (processed 0 ≡ some next)
process_server_total_example =
    process_server_total stored_rules noon compiled_rules sample_env (pos 7) (some sample_view)
      mounts sample_states later 0 compiled_rules_lem

process_server-Accounted_example :
    Accounted
      (lookup (codes "3:1") sample_states)
      sample_env
      (filter_startup_opens
        (evaluated
          (pos 7)
          (some sample_view)
          compiled_rules
          mounts
          sample_states
          later).open_transitions
        later
        0)
      (codes "3:1")
      (lookup (codes "3:1") (outcome 0).0)
process_server-Accounted_example =
    process_server-Accounted sample_env (pos 7) (some sample_view) compiled_rules mounts
      sample_states later 0 (outcome 0).0 (codes "3:1") sample_states-Unique (outcome 0).1

process_server-NoneNew_example :
    NoneNew (lookup (codes "3:1") sample_states) (lookup (codes "3:1") (outcome (later + 1)).0)
process_server-NoneNew_example =
    process_server-NoneNew sample_env (pos 7) (some sample_view) compiled_rules mounts sample_states
      later (later + 1) (outcome (later + 1)).0 (codes "3:1") sample_states-Unique refl refl
      (outcome (later + 1)).1

process_server-Lasts_example :
    Lasts sample_env
      (evaluated
        (pos 7)
        (some sample_view)
        compiled_rules
        mounts
        sample_states
        later).close_transitions
      (codes "9:2")
      firing_state
      (lookup (codes "9:2") (outcome 0).0)
process_server-Lasts_example =
    process_server-Lasts sample_env (pos 7) (some sample_view) compiled_rules mounts sample_states
      later 0 (outcome 0).0 (codes "9:2") firing_state sample_states-Unique gone_fires refl
      (outcome 0).1

-- The evaluation drops one key and the store has changed the other meanwhile.
abbrev stored_states : List (Text × RuntimeState ℤ)
stored_states = (codes "3:1", firing_state) ∷ (codes "9:2", firing_state) ∷ []

save_runtime_state-Merged_example :
    Merged
      (lookup (codes "9:2") sample_states)
      (lookup (codes "9:2") [])
      (lookup (codes "9:2") stored_states)
      (lookup (codes "9:2") (save_runtime_state sample_states [] stored_states))
save_runtime_state-Merged_example =
    save_runtime_state-Merged (codes "9:2") sample_states [] stored_states sample_states-Unique tt

normalize_rule_model_iff_example :
    (normalize_rule_model stored_rule ≡ ok (trimmed stored_rule))
    ↔ ((trimmed stored_rule ≡ trimmed stored_rule) × IsValidRule (trimmed stored_rule))
normalize_rule_model_iff_example = normalize_rule_model_iff stored_rule (trimmed stored_rule)

normalize_rule_model_idem_example :
    normalize_rule_model (trimmed stored_rule) ≡ ok (trimmed stored_rule)
normalize_rule_model_idem_example =
    normalize_rule_model_idem stored_rule (trimmed stored_rule) stored_rule_valid

effective_threshold-normalize_example :
    (((trimmed stored_rule).threshold_mode ≡ codes "static")
      × (effective_threshold (threshold_of (trimmed stored_rule)) sample_view ≡ some (pos 5)))
    ⊎ (((trimmed stored_rule).threshold_mode ≡ codes "core_plus")
        × (effective_threshold (threshold_of (trimmed stored_rule)) sample_view ≡ (
            let sum =
              int_float.plus (int_float.plus (resolve_cpu_cores sample_view) (pos 5)) (pos 0) in
            if finite sum then some sum else none)))
effective_threshold-normalize_example =
    effective_threshold-normalize stored_rule (trimmed stored_rule) sample_view stored_rule_valid

fail_notification-Scheduled_example :
    Scheduled failed_probe timed_out later (fail_notification failed_probe timed_out later)
fail_notification-Scheduled_example = fail_notification-Scheduled failed_probe timed_out later
