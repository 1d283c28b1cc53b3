-- ===== src/StoredRules/Tests.antt =====
-- Tests of the stored rules, and their theorems at one rule.
use ithiltir.Shared.{zero, suc, ◌≡◌, refl, map, none, some, List, [], ◌∷◌}
use ithiltir.Shared.Int.{ℤ, pos, negsuc}
use ithiltir.Shared.Text.{Text, codes, trim_space, is_space, contains_control, is_control}
use ithiltir.Shared.Maps.{lookup}
use ithiltir.Shared.Decimal.{format_int}
use ithiltir.AlertSpec.Extract.{metric_registry}
use ithiltir.AlertSpec.Rules.{
  AlertRule, normalize_rule_model, normalize_metric, is_known_metric, is_allowed_operator,
  is_allowed_threshold_mode, is_allowed_duration_sec, prepare_create_rule,
}
use ithiltir.Alert.Samples.{int_float, int_plus, stored_rule}
use ithiltir.StoredRules.{RuleStore, AlertControlTask, Outcome, done, enqueue_control_task}
use ithiltir.StoredRules.Fields.{
  AlertRulePatch, FloatDistance, change_key, apply_patch, updates_from_patch, next_generation,
}
use ithiltir.StoredRules.Patch.{patch_rule, delete_rule, create_rule}
use ithiltir.StoredRules.Answers.{Answers}
use ithiltir.StoredRules.Deleting.{Deletes, delete_rule-Deletes}

abbrev negated : ℤ → ℤ
negated (pos zero) = pos 0
negated (pos (suc n)) = negsuc n
negated (negsuc n) = pos (suc n)

abbrev absolute : ℤ → ℤ
absolute (pos n) = pos n
absolute (negsuc n) = pos (suc n)

instance abbrev int_distance : FloatDistance ℤ
int_distance = record { minus = λ a b. int_plus a (negated b); abs = absolute; billionth = pos 1 }

abbrev tables : RuleStore ℤ
tables = record { rules = stored_rule ∷ []; mounts = []; tasks = []; last_rule = 3; last_task = 7 }

-- A longer duration.
abbrev patch : AlertRulePatch ℤ
patch = record {
  name = none;
  enabled = none;
  metric = none;
  operator = none;
  threshold = none;
  duration_sec = some (pos 300);
  cooldown_min = none;
  threshold_mode = none;
  threshold_offset = none;
}

abbrev keys : Outcome (RuleStore ℤ) → List Text
keys (done t) = map (λ (k : AlertControlTask). k.dedupe_key) t.tasks
keys _ = []

abbrev generations : Outcome (RuleStore ℤ) → List ℤ
generations (done t) = map (λ (r : AlertRule ℤ). r.generation) t.rules
generations _ = []

-- The rule's next generation is announced; a new name alone is not.
patched_keys : keys (patch_rule (pos 3) patch 9 tables) ≡ codes "rule_change:rule:3:gen:2" ∷ []
unfolding patch_rule normalize_rule_model normalize_metric is_known_metric is_allowed_operator
    is_allowed_threshold_mode is_allowed_duration_sec metric_registry lookup trim_space is_space
    contains_control is_control apply_patch updates_from_patch next_generation enqueue_control_task
    change_key format_int
patched_keys = refl

renamed_keys :
    keys (
      patch_rule (pos 3) (record patch { duration_sec = none; name = some (codes "cpu") }) 9 tables)
    ≡ []
unfolding patch_rule normalize_rule_model normalize_metric is_known_metric is_allowed_operator
    is_allowed_threshold_mode is_allowed_duration_sec metric_registry lookup trim_space is_space
    contains_control is_control apply_patch updates_from_patch
renamed_keys = refl

deleted_generations : generations (delete_rule (pos 3) 9 tables) ≡ pos 2 ∷ []
unfolding delete_rule enqueue_control_task
deleted_generations = refl

created_generations :
    generations (create_rule (record stored_rule { id = pos 0 }) 9 tables) ≡ pos 1 ∷ pos 1 ∷ []
unfolding create_rule prepare_create_rule enqueue_control_task normalize_rule_model normalize_metric
    is_known_metric is_allowed_operator is_allowed_threshold_mode is_allowed_duration_sec
    metric_registry lookup trim_space is_space contains_control is_control
created_generations = refl

delete_rule-Deletes_example : Deletes (pos 3) 9 tables (delete_rule (pos 3) 9 tables)
delete_rule-Deletes_example = delete_rule-Deletes (pos 3) 9 tables
