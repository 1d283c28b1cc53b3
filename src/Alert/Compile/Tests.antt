-- ===== src/Alert/Compile/Tests.antt =====
-- The compiler at stored rules.
use ithiltir.Shared.{◌≡◌, refl, Option, none, some, List, [], ◌∷◌, inl}
use ithiltir.Shared.Tests.{nat_eq}
use ithiltir.Shared.Lists.{All}
use ithiltir.Shared.Text.{text_eq, trim_space, contains_control, is_space, is_control}
use ithiltir.Shared.Int.{ℤ, pos, int_eq}
use ithiltir.AlertSpec.Rules.{
  AlertRule, ok, normalize_rule_model, builtin_rules, normalize_metric, is_allowed_operator,
  is_allowed_threshold_mode, is_allowed_duration_sec, is_known_metric, supports_core_plus,
}
use ithiltir.AlertSpec.Extract.{metric_registry}
use ithiltir.Shared.Maps.{lookup}
use ithiltir.AlertSpec.Passing.{trimmed}
use ithiltir.Alert.Compile.{
  CompiledRule, CompiledRules, compile_rules, compile_all, compile_builtins, builtin_rule,
  encode_rule_snapshot, cons_some, compiled_of, snapshot_of,
}
use ithiltir.Alert.Compile.Sources.{Sourced, compile_rules-Sourced, rule_state_key_injective}
use ithiltir.Alert.Compile.Complete.{Has, compile_rules-Has}
use ithiltir.Alert.Samples.{int_float, noon, stored_rule}

abbrev pub stored_rules : List (AlertRule ℤ)
stored_rules = stored_rule ∷ []

abbrev builtins_or_none : Option (List (CompiledRule ℤ)) → List (CompiledRule ℤ)
builtins_or_none none = []
builtins_or_none (some rules) = rules

abbrev pub compiled_rules : CompiledRules ℤ
compiled_rules = compile_all stored_rules noon (builtins_or_none (compile_builtins builtin_rules))

pub compiled_rules_lem : compile_rules stored_rules noon ≡ some compiled_rules
unfolding compile_rules compile_builtins builtin_rule encode_rule_snapshot cons_some builtin_rules
compiled_rules_lem = refl

compile_rules-Sourced_example : All (Sourced stored_rules) compiled_rules.rules
compile_rules-Sourced_example =
    compile_rules-Sourced stored_rules noon compiled_rules compiled_rules_lem

pub stored_rule_valid : normalize_rule_model stored_rule ≡ ok (trimmed stored_rule)
unfolding normalize_rule_model normalize_metric trim_space contains_control is_allowed_operator
    is_allowed_threshold_mode is_allowed_duration_sec is_known_metric supports_core_plus
    metric_registry lookup is_space is_control
stored_rule_valid = refl

compile_rules-Has_example :
    Has compiled_rules.rules (compiled_of (trimmed stored_rule) (snapshot_of (trimmed stored_rule)))
compile_rules-Has_example =
    compile_rules-Has stored_rules noon compiled_rules stored_rule (trimmed stored_rule)
      compiled_rules_lem (inl refl) refl refl stored_rule_valid

rule_state_key_injective_example : (pos 3 ≡ pos 3) × (pos 1 ≡ pos 1)
rule_state_key_injective_example = rule_state_key_injective (pos 3) (pos 1) (pos 3) (pos 1) refl
