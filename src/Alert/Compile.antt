-- ===== src/Alert/Compile.antt =====
-- internal/alert/compiler.go: from the stored rules to the rules that are evaluated. A rule's JSON
-- snapshot is kept as the value that it encodes.
pub mod Sources
pub mod Complete
pub mod Tests
use ithiltir.Shared.{
  ℕ, ◌+◌, ◌*◌, ◌-◌, ◌%◌, ◌^◌, Bool, true, false, not, ◌&&◌, ◌||◌, Option, none, some, List, [], ◌∷◌,
  ◌++◌,
}
use mathlib.Core.Option
use ithiltir.Shared.Tests.{◌==◌, ltb, if◌then◌else◌}
use ithiltir.Shared.Text.{Text, codes, text_eq}
use ithiltir.Shared.Maps.{lookup, insert}
use ithiltir.Shared.Int.{ℤ, pos, ltb_ℤ, int_eq}
use ithiltir.Shared.Decimal.{format_int}
use ithiltir.Shared.Float.{Float, zero_f, finite}
use ithiltir.Shared.Time.{Time, nanos}
use ithiltir.AlertSpec.Rules.{
  AlertRule, BuiltinRule, ValidationError, Checked, ok, invalid, builtin_rules,
  normalize_rule_model,
}

pub record RuleSnapshot (F : Type 0) : Type 0 where
  pub rule_id : ℤ
  pub generation : ℤ
  pub builtin : Bool
  pub name : Text
  pub metric : Text
  pub operator : Text
  pub threshold : F
  pub duration_sec : ℤ
  pub cooldown_min : ℤ
  pub threshold_mode : Text
  pub threshold_offset : F
  pub updated_at : Time

-- Why a rule is left out: it is invalid, or its snapshot cannot be encoded.
pub data Reason : Type 0 where
  not_valid : ValidationError → Reason
  not_encoded : Reason

pub record InvalidRule : Type 0 where
  pub rule_id : ℤ
  pub generation : ℤ
  pub reason : Reason

pub record CompiledRule (F : Type 0) : Type 0 where
  pub rule_id : ℤ
  pub builtin : Bool
  pub name : Text
  pub generation : ℤ
  pub metric : Text
  pub operator : Text
  pub threshold : F
  pub duration_sec : ℤ
  pub cooldown_min : ℤ
  pub threshold_mode : Text
  pub threshold_offset : F
  pub generation_updated_at : Time
  pub snapshot_raw : Option (RuleSnapshot F)

pub record CompiledRules (F : Type 0) : Type 0 where
  pub rules : List (CompiledRule F)
  pub by_state_key : List (Text × CompiledRule F)
  pub invalid_rules : List InvalidRule
  pub refreshed_at : Time

unfoldable pub rule_state_key : ℤ → ℤ → Text
rule_state_key rule_id generation = format_int rule_id ++ b':' ∷ format_int generation

-- time.Unix(0, 0): 62135596800 seconds from the zero time.
abbrev pub unix_epoch : Time
unix_epoch = 62_135_596_800 * nanos

module _ {F : Type 0} where
  unfoldable pub state_key : CompiledRule F → Text
  unfolding rule_state_key
  state_key r = rule_state_key r.rule_id r.generation

  unfoldable pub rule_mounted : CompiledRule F → List (ℤ × Bool) → Bool
  rule_mounted rule mounts = elim (lookup rule.rule_id mounts) [
    | some enabled ↦ enabled
    | none ↦ rule.builtin
  ]

  unfoldable pub add : CompiledRules F → CompiledRule F → CompiledRules F
  add r rule = record r {
    rules = r.rules ++ rule ∷ [];
    by_state_key = insert (state_key rule) rule r.by_state_key;
  }

  unfoldable pub add_mounted :
      List (ℤ × Bool) → CompiledRules F → List (CompiledRule F) → CompiledRules F
  add_mounted mounts out [] = out
  add_mounted mounts out (rule ∷ rules) =
      let known = insert (state_key rule) rule out.by_state_key in
      add_mounted mounts
        (record out {
          by_state_key = known;
          rules = if rule_mounted rule mounts then out.rules ++ rule ∷ [] else out.rules;
        })
        rules

  unfoldable pub for_mounts : CompiledRules F → List (ℤ × Bool) → CompiledRules F
  for_mounts r mounts = add_mounted mounts (record r { rules = []; by_state_key = [] }) r.rules

  -- The order of the rules.
  unfoldable pub rule_less : CompiledRule F → CompiledRule F → Bool
  rule_less a b =
      if a.rule_id == b.rule_id then ltb_ℤ a.generation b.generation else ltb_ℤ a.rule_id b.rule_id

  unfoldable pub insert_sorted : CompiledRule F → List (CompiledRule F) → List (CompiledRule F)
  insert_sorted a [] = a ∷ []
  insert_sorted a (b ∷ rules) =
      let rest = b ∷ insert_sorted a rules in if rule_less b a then rest else a ∷ b ∷ rules

  -- sort.Slice
  unfoldable pub sort_rules : List (CompiledRule F) → List (CompiledRule F)
  unfolding insert_sorted
  sort_rules [] = []
  sort_rules (a ∷ rules) = insert_sorted a (sort_rules rules)

-- The two results of `compileRule`.
pub data Outcome (F : Type 0) : Type 0 where
  compiled : CompiledRule F → Outcome F
  left_out : InvalidRule → Outcome F

module _ {F : Type 0} ⦃fl : Float F⦄ where
  -- JSON has no NaN and no infinity.
  unfoldable pub encode_rule_snapshot : RuleSnapshot F → Option (RuleSnapshot F)
  encode_rule_snapshot s = if finite s.threshold && finite s.threshold_offset then some s else none

  abbrev invalid_rule : AlertRule F → Reason → InvalidRule
  invalid_rule item reason = record {
    rule_id = item.id;
    generation = item.generation;
    reason = reason;
  }

  abbrev compiled_of : AlertRule F → RuleSnapshot F → CompiledRule F
  compiled_of r snapshot = record {
    rule_id = r.id;
    builtin = false;
    name = r.name;
    generation = r.generation;
    metric = r.metric;
    operator = r.operator;
    threshold = r.threshold;
    duration_sec = r.duration_sec;
    cooldown_min = r.cooldown_min;
    threshold_mode = r.threshold_mode;
    threshold_offset = r.threshold_offset;
    generation_updated_at = r.updated_at;
    snapshot_raw = some snapshot;
  }

  abbrev snapshot_of : AlertRule F → RuleSnapshot F
  snapshot_of r = record {
    rule_id = r.id;
    generation = r.generation;
    builtin = false;
    name = r.name;
    metric = r.metric;
    operator = r.operator;
    threshold = r.threshold;
    duration_sec = r.duration_sec;
    cooldown_min = r.cooldown_min;
    threshold_mode = r.threshold_mode;
    threshold_offset = r.threshold_offset;
    updated_at = r.updated_at;
  }

  -- `compileRule` after `encodeRuleSnapshot`, and after `NormalizeRuleModel`.
  encoded_outcome : AlertRule F → AlertRule F → Option (RuleSnapshot F) → Outcome F
  encoded_outcome item r none = left_out (invalid_rule item not_encoded)
  encoded_outcome item r (some s) = compiled (compiled_of r s)

  normalized_outcome : AlertRule F → Checked (AlertRule F) → Outcome F
  unfolding encoded_outcome encode_rule_snapshot
  normalized_outcome item (invalid e) = left_out (invalid_rule item (not_valid e))
  normalized_outcome item (ok r) = encoded_outcome item r (encode_rule_snapshot (snapshot_of r))

  unfoldable pub compile_rule : AlertRule F → Outcome F
  unfolding normalized_outcome
  compile_rule item = normalized_outcome item (normalize_rule_model item)

  abbrev builtin_snapshot : BuiltinRule F → Time → RuleSnapshot F
  builtin_snapshot spec updated_at = record {
    rule_id = spec.id;
    generation = pos 1;
    builtin = true;
    name = spec.name;
    metric = spec.metric;
    operator = spec.operator;
    threshold = spec.threshold;
    duration_sec = spec.duration_sec;
    cooldown_min = spec.cooldown_min;
    threshold_mode = codes "static";
    threshold_offset = zero_f;
    updated_at = updated_at;
  }

  abbrev builtin_of : BuiltinRule F → Time → RuleSnapshot F → CompiledRule F
  builtin_of spec updated_at s = record {
    rule_id = spec.id;
    builtin = true;
    name = spec.name;
    generation = pos 1;
    metric = spec.metric;
    operator = spec.operator;
    threshold = spec.threshold;
    duration_sec = spec.duration_sec;
    cooldown_min = spec.cooldown_min;
    threshold_mode = codes "static";
    threshold_offset = zero_f;
    generation_updated_at = updated_at;
    snapshot_raw = some s;
  }

  unfoldable pub builtin_rule : BuiltinRule F → Time → Option (CompiledRule F)
  unfolding encode_rule_snapshot
  builtin_rule spec updated_at =
      Option.map (builtin_of spec updated_at)
        (encode_rule_snapshot (builtin_snapshot spec updated_at))

  -- The rules, where all are there.
  cons_some :
      Option (CompiledRule F) → Option (List (CompiledRule F)) → Option (List (CompiledRule F))
  cons_some none rest = none
  cons_some (some rule) none = none
  cons_some (some rule) (some rules) = some (rule ∷ rules)

  unfoldable pub compile_builtins : List (BuiltinRule F) → Option (List (CompiledRule F))
  unfolding builtin_rule cons_some
  compile_builtins [] = some []
  compile_builtins (spec ∷ specs) =
      cons_some (builtin_rule spec unix_epoch) (compile_builtins specs)

  unfoldable pub add_all : CompiledRules F → List (CompiledRule F) → CompiledRules F
  add_all out [] = out
  add_all out (rule ∷ rules) = add_all (add out rule) rules

  add_outcome : CompiledRules F → Outcome F → CompiledRules F
  add_outcome out (compiled rule) = add out rule
  add_outcome out (left_out bad) = record out { invalid_rules = out.invalid_rules ++ bad ∷ [] }

  -- The body of the loop over the stored rules.
  unfoldable pub add_item : CompiledRules F → AlertRule F → CompiledRules F
  unfolding add_outcome
  add_item out item =
      if item.is_deleted || not item.enabled then out else add_outcome out (compile_rule item)

  unfoldable pub add_items : CompiledRules F → List (AlertRule F) → CompiledRules F
  add_items out [] = out
  add_items out (item ∷ items) = add_items (add_item out item) items

  abbrev pub no_rules : Time → CompiledRules F
  no_rules refreshed_at = record {
    rules = [];
    by_state_key = [];
    invalid_rules = [];
    refreshed_at = refreshed_at;
  }

  unfoldable pub compile_all : List (AlertRule F) → Time → List (CompiledRule F) → CompiledRules F
  compile_all items refreshed_at builtins =
      let out = add_items (add_all (no_rules refreshed_at) builtins) items in
      record out { rules = sort_rules out.rules }

  unfoldable pub compile_rules : List (AlertRule F) → Time → Option (CompiledRules F)
  unfolding compile_builtins compile_all
  compile_rules items refreshed_at =
      Option.map (compile_all items refreshed_at) (compile_builtins builtin_rules)
