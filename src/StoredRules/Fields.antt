-- ===== src/StoredRules/Fields.antt =====
-- internal/store/alert/alert_rules.go: the fields of a patch, and the values that it gives a rule.
use ithiltir.Shared.{zero, suc, Bool, true, false, not, ◌&&◌, ◌||◌, Option, none, some, ◌++◌}
use ithiltir.Shared.Tests.{if◌then◌else◌}
use ithiltir.Shared.Int.{ℤ, pos, negsuc, int_eq, wrap64}
use ithiltir.Shared.Text.{Text, codes, text_eq}
use ithiltir.Shared.Decimal.{format_int}
use ithiltir.Shared.Time.{Time}
use ithiltir.AlertSpec.Rules.{AlertRule, Checked, ok, invalid}
use ithiltir.StoredRules.{Outcome, done, rejected, not_found}

-- The operations of float64 that sameFloat uses.
pub record FloatDistance (F : Type 0) : Type 0 where
  pub minus : F → F → F
  pub abs : F → F
  pub billionth : F

pub record AlertRulePatch (F : Type 0) : Type 0 where
  pub name : Option Text
  pub enabled : Option Bool
  pub metric : Option Text
  pub operator : Option Text
  pub threshold : Option F
  pub duration_sec : Option ℤ
  pub cooldown_min : Option ℤ
  pub threshold_mode : Option Text
  pub threshold_offset : Option F

abbrev pub given {ℓ} : {A : Type ℓ} → Option A → Bool
given none = false
given (some a) = true

-- The value of a patch, or the old one; and a new value at each key that the patch has.
abbrev pub or_old {ℓ} : {A : Type ℓ} → Option A → A → A
or_old none old = old
or_old (some a) old = a

abbrev pub as_given {ℓ} : {A : Type ℓ} → Option A → A → Option A
as_given none new = none
as_given (some a) new = some new

-- int64's ++
unfoldable pub next_generation : ℤ → ℤ
next_generation (pos n) = wrap64 (pos (suc n))
next_generation (negsuc zero) = pos 0
next_generation (negsuc (suc n)) = wrap64 (negsuc n)

unfoldable pub change_key : ℤ → ℤ → Text
change_key rule_id generation =
    codes "rule_change:rule:" ++ format_int rule_id ++ codes ":gen:" ++ format_int generation

abbrev pub of_checked {ℓ} : {A : Type ℓ} → Checked A → Outcome A
of_checked (ok a) = done a
of_checked (invalid e) = rejected e

abbrev pub or_missing {ℓ} : {A : Type ℓ} → Option A → Outcome A
or_missing none = not_found
or_missing (some a) = done a

-- Whether a key of the updates has another value than the rule.
abbrev pub differs {ℓ} : {A : Type ℓ} → (A → A → Bool) → Option A → A → Bool
differs same none old = false
differs same (some new) old = not (same new old)

module _ {F : Type 0} where
  abbrev pub has_updates : AlertRulePatch F → Bool
  has_updates p =
      given p.name
      || given p.enabled
      || given p.metric
      || given p.operator
      || given p.threshold
      || given p.duration_sec
      || given p.cooldown_min
      || given p.threshold_mode
      || given p.threshold_offset

  unfoldable pub apply_patch : AlertRulePatch F → AlertRule F → AlertRule F
  apply_patch p r = record r {
    name = or_old p.name r.name;
    enabled = or_old p.enabled r.enabled;
    metric = or_old p.metric r.metric;
    operator = or_old p.operator r.operator;
    threshold = or_old p.threshold r.threshold;
    duration_sec = or_old p.duration_sec r.duration_sec;
    cooldown_min = or_old p.cooldown_min r.cooldown_min;
    threshold_mode = or_old p.threshold_mode r.threshold_mode;
    threshold_offset = or_old p.threshold_offset r.threshold_offset;
  }

  -- The map of updates, a key for each field of the patch.
  unfoldable pub updates_from_patch : AlertRule F → AlertRulePatch F → AlertRulePatch F
  updates_from_patch r p = record {
    name = as_given p.name r.name;
    enabled = as_given p.enabled r.enabled;
    metric = as_given p.metric r.metric;
    operator = as_given p.operator r.operator;
    threshold = as_given p.threshold r.threshold;
    duration_sec = as_given p.duration_sec r.duration_sec;
    cooldown_min = as_given p.cooldown_min r.cooldown_min;
    threshold_mode = as_given p.threshold_mode r.threshold_mode;
    threshold_offset = as_given p.threshold_offset r.threshold_offset;
  }

  unfoldable pub reason_for : AlertRule F → AlertRulePatch F → Text
  reason_for current updates =
      if current.enabled && not (or_old updates.enabled true)
      then codes "rule_disabled"
      else codes "rule_updated"

  -- UPDATE alert_rules SET updates, generation
  abbrev pub as_patched : AlertRulePatch F → Option ℤ → Time → AlertRule F → AlertRule F
  as_patched updates generation now r = record r {
    name = or_old updates.name r.name;
    enabled = or_old updates.enabled r.enabled;
    metric = or_old updates.metric r.metric;
    operator = or_old updates.operator r.operator;
    threshold = or_old updates.threshold r.threshold;
    duration_sec = or_old updates.duration_sec r.duration_sec;
    cooldown_min = or_old updates.cooldown_min r.cooldown_min;
    threshold_mode = or_old updates.threshold_mode r.threshold_mode;
    threshold_offset = or_old updates.threshold_offset r.threshold_offset;
    generation = or_old generation r.generation;
    updated_at = now;
  }
