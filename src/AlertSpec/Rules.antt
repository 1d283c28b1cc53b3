-- ===== src/AlertSpec/Rules.antt =====
-- The rules as they are stored, the built-in ones, and their normalization.
use ithiltir.Shared.{ℕ, Bool, true, false, not, ◌&&◌, ◌||◌, Option, none, some, List, [], ◌∷◌}
use ithiltir.Shared.Tests.{◌==◌, ltb, if◌then◌else◌, nat_eq}
use ithiltir.Shared.Lists.{length}
use ithiltir.Shared.Text.{Text, codes, text_eq, trim_space, contains_control}
use ithiltir.Shared.Maps.{lookup}
use ithiltir.Shared.Int.{ℤ, pos, negsuc, ltb_ℤ, leb_ℤ, int_eq}
use ithiltir.Shared.Float.{Float, zero_f, one_f, finite}
use ithiltir.Shared.Time.{Time}
use ithiltir.NodeView.{NodeView}
use ithiltir.AlertSpec.Extract.{metric_registry, resolve_cpu_cores}

-- model.AlertRule
pub record AlertRule (F : Type 0) : Type 0 where
  pub id : ℤ
  pub name : Text
  pub enabled : Bool
  pub generation : ℤ
  pub metric : Text
  pub operator : Text
  pub threshold : F
  pub duration_sec : ℤ
  pub cooldown_min : ℤ
  pub threshold_mode : Text
  pub threshold_offset : F
  pub is_deleted : Bool
  pub created_at : Time
  pub updated_at : Time

pub record BuiltinRule (F : Type 0) : Type 0 where
  pub id : ℤ
  pub name : Text
  pub metric : Text
  pub operator : Text
  pub threshold : F
  pub duration_sec : ℤ
  pub cooldown_min : ℤ

pub record Threshold (F : Type 0) : Type 0 where
  pub metric : Text
  pub mode : Text
  pub value : F
  pub offset : F

-- The messages of ValidationError.
pub data ValidationError : Type 0 where
  name_required name_invalid threshold_not_finite offset_not_finite : ValidationError
  metric_required metric_unsupported operator_required operator_unsupported : ValidationError
  mode_unsupported duration_unsupported cooldown_unsupported : ValidationError
  generation_required core_plus_unsupported offset_not_zero : ValidationError

pub data Checked {ℓ} (A : Type ℓ) : Type ℓ where
  ok : A → Checked A
  invalid : ValidationError → Checked A

infixl 5 ◌>>=◌ ◌>>◌
abbrev pub ◌>>=◌ {ℓ κ} : {A : Type ℓ} {B : Type κ} → Checked A → (A → Checked B) → Checked B
ok a >>= f = f a
invalid e >>= f = invalid e

abbrev pub ◌>>◌ {ℓ} : {B : Type ℓ} → Checked (Unit {0}) → Checked B → Checked B
m >> k = m >>= λ _. k

-- `if bad { return invalid(e) }`
abbrev pub reject : Bool → ValidationError → Checked (Unit {0})
reject true e = invalid e
reject false e = ok tt

abbrev max_rule_name_runes : ℕ
max_rule_name_runes = 128

abbrev pub max_cooldown_min : ℤ
max_cooldown_min = pos 525_600

unfoldable pub is_allowed_operator : Text → Bool
is_allowed_operator op =
    let o = trim_space op in
    (o == codes ">" || o == codes ">=" || o == codes "<" || o == codes "<=" || o == codes "==")
    || o == codes "!="

unfoldable pub is_allowed_threshold_mode : Text → Bool
is_allowed_threshold_mode mode =
    let m = trim_space mode in m == codes "static" || m == codes "core_plus"

unfoldable pub is_allowed_duration_sec : ℤ → Bool
is_allowed_duration_sec sec = sec == pos 0 || sec == pos 60 || sec == pos 300

module _ (F : Type 0) ⦃fl : Float F⦄ where
  unfoldable pub is_known_metric : Text → Bool
  is_known_metric name = elim (lookup name (metric_registry {F = F})) [
    | none ↦ false
    | some _ ↦ true
  ]

  unfoldable pub normalize_metric : Text → Checked Text
  normalize_metric raw = do
    let name = trim_space raw
    reject (name == []) metric_required
    reject (not (is_known_metric name)) metric_unsupported
    ok name

  unfoldable pub supports_core_plus : Text → Bool
  supports_core_plus name = elim (lookup (trim_space name) (metric_registry {F = F})) [
    | none ↦ false
    | some spec ↦ spec.core_plus_allowed
  ]

module _ {F : Type 0} ⦃fl : Float F⦄ where
  builtin : ℤ → Text → Text → ℤ → BuiltinRule F
  builtin id name metric cooldown = record {
    id = id;
    name = name;
    metric = metric;
    operator = codes ">=";
    threshold = one_f;
    duration_sec = pos 0;
    cooldown_min = cooldown;
  }

  unfoldable pub builtin_rules : List (BuiltinRule F)
  unfolding builtin
  builtin_rules =
      builtin (negsuc 0) (codes "node_offline") (codes "node.offline") (pos 0)
      ∷ builtin (negsuc 1) (codes "raid_failed") (codes "raid.failed") (pos 30)
      ∷ builtin (negsuc 2) (codes "smart_failed") (codes "disk.smart.failed") (pos 30)
      ∷ builtin (negsuc 3) (codes "smart_nvme_critical_warning")
          (codes "disk.smart.nvme.critical_warning") (pos 30)
      ∷ []

  unfoldable pub normalize_rule_model : AlertRule F → Checked (AlertRule F)
  normalize_rule_model rule = do
    let name = trim_space rule.name
    reject (name == []) name_required
    reject (ltb max_rule_name_runes (length name) || contains_control name) name_invalid
    reject (not (finite rule.threshold)) threshold_not_finite
    reject (not (finite rule.threshold_offset)) offset_not_finite
    metric ← normalize_metric F rule.metric
    let operator = trim_space rule.operator
    reject (operator == []) operator_required
    reject (not (is_allowed_operator operator)) operator_unsupported
    let mode = trim_space rule.threshold_mode
    reject (not (is_allowed_threshold_mode mode)) mode_unsupported
    reject (not (is_allowed_duration_sec rule.duration_sec)) duration_unsupported
    reject (ltb_ℤ rule.cooldown_min (pos 0) || ltb_ℤ max_cooldown_min rule.cooldown_min)
        cooldown_unsupported
    reject (leb_ℤ rule.generation (pos 0)) generation_required
    reject (mode == codes "core_plus" && not (supports_core_plus F metric)) core_plus_unsupported
    reject (mode == codes "static" && not (fl.eq rule.threshold_offset zero_f)) offset_not_zero
    ok (record rule { name = name; metric = metric; operator = operator; threshold_mode = mode })

  unfoldable pub prepare_create_rule : AlertRule F → Checked (AlertRule F)
  prepare_create_rule rule = normalize_rule_model (record rule {
    generation = if rule.generation == pos 0 then pos 1 else rule.generation;
    threshold_mode =
        if trim_space rule.threshold_mode == [] then codes "static" else rule.threshold_mode;
    is_deleted = false;
  })

  -- `none` is an error; the float of a sum of cores and the value is one rounded sum after another.
  unfoldable pub effective_value : Threshold F → NodeView F → Option F
  effective_value rule node =
      let mode = trim_space rule.mode in
      if mode == [] || mode == codes "static"
      then some rule.value
      else if mode == codes "core_plus"
      then (if supports_core_plus F rule.metric
          then some (fl.plus (fl.plus (fl.of_int (resolve_cpu_cores node)) rule.value) rule.offset)
          else none)
      else none

  unfoldable pub effective_threshold : Threshold F → NodeView F → Option F
  effective_threshold rule node = elim (effective_value rule node) [
    | none ↦ none
    | some t ↦ if finite t then some t else none
  ]
