-- ===== src/AlertSpec/Passing.antt =====
-- Each test of the normalization, as what it says of a rule.
use ithiltir.Shared.{ℕ, zero, suc, ◌≤◌, ◌≡◌, refl, ◌↔◌, ◌⊎◌, false, not, ◌&&◌, ◌||◌, [], arith}
use ithiltir.Shared.Tests.{◌==◌, ltb, list_eqb_iff, nat_eq}
use ithiltir.Shared.Lists.{length}
use ithiltir.Shared.Text.{Text, codes, text_eq, trim_space, contains_control}
use ithiltir.Shared.Int.{ℤ, pos, negsuc, ltb_ℤ, leb_ℤ, int_eq, int_eqb_iff}
use ithiltir.Shared.Float.{Float, zero_f, finite}
use ithiltir.AlertSpec.Rules.{
  AlertRule, ok, normalize_rule_model, normalize_metric, is_known_metric, supports_core_plus,
  is_allowed_operator, is_allowed_threshold_mode, is_allowed_duration_sec, max_cooldown_min,
}

-- Each test of the code, as what it says of the value.
pub operator_test :
    (op : Text)
    → trim_space op ≡ op
    → not (is_allowed_operator op) ≡ false ↔ (
        (op ≡ codes ">")
        ⊎ ((op ≡ codes ">=")
            ⊎ ((op ≡ codes "<") ⊎ ((op ≡ codes "<=") ⊎ ((op ≡ codes "==") ⊎ (op ≡ codes "!="))))))
unfolding is_allowed_operator
operator_test op t = rw t (
    ground (
      arith,
      list_eqb_iff op (codes ">"),
      list_eqb_iff op (codes ">="),
      list_eqb_iff op (codes "<"),
      list_eqb_iff op (codes "<="),
      list_eqb_iff op (codes "=="),
      list_eqb_iff op (codes "!="),
    ))

pub mode_test :
    (m : Text)
    → trim_space m ≡ m
    → not (is_allowed_threshold_mode m) ≡ false ↔ ((m ≡ codes "static") ⊎ (m ≡ codes "core_plus"))
unfolding is_allowed_threshold_mode
mode_test m t =
    rw t (ground (arith, list_eqb_iff m (codes "static"), list_eqb_iff m (codes "core_plus")))

pub duration_test :
    (d : ℤ)
    → not (is_allowed_duration_sec d) ≡ false ↔ ((d ≡ pos 0) ⊎ ((d ≡ pos 60) ⊎ (d ≡ pos 300)))
unfolding is_allowed_duration_sec
duration_test d =
    ground (arith, int_eqb_iff d (pos 0), int_eqb_iff d (pos 60), int_eqb_iff d (pos 300))

pub cooldown_test :
    (c : ℤ)
    → (ltb_ℤ c (pos 0) || ltb_ℤ max_cooldown_min c) ≡ false
      ↔ ((n : ℕ) × (c ≡ pos n) × (n ≤ 525_600))
cooldown_test (pos n) = ((λ h. (n, refl, ground arith)), λ (m, e, b). ground arith)
cooldown_test (negsuc n) = ((λ h. absurd (ground arith)), λ (m, e, b). absurd (cc))

pub generation_test : (g : ℤ) → leb_ℤ g (pos 0) ≡ false ↔ ((n : ℕ) × (g ≡ pos (suc n)))
generation_test (pos zero) = ((λ h. absurd (ground arith)), λ h. absurd (ground arith))
generation_test (pos (suc n)) = ((λ h. (n, refl)), λ h. ground arith)
generation_test (negsuc n) = ((λ h. absurd (ground arith)), λ h. absurd (ground arith))

module _ {F : Type 0} ⦃fl : Float F⦄ where
  abbrev pub trimmed : AlertRule F → AlertRule F
  trimmed rule = record rule {
    name = trim_space rule.name;
    metric = trim_space rule.metric;
    operator = trim_space rule.operator;
    threshold_mode = trim_space rule.threshold_mode;
  }

  -- The tests of the code, all passed.
  pub record Passes (rule : AlertRule F) : Type 0 where
    pub name_given : (rule.name == []) ≡ false
    pub name_fits : (ltb 128 (length rule.name) || contains_control rule.name) ≡ false
    pub threshold_finite : not (finite rule.threshold) ≡ false
    pub offset_finite : not (finite rule.threshold_offset) ≡ false
    pub metric_given : (rule.metric == []) ≡ false
    pub metric_known : not (is_known_metric F rule.metric) ≡ false
    pub operator_given : (rule.operator == []) ≡ false
    pub operator_allowed : not (is_allowed_operator rule.operator) ≡ false
    pub mode_allowed : not (is_allowed_threshold_mode rule.threshold_mode) ≡ false
    pub duration_allowed : not (is_allowed_duration_sec rule.duration_sec) ≡ false
    pub cooldown_allowed :
        (ltb_ℤ rule.cooldown_min (pos 0) || ltb_ℤ max_cooldown_min rule.cooldown_min) ≡ false
    pub generation_given : leb_ℤ rule.generation (pos 0) ≡ false
    pub core_plus_allowed :
        (rule.threshold_mode == codes "core_plus" && not (supports_core_plus F rule.metric)) ≡ false
    pub offset_allowed :
        (rule.threshold_mode == codes "static" && not (fl.eq rule.threshold_offset zero_f)) ≡ false

  pub Passes-normalize :
      (rule : AlertRule F) → Passes (trimmed rule) → normalize_rule_model rule ≡ ok (trimmed rule)
  unfolding normalize_rule_model normalize_metric
  Passes-normalize rule p =
      rw
        (
          p.name_given, p.name_fits, p.threshold_finite, p.offset_finite, p.metric_given,
          p.metric_known, p.operator_given, p.operator_allowed, p.mode_allowed, p.duration_allowed,
          p.cooldown_allowed, p.generation_given, p.core_plus_allowed, p.offset_allowed,
        )
        refl

  pub normalize-Passes :
      (rule r : AlertRule F)
      → normalize_rule_model rule ≡ ok r
      → Passes (trimmed rule) × (r ≡ trimmed rule)
  unfolding normalize_rule_model normalize_metric
  normalize-Passes rule r h = ground arith
