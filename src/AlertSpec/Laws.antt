-- ===== src/AlertSpec/Laws.antt =====
-- What the normalization of rules accepts and gives.
use ithiltir.Shared.{
  ℕ, suc, ◌≤◌, ◌≡◌, refl, sym, ap, ◌∙◌, ◌≢◌, ◌↔◌, ◌⊎◌, inl, inr, true, false, none, some, [], arith,
}
use ithiltir.Shared.Tests.{if◌then◌else◌, list_eqb_iff, nat_eq}
use ithiltir.Shared.Lists.{length}
use ithiltir.Shared.Text.{codes, text_eq, trim_space, contains_control}
use ithiltir.Shared.Trim.{trim_space_idem}
use ithiltir.Shared.Int.{pos, int_eq}
use ithiltir.Shared.Float.{Float, zero_f, finite}
use ithiltir.NodeView.{NodeView}
use ithiltir.AlertSpec.Extract.{resolve_cpu_cores}
use ithiltir.AlertSpec.Rules.{
  AlertRule, Threshold, ok, normalize_rule_model, is_known_metric, supports_core_plus,
  effective_value, effective_threshold,
}
use ithiltir.AlertSpec.Passing.{
  Passes, Passes-normalize, cooldown_test, duration_test, generation_test, mode_test,
  normalize-Passes, operator_test, trimmed,
}

module _ {F : Type 0} ⦃fl : Float F⦄ where
  -- A rule that can be evaluated, in the terms of the rule itself.
  pub record IsValidRule (r : AlertRule F) : Type 0 where
    pub named : r.name ≢ []
    pub name_short : length r.name ≤ 128
    pub name_printable : contains_control r.name ≡ false
    pub threshold_finite : finite r.threshold ≡ true
    pub offset_finite : finite r.threshold_offset ≡ true
    pub measured : r.metric ≢ []
    pub metric_known : is_known_metric F r.metric ≡ true
    pub operator_known :
        (r.operator ≡ codes ">")
        ⊎ ((r.operator ≡ codes ">=")
            ⊎ ((r.operator ≡ codes "<")
                ⊎ ((r.operator ≡ codes "<=")
                    ⊎ ((r.operator ≡ codes "==") ⊎ (r.operator ≡ codes "!=")))))
    pub mode_known :
        ((r.threshold_mode ≡ codes "static") × (fl.eq r.threshold_offset zero_f ≡ true))
        ⊎ ((r.threshold_mode ≡ codes "core_plus") × (supports_core_plus F r.metric ≡ true))
    pub duration_known :
        (r.duration_sec ≡ pos 0) ⊎ ((r.duration_sec ≡ pos 60) ⊎ (r.duration_sec ≡ pos 300))
    pub cooldown_known : (n : ℕ) × (r.cooldown_min ≡ pos n) × (n ≤ 525_600)
    pub generation_known : (n : ℕ) × (r.generation ≡ pos (suc n))

  Passes-IsValidRule : (r : AlertRule F) → Passes (trimmed r) → IsValidRule (trimmed r)
  Passes-IsValidRule r p = record {
    named = λ e. ground (arith, p.name_given, list_eqb_iff (trim_space r.name) []);
    name_short = ground (arith, p.name_fits);
    name_printable = ground (arith, p.name_fits);
    threshold_finite = ground (arith, p.threshold_finite);
    offset_finite = ground (arith, p.offset_finite);
    measured = λ e. ground (arith, p.metric_given, list_eqb_iff (trim_space r.metric) []);
    metric_known = ground (arith, p.metric_known);
    operator_known = (operator_test _ (trim_space_idem r.operator)).0 p.operator_allowed;
    mode_known = elim ((mode_test _ (trim_space_idem r.threshold_mode)).0 p.mode_allowed) [
      | inl e ↦ inl (
        e,
        ground
            (arith, p.offset_allowed, list_eqb_iff (trim_space r.threshold_mode) (codes "static")),
      )
      | inr e ↦ inr (
        e,
        ground (
          arith,
          p.core_plus_allowed,
          list_eqb_iff (trim_space r.threshold_mode) (codes "core_plus"),
        ),
      )
    ];
    duration_known = (duration_test _).0 p.duration_allowed;
    cooldown_known = (cooldown_test _).0 p.cooldown_allowed;
    generation_known = (generation_test _).0 p.generation_given;
  }

  IsValidRule-Passes : (r : AlertRule F) → IsValidRule (trimmed r) → Passes (trimmed r)
  IsValidRule-Passes r v =
      let allowed =
        (operator_test (trim_space r.operator) (trim_space_idem r.operator)).1 v.operator_known in
      record {
        name_given = ground (arith, v.named, list_eqb_iff (trim_space r.name) []);
        name_fits = ground (arith, v.name_short, v.name_printable);
        threshold_finite = ground (arith, v.threshold_finite);
        offset_finite = ground (arith, v.offset_finite);
        metric_given = ground (arith, v.measured, list_eqb_iff (trim_space r.metric) []);
        metric_known = ground (arith, v.metric_known);
        operator_given = ground (arith, v.operator_known, list_eqb_iff (trim_space r.operator) []);
        operator_allowed = allowed;
        mode_allowed =
            (mode_test _ (trim_space_idem r.threshold_mode)).1 (ground (arith, v.mode_known));
        duration_allowed = (duration_test _).1 v.duration_known;
        cooldown_allowed = (cooldown_test _).1 v.cooldown_known;
        generation_given = (generation_test _).1 v.generation_known;
        core_plus_allowed =
            ground
              (arith, v.mode_known, list_eqb_iff (trim_space r.threshold_mode) (codes "core_plus"));
        offset_allowed =
            ground
              (arith, v.mode_known, list_eqb_iff (trim_space r.threshold_mode) (codes "static"));
      }

  -- Normalization accepts a rule exactly when the rule with its texts trimmed is one that can be
  -- evaluated, and then gives that trimmed rule.
  pub normalize_rule_model_iff :
      (rule r : AlertRule F)
      → (normalize_rule_model rule ≡ ok r) ↔ ((r ≡ trimmed rule) × IsValidRule (trimmed rule))
  normalize_rule_model_iff rule r = (
    (λ h. let (p, e) = normalize-Passes rule r h in (e, Passes-IsValidRule rule p)),
    λ (e, v). Passes-normalize rule (IsValidRule-Passes rule v) ∙ ap ok (sym e),
  )

  trimmed_idem : (rule : AlertRule F) → trimmed (trimmed rule) ≡ trimmed rule
  trimmed_idem rule = λ i. record rule {
    name = trim_space_idem rule.name i;
    metric = trim_space_idem rule.metric i;
    operator = trim_space_idem rule.operator i;
    threshold_mode = trim_space_idem rule.threshold_mode i;
  }

  -- A normalized rule is left as it is when it is normalized again, as the compiler does with the
  -- rules that were normalized when they were stored.
  pub normalize_rule_model_idem :
      (rule r : AlertRule F) → normalize_rule_model rule ≡ ok r → normalize_rule_model r ≡ ok r
  normalize_rule_model_idem rule r h =
      let (e, v) = (normalize_rule_model_iff rule r).0 h in
      (normalize_rule_model_iff r r).1
        (e ∙ sym (trimmed_idem rule) ∙ ap trimmed (sym e), rw (e, trimmed_idem rule) v)

  abbrev pub threshold_of : AlertRule F → Threshold F
  threshold_of r = record {
    metric = r.metric;
    mode = r.threshold_mode;
    value = r.threshold;
    offset = r.threshold_offset;
  }

  abbrev HasThreshold : AlertRule F → NodeView F → Type 0
  HasThreshold r node =
      ((r.threshold_mode ≡ codes "static")
        × (effective_threshold (threshold_of r) node ≡ some r.threshold))
      ⊎ ((r.threshold_mode ≡ codes "core_plus")
          × (effective_threshold (threshold_of r) node ≡ (
              let sum =
                fl.plus (fl.plus (fl.of_int (resolve_cpu_cores node)) r.threshold)
                  r.threshold_offset in
              if finite sum then some sum else none)))

  -- The value of each mode, before the test that it is finite.
  static_value :
      (r : AlertRule F) (node : NodeView F)
      → trim_space r.threshold_mode ≡ codes "static"
      → effective_value (threshold_of r) node ≡ some r.threshold
  unfolding effective_value
  static_value r node t = rw t

  core_plus_value :
      (r : AlertRule F) (node : NodeView F)
      → trim_space r.threshold_mode ≡ codes "core_plus"
      → supports_core_plus F r.metric ≡ true
      → effective_value (threshold_of r) node
        ≡ some
            (fl.plus (fl.plus (fl.of_int (resolve_cpu_cores node)) r.threshold) r.threshold_offset)
  unfolding effective_value
  core_plus_value r node t a = rw (t, a)

  valid_threshold :
      (r : AlertRule F) (node : NodeView F)
      → IsValidRule r
      → trim_space r.threshold_mode ≡ r.threshold_mode
      → HasThreshold r node
  unfolding effective_threshold
  valid_threshold r node v t = elim v.mode_known [
    | inl (m, z) ↦
        inl (m, rw (static_value r node (t ∙ m), effective_threshold) (rw v.threshold_finite))
    | inr (m, a) ↦ inr (m, rw (core_plus_value r node (t ∙ m) a, effective_threshold) refl)
  ]

  -- A normalized rule has a threshold at every node: the rule's own in the mode static, and in the
  -- mode core_plus the node's cores plus the rule's value and offset, unless that sum is not finite.
  pub effective_threshold-normalize :
      (rule r : AlertRule F) (node : NodeView F)
      → normalize_rule_model rule ≡ ok r
      → ((r.threshold_mode ≡ codes "static")
          × (effective_threshold (threshold_of r) node ≡ some r.threshold))
        ⊎ ((r.threshold_mode ≡ codes "core_plus")
            × (effective_threshold (threshold_of r) node ≡ (
                let sum =
                  fl.plus
                    (fl.plus (fl.of_int (resolve_cpu_cores node)) r.threshold)
                    r.threshold_offset in
                if finite sum then some sum else none)))
  effective_threshold-normalize rule r node h =
      let (e, v) = (normalize_rule_model_iff rule r).0 h in
      rw e (valid_threshold (trimmed rule) node v (trim_space_idem rule.threshold_mode))
