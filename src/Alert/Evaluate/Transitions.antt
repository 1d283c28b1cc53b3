-- ===== src/Alert/Evaluate/Transitions.antt =====
-- Which alerts an evaluation opens and closes.
use mathlib.Core.Option.{some_inj, none-ne-some}
use ithiltir.Shared.{
  sym, ◌≤◌, ◌≡◌, refl, ◌≢◌, ◌⊎◌, inl, inr, true, not, ◌&&◌, Option, none, some, arith,
}
use ithiltir.Shared.Tests.{if◌then◌else◌, Bool-cases, nat_eq}
use ithiltir.Shared.Text.{text_eq}
use ithiltir.Shared.Float.{Float, zero_f, one_f}
use ithiltir.Shared.Time.{Time}
use ithiltir.AlertSpec.Extract.{compare, extract_metric_value}
use ithiltir.AlertSpec.Rules.{effective_threshold}
use ithiltir.Alert.Compile.{CompiledRule, state_key}
use ithiltir.Alert.Runtime.{
  firing, RuntimeState, OpenTransition, is_firing, is_cooldown, is_offline_rule, max_time,
  duration_satisfied, cooldown_active, metric_value,
}
use ithiltir.Alert.Evaluate.{
  Scene, hold_if_firing, clear_verdict, pend_verdict, pending_since_of, hold_verdict,
  compared_verdict, measured_verdict, rule_verdict, threshold_at,
}

module _ {F : Type 0} ⦃fl : Float F⦄ where
  -- The time since which a condition is known to hold: that of a pending state which is not older
  -- than the rule's generation, or else the time of this evaluation at the earliest.
  abbrev pub PendingSince : CompiledRule F → Option (RuntimeState F) → Time → Time → Type 0
  PendingSince rule none at since = (rule.generation_updated_at ≤ since) × (at ≤ since)
  PendingSince rule (some s) at since =
      ((rule.generation_updated_at ≤ since) × (at ≤ since))
      ⊎ ((since ≡ s.pending_since) × (rule.generation_updated_at ≤ since))

  -- The value is that of the rule's metric in the view, at the time of the observation. An offline rule
  -- looks at the present, whatever was observed.
  abbrev pub IsMeasured : Scene F → CompiledRule F → F → Time → Type 0
  IsMeasured sc rule v at =
      ((is_offline_rule rule ≡ true) × (v ≡ (if sc.online then zero_f else one_f)) × (at ≡ sc.now))
      ⊎ ((sc.online ≡ true)
          × (extract_metric_value rule.metric sc.view ≡ some v)
          × (at ≡ sc.observed_at))

  -- The threshold is the one in effect at the node, for the mode and the offset of the rule.
  abbrev pub IsLimit : Scene F → CompiledRule F → F → Type 0
  IsLimit sc rule t =
      effective_threshold
        (record {
          metric = rule.metric;
          mode = rule.threshold_mode;
          value = rule.threshold;
          offset = rule.threshold_offset;
        })
        sc.view
      ≡ some t

  -- Why an alert may be opened.
  pub record Opens (sc : Scene F) (o : Option (RuntimeState F)) (t : OpenTransition F)
      : Type 0 where
    pub key_of_rule : t.key ≡ state_key t.rule
    pub observable : (sc.online ≡ true) ⊎ (is_offline_rule t.rule ≡ true)
    pub measured : IsMeasured sc t.rule t.current_value t.triggered_at
    pub limit : IsLimit sc t.rule t.effective_threshold
    pub exceeded : compare t.rule.operator t.current_value t.effective_threshold ≡ true
    pub since : Time
    pub pending_from : PendingSince t.rule o t.triggered_at since
    pub lasted : duration_satisfied since t.rule.duration_sec t.triggered_at ≡ true

  abbrev pub IsNotFiring : Option (RuntimeState F) → Type 0
  IsNotFiring none = Unit
  IsNotFiring (some s) = s.phase ≢ firing

  pending_since_of-PendingSince :
      (rule : CompiledRule F) (o : Option (RuntimeState F)) (at : Time)
      → PendingSince rule o at (pending_since_of rule o at)
  unfolding pending_since_of max_time
  pending_since_of-PendingSince rule none at = ground arith
  pending_since_of-PendingSince rule (some s) at = ground arith

  -- The transitions of a verdict.
  abbrev pub OpensOnly :
      Scene F → CompiledRule F → Option (RuntimeState F) → Option (OpenTransition F) → Type 0
  OpensOnly sc rule o none = Unit
  OpensOnly sc rule o (some t) = Opens sc o t × IsNotFiring o × (t.key ≡ state_key rule)

  pend_verdict-Opens :
      (sc : Scene F) (rule : CompiledRule F) (o : Option (RuntimeState F)) (since : Time) (v t : F)
      (at : Time)
      → (sc.online ≡ true) ⊎ (is_offline_rule rule ≡ true)
      → IsMeasured sc rule v at
      → IsLimit sc rule t
      → compare rule.operator v t ≡ true
      → PendingSince rule o at since
      → IsNotFiring o
      → OpensOnly sc rule o (pend_verdict sc rule since v t at).opens
  unfolding pend_verdict
  pend_verdict-Opens sc rule o since v t at b m l c p n =
      elim (Bool-cases (duration_satisfied since rule.duration_sec at)) [
        | inl e ↦ rw e (
          record {
            key_of_rule = refl;
            observable = b;
            measured = m;
            limit = l;
            exceeded = c;
            since = since;
            pending_from = p;
            lasted = e;
          },
          n,
          refl,
        )
        | inr e ↦ rw e tt
      ]

  hold_verdict-Opens :
      (sc : Scene F) (rule : CompiledRule F) (o : Option (RuntimeState F)) (v t : F) (at : Time)
      → (sc.online ≡ true) ⊎ (is_offline_rule rule ≡ true)
      → IsMeasured sc rule v at
      → IsLimit sc rule t
      → compare rule.operator v t ≡ true
      → OpensOnly sc rule o (hold_verdict sc rule o v t at).opens
  unfolding hold_verdict
  hold_verdict-Opens sc rule none v t at b m l c =
      pend_verdict-Opens sc rule none _ v t at b m l c (pending_since_of-PendingSince rule none at)
        tt
  hold_verdict-Opens sc rule (some s) v t at b m l c = elim (Bool-cases (is_firing s.phase)) [
    | inl e ↦ rw e tt
    | inr e ↦ rw e (
        pend_verdict-Opens sc rule (some s) _ v t at b m l c
          (pending_since_of-PendingSince rule (some s) at) (ground arith))
  ]

  hold_if_firing-Opens :
      (sc : Scene F) (rule : CompiledRule F) (o p : Option (RuntimeState F))
      → OpensOnly sc rule p (hold_if_firing o).opens
  hold_if_firing-Opens sc rule none p = tt
  hold_if_firing-Opens sc rule (some s) p = tt

  clear_verdict-Opens :
      (sc : Scene F) (rule : CompiledRule F) (o : Option (RuntimeState F)) (v t : F) (at : Time)
      → OpensOnly sc rule o (clear_verdict sc rule o v t at).opens
  unfolding clear_verdict
  clear_verdict-Opens sc rule none v t at = tt
  clear_verdict-Opens sc rule (some s) v t at = elim (Bool-cases (is_firing s.phase)) [
    | inl e ↦ rw e tt
    | inr e ↦ rw e tt
  ]

  compared_verdict-Opens :
      (sc : Scene F) (rule : CompiledRule F) (o : Option (RuntimeState F)) (v t : Option F)
      (at : Time)
      → (sc.online ≡ true) ⊎ (is_offline_rule rule ≡ true)
      → ((a : F) → v ≡ some a → IsMeasured sc rule a at)
      → ((a : F) → t ≡ some a → IsLimit sc rule a)
      → OpensOnly sc rule o (compared_verdict sc rule o v t at).opens
  unfolding compared_verdict
  compared_verdict-Opens sc rule o (some v) (some t) at b m l =
      elim (Bool-cases (compare rule.operator v t)) [
        | inl e ↦ rw e (hold_verdict-Opens sc rule o v t at b (m v refl) (l t refl) e)
        | inr e ↦ rw e (clear_verdict-Opens sc rule o v t at)
      ]
  compared_verdict-Opens sc rule o (some v) none at b m l = hold_if_firing-Opens sc rule o o
  compared_verdict-Opens sc rule o none t at b m l = hold_if_firing-Opens sc rule o o

  metric_value-IsMeasured :
      (sc : Scene F) (rule : CompiledRule F) (v : F)
      → (metric_value rule sc.view sc.online sc.observed_at sc.now).0 ≡ some v
      → IsMeasured sc rule v (metric_value rule sc.view sc.online sc.observed_at sc.now).1
  unfolding metric_value
  metric_value-IsMeasured sc rule v e = elim (Bool-cases (is_offline_rule rule)) [
    | inl q ↦ rw q (inl (refl, sym (some_inj.0 (rw q at e)), refl))
    | inr q ↦ elim (Bool-cases sc.online) [
      | inl o ↦ rw (q, o) (inr (refl, (rw (q, o) at e), refl))
      | inr o ↦ absurd (none-ne-some v (rw (q, o) at e))
    ]
  ]

  measured_verdict-Opens :
      (sc : Scene F) (rule : CompiledRule F) (o : Option (RuntimeState F))
      → OpensOnly sc rule o (measured_verdict sc rule o).opens
  unfolding measured_verdict threshold_at
  measured_verdict-Opens sc rule o =
      elim (Bool-cases (not sc.online && not (is_offline_rule rule))) [
        | inl e ↦ rw e (hold_if_firing-Opens sc rule o o)
        | inr e ↦ rw e (
            compared_verdict-Opens sc rule o _ _ _ (ground arith) (metric_value-IsMeasured sc rule)
              (λ a l. l))
      ]

  over-Opens :
      (sc : Scene F) (rule : CompiledRule F) (s : RuntimeState F) (t : Option (OpenTransition F))
      → is_cooldown s.phase ≡ true
      → OpensOnly sc rule none t
      → OpensOnly sc rule (some s) t
  over-Opens sc rule s none c h = tt
  over-Opens sc rule s (some t) c (h, n, k) = (
    record {
      key_of_rule = h.key_of_rule;
      observable = h.observable;
      measured = h.measured;
      limit = h.limit;
      exceeded = h.exceeded;
      since = h.since;
      pending_from = inl h.pending_from;
      lasted = h.lasted;
    },
    ground arith,
    k,
  )

  pub rule_verdict-Opens :
      (sc : Scene F) (rule : CompiledRule F) (o : Option (RuntimeState F))
      → OpensOnly sc rule o (rule_verdict sc rule o).opens
  unfolding rule_verdict
  rule_verdict-Opens sc rule none = measured_verdict-Opens sc rule none
  rule_verdict-Opens sc rule (some s) = elim (Bool-cases (is_cooldown s.phase)) [
    | inl c ↦ elim (Bool-cases (cooldown_active s sc.now)) [
      | inl a ↦ rw (c, a) tt
      | inr a ↦ rw (c, a) (over-Opens sc rule s _ c (measured_verdict-Opens sc rule none))
    ]
    | inr c ↦ rw c (measured_verdict-Opens sc rule (some s))
  ]
