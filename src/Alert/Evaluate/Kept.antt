-- ===== src/Alert/Evaluate/Kept.antt =====
-- What an evaluation does with the states that it is given.
use ithiltir.Shared.{◌≡◌, refl, ◌≢◌, ◌⊎◌, inl, inr, true, not, ◌&&◌, Option, none, some, arith}
use ithiltir.Shared.Tests.{Bool-cases, nat_eq}
use ithiltir.Shared.Text.{text_eq}
use ithiltir.Shared.Float.{Float}
use ithiltir.Shared.Time.{Time}
use ithiltir.AlertSpec.Extract.{compare}
use ithiltir.Alert.Compile.{CompiledRule}
use ithiltir.Alert.Runtime.{
  is_offline_rule, pending, firing, cooldown, RuntimeState, is_cooldown, keep_firing_state,
  new_pending_state, cooldown_active,
}
use ithiltir.Alert.Evaluate.{
  Scene, hold_if_firing, clear_verdict, pend_verdict, hold_verdict, compared_verdict,
  measured_verdict, rule_verdict,
}

module _ {F : Type 0} where
  -- The same alert, still firing: only what was observed last may differ.
  pub record SameAlert (s t : RuntimeState F) : Type 0 where
    pub fires : t.phase ≡ firing
    pub same_event : t.event_id ≡ s.event_id
    pub same_rule : t.rule_id ≡ s.rule_id
    pub same_generation : t.generation ≡ s.generation
    pub same_pending : t.pending_since ≡ s.pending_since
    pub same_start : t.firing_since ≡ s.firing_since
    pub same_heartbeat : t.last_db_heartbeat_at ≡ s.last_db_heartbeat_at

  -- What may follow a state: an alert that fires goes on; else the key has no state, or is pending,
  -- or stays in its cooldown.
  abbrev pub Fits : Option (RuntimeState F) → Option (RuntimeState F) → Type 0
  Fits none none = Unit
  Fits none (some t) = t.phase ≡ pending
  Fits (some s) none = s.phase ≢ firing
  Fits (some s) (some t) =
      ((s.phase ≡ firing) × SameAlert s t)
      ⊎ (((s.phase ≢ firing) × (t.phase ≡ pending)) ⊎ ((s.phase ≡ cooldown) × (t ≡ s)))

module _ {F : Type 0} ⦃fl : Float F⦄ where
  hold_if_firing-Fits : (o : Option (RuntimeState F)) → Fits o (hold_if_firing o).state
  hold_if_firing-Fits none = tt
  hold_if_firing-Fits (some s) = ground arith

  clear_verdict-Fits :
      (sc : Scene F) (rule : CompiledRule F) (o : Option (RuntimeState F)) (v t : F) (at : Time)
      → Fits o (clear_verdict sc rule o v t at).state
  unfolding clear_verdict keep_firing_state
  clear_verdict-Fits sc rule none v t at = tt
  clear_verdict-Fits sc rule (some s) v t at = ground arith

  hold_verdict-Fits :
      (sc : Scene F) (rule : CompiledRule F) (o : Option (RuntimeState F)) (v t : F) (at : Time)
      → Fits o (hold_verdict sc rule o v t at).state
  unfolding hold_verdict pend_verdict keep_firing_state new_pending_state
  hold_verdict-Fits sc rule none v t at = refl
  hold_verdict-Fits sc rule (some s) v t at = ground arith

  compared_verdict-Fits :
      (sc : Scene F) (rule : CompiledRule F) (o : Option (RuntimeState F)) (v t : Option F)
      (at : Time)
      → Fits o (compared_verdict sc rule o v t at).state
  unfolding compared_verdict
  compared_verdict-Fits sc rule o (some v) (some t) at =
      elim (Bool-cases (compare rule.operator v t)) [
        | inl e ↦ rw e (hold_verdict-Fits sc rule o v t at)
        | inr e ↦ rw e (clear_verdict-Fits sc rule o v t at)
      ]
  compared_verdict-Fits sc rule o (some v) none at = hold_if_firing-Fits o
  compared_verdict-Fits sc rule o none t at = hold_if_firing-Fits o

  measured_verdict-Fits :
      (sc : Scene F) (rule : CompiledRule F) (o : Option (RuntimeState F))
      → Fits o (measured_verdict sc rule o).state
  unfolding measured_verdict
  measured_verdict-Fits sc rule o =
      elim (Bool-cases (not sc.online && not (is_offline_rule rule))) [
        | inl e ↦ rw e (hold_if_firing-Fits o)
        | inr e ↦ rw e (compared_verdict-Fits sc rule o _ _ _)
      ]

  over-Fits :
      (s : RuntimeState F) (o : Option (RuntimeState F))
      → is_cooldown s.phase ≡ true
      → Fits none o
      → Fits (some s) o
  over-Fits s none c h = ground arith
  over-Fits s (some t) c h = ground arith

  pub rule_verdict-Fits :
      (sc : Scene F) (rule : CompiledRule F) (o : Option (RuntimeState F))
      → Fits o (rule_verdict sc rule o).state
  unfolding rule_verdict
  rule_verdict-Fits sc rule none = measured_verdict-Fits sc rule none
  rule_verdict-Fits sc rule (some s) = elim (Bool-cases (is_cooldown s.phase)) [
    | inl c ↦ elim (Bool-cases (cooldown_active s sc.now)) [
      | inl a ↦ rw (c, a) (inr (inr (ground arith, refl)))
      | inr a ↦ rw (c, a) (over-Fits s _ c (measured_verdict-Fits sc rule none))
    ]
    | inr c ↦ rw c (measured_verdict-Fits sc rule (some s))
  ]
