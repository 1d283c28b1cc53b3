-- ===== src/Alert/Evaluate/Closes.antt =====
-- Which alerts an evaluation closes.
use ithiltir.Shared.{
  ◌≡◌, refl, sym, ◌∙◌, inl, inr, Bool, not, ◌&&◌, ◌||◌, Option, none, some, List, [], ◌∷◌, arith,
}
use mathlib.Core.Path.{subst}
use ithiltir.Shared.Tests.{Bool-cases, nat_eq}
use ithiltir.Shared.Lists.{All, All-append}
use ithiltir.Shared.Text.{Text, text_eq}
use ithiltir.Shared.Maps.{lookup, Within}
use ithiltir.Shared.Int.{ℤ}
use ithiltir.Shared.Float.{Float}
use ithiltir.Shared.Time.{Time}
use ithiltir.NodeView.{NodeView}
use ithiltir.AlertSpec.Extract.{compare}
use ithiltir.Alert.Compile.{CompiledRule, CompiledRules, state_key}
use ithiltir.Alert.Runtime.{
  firing, RuntimeState, OpenTransition, CloseTransition, EvalResult, is_firing, is_cooldown,
  is_offline_rule, cooldown_active,
}
use ithiltir.Alert.Evaluate.Transitions.{Opens, IsNotFiring, OpensOnly, rule_verdict-Opens}
use ithiltir.Alert.Evaluate.{
  Scene, hold_if_firing, clear_verdict, pend_verdict, hold_verdict, compared_verdict,
  measured_verdict, rule_verdict, record_verdict, evaluate_rules, is_seen, keep_entry, keep_entries,
  append_some,
}

module _ {F : Type 0} ⦃fl : Float F⦄ where
  -- A close belongs to the alert that fires under its key.
  pub record Closes (o : Option (RuntimeState F)) (c : CloseTransition F) : Type 0 where
    pub alert : RuntimeState F
    pub known : o ≡ some alert
    pub fires : alert.phase ≡ firing
    pub same_event : c.event_id ≡ alert.event_id
    pub same_start : c.opened_at ≡ alert.firing_since

  abbrev ClosesOnly : Option (RuntimeState F) → CompiledRule F → Option (CloseTransition F) → Type 0
  ClosesOnly o rule none = Unit
  ClosesOnly o rule (some c) = Closes o c × (c.key ≡ state_key rule)

  hold_verdict-Closes :
      (sc : Scene F) (rule : CompiledRule F) (o p : Option (RuntimeState F)) (v t : F) (at : Time)
      → ClosesOnly p rule (hold_verdict sc rule o v t at).closes
  unfolding hold_verdict pend_verdict
  hold_verdict-Closes sc rule none p v t at = tt
  hold_verdict-Closes sc rule (some s) p v t at = ground arith

  hold_if_firing-Closes :
      (o p : Option (RuntimeState F)) (rule : CompiledRule F)
      → ClosesOnly p rule (hold_if_firing o).closes
  hold_if_firing-Closes none p rule = tt
  hold_if_firing-Closes (some s) p rule = tt

  clear_verdict-Closes :
      (sc : Scene F) (rule : CompiledRule F) (o : Option (RuntimeState F)) (v t : F) (at : Time)
      → ClosesOnly o rule (clear_verdict sc rule o v t at).closes
  unfolding clear_verdict
  clear_verdict-Closes sc rule none v t at = tt
  clear_verdict-Closes sc rule (some s) v t at = elim (Bool-cases (is_firing s.phase)) [
    | inl e ↦ rw e (
      record {
        alert = s;
        known = refl;
        fires = ground arith;
        same_event = refl;
        same_start = refl;
      },
      refl,
    )
    | inr e ↦ rw e tt
  ]

  compared_verdict-Closes :
      (sc : Scene F) (rule : CompiledRule F) (o : Option (RuntimeState F)) (v t : Option F)
      (at : Time)
      → ClosesOnly o rule (compared_verdict sc rule o v t at).closes
  unfolding compared_verdict
  compared_verdict-Closes sc rule o (some v) (some t) at =
      elim (Bool-cases (compare rule.operator v t)) [
        | inl e ↦ rw e (hold_verdict-Closes sc rule o o v t at)
        | inr e ↦ rw e (clear_verdict-Closes sc rule o v t at)
      ]
  compared_verdict-Closes sc rule o (some v) none at = hold_if_firing-Closes o o rule
  compared_verdict-Closes sc rule o none t at = hold_if_firing-Closes o o rule

  measured_verdict-Closes :
      (sc : Scene F) (rule : CompiledRule F) (o : Option (RuntimeState F))
      → ClosesOnly o rule (measured_verdict sc rule o).closes
  unfolding measured_verdict
  measured_verdict-Closes sc rule o =
      elim (Bool-cases (not sc.online && not (is_offline_rule rule))) [
        | inl e ↦ rw e (hold_if_firing-Closes o o rule)
        | inr e ↦ rw e (compared_verdict-Closes sc rule o _ _ _)
      ]

  over-Closes :
      (rule : CompiledRule F) (s : RuntimeState F) (t : Option (CloseTransition F))
      → ClosesOnly none rule t
      → ClosesOnly (some s) rule t
  over-Closes rule s none h = tt
  over-Closes rule s (some t) (h, k) = absurd (cc (h.known))

  rule_verdict-Closes :
      (sc : Scene F) (rule : CompiledRule F) (o : Option (RuntimeState F))
      → ClosesOnly o rule (rule_verdict sc rule o).closes
  unfolding rule_verdict
  rule_verdict-Closes sc rule none = measured_verdict-Closes sc rule none
  rule_verdict-Closes sc rule (some s) = elim (Bool-cases (is_cooldown s.phase)) [
    | inl c ↦ elim (Bool-cases (cooldown_active s sc.now)) [
      | inl a ↦ rw (c, a) tt
      | inr a ↦ rw (c, a) (over-Closes rule s _ (measured_verdict-Closes sc rule none))
    ]
    | inr c ↦ rw c (measured_verdict-Closes sc rule (some s))
  ]

  -- The transitions of a result, by the states at the start.
  abbrev pub OpensWell : Scene F → List (Text × RuntimeState F) → OpenTransition F → Type 0
  OpensWell sc current t = Opens sc (lookup t.key current) t × IsNotFiring (lookup t.key current)

  abbrev pub ClosesWell : List (Text × RuntimeState F) → CloseTransition F → Type 0
  ClosesWell current c = Closes (lookup c.key current) c

  module _ (sc : Scene F) (current : List (Text × RuntimeState F)) where
    append_opens :
        (rule : CompiledRule F) (ts : List (OpenTransition F)) (t : Option (OpenTransition F))
        → All (OpensWell sc current) ts
        → OpensOnly sc rule (lookup (state_key rule) current) t
        → All (OpensWell sc current) (append_some ts t)
    append_opens rule ts none h o = h
    append_opens rule ts (some u) h (o, n, k) = All-append _ ts (u ∷ []) h (
      subst (λ j. Opens sc (lookup j current) u × IsNotFiring (lookup j current)) (sym k) (o, n),
      tt,
    )

    append_closes :
        (rule : CompiledRule F) (ts : List (CloseTransition F)) (t : Option (CloseTransition F))
        → All (ClosesWell current) ts
        → ClosesOnly (lookup (state_key rule) current) rule t
        → All (ClosesWell current) (append_some ts t)
    append_closes rule ts none h o = h
    append_closes rule ts (some u) h (o, k) =
        All-append _ ts (u ∷ []) h (subst (λ j. Closes (lookup j current) u) (sym k) o, tt)

    pub evaluate_rules-OpensWell :
        (rules : List (CompiledRule F)) (r : EvalResult F)
        → All (OpensWell sc current) r.open_transitions
        → All (OpensWell sc current) (evaluate_rules sc current rules r).open_transitions
    unfolding evaluate_rules record_verdict
    evaluate_rules-OpensWell [] r h = h
    evaluate_rules-OpensWell (rule ∷ rules) r h = evaluate_rules-OpensWell rules _ (
        append_opens rule r.open_transitions _ h
          (rule_verdict-Opens sc rule (lookup (state_key rule) current)))

    pub evaluate_rules-ClosesWell :
        (rules : List (CompiledRule F)) (r : EvalResult F)
        → All (ClosesWell current) r.close_transitions
        → All (ClosesWell current) (evaluate_rules sc current rules r).close_transitions
    unfolding evaluate_rules record_verdict
    evaluate_rules-ClosesWell [] r h = h
    evaluate_rules-ClosesWell (rule ∷ rules) r h = evaluate_rules-ClosesWell rules _ (
        append_closes rule r.close_transitions _ h
          (rule_verdict-Closes sc rule (lookup (state_key rule) current)))

  -- The loop over `current` opens nothing.
  pub opens-keep_entries :
      (all : Bool) (id : ℤ) (now : Time) (view : Option (NodeView F)) (compiled : CompiledRules F)
      (m : List (Text × RuntimeState F)) (r : EvalResult F)
      → (keep_entries all id now view compiled m r).open_transitions ≡ r.open_transitions
  unfolding keep_entries keep_entry
  opens-keep_entries all id now view compiled [] r = refl
  opens-keep_entries all id now view compiled ((k, s) ∷ m) r =
      opens-keep_entries all id now view compiled m _ ∙ ground arith

  keep_entry-ClosesWell :
      (all : Bool) (id : ℤ) (now : Time) (view : Option (NodeView F)) (compiled : CompiledRules F)
      (current : List (Text × RuntimeState F)) (k : Text) (s : RuntimeState F) (r : EvalResult F)
      → lookup k current ≡ some s
      → All (ClosesWell current) r.close_transitions
      → All (ClosesWell current) (keep_entry all id now view compiled k s r).close_transitions
  unfolding keep_entry
  keep_entry-ClosesWell all id now view compiled current k s r e h =
      elim (Bool-cases (is_firing s.phase && (all || not (is_seen k compiled.rules)))) [
        | inl f ↦ elim (Bool-cases (is_seen k compiled.rules)) [
          | inl n ↦ rw (f, n) h
          | inr n ↦
              rw (f, n)
                (All-append _ r.close_transitions _ h (
                  record {
                    alert = s;
                    known = e;
                    fires = ground arith;
                    same_event = refl;
                    same_start = refl;
                  },
                  tt,
                ))
        ]
        | inr f ↦ rw f h
      ]

  pub keep_entries-ClosesWell :
      (all : Bool) (id : ℤ) (now : Time) (view : Option (NodeView F)) (compiled : CompiledRules F)
      (current m : List (Text × RuntimeState F)) (r : EvalResult F)
      → Within current m
      → All (ClosesWell current) r.close_transitions
      → All (ClosesWell current) (keep_entries all id now view compiled m r).close_transitions
  unfolding keep_entries
  keep_entries-ClosesWell all id now view compiled current [] r w h = h
  keep_entries-ClosesWell all id now view compiled current ((k, s) ∷ m) r w h =
      keep_entries-ClosesWell all id now view compiled current m _ w.1
        (keep_entry-ClosesWell all id now view compiled current k s r w.0 h)
