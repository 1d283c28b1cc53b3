-- ===== src/StoredRules/Stale.antt =====
-- Evaluations of a stored rule that is not current any more open no event (WriteOpenTransition).
use ithiltir.Shared.{◌≡◌, refl, false, List, [], ◌∷◌, arith}
use ithiltir.Shared.Int.{ℤ, int_eq}
use ithiltir.Shared.Time.{Time}
use ithiltir.AlertSpec.Rules.{AlertRule}
use ithiltir.Outbox.{failed, rule_stale, exists}
use ithiltir.AlertEvents.{
  AlertOpenEventParams, EventStore, is_current, rule_holds, insert_open_event, opened_event,
  write_open_event,
}
use ithiltir.StoredRules.{RuleStore}
use ithiltir.StoredRules.Patch.{is_undeleted}

module _ {F : Type 0} where
  -- Every open for the rule in the generation is refused.
  abbrev pub OpensNothing : ℤ → ℤ → RuleStore F → Type 0
  OpensNothing id generation t =
      (p : AlertOpenEventParams F) (now : Time) (es : EventStore F)
      → p.is_builtin ≡ false
      → p.rule_id ≡ id
      → p.rule_generation ≡ generation
      → es.rules ≡ t.rules
      → write_open_event p now es ≡ failed rule_stale

  stale_open :
      (p : AlertOpenEventParams F) (now : Time) (es : EventStore F)
      → rule_holds p es.rules ≡ false
      → write_open_event p now es ≡ failed rule_stale
  unfolding write_open_event insert_open_event opened_event
  stale_open p now es h = rw (h, h) refl

  pub not_current-OpensNothing :
      (id generation : ℤ) (t : RuleStore F)
      → exists (is_current id generation) t.rules ≡ false
      → OpensNothing id generation t
  unfolding rule_holds
  not_current-OpensNothing id generation t h p now es b i g r =
      stale_open p now es (rw (b, i, g, r) h)

  live_current :
      (id g : ℤ) (rules : List (AlertRule F))
      → exists (is_undeleted id) rules ≡ false
      → exists (is_current id g) rules ≡ false
  live_current id g [] h = refl
  live_current id g (r ∷ rules) h =
      let rest = live_current id g rules (ground arith) in rw rest (ground arith)

  pub not_live-OpensNothing :
      (id generation : ℤ) (t : RuleStore F)
      → exists (is_undeleted id) t.rules ≡ false
      → OpensNothing id generation t
  not_live-OpensNothing id generation t h =
      not_current-OpensNothing id generation t (live_current id generation t.rules h)
