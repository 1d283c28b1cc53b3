-- ===== src/StoredRules/Answers.antt =====
-- What PatchRule answers in every case.
use ithiltir.Shared.{◌≡◌, ◌⊎◌, true, false, none, some}
use ithiltir.Shared.Int.{ℤ, int_eq}
use ithiltir.Shared.Float.{Float}
use ithiltir.Shared.Time.{Time}
use ithiltir.AlertSpec.Rules.{AlertRule, invalid, normalize_rule_model}
use ithiltir.StoredRules.{RuleStore, Outcome, done, rejected, not_found, refused}
use ithiltir.StoredRules.Fields.{FloatDistance, AlertRulePatch, has_updates, apply_patch}
use ithiltir.StoredRules.Patch.{lock_rule}
use ithiltir.StoredRules.Generations.{IsLast}
use ithiltir.StoredRules.Patched.{Patched}

module _ {F : Type 0} ⦃fl : Float F⦄ ⦃fd : FloatDistance F⦄ where
  abbrev pub Answers : ℤ → AlertRulePatch F → Time → RuleStore F → Outcome (RuleStore F) → Type 0
  Answers id p now s (done t) =
      ((has_updates p ≡ false) × (t ≡ s)) ⊎ ((has_updates p ≡ true) × Patched id p now s t)
  Answers id p now s (rejected e) =
      (old : AlertRule F) × (lock_rule id s.rules ≡ some old)
      × (normalize_rule_model (apply_patch p old) ≡ invalid e)
  Answers id p now s not_found = lock_rule id s.rules ≡ none
  Answers id p now s refused =
      (old : AlertRule F) × (lock_rule id s.rules ≡ some old) × IsLast old.generation
