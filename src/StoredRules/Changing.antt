-- ===== src/StoredRules/Changing.antt =====
-- What PatchRule answers, and that an evaluation of the old generation opens no event afterwards.
use ithiltir.Shared.{
  ◌≡◌, refl, inl, inr, Bool, true, false, not, ◌&&◌, Option, none, some, List, [], ◌∷◌, arith,
}
use ithiltir.Shared.Tests.{◌==◌, Bool-cases, if◌then◌else◌}
use ithiltir.Shared.Int.{ℤ, int_eq}
use ithiltir.Shared.Text.{Text, codes}
use ithiltir.Shared.Time.{Time}
use ithiltir.AlertSpec.Rules.{AlertRule}
use ithiltir.Outbox.{update_where, exists}
use ithiltir.AlertEvents.{is_current}
use ithiltir.StoredRules.Fields.{
  AlertRulePatch, has_updates, given, updates_from_patch, reason_for, as_patched, or_old, as_given,
}
use ithiltir.StoredRules.Patch.{is_undeleted}

-- The new value where the patch gives one, and the old one otherwise.
abbrev pub Takes : {A : Type 0} → Option A → A → A → A → Type 0
Takes none old new value = value ≡ old
Takes (some a) old new value = value ≡ new

Takes_lem :
    {A : Type 0} (o : Option A) (old new : A) → Takes o old new (or_old (as_given o new) old)
Takes_lem none old new = refl
Takes_lem (some a) old new = refl

given_same : {A : Type 0} (o : Option A) (a : A) → given (as_given o a) ≡ given o
given_same none a = refl
given_same (some b) a = refl

module _ {F : Type 0} where
  pub record Follows (p : AlertRulePatch F) (old new r : AlertRule F) : Type 0 where
    pub name : Takes p.name old.name new.name r.name
    pub enabled : Takes p.enabled old.enabled new.enabled r.enabled
    pub metric : Takes p.metric old.metric new.metric r.metric
    pub operator : Takes p.operator old.operator new.operator r.operator
    pub threshold : Takes p.threshold old.threshold new.threshold r.threshold
    pub duration : Takes p.duration_sec old.duration_sec new.duration_sec r.duration_sec
    pub cooldown : Takes p.cooldown_min old.cooldown_min new.cooldown_min r.cooldown_min
    pub mode : Takes p.threshold_mode old.threshold_mode new.threshold_mode r.threshold_mode
    pub offset :
        Takes p.threshold_offset old.threshold_offset new.threshold_offset r.threshold_offset

  pub patched-Follows :
      (p : AlertRulePatch F) (old new : AlertRule F) (g : Option ℤ) (now : Time)
      → Follows p old new (as_patched (updates_from_patch new p) g now old)
  unfolding updates_from_patch
  patched-Follows p old new g now = record {
    name = Takes_lem p.name old.name new.name;
    enabled = Takes_lem p.enabled old.enabled new.enabled;
    metric = Takes_lem p.metric old.metric new.metric;
    operator = Takes_lem p.operator old.operator new.operator;
    threshold = Takes_lem p.threshold old.threshold new.threshold;
    duration = Takes_lem p.duration_sec old.duration_sec new.duration_sec;
    cooldown = Takes_lem p.cooldown_min old.cooldown_min new.cooldown_min;
    mode = Takes_lem p.threshold_mode old.threshold_mode new.threshold_mode;
    offset = Takes_lem p.threshold_offset old.threshold_offset new.threshold_offset;
  }

  pub same_has_updates :
      (p : AlertRulePatch F) (new : AlertRule F)
      → has_updates (updates_from_patch new p) ≡ has_updates p
  unfolding updates_from_patch
  same_has_updates p new =
      rw
        (
          given_same p.name new.name,
          given_same p.enabled new.enabled,
          given_same p.metric new.metric,
          given_same p.operator new.operator,
          given_same p.threshold new.threshold,
          given_same p.duration_sec new.duration_sec,
          given_same p.cooldown_min new.cooldown_min,
          given_same p.threshold_mode new.threshold_mode,
          given_same p.threshold_offset new.threshold_offset,
        )
        refl

  -- No live rule of the number is in a generation that is left.
  pub none_current :
      (id g next : ℤ) (f : AlertRule F → AlertRule F) (rules : List (AlertRule F))
      → (next == g) ≡ false
      → ((r : AlertRule F) → (f r).generation ≡ next)
      → exists (is_current id g) (update_where (is_undeleted id) f rules) ≡ false
  none_current id g next f [] h k = refl
  none_current id g next f (r ∷ rules) h k = elim (Bool-cases (is_undeleted id r)) [
    | inl e ↦
        let rest = none_current id g next f rules h k in
        let other : ((f r).generation == g) ≡ false = rw (k r) h in rw (e, rest) (ground arith)
    | inr e ↦ let rest = none_current id g next f rules h k in rw (e, rest) (ground arith)
  ]

  -- The service learns why the old generation ends.
  abbrev pub change_reason : AlertRule F → AlertRule F → Text
  change_reason old r =
      if old.enabled && not r.enabled then codes "rule_disabled" else codes "rule_updated"

  pub reason_for_lem :
      (old : AlertRule F) (u : AlertRulePatch F) (g : Option ℤ) (now : Time)
      → reason_for old u ≡ change_reason old (as_patched u g now old)
  unfolding reason_for
  reason_for_lem old u g now = go u.enabled old.enabled
    where
      go :
          (o : Option Bool) (b : Bool)
          → (if b && not (or_old o true) then codes "rule_disabled" else codes "rule_updated")
            ≡ (if b && not (or_old o b) then codes "rule_disabled" else codes "rule_updated")
      go none true = refl
      go none false = refl
      go (some c) b = refl
