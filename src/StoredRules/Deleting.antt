-- ===== src/StoredRules/Deleting.antt =====
-- What DeleteRule leaves, and that evaluations that began before a rule was deleted open no event.
use ithiltir.Shared.{
  true, ◌≡◌, refl, ap, ◌∙◌, inl, inr, Bool, false, not, Option, none, some, List, [], ◌∷◌, arith,
}
use ithiltir.Shared.Tests.{◌==◌, Bool-cases}
use ithiltir.Shared.Int.{ℤ, pos, int_eq, leb_ℤ}
use ithiltir.Shared.Text.{codes}
use ithiltir.Shared.Time.{Time}
use ithiltir.AlertSpec.Rules.{AlertRule}
use ithiltir.Outbox.{update_where, exists, filter}
use ithiltir.StoredRules.{
  RuleStore, RuleMount, Outcome, done, rejected, not_found, refused, control_task_rule_change,
}
use ithiltir.StoredRules.Fields.{next_generation, change_key}
use ithiltir.StoredRules.Patch.{
  change_payload, enqueue_change, is_undeleted, lock_rule, as_removed, write_rule, delete_rule,
}
use ithiltir.StoredRules.Generations.{IsLast, not_positive-IsLast}
use ithiltir.StoredRules.Stale.{OpensNothing, not_live-OpensNothing}
use ithiltir.StoredRules.Tasks.{Informed, enqueue-Informed, enqueue-rules, enqueue-mounts}

abbrev is_mounted : ℤ → RuleMount → Bool
is_mounted id m = m.rule_id == id

none_mounted :
    (id : ℤ) (mounts : List RuleMount)
    → exists (is_mounted id) (filter (λ (m : RuleMount). not (m.rule_id == id)) mounts) ≡ false
none_mounted id [] = refl
none_mounted id (m ∷ mounts) = elim (Bool-cases (m.rule_id == id)) [
  | inl e ↦ rw e (none_mounted id mounts)
  | inr e ↦ rw (e, e) (none_mounted id mounts)
]

module _ {F : Type 0} where
  none_live :
      (id next : ℤ) (now : Time) (rules : List (AlertRule F))
      → exists (is_undeleted id) (update_where (is_undeleted id) (as_removed next now) rules)
        ≡ false
  none_live id next now [] = refl
  none_live id next now (r ∷ rules) =
      let rest = none_live id next now rules in
      elim (Bool-cases (is_undeleted id r)) [
        | inl e ↦ rw (e, rest) (ground arith)
        | inr e ↦ rw (e, rest) (ground arith)
      ]

  pub record Deleted (id : ℤ) (now : Time) (s t : RuleStore F) : Type 0 where
    pub old : AlertRule F
    pub old_found : lock_rule id s.rules ≡ some old
    pub gone : exists (is_undeleted id) t.rules ≡ false
    pub opens_nothing : (generation : ℤ) → OpensNothing id generation t
    pub unmounted : exists (is_mounted id) t.mounts ≡ false
    pub informed :
        Informed control_task_rule_change
          (change_key old.id (next_generation old.generation))
          (some (change_payload old (next_generation old.generation) (codes "rule_deleted")))
          now
          s
          t

  abbrev pub Deletes : ℤ → Time → RuleStore F → Outcome (RuleStore F) → Type 0
  Deletes id now s (done t) = Deleted id now s t
  Deletes id now s (rejected e) = ⊥
  Deletes id now s not_found = lock_rule id s.rules ≡ none
  Deletes id now s refused =
      (old : AlertRule F) × (lock_rule id s.rules ≡ some old) × IsLast old.generation

  abbrev deleted : ℤ → AlertRule F → Time → RuleStore F → RuleStore F
  deleted id old now s = record s {
    rules =
        update_where (is_undeleted id) (as_removed (next_generation old.generation) now) s.rules;
    mounts = filter (λ (m : RuleMount). not (m.rule_id == id)) s.mounts;
  }

  delete_writes :
      (id : ℤ) (now : Time) (s : RuleStore F) (old : AlertRule F)
      → lock_rule id s.rules ≡ some old
      → leb_ℤ (next_generation old.generation) (pos 0) ≡ false
      → delete_rule id now s
        ≡ done (
            enqueue_change old
              (next_generation old.generation)
              (codes "rule_deleted")
              now
              (deleted id old now s))
  unfolding delete_rule write_rule
  delete_writes id now s old found g = rw (found, g) refl

  delete_last :
      (id : ℤ) (now : Time) (s : RuleStore F) (old : AlertRule F)
      → lock_rule id s.rules ≡ some old
      → leb_ℤ (next_generation old.generation) (pos 0) ≡ true
      → delete_rule id now s ≡ refused
  unfolding delete_rule write_rule
  delete_last id now s old found g = rw (found, g) refl

  found-Deleted :
      (id : ℤ) (now : Time) (s : RuleStore F) (old : AlertRule F)
      → lock_rule id s.rules ≡ some old
      → Deleted id now s (
          enqueue_change old
            (next_generation old.generation)
            (codes "rule_deleted")
            now
            (deleted id old now s))
  found-Deleted id now s old found =
      let next = next_generation old.generation in
      let t = deleted id old now s in
      let key = change_key old.id next in
      let payload = some (change_payload old next (codes "rule_deleted")) in
      let after = enqueue_change old next (codes "rule_deleted") now t in
      let i = enqueue-Informed control_task_rule_change key payload now t in
      let dead =
        ap (exists (is_undeleted id)) (enqueue-rules control_task_rule_change key payload now t)
        ∙ none_live id next now s.rules in
      record {
        old = old;
        old_found = found;
        gone = dead;
        opens_nothing = λ generation. not_live-OpensNothing id generation after dead;
        unmounted =
            ap (exists (is_mounted id)) (enqueue-mounts control_task_rule_change key payload now t)
            ∙ none_mounted id s.mounts;
        informed = record { task = i.task; awaited = i.awaited; fresh = i.fresh };
      }

  -- DeleteRule fails only where no live rule has the number, or where it is in the last generation.
  -- Otherwise no live rule has it afterwards, no mount names it, every event that an evaluation
  -- would open for it as a stored rule, in whatever generation, is refused as stale, and a pending
  -- task with the key of the next generation tells of both generations and the deletion, unless one
  -- with the key was pending already.
  pub delete_rule-Deletes :
      (id : ℤ) (now : Time) (s : RuleStore F) → Deletes id now s (delete_rule id now s)
  unfolding delete_rule
  delete_rule-Deletes id now s = go (lock_rule id s.rules) refl
    where
      go :
          (o : Option (AlertRule F))
          → lock_rule id s.rules ≡ o
          → Deletes id now s (delete_rule id now s)
      go none found = rw found found
      go (some old) found = elim (Bool-cases (leb_ℤ (next_generation old.generation) (pos 0))) [
        | inl g ↦
            rw (delete_last id now s old found g) (old, found, not_positive-IsLast old.generation g)
        | inr g ↦ rw (delete_writes id now s old found g) (found-Deleted id now s old found)
      ]
