-- ===== src/StoredRules/Patched.antt =====
-- What a patch that is accepted leaves (PatchRule).
use ithiltir.Shared.{◌≡◌, refl, ap, ◌∙◌, ◌⊎◌, inl, inr, ◌≢◌, true, false, Option, none, some, []}
use ithiltir.Shared.Tests.{same_refl}
use ithiltir.Shared.Int.{ℤ, pos, int_eq, leb_ℤ}
use ithiltir.Shared.Text.{Text}
use ithiltir.Shared.Float.{Float}
use ithiltir.Shared.Time.{Time}
use ithiltir.AlertSpec.Rules.{AlertRule, ok, normalize_rule_model}
use ithiltir.Outbox.{update_where, exists}
use ithiltir.AlertEvents.{is_current}
use ithiltir.StoredRules.{refused, RuleStore, done, control_task_rule_change}
use ithiltir.StoredRules.Fields.{
  FloatDistance, AlertRulePatch, next_generation, change_key, has_updates, apply_patch,
  updates_from_patch, reason_for, as_patched,
}
use ithiltir.StoredRules.Patch.{
  is_undeleted, lock_rule, change_payload, enqueue_change, write_rule, needs_generation,
  write_patch, patch_updates,
}
use ithiltir.StoredRules.Generations.{
  SameMeaning, next_generation_moves, next_generation_new, unchanged-SameMeaning,
}
use ithiltir.StoredRules.Changing.{
  Follows, patched-Follows, none_current, change_reason, reason_for_lem,
}
use ithiltir.StoredRules.Stale.{OpensNothing, not_current-OpensNothing}
use ithiltir.StoredRules.Tasks.{
  Informed, enqueue-Informed, enqueue-rules, enqueue-mounts, find-update,
}

module _ {F : Type 0} ⦃fl : Float F⦄ ⦃fd : FloatDistance F⦄ where
  pub record Kept (s t : RuleStore F) (old r : AlertRule F) : Type 0 where
    pub same_generation : r.generation ≡ old.generation
    pub same_tasks : t.tasks ≡ s.tasks
    pub same_meaning : SameMeaning old r

  -- The service is told of the new generation, and the old one opens nothing.
  pub record Moved (id : ℤ) (now : Time) (s t : RuleStore F) (old r : AlertRule F) : Type 0 where
    pub new_generation : r.generation ≡ next_generation old.generation
    pub other : r.generation ≢ old.generation
    pub old_opens_nothing : OpensNothing id old.generation t
    pub informed :
        Informed control_task_rule_change
          (change_key old.id r.generation)
          (some (change_payload old r.generation (change_reason old r)))
          now
          s
          t

  pub record Patched (id : ℤ) (p : AlertRulePatch F) (now : Time) (s t : RuleStore F) : Type 0 where
    pub old : AlertRule F
    pub old_found : lock_rule id s.rules ≡ some old
    pub normalized : AlertRule F
    pub accepted : normalize_rule_model (apply_patch p old) ≡ ok normalized
    pub stored : AlertRule F
    pub stored_found : lock_rule id t.rules ≡ some stored
    pub follows : Follows p old normalized stored
    pub same_mounts : t.mounts ≡ s.mounts
    pub told : Kept s t old stored ⊎ Moved id now s t old stored

  -- The table with the rule written.
  abbrev pub written : ℤ → AlertRulePatch F → Option ℤ → Time → RuleStore F → RuleStore F
  written id u g now s = record s {
    rules = update_where (is_undeleted id) (as_patched u g now) s.rules;
  }

  stays_live :
      (id : ℤ) (u : AlertRulePatch F) (g : Option ℤ) (now : Time) (r : AlertRule F)
      → is_undeleted id r ≡ true
      → is_undeleted id (as_patched u g now r) ≡ true
  stays_live id u g now r h = h

  write_same :
      (id : ℤ) (old : AlertRule F) (u : AlertRulePatch F) (now : Time) (s : RuleStore F)
      → lock_rule id s.rules ≡ some old
      → leb_ℤ old.generation (pos 0) ≡ false
      → write_patch id old u none [] now s ≡ done (written id u none now s)
  unfolding write_patch write_rule
  write_same id old u now s h g = rw (h, g, same_refl old.generation) refl

  write_next :
      (id : ℤ) (old : AlertRule F) (u : AlertRulePatch F) (reason : Text) (now : Time)
      (s : RuleStore F)
      → lock_rule id s.rules ≡ some old
      → leb_ℤ (next_generation old.generation) (pos 0) ≡ false
      → write_patch id old u (some (next_generation old.generation)) reason now s
        ≡ done (
            enqueue_change old
              (next_generation old.generation)
              reason
              now
              (written id u (some (next_generation old.generation)) now s))
  unfolding write_patch write_rule
  write_next id old u reason now s h g = rw (h, g, next_generation_moves old.generation) refl

  pub patch_same :
      (id : ℤ) (old : AlertRule F) (u : AlertRulePatch F) (now : Time) (s : RuleStore F)
      → has_updates u ≡ true
      → needs_generation old u ≡ false
      → lock_rule id s.rules ≡ some old
      → leb_ℤ old.generation (pos 0) ≡ false
      → patch_updates id old u now s ≡ done (written id u none now s)
  unfolding patch_updates
  patch_same id old u now s a n h g = rw (a, n) (write_same id old u now s h g)

  pub patch_next :
      (id : ℤ) (old : AlertRule F) (u : AlertRulePatch F) (now : Time) (s : RuleStore F)
      → has_updates u ≡ true
      → needs_generation old u ≡ true
      → lock_rule id s.rules ≡ some old
      → leb_ℤ (next_generation old.generation) (pos 0) ≡ false
      → patch_updates id old u now s
        ≡ done (
            enqueue_change old
              (next_generation old.generation)
              (reason_for old u)
              now
              (written id u (some (next_generation old.generation)) now s))
  unfolding patch_updates
  patch_next id old u now s a n h g = rw (a, n) (write_next id old u (reason_for old u) now s h g)

  -- The last generation has no next one.
  pub patch_last :
      (id : ℤ) (old : AlertRule F) (u : AlertRulePatch F) (now : Time) (s : RuleStore F)
      → has_updates u ≡ true
      → needs_generation old u ≡ true
      → lock_rule id s.rules ≡ some old
      → leb_ℤ (next_generation old.generation) (pos 0) ≡ true
      → patch_updates id old u now s ≡ refused
  unfolding patch_updates write_patch write_rule
  patch_last id old u now s a n h g = rw (a, n, h, g) refl

  pub kept-Patched :
      (id : ℤ) (p : AlertRulePatch F) (now : Time) (s : RuleStore F) (old new : AlertRule F)
      → lock_rule id s.rules ≡ some old
      → normalize_rule_model (apply_patch p old) ≡ ok new
      → needs_generation old (updates_from_patch new p) ≡ false
      → Patched id p now s (written id (updates_from_patch new p) none now s)
  kept-Patched id p now s old new found acc n =
      let u = updates_from_patch new p in
      record {
        old = old;
        old_found = found;
        normalized = new;
        accepted = acc;
        stored = as_patched u none now old;
        stored_found =
            find-update (is_undeleted id) (as_patched u none now) s.rules old
              (stays_live id u none now) found;
        follows = patched-Follows p old new none now;
        same_mounts = refl;
        told = inl (record {
          same_generation = refl;
          same_tasks = refl;
          same_meaning = unchanged-SameMeaning old u now n;
        });
      }

  told-Informed :
      (old : AlertRule F) (id next : ℤ) (u : AlertRulePatch F) (g : Option ℤ) (now : Time)
      (s : RuleStore F)
      → Informed control_task_rule_change
          (change_key old.id next)
          (some (change_payload old next (change_reason old (as_patched u g now old))))
          now
          s
          (enqueue_change old next (reason_for old u) now (written id u g now s))
  told-Informed old id next u g now s =
      let key = change_key old.id next in
      let reason = change_reason old (as_patched u g now old) in
      let i =
        enqueue-Informed control_task_rule_change key (some (change_payload old next reason)) now
          (written id u g now s) in
      rw (reason_for_lem old u g now)
        (record { task = i.task; awaited = i.awaited; fresh = i.fresh })

  pub moved-Patched :
      (id : ℤ) (p : AlertRulePatch F) (now : Time) (s : RuleStore F) (old new : AlertRule F)
      → lock_rule id s.rules ≡ some old
      → normalize_rule_model (apply_patch p old) ≡ ok new
      → let u = updates_from_patch new p in
        let next = next_generation old.generation in
        Patched id p now s
          (enqueue_change old next (reason_for old u) now (written id u (some next) now s))
  moved-Patched id p now s old new found acc =
      let u = updates_from_patch new p in
      let next = next_generation old.generation in
      let t = written id u (some next) now s in
      let payload = some (change_payload old next (reason_for old u)) in
      let rules = enqueue-rules control_task_rule_change (change_key old.id next) payload now t in
      record {
        old = old;
        old_found = found;
        normalized = new;
        accepted = acc;
        stored = as_patched u (some next) now old;
        stored_found =
            ap (lock_rule id) rules
            ∙ find-update (is_undeleted id) (as_patched u (some next) now) s.rules old
                (stays_live id u (some next) now) found;
        follows = patched-Follows p old new (some next) now;
        same_mounts =
            enqueue-mounts control_task_rule_change (change_key old.id next) payload now t;
        told = inr (record {
          new_generation = refl;
          other = next_generation_new old.generation;
          old_opens_nothing =
              not_current-OpensNothing id old.generation
                (enqueue_change old next (reason_for old u) now t)
                (ap (exists (is_current id old.generation)) rules
                  ∙ none_current id old.generation next (as_patched u (some next) now) s.rules
                      (next_generation_moves old.generation) (λ r. refl));
          informed = told-Informed old id next u (some next) now s;
        });
      }
