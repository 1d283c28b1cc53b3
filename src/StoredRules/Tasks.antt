-- ===== src/StoredRules/Tasks.antt =====
-- The queue of control tasks (alert_tasks.go): what is enqueued is awaited.
use ithiltir.Shared.{suc, ◌≡◌, refl, inl, inr, Bool, true, false, Option, some, List, [], ◌∷◌}
use ithiltir.Shared.Tests.{Bool-cases, same_refl}
use ithiltir.Shared.Text.{Text, text_eq}
use ithiltir.Shared.Time.{Time}
use ithiltir.Outbox.{update_where, find, exists}
use ithiltir.AlertEvents.Repeats.{find-last}
use ithiltir.StoredRules.{
  RuleStore, RuleChangePayload, AlertControlTask, awaits, new_task, enqueue_control_task,
}

-- A pending task of the key is there, and it is a new one with the payload where there was none.
pub record Informed {F : Type 0} (task_type key : Text) (payload : Option RuleChangePayload)
    (now : Time) (s t : RuleStore F) : Type 0 where
  pub task : AlertControlTask
  pub awaited : find (awaits key) t.tasks ≡ some task
  pub fresh :
      exists (awaits key) s.tasks ≡ false
      → task ≡ new_task task_type key payload now (suc s.last_task)

find-there :
    {A : Type 0} (p : A → Bool) (xs : List A) → exists p xs ≡ true → (x : A) × (find p xs ≡ some x)
find-there p [] h = absurd (cc)
find-there p (y ∷ xs) h = elim (Bool-cases (p y)) [
  | inl e ↦ (y, rw e refl)
  | inr e ↦ let (x, k) = find-there p xs (rw e at h) in (x, rw e k)
]

pub find-update :
    {A : Type 0} (p : A → Bool) (f : A → A) (xs : List A) (x : A)
    → ((y : A) → p y ≡ true → p (f y) ≡ true)
    → find p xs ≡ some x
    → find p (update_where p f xs) ≡ some (f x)
find-update p f [] x k h = absurd (cc)
find-update p f (y ∷ xs) x k h = elim (Bool-cases (p y)) [
  | inl e ↦ let same : some y ≡ some x = rw e at h in rw (e, k y e) (cc)
  | inr e ↦ rw (e, e) (find-update p f xs x k (rw e at h))
]

module _ {F : Type 0} where
  awaits_itself :
      (task_type key : Text) (payload : Option RuleChangePayload) (now : Time) (s : RuleStore F)
      → awaits key (new_task task_type key payload now (suc s.last_task)) ≡ true
  awaits_itself task_type key payload now s = rw (same_refl key) refl

  pub enqueue-Informed :
      (task_type key : Text) (payload : Option RuleChangePayload) (now : Time) (s : RuleStore F)
      → Informed task_type key payload now s (enqueue_control_task task_type key payload now s)
  unfolding enqueue_control_task
  enqueue-Informed task_type key payload now s = elim (Bool-cases (exists (awaits key) s.tasks)) [
    | inl e ↦
        let (task, k) = find-there (awaits key) s.tasks e in
        record { task = task; awaited = rw e k; fresh = λ h. absurd (cc) }
    | inr e ↦ record {
      task = new_task task_type key payload now (suc s.last_task);
      awaited = rw e (
          find-last (awaits key) s.tasks (new_task task_type key payload now (suc s.last_task)) e
            (awaits_itself task_type key payload now s));
      fresh = λ h. refl;
    }
  ]

  -- Enqueuing changes tasks only.
  pub enqueue-rules :
      (task_type key : Text) (payload : Option RuleChangePayload) (now : Time) (s : RuleStore F)
      → (enqueue_control_task task_type key payload now s).rules ≡ s.rules
  unfolding enqueue_control_task
  enqueue-rules task_type key payload now s = elim (Bool-cases (exists (awaits key) s.tasks)) [
    | inl e ↦ rw e refl
    | inr e ↦ rw e refl
  ]

  pub enqueue-mounts :
      (task_type key : Text) (payload : Option RuleChangePayload) (now : Time) (s : RuleStore F)
      → (enqueue_control_task task_type key payload now s).mounts ≡ s.mounts
  unfolding enqueue_control_task
  enqueue-mounts task_type key payload now s = elim (Bool-cases (exists (awaits key) s.tasks)) [
    | inl e ↦ rw e refl
    | inr e ↦ rw e refl
  ]
