-- ===== src/AlertEvents/Repeats.antt =====
-- Opening an event again (WriteOpenTransition).
use mathlib.Core.Option.{none-ne-some}
use ithiltir.Shared.{
  suc, ◌≡◌, refl, inl, inr, Bool, true, false, Option, none, some, List, [], ◌∷◌, ◌++◌, arith, ◌≢◌,
  ◌⊎◌, sym,
}
use ithiltir.Shared.Tests.{Bool-cases, same_refl}
use ithiltir.Shared.Int.{ℤ, pos, int_eq}
use ithiltir.Shared.Text.{text_eq}
use ithiltir.Shared.Time.{Time}
use ithiltir.Outbox.{Store, Result, failed, ◌>>=◌, rule_stale, ok, find, exists}
use ithiltir.Outbox.Enqueue.{insert_alert_notifications}
use ithiltir.AlertEvents.{
  AlertEvent, AlertOpenEventParams, AlertOpenEventResult, EventStore, is_conflict, rule_holds,
  open_event, insert_open_event, stands_open, opened_event, has_event, write_open_event,
}

find-none : {A : Type 0} (p : A → Bool) (xs : List A) → exists p xs ≡ false → find p xs ≡ none
find-none p [] h = refl
find-none p (x ∷ xs) h =
    let first : p x ≡ false = ground arith in rw first (find-none p xs (ground arith))

pub find-last :
    {A : Type 0} (p : A → Bool) (xs : List A) (y : A)
    → exists p xs ≡ false
    → p y ≡ true
    → find p (xs ++ y ∷ []) ≡ some y
find-last p [] y h k = rw k refl
find-last p (x ∷ xs) y h k =
    let first : p x ≡ false = ground arith in rw first (find-last p xs y (ground arith) k)

pub find-exists :
    {A : Type 0} (p : A → Bool) (xs : List A) (x : A) → find p xs ≡ some x → exists p xs ≡ true
find-exists p [] x h = absurd (none-ne-some x h)
find-exists p (y ∷ xs) x h = elim (Bool-cases (p y)) [
  | inl e ↦ rw e refl
  | inr e ↦ rw e (find-exists p xs x (rw e at h))
]

find_not-none : {A : Type 0} (p : A → Bool) (xs : List A) → exists p xs ≡ true → find p xs ≢ none
find_not-none p [] h k = cc
find_not-none p (x ∷ xs) h k = elim (Bool-cases (p x)) [
  | inl e ↦ absurd (none-ne-some x (sym (rw e at k)))
  | inr e ↦ find_not-none p xs (ground arith) (rw e at k)
]

module _ {F : Type 0} where
  conflict_itself : (p : AlertOpenEventParams F) (id : ℤ) → is_conflict p (open_event p id) ≡ true
  conflict_itself p id =
      rw
        (
          same_refl p.rule_id,
          same_refl p.rule_generation,
          same_refl p.object_type,
          same_refl p.object_id,
        )
        refl

  -- The event is the open one, and opening it again gives it again.
  pub record Stands (p : AlertOpenEventParams F) (id : ℤ) (t : EventStore F) : Type 0 where
    pub event : AlertEvent F
    pub found : find (is_conflict p) t.events ≡ some event
    pub named : event.id ≡ id
    pub holds : rule_holds p t.rules ≡ true

  -- What a second call gives: the same event, not created, and no other change than of the sequence.
  pub record Repeats (p : AlertOpenEventParams F) (id : ℤ) (later : Time) (t : EventStore F)
      : Type 0 where
    pub next : EventStore F
    pub answers : write_open_event p later t ≡ ok (record { event_id = id; created = false }, next)
    pub same_events : next.events ≡ t.events
    pub same_outbox : next.outbox ≡ t.outbox
    pub same_rules : next.rules ≡ t.rules

  Stands-Repeats :
      (p : AlertOpenEventParams F) (id : ℤ) (later : Time) (t : EventStore F)
      → Stands p id t
      → Repeats p id later t
  unfolding write_open_event insert_open_event opened_event
  Stands-Repeats p id later t h =
      let there = find-exists (is_conflict p) t.events h.event h.found in
      record {
        next = record t { last_event = suc t.last_event };
        answers = rw (h.holds, there, h.found, h.named) (rw h.holds refl);
        same_events = refl;
        same_outbox = refl;
        same_rules = refl;
      }

  -- What an answer of the call says of the tables after it.
  abbrev pub Opens : AlertOpenEventParams F → Time → AlertOpenEventResult × EventStore F → Type 0
  Opens p later (result, t) = Stands p result.event_id t × Repeats p result.event_id later t

  Stands-Opens :
      (p : AlertOpenEventParams F) (later : Time) (result : AlertOpenEventResult) (t : EventStore F)
      → Stands p result.event_id t
      → Opens p later (result, t)
  Stands-Opens p later result t h = (h, Stands-Repeats p result.event_id later t h)

  -- It fails where the rule does not hold, or where a notification cannot be inserted.
  -- The events with the new one.
  abbrev with_opened : AlertOpenEventParams F → EventStore F → EventStore F
  with_opened p s = record s {
    events = s.events ++ open_event p (pos (suc s.last_event)) ∷ [];
    last_event = suc s.last_event;
  }

  abbrev pub Answers :
      AlertOpenEventParams F
      → Time
      → Time
      → EventStore F
      → Result (AlertOpenEventResult × EventStore F)
      → Type 0
  Answers p now later s (ok answer) = Opens p later answer
  Answers p now later s (failed e) =
      ((e ≡ rule_stale) × (rule_holds p s.rules ≡ false))
      ⊎ (insert_alert_notifications (has_event (with_opened p s)) (pos (suc s.last_event))
            p.notifications now s.outbox
          ≡ failed e)

  standing-Answers :
      (p : AlertOpenEventParams F) (now later : Time) (s t : EventStore F)
      (o : Option (AlertEvent F))
      → rule_holds p t.rules ≡ true
      → exists (is_conflict p) t.events ≡ true
      → find (is_conflict p) t.events ≡ o
      → Answers p now later s (stands_open true o t)
  standing-Answers p now later s t (some e) h c k =
      Stands-Opens p later (record { event_id = e.id; created = false }) t
        (record { event = e; found = k; named = refl; holds = h })
  standing-Answers p now later s t none h c k = absurd (find_not-none (is_conflict p) t.events c k)

  noted-Answers :
      (p : AlertOpenEventParams F) (now later : Time) (s : EventStore F) (m : Result Store)
      → insert_alert_notifications
          (has_event (with_opened p s))
          (pos (suc s.last_event))
          p.notifications
          now
          s.outbox
        ≡ m
      → ((outbox : Store)
          → Stands p (pos (suc s.last_event)) (record (with_opened p s) { outbox = outbox }))
      → Answers p now later s (
          m >>= λ outbox. ok (
            record { event_id = pos (suc s.last_event); created = true },
            record (with_opened p s) { outbox = outbox },
          ))
  noted-Answers p now later s (ok outbox) e h =
      Stands-Opens p later (record { event_id = pos (suc s.last_event); created = true })
        (record (with_opened p s) { outbox = outbox }) (h outbox)
  noted-Answers p now later s (failed x) e h = inr e

  inserted-Answers :
      (p : AlertOpenEventParams F) (now later : Time) (s : EventStore F)
      → rule_holds p s.rules ≡ true
      → exists (is_conflict p) s.events ≡ false
      → Answers p now later s (
          opened_event p now (
            some (pos (suc s.last_event)),
            record s {
              events = s.events ++ open_event p (pos (suc s.last_event)) ∷ [];
              last_event = suc s.last_event;
            },
          ))
  unfolding opened_event
  inserted-Answers p now later s h k =
      let id = pos (suc s.last_event) in
      noted-Answers p now later s
        (insert_alert_notifications (has_event (with_opened p s)) id p.notifications now s.outbox)
        refl
        (λ outbox. record {
          event = open_event p id;
          found = find-last (is_conflict p) s.events (open_event p id) k (conflict_itself p id);
          named = refl;
          holds = h;
        })

  -- WriteOpenTransition fails only where the rule does not hold or a notification cannot be inserted.
  -- Otherwise its event is the one that is open for the rule, its generation and the object, and the
  -- rule holds; calling it again for the same, at any later time, succeeds with the same event as one
  -- that it has not created, and changes no event, rule or notification.
  pub write_open-Answers :
      (p : AlertOpenEventParams F) (now later : Time) (s : EventStore F)
      → Answers p now later s (write_open_event p now s)
  unfolding write_open_event insert_open_event opened_event
  write_open-Answers p now later s =
      go (rule_holds p s.rules) refl (exists (is_conflict p) s.events) refl
    where
      go :
          (b : Bool)
          → rule_holds p s.rules ≡ b
          → (c : Bool) → exists (is_conflict p) s.events ≡ c
          → Answers p now later s (write_open_event p now s)
      go false h c k = rw (h, h) (inl (refl, h))
      go true h true k =
          rw (h, k, h)
            (standing-Answers p now later s (record s { last_event = suc s.last_event })
              (find (is_conflict p) s.events) h k refl)
      go true h false k = rw (h, k) (inserted-Answers p now later s h k)
