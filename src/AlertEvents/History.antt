-- ===== src/AlertEvents/History.antt =====
-- The events over any calls: at most one is open for a rule, a generation and an object, and a closed
-- one stays as it is.
use ithiltir.Shared.{
  suc, ◌≡◌, ◌≢◌, refl, ap, sym, ◌∙◌, inl, inr, Bool, true, false, not, Option, none, some, List, [],
  ◌∷◌, ◌++◌, map, arith,
}
use ithiltir.Shared.Tests.{◌==◌, if◌then◌else◌, Bool-cases}
use ithiltir.Shared.Lists.{All, All-append}
use ithiltir.Shared.Int.{ℤ, pos, int_eq, leb_ℤ}
use ithiltir.Shared.Text.{Text, text_eq}
use ithiltir.Shared.Time.{Time}
use ithiltir.Outbox.{Result, ok, failed, OnOk, OnOk-bind, find, exists, when}
use ithiltir.Outbox.Enqueue.{insert_alert_notifications}
use ithiltir.AlertEvents.{
  has_event, AlertEvent, is_open, AlertOpenEventParams, AlertCloseEventParams, EventStore,
  is_conflict, rule_holds, open_event, as_closed, insert_open_event, stands_open, opened_event,
  write_open_event, close_found, write_close_event, touch_event, is_touched, is_closing,
}

-- The columns that say what an event is about.
abbrev pub Key : Type 0
Key = ℤ × ℤ × Text × ℤ

-- The calls that write events.
pub data Call (F : Type 0) : Type 0 where
  opens : AlertOpenEventParams F → Time → Call F
  closes : AlertCloseEventParams F → Time → Call F
  touches : ℤ → Time → F → F → Call F

module _ {F : Type 0} where
  abbrev pub key_of : AlertEvent F → Key
  key_of e = (e.rule_id, e.rule_generation, e.object_type, e.object_id)

  -- Two events that are not both open for one key.
  abbrev pub Apart : AlertEvent F → AlertEvent F → Type 0
  Apart d e = is_open d.status ≡ true → is_open e.status ≡ true → key_of e ≢ key_of d

  abbrev pub OneOpen : List (AlertEvent F) → Type 0
  OneOpen [] = Unit
  OneOpen (e ∷ events) = All (Apart e) events × OneOpen events

  -- A change that keeps the key and opens nothing.
  abbrev pub Closes : (AlertEvent F → AlertEvent F) → Type 0
  Closes g =
      (e : AlertEvent F)
      → (key_of (g e) ≡ key_of e) × (is_open (g e).status ≡ true → is_open e.status ≡ true)

  Apart-map :
      (g : AlertEvent F → AlertEvent F) (d : AlertEvent F) (events : List (AlertEvent F))
      → Closes g
      → All (Apart d) events
      → All (Apart (g d)) (map g events)
  Apart-map g d [] h k = tt
  Apart-map g d (e ∷ events) h k =
      (λ p q r. k.0 ((h d).1 p) ((h e).1 q) (sym (h e).0 ∙ r ∙ (h d).0), Apart-map g d events h k.1)

  OneOpen-map :
      (g : AlertEvent F → AlertEvent F) (events : List (AlertEvent F))
      → Closes g
      → OneOpen events
      → OneOpen (map g events)
  OneOpen-map g [] h k = tt
  OneOpen-map g (e ∷ events) h k = (Apart-map g e events h k.0, OneOpen-map g events h k.1)

  when-Closes :
      (p : AlertEvent F → Bool) (g : AlertEvent F → AlertEvent F) → Closes g → Closes (when p g)
  when-Closes p g h e = elim (Bool-cases (p e)) [
    | inl q ↦ rw q (h e)
    | inr q ↦ rw q (refl, (λ r. r))
  ]

  as_closed-Closes : (p : AlertCloseEventParams F) → Closes (as_closed p)
  as_closed-Closes p e = (refl, (λ h. cc))

  -- A new event of a key that no event is open for.
  no_conflict :
      (p : AlertOpenEventParams F) (id : ℤ) (events : List (AlertEvent F))
      → exists (is_conflict p) events ≡ false
      → All (λ e. Apart e (open_event p id)) events
  no_conflict p id [] h = tt
  no_conflict p id (e ∷ events) h = (apart, no_conflict p id events (ground arith))
    where
      apart : Apart e (open_event p id)
      apart o t q =
          let rule = (int_eq.same_iff e.rule_id p.rule_id).1 (sym (ap (λ k. k.0) q)) in
          let generation =
            (int_eq.same_iff e.rule_generation p.rule_generation).1 (sym (ap (λ k. k.1) q)) in
          let kind = (text_eq.same_iff e.object_type p.object_type).1 (sym (ap (λ k. k.2) q)) in
          let object = (int_eq.same_iff e.object_id p.object_id).1 (sym (ap (λ k. k.3) q)) in
          ground arith

  OneOpen-append :
      (events : List (AlertEvent F)) (e : AlertEvent F)
      → All (λ d. Apart d e) events
      → OneOpen events
      → OneOpen (events ++ e ∷ [])
  OneOpen-append [] e h k = (tt, tt)
  OneOpen-append (d ∷ events) e h k =
      (All-append (Apart d) events (e ∷ []) k.0 (h.0, tt), OneOpen-append events e h.1 k.1)

  -- What a call leaves, where it succeeds.
  abbrev HasOne : {A : Type 0} → A × EventStore F → Type 0
  HasOne r = OneOpen r.1.events

  stands_open-OneOpen :
      (b : Bool) (o : Option (AlertEvent F)) (s : EventStore F)
      → OneOpen s.events
      → OnOk HasOne (stands_open b o s)
  stands_open-OneOpen true (some e) s h = h
  stands_open-OneOpen true none s h = tt
  stands_open-OneOpen false o s h = tt

  HasOne-if :
      {A : Type 0} (b : Bool) (x y : A × EventStore F)
      → HasOne x
      → HasOne y
      → HasOne (if b then x else y)
  HasOne-if true x y h k = h
  HasOne-if false x y h k = k

  insert-OneOpen :
      (p : AlertOpenEventParams F) (s : EventStore F)
      → OneOpen s.events
      → OneOpen (insert_open_event p s).1.events
  unfolding insert_open_event
  insert-OneOpen p s h =
      HasOne-if (not (rule_holds p s.rules)) (none, s) _ h
        (elim (Bool-cases (exists (is_conflict p) s.events)) [
          | inl e ↦ rw e h
          | inr e ↦ rw e (
              OneOpen-append s.events (open_event p (pos (suc s.last_event)))
                (no_conflict p (pos (suc s.last_event)) s.events e) h)
        ])

  opened-OneOpen :
      (p : AlertOpenEventParams F) (now : Time) (o : Option ℤ) (s : EventStore F)
      → OneOpen s.events
      → OnOk HasOne (opened_event p now (o, s))
  unfolding opened_event
  opened-OneOpen p now none s h =
      stands_open-OneOpen (rule_holds p s.rules) (find (is_conflict p) s.events) s h
  opened-OneOpen p now (some id) s h =
      OnOk-bind HasOne (insert_alert_notifications (has_event s) id p.notifications now s.outbox) _
        (λ outbox e. h)

  close_found-OneOpen :
      (p : AlertCloseEventParams F) (now : Time) (o : Option (AlertEvent F)) (s : EventStore F)
      → OneOpen s.events
      → OnOk HasOne (close_found p now o s)
  unfolding close_found
  close_found-OneOpen p now none s h = h
  close_found-OneOpen p now (some e) s h =
      OnOk-bind HasOne (insert_alert_notifications (has_event s) e.id p.notifications now s.outbox)
        _
        (λ outbox q.
          OneOpen-map _ s.events
            (when-Closes (λ (d : AlertEvent F). d.id == e.id) (as_closed p) (as_closed-Closes p)) h)

  touch-OneOpen :
      (id : ℤ) (at : Time) (value threshold : F) (s : EventStore F)
      → OneOpen s.events
      → OneOpen (touch_event id at value threshold s).1.events
  unfolding touch_event
  touch-OneOpen id at value threshold s h =
      HasOne-if (leb_ℤ id (pos 0)) (false, s) _ h
        (OneOpen-map _ s.events
          (when-Closes (is_touched id)
            (λ (e : AlertEvent F). record e {
              last_trigger_at = at;
              current_value = some value;
              effective_threshold = some threshold;
              close_reason = none;
            })
            (λ e. (refl, (λ r. r))))
          h)

  abbrev pub committed : {A : Type 0} → EventStore F → Result (A × EventStore F) → EventStore F
  committed s (ok r) = r.1
  committed s (failed e) = s

  committed-OneOpen :
      {A : Type 0} (s : EventStore F) (m : Result (A × EventStore F))
      → OneOpen s.events
      → OnOk HasOne m
      → OneOpen (committed s m).events
  committed-OneOpen s (ok r) h k = k
  committed-OneOpen s (failed e) h k = h

  -- The tables after a call, and after several.
  unfoldable pub step : EventStore F → Call F → EventStore F
  step s (opens p now) = committed s (write_open_event p now s)
  step s (closes p now) = committed s (write_close_event p now s)
  step s (touches id at value threshold) = (touch_event id at value threshold s).1

  unfoldable pub run : EventStore F → List (Call F) → EventStore F
  run s [] = s
  run s (c ∷ calls) = run (step s c) calls

  step-OneOpen : (s : EventStore F) (c : Call F) → OneOpen s.events → OneOpen (step s c).events
  unfolding step write_open_event write_close_event
  step-OneOpen s (opens p now) h = committed-OneOpen s _ h (
      opened-OneOpen p now (insert_open_event p s).0 (insert_open_event p s).1
        (insert-OneOpen p s h))
  step-OneOpen s (closes p now) h =
      committed-OneOpen s _ h (close_found-OneOpen p now (find (is_closing p) s.events) s h)
  step-OneOpen s (touches id at value threshold) h = touch-OneOpen id at value threshold s h

  -- Whatever is opened, closed and touched in whatever order, at most one event is open at a time for a
  -- rule, its generation and an object.
  pub run-OneOpen :
      (s : EventStore F) (calls : List (Call F)) → OneOpen s.events → OneOpen (run s calls).events
  unfolding run
  run-OneOpen s [] h = h
  run-OneOpen s (c ∷ calls) h = run-OneOpen (step s c) calls (step-OneOpen s c h)
