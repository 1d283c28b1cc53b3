-- ===== src/Outbox/Keys.antt =====
-- Dedupe keys (insertNotifications): a notification that is enqueued again is left out.
use mathlib.Core.Path.{subst}
use ithiltir.Shared.Int.{ℤ, int_eq}
use ithiltir.Shared.{Bool, not, ℕ, suc, ◌≡◌, refl, sym, inl, inr, true, false, List, [], ◌∷◌, ◌++◌}
use ithiltir.Shared.Tests.{◌==◌, Bool-cases}
use ithiltir.Shared.Lists.{All}
use ithiltir.Shared.Text.{text_eq}
use ithiltir.Shared.Time.{Time}
use ithiltir.Outbox.{exists, Channel, Row, Store, ok, OnOk}
use ithiltir.Outbox.Enqueue.{
  NotificationParams, has_key, last_number, create_or_ignore, insert_notifications, new_rows,
  is_notify_type, is_known, refers_well,
}
use ithiltir.Outbox.Built.{
  AreBuilt, AreComplete, HasKeys, IsMadeOf, build_rows-AreBuilt, build_rows-again, created-HasKeys,
  ignored,
}

-- What the database asks of a notification: a type that it knows, an event and a channel that it has.
abbrev pub IsAllowed : (ℤ → Bool) → Store → NotificationParams → Type 0
IsAllowed is_event s p =
    (is_notify_type p.channel_type ≡ true)
    × (is_known is_event p.event_id ≡ true)
    × (exists (λ (c : Channel). c.id == p.channel_id) s.channels ≡ true)

abbrev pub HaveTypes : List NotificationParams → Type 0
HaveTypes = All (λ p. is_notify_type p.channel_type ≡ true)

allowed-HaveTypes :
    (is_event : ℤ → Bool) (s : Store) (params : List NotificationParams)
    → All (IsAllowed is_event s) params
    → HaveTypes params
allowed-HaveTypes is_event s [] h = tt
allowed-HaveTypes is_event s (p ∷ params) h = (h.0.0, allowed-HaveTypes is_event s params h.1)

types_known :
    (params : List NotificationParams) (built : List (ℕ → Row))
    → AreBuilt params built
    → HaveTypes params
    → exists (λ (make : ℕ → Row). not (is_notify_type (make 0).channel_type)) built ≡ false
types_known [] [] b h = refl
types_known [] (make ∷ built) b h = absurd b
types_known (p ∷ params) [] b h = absurd b
types_known (p ∷ params) (make ∷ built) b h =
    let rest = types_known params built b.1 h.1 in rw (b.0.kind 0, h.0, rest) refl

refers_well_made :
    (is_event : ℤ → Bool) (s : Store) (p : NotificationParams) (make : ℕ → Row) (n : ℕ)
    → IsMadeOf p make
    → IsAllowed is_event s p
    → refers_well is_event s.channels (make n) ≡ true
refers_well_made is_event s p make n m (k, e, c) = rw (m.event n, m.channel n, e, c) refl

references_known :
    (is_event : ℤ → Bool) (s : Store) (last : ℕ) (params : List NotificationParams)
    (built : List (ℕ → Row)) (rows : List Row)
    → AreBuilt params built
    → All (IsAllowed is_event s) params
    → exists (λ r. not (refers_well is_event s.channels r)) (new_rows last built rows) ≡ false
references_known is_event s last [] [] rows b h = refl
references_known is_event s last [] (make ∷ built) rows b h = absurd b
references_known is_event s last (p ∷ params) [] rows b h = absurd b
references_known is_event s last (p ∷ params) (make ∷ built) rows b h =
    elim (Bool-cases (has_key (make (suc last)).dedupe_key rows)) [
      | inl e ↦ rw e (references_known is_event s (suc last) params built rows b.1 h.1)
      | inr e ↦
          let first = refers_well_made is_event s p make (suc last) b.0 h.0 in
          let rest =
            references_known is_event s (suc last) params built (rows ++ make (suc last) ∷ []) b.1
              h.1 in
          rw (e, first, rest) refl
    ]

none_new :
    (last : ℕ) (params : List NotificationParams) (built : List (ℕ → Row)) (rows : List Row)
    → AreBuilt params built
    → HasKeys params rows
    → new_rows last built rows ≡ []
none_new last [] [] rows h k = refl
none_new last [] (make ∷ built) rows h k = absurd h
none_new last (p ∷ params) [] rows h k = absurd h
none_new last (p ∷ params) (make ∷ built) rows h k =
    let known : has_key (make (suc last)).dedupe_key rows ≡ true =
      subst (λ key. has_key key rows ≡ true) (sym (h.0.key (suc last))) k.0 in
    rw known (none_new (suc last) params built rows h.1 k.1)

-- What a second insertion gives, whatever events there are then.
abbrev pub Again : List NotificationParams → Time → Store → Type 0
Again params later t =
    (is_event : ℤ → Bool)
    → (u : Store) × (insert_notifications is_event params later t ≡ ok u) × (u.rows ≡ t.rows)

Again-ok :
    (params : List NotificationParams) (later : Time) (t : Store)
    → AreComplete params
    → HaveTypes params
    → HasKeys params t.rows
    → Again params later t
unfolding insert_notifications
Again-ok params later t h y k is_event =
    let (built, e) = build_rows-again t.rows later params h in
    let fits = subst (OnOk (AreBuilt params)) e (build_rows-AreBuilt t.rows later params) in
    (
      record t {
        rows = create_or_ignore t.last_id built t.rows;
        last_id = last_number t.last_id built;
      },
      rw (e, types_known params built fits y, none_new t.last_id params built t.rows fits k) refl,
      ignored t.last_id params built t.rows fits k,
    )

-- An insertion of notifications whose fields are all there, whose types the database knows, and whose
-- events and channels it has, succeeds, and their dedupe keys stand in the table after it. From then on
-- inserting the same notifications again, at any time, succeeds too and leaves every row as it is.
pub insert-Again :
    (is_event : ℤ → Bool) (params : List NotificationParams) (now later : Time) (s : Store)
    → AreComplete params
    → All (IsAllowed is_event s) params
    → (t : Store) × (insert_notifications is_event params now s ≡ ok t)
      × HasKeys params t.rows
      × Again params later t
unfolding insert_notifications
insert-Again is_event params now later s complete allowed =
    let (built, e) = build_rows-again s.rows now params complete in
    let fits = subst (OnOk (AreBuilt params)) e (build_rows-AreBuilt s.rows now params) in
    let types = allowed-HaveTypes is_event s params allowed in
    let keys = created-HasKeys s.last_id params built s.rows fits in
    let t = record s {
      rows = create_or_ignore s.last_id built s.rows;
      last_id = last_number s.last_id built;
    } in
    (
      t,
      rw
          (
            e,
            types_known params built fits types,
            references_known is_event s s.last_id params built s.rows fits allowed,
          )
          refl,
      keys,
      Again-ok params later t complete types keys,
    )
