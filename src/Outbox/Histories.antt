-- ===== src/Outbox/Histories.antt =====
-- What histories of calls do to the notifications: the table refines a map from numbers to statuses
-- that follow the arrows of Rows.
use mathlib.Core.Path.{subst}
use mathlib.Core.Option.{some_inj, none-ne-some}
use ithiltir.Shared.{ℕ, ◌≡◌, ap, sym, ◌∙◌, ◌⊎◌, inl, inr, true, Option, none, some, List, [], ◌∷◌}
use ithiltir.Shared.Tests.{◌==◌, Bool-cases}
use ithiltir.Shared.Lists.{All}
use ithiltir.Shared.Int.{ℤ, int_eq}
use ithiltir.Shared.Text.{Text}
use ithiltir.Alert.Retry.{OutboxStatus, pending, blocked}
use ithiltir.Outbox.{Row, Payload, Store, find}
use ithiltir.Outbox.Take.{has_id}
use ithiltir.Outbox.Rows.{Steps, Evolves, IsFresh, IsTable, Moves, is_final}
use ithiltir.Outbox.Calls.{Call, step, run, step-Goes}

-- The row with a number.
abbrev pub row_of : ℤ → List Row → Option Row
row_of id rows = find (has_id id) rows

-- What a call may do to the row of a number.
abbrev pub Lives : Option Row → Option Row → Type 0
Lives none none = Unit
Lives none (some t) = IsFresh t
Lives (some r) none = ⊥
Lives (some r) (some t) = Steps r t

fresh-Lives : (id : ℤ) (rows : List Row) → All IsFresh rows → Lives none (row_of id rows)
fresh-Lives id [] h = tt
fresh-Lives id (r ∷ rows) h = elim (Bool-cases (has_id id r)) [
  | inl e ↦ rw e h.0
  | inr e ↦ rw e (fresh-Lives id rows h.1)
]

Evolves-Lives :
    (id : ℤ) (rows next : List Row) → Evolves rows next → Lives (row_of id rows) (row_of id next)
Evolves-Lives id [] next h = fresh-Lives id next h
Evolves-Lives id (r ∷ rows) [] h = absurd h
Evolves-Lives id (r ∷ rows) (t ∷ next) h =
    let same = ap (λ x. x.id) h.0.same in
    elim (Bool-cases (has_id id r)) [
      | inl e ↦ rw (e, ap (λ j. j == id) same ∙ e) h.0
      | inr e ↦ rw (e, ap (λ j. j == id) same ∙ e) (Evolves-Lives id rows next h.1)
    ]

-- The abstract view of the table.
abbrev pub status_in : Option Row → Option OutboxStatus
status_in none = none
status_in (some r) = some r.status

unfoldable pub status_of : Store → ℤ → Option OutboxStatus
status_of s id = status_in (row_of id s.rows)

-- What the specification allows: to begin pending or blocked, and to go along an arrow.
abbrev pub Follows : Option OutboxStatus → Option OutboxStatus → Type 0
Follows none none = Unit
Follows none (some t) = (t ≡ pending) ⊎ (t ≡ blocked)
Follows (some s) none = ⊥
Follows (some s) (some t) = Moves s t

Lives-Follows : (o p : Option Row) → Lives o p → Follows (status_in o) (status_in p)
Lives-Follows none none h = tt
Lives-Follows none (some t) h = h.0
Lives-Follows (some r) none h = h
Lives-Follows (some r) (some t) h = h.moves

module _ (units : List Payload → ℕ) (seal : ℤ → Text → Text → Option Text) where
  -- Every call of the store is a step of the specification for every number: a notification begins
  -- pending or blocked, is never lost, and its status stays or goes along an arrow of `may_become`.
  pub step-Follows :
      (s : Store) (c : Call) (id : ℤ)
      → IsTable s
      → Follows (status_of s id) (status_of (step units seal s c) id)
  unfolding status_of
  step-Follows s c id v =
      Lives-Follows _ _ (Evolves-Lives id s.rows _ (step-Goes units seal s c v).0)

  -- Whatever is called in whatever order, the table keeps its invariant: numbers and dedupe keys are
  -- unique, the marker of a probe stands only at what is in flight, failed probes are counted only for
  -- what is blocked or a probe, and a time of sending stands exactly at what is sent.
  pub run-IsTable : (s : Store) (calls : List Call) → IsTable s → IsTable (run units seal s calls)
  unfolding run
  run-IsTable s [] v = v
  run-IsTable s (c ∷ calls) v =
      run-IsTable (step units seal s c) calls (step-Goes units seal s c v).1

  stays :
      (id : ℤ) (r : Row) (o p : Option Row)
      → Lives o p
      → o ≡ some r
      → is_final r.status ≡ true
      → p ≡ some r
  stays id r none p h e f = absurd (none-ne-some r e)
  stays id r (some u) none h e f = absurd h
  stays id r (some u) (some t) h e f =
      let q : u ≡ r = some_inj.0 e in
      ap some (h.stays (subst (λ x. is_final x.status ≡ true) (sym q) f) ∙ q)

  -- A notification that has been sent or discarded stands in the table as it is after any further
  -- calls, so that it is not taken, sent or woken again.
  pub run-stays :
      (s : Store) (calls : List Call) (id : ℤ) (r : Row)
      → IsTable s
      → row_of id s.rows ≡ some r
      → is_final r.status ≡ true
      → row_of id (run units seal s calls).rows ≡ some r
  unfolding run
  run-stays s [] id r v e f = e
  run-stays s (c ∷ calls) id r v e f =
      let (h, w) = step-Goes units seal s c v in
      run-stays (step units seal s c) calls id r w
        (stays id r _ _ (Evolves-Lives id s.rows _ h) e f) f
