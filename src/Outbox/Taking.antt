-- ===== src/Outbox/Taking.antt =====
-- What the queries of Take select, and that taking respects the life of every row.
use mathlib.Core.Path.{subst}
use mathlib.Core.Option.{some_inj, none-ne-some}
use ithiltir.Shared.{
  ◌≡◌, ◌≢◌, refl, sym, ◌∙◌, ◌⊎◌, inl, inr, Bool, true, false, Option, none, some, List, [], ◌∷◌,
  arith,
}
use ithiltir.Shared.Tests.{◌==◌, Bool-cases, nat_eq}
use ithiltir.Shared.Lists.{All, contains, contains-All}
use ithiltir.Shared.Int.{int_eq, int_eqb_iff}
use ithiltir.Shared.Text.{text_eq}
use ithiltir.Shared.Time.{Time}
use ithiltir.Alert.Retry.{OutboxStatus, pending, sending, sent, retry, blocked}
use ithiltir.Outbox.{Row, Store, when, filter, status_eq, status_eqb, status_eqb_iff, rank}
use ithiltir.Outbox.Take.{
  is_due, is_claimable, precedes, better, first_of, has_id, was_probe, as_taken, taken,
  take_next_notification,
}
use ithiltir.Outbox.Rows.{
  Steps, Each-refl, Each-map, when-Steps, is_final, IsSound, In, same_row, AreApart, subjects,
  may_become, IsTable,
}
use ithiltir.Outbox.Settling.{Keeps}

pub filter-All :
    (P : Row → Type 0) (p : Row → Bool) (rows : List Row)
    → ((r : Row) → In r rows → p r ≡ true → P r)
    → All P (filter p rows)
filter-All P p [] h = tt
filter-All P p (r ∷ rows) h = elim (Bool-cases (p r)) [
  | inl e ↦ rw e (h r (inl refl) e, filter-All P p rows (λ t m. h t (inr m)))
  | inr e ↦ rw e (filter-All P p rows (λ t m. h t (inr m)))
]

better_lem : (P : Row → Type 0) (r t : Row) → P r → P t → P (better r (some t))
better_lem P r t h k = elim (Bool-cases (precedes t r)) [ inl e ↦ rw e k | inr e ↦ rw e h ]

pub first_of-All :
    (P : Row → Type 0) (rows : List Row) (r : Row) → All P rows → first_of rows ≡ some r → P r
unfolding first_of
first_of-All P [] r h e = absurd (none-ne-some r e)
first_of-All P (t ∷ rows) r h e =
    subst P (some_inj.0 e) (go (first_of rows) (λ u q. first_of-All P rows u h.1 q))
  where
    go : (o : Option Row) → ((u : Row) → o ≡ some u → P u) → P (better t o)
    go none q = h.0
    go (some u) q = better_lem P t u h.0 (q u refl)

-- What the query gives is a row of the table that can be claimed.
pub claimed_row :
    (now : Time) (rows : List Row) (r : Row)
    → first_of (filter (is_claimable now rows) rows) ≡ some r
    → In r rows × (is_claimable now rows r ≡ true)
claimed_row now rows r =
    first_of-All (λ t. In t rows × (is_claimable now rows t ≡ true))
      (filter (is_claimable now rows) rows) r
      (filter-All _ (is_claimable now rows) rows (λ t m e. (m, e)))

due_status :
    (now : Time) (r : Row)
    → is_due now r ≡ true
    → (contains r.status (pending ∷ retry ∷ blocked ∷ []) ≡ true) ⊎ (r.status ≡ sending)
due_status now r h = elim (Bool-cases (r.status == sending)) [
  | inl e ↦ inr ((status_eqb_iff r.status sending).0 e)
  | inr e ↦ inl (ground arith)
]

abbrev pub IsTakeable : OutboxStatus → Type 0
IsTakeable s = (may_become s sending ≡ true) × (is_final s ≡ false)

pub due-IsTakeable : (now : Time) (r : Row) → is_due now r ≡ true → IsTakeable r.status
unfolding status_eqb rank
due-IsTakeable now r h = elim (due_status now r h) [
  | inl m ↦
      contains-All IsTakeable r.status (pending ∷ retry ∷ blocked ∷ [])
        ((refl, refl), ((refl, refl), ((refl, refl), tt))) m
  | inr e ↦ subst IsTakeable (sym e) (refl, refl)
]

pub unsent : false ≡ (sending == sent)
unfolding status_eqb rank
unsent = refl

pub not_sent : (s : OutboxStatus) → is_final s ≡ false → (s == sent) ≡ false
not_sent s h = ground arith

pub as_taken-Steps :
    (now : Time) (r : Row) → is_due now r ≡ true → Steps r (as_taken now (was_probe r) r)
as_taken-Steps now r h =
    let (moves, onward) = due-IsTakeable now r h in
    record {
      same = refl;
      moves = inr moves;
      stays = λ f. cc;
      sound = λ v. record {
        probes = λ p. refl;
        counted = λ n. inr (probe_of v n);
        dated = v.dated ∙ not_sent r.status onward ∙ unsent;
      };
    }
  where
    probe_of : IsSound r → r.probe_count ≢ 0 → was_probe r ≡ true
    probe_of v n = elim (v.counted n) [
      | inl e ↦ let b = (status_eqb_iff r.status blocked).1 e in ground arith
      | inr e ↦ ground arith
    ]

pub taken_row-Steps :
    (now : Time) (rows : List Row) (r t : Row)
    → AreApart (subjects rows)
    → In r rows
    → is_due now r ≡ true
    → In t rows
    → Steps t (when (has_id r.id) (as_taken now (was_probe r)) t)
taken_row-Steps now rows r t v m d n = when-Steps (has_id r.id) (as_taken now (was_probe r)) t (λ e.
    subst (λ (x : Row). Steps x (as_taken now (was_probe r) x))
      (same_row rows r t v m n (sym ((int_eqb_iff t.id r.id).0 e))) (as_taken-Steps now r d))

pub taken-Keeps :
    (now : Time) (s : Store) (o : Option Row)
    → IsTable s
    → first_of (filter (is_claimable now s.rows) s.rows) ≡ o
    → Keeps s (taken now s o).0
unfolding taken is_claimable
taken-Keeps now s none v h = record { each = Each-refl s.rows; last = refl }
taken-Keeps now s (some r) v h =
    let (m, c) = claimed_row now s.rows r h in
    record {
      each = Each-map _ s.rows (λ t n. taken_row-Steps now s.rows r t v.apart m (ground arith) n);
      last = refl;
    }

pub take_next-Keeps :
    (now : Time) (s : Store) → IsTable s → Keeps s (take_next_notification now s).0
unfolding take_next_notification
take_next-Keeps now s v =
    taken-Keeps now s (first_of (filter (is_claimable now s.rows) s.rows)) v refl
