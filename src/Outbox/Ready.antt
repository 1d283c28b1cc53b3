-- ===== src/Outbox/Ready.antt =====
-- What the condition of TakeNextNotification means: which notifications are due, and for which openings
-- a closing waits.
use mathlib.Core.Path.{subst}
use ithiltir.Shared.{
  ◌≤◌, ◌≡◌, refl, sym, ap, ◌⊎◌, ◌↔◌, inl, inr, true, false, Option, none, some, List, [], ◌∷◌,
  arith,
}
use ithiltir.Shared.Tests.{◌==◌, Bool-cases, nat_eq}
use ithiltir.Shared.Lists.{contains}
use ithiltir.Shared.Int.{ℤ, int_eq, int_eqb_iff}
use ithiltir.Shared.Text.{codes, text_eq}
use ithiltir.Shared.Time.{Time}
use ithiltir.Alert.Retry.{OutboxStatus, pending, sending, sent, retry, blocked, paused, discarded}
use ithiltir.Outbox.{Row, exists, status_eq, status_eqb, status_eqb_iff, rank}
use ithiltir.Outbox.Take.{is_due, is_claimable, predecessor_ready, is_predecessor, same_event}
use ithiltir.Outbox.Rows.{In, is_final}

-- In flight, or waiting until a time that has come.
abbrev pub IsDue : Time → Row → Type 0
IsDue now r =
    (r.status ≡ sending)
    ⊎ (((r.status ≡ pending) ⊎ ((r.status ≡ retry) ⊎ (r.status ≡ blocked)))
        × (r.next_attempt_at ≤ now))

-- An opening of the same event on the same channel.
abbrev pub IsOpeningOf : Row → Row → Type 0
IsOpeningOf r o =
    ((event : ℤ) × (o.event_id ≡ some event) × (r.event_id ≡ some event))
    × (o.channel_id ≡ r.channel_id)
    × (o.transition ≡ codes "opened")

-- A closing waits until every opening of its event on its channel has been sent or discarded.
abbrev pub NeedNotWait : List Row → Row → Type 0
NeedNotWait rows r =
    r.transition ≡ codes "closed"
    → (o : Row) → In o rows
    → IsOpeningOf r o
    → (o.status ≡ sent) ⊎ (o.status ≡ discarded)

abbrev pub IsClaimable : Time → List Row → Row → Type 0
IsClaimable now rows r = IsDue now r × NeedNotWait rows r

is_due_iff : (now : Time) (r : Row) → (is_due now r ≡ true) ↔ IsDue now r
is_due_iff now r = ground (
  arith,
  status_eqb_iff r.status sending,
  status_eqb_iff r.status pending,
  status_eqb_iff r.status retry,
  status_eqb_iff r.status blocked,
)

same_event_iff :
    (a b : Option ℤ) → (same_event a b ≡ true) ↔ ((event : ℤ) × (a ≡ some event) × (b ≡ some event))
same_event_iff none b = ((λ h. cc), λ (e, p, q). cc)
same_event_iff (some a) none = ((λ h. cc), λ (e, p, q). cc)
same_event_iff (some a) (some b) =
    ((λ h. (a, refl, ap some (sym ((int_eqb_iff a b).0 h)))), λ (e, p, q). (int_eqb_iff a b).1 (cc))

-- What is in none of the open statuses is settled.
abbrev open_statuses : List OutboxStatus
open_statuses = pending ∷ sending ∷ retry ∷ blocked ∷ paused ∷ []

settled_status :
    (s : OutboxStatus) → contains s open_statuses ≡ false → (s ≡ sent) ⊎ (s ≡ discarded)
unfolding status_eqb rank
settled_status pending h = cc
settled_status sending h = cc
settled_status sent h = inl refl
settled_status retry h = cc
settled_status blocked h = cc
settled_status paused h = cc
settled_status discarded h = inr refl

pub settled_final : (s : OutboxStatus) → (s ≡ sent) ⊎ (s ≡ discarded) → is_final s ≡ true
unfolding status_eqb rank
settled_final s (inl e) = rw e refl
settled_final s (inr e) = rw e refl

open_status : (s : OutboxStatus) → (s ≡ sent) ⊎ (s ≡ discarded) → contains s open_statuses ≡ false
unfolding status_eqb rank
open_status s (inl e) = rw e refl
open_status s (inr e) = rw e refl

is_predecessor_iff :
    (r o : Row)
    → (is_predecessor r o ≡ true) ↔ (IsOpeningOf r o × (contains o.status open_statuses ≡ true))
is_predecessor_iff r o = (
  λ h. (
    (
      (same_event_iff o.event_id r.event_id).0 (ground arith),
      (int_eqb_iff o.channel_id r.channel_id).0 (ground arith),
      (text_eq.same_iff o.transition (codes "opened")).0 (ground arith),
    ),
    ground arith,
  ),
  λ ((event, channel, transition), status).
      let a = (same_event_iff o.event_id r.event_id).1 event in
      let b = (int_eqb_iff o.channel_id r.channel_id).1 channel in
      let c = (text_eq.same_iff o.transition (codes "opened")).1 transition in
      rw (a, b, c, status) refl,
)

-- No row of the table is an opening that the closing has to wait for.
not_predecessor :
    (r : Row) (rows : List Row) (o : Row)
    → exists (is_predecessor r) rows ≡ false
    → In o rows
    → is_predecessor r o ≡ false
not_predecessor r [] o h m = absurd m
not_predecessor r (t ∷ rows) o h (inl e) = subst (λ x. is_predecessor r x ≡ false) e (ground arith)
not_predecessor r (t ∷ rows) o h (inr m) = not_predecessor r rows o (ground arith) m

no_predecessor :
    (r : Row) (rows : List Row)
    → ((o : Row) → In o rows → is_predecessor r o ≡ false)
    → exists (is_predecessor r) rows ≡ false
no_predecessor r [] h = refl
no_predecessor r (t ∷ rows) h =
    let first = h t (inl refl) in
    let rest = no_predecessor r rows (λ o m. h o (inr m)) in rw (first, rest) refl

pub ready-NeedNotWait :
    (rows : List Row) (r : Row) → predecessor_ready rows r ≡ true → NeedNotWait rows r
unfolding predecessor_ready
ready-NeedNotWait rows r h e o m k =
    let closed = (text_eq.same_iff r.transition (codes "closed")).1 e in
    let ready : exists (is_predecessor r) rows ≡ false = ground arith in
    settled_status o.status (elim (Bool-cases (contains o.status open_statuses)) [
      | inl c ↦
          let q = (is_predecessor_iff r o).1 (k, c) in
          absurd (cc (q, not_predecessor r rows o ready m))
      | inr c ↦ c
    ])

NeedNotWait-ready :
    (rows : List Row) (r : Row) → NeedNotWait rows r → predecessor_ready rows r ≡ true
unfolding predecessor_ready
NeedNotWait-ready rows r h = elim (Bool-cases (r.transition == codes "closed")) [
  | inr e ↦ rw e refl
  | inl e ↦
      let none_waits = no_predecessor r rows (λ o m. elim (Bool-cases (is_predecessor r o)) [
        | inr c ↦ c
        | inl c ↦
            let (k, s) = (is_predecessor_iff r o).0 c in
            let settled = h ((text_eq.same_iff r.transition (codes "closed")).0 e) o m k in
            absurd (cc (s, open_status o.status settled))
      ]) in
      rw (e, none_waits) refl
]

-- The condition of the query.
pub is_claimable_iff :
    (now : Time) (rows : List Row) (r : Row)
    → (is_claimable now rows r ≡ true) ↔ IsClaimable now rows r
unfolding is_claimable
is_claimable_iff now rows r = (
  λ h. ((is_due_iff now r).0 (ground arith), ready-NeedNotWait rows r (ground arith)),
  λ (d, w). let a = (is_due_iff now r).1 d in let b = NeedNotWait-ready rows r w in rw (a, b) refl,
)
