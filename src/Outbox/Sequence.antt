-- ===== src/Outbox/Sequence.antt =====
-- The order of the two notifications of an event, over all batches (TakeNotificationBatch,
-- notificationPredecessorReady).
use mathlib.Core.Path.{subst}
use ithiltir.Shared.{
  ℕ, ◌≡◌, refl, ap, sym, ◌∙◌, ◌⊎◌, inl, inr, Bool, true, false, ◌&&◌, Option, none, some, List, [],
  ◌∷◌, ◌++◌, map, arith,
}
use ithiltir.Shared.Tests.{◌==◌, Bool-cases, if◌then◌else◌, ltb, nat_eq}
use ithiltir.Shared.Lists.{All}
use ithiltir.Shared.Int.{ℤ, int_eq, int_eqb_iff}
use ithiltir.Shared.Text.{Text, codes, text_eq}
use ithiltir.Shared.Time.{Time}
use ithiltir.Alert.Retry.{sending, sent, discarded}
use ithiltir.Outbox.{Row, Payload, Store, status_eq, status_eqb, rank}
use ithiltir.Outbox.Take.{
  has_id, take_next_notification, take_notification_batch, batch_with, batch_of, join_row, joined,
  candidates, joins, claim, is_batchable, predecessor_ready,
}
use ithiltir.Outbox.Rows.{In, IsTable, AreApart, subjects, same_row}
use ithiltir.Outbox.Ready.{IsOpeningOf, ready-NeedNotWait, settled_final}
use ithiltir.Outbox.Ordering.{Takes, TakesFirst, take_next-Takes}
use ithiltir.Outbox.Joining.{candidates-All, In-map}
use ithiltir.Outbox.Calls.{Call, takes_batch, run}
use ithiltir.Outbox.Histories.{row_of, run-stays}

-- A row of the table is found under its number.
find_stands :
    (id : ℤ) (rows : List Row) (o : Row)
    → In o rows
    → o.id ≡ id
    → (t : Row) × (row_of id rows ≡ some t) × In t rows × (t.id ≡ id)
find_stands id [] o m e = absurd m
find_stands id (r ∷ rows) o (inl n) e =
    let q : has_id id r ≡ true = (int_eqb_iff r.id id).1 (ap (λ (x : Row). x.id) n ∙ e) in
    (r, rw q refl, inl refl, (int_eqb_iff r.id id).0 q)
find_stands id (r ∷ rows) o (inr m) e = elim (Bool-cases (has_id id r)) [
  | inl q ↦ (r, rw q refl, inl refl, (int_eqb_iff r.id id).0 q)
  | inr q ↦ let (t, f, n, p) = find_stands id rows o m e in (t, rw q f, inr n, p)
]

pub row_of-In :
    (rows : List Row) (o : Row) → AreApart (subjects rows) → In o rows → row_of o.id rows ≡ some o
row_of-In rows o v m =
    let (t, e, n, q) = find_stands o.id rows o m refl in e ∙ ap some (same_row rows t o v n m q)

abbrev IsSettled : Row → Type 0
IsSettled o = (o.status ≡ sent) ⊎ (o.status ≡ discarded)

not_sending : ¬ ((sending ≡ sent) ⊎ (sending ≡ discarded))
unfolding status_eqb rank
not_sending h = let q : false ≡ true = settled_final sending h in cc

taken-IsSettled :
    (now : Time) (s : Store) (item o : Row)
    → TakesFirst now s item
    → item.transition ≡ codes "closed"
    → In o s.rows
    → IsOpeningOf item o
    → IsSettled o
taken-IsSettled now s item o h e m k =
    h.claimable.1 (subst (λ (x : Row). x.transition ≡ codes "closed") h.given e) o m
      (subst (λ x. IsOpeningOf x o) h.given k)

-- What the loop joins is made of the candidates.
abbrev Joined : (Row → Type 0) → Row → Type 0
Joined P t = (r : Row) × P r × (t ≡ record r { status = sending })

module _ (units : List Payload → ℕ) (P : Row → Type 0) (t : Row) where
  join_row-In :
      (kind : Text) (messages : List Payload) (r : Row) (o : Option Payload)
      (rest : List Payload → List Row)
      → P r
      → ((more : List Payload) → In t (rest more) → Joined P t)
      → In t (join_row units kind messages r o rest)
      → Joined P t
  unfolding join_row
  join_row-In kind messages r none rest h k m = absurd m
  join_row-In kind messages r (some payload) rest h k m =
      go (kind == codes "telegram" && ltb 4096 (units (messages ++ payload ∷ []))) m
    where
      go :
          (b : Bool)
          → In t (if b then [] else record r { status = sending } ∷ rest (messages ++ payload ∷ []))
          → Joined P t
      go true n = absurd n
      go false (inl e) = (r, h, sym e)
      go false (inr n) = k (messages ++ payload ∷ []) n

  joined-In :
      (kind : Text) (messages : List Payload) (rows : List Row)
      → All P rows
      → In t (joined units kind messages rows)
      → Joined P t
  unfolding joined
  joined-In kind messages [] h m = absurd m
  joined-In kind messages (r ∷ rows) h m =
      join_row-In kind messages r r.payload _ h.0 (λ more. joined-In kind more rows h.1) m

  batch_of-In :
      (first : Row) (o : Option Payload) (now : Time) (rows : List Row)
      → All P (candidates now rows first)
      → In t (batch_of units first o now rows)
      → Joined P t
  unfolding batch_of
  batch_of-In first none now rows h m = absurd m
  batch_of-In first (some payload) now rows h m =
      joined-In first.channel_type (payload ∷ []) (candidates now rows first) h m

-- Marking a row as being sent settles none.
unmarked-IsSettled :
    (now : Time) (probe : Bool) (row r o : Row) (rows next : List Row)
    → next
      ≡ map
          (λ (t : Row).
            if t.id == row.id
            then record t { status = sending; is_probe = probe; next_attempt_at = now }
            else t)
          rows
    → predecessor_ready next r ≡ true
    → r.transition ≡ codes "closed"
    → In o rows
    → IsOpeningOf r o
    → IsSettled o
unmarked-IsSettled now probe row r o rows next same ready e m k = go (o.id == row.id) (
    ready-NeedNotWait next r ready e (marked o)
      (subst (In (marked o)) (sym same) (In-map marked o rows m)) (still (o.id == row.id)))
  where
    mark_as : Bool → Row → Row
    mark_as b t =
        if b then record t { status = sending; is_probe = probe; next_attempt_at = now } else t

    marked : Row → Row
    marked t =
        if t.id == row.id
        then record t { status = sending; is_probe = probe; next_attempt_at = now }
        else t

    still : (b : Bool) → IsOpeningOf r (mark_as b o)
    still true = k
    still false = k

    go : (b : Bool) → IsSettled (mark_as b o) → IsSettled o
    go true (inl q) = absurd (not_sending (inl q))
    go true (inr q) = absurd (not_sending (inr q))
    go false q = q

module _ (units : List Payload → ℕ) where
  batch_item-IsSettled :
      (now : Time) (s : Store) (p : Option Row) (item o : Row)
      → (take_next_notification now s).1 ≡ p
      → Takes now s p
      → In item (batch_with units now ((take_next_notification now s).0, p)).1
      → item.transition ≡ codes "closed"
      → In o s.rows
      → IsOpeningOf item o
      → IsSettled o
  unfolding batch_with
  batch_item-IsSettled now s none item o q h m e n k = absurd m
  batch_item-IsSettled now s (some first) item o q h m e n k = go (is_batchable first) m
    where
      next : List Row
      next = (take_next_notification now s).0.rows

      itself : first ≡ item → IsSettled o
      itself x = taken-IsSettled now s item o (subst (TakesFirst now s) x h) e n k

      other : In item (batch_of units first first.payload now next) → IsSettled o
      other x =
          let (r, (w, j), y) =
            batch_of-In units (λ r. In r next × (joins now next first r ≡ true)) item first
              first.payload now next (candidates-All now next first) x in
          unmarked-IsSettled now h.probe h.row r o s.rows next (ap (λ (u : Store). u.rows) h.left)
            (ground arith) (subst (λ (z : Row). z.transition ≡ codes "closed") y e) n
            (subst (λ z. IsOpeningOf z o) y k)

      given : Bool → Store × List Row
      given b =
          if b
          then (
            claim now (batch_of units first first.payload now next)
                (take_next_notification now s).0,
            first ∷ batch_of units first first.payload now next,
          )
          else ((take_next_notification now s).0, first ∷ [])

      go : (b : Bool) → In item (given b).1 → IsSettled o
      go true (inl x) = itself x
      go true (inr x) = other x
      go false (inl x) = itself x
      go false (inr x) = absurd x

module _ (units : List Payload → ℕ) (seal : ℤ → Text → Text → Option Text) where
  -- In a table that keeps its invariant: once TakeNotificationBatch has given the closing of an
  -- event for a channel, as its first notification or as one that joins, every opening of that
  -- event for that channel that stands in the table has been sent or discarded, and stays as it is
  -- over all further calls.
  pub closing_follows :
      (s : Store) (now : Time) (item o : Row) (calls : List Call)
      → IsTable s
      → In item (take_notification_batch units now s).1
      → item.transition ≡ codes "closed"
      → In o s.rows
      → IsOpeningOf item o
      → ((o.status ≡ sent) ⊎ (o.status ≡ discarded))
        × (row_of o.id (run units seal s (takes_batch now ∷ calls)).rows ≡ some o)
  unfolding take_notification_batch
  closing_follows s now item o calls v h e m k =
      let settled =
        batch_item-IsSettled units now s (take_next_notification now s).1 item o refl
          (take_next-Takes now s) h e m k in
      (
        settled,
        run-stays units seal s (takes_batch now ∷ calls) o.id o v (row_of-In s.rows o v.apart m)
            (settled_final o.status settled),
      )
