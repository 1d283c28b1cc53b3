-- ===== src/Outbox/Batching.antt =====
-- Taking a batch respects the life of every row.
use mathlib.Core.Path.{subst}
use ithiltir.Shared.{
  ℕ, ◌≡◌, refl, sym, ◌⊎◌, inl, inr, Bool, true, false, Option, none, some, List, arith,
}
use ithiltir.Shared.Tests.{if◌then◌else◌, Bool-cases, nat_eq}
use ithiltir.Shared.Int.{ℤ, int_eq}
use ithiltir.Shared.Text.{text_eq}
use ithiltir.Shared.Time.{Time}
use ithiltir.Alert.Retry.{sending}
use ithiltir.Outbox.{Row, Payload, Store, when, update_where, filter, status_eq}
use ithiltir.Outbox.Take.{
  is_due, is_claimable, first_of, has_id, was_probe, as_taken, item_of, taken,
  take_next_notification, is_batchable, joins, batch_of, claim, batch_with, take_notification_batch,
}
use ithiltir.Outbox.Rows.{
  Steps, Each-refl, Each-map, In, AreApart, subjects, Each-subjects, IsTable,
}
use ithiltir.Outbox.Settling.{Keeps}
use ithiltir.Outbox.Taking.{taken_row-Steps, taken-Keeps, claimed_row}
use ithiltir.Outbox.Joining.{
  Each-map-map-In, In-map, batch_ids, joins-Steps, joins-from, still_sending-Steps,
}

module _ (units : List Payload → ℕ) (now : Time) where
  claimed-Steps :
      (s : Store) (first : Row) (p : Row → Bool) (u t : Row)
      → Steps u t
      → (t.status ≡ sending) ⊎ (t ≡ u)
      → (p t ≡ true → joins now s.rows first t ≡ true)
      → Steps u (when p (λ (r : Row). record r { status = sending; next_attempt_at = now }) t)
  claimed-Steps s first p u t h k j = elim (Bool-cases (p t)) [
    | inl e ↦ rw e (go k (j e))
    | inr e ↦ rw e h
  ]
    where
      go :
          (t.status ≡ sending) ⊎ (t ≡ u)
          → joins now s.rows first t ≡ true
          → Steps u (record t { status = sending; next_attempt_at = now })
      go (inl e) q = still_sending-Steps now u t h e
      go (inr e) q =
          subst (λ x. Steps x (record t { status = sending; next_attempt_at = now })) e
            (joins-Steps now s.rows first t q)

  taken_or_same :
      (id : ℤ) (probe : Bool) (u : Row)
      → ((when (has_id id) (as_taken now probe) u).status ≡ sending)
        ⊎ (when (has_id id) (as_taken now probe) u ≡ u)
  taken_or_same id probe u = elim (Bool-cases (has_id id u)) [
    | inl e ↦ rw e (inl refl)
    | inr e ↦ rw e (inr refl)
  ]

  claim-Keeps :
      (s : Store) (r : Row)
      → IsTable s
      → In r s.rows
      → is_due now r ≡ true
      → let next = (taken now s (some r)).0 in
        Keeps s (claim now (batch_of units (item_of r) r.payload now next.rows) next)
  unfolding taken
  claim-Keeps s r v m d = record {
    each = Each-map-map-In _ _ s.rows (λ u n.
        claimed-Steps next (item_of r) (batch_ids units now s.rows next.rows (item_of r)) u _
          (taken_row-Steps now s.rows r u v.apart m d n) (taken_or_same r.id (was_probe r) u)
          (joins-from units now s.rows next.rows (item_of r) _ apart (In-map _ u s.rows n)));
    last = refl;
  }
    where
      next : Store
      next = record s { rows = update_where (has_id r.id) (as_taken now (was_probe r)) s.rows }

      apart : AreApart (subjects next.rows)
      apart =
          subst AreApart
            (sym (
              Each-subjects s.rows next.rows
                (Each-map _ s.rows (λ u n. taken_row-Steps now s.rows r u v.apart m d n))))
            v.apart

  Keeps-first :
      (b : Bool) (s : Store) (p q : Store × List Row)
      → Keeps s p.0
      → Keeps s q.0
      → Keeps s (if b then p else q).0
  Keeps-first true s p q h k = h
  Keeps-first false s p q h k = k

  batched-Keeps :
      (s : Store) (o : Option Row)
      → IsTable s
      → first_of (filter (is_claimable now s.rows) s.rows) ≡ o
      → Keeps s (batch_with units now (taken now s o)).0
  unfolding batch_with taken is_claimable
  batched-Keeps s none v h = record { each = Each-refl s.rows; last = refl }
  batched-Keeps s (some r) v h =
      let (m, c) = claimed_row now s.rows r h in
      Keeps-first (is_batchable (item_of r)) s _ _ (claim-Keeps s r v m (ground arith))
        (taken-Keeps now s (some r) v h)

  pub take_batch-Keeps : (s : Store) → IsTable s → Keeps s (take_notification_batch units now s).0
  unfolding take_notification_batch take_next_notification
  take_batch-Keeps s v = batched-Keeps s (first_of (filter (is_claimable now s.rows) s.rows)) v refl
