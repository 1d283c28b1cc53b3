-- ===== src/Outbox/Take.antt =====
-- alert_notifications.go: which notification is taken next, and what is taken together with it.
use ithiltir.Shared.{
  ℕ, Bool, true, false, not, ◌&&◌, ◌||◌, Option, none, some, List, [], ◌∷◌, ◌++◌, map,
}
use ithiltir.Shared.Tests.{◌==◌, ltb, leb, if◌then◌else◌, nat_eq}
use ithiltir.Shared.Int.{ℤ, int_eq, ltb_ℤ}
use ithiltir.Shared.Lists.{contains, take}
use ithiltir.Shared.Text.{Text, codes, text_eq}
use ithiltir.Shared.Time.{Time}
use ithiltir.Alert.Retry.{pending, sending, retry, blocked, paused}
use ithiltir.Outbox.{Row, Payload, Store, update_where, exists, filter, status_eq}

-- event_id = event_id, which is not true of a missing one.
abbrev pub same_event : Option ℤ → Option ℤ → Bool
same_event (some a) (some b) = a == b
same_event _ _ = false

-- A notification of the opening that the row's closing has to wait for.
abbrev pub is_predecessor : Row → Row → Bool
is_predecessor r o =
    same_event o.event_id r.event_id
    && o.channel_id == r.channel_id
    && o.transition == codes "opened"
    && contains o.status (pending ∷ sending ∷ retry ∷ blocked ∷ paused ∷ [])

unfoldable pub predecessor_ready : List Row → Row → Bool
predecessor_ready rows r =
    not (r.transition == codes "closed") || not (exists (is_predecessor r) rows)

abbrev pub is_due : Time → Row → Bool
is_due now r =
    (contains r.status (pending ∷ retry ∷ blocked ∷ []) && leb r.next_attempt_at now)
    || r.status == sending

unfoldable pub is_claimable : Time → List Row → Row → Bool
unfolding predecessor_ready
is_claimable now rows r = is_due now r && predecessor_ready rows r

abbrev pub sending_first : Row → ℕ
sending_first r = if r.status == sending then 0 else 1

-- The order of the query: what is in flight first, then by time, then by number.
unfoldable pub precedes : Row → Row → Bool
precedes r t =
    ltb (sending_first r) (sending_first t)
    || (sending_first r == sending_first t
        && (ltb r.next_attempt_at t.next_attempt_at
            || (r.next_attempt_at == t.next_attempt_at && ltb_ℤ r.id t.id)))

abbrev pub better : Row → Option Row → Row
better r none = r
better r (some t) = if precedes t r then t else r

-- ORDER BY ... LIMIT 1
unfoldable pub first_of : List Row → Option Row
first_of [] = none
first_of (r ∷ rows) = some (better r (first_of rows))

abbrev pub has_id : ℤ → Row → Bool
has_id id r = r.id == id

abbrev pub was_probe : Row → Bool
was_probe r = r.is_probe || r.status == blocked

abbrev pub as_taken : Time → Bool → Row → Row
as_taken now probe r = record r { status = sending; is_probe = probe; next_attempt_at = now }

-- The item that the method gives has its old time.
abbrev pub item_of : Row → Row
item_of r = record r { status = sending; is_probe = was_probe r }

unfoldable pub taken : Time → Store → Option Row → Store × Option Row
taken now s none = (s, none)
taken now s (some r) = (
  record s { rows = update_where (has_id r.id) (as_taken now (was_probe r)) s.rows },
  some (item_of r),
)

unfoldable pub take_next_notification : Time → Store → Store × Option Row
unfolding taken is_claimable first_of
take_next_notification now s = taken now s (first_of (filter (is_claimable now s.rows) s.rows))

abbrev pub is_some {ℓ} : {A : Type ℓ} → Option A → Bool
is_some none = false
is_some (some a) = true

-- Whether a row is a message for people that can be sent together with others.
abbrev pub is_batchable : Row → Bool
is_batchable r =
    not r.is_probe
    && is_some r.event_id
    && (r.transition == codes "opened" || r.transition == codes "closed")
    && (r.channel_type == codes "telegram" || r.channel_type == codes "email")

-- What can join the batch of `first`.
abbrev pub joins : Time → List Row → Row → Row → Bool
joins now rows first r =
    (r.channel_id == first.channel_id && r.channel_type == first.channel_type)
    && (r.transition == first.transition && not (r.id == first.id) && is_some r.event_id)
    && (r.attempt_count == first.attempt_count && not r.is_probe)
    && (contains r.status (pending ∷ retry ∷ sending ∷ []) && leb r.next_attempt_at now)
    && predecessor_ready rows r

-- ORDER BY id
abbrev pub put_by_id : Row → List Row → List Row
put_by_id r [] = r ∷ []
put_by_id r (t ∷ rows) =
    let rest = put_by_id r rows in if ltb_ℤ r.id t.id then r ∷ t ∷ rows else t ∷ rest

abbrev pub order_by_id : List Row → List Row
order_by_id [] = []
order_by_id (r ∷ rows) = put_by_id r (order_by_id rows)

unfoldable pub candidates : Time → List Row → Row → List Row
candidates now rows first = take 99 (order_by_id (filter (joins now rows first) rows))

abbrev pub ids_of : List Row → List ℤ
ids_of rows = map (λ (r : Row). r.id) rows

abbrev pub claim : Time → List Row → Store → Store
claim now batch s = record s {
  rows =
      update_where (λ (r : Row). contains r.id (ids_of batch))
        (λ (r : Row). record r { status = sending; next_attempt_at = now }) s.rows;
}

-- `units` is the length in UTF-16 of the text that notify.JoinMessages gives for Telegram.
module _ (units : List Payload → ℕ) where
  -- One round of the loop: `rest` is what the later rounds take.
  unfoldable pub join_row :
      Text → List Payload → Row → Option Payload → (List Payload → List Row) → List Row
  join_row kind messages r none rest = []
  join_row kind messages r (some payload) rest =
      if kind == codes "telegram" && ltb 4096 (units (messages ++ payload ∷ []))
      then []
      else record r { status = sending } ∷ rest (messages ++ payload ∷ [])

  -- The candidates that the loop takes, in its order.
  unfoldable pub joined : Text → List Payload → List Row → List Row
  unfolding join_row
  joined kind messages [] = []
  joined kind messages (r ∷ rows) =
      join_row kind messages r r.payload (λ more. joined kind more rows)

  unfoldable pub batch_of : Row → Option Payload → Time → List Row → List Row
  unfolding candidates
  batch_of first none now rows = []
  batch_of first (some payload) now rows =
      joined first.channel_type (payload ∷ []) (candidates now rows first)

  unfoldable pub batch_with : Time → Store × Option Row → Store × List Row
  unfolding batch_of
  batch_with now (s, none) = (s, [])
  batch_with now (s, some first) =
      let batch = batch_of first first.payload now s.rows in
      if is_batchable first then (claim now batch s, first ∷ batch) else (s, first ∷ [])

  unfoldable pub take_notification_batch : Time → Store → Store × List Row
  unfolding take_next_notification batch_with
  take_notification_batch now s = batch_with now (take_next_notification now s)
