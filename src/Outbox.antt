-- ===== src/Outbox.antt =====
-- internal/store/alert: the outbox of notifications and the channels that it delivers to, as the
-- tables that the store writes. A statement of SQL is a function on the rows. A method that runs as
-- one transaction gives the tables after its commit or an error, which rolls everything back.
pub mod Enqueue
pub mod Take
pub mod Sending
pub mod Failures
pub mod Deliver
pub mod Settings
pub mod Channels
pub mod Rows
pub mod Lifecycle
pub mod Settling
pub mod Failing
pub mod Completing
pub mod Taking
pub mod Joining
pub mod Batching
pub mod Waiting
pub mod Entering
pub mod Calls
pub mod Histories
pub mod Built
pub mod Keys
pub mod Errors
pub mod Ready
pub mod Ordering
pub mod Sequence
pub mod Timely
pub mod Circuit
mod Tests
use ithiltir.Shared.{
  ℕ, ◌+◌, ◌^◌, ◌≡◌, refl, ap, ◌∙◌, sym, Bool, true, false, ◌&&◌, ◌||◌, Option, none, some, List, [],
  ◌∷◌, map, ◌↔◌,
}
use ithiltir.Shared.Tests.{Eq, ◌==◌, ltb, if◌then◌else◌, nat_eq, nat_eqb_iff}
use ithiltir.Shared.Lists.{contains}
use ithiltir.Shared.Int.{ℤ, int_eq}
use ithiltir.Shared.Text.{Text, trim_space, text_eq}
use ithiltir.Shared.Time.{Time}
use ithiltir.Alert.Retry.{OutboxStatus, pending, sending, sent, retry, blocked, paused, discarded}

unfoldable pub rank : OutboxStatus → ℕ
rank pending = 0
rank sending = 1
rank sent = 2
rank retry = 3
rank blocked = 4
rank paused = 5
rank discarded = 6

of_rank : ℕ → OutboxStatus
of_rank n =
    if n == 0
    then pending
    else if n == 1
    then sending
    else if n == 2
    then sent
    else if n == 3
    then retry
    else if n == 4
    then blocked
    else if n == 5
    then paused
    else discarded

of_rank-rank : (s : OutboxStatus) → of_rank (rank s) ≡ s
unfolding of_rank rank
of_rank-rank pending = refl
of_rank-rank sending = refl
of_rank-rank sent = refl
of_rank-rank retry = refl
of_rank-rank blocked = refl
of_rank-rank paused = refl
of_rank-rank discarded = refl

-- The test of two statuses.
unfoldable pub status_eqb : OutboxStatus → OutboxStatus → Bool
unfolding rank
status_eqb s t = rank s == rank t

pub status_eqb_iff : (s t : OutboxStatus) → (status_eqb s t ≡ true) ↔ (s ≡ t)
unfolding status_eqb
status_eqb_iff s t = (
  λ h. sym (of_rank-rank s) ∙ ap of_rank ((nat_eqb_iff (rank s) (rank t)).0 h) ∙ of_rank-rank t,
  λ p. (nat_eqb_iff (rank s) (rank t)).1 (ap rank p),
)

instance abbrev pub status_eq : Eq OutboxStatus
status_eq = record { same = status_eqb; same_iff = status_eqb_iff }

-- NotificationPayload
pub record Payload : Type 0 where
  pub title : Text
  pub body : Text
  pub metadata : List (Text × Text)

-- model.AlertNotificationOutbox: `payload` is what the stored JSON decodes to.
pub record Row : Type 0 where
  pub id : ℤ
  pub event_id : Option ℤ
  pub transition : Text
  pub channel_id : ℤ
  pub channel_type : Text
  pub payload : Option Payload
  pub dedupe_key : Text
  pub status : OutboxStatus
  pub attempt_count : ℕ
  pub probe_count : ℕ
  pub is_probe : Bool
  pub next_attempt_at : Time
  pub failure_code : Option Text
  pub last_error : Option Text
  pub sent_at : Option Time

-- model.NotifyChannel: `config` is the sealed one that the table holds.
pub record Channel : Type 0 where
  pub id : ℤ
  pub name : Text
  pub kind : Text
  pub config : Text
  pub enabled : Bool
  pub is_deleted : Bool
  pub revision : ℕ
  pub last_success_at : Option Time
  pub last_failure_at : Option Time
  pub consecutive_failures : ℕ
  pub last_error_code : Option Text
  pub last_error : Option Text
  pub config_updated_at : Time

-- What the column channel_ids of the settings decodes to.
pub data ChannelIds : Type 0 where
  unreadable null : ChannelIds
  items : List ℤ → ChannelIds

pub record AlertSetting : Type 0 where
  pub enabled : Bool
  pub channel_ids : ChannelIds

-- `last_id` is the sequence of the outbox, `last_channel` that of the channels.
pub record Store : Type 0 where
  pub rows : List Row
  pub channels : List Channel
  pub settings : Option AlertSetting
  pub last_id : ℕ
  pub last_channel : ℕ

-- The errors of the store: what the source names, what it reports in words, and what the database
-- reports (a record that is not found, a number out of its column's range, a broken reference or type).
pub data StoreError : Type 0 where
  state_changed version_stale rule_stale unknown_channel : StoreError
  missing_fields key_too_long invalid_revision seal_failed bad_settings nil_item : StoreError
  record_not_found out_of_range constraint_violated : StoreError

pub data Result {ℓ} (A : Type ℓ) : Type ℓ where
  ok : A → Result A
  failed : StoreError → Result A

infixl 5 ◌>>=◌ ◌>>◌
abbrev pub ◌>>=◌ {ℓ κ} : {A : Type ℓ} {B : Type κ} → Result A → (A → Result B) → Result B
ok a >>= f = f a
failed e >>= f = failed e

abbrev pub ◌>>◌ {ℓ} : {B : Type ℓ} → Result (Unit {0}) → Result B → Result B
m >> k = m >>= λ _. k

-- What holds of a result that is no error.
abbrev pub OnOk {ℓ} : {A : Type ℓ} → (A → Type 0) → Result A → Type 0
OnOk P (ok a) = P a
OnOk P (failed e) = Unit

pub OnOk-bind {ℓ κ} :
    {A : Type ℓ} {B : Type κ} (P : B → Type 0) (m : Result A) (f : A → Result B)
    → ((a : A) → m ≡ ok a → OnOk P (f a))
    → OnOk P (m >>= f)
OnOk-bind P (ok a) f h = h a refl
OnOk-bind P (failed e) f h = tt

-- An early return with an error.
abbrev pub reject_if : Bool → StoreError → Result (Unit {0})
reject_if true e = failed e
reject_if false e = ok tt

-- What a transaction leaves: its result, or the tables as they were. The database does not take back the
-- numbers of a sequence; here they go back too, which only changes the numbers that come next.
abbrev pub commit : Store → Result Store → Store
commit s (ok t) = t
commit s (failed e) = s

module _ {ℓ} {A : Type ℓ} where
  -- UPDATE ... SET f WHERE p
  abbrev pub when : (A → Bool) → (A → A) → A → A
  when p f a = if p a then f a else a

  abbrev pub update_where : (A → Bool) → (A → A) → List A → List A
  update_where p f xs = map (when p f) xs

  -- The first that a condition selects, and whether there is one.
  abbrev pub find : (A → Bool) → List A → Option A
  find p [] = none
  find p (a ∷ xs) = let rest = find p xs in if p a then some a else rest

  abbrev pub exists : (A → Bool) → List A → Bool
  exists p [] = false
  exists p (a ∷ xs) = p a || exists p xs

  abbrev pub filter : (A → Bool) → List A → List A
  filter p [] = []
  filter p (a ∷ xs) = let rest = filter p xs in if p a then a ∷ rest else rest

abbrev pub or_not_found {ℓ} : {A : Type ℓ} → Option A → Result A
or_not_found none = failed record_not_found
or_not_found (some a) = ok a

-- Whether a number is in the range of an INTEGER column.
abbrev pub fits : ℕ → Bool
fits n = ltb n (2 ^ 31)

unfoldable pub empty_to_nil : Text → Option Text
empty_to_nil v = let t = trim_space v in if t == [] then none else some t

-- `status IN statuses`, for the rows of a channel.
abbrev pub is_queued : ℤ → List OutboxStatus → Row → Bool
is_queued id statuses r = r.channel_id == id && contains r.status statuses
