-- ===== src/Outbox/Entering.antt =====
-- What enters the outbox is new: it has a number and a dedupe key that no row has, and every row that
-- stood there stays as it is.
use mathlib.Core.Path.{subst}
use mathlib.Core.List.{append_assoc, append-nil}
use ithiltir.Shared.{
  Bool, ℕ, suc, ◌≡◌, ◌≢◌, refl, ap, sym, ◌∙◌, inl, inr, false, ◌||◌, Option, none, some, List, [],
  ◌∷◌, ◌++◌, map, arith,
}
use ithiltir.Shared.Tests.{◌==◌, Bool-cases}
use ithiltir.Shared.Lists.{All, All-append}
use ithiltir.Shared.Int.{ℤ, pos, pos_part}
use ithiltir.Shared.Text.{Text, text_eq, trim_space}
use ithiltir.Shared.Time.{Time}
use ithiltir.Outbox.{
  Row, Store, reject_if, OnOk, OnOk-bind, status_eq, status_eqb, rank, missing_fields,
  constraint_violated,
}
use ithiltir.Outbox.Enqueue.{
  NotificationParams, AlertNotificationParams, ChannelMessage, blocked_notification_schedule,
  new_row, is_incomplete, build_rows, has_key, last_number, create_or_ignore, violates,
  insert_notifications, insert_alert_notifications, enqueue_notifications, build_items,
  alert_params,
}
use ithiltir.Outbox.Rows.{
  IsFresh, Subject, subject, subjects, Differs, AreApart, IsNumbered, IsTable,
}

-- What makes a row that is built for the table.
abbrev IsMade : (ℕ → Row) → Type 0
IsMade make = (n : ℕ) → IsFresh (make n) × ((make n).id ≡ pos n)

new_row-IsFresh :
    (now : Time) (o : Option Time) (param : NotificationParams) (n : ℕ)
    → IsFresh (new_row now o param n)
unfolding status_eqb rank
new_row-IsFresh now none param n =
    (inl refl, record { probes = λ h. cc; counted = λ h. absurd (h refl); dated = refl })
new_row-IsFresh now (some t) param n =
    (inr refl, record { probes = λ h. cc; counted = λ h. absurd (h refl); dated = refl })

build_rows-IsMade :
    (rows : List Row) (now : Time) (params : List NotificationParams)
    → OnOk (All IsMade) (build_rows rows now params)
unfolding build_rows
build_rows-IsMade rows now [] = tt
build_rows-IsMade rows now (param ∷ params) =
    let rest = build_rows-IsMade rows now params in
    OnOk-bind (All IsMade) (reject_if (is_incomplete param) missing_fields) _ (λ u h.
      OnOk-bind (All IsMade) (build_rows rows now params) _ (λ built k. (
        λ n. (
          new_row-IsFresh now (blocked_notification_schedule rows param.channel_id) param n,
          refl,
        ),
        subst (OnOk (All IsMade)) k rest,
      )))

-- A key that no row has.
has_no_key :
    (key : Text) (rows : List Row)
    → has_key key rows ≡ false
    → All (λ (a : Subject). a.dedupe_key ≢ key) (subjects rows)
has_no_key key [] h = tt
has_no_key key (r ∷ rows) h = (
  (λ e. let q = (text_eq.same_iff r.dedupe_key key).1 e in cc),
  has_no_key key rows (ground arith),
)

numbered_apart : (last : ℕ) (a : Subject) → IsNumbered last a → a.id ≢ pos (suc last)
numbered_apart last a (n, e, h) p = let q : n ≡ suc last = ap pos_part (sym e ∙ p) in omega arith

append-AreApart :
    (xs : List Subject) (a : Subject)
    → All (λ x. Differs x a) xs
    → AreApart xs
    → AreApart (xs ++ a ∷ [])
append-AreApart [] a h v = (tt, tt)
append-AreApart (x ∷ xs) a h v =
    (All-append (Differs x) xs (a ∷ []) v.0 (h.0, tt), append-AreApart xs a h.1 v.1)

-- The tables before and after an insertion, and the last number of the sequence.
pub record Grows (rows next : List Row) (end : ℕ) : Type 0 where
  pub new : List Row
  pub grown : next ≡ rows ++ new
  pub fresh : All IsFresh new
  pub apart : AreApart (subjects next)
  pub numbered : All (IsNumbered end) (subjects next)

subjects-append : (xs ys : List Row) → subjects (xs ++ ys) ≡ subjects xs ++ subjects ys
subjects-append [] ys = refl
subjects-append (x ∷ xs) ys = ap (λ s. subject x ∷ s) (subjects-append xs ys)

IsNumbered-suc :
    (last : ℕ) (xs : List Subject) → All (IsNumbered last) xs → All (IsNumbered (suc last)) xs
IsNumbered-suc last [] h = tt
IsNumbered-suc last (x ∷ xs) ((n, e, k), h) = ((n, e, omega arith), IsNumbered-suc last xs h)

both_differ :
    (last : ℕ) (a : Subject) (xs : List Subject)
    → a.id ≡ pos (suc last)
    → All (IsNumbered last) xs
    → All (λ (x : Subject). x.dedupe_key ≢ a.dedupe_key) xs
    → All (λ x. Differs x a) xs
both_differ last a [] e n k = tt
both_differ last a (x ∷ xs) e n k = (
  ((λ p. numbered_apart last x n.0 (sym p ∙ e)), (λ p. k.0 (sym p))),
  both_differ last a xs e n.1 k.1,
)

append-AreApart_rows :
    (last : ℕ) (r : Row) (rows : List Row)
    → r.id ≡ pos (suc last)
    → has_key r.dedupe_key rows ≡ false
    → AreApart (subjects rows)
    → All (IsNumbered last) (subjects rows)
    → AreApart (subjects (rows ++ r ∷ []))
append-AreApart_rows last r rows e k v n = subst AreApart (sym (subjects-append rows (r ∷ []))) (
    append-AreApart (subjects rows) (subject r)
      (both_differ last (subject r) (subjects rows) e n (has_no_key r.dedupe_key rows k)) v)

append-IsNumbered :
    (last : ℕ) (r : Row) (rows : List Row)
    → r.id ≡ pos (suc last)
    → All (IsNumbered last) (subjects rows)
    → All (IsNumbered (suc last)) (subjects (rows ++ r ∷ []))
append-IsNumbered last r rows e n =
    subst (All (IsNumbered (suc last))) (sym (subjects-append rows (r ∷ []))) (
      All-append (IsNumbered (suc last)) (subjects rows) (subject r ∷ [])
        (IsNumbered-suc last (subjects rows) n) ((suc last, e, omega arith), tt))

Grows-after :
    (r : Row) (rows next : List Row) (end : ℕ)
    → IsFresh r
    → Grows (rows ++ r ∷ []) next end
    → Grows rows next end
Grows-after r rows next end f g = record {
  new = r ∷ g.new;
  grown = g.grown ∙ append_assoc rows (r ∷ []) g.new;
  fresh = (f, g.fresh);
  apart = g.apart;
  numbered = g.numbered;
}

created-Grows :
    (last : ℕ) (built : List (ℕ → Row)) (rows : List Row)
    → All IsMade built
    → AreApart (subjects rows)
    → All (IsNumbered last) (subjects rows)
    → Grows rows (create_or_ignore last built rows) (last_number last built)
created-Grows last [] rows m v n = record {
  new = [];
  grown = sym (append-nil rows);
  fresh = tt;
  apart = v;
  numbered = n;
}
created-Grows last (make ∷ built) rows m v n =
    let (fresh, numbered) = m.0 (suc last) in
    elim (Bool-cases (has_key (make (suc last)).dedupe_key rows)) [
      | inl e ↦
          rw e (created-Grows (suc last) built rows m.1 v (IsNumbered-suc last (subjects rows) n))
      | inr e ↦ rw e (
          Grows-after (make (suc last)) rows _ _ fresh (
            created-Grows (suc last) built (rows ++ make (suc last) ∷ []) m.1
              (append-AreApart_rows last (make (suc last)) rows numbered e v n)
              (append-IsNumbered last (make (suc last)) rows numbered n)))
    ]

pub insert-Grows :
    (is_event : ℤ → Bool) (params : List NotificationParams) (now : Time) (s : Store)
    → IsTable s
    → OnOk
        (λ (t : Store). Grows s.rows t.rows t.last_id)
        (insert_notifications is_event params now s)
unfolding insert_notifications
insert-Grows is_event params now s v =
    let Grown = λ (t : Store). Grows s.rows t.rows t.last_id in
    OnOk-bind Grown (build_rows s.rows now params) _ (λ built h.
      OnOk-bind Grown (reject_if (violates is_event s built) constraint_violated) _ (λ u k.
        created-Grows s.last_id built s.rows
          (subst (OnOk (All IsMade)) h (build_rows-IsMade s.rows now params)) v.apart v.numbered))

pub insert_alert-Grows :
    (is_event : ℤ → Bool) (event_id : ℤ) (params : List AlertNotificationParams) (now : Time)
    (s : Store)
    → IsTable s
    → OnOk
        (λ (t : Store). Grows s.rows t.rows t.last_id)
        (insert_alert_notifications is_event event_id params now s)
unfolding insert_alert_notifications
insert_alert-Grows is_event event_id params now s v =
    insert-Grows is_event (map (alert_params event_id) params) now s v

pub enqueue-Grows :
    (clock : Time) (key event : Text) (params : List ChannelMessage) (now : Time) (s : Store)
    → IsTable s
    → OnOk
        (λ (t : Store). Grows s.rows t.rows t.last_id)
        (enqueue_notifications clock key event params now s)
unfolding enqueue_notifications
enqueue-Grows clock key event params now s v =
    OnOk-bind Grown (reject_if (trim_space key == [] || trim_space event == []) missing_fields) _
      (λ u h.
        OnOk-bind Grown (build_items (trim_space key) (trim_space event) params) _
          (λ items k. insert-Grows _ items _ s v))
  where
    Grown : Store → Type 0
    Grown t = Grows s.rows t.rows t.last_id
