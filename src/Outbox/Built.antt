-- ===== src/Outbox/Built.antt =====
-- The rows that insertNotifications builds, and their dedupe keys in the table.
use mathlib.Core.Path.{subst}
use ithiltir.Shared.Int.{int_eq}
use ithiltir.Shared.{
  Option, ℕ, suc, ◌≡◌, refl, sym, inl, inr, true, false, List, [], ◌∷◌, ◌++◌, arith,
}
use ithiltir.Shared.Tests.{◌==◌, if◌then◌else◌, Bool-cases, same_refl}
use ithiltir.Shared.Lists.{All}
use ithiltir.Shared.Text.{Text, text_eq}
use ithiltir.Shared.Time.{Time}
use ithiltir.Outbox.{Row, ok, OnOk, OnOk-bind, reject_if, missing_fields}
use ithiltir.Outbox.Enqueue.{
  NotificationParams, new_row, is_incomplete, build_rows, has_key, create_or_ignore,
  blocked_notification_schedule,
}

-- The built rows have the keys, types, channels and events of the parameters, whatever their numbers.
pub record IsMadeOf (p : NotificationParams) (make : ℕ → Row) : Type 0 where
  pub key : (n : ℕ) → (make n).dedupe_key ≡ p.dedupe_key
  pub kind : (n : ℕ) → (make n).channel_type ≡ p.channel_type
  pub channel : (n : ℕ) → (make n).channel_id ≡ p.channel_id
  pub event : (n : ℕ) → (make n).event_id ≡ p.event_id

abbrev pub AreBuilt : List NotificationParams → List (ℕ → Row) → Type 0
AreBuilt [] [] = Unit
AreBuilt (p ∷ params) (make ∷ built) = IsMadeOf p make × AreBuilt params built
AreBuilt _ _ = ⊥

new_row-IsMadeOf :
    (now : Time) (schedule : Option Time) (p : NotificationParams)
    → IsMadeOf p (new_row now schedule p)
new_row-IsMadeOf now schedule p = record {
  key = λ n. refl;
  kind = λ n. refl;
  channel = λ n. refl;
  event = λ n. refl;
}

pub build_rows-AreBuilt :
    (rows : List Row) (now : Time) (params : List NotificationParams)
    → OnOk (AreBuilt params) (build_rows rows now params)
unfolding build_rows
build_rows-AreBuilt rows now [] = tt
build_rows-AreBuilt rows now (param ∷ params) =
    let rest = build_rows-AreBuilt rows now params in
    OnOk-bind (AreBuilt (param ∷ params)) (reject_if (is_incomplete param) missing_fields) _ (λ u h.
      OnOk-bind (AreBuilt (param ∷ params)) (build_rows rows now params) _
        (λ built k. (new_row-IsMadeOf now _ param, subst (OnOk (AreBuilt params)) k rest)))

-- Keys stay.
has_key-append :
    (key : Text) (rows new : List Row) → has_key key rows ≡ true → has_key key (rows ++ new) ≡ true
has_key-append key [] new h = cc
has_key-append key (r ∷ rows) new h = elim (Bool-cases (r.dedupe_key == key)) [
  | inl e ↦ ground arith
  | inr e ↦ let rest = has_key-append key rows new (ground arith) in ground arith
]

has_key_last : (r : Row) (rows : List Row) → has_key r.dedupe_key (rows ++ r ∷ []) ≡ true
has_key_last r [] = let q = same_refl r.dedupe_key in ground arith
has_key_last r (t ∷ rows) = let rest = has_key_last r rows in ground arith

created-has_key :
    (key : Text) (last : ℕ) (built : List (ℕ → Row)) (rows : List Row)
    → has_key key rows ≡ true
    → has_key key (create_or_ignore last built rows) ≡ true
created-has_key key last [] rows h = h
created-has_key key last (make ∷ built) rows h =
    elim (Bool-cases (has_key (make (suc last)).dedupe_key rows)) [
      | inl e ↦ rw e (created-has_key key (suc last) built rows h)
      | inr e ↦ rw e (
          created-has_key key (suc last) built (rows ++ make (suc last) ∷ [])
            (has_key-append key rows (make (suc last) ∷ []) h))
    ]

abbrev pub HasKeys : List NotificationParams → List Row → Type 0
HasKeys params rows = All (λ (p : NotificationParams). has_key p.dedupe_key rows ≡ true) params

entered :
    (last : ℕ) (key : Text) (make : ℕ → Row) (rows : List Row)
    → ((n : ℕ) → (make n).dedupe_key ≡ key)
    → has_key key
        (if has_key (make (suc last)).dedupe_key rows then rows else rows ++ make (suc last) ∷ [])
      ≡ true
entered last key make rows h =
    subst
      (λ k.
        has_key k
          (if has_key (make (suc last)).dedupe_key rows then rows else rows ++ make (suc last) ∷ [])
        ≡ true)
      (h (suc last))
      (elim (Bool-cases (has_key (make (suc last)).dedupe_key rows)) [
        | inl e ↦ rw e e
        | inr e ↦ rw e (has_key_last (make (suc last)) rows)
      ])

pub created-HasKeys :
    (last : ℕ) (params : List NotificationParams) (built : List (ℕ → Row)) (rows : List Row)
    → AreBuilt params built
    → HasKeys params (create_or_ignore last built rows)
created-HasKeys last [] [] rows h = tt
created-HasKeys last [] (make ∷ built) rows h = absurd h
created-HasKeys last (p ∷ params) [] rows h = absurd h
created-HasKeys last (p ∷ params) (make ∷ built) rows h =
    let next =
      if has_key (make (suc last)).dedupe_key rows then rows else rows ++ make (suc last) ∷ [] in
    (
      created-has_key p.dedupe_key (suc last) built next
          (entered last p.dedupe_key make rows h.0.key),
      created-HasKeys (suc last) params built next h.1,
    )

pub ignored :
    (last : ℕ) (params : List NotificationParams) (built : List (ℕ → Row)) (rows : List Row)
    → AreBuilt params built
    → HasKeys params rows
    → create_or_ignore last built rows ≡ rows
ignored last [] [] rows h k = refl
ignored last [] (make ∷ built) rows h k = absurd h
ignored last (p ∷ params) [] rows h k = absurd h
ignored last (p ∷ params) (make ∷ built) rows h k =
    let known : has_key (make (suc last)).dedupe_key rows ≡ true =
      subst (λ key. has_key key rows ≡ true) (sym (h.0.key (suc last))) k.0 in
    rw known (ignored (suc last) params built rows h.1 k.1)

-- All fields are there: this does not depend on the table.
abbrev pub AreComplete : List NotificationParams → Type 0
AreComplete = All (λ p. is_incomplete p ≡ false)

pub build_rows-again :
    (rows : List Row) (now : Time) (params : List NotificationParams)
    → AreComplete params
    → (built : List (ℕ → Row)) × (build_rows rows now params ≡ ok built)
unfolding build_rows
build_rows-again rows now [] h = ([], refl)
build_rows-again rows now (p ∷ params) h =
    let (built, e) = build_rows-again rows now params h.1 in
    (new_row now (blocked_notification_schedule rows p.channel_id) p ∷ built, rw (h.0, e) refl)
