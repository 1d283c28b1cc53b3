-- ===== src/Outbox/Ordering.antt =====
-- In which order notifications are taken (TakeNextNotification).
use mathlib.Core.Path.{subst}
use mathlib.Core.List.{nil≢cons}
use ithiltir.Shared.{
  ℕ, ◌<◌, ◌↔◌, ◌⊎◌, map, ◌≡◌, refl, ap, sym, inl, inr, Bool, true, false, ◌&&◌, ◌||◌, Option, none,
  some, List, [], ◌∷◌, arith,
}
use ithiltir.Shared.Tests.{◌==◌, Bool-cases, nat_eq, ltb, if◌then◌else◌}
use ithiltir.Shared.Lists.{All}
use ithiltir.Shared.Int.{ℤ, int_eq, ltb_ℤ, leb_ℤ}
use ithiltir.Alert.Retry.{sending, blocked}
use ithiltir.Outbox.Ready.{IsClaimable, is_claimable_iff}
use ithiltir.Shared.Text.{text_eq}
use ithiltir.Shared.Time.{Time}
use ithiltir.Outbox.{Row, Store, filter, status_eq, status_eqb_iff}
use ithiltir.Outbox.Take.{
  is_claimable, precedes, better, first_of, sending_first, was_probe, taken, take_next_notification,
}
use ithiltir.Outbox.Rows.{In}
use ithiltir.Outbox.Taking.{claimed_row}

-- `t` does not come before `r`.
abbrev pub NotBefore : Row → Row → Type 0
NotBefore r t = precedes t r ≡ false

ltb_ℤ_chain : (a b c : ℤ) → ltb_ℤ a b ≡ false → ltb_ℤ b c ≡ false → ltb_ℤ a c ≡ false
ltb_ℤ_chain a b c h k = ground arith

-- The comparison of the query, on its three columns.
abbrev before_by : ℕ → ℕ → ℕ → ℕ → Bool → Bool
before_by a b m n last = ltb a b || (a == b && (ltb m n || (m == n && last)))

before_by_chain :
    (a b c m n o : ℕ) (x y z : Bool)
    → (x ≡ false → y ≡ false → z ≡ false)
    → before_by b a n m x ≡ false
    → before_by c b o n y ≡ false
    → before_by c a o m z ≡ false
before_by_chain a b c m n o x y z f h k = ground arith

before_by_once :
    (a b m n : ℕ) (x y : Bool)
    → (x ≡ true → y ≡ false)
    → before_by a b m n x ≡ true
    → before_by b a n m y ≡ false
before_by_once a b m n x y f h = ground arith

precedes_chain : (r t u : Row) → NotBefore r t → NotBefore t u → NotBefore r u
unfolding precedes
precedes_chain r t u =
    before_by_chain (sending_first r) (sending_first t) (sending_first u) r.next_attempt_at
      t.next_attempt_at u.next_attempt_at (ltb_ℤ t.id r.id) (ltb_ℤ u.id t.id) (ltb_ℤ u.id r.id)
      (λ h k. ltb_ℤ_chain u.id t.id r.id k h)

precedes_once : (r t : Row) → precedes t r ≡ true → NotBefore t r
unfolding precedes
precedes_once r t =
    before_by_once (sending_first t) (sending_first r) t.next_attempt_at r.next_attempt_at
      (ltb_ℤ t.id r.id) (ltb_ℤ r.id t.id) (λ h. ground arith)

precedes_self : (r : Row) → NotBefore r r
precedes_self r = elim (Bool-cases (precedes r r)) [ inl e ↦ precedes_once r r e | inr e ↦ e ]

NotBefore-All :
    (r t : Row) (rows : List Row) → NotBefore r t → All (NotBefore t) rows → All (NotBefore r) rows
NotBefore-All r t [] h k = tt
NotBefore-All r t (u ∷ rows) h k = (precedes_chain r t u h k.0, NotBefore-All r t rows h k.1)

Leads : List Row → Option Row → Type 0
Leads rows none = rows ≡ []
Leads rows (some t) = All (NotBefore t) rows

better_least :
    (r : Row) (rows : List Row) (o : Option Row)
    → Leads rows o
    → All (NotBefore (better r o)) (r ∷ rows)
unfolding Leads
better_least r rows none h = (precedes_self r, subst (All (NotBefore r)) (sym h) tt)
better_least r rows (some t) h = elim (Bool-cases (precedes t r)) [
  | inl e ↦
      let q : better r (some t) ≡ t = rw e refl in
      subst (λ u. All (NotBefore u) (r ∷ rows)) (sym q) (precedes_once r t e, h)
  | inr e ↦
      let q : better r (some t) ≡ r = rw e refl in
      subst (λ u. All (NotBefore u) (r ∷ rows)) (sym q)
        (precedes_self r, NotBefore-All r t rows e h)
]

first_of-Leads : (rows : List Row) → Leads rows (first_of rows)
unfolding Leads first_of
first_of-Leads [] = refl
first_of-Leads (t ∷ rows) = better_least t rows (first_of rows) (first_of-Leads rows)

All-filter-back :
    (P : Row → Type 0) (p : Row → Bool) (rows : List Row)
    → All P (filter p rows)
    → All (λ r. p r ≡ true → P r) rows
All-filter-back P p [] h = tt
All-filter-back P p (r ∷ rows) h = elim (Bool-cases (p r)) [
  | inl e ↦ let k = (rw e at h) in ((λ q. k.0), All-filter-back P p rows k.1)
  | inr e ↦ ((λ q. cc), All-filter-back P p rows (rw e at h))
]

-- The order of the query on its columns: what is in flight comes first, then what is due earlier, then
-- the smaller number.
abbrev IsInFlight : Row → Type 0
IsInFlight r = r.status ≡ sending

abbrev pub IsNotLater : Row → Row → Type 0
IsNotLater r t =
    (IsInFlight r × ¬ IsInFlight t)
    ⊎ ((IsInFlight r ↔ IsInFlight t)
        × ((r.next_attempt_at < t.next_attempt_at)
            ⊎ ((r.next_attempt_at ≡ t.next_attempt_at) × (leb_ℤ r.id t.id ≡ true))))

NotBefore-IsNotLater : (r t : Row) → NotBefore r t → IsNotLater r t
unfolding precedes
NotBefore-IsNotLater r t h =
    ground (arith, status_eqb_iff r.status sending, status_eqb_iff t.status sending)

-- What taking gives, by whether it finds a row.
pub record TakesFirst (now : Time) (s : Store) (item : Row) : Type 0 where
  pub row : Row
  pub stands : In row s.rows
  pub claimable : IsClaimable now s.rows row
  pub first : (t : Row) → In t s.rows → IsClaimable now s.rows t → IsNotLater row t
  pub probe : Bool
  pub probing : (probe ≡ true) ↔ ((row.is_probe ≡ true) ⊎ (row.status ≡ blocked))
  pub given : item ≡ record row { status = sending; is_probe = probe }
  pub left : (take_next_notification now s).0 ≡ record s {
    rows =
        map
          (λ (t : Row).
            if t.id == row.id
            then record t { status = sending; is_probe = probe; next_attempt_at = now }
            else t)
          s.rows;
  }

abbrev pub Takes : Time → Store → Option Row → Type 0
Takes now s none =
    ((t : Row) → In t s.rows → ¬ IsClaimable now s.rows t) × ((take_next_notification now s).0 ≡ s)
Takes now s (some item) = TakesFirst now s item

All-In : (P : Row → Type 0) (rows : List Row) (t : Row) → All P rows → In t rows → P t
All-In P (r ∷ rows) t h (inl e) = subst P e h.0
All-In P (r ∷ rows) t h (inr m) = All-In P rows t h.1 m
All-In P [] t h m = absurd m

none_claimable :
    (p : Row → Bool) (rows : List Row) → filter p rows ≡ [] → All (λ r. p r ≡ false) rows
none_claimable p [] h = tt
none_claimable p (r ∷ rows) h = elim (Bool-cases (p r)) [
  | inl e ↦ absurd (nil≢cons (sym (rw e at h)))
  | inr e ↦ (e, none_claimable p rows (rw e at h))
]

was_probe_iff : (r : Row) → (was_probe r ≡ true) ↔ ((r.is_probe ≡ true) ⊎ (r.status ≡ blocked))
was_probe_iff r = ground (arith, status_eqb_iff r.status blocked)

taken-Takes :
    (now : Time) (s : Store) (o : Option Row)
    → first_of (filter (is_claimable now s.rows) s.rows) ≡ o
    → Leads (filter (is_claimable now s.rows) s.rows) o
    → Takes now s (taken now s o).1
unfolding take_next_notification taken Leads
taken-Takes now s none h k = (
  λ t m c.
      let no = All-In _ s.rows t (none_claimable (is_claimable now s.rows) s.rows k) m in
      let yes = (is_claimable_iff now s.rows t).1 c in absurd (cc (no, yes)),
  ap (λ x. (taken now s x).0) h,
)
taken-Takes now s (some r) h k =
    let (m, c) = claimed_row now s.rows r h in
    record {
      row = r;
      stands = m;
      claimable = (is_claimable_iff now s.rows r).0 c;
      first = λ t n d. NotBefore-IsNotLater r t (
          All-In _ s.rows t (All-filter-back (NotBefore r) (is_claimable now s.rows) s.rows k) n
            ((is_claimable_iff now s.rows t).1 d));
      probe = was_probe r;
      probing = was_probe_iff r;
      given = refl;
      left = ap (λ x. (taken now s x).0) h;
    }

-- TakeNextNotification gives nothing and changes nothing exactly where no row can be claimed: none is
-- in flight or due whose openings, where it is a closing, have all been sent or discarded. Otherwise it
-- gives such a row, before which no other comes: what is in flight comes first, then what is due
-- earlier, then the smaller number. That row alone becomes one that is being sent since now, and a
-- probe exactly if it was blocked or a probe.
pub take_next-Takes : (now : Time) (s : Store) → Takes now s (take_next_notification now s).1
unfolding take_next_notification
take_next-Takes now s =
    taken-Takes now s (first_of (filter (is_claimable now s.rows) s.rows)) refl
      (first_of-Leads (filter (is_claimable now s.rows) s.rows))
