-- ===== src/Outbox/Rows.antt =====
-- What may happen to a row of the outbox, as a specification of its life that does not know the
-- operations, and how updates of the table respect it.
use mathlib.Core.Path.{subst}
use ithiltir.Shared.{
  ℕ, ◌≤◌, ◌≡◌, ◌≢◌, refl, sym, ap, ◌∙◌, ◌⊎◌, inl, inr, Bool, true, false, not, ◌||◌, Option, List,
  [], ◌∷◌, ◌++◌, map,
}
use ithiltir.Shared.Tests.{◌==◌, Bool-cases}
use ithiltir.Shared.Lists.{All, Any, contains}
use ithiltir.Shared.Int.{ℤ, pos, int_eq}
use ithiltir.Alert.Retry.{OutboxStatus, pending, sending, sent, retry, blocked, paused, discarded}
use ithiltir.Shared.Text.{Text}
use ithiltir.Outbox.{Row, Store, Payload, when, status_eq}
use ithiltir.Outbox.Take.{is_some}

-- The arrows of the life of a notification: it begins pending or blocked, only what is in flight is
-- sent, and from sent and discarded nothing leads on.
abbrev pub may_become : OutboxStatus → OutboxStatus → Bool
may_become sent _ = false
may_become discarded _ = false
may_become sending t = not (t == pending)
may_become paused t = contains t (retry ∷ discarded ∷ [])
may_become _ t = contains t (sending ∷ retry ∷ blocked ∷ paused ∷ discarded ∷ [])

abbrev pub Moves : OutboxStatus → OutboxStatus → Type 0
Moves s t = (s ≡ t) ⊎ (may_become s t ≡ true)

abbrev pub is_final : OutboxStatus → Bool
is_final s = s == sent || s == discarded

-- What a row is about.
pub record Subject : Type 0 where
  pub id : ℤ
  pub event_id : Option ℤ
  pub transition : Text
  pub channel_id : ℤ
  pub channel_type : Text
  pub payload : Option Payload
  pub dedupe_key : Text

abbrev pub subject : Row → Subject
subject r = record {
  id = r.id;
  event_id = r.event_id;
  transition = r.transition;
  channel_id = r.channel_id;
  channel_type = r.channel_type;
  payload = r.payload;
  dedupe_key = r.dedupe_key;
}

-- The columns fit together: the marker of a probe stands only at what is in flight, failed probes are
-- counted only for what is blocked or such a probe, and a time of sending stands exactly at what is
-- sent.
pub record IsSound (r : Row) : Type 0 where
  pub probes : r.is_probe ≡ true → r.status ≡ sending
  pub counted : r.probe_count ≢ 0 → (r.status ≡ blocked) ⊎ (r.is_probe ≡ true)
  pub dated : is_some r.sent_at ≡ (r.status == sent)

-- A row and what a call makes of it.
pub record Steps (r t : Row) : Type 0 where
  pub same : subject t ≡ subject r
  pub moves : Moves r.status t.status
  pub stays : is_final r.status ≡ true → t ≡ r
  pub sound : IsSound r → IsSound t

pub Steps-refl : (r : Row) → Steps r r
Steps-refl r = record { same = refl; moves = inl refl; stays = λ h. refl; sound = λ h. h }

-- An update that leaves the status can be added to a step.
pub Steps-then :
    (r t u : Row)
    → Steps r t
    → subject u ≡ subject t
    → u.status ≡ t.status
    → (is_final t.status ≡ true → u ≡ t)
    → (IsSound t → IsSound u)
    → Steps r u
Steps-then r t u h same still stays sound = record {
  same = same ∙ h.same;
  moves = subst (Moves r.status) (sym still) h.moves;
  stays = λ f. let p = h.stays f in stays (ap (λ (x : Row). is_final x.status) p ∙ f) ∙ p;
  sound = λ v. sound (h.sound v);
}

pub when-Steps :
    (p : Row → Bool) (u : Row → Row) (r : Row) → (p r ≡ true → Steps r (u r)) → Steps r (when p u r)
when-Steps p u r h = elim (Bool-cases (p r)) [ inl e ↦ rw e (h e) | inr e ↦ rw e (Steps-refl r) ]

-- The rows of a table before and after a call: each makes a step, and new ones follow.
abbrev pub IsFresh : Row → Type 0
IsFresh r = ((r.status ≡ pending) ⊎ (r.status ≡ blocked)) × IsSound r

abbrev pub Evolves : List Row → List Row → Type 0
Evolves [] new = All IsFresh new
Evolves (r ∷ rows) [] = ⊥
Evolves (r ∷ rows) (t ∷ next) = Steps r t × Evolves rows next

-- The same where no row is new.
abbrev pub Each : List Row → List Row → Type 0
Each [] [] = Unit
Each (r ∷ rows) (t ∷ next) = Steps r t × Each rows next
Each _ _ = ⊥

pub Each-refl : (rows : List Row) → Each rows rows
Each-refl [] = tt
Each-refl (r ∷ rows) = (Steps-refl r, Each-refl rows)

-- A row stands in the table.
abbrev pub In : Row → List Row → Type 0
In r = Any (λ t. t ≡ r)

pub Each-map :
    (g : Row → Row) (rows : List Row)
    → ((r : Row) → In r rows → Steps r (g r))
    → Each rows (map g rows)
Each-map g [] h = tt
Each-map g (r ∷ rows) h = (h r (inl refl), Each-map g rows (λ t m. h t (inr m)))

pub Each-Evolves : (rows next : List Row) → Each rows next → Evolves rows next
Each-Evolves [] [] h = tt
Each-Evolves [] (t ∷ next) h = absurd h
Each-Evolves (r ∷ rows) [] h = h
Each-Evolves (r ∷ rows) (t ∷ next) h = (h.0, Each-Evolves rows next h.1)

pub Evolves-append : (rows new : List Row) → All IsFresh new → Evolves rows (rows ++ new)
Evolves-append [] new h = h
Evolves-append (r ∷ rows) new h = (Steps-refl r, Evolves-append rows new h)

abbrev pub subjects : List Row → List Subject
subjects rows = map subject rows

pub Each-subjects : (rows next : List Row) → Each rows next → subjects next ≡ subjects rows
Each-subjects [] [] h = refl
Each-subjects [] (t ∷ next) h = absurd h
Each-subjects (r ∷ rows) [] h = absurd h
Each-subjects (r ∷ rows) (t ∷ next) h =
    ap (λ x. x ∷ subjects next) h.0.same ∙ ap (λ xs. subject r ∷ xs) (Each-subjects rows next h.1)

pub Evolves-IsSound :
    (rows next : List Row) → Evolves rows next → All IsSound rows → All IsSound next
Evolves-IsSound [] [] h v = tt
Evolves-IsSound [] (t ∷ next) h v = (h.0.1, Evolves-IsSound [] next h.1 tt)
Evolves-IsSound (r ∷ rows) [] h v = absurd h
Evolves-IsSound (r ∷ rows) (t ∷ next) h v = (h.0.sound v.0, Evolves-IsSound rows next h.1 v.1)

-- No two rows have the same number or the same dedupe key.
abbrev pub Differs : Subject → Subject → Type 0
Differs a b = (b.id ≢ a.id) × (b.dedupe_key ≢ a.dedupe_key)

abbrev pub AreApart : List Subject → Type 0
AreApart [] = Unit
AreApart (a ∷ rest) = All (Differs a) rest × AreApart rest

-- A number that the sequence has given.
abbrev pub IsNumbered : ℕ → Subject → Type 0
IsNumbered last a = (n : ℕ) × (a.id ≡ pos n) × (n ≤ last)

-- What holds of the table in between the calls.
pub record IsTable (s : Store) : Type 0 where
  pub apart : AreApart (subjects s.rows)
  pub numbered : All (IsNumbered s.last_id) (subjects s.rows)
  pub sound : All IsSound s.rows

Differs-from :
    (a : Subject) (rows : List Row) (t : Row)
    → All (Differs a) (subjects rows)
    → In t rows
    → t.id ≢ a.id
Differs-from a [] t h m = absurd m
Differs-from a (r ∷ rows) t h (inl e) = λ p. h.0.0 (ap (λ (x : Row). x.id) e ∙ p)
Differs-from a (r ∷ rows) t h (inr m) = Differs-from a rows t h.1 m

-- A row is known by its number.
pub same_row :
    (rows : List Row) (r t : Row)
    → AreApart (subjects rows)
    → In r rows
    → In t rows
    → r.id ≡ t.id
    → r ≡ t
same_row [] r t v m n e = absurd m
same_row (x ∷ rows) r t v (inl p) (inl q) e = sym p ∙ q
same_row (x ∷ rows) r t v (inl p) (inr n) e =
    absurd (Differs-from (subject x) rows t v.0 n (sym e ∙ ap (λ (y : Row). y.id) (sym p)))
same_row (x ∷ rows) r t v (inr m) (inl q) e =
    absurd (Differs-from (subject x) rows r v.0 m (e ∙ ap (λ (y : Row). y.id) (sym q)))
same_row (x ∷ rows) r t v (inr m) (inr n) e = same_row rows r t v.1 m n e
