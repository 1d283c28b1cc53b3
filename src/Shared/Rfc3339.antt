-- ===== src/Shared/Rfc3339.antt =====
-- time.Parse(time.RFC3339, s), by the grammar that Go accepts: an hour of one or two digits, a
-- fraction behind `.` or `,`, and an offset of at most 24:60. An instant before year 1 is given as
-- the zero time.
use mathlib.Core.Bool.{Bool, true, false, not, ◌&&◌, ◌||◌}
use mathlib.Core.Option.{Option, none, some}
use mathlib.Core.List.{[], ◌∷◌}
use Prim.Native.Nat.{ℕ, zero, suc, ◌+◌, ◌-◌, ◌*◌, ◌/◌, ◌%◌}
use ithiltir.Shared.Tests.{◌==◌, leb, ltb, if◌then◌else◌, nat_eq}
use ithiltir.Shared.Lists.{get_or}
use ithiltir.Shared.Text.{Text}
use ithiltir.Shared.Time.{Time, nanos}

infixl 5 ◌>>=◌
abbrev ◌>>=◌ {ℓ κ} : {A : Type ℓ} {B : Type κ} → Option A → (A → Option B) → Option B
none >>= f = none
some a >>= f = f a

infixl 5 ◌>>◌
abbrev ◌>>◌ {ℓ} : {B : Type ℓ} → Option (Unit {0}) → Option B → Option B
m >> k = m >>= λ _. k

abbrev guard : Bool → Option (Unit {0})
guard true = some tt
guard false = none

unfoldable pub is_digit : ℕ → Bool
is_digit c = leb b'0' c && leb c b'9'

-- `n` digits, and the rest.
digits : ℕ → ℕ → Text → Option (ℕ × Text)
digits zero acc s = some (acc, s)
digits (suc n) acc [] = none
digits (suc n) acc (c ∷ s) =
    let rest = digits n (acc * 10 + (c - b'0')) s in if is_digit c then rest else none

-- getnum(s, false)
one_or_two : Text → Option (ℕ × Text)
unfolding is_digit
one_or_two [] = none
one_or_two (c ∷ []) = if is_digit c then some (c - b'0', []) else none
one_or_two (c ∷ d ∷ s) =
    if is_digit c
    then (if is_digit d then some ((c - b'0') * 10 + (d - b'0'), s) else some (c - b'0', d ∷ s))
    else none

literal : ℕ → Text → Option Text
literal c [] = none
literal c (d ∷ s) = if d == c then some s else none

-- The digits of a fraction, in nanoseconds: `scale` is the value of the next digit.
fraction : ℕ → ℕ → Text → ℕ × Text
unfolding is_digit
fraction acc scale [] = (acc, [])
fraction acc scale (c ∷ s) =
    let rest = fraction (acc + (c - b'0') * scale) (scale / 10) s in
    if is_digit c then rest else (acc, c ∷ s)

optional_fraction : Text → ℕ × Text
unfolding fraction
optional_fraction (c ∷ d ∷ s) =
    if (c == b'.' || c == b',') && is_digit d
    then fraction 0 100_000_000 (d ∷ s)
    else (0, c ∷ d ∷ s)
optional_fraction s = (0, s)

-- The offset in seconds: east of UTC, or west.
pub data Offset : Type 0 where
  east west : ℕ → Offset

offset_of : Bool → Text → Option Offset
unfolding digits literal
offset_of plus s = do
  (h, s) ← digits 2 0 s
  s ← literal b':' s
  (m, s) ← digits 2 0 s
  guard (leb h 24 && leb m 60)
  elim s [
    | [] ↦ some (if plus then east (h * 3600 + m * 60) else west (h * 3600 + m * 60))
    | _ ∷ _ ↦ none
  ]

zone : Text → Option Offset
unfolding offset_of
zone [] = none
zone (c ∷ s) =
    if c == b'Z'
    then elim s [ [] ↦ some (east 0) | _ ∷ _ ↦ none ]
    else if c == b'+'
    then offset_of true s
    else if c == b'-'
    then offset_of false s
    else none

is_leap : ℕ → Bool
is_leap y = y % 4 == 0 && (not (y % 100 == 0) || y % 400 == 0)

-- time.daysIn and the days of the year before a month, 1 to 12.
unfoldable pub days_in : ℕ → ℕ → ℕ
unfolding is_leap
days_in y m =
    if m == 2 && is_leap y
    then 29
    else get_or (31 ∷ 28 ∷ 31 ∷ 30 ∷ 31 ∷ 30 ∷ 31 ∷ 31 ∷ 30 ∷ 31 ∷ 30 ∷ 31 ∷ []) (m - 1) 0

days_until : ℕ → ℕ → ℕ
days_until y zero = 0
days_until y (suc zero) = 0
days_until y (suc (suc m)) = days_until y (suc m) + days_in y (suc m)

-- Days from the first day of year 0.
unfoldable pub days_of : ℕ → ℕ → ℕ → ℕ
unfolding days_until days_in
days_of y m d =
    365 * y + ((y + 3) / 4 + (y + 399) / 400 - (y + 99) / 100) + days_until y m + (d - 1)

-- The instant of a civil time, whose seconds are counted from year 0 until the offset is taken off.
instant : ℕ → ℕ → Offset → Time
instant seconds ns (east o) = (seconds - o - 366 * 86400) * nanos + ns
instant seconds ns (west o) = (seconds + o - 366 * 86400) * nanos + ns

unfoldable pub parse_rfc3339 : Text → Option Time
unfolding digits one_or_two literal optional_fraction zone instant days_of
parse_rfc3339 s = do
  (year, s) ← digits 4 0 s
  s ← literal b'-' s
  (month, s) ← digits 2 0 s
  s ← literal b'-' s
  (day, s) ← digits 2 0 s
  s ← literal b'T' s
  (hour, s) ← one_or_two s
  s ← literal b':' s
  (minute, s) ← digits 2 0 s
  s ← literal b':' s
  (second, s) ← digits 2 0 s
  let (ns, s) = optional_fraction s
  offset ← zone s
  guard (leb 1 month && leb month 12)
  guard (leb 1 day && leb day (days_in year month))
  guard (ltb hour 24 && (ltb minute 60 && ltb second 60))
  some (instant (days_of year month day * 86400 + hour * 3600 + minute * 60 + second) ns offset)
