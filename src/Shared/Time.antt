-- ===== src/Shared/Time.antt =====
-- Go's time.Time as the nanoseconds since its zero value (January 1, year 1, UTC), so that IsZero
-- is the test for 0, and time.Duration as an int64. A change of location is no change of the value.
use Prim.Native.Nat.{ℕ, ◌+◌, ◌-◌, ◌%◌, ◌^◌, min}
use mathlib.Core.Bool.{Bool}
use ithiltir.Shared.Tests.{◌==◌, ltb, leb, if◌then◌else◌, nat_eq}
use ithiltir.Shared.Int.{ℤ, pos, negsuc, pos_part, neg_part}

abbrev pub Time : Type 0
Time = ℕ

abbrev pub nanos : ℕ
nanos = 1_000_000_000

abbrev pub is_zero : Time → Bool
is_zero t = t == 0

abbrev pub before : Time → Time → Bool
before t u = ltb t u

abbrev pub after : Time → Time → Bool
after t u = ltb u t

-- t.Sub(u), which saturates at the ends of int64.
abbrev pub sub : Time → Time → ℤ
sub t u = if leb u t then pos (min (t - u) (2 ^ 63 - 1)) else negsuc (min (u - t - 1) (2 ^ 63 - 1))

-- t.Add(d)
abbrev pub add : Time → ℤ → Time
add t d = (t + pos_part d) - neg_part d

-- t.Truncate(time.Second)
abbrev pub truncate : Time → Time
truncate t = t - t % nanos
