-- ===== src/Shared/Float.antt =====
-- float64, of which the program uses the IEEE comparisons, sums, conversions and tests below. The
-- operations are the fields of an instance, for any type of values.
use mathlib.Core.Bool.{Bool, not, ◌&&◌}
use ithiltir.Shared.Int.{ℤ, pos}

pub record Float (F : Type 0) : Type 0 where
  pub lt : F → F → Bool
  pub le : F → F → Bool
  pub eq : F → F → Bool
  pub plus : F → F → F
  pub of_int : ℤ → F
  pub is_nan : F → Bool
  pub is_inf : F → Bool

module _ {F : Type 0} ⦃fl : Float F⦄ where
  -- The constants 0 and 1.
  abbrev pub zero_f : F
  zero_f = fl.of_int (pos 0)

  abbrev pub one_f : F
  one_f = fl.of_int (pos 1)

  abbrev pub finite : F → Bool
  finite v = not (fl.is_nan v) && not (fl.is_inf v)
