-- ===== src/Shared/Decimal.antt =====
-- The decimal text of an integer, as fmt prints it for %d, and that it can be read back.
use Prim.Native.Nat.{ℕ, zero, suc, ◌+◌, ◌-◌, ◌*◌, ◌/◌, ◌%◌, ◌≤◌, ◌<◌}
use ithiltir.Shared.{◌≡◌, refl, sym, ap, ◌∙◌, ◌≢◌, inl, inr, false, [], ◌∷◌, ◌++◌, arith}
use ithiltir.Shared.Tests.{◌==◌, ltb, Bool-cases, if◌then◌else◌, nat_eq}
use ithiltir.Shared.Lists.{All}
use ithiltir.Shared.Text.{Text}
use ithiltir.Shared.Int.{ℤ, pos, negsuc}

-- The digits of `n` before `acc`; the fuel is more than `n`.
decimal_from : ℕ → ℕ → Text → Text
decimal_from zero n acc = acc
decimal_from (suc f) n acc =
    let rest = decimal_from f (n / 10) ((b'0' + n % 10) ∷ acc) in
    if ltb n 10 then (b'0' + n) ∷ acc else rest

unfoldable pub decimal : ℕ → Text
unfolding decimal_from
decimal n = decimal_from (suc n) n []

unfoldable pub format_int : ℤ → Text
unfolding decimal
format_int (pos n) = decimal n
format_int (negsuc n) = b'-' ∷ decimal (suc n)

-- The number that digits stand for, read from the left.
value_from : ℕ → Text → ℕ
value_from acc [] = acc
value_from acc (c ∷ s) = value_from (acc * 10 + (c - b'0')) s

value_from-decimal_from :
    (f n : ℕ) (acc : Text) → n < f → value_from 0 (decimal_from f n acc) ≡ value_from n acc
unfolding decimal_from value_from
value_from-decimal_from zero n acc h = absurd (omega arith)
value_from-decimal_from (suc f) n acc h = elim (Bool-cases (ltb n 10)) [
  | inl e ↦ rw e (ap (λ m. value_from m acc) (ground arith))
  | inr e ↦ rw e (
      value_from-decimal_from f (n / 10) ((b'0' + n % 10) ∷ acc) (ground arith)
      ∙ ap (λ m. value_from m acc) (omega arith))
]

value_from-decimal : (n : ℕ) → value_from 0 (decimal n) ≡ n
unfolding decimal value_from
value_from-decimal n = value_from-decimal_from (suc n) n [] (omega arith)

abbrev IsDigit : ℕ → Type 0
IsDigit c = (b'0' ≤ c) × (c ≤ b'9')

decimal_from-digits : (f n : ℕ) (acc : Text) → All IsDigit acc → All IsDigit (decimal_from f n acc)
unfolding decimal_from
decimal_from-digits zero n acc h = h
decimal_from-digits (suc f) n acc h = elim (Bool-cases (ltb n 10)) [
  | inl e ↦ rw e (ground arith)
  | inr e ↦ rw e (decimal_from-digits f (n / 10) ((b'0' + n % 10) ∷ acc) (ground arith))
]

-- The integer that a text stands for.
read_int : Text → ℤ
read_int [] = pos 0
read_int (c ∷ s) = if c == b'-' then negsuc (value_from 0 s - 1) else pos (value_from 0 (c ∷ s))

read_int_digits : (s : Text) → All IsDigit s → s ≢ [] → read_int s ≡ pos (value_from 0 s)
unfolding read_int
read_int_digits [] h n = absurd (n refl)
read_int_digits (c ∷ s) h n = let e : (c == b'-') ≡ false = ground arith in rw e

decimal_from-cons : (f n c : ℕ) (acc : Text) → decimal_from f n (c ∷ acc) ≢ []
unfolding decimal_from
decimal_from-cons zero n c acc = λ h. cc
decimal_from-cons (suc f) n c acc = elim (Bool-cases (ltb n 10)) [
  | inl e ↦ rw e (λ h. cc)
  | inr e ↦ rw e (decimal_from-cons f (n / 10) (b'0' + n % 10) (c ∷ acc))
]

decimal-ne-nil : (n : ℕ) → decimal n ≢ []
unfolding decimal
decimal-ne-nil n = elim (Bool-cases (ltb n 10)) [
  | inl e ↦ rw e (λ h. cc)
  | inr e ↦ rw e (decimal_from-cons n (n / 10) (b'0' + n % 10) [])
]

read_int_minus : (s : Text) → read_int (b'-' ∷ s) ≡ negsuc (value_from 0 s - 1)
unfolding read_int
read_int_minus s = refl

decimal-digits : (n : ℕ) → All IsDigit (decimal n)
unfolding decimal
decimal-digits n = decimal_from-digits (suc n) n [] tt

read_int-format_int : (a : ℤ) → read_int (format_int a) ≡ a
unfolding format_int
read_int-format_int (pos n) =
    read_int_digits (decimal n) (decimal-digits n) (decimal-ne-nil n)
    ∙ ap pos (value_from-decimal n)
read_int-format_int (negsuc n) =
    read_int_minus (decimal (suc n))
    ∙ ap (λ m. negsuc (m - 1)) (value_from-decimal (suc n))
    ∙ ap negsuc (omega arith)

-- What stands before and behind the first `c`.
before_first : ℕ → Text → Text
before_first c [] = []
before_first c (d ∷ s) = let rest = d ∷ before_first c s in if d == c then [] else rest

behind_first : ℕ → Text → Text
behind_first c [] = []
behind_first c (d ∷ s) = let rest = behind_first c s in if d == c then s else rest

abbrev Lacks : ℕ → Text → Type 0
Lacks c = All (λ d. d ≢ c)

before_first-append : (c : ℕ) (s t : Text) → Lacks c s → before_first c (s ++ c ∷ t) ≡ s
unfolding before_first
before_first-append c [] t h = ground arith
before_first-append c (d ∷ s) t h = ground (arith, h.0, before_first-append c s t h.1)

behind_first-append : (c : ℕ) (s t : Text) → Lacks c s → behind_first c (s ++ c ∷ t) ≡ t
unfolding behind_first
behind_first-append c [] t h = ground arith
behind_first-append c (d ∷ s) t h = ground (arith, h.0, behind_first-append c s t h.1)

digits-Lacks : (s : Text) → All IsDigit s → Lacks b':' s
digits-Lacks [] h = tt
digits-Lacks (c ∷ s) h = ((λ e. omega arith), digits-Lacks s h.1)

format_int-Lacks : (a : ℤ) → Lacks b':' (format_int a)
unfolding format_int
format_int-Lacks (pos n) = digits-Lacks (decimal n) (decimal-digits n)
format_int-Lacks (negsuc n) =
    ((λ e. omega arith), digits-Lacks (decimal (suc n)) (decimal-digits (suc n)))

-- Two integers joined by a colon are determined by the text.
pub join_colon_injective :
    (a b c d : ℤ)
    → format_int a ++ b':' ∷ format_int b ≡ format_int c ++ b':' ∷ format_int d
    → (a ≡ c) × (b ≡ d)
join_colon_injective a b c d h = (
  sym (read_int-format_int a) ∙ ap read_int first ∙ read_int-format_int c,
  sym (read_int-format_int b) ∙ ap read_int second ∙ read_int-format_int d,
)
  where
    first : format_int a ≡ format_int c
    first =
        sym (before_first-append b':' (format_int a) (format_int b) (format_int-Lacks a))
        ∙ ap (before_first b':') h
        ∙ before_first-append b':' (format_int c) (format_int d) (format_int-Lacks c)

    second : format_int b ≡ format_int d
    second =
        sym (behind_first-append b':' (format_int a) (format_int b) (format_int-Lacks a))
        ∙ ap (behind_first b':') h
        ∙ behind_first-append b':' (format_int c) (format_int d) (format_int-Lacks c)
