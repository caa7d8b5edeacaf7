-- ===== src/Base/Decimal.antt =====
-- `int(str(n))` is `n`.
use Prim.Native.Char.{code}
use pcutp.Base.Tests.{◌==◌, Bool-cases}
use Prim.Native.Nat.{ℕ, zero, suc, ◌+◌, ◌/◌, ◌%◌, ◌<◌, ◌≤◌}
use Prim.Native.String.{String}
use mathlib.Core.Bool.{true, false}
use mathlib.Core.Logic.{inl, inr}
use mathlib.Core.Path.{◌≡◌, refl}
use native.Mathlib.Omega.{arith}
use pcutp.Base.Text.{is_digit, is_space, all_digits, is_decimal, int_from, int, digit, digits, str}
use pcutp.Base.Tables.{test_below, test_below-at}
use pcutp.Base.Words.{IsWord, HasNoSpace}

code_table : test_below (λ d. code (digit d) == 48 + d) 10 ≡ true
unfolding test_below digit
code_table = refl

code-digit : (d : ℕ) → d < 10 → code (digit d) ≡ 48 + d
code-digit d h = let e = test_below-at _ 10 d code_table h in ground arith

int_from-digits :
    (fuel n : ℕ) (out : String) → n ≤ fuel → int_from 0 (digits fuel n out) ≡ int_from n out
unfolding int_from digits
int_from-digits zero zero out h = refl
int_from-digits zero (suc n) out h = absurd (omega arith)
int_from-digits (suc fuel) n out h =
    ground
      (arith, int_from-digits fuel (n / 10) (String.◌∷◌ (digit (n % 10)) out), code-digit (n % 10))

is_decimal-digits :
    (fuel n : ℕ) (out : String) → is_decimal out ≡ true → is_decimal (digits fuel n out) ≡ true
unfolding digits is_decimal is_digit
is_decimal-digits zero n out h = h
is_decimal-digits (suc fuel) n out h = ground (
  arith,
  is_decimal-digits fuel (n / 10) (String.◌∷◌ (digit (n % 10)) out),
  is_decimal-cons (n % 10) out,
)
  where
    is_decimal-cons :
        (d : ℕ) (s : String)
        → d < 10
        → is_decimal s ≡ true
        → is_decimal (String.◌∷◌ (digit d) s) ≡ true
    is_decimal-cons d String.[] lt k = ground (arith, code-digit d lt)
    is_decimal-cons d (String.◌∷◌ c s) lt k = ground (arith, code-digit d lt)

-- A decimal print is read back.
pub int-str : (n : ℕ) → int (str n) ≡ n
unfolding int str
int-str n = elim (Bool-cases (n == 0)) [
  | inl none_left ↦ rw none_left (ground arith)
  | inr some_left ↦ rw some_left (int_from-digits n n "" (omega arith))
]

pub is_decimal-str : (n : ℕ) → is_decimal (str n) ≡ true
unfolding str digits is_decimal is_digit
is_decimal-str zero = refl
is_decimal-str (suc n) =
    let more : (suc n == 0) ≡ false = ground arith in
    rw more (
      is_decimal-digits n (suc n / 10) (String.◌∷◌ (digit (suc n % 10)) "")
        (first (suc n % 10) (omega arith)))
  where
    first : (d : ℕ) → d < 10 → is_decimal (String.◌∷◌ (digit d) "") ≡ true
    first d lt = ground (arith, code-digit d lt)

HasNoSpace-all_digits : (s : String) → all_digits s ≡ true → HasNoSpace s
unfolding all_digits is_digit is_space
HasNoSpace-all_digits String.[] h = tt
HasNoSpace-all_digits (String.◌∷◌ c s) h = (ground arith, HasNoSpace-all_digits s (ground arith))

IsWord-is_decimal : (s : String) → is_decimal s ≡ true → IsWord s
unfolding is_decimal is_digit is_space
IsWord-is_decimal String.[] h = cc
IsWord-is_decimal (String.◌∷◌ c s) h = HasNoSpace-all_digits (String.◌∷◌ c s) h

pub IsWord-str : (n : ℕ) → IsWord (str n)
IsWord-str n = IsWord-is_decimal (str n) (is_decimal-str n)
