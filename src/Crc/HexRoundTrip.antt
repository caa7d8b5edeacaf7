-- ===== src/Crc/HexRoundTrip.antt =====
-- The checksum field is read back, and survives `upper`.
use Prim.Native.Char.{code}
use native.Mathlib.Nat.{pow-suc}
use pcutp.Base.{
  ℕ, zero, suc, ◌+◌, ◌*◌, ◌/◌, ◌%◌, ◌^◌, ◌<◌, ◌≤◌, ◌≡◌, refl, ap, ◌∙◌, true, false, ◌&&◌, some,
  none, String, arith, leb, ◌==◌,
}
use pcutp.Base.Tables.{test_below, test_below-at}
use pcutp.Base.Text.{upper, upper_char, is_space}
use pcutp.Base.Words.{IsWord, HasNoSpace}
use pcutp.Names.{text_length}
use pcutp.Crc.Hex.{hex_digit, hex_digits, to_hex, hex_value, hex_from, parse_hex}

digit_table :
    test_below
      (λ d.
        leb 48 (code (hex_digit d))
        && (leb (code (hex_digit d)) 70
            && (elim (hex_value (hex_digit d)) [ none ↦ false | some v ↦ v == d ])))
      16
    ≡ true
unfolding test_below hex_digit hex_value
digit_table = refl

hex_digit_range : (d : ℕ) → d < 16 → (48 ≤ code (hex_digit d)) × (code (hex_digit d) ≤ 70)
hex_digit_range d h = let e = test_below-at _ 16 d digit_table h in ground arith

hex_value-hex_digit : (d : ℕ) → d < 16 → hex_value (hex_digit d) ≡ some d
hex_value-hex_digit d h = let e = test_below-at _ 16 d digit_table h in ground arith

-- reading `count` digits of `n` behind `acc` shifts `acc` by that many places
hex_from-hex_digits :
    (count n acc : ℕ) (out : String)
    → n < 16 ^ count
    → hex_from acc (hex_digits count n out) ≡ hex_from (acc * 16 ^ count + n) out
unfolding hex_digits hex_from
hex_from-hex_digits zero n acc out h =
    ap (λ k. hex_from k out) {x = acc} {y = acc * 16 ^ 0 + n} (omega arith)
hex_from-hex_digits (suc count) n acc out h =
    hex_from-hex_digits count (n / 16) acc (String.◌∷◌ (hex_digit (n % 16)) out)
      (omega (arith, pow-suc 16 count))
    ∙ rw (hex_value-hex_digit (n % 16) (omega arith), hex_from)
        (ap (λ k. hex_from k out)
          (omega (arith, pow-suc 16 count, ap (λ (t : ℕ). acc * t) (pow-suc 16 count))))

upper-hex_digits :
    (count n : ℕ) (out : String)
    → upper out ≡ out
    → upper (hex_digits count n out) ≡ hex_digits count n out
unfolding hex_digits upper
upper-hex_digits zero n out h = h
upper-hex_digits (suc count) n out h =
    upper-hex_digits count (n / 16) (String.◌∷◌ (hex_digit (n % 16)) out)
      (λ i. String.◌∷◌ (upper_digit i) (h i))
  where
    upper_digit : upper_char (hex_digit (n % 16)) ≡ hex_digit (n % 16)
    upper_digit = ground (arith, hex_digit_range (n % 16))

HasNoSpace-hex_digits :
    (count n : ℕ) (out : String) → HasNoSpace out → HasNoSpace (hex_digits count n out)
unfolding hex_digits is_space
HasNoSpace-hex_digits zero n out h = h
HasNoSpace-hex_digits (suc count) n out h =
    HasNoSpace-hex_digits count (n / 16) (String.◌∷◌ (hex_digit (n % 16)) out)
      (ground (arith, hex_digit_range (n % 16)), h)

text_length-hex_digits :
    (count n : ℕ) (out : String) → text_length (hex_digits count n out) ≡ count + text_length out
unfolding hex_digits text_length
text_length-hex_digits zero n out = omega arith
text_length-hex_digits (suc count) n out =
    omega (arith, text_length-hex_digits count (n / 16) (String.◌∷◌ (hex_digit (n % 16)) out))

parse_hex_eight : (s : String) → text_length s ≡ 8 → parse_hex s ≡ hex_from 0 s
unfolding parse_hex
parse_hex_eight s e = rw e

-- The 8-digit field of a checksum is read back to its value.
pub parse_hex-to_hex : (v : ℕ) → parse_hex (to_hex v) ≡ some (v % 2 ^ 32)
unfolding to_hex hex_from text_length
parse_hex-to_hex v =
    parse_hex_eight (hex_digits 8 (v % 2 ^ 32) "") (text_length-hex_digits 8 (v % 2 ^ 32) "")
    ∙ hex_from-hex_digits 8 (v % 2 ^ 32) 0 "" (omega arith)
    ∙ hex_from_end (0 * 16 ^ 8 + v % 2 ^ 32) (v % 2 ^ 32) (omega arith)
  where
    hex_from_end : (a b : ℕ) → a ≡ b → hex_from a "" ≡ some b
    hex_from_end a b e = ap some e

pub upper-to_hex : (v : ℕ) → upper (to_hex v) ≡ to_hex v
unfolding to_hex
upper-to_hex v = upper-hex_digits 8 (v % 2 ^ 32) "" (unfold upper in refl)

IsWord-of : (s : String) → HasNoSpace s → text_length s ≡ 8 → IsWord s
unfolding text_length
IsWord-of String.[] h e = absurd (omega arith)
IsWord-of (String.◌∷◌ c s) h e = h

pub IsWord-to_hex : (v : ℕ) → IsWord (to_hex v)
unfolding to_hex text_length
IsWord-to_hex v =
    IsWord-of (hex_digits 8 (v % 2 ^ 32) "") (HasNoSpace-hex_digits 8 (v % 2 ^ 32) "" tt)
      (text_length-hex_digits 8 (v % 2 ^ 32) "")
