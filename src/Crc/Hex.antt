-- ===== src/Crc/Hex.antt =====
-- The 8-digit hexadecimal field of src/pcutp/crc.py.
use Prim.Native.String
use Prim.Native.Char.{Char, code}
use pcutp.Base.{
  ℕ, zero, suc, ◌+◌, ◌-◌, ◌*◌, ◌/◌, ◌%◌, ◌^◌, ◌≡◌, refl, ◌&&◌, Option, none, some, String, leb,
  ◌==◌, if◌then◌else◌,
}
use pcutp.Names.{text_length}

unfoldable pub hex_digit : ℕ → Char
hex_digit d = String.char_at "0123456789ABCDEF" d

-- `n` in `count` digits of base 16, in front of `out`
unfoldable pub hex_digits : ℕ → ℕ → String → String
unfolding hex_digit
hex_digits zero n out = out
hex_digits (suc count) n out = hex_digits count (n / 16) (String.◌∷◌ (hex_digit (n % 16)) out)

-- `f"{value & 0xFFFFFFFF:08X}"`
unfoldable pub to_hex : ℕ → String
unfolding hex_digits
to_hex value = hex_digits 8 (value % 2 ^ 32) ""

-- the value of a character of "0123456789abcdefABCDEF"
unfoldable pub hex_value : Char → Option ℕ
hex_value c =
    if leb 48 (code c) && leb (code c) 57
    then some (code c - 48)
    else if leb 65 (code c) && leb (code c) 70
    then some (code c - 55)
    else if leb 97 (code c) && leb (code c) 102
    then some (code c - 87)
    else none

unfoldable pub hex_from : ℕ → String → Option ℕ
unfolding hex_value
hex_from n String.[] = some n
hex_from n (String.◌∷◌ c s) = elim (hex_value c) [ none ↦ none | some d ↦ hex_from (n * 16 + d) s ]

-- `parse_hex`; `none` is the `ValueError`
unfoldable pub parse_hex : String → Option ℕ
unfolding hex_from text_length
parse_hex text = if text_length text == 8 then hex_from 0 text else none

parsed : parse_hex (to_hex 3735928559) ≡ some 3735928559
unfolding parse_hex to_hex
parsed = refl

spelled : to_hex 48879 ≡ "0000BEEF"
unfolding to_hex
spelled = refl
