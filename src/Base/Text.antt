-- ===== src/Base/Text.antt =====
-- Python's text operations on control lines: `split`, `isdecimal`, `int`, `str` and f-strings.
-- A line is ASCII, so the decimal characters are the ten digits.
use Prim.Native.Nat.{ℕ, zero, suc, ◌+◌, ◌-◌, ◌*◌, ◌/◌, ◌%◌}
use Prim.Native.Char.{Char, code}
use Prim.Native.String
use Prim.Native.String.{String, char_at}
use mathlib.Core.Bool.{Bool, true, false, ◌&&◌, ◌||◌}
use mathlib.Core.List.{List, [], ◌∷◌}
use mathlib.Core.Path.{◌≡◌, refl}
use pcutp.Base.Tests.{leb, ◌==◌, if◌then◌else◌}

-- the white space of ASCII, as `str.split()` has it
unfoldable pub is_space : Char → Bool
is_space c = code c == 32 || leb 9 (code c) && leb (code c) 13 || leb 28 (code c) && leb (code c) 31

-- a word that is empty is no word
unfoldable pub add_word : String → List String → List String
add_word String.[] ws = ws
add_word (String.◌∷◌ c s) ws = String.◌∷◌ c s ∷ ws

-- the word that the text begins with, and the words behind it
unfoldable pub cut_word : String → String × List String
unfolding is_space add_word
cut_word String.[] = (String.[], [])
cut_word (String.◌∷◌ c s) =
    let (w, ws) = cut_word s in
    if is_space c then (String.[], add_word w ws) else (String.◌∷◌ c w, ws)

-- `line.split()`
unfoldable pub split : String → List String
unfolding cut_word add_word
split s = let (w, ws) = cut_word s in add_word w ws

unfoldable pub is_digit : Char → Bool
is_digit c = leb 48 (code c) && leb (code c) 57

unfoldable pub all_digits : String → Bool
unfolding is_digit
all_digits String.[] = true
all_digits (String.◌∷◌ c s) = is_digit c && all_digits s

-- `s.isdecimal()`
unfoldable pub is_decimal : String → Bool
unfolding all_digits
is_decimal String.[] = false
is_decimal (String.◌∷◌ c s) = all_digits (String.◌∷◌ c s)

unfoldable pub int_from : ℕ → String → ℕ
int_from n String.[] = n
int_from n (String.◌∷◌ c s) = int_from (n * 10 + (code c - 48)) s

-- `int(s)` on a text that `is_decimal` accepts
unfoldable pub int : String → ℕ
unfolding int_from
int s = int_from 0 s

unfoldable pub digit : ℕ → Char
digit d = char_at "0123456789" d

-- the digits of `n` in front of `out`; `n` has at most `fuel` of them
unfoldable pub digits : ℕ → ℕ → String → String
unfolding digit
digits zero n out = out
digits (suc fuel) n out =
    let more = digits fuel (n / 10) (String.◌∷◌ (digit (n % 10)) out) in
    if n == 0 then out else more

-- `str(n)`
unfoldable pub str : ℕ → String
unfolding digits
str n = if n == 0 then "0" else digits n n ""

infixr 65 ◌<+>◌
-- the concatenation of an f-string
unfoldable pub ◌<+>◌ : String → String → String
s <+> t = String.◌++◌ s t

-- tokens with one blank between them
unfoldable pub join_from : String → List String → String
unfolding ◌<+>◌
join_from w [] = w
join_from w (v ∷ vs) = w <+> " " <+> join_from v vs

unfoldable pub unwords : List String → String
unfolding join_from
unwords [] = ""
unwords (w ∷ ws) = join_from w ws

-- a letter of the lower case has its capital 32 places before it
unfoldable pub upper_char : Char → Char
upper_char c =
    if leb 97 (code c) && leb (code c) 122
    then char_at "ABCDEFGHIJKLMNOPQRSTUVWXYZ" (code c - 97)
    else c

-- `text.upper()`
unfoldable pub upper : String → String
unfolding upper_char
upper String.[] = String.[]
upper (String.◌∷◌ c s) = String.◌∷◌ (upper_char c) (upper s)

-- `parts[i]`, for an index that is in range
unfoldable pub part : List String → ℕ → String
part [] i = ""
part (w ∷ ws) zero = w
part (w ∷ ws) (suc i) = part ws i

split_line : split " ACK  12\r" ≡ "ACK" ∷ "12" ∷ []
unfolding split
split_line = refl

str-int : int (str 10203) ≡ 10203
unfolding int str
str-int = refl

joined : unwords ("ACK" ∷ str 40 ∷ []) ≡ "ACK 40"
unfolding unwords str
joined = refl
