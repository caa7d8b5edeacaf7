-- ===== src/Names.antt =====
-- src/pcutp/names.py. Texts are sequences of characters; `_ALLOWED.match` is `is_allowed`.
pub mod Safe
use Prim.Native.Char.{Char, code}
use text.Mathlib.Text.{◌==◌ as str_eq}
use pcutp.Base.{
  ℕ, suc, ◌≡◌, refl, Bool, true, false, ◌&&◌, ◌||◌, Option, none, some, String, ltb, leb, ◌==◌,
  if◌then◌else◌,
}
use pcutp.Errors.{Kind, Result, ok, err, make, raise}

-- `len(text)`
unfoldable pub text_length : String → ℕ
text_length String.[] = 0
text_length (String.◌∷◌ c s) = suc (text_length s)

-- the slash and, after `replace`, the backslash
unfoldable pub is_separator : Char → Bool
is_separator c = code c == 47 || code c == 92

-- what stands behind the last separator, if there is one
unfoldable pub after_separator : String → Option String
unfolding is_separator
after_separator String.[] = none
after_separator (String.◌∷◌ c s) = elim (after_separator s) [
  | some t ↦ some t
  | none ↦ if is_separator c then some s else none
]

-- `name.replace("\\", "/").split("/")[-1]`
unfoldable pub base_name : String → String
unfolding after_separator
base_name name = elim (after_separator name) [ none ↦ name | some t ↦ t ]

-- `[A-Za-z0-9._-]`
unfoldable pub is_name_char : Char → Bool
is_name_char c =
    leb 65 (code c) && leb (code c) 90
    || (leb 97 (code c) && leb (code c) 122
        || (leb 48 (code c) && leb (code c) 57 || (code c == 46 || (code c == 95 || code c == 45))))

-- `[A-Za-z0-9._-]*$`: the pattern's `$` also matches before a newline that ends the text
unfoldable pub is_name_tail : String → Bool
unfolding is_name_char
is_name_tail String.[] = true
is_name_tail (String.◌∷◌ c String.[]) = is_name_char c || code c == 10
is_name_tail (String.◌∷◌ c s) = is_name_char c && is_name_tail s

-- `_ALLOWED.match(candidate)`
unfoldable pub is_allowed : String → Bool
unfolding is_name_char is_name_tail
is_allowed String.[] = false
is_allowed (String.◌∷◌ c s) = is_name_char c && is_name_tail s

abbrev pub max_filename_len : ℕ
max_filename_len = 64

unfoldable pub sanitize_filename : String → Result String
unfolding base_name text_length is_allowed
sanitize_filename name =
    let candidate = base_name name in
    if str_eq name ""
    then raise Kind.file
    else if str_eq candidate "" || (str_eq candidate "." || str_eq candidate "..")
    then raise Kind.file
    else if ltb max_filename_len (text_length candidate)
    then raise Kind.file
    else if is_allowed candidate
    then ok candidate
    else raise Kind.file

refused : sanitize_filename "a/.." ≡ err (make Kind.file)
unfolding sanitize_filename raise
refused = refl

newline_passes : sanitize_filename "notes\n" ≡ ok "notes\n"
unfolding sanitize_filename
newline_passes = refl
