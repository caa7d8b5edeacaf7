-- ===== src/Names/Safe.antt =====
-- What `sanitize_filename` of src/pcutp/names.py lets through.
use text.Mathlib.TextEquality.{eq_iff}
use pcutp.Base.{
  ◌≤◌, ◌≡◌, ◌≢◌, refl, Bool, true, false, ◌||◌, none, some, String, arith, inl, inr, Option-cases,
}
use pcutp.Errors.{ok, raise}
use pcutp.Names.{
  text_length, is_separator, after_separator, base_name, is_allowed, sanitize_filename,
}

-- Whether a separator of paths stands in the text.
unfoldable pub has_separator : String → Bool
has_separator String.[] = false
has_separator (String.◌∷◌ c s) = is_separator c || has_separator s

has_separator-without : (name : String) → after_separator name ≡ none → has_separator name ≡ false
unfolding after_separator has_separator
has_separator-without String.[] h = refl
has_separator-without (String.◌∷◌ c s) h = elim (Option-cases (after_separator s)) [
  | inl nothing ↦ ground (arith, has_separator-without s nothing)
  | inr (t, found) ↦ ground arith
]

has_separator-after_separator :
    (name t : String) → after_separator name ≡ some t → has_separator t ≡ false
unfolding after_separator has_separator
has_separator-after_separator String.[] t h = ground arith
has_separator-after_separator (String.◌∷◌ c s) t h = elim (Option-cases (after_separator s)) [
  | inl nothing ↦ ground (arith, has_separator-without s nothing)
  | inr (u, found) ↦ ground (arith, has_separator-after_separator s u found)
]

has_separator-base_name : (name : String) → has_separator (base_name name) ≡ false
unfolding base_name
has_separator-base_name name = elim (Option-cases (after_separator name)) [
  | inl nothing ↦ ground (arith, has_separator-without name nothing)
  | inr (t, found) ↦ ground (arith, has_separator-after_separator name t found)
]

-- A name that is let through has no separator, is not empty, `.` or `..`, has at most 64
-- characters and is one that the pattern allows.
pub sanitize_filename_safe :
    (name candidate : String)
    → sanitize_filename name ≡ ok candidate
    → (has_separator candidate ≡ false)
      × (candidate ≢ "")
      × (candidate ≢ ".")
      × (candidate ≢ "..")
      × (text_length candidate ≤ 64)
      × (is_allowed candidate ≡ true)
unfolding sanitize_filename raise
sanitize_filename_safe name candidate h = ground (
  arith,
  has_separator-base_name name,
  eq_iff (base_name name) "",
  eq_iff (base_name name) ".",
  eq_iff (base_name name) "..",
)

base_name-same : (name : String) → has_separator name ≡ false → base_name name ≡ name
unfolding base_name after_separator has_separator
base_name-same name h = elim (Option-cases (after_separator name)) [
  | inl nothing ↦ ground arith
  | inr (t, found) ↦ absurd (separates name t found h)
]
  where
    separates : (s t : String) → after_separator s ≡ some t → has_separator s ≡ false → ⊥
    separates String.[] t found none_in = ground arith
    separates (String.◌∷◌ c s) t found none_in = elim (Option-cases (after_separator s)) [
      | inl nothing ↦ ground arith
      | inr (u, deeper) ↦ separates s u deeper (ground arith)
    ]

-- A name that is let through is let through once more, as it is.
pub sanitize_filename-sanitize_filename :
    (name candidate : String)
    → sanitize_filename name ≡ ok candidate
    → sanitize_filename candidate ≡ ok candidate
unfolding sanitize_filename raise
sanitize_filename-sanitize_filename name candidate h =
    let safe = sanitize_filename_safe name candidate h in
    ground (
      arith,
      safe.0,
      safe.1,
      safe.2,
      safe.3,
      safe.4,
      safe.5,
      base_name-same candidate safe.0,
      eq_iff candidate "",
      eq_iff candidate ".",
      eq_iff candidate "..",
    )
