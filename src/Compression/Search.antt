-- ===== src/Compression/Search.antt =====
-- The matches that the encoder finds are repetitions in its input.
use pcutp.Base.{
  ℕ, zero, suc, ◌+◌, ◌-◌, ◌≤◌, ◌<◌, ◌≡◌, refl, sym, ap, ◌∙◌, true, some, [], ◌∷◌, ◌++◌, arith, inl,
  inr, Bool-cases, Option-cases, Bytes, length, get_elem?, drop,
}
use pcutp.Base.Slices.{slice, take-suc, get_elem?-drop}
use pcutp.Compression.Encoder.{Table, byte_at, bytes_equal, lookup, match_length, find_match}

bytes_equal→eq : (xs ys : Bytes) → bytes_equal xs ys ≡ true → xs ≡ ys
unfolding bytes_equal
bytes_equal→eq [] [] h = refl
bytes_equal→eq [] (y ∷ ys) h = cc
bytes_equal→eq (x ∷ xs) [] h = cc
bytes_equal→eq (x ∷ xs) (y ∷ ys) h = ground (arith, bytes_equal→eq xs ys)

get_elem?-byte_at : (xs : Bytes) (i : ℕ) → i < length xs → get_elem? xs i ≡ some (byte_at xs i)
unfolding byte_at
get_elem?-byte_at [] i h = elim h [ ]
get_elem?-byte_at (x ∷ xs) zero h = refl
get_elem?-byte_at (x ∷ xs) (suc i) h = get_elem?-byte_at xs i (omega arith)

-- Every entry of the table is a key of four bytes that stands before `pos`.
abbrev pub IsSound : Bytes → ℕ → Table → Type 0
IsSound xs pos [] = Unit
IsSound xs pos ((k, p) ∷ table) = (k ≡ slice p 4 xs) × (p < pos) × IsSound xs pos table

pub IsSound-mono :
    (xs : Bytes) (pos pos' : ℕ) (table : Table)
    → pos ≤ pos'
    → IsSound xs pos table
    → IsSound xs pos' table
IsSound-mono xs pos pos' [] le h = tt
IsSound-mono xs pos pos' ((k, p) ∷ table) le (e, lt, h) =
    (e, omega arith, IsSound-mono xs pos pos' table le h)

lookup_sound :
    (xs key : Bytes) (pos p : ℕ) (table : Table)
    → IsSound xs pos table
    → lookup key table ≡ some p
    → (key ≡ slice p 4 xs) × (p < pos)
unfolding lookup
lookup_sound xs key pos p [] h e = cc
lookup_sound xs key pos p ((k, q) ∷ table) (same, lt, h) e = elim (Bool-cases (bytes_equal k key)) [
  | inl hit ↦
      let here : some q ≡ some p = rw hit at e in
      let k-eq : k ≡ key = bytes_equal→eq k key hit in (ground arith, ground arith)
  | inr miss ↦ lookup_sound xs key pos p table h (rw miss at e)
]

module _ (xs : Bytes) (previous pos : ℕ) (back : previous < pos) where
  -- a round of the inner loop: two slices that agree, and agree in one more byte
  agree_suc :
      (count : ℕ)
      → pos + count < length xs
      → byte_at xs (previous + count) ≡ byte_at xs (pos + count)
      → slice pos count xs ≡ slice previous count xs
      → slice pos (count + 1) xs ≡ slice previous (count + 1) xs
  agree_suc count fits same h =
      take-suc count (byte_at xs (pos + count)) (drop pos xs)
        (get_elem?-drop pos count xs ∙ get_elem?-byte_at xs (pos + count) fits)
      ∙ ap (λ r. r ++ byte_at xs (pos + count) ∷ []) h
      ∙ ap (λ b. slice previous count xs ++ b ∷ []) (sym same)
      ∙ sym (
          take-suc count (byte_at xs (previous + count)) (drop previous xs) (
            get_elem?-drop previous count xs
            ∙ get_elem?-byte_at xs (previous + count) (omega arith)))

  match_length_sound :
      (fuel count : ℕ)
      → pos + count ≤ length xs
      → slice pos count xs ≡ slice previous count xs
      → let n = match_length fuel xs previous pos count in
        (pos + n ≤ length xs) × (slice pos n xs ≡ slice previous n xs)
  unfolding match_length
  match_length_sound zero count fits h = (fits, h)
  match_length_sound (suc fuel) count fits h =
      ground (arith, agree_suc count, match_length_sound fuel (count + 1))

-- What `find_match` finds can be written as a sequence, and repeats what stands before.
pub record IsMatch (xs : Bytes) (pos previous count : ℕ) : Type 0 where
  pub back : previous < pos
  pub near : pos - previous ≤ 65535
  pub long : 12 ≤ count
  pub fits : pos + count ≤ length xs
  pub same : slice pos count xs ≡ slice previous count xs

pub find_match_sound :
    (xs : Bytes) (table : Table) (pos previous count : ℕ)
    → IsSound xs pos table
    → pos + 12 ≤ length xs
    → find_match xs table pos ≡ some (previous, count)
    → IsMatch xs pos previous count
unfolding find_match
find_match_sound xs table pos previous count sound room e =
    elim (Option-cases (lookup (slice pos 4 xs) table)) [
      | inl absent ↦ absurd (ground arith)
      | inr (p, found) ↦
          from_entry p found (lookup_sound xs (slice pos 4 xs) pos p table sound found)
    ]
  where
    from_entry :
        (p : ℕ)
        → lookup (slice pos 4 xs) table ≡ some p
        → (slice pos 4 xs ≡ slice p 4 xs) × (p < pos)
        → IsMatch xs pos previous count
    from_entry p found (key, back) =
        ground (arith, match_length_sound xs p pos back (length xs) 4 (omega arith) key)
