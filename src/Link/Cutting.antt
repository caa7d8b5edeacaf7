-- ===== src/Link/Cutting.antt =====
-- However the bytes of src/pcutp/link.py are cut into reads, a line comes out whole.
use pcutp.Base.{
  ℕ, zero, suc, ◌≤◌, ◌<◌, ◌≡◌, ◌≢◌, refl, sym, ap, ◌∙◌, none, some, List, [], ◌∷◌, ◌++◌, arith,
  append_assoc, Bytes, length, take, drop, ltb, leb, false, Bool-cases, Option-cases, inl, inr,
  take-append-drop, length-drop,
}
use pcutp.Link.Stream.{
  Port, fetch, if_more, find_line, lstrip, add_kept, rstrip, clean, Cut, line, late, cut_line,
  weight, max_line_len,
}

-- printing characters
abbrev pub IsPlain : Bytes → Type 0
IsPlain [] = Unit
IsPlain (x ∷ xs) = (32 ≤ x) × IsPlain xs

unfoldable pub concat : List Bytes → Bytes
concat [] = []
concat (c ∷ cs) = c ++ concat cs

-- all that is still to read
unfoldable pub stream : Port → Bytes
unfolding concat
stream p = p.buf ++ concat p.bursts

lstrip-plain : (b : ℕ) (xs : Bytes) → b < 32 → IsPlain xs → lstrip b xs ≡ xs
unfolding lstrip
lstrip-plain b [] lt h = refl
lstrip-plain b (x ∷ xs) lt h = ground (arith, h.0)

rstrip-plain : (b : ℕ) (xs : Bytes) → b < 32 → IsPlain xs → rstrip b xs ≡ xs
unfolding rstrip
rstrip-plain b [] lt h = refl
rstrip-plain b (x ∷ xs) lt h = rw (rstrip-plain b xs lt h.1) (kept xs)
  where
    kept : (ys : Bytes) → add_kept b x ys ≡ x ∷ ys
    kept [] = unfold add_kept in ground (arith, h.0)
    kept (y ∷ ys) = unfold add_kept in refl

clean-plain : (xs : Bytes) → IsPlain xs → clean xs ≡ xs
unfolding clean
clean-plain xs h =
    rw (lstrip-plain 0 xs (omega arith) h, lstrip-plain 13 xs (omega arith) h)
      (rstrip-plain 13 xs (omega arith) h)

-- the line that is found is the line that was written
find_line-some :
    (xs l r cs text rest : Bytes)
    → find_line xs ≡ some (l, r)
    → IsPlain text
    → xs ++ cs ≡ text ++ 10 ∷ rest
    → (l ≡ text) × (r ++ cs ≡ rest)
unfolding find_line
find_line-some [] l r cs text rest found plain e = ground arith
find_line-some (x ∷ xs) l r cs [] rest found plain e = ground arith
find_line-some (x ∷ xs) l r cs (y ∷ text) rest found plain e = elim (Option-cases (find_line xs)) [
  | inl nothing ↦ ground (arith, plain.0)
  | inr ((l', r'), deeper) ↦
      ground (arith, plain.0, find_line-some xs l' r' cs text rest deeper plain.1)
]

find_line-none :
    (xs cs text rest : Bytes)
    → find_line xs ≡ none
    → xs ++ cs ≡ text ++ 10 ∷ rest
    → (length xs ≤ length text) × (cs ≢ [])
unfolding find_line
find_line-none [] cs text rest found e = (omega arith, λ none_left. ends text (sym none_left ∙ e))
  where
    ends : (text : Bytes) → [] ≡ text ++ 10 ∷ rest → ⊥
    ends [] h = ground arith
    ends (y ∷ ys) h = ground arith
find_line-none (x ∷ xs) cs [] rest found e = ground arith
find_line-none (x ∷ xs) cs (y ∷ text) rest found e = elim (Option-cases (find_line xs)) [
  | inl nothing ↦ ground (arith, find_line-none xs cs text rest nothing)
  | inr ((l', r'), deeper) ↦ ground arith
]

abbrev pub port : Bytes → List Bytes → Port
port buf bursts = record { buf = buf; bursts = bursts }

pub stream-fetch :
    (n : ℕ) (buf : Bytes) (bursts : List Bytes)
    → stream (fetch n (port buf bursts)) ≡ buf ++ concat bursts
unfolding fetch stream
stream-fetch n buf [] = refl
stream-fetch n buf (c ∷ cs) = elim (Bool-cases (leb (length c) n)) [
  | inl whole ↦ rw whole (append_assoc buf c (concat cs))
  | inr part ↦ rw part (
      append_assoc buf (take n c) (drop n c ++ concat cs)
      ∙ ap (λ l. buf ++ l)
          (sym (append_assoc (take n c) (drop n c) (concat cs))
            ∙ ap (λ l. l ++ concat cs) (take-append-drop n c)))
]

pub weight-fetch :
    (n : ℕ) (buf c : Bytes) (cs : List Bytes)
    → 1 ≤ n
    → weight (fetch n (port buf (c ∷ cs))).bursts < weight (c ∷ cs)
unfolding fetch weight
weight-fetch n buf c cs some_asked = elim (Bool-cases (leb (length c) n)) [
  | inl whole ↦ rw whole (omega arith)
  | inr part ↦ rw part (ground (arith, length-drop n c))
]

-- The line is read, and what stood behind it is left.
abbrev pub Reads : Bytes → Bytes → Cut × Port → Type 0
Reads text rest (cut, p) = (cut ≡ line text) × (stream p ≡ rest)

abbrev pub Cuts : ℕ → Bytes → Bytes → Type 0
Cuts fuel text rest =
    (buf : Bytes) (bursts : List Bytes)
    → buf ++ concat bursts ≡ text ++ 10 ∷ rest
    → weight bursts < fuel
    → Reads text rest (cut_line fuel (port buf bursts))

cut_more :
    (fuel : ℕ) (buf : Bytes) (bursts : List Bytes) (text rest : Bytes)
    → Cuts fuel text rest
    → buf ++ concat bursts ≡ text ++ 10 ∷ rest
    → concat bursts ≢ []
    → weight bursts < suc fuel
    → Reads text rest
        (if_more bursts (late, port buf bursts) (cut_line fuel (fetch 64 (port buf bursts))))
unfolding stream if_more
cut_more fuel buf [] text rest cuts e some_left lt = absurd (some_left (unfold concat in refl))
cut_more fuel buf (c ∷ cs) text rest cuts e some_left lt =
    cuts (fetch 64 (port buf (c ∷ cs))).buf (fetch 64 (port buf (c ∷ cs))).bursts
      (stream-fetch 64 buf (c ∷ cs) ∙ e) (omega (arith, lt, weight-fetch 64 buf c cs (omega arith)))

pub cut_line-Reads :
    (fuel : ℕ) (text rest : Bytes) → IsPlain text → length text ≤ 512 → Cuts fuel text rest
unfolding cut_line stream
cut_line-Reads zero text rest plain short buf bursts e lt = absurd (omega (arith, lt))
cut_line-Reads (suc fuel) text rest plain short buf bursts e lt =
    elim (Option-cases (find_line buf)) [
      | inl nothing ↦
          let behind = find_line-none buf (concat bursts) text rest nothing e in
          let fits : ltb max_line_len (length buf) ≡ false = ground (arith, behind.0) in
          rw (nothing, fits)
            (cut_more fuel buf bursts text rest (cut_line-Reads fuel text rest plain short) e
              behind.1 lt)
      | inr ((l, r), found) ↦
          let same = find_line-some buf l r (concat bursts) text rest found plain e in
          rw found (ap (λ t. line (clean t)) same.0 ∙ ap line (clean-plain text plain), same.1)
    ]
