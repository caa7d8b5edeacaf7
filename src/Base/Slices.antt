-- ===== src/Base/Slices.antt =====
-- Python's slices `data[a:a + n]` as `slice a n data`, and how they join, split and extend.
use Prim.Native.Nat.{ℕ, zero, suc, ◌+◌, ◌-◌, ◌≤◌, min}
use Prim.Native.Nat.add
use mathlib.Core.Path.{◌≡◌, refl, ap}
use mathlib.Core.List.{List, [], ◌∷◌, ◌++◌}
use mathlib.Core.Option.{some}
use native.Mathlib.Omega.{arith}
use native.Mathlib.Numerals.{unary_clauses}
use pcutp.Base.Lists.{length, get_elem?, take, drop}

module _ {ℓ} {A : Type ℓ} where
  abbrev pub slice : ℕ → ℕ → List A → List A
  slice a n xs = take n (drop a xs)

  pub drop-nil : (n : ℕ) → drop {A = A} n [] ≡ []
  drop-nil zero = refl
  drop-nil (suc n) = refl

  pub drop-drop : (a b : ℕ) (xs : List A) → drop b (drop a xs) ≡ drop (a + b) xs
  drop-drop zero b xs = rw add.zero
  drop-drop (suc a) b [] = rw (add.suc, drop-nil)
  drop-drop (suc a) b (x ∷ xs) = rw add.suc (drop-drop a b xs)

  pub take-add : (n m : ℕ) (xs : List A) → take (n + m) xs ≡ take n xs ++ take m (drop n xs)
  take-add zero m xs = rw add.zero
  take-add (suc n) zero [] = rw add.suc
  take-add (suc n) (suc m) [] = rw add.suc
  take-add (suc n) m (x ∷ xs) = rw add.suc (ap (λ r. x ∷ r) (take-add n m xs))

  pub take-take : (n m : ℕ) (xs : List A) → n ≤ m → take n (take m xs) ≡ take n xs
  take-take zero m xs h = refl
  take-take (suc n) zero xs h = absurd (omega arith)
  take-take (suc n) (suc m) [] h = refl
  take-take (suc n) (suc m) (x ∷ xs) h = ap (λ r. x ∷ r) (take-take n m xs (omega arith))

  pub take-min : (n m : ℕ) (xs : List A) → take n (take m xs) ≡ take (min n m) xs
  take-min zero m xs = ap (λ k. take k xs) {x = 0} (omega arith)
  take-min (suc n) zero xs = ap (λ k. take k xs) {x = 0} (omega arith)
  take-min (suc n) (suc m) [] = simp unary_clauses
  take-min (suc n) (suc m) (x ∷ xs) = simp unary_clauses (ap (λ r. x ∷ r) (take-min n m xs))

  pub drop-take : (n m : ℕ) (xs : List A) → drop n (take (n + m) xs) ≡ take m (drop n xs)
  drop-take zero m xs = rw add.zero
  drop-take (suc n) zero [] = rw add.suc
  drop-take (suc n) (suc m) [] = rw add.suc
  drop-take (suc n) m (x ∷ xs) = rw add.suc (drop-take n m xs)

  pub take_all : (n : ℕ) (xs : List A) → length xs ≤ n → take n xs ≡ xs
  take_all zero [] h = refl
  take_all zero (x ∷ xs) h = absurd (omega arith)
  take_all (suc n) [] h = refl
  take_all (suc n) (x ∷ xs) h = ap (λ r. x ∷ r) (take_all n xs (omega arith))

  pub drop_all : (n : ℕ) (xs : List A) → length xs ≤ n → drop n xs ≡ []
  drop_all zero [] h = refl
  drop_all zero (x ∷ xs) h = absurd (omega arith)
  drop_all (suc n) [] h = refl
  drop_all (suc n) (x ∷ xs) h = drop_all n xs (omega arith)

  -- a slice of a prefix that reaches far enough
  pub slice-take : (a n p : ℕ) (xs : List A) → a + n ≤ p → slice a n (take p xs) ≡ slice a n xs
  slice-take a n p xs h =
      let e : p ≡ a + (p - a) = omega arith in
      let k : n ≤ p - a = omega arith in
      rw (e, drop-take a (p - a) xs) (take-take n (p - a) (drop a xs) k)

  -- one more element at the end of a slice
  pub take-suc :
      (n : ℕ) (x : A) (xs : List A)
      → get_elem? xs n ≡ some x
      → take (n + 1) xs ≡ take n xs ++ x ∷ []
  take-suc n x [] h = cc
  take-suc zero x (y ∷ xs) h = cc
  take-suc (suc n) x (y ∷ xs) h = rw add.suc (ap (λ r. y ∷ r) (take-suc n x xs h))

  pub get_elem?-drop : (a n : ℕ) (xs : List A) → get_elem? (drop a xs) n ≡ get_elem? xs (a + n)
  get_elem?-drop zero n xs = rw add.zero
  get_elem?-drop (suc a) n [] = refl
  get_elem?-drop (suc a) n (x ∷ xs) = rw add.suc (get_elem?-drop a n xs)

  -- a prefix of known length, and what is behind it
  pub take-append_left : (n : ℕ) (xs ys : List A) → length xs ≡ n → take n (xs ++ ys) ≡ xs
  take-append_left zero [] ys h = refl
  take-append_left zero (x ∷ xs) ys h = absurd (omega arith)
  take-append_left (suc n) [] ys h = absurd (omega arith)
  take-append_left (suc n) (x ∷ xs) ys h = ap (λ r. x ∷ r) (take-append_left n xs ys (omega arith))

  pub drop-append_left : (n : ℕ) (xs ys : List A) → length xs ≡ n → drop n (xs ++ ys) ≡ ys
  drop-append_left zero [] ys h = refl
  drop-append_left zero (x ∷ xs) ys h = absurd (omega arith)
  drop-append_left (suc n) [] ys h = absurd (omega arith)
  drop-append_left (suc n) (x ∷ xs) ys h = drop-append_left n xs ys (omega arith)
