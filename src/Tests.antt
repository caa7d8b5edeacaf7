-- ===== src/Tests.antt =====
-- Runs of the model at concrete inputs, and examples of the theorems. `sum_crc` stands for
-- `zlib.crc32`: a running sum, which has the documented properties of a running checksum.
mod Compressions
mod Downloads
mod Choices
mod Sessions
mod Transfers
mod Wires
mod Sounds
use native.Mathlib.Nat.{mod-lt, mod-eq_of_lt}
use pcutp.Base.{ℕ, ◌+◌, ◌%◌, ◌^◌, ◌<◌, ◌≡◌, refl, [], ◌∷◌, ◌++◌, arith, Bytes}
use pcutp.Crc.{IsRunning}

abbrev pub sum_crc : Bytes → ℕ → ℕ
sum_crc [] seed = seed
sum_crc (x ∷ xs) seed = sum_crc xs ((seed + x) % 2 ^ 32)

sum_crc-bound : (xs : Bytes) (seed : ℕ) → seed < 2 ^ 32 → sum_crc xs seed < 2 ^ 32
sum_crc-bound [] seed h = h
sum_crc-bound (x ∷ xs) seed h =
    sum_crc-bound xs ((seed + x) % 2 ^ 32) (mod-lt (seed + x) (omega arith))

sum_crc-append : (xs ys : Bytes) (seed : ℕ) → sum_crc (xs ++ ys) seed ≡ sum_crc ys (sum_crc xs seed)
sum_crc-append [] ys seed = refl
sum_crc-append (x ∷ xs) ys seed = sum_crc-append xs ys ((seed + x) % 2 ^ 32)

pub sum_crc-IsRunning : IsRunning sum_crc
sum_crc-IsRunning = record {
  in_range = sum_crc-bound;
  at_nil = λ seed. refl;
  at_append = sum_crc-append;
}
