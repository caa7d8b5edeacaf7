-- ===== src/Flow/Cheapest.antt =====
-- The block size that `choose_block` of src/pcutp/flow.py takes.
use Prim.Native.Nat.{min, max}
use pcutp.Base.{ℕ, ◌-◌, ◌*◌, ◌≤◌, ◌<◌, List, [], ◌∷◌}
use pcutp.Flow.{ceil_div}

-- Every element of a list has the property.
abbrev pub All : (ℕ → Type 0) → List ℕ → Type 0
All P [] = Unit
All P (n ∷ ns) = P n × All P ns

-- in increasing order
abbrev Increases : List ℕ → Type 0
Increases [] = Unit
Increases (n ∷ ns) = All (λ m. n ≤ m) ns × Increases ns

-- `best` costs less than a smaller size, and no more than a larger one
abbrev Beats : (ℕ → ℕ) → ℕ → ℕ → Type 0
Beats cost best n = (n < best → cost best < cost n) × (cost best ≤ cost n)

-- the number of blocks of a file, and the time of the last one, in the units of the source's fit
abbrev pub block_count : ℕ → ℕ → ℕ
block_count size n = max 1 (ceil_div size n)

abbrev pub tail_time : ℕ → ℕ → ℕ → ℕ
tail_time size baud n = min size n * 40 * baud

-- Against a smaller size there are fewer blocks; against a larger one, the time that its fewer
-- blocks would save is no more than its longer tail would cost.
abbrev pub Trades : ℕ → ℕ → ℕ → ℕ → Type 0
Trades size baud best n =
    (n < best → block_count size best < block_count size n)
    × (best < n
        → (block_count size best - block_count size n) * 180 * 1000000
          ≤ tail_time size baud n - tail_time size baud best)
