-- ===== src/Flow.antt =====
-- src/pcutp/flow.py. The cost of a block size is scaled by `baud * 1000000`, which makes the
-- source's two decimal fractions whole numbers; sizes are compared as exact fractions.
pub mod Cheapest
use Prim.Native.Nat.{min, max}
use Prim.Native.Char.{code}
use text.Mathlib.Text.{◌==◌ as str_eq}
use pcutp.Base.{
  ℕ, ◌+◌, ◌-◌, ◌*◌, ◌/◌, ◌≡◌, refl, Bool, true, false, ◌||◌, not, Option, none, some, List, [], ◌∷◌,
  ◌++◌, String, ltb, ◌==◌, if◌then◌else◌,
}
use pcutp.Base.Text.{is_decimal, int}
use pcutp.Errors.{Kind, Result, ok, raise}

abbrev pub max_window : ℕ
max_window = 2

abbrev pub rx_buffer : ℕ
rx_buffer = 16384

abbrev pub frame_overhead : ℕ
frame_overhead = 64

-- `-(-a // b)`
unfoldable pub ceil_div : ℕ → ℕ → ℕ
ceil_div a b = (a + (b - 1)) / b

-- the key of `min`, times `baud * 1000000`
unfoldable pub block_cost : ℕ → ℕ → ℕ → ℕ
unfolding ceil_div
block_cost size baud n = max 1 (ceil_div size n) * 180 * 1000000 + min size n * 40 * baud

-- the fixed sizes below the limit
unfoldable pub below : ℕ → List ℕ → List ℕ
below limit [] = []
below limit (n ∷ ns) = let rest = below limit ns in if ltb n limit then n ∷ rest else rest

-- the sorted set: `limit` is its greatest element
unfoldable pub candidates : ℕ → List ℕ
unfolding below
candidates limit = below limit (256 ∷ 512 ∷ 1024 ∷ 2048 ∷ 4096 ∷ []) ++ limit ∷ []

-- `min(…, key=…)`: the first of the cheapest
unfoldable pub cheapest : (ℕ → ℕ) → ℕ → List ℕ → ℕ
cheapest cost best [] = best
cheapest cost best (n ∷ ns) = cheapest cost (if ltb (cost n) (cost best) then n else best) ns

unfoldable pub cheapest_of : (ℕ → ℕ) → ℕ → List ℕ → ℕ
unfolding cheapest
cheapest_of cost limit [] = limit
cheapest_of cost limit (n ∷ ns) = cheapest cost n ns

unfoldable pub choose_block : ℕ → ℕ → ℕ → ℕ → ℕ
unfolding block_cost candidates cheapest_of
choose_block size limit window baud =
    if window == 1 then limit else cheapest_of (block_cost size baud) limit (candidates limit)

abbrev pub Capabilities : Type 0
Capabilities = List (String × ℕ)

-- `values.get(key)`
unfoldable pub get : String → Capabilities → Option ℕ
get key [] = none
get key ((k, v) ∷ values) = if str_eq k key then some v else get key values

-- `values.get(key, default)`
unfoldable pub get_or : String → ℕ → Capabilities → ℕ
unfolding get
get_or key default values = elim (get key values) [ none ↦ default | some v ↦ v ]

-- `token.partition("=")`: the key, whether there is a separator, and the value
unfoldable pub partition : String → String × Bool × String
partition String.[] = ("", false, "")
partition (String.◌∷◌ c s) =
    let (key, separator, value) = partition s in
    if code c == 61 then ("", true, s) else (String.◌∷◌ c key, separator, value)

unfoldable pub is_capability : String → Bool
is_capability key =
    str_eq key "FLOW"
    || (str_eq key "MAXBLK"
        || (str_eq key "WINDOW"
            || (str_eq key "RXBUF" || (str_eq key "LZ4" || str_eq key "IDENTITY"))))

unfoldable pub is_present : Option ℕ → Bool
is_present none = false
is_present (some v) = true

-- the loop of `options`
unfoldable pub options_from : Capabilities → List String → Result Capabilities
unfolding partition is_capability get is_present
options_from values [] = ok values
options_from values (token ∷ tokens) =
    let (key, separator, value) = partition token in
    let ignored = options_from values tokens in
    let stored = options_from ((key, int value) ∷ values) tokens in
    if not (is_capability key)
    then ignored
    else if not separator || (not (is_decimal value) || is_present (get key values))
    then raise Kind.protocol
    else if ltb (int value) 1 || ltb 1048576 (int value)
    then raise Kind.protocol
    else stored

unfoldable pub options : List String → Result Capabilities
unfolding options_from
options tokens = options_from [] tokens

offered : options ("FLOW=1" ∷ "X=y" ∷ "MAXBLK=512" ∷ []) ≡ ok (("MAXBLK", 512) ∷ ("FLOW", 1) ∷ [])
unfolding options is_decimal int
offered = refl

chosen : choose_block 131072 4096 2 115200 ≡ 2048
unfolding choose_block
chosen = refl
