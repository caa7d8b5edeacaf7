-- ===== src/Link/Stream.antt =====
-- The bytes under the control lines of src/pcutp/link.py: how lines and payloads are written, cut
-- out of the buffer and thrown away. A line stands for its ASCII bytes. What the transport has still
-- to deliver comes in bursts, one for each read; a read may ask for less than a burst. Where the
-- bursts end, nothing more comes before the deadline.
use pcutp.Base.{
  ℕ, zero, suc, ◌+◌, ◌-◌, Option, none, some, List, [], ◌∷◌, ◌++◌, Bytes, length, take, drop, min,
  ltb, leb, ◌==◌, if◌then◌else◌,
}

-- `_buf`, and what the transport has to deliver
pub record Port : Type 0 where
  pub buf : Bytes
  pub bursts : List Bytes

-- `t.write(line.encode("ascii") + LF)`
unfoldable pub line_bytes : Bytes → Bytes
line_bytes line = line ++ 10 ∷ []

-- `t.write(line.encode("ascii") + LF + data)`
unfoldable pub frame_bytes : Bytes → Bytes → Bytes
unfolding line_bytes
frame_bytes line body = line_bytes line ++ body

-- `self._buf.extend(self.t.read(n))`
unfoldable pub fetch : ℕ → Port → Port
fetch n p = elim p.bursts [
  | [] ↦ p
  | c ∷ cs ↦
      if leb (length c) n
      then record { buf = p.buf ++ c; bursts = cs }
      else record { buf = p.buf ++ take n c; bursts = drop n c ∷ cs }
]

-- a further round, if the transport has more to deliver
unfoldable pub if_more : {A : Type 0} → List Bytes → A → A → A
if_more [] stop more = stop
if_more (c ∷ cs) stop more = more

-- what stands before and behind the first LF
unfoldable pub find_line : Bytes → Option (Bytes × Bytes)
find_line [] = none
find_line (x ∷ xs) =
    let later : Option (Bytes × Bytes) = elim (find_line xs) [
      | none ↦ none
      | some (l, r) ↦ some (x ∷ l, r)
    ] in
    if x == 10 then some ([], xs) else later

-- `lstrip` and `rstrip` of a byte
unfoldable pub lstrip : ℕ → Bytes → Bytes
lstrip b [] = []
lstrip b (x ∷ xs) = let rest = lstrip b xs in if x == b then rest else x ∷ xs

unfoldable pub add_kept : ℕ → ℕ → Bytes → Bytes
add_kept b x [] = if x == b then [] else x ∷ []
add_kept b x (y ∷ ys) = x ∷ y ∷ ys

unfoldable pub rstrip : ℕ → Bytes → Bytes
unfolding add_kept
rstrip b [] = []
rstrip b (x ∷ xs) = add_kept b x (rstrip b xs)

-- `.lstrip(b"\x00")`, and `.strip("\r")`
unfoldable pub clean : Bytes → Bytes
unfolding lstrip rstrip
clean line = rstrip 13 (lstrip 13 (lstrip 0 line))

abbrev pub max_line_len : ℕ
max_line_len = 512

-- how the wait for a line ends; `late` is a wait up to its deadline
pub data Cut : Type 0 where
  line : Bytes → Cut
  overfull : Cut
  late : Cut

unfoldable pub cut_line : ℕ → Port → Cut × Port
unfolding find_line clean fetch if_more
cut_line zero p = (late, p)
cut_line (suc fuel) p =
    let more = cut_line fuel (fetch 64 p) in
    elim (find_line p.buf) [
      | some (l, r) ↦ (line (clean l), record p { buf = r })
      | none ↦
          if ltb max_line_len (length p.buf) then (overfull, p) else if_more p.bursts (late, p) more
    ]

-- the rounds that the bursts give
unfoldable pub weight : List Bytes → ℕ
weight [] = 0
weight (c ∷ cs) = length c + 1 + weight cs

-- the lines of `recv_line`, keep-alive aside
unfoldable pub next_line : Port → Cut × Port
unfolding cut_line weight
next_line p = cut_line (weight p.bursts + 1) p

unfoldable pub fill_buf : ℕ → ℕ → Port → Option Bytes × Port
unfolding fetch if_more
fill_buf zero size p = (none, p)
fill_buf (suc fuel) size p =
    let more = fill_buf fuel size (fetch (min (size - length p.buf) 256) p) in
    if leb size (length p.buf)
    then (some (take size p.buf), record p { buf = drop size p.buf })
    else if_more p.bursts (none, p) more

-- `recv_exact`
unfoldable pub recv_exact : ℕ → Port → Option Bytes × Port
unfolding fill_buf weight
recv_exact size p = fill_buf (weight p.bursts + 1) size p

-- `discard_input`: a read of nothing ends it, before later bursts
unfoldable pub drained : ℕ → List Bytes → List Bytes
drained zero bursts = bursts
drained (suc fuel) [] = []
drained (suc fuel) ([] ∷ cs) = cs
drained (suc fuel) ((x ∷ xs) ∷ cs) =
    let next = drained fuel cs in
    let rest = drained fuel (drop 256 (x ∷ xs) ∷ cs) in
    if leb (length (x ∷ xs)) 256 then next else rest

unfoldable pub discard_input : Port → Port
unfolding drained weight
discard_input p = record { buf = []; bursts = drained (weight p.bursts + 1) p.bursts }
