-- ===== src/Link/Framing.antt =====
-- However the bytes of src/pcutp/link.py are cut into reads, the lines and payloads come out whole.
use pcutp.Base.{
  ℕ, zero, suc, ◌+◌, ◌-◌, ◌≤◌, ◌<◌, ◌≡◌, refl, ap, ◌∙◌, Option, none, some, List, [], ◌∷◌, ◌++◌,
  arith, append_assoc, Bytes, length, length-append, take, drop, min, leb, Bool-cases, inl, inr,
}
use pcutp.Link.Cutting.{IsPlain, concat, stream, port, stream-fetch, weight-fetch, cut_line-Reads}
use pcutp.Link.Stream.{
  Port, line_bytes, frame_bytes, fetch, if_more, line, cut_line, weight, next_line, fill_buf,
  recv_exact,
}

-- The payload is read, and what stood behind it is left.
abbrev Fills : Bytes → Bytes → Option Bytes × Port → Type 0
Fills body rest (got, p) = (got ≡ some body) × (stream p ≡ rest)

abbrev Filling : ℕ → Bytes → Bytes → Type 0
Filling fuel body rest =
    (buf : Bytes) (bursts : List Bytes)
    → buf ++ concat bursts ≡ body ++ rest
    → weight bursts < fuel
    → Fills body rest (fill_buf fuel (length body) (port buf bursts))

-- a buffer that holds the payload
prefix_of :
    (body buf cs rest : Bytes)
    → buf ++ cs ≡ body ++ rest
    → length body ≤ length buf
    → (take (length body) buf ≡ body) × (drop (length body) buf ++ cs ≡ rest)
prefix_of [] buf cs rest e le = (refl, e)
prefix_of (b ∷ body) [] cs rest e le = absurd (omega (arith, le))
prefix_of (b ∷ body) (x ∷ buf) cs rest e le = ground (arith, prefix_of body buf cs rest)

fill_more :
    (fuel n : ℕ) (buf : Bytes) (bursts : List Bytes) (body rest : Bytes)
    → Filling fuel body rest
    → 1 ≤ n
    → buf ++ concat bursts ≡ body ++ rest
    → length buf < length body
    → weight bursts < suc fuel
    → Fills body rest (
        if_more bursts
          (none, port buf bursts)
          (fill_buf fuel (length body) (fetch n (port buf bursts))))
unfolding stream concat if_more
fill_more fuel n buf [] body rest filling asked e short lt = absurd (
    omega
      (arith, short, ap (λ l. length l) e, length-append buf (concat []), length-append body rest))
fill_more fuel n buf (c ∷ cs) body rest filling asked e short lt =
    filling (fetch n (port buf (c ∷ cs))).buf (fetch n (port buf (c ∷ cs))).bursts
      (stream-fetch n buf (c ∷ cs) ∙ e) (omega (arith, lt, weight-fetch n buf c cs asked))

fill_buf-Fills : (fuel : ℕ) (body rest : Bytes) → Filling fuel body rest
unfolding fill_buf stream
fill_buf-Fills zero body rest buf bursts e lt = absurd (omega (arith, lt))
fill_buf-Fills (suc fuel) body rest buf bursts e lt =
    elim (Bool-cases (leb (length body) (length buf))) [
      | inl enough ↦
          let split = prefix_of body buf (concat bursts) rest e (ground (arith, enough)) in
          rw enough (ap some split.0, split.1)
      | inr short ↦ rw short (
          fill_more fuel (min (length body - length buf) 256) buf bursts body rest
            (fill_buf-Fills fuel body rest) (ground (arith, short)) e (ground (arith, short)) lt)
    ]

-- the line and the payload that are read one after the other
abbrev pub ReadsFrame : Bytes → Bytes → Bytes → Port → Type 0
ReadsFrame text body rest p =
    ((next_line p).0 ≡ line text)
    × ((recv_exact (length body) (next_line p).1).0 ≡ some body)
    × (stream (recv_exact (length body) (next_line p).1).1 ≡ rest)

-- However the bytes of a frame and what follows them are cut into bursts, and whatever of them the
-- buffer holds already: the receiver reads the line, of at most 512 printing characters, then the
-- payload, whatever its bytes are, and what follows is left to read.
pub frame_bytes-ReadsFrame :
    (text body rest : Bytes) (p : Port)
    → IsPlain text
    → length text ≤ 512
    → stream p ≡ frame_bytes text body ++ rest
    → ReadsFrame text body rest p
unfolding next_line recv_exact stream frame_bytes line_bytes
frame_bytes-ReadsFrame text body rest p plain short e =
    let cut =
      cut_line-Reads (weight p.bursts + 1) text (body ++ rest) plain short p.buf p.bursts
        (e ∙ append_assoc (text ++ 10 ∷ []) body rest ∙ append_assoc text (10 ∷ []) (body ++ rest))
        (omega arith) in
    let q = (cut_line (weight p.bursts + 1) p).1 in
    let fill = fill_buf-Fills (weight q.bursts + 1) body rest q.buf q.bursts cut.1 (omega arith) in
    (cut.0, fill.0, fill.1)
