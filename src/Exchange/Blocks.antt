-- ===== src/Exchange/Blocks.antt =====
-- All blocks of a file, received in order by the loop of `_receive` in src/pcutp/client.py.
use mathlib.Core.Path.{subst}
use pcutp.Base.{
  ℕ, zero, suc, ◌+◌, ◌-◌, ◌*◌, ◌≤◌, ◌<◌, ◌≡◌, ◌≢◌, refl, sym, ap, ◌∙◌, Bool, true, false, Option,
  none, some, List, [], ◌∷◌, ◌++◌, String, Bytes, length, length-take, length-drop, take, drop,
  arith, append_assoc, append-nil, min,
}
use pcutp.Base.Slices.{slice}
use pcutp.Base.Text.{unwords, str}
use pcutp.Crc.{IsRunning}
use pcutp.Compression.Worthwhile.{worthwhile, worthwhile_sound}
use pcutp.Client.Header.{Client, Block}
use pcutp.Client.Receive.{Meta, Receiver, Round, continue, send, write_rmb, store, take_round, run}
use pcutp.Client.Consistency.{IsConsistent, take_round-IsConsistent}
use pcutp.Client.Prefix.{HoldsPrefix, prefix_grows}
use pcutp.Exchange.Frames.{block_by, packed_of, frame_of, frames}
use pcutp.Exchange.Receives.{round_of, rounds_of, ack_lines, IsPackedBy, take_round-next}

IsPackedBy-packed_of :
    (packing : Bool) (baud blocksize : ℕ) (chunk : Bytes)
    → length chunk ≤ blocksize
    → blocksize ≤ 4096
    → IsPackedBy blocksize chunk (packed_of packing baud chunk)
IsPackedBy-packed_of false baud blocksize chunk fits small = tt
IsPackedBy-packed_of true baud blocksize chunk fits small = of (worthwhile chunk baud) refl
  where
    of : (o : Option Bytes) → worthwhile chunk baud ≡ o → IsPackedBy blocksize chunk o
    of none e = tt
    of (some packed) e =
        let w = worthwhile_sound chunk packed baud (omega (arith, fits, small)) e in
        (omega (arith, w.1, fits), w.2)

packed_of-on :
    (packing : Bool) (baud : ℕ) (chunk : Bytes)
    → packed_of packing baud chunk ≢ none
    → packing ≡ true
packed_of-on false baud chunk h = absurd (h refl)
packed_of-on true baud chunk h = refl

length-slice : (a n : ℕ) (xs : Bytes) → length (slice a n xs) ≡ min n (length xs - a)
length-slice a n xs = ground (arith, length-take n (drop a xs), length-drop a xs)

module _ (zlib_crc32 : Bytes → ℕ → ℕ) (c : Client) (m : Meta) where
  store-fields :
      (b : Block) (payload : Bytes) (r : Receiver)
      → ((store zlib_crc32 c m b payload r).expected ≡ r.expected + 1)
        × ((store zlib_crc32 c m b payload r).handle ≡ r.handle ++ payload)
        × ((store zlib_crc32 c m b payload r).sent
            ≡ r.sent ++ unwords ("ACK" ∷ str b.seq ∷ []) ∷ [])
  unfolding store send write_rmb
  store-fields b payload r = ground arith

  block_by-seq :
      (seq : ℕ) (chunk : Bytes) (packed : Option Bytes)
      → (block_by zlib_crc32 seq chunk packed).seq ≡ seq
  block_by-seq seq chunk none = refl
  block_by-seq seq chunk (some packed) = refl

module _ (zlib_crc32 : Bytes → ℕ → ℕ) (law : IsRunning zlib_crc32) (c : Client) (m : Meta)
    (input : Bytes) (packing : Bool) (baud : ℕ) where
  -- the receiver behind the blocks before `seq`
  pub record InOrder (seq : ℕ) (sent : List String) (r : Receiver) : Type 0 where
    pub consistent : IsConsistent zlib_crc32 m r
    pub next : r.expected ≡ seq
    pub holds : HoldsPrefix zlib_crc32 c m input r
    pub told : r.sent ≡ sent

  abbrev chunk_at : ℕ → Bytes
  chunk_at seq = slice (seq * m.blocksize) m.blocksize input

  -- the receiver behind a block
  abbrev stored : ℕ → Receiver → Receiver
  stored seq r =
      store zlib_crc32 c m
        (block_by zlib_crc32 seq (chunk_at seq) (packed_of packing baud (chunk_at seq)))
        (chunk_at seq) r

  abbrev round_at : ℕ → Round
  round_at seq = round_of (frame_of zlib_crc32 packing baud m.blocksize input seq)

  take_round-stored :
      (seq : ℕ) (sent : List String) (r : Receiver)
      → m.size ≡ length input
      → m.blocksize ≤ 4096
      → (packing ≡ true → c.compression ≡ true)
      → seq < m.blocks
      → InOrder seq sent r
      → take_round zlib_crc32 c m (round_at seq) r ≡ continue (stored seq r)
  unfolding frame_of
  take_round-stored seq sent r size small on room h =
      take_round-next zlib_crc32 c m seq (chunk_at seq) (packed_of packing baud (chunk_at seq)) r
        h.consistent h.next room
        (ground
          (arith, length-slice (seq * m.blocksize) m.blocksize input, h.consistent.counted, h.next))
        (IsPackedBy-packed_of packing baud m.blocksize (chunk_at seq)
          (omega (arith, length-slice (seq * m.blocksize) m.blocksize input)) small)
        (λ e. on (packed_of-on packing baud (chunk_at seq) e))

  stored-InOrder :
      (seq : ℕ) (sent : List String) (r : Receiver)
      → m.size ≡ length input
      → m.blocksize ≤ 4096
      → (packing ≡ true → c.compression ≡ true)
      → seq < m.blocks
      → InOrder seq sent r
      → InOrder (seq + 1) (sent ++ unwords ("ACK" ∷ str seq ∷ []) ∷ []) (stored seq r)
  unfolding continue
  stored-InOrder seq sent r size small on room h = record {
    consistent =
        subst (λ t. IsConsistent zlib_crc32 m t.state)
          (take_round-stored seq sent r size small on room h)
          (take_round-IsConsistent zlib_crc32 law c m (round_at seq) r h.consistent);
    next = omega (arith, fields.0, h.next);
    holds =
        fields.1
        ∙ prefix_grows zlib_crc32 c m input seq m.blocksize r.handle (chunk_at seq)
            (subst (λ e. r.handle ≡ take (e * m.blocksize) input) h.next h.holds) refl
        ∙ ap (λ e. take (e * m.blocksize) input) (sym (fields.0 ∙ ap (λ e. e + 1) h.next));
    told =
        fields.2
        ∙ ap (λ l. l ++ unwords ("ACK" ∷ str b.seq ∷ []) ∷ []) h.told
        ∙ ap (λ e. sent ++ unwords ("ACK" ∷ str e ∷ []) ∷ [])
            (block_by-seq zlib_crc32 c m seq (chunk_at seq)
              (packed_of packing baud (chunk_at seq)));
  }
    where
      b : Block
      b = block_by zlib_crc32 seq (chunk_at seq) (packed_of packing baud (chunk_at seq))

      fields :
          ((stored seq r).expected ≡ r.expected + 1)
          × ((stored seq r).handle ≡ r.handle ++ chunk_at seq)
          × ((stored seq r).sent ≡ r.sent ++ unwords ("ACK" ∷ str b.seq ∷ []) ∷ [])
      fields = store-fields zlib_crc32 c m b (chunk_at seq) r

  -- how the blocks from `seq` to `seq + n` are received
  abbrev Continues : ℕ → ℕ → List String → List Round → Receiver → Receiver → Type 0
  Continues seq n sent rest r r' =
      (run zlib_crc32 c m
          (rounds_of (frames zlib_crc32 packing baud m.blocksize input seq n) ++ rest) r
        ≡ run zlib_crc32 c m rest r')
      × InOrder (seq + n) (sent ++ ack_lines seq n) r'

  run-again :
      (round : Round) (rounds : List Round) (r r' : Receiver)
      → take_round zlib_crc32 c m round r ≡ continue r'
      → run zlib_crc32 c m (round ∷ rounds) r ≡ run zlib_crc32 c m rounds r'
  unfolding run continue
  run-again round rounds r r' h = rw (run, h) (ap (λ t. run zlib_crc32 c m rounds t.state) h)

  pub run-blocks :
      (n seq : ℕ) (sent : List String) (rest : List Round) (r : Receiver)
      → m.size ≡ length input
      → m.blocksize ≤ 4096
      → (packing ≡ true → c.compression ≡ true)
      → seq + n ≤ m.blocks
      → InOrder seq sent r
      → (r' : Receiver) × Continues seq n sent rest r r'
  unfolding frames rounds_of ack_lines
  run-blocks zero seq sent rest r size small on room h = (
    r,
    (
      refl,
      record {
        consistent = h.consistent;
        next = omega (arith, h.next);
        holds = h.holds;
        told = h.told ∙ sym (append-nil sent);
      },
    ),
  )
  run-blocks (suc n) seq sent rest r size small on room h =
      let more =
        run-blocks n (seq + 1) sent₁ rest (stored seq r) size small on (omega (arith, room))
          (stored-InOrder seq sent r size small on (omega (arith, room)) h) in
      (
        more.0,
        (
          run-again (round_at seq) _ r (stored seq r)
                (take_round-stored seq sent r size small on (omega (arith, room)) h)
              ∙ more.1.0,
          record {
            consistent = more.1.1.consistent;
            next = omega (arith, more.1.1.next);
            holds = more.1.1.holds;
            told =
                more.1.1.told
                ∙ append_assoc sent (unwords ("ACK" ∷ str seq ∷ []) ∷ []) (ack_lines (seq + 1) n);
          },
        ),
      )
    where
      sent₁ : List String
      sent₁ = sent ++ unwords ("ACK" ∷ str seq ∷ []) ∷ []
