-- ===== src/Exchange/Downloads.antt =====
-- `_receive` of src/pcutp/client.py, from READY to OK.
use mathlib.Core.Path.{subst}
use text.Mathlib.TextEquality.{eq_iff}
use pcutp.Base.{
  ℕ, ◌*◌, ◌≤◌, ◌≡◌, refl, sym, ap, ◌∙◌, Bool, true, Option, none, some, List, [], ◌∷◌, ◌++◌, String,
  Bytes, length, take, arith, ◌==◌,
}
use pcutp.Base.Slices.{take_all}
use pcutp.Base.Text.{split, is_space, part, upper, unwords}
use pcutp.Base.Words.{split-unwords}
use pcutp.Crc.{IsRunning, crc32, crc32_hex}
use pcutp.Crc.Hex.{to_hex}
use pcutp.Crc.HexRoundTrip.{IsWord-to_hex, upper-to_hex}
use pcutp.Client.Header.{Client, Header, starts, classify}
use pcutp.Client.Receive.{
  Meta, Receiver, Round, Turn, download, send, write_rmb, conclude, take_header, take_line,
  take_round, run, start, meta_refusal, receive,
}
use pcutp.Client.Consistency.{IsConsistent, start-IsConsistent}
use pcutp.Exchange.Frames.{frames}
use pcutp.Exchange.Receives.{rounds_of, ack_lines}
use pcutp.Exchange.Blocks.{InOrder, run-blocks}

module _ (zlib_crc32 : Bytes → ℕ → ℕ) (law : IsRunning zlib_crc32) (c : Client) (m : Meta)
    (input : Bytes) (packing : Bool) (baud : ℕ) where
  abbrev pub done_words : List String
  done_words = "DONE" ∷ crc32_hex zlib_crc32 input 0 ∷ []

  abbrev pub done_round : Round
  done_round = record { header = some (unwords done_words); arrived = []; writable = true }

  split-done : split (unwords done_words) ≡ done_words
  unfolding is_space crc32_hex
  split-done =
      split-unwords done_words
        ((refl, (refl, (refl, (refl, tt)))), (IsWord-to_hex (crc32 zlib_crc32 input 0), tt))

  classify-done : classify c (unwords done_words) ≡ Header.finish done_words
  unfolding classify starts part
  classify-done = rw split-done refl

  start-InOrder :
      (final : Option Bytes) (sent : List String) (closing : Bool)
      → InOrder zlib_crc32 law c m input packing baud 0
          (sent ++ "READY" ∷ [])
          (start zlib_crc32 c m final sent closing)
  unfolding start send write_rmb
  start-InOrder final sent closing = record {
    consistent = start-IsConsistent zlib_crc32 law c m final sent closing;
    next = refl;
    holds = ap (λ n. take n input) {x = 0} {y = 0 * m.blocksize} (omega arith);
    told = ap (λ l. sent ++ l ∷ []) (unfold unwords in refl);
  }

  -- the download of the whole file
  abbrev pub IsDone : List String → Turn → Type 0
  IsDone sent t =
      (t.next ≡ download true)
      × (t.state.final ≡ some input)
      × (t.state.sent ≡ sent ++ unwords ("OK" ∷ crc32_hex zlib_crc32 input 0 ∷ []) ∷ [])

  holds_all :
      (sent : List String) (r : Receiver)
      → InOrder zlib_crc32 law c m input packing baud m.blocks sent r
      → length input ≤ m.blocks * m.blocksize
      → r.handle ≡ input
  holds_all sent r h enough =
      h.holds
      ∙ take_all (r.expected * m.blocksize) input
          (omega (arith, enough, ap (λ n. n * m.blocksize) h.next))

  -- the checksum that the receiver has counted
  running-hex :
      (r : Receiver)
      → IsConsistent zlib_crc32 m r
      → r.handle ≡ input
      → to_hex r.running ≡ crc32_hex zlib_crc32 input 0
  unfolding crc32_hex
  running-hex r h e = ap to_hex (h.summed ∙ ap (λ x. crc32 zlib_crc32 x 0) e)

  upper-crc32_hex : upper (crc32_hex zlib_crc32 input 0) ≡ crc32_hex zlib_crc32 input 0
  unfolding crc32_hex
  upper-crc32_hex = upper-to_hex (crc32 zlib_crc32 input 0)

  conclude-IsDone :
      (sent : List String) (r : Receiver)
      → m.size ≡ length input
      → m.crc32 ≡ crc32_hex zlib_crc32 input 0
      → length input ≤ m.blocks * m.blocksize
      → InOrder zlib_crc32 law c m input packing baud m.blocks sent r
      → IsDone sent (conclude zlib_crc32 c m done_words r)
  unfolding conclude part send
  conclude-IsDone sent r size sum enough h =
      let whole = holds_all sent r h enough in
      let all_in : r.received ≡ m.size =
        sym h.consistent.sized ∙ ap (λ x. length x) whole ∙ sym size in
      ground (
        arith,
        h.told,
        upper-crc32_hex,
        running-hex r h.consistent whole,
        eq_iff (to_hex r.running) (upper (crc32_hex zlib_crc32 input 0)),
        eq_iff (to_hex r.running) m.crc32,
      )

  take_round-done :
      (r : Receiver)
      → r.expected ≡ m.blocks
      → take_round zlib_crc32 c m done_round r ≡ conclude zlib_crc32 c m done_words r
  unfolding take_round take_line take_header
  take_round-done r h =
      let all_in : (r.expected == m.blocks) ≡ true = ground (arith, h) in
      rw (classify-done, all_in) refl

  run-last :
      (round : Round) (rounds : List Round) (r : Receiver)
      → (take_round zlib_crc32 c m round r).next ≡ download true
      → run zlib_crc32 c m (round ∷ rounds) r ≡ take_round zlib_crc32 c m round r
  unfolding run take_round
  run-last round rounds r h = rw (run, h) refl

  run-IsDone :
      (sent : List String) (r : Receiver)
      → m.size ≡ length input
      → m.crc32 ≡ crc32_hex zlib_crc32 input 0
      → length input ≤ m.blocks * m.blocksize
      → InOrder zlib_crc32 law c m input packing baud m.blocks sent r
      → IsDone sent (run zlib_crc32 c m (done_round ∷ []) r)
  run-IsDone sent r size sum enough h =
      let done =
        subst (IsDone sent) (sym (take_round-done r h.next))
          (conclude-IsDone sent r size sum enough h) in
      rw (run-last done_round [] r (done.0)) done

  -- the rounds of a transfer
  abbrev pub transfer_rounds : List Round
  transfer_rounds =
      rounds_of (frames zlib_crc32 packing baud m.blocksize input 0 m.blocks) ++ done_round ∷ []

  receive-run :
      (final : Option Bytes) (sent : List String) (closing : Bool) (rounds : List Round)
      → meta_refusal zlib_crc32 c m ≡ none
      → receive zlib_crc32 c m final sent closing rounds
        ≡ run zlib_crc32 c m rounds (start zlib_crc32 c m final sent closing)
  unfolding receive
  receive-run final sent closing rounds h = rw (receive, h) refl

  pub receive-IsDone :
      (final : Option Bytes) (sent : List String) (closing : Bool)
      → meta_refusal zlib_crc32 c m ≡ none
      → m.size ≡ length input
      → m.crc32 ≡ crc32_hex zlib_crc32 input 0
      → length input ≤ m.blocks * m.blocksize
      → m.blocksize ≤ 4096
      → (packing ≡ true → c.compression ≡ true)
      → IsDone
          ((sent ++ "READY" ∷ []) ++ ack_lines 0 m.blocks)
          (receive zlib_crc32 c m final sent closing transfer_rounds)
  receive-IsDone final sent closing accepted size sum enough small on =
      let more =
        run-blocks zlib_crc32 law c m input packing baud m.blocks 0 (sent ++ "READY" ∷ [])
          (done_round ∷ []) (start zlib_crc32 c m final sent closing) size small on (omega arith)
          (start-InOrder final sent closing) in
      rw (receive-run final sent closing transfer_rounds accepted, more.1.0)
        (run-IsDone ((sent ++ "READY" ∷ []) ++ ack_lines 0 m.blocks) (more.0) size sum enough (
          subst
            (λ n.
              InOrder zlib_crc32 law c m input packing baud n
                ((sent ++ "READY" ∷ []) ++ ack_lines 0 m.blocks) (more.0))
            (omega arith) (more.1.1)))
