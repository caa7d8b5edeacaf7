-- ===== src/Server/SendsAll.antt =====
-- `send_file` and `_handle_get` of src/pcutp/server.py end: they wait only where the link has
-- delivered all that it has.
use pcutp.Base.{
  ℕ, zero, suc, leb, ◌∷◌, ◌+◌, Bool, true, false, Option, none, [], arith, String, Bytes, length,
  ◌*◌,
}
use text.Mathlib.Text.{◌==◌ as str_eq}
use pcutp.Base.Slices.{slice}
use pcutp.Base.Text.{unwords, part, split}
use pcutp.Errors.{Kind, PcutpError, Result, ok, err, wire}
use pcutp.Names.{sanitize_filename}
use pcutp.Crc.{crc32_hex}
use pcutp.Server.Session.{
  Server, Outcome, returned, raised, waiting, Action, pure, raise, send_line, send_payload, fail,
  recv_line, recv_or_timeout, ◌>>◌,
}
use pcutp.Server.Block.{max_timeouts, data_header, block_reply, send_attempts, send_block}
use pcutp.Server.Window.{send_window}
use pcutp.Server.Transfer.{
  Setting, transfer_block, TransferResult, failing, or_fail, judge_final, await_final, final_reply,
  send_blocks, send_all, take_final, confirm, take_ready, prepare, announce, meta_line, block_count,
  send_file, take_fetched, fetch_named, handle_get,
}
use pcutp.Server.Draining.{
  Leaves, Draining, Draining-pure, Draining-raise, Draining-if, Draining-Taking, Draining-bind,
  Draining-elim, Leaves-more, Taking-bind,
}
use pcutp.Server.Progress.{recv_line-Taking, recv_or_timeout-Taking, send_line-Draining}
use pcutp.Server.Waits.{send_window-Draining}

pub fail-Draining : (k : ℕ) (e : Kind) → Draining k (fail e)
unfolding fail
fail-Draining k e = record { at = λ n s h lt. h }

-- an error that is reported to the peer before it is raised
fail-raise-Draining : {A : Type 0} (k : ℕ) (e : Kind) → Draining k (fail e >> raise {A = A} e)
fail-raise-Draining k e =
    Draining-bind (λ _. raise e) k (fail e) (fail-Draining k e) (λ _. Draining-raise k e)

failing-Leaves :
    {A : Type 0} (n : ℕ) (p : Outcome A × Server) → Leaves n p → Leaves n (failing p.0 p.1)
unfolding failing
failing-Leaves n (returned a, s) h = h
failing-Leaves n (raised e, s) h = tt
failing-Leaves n (waiting, s) h = h

or_fail-Draining : {A : Type 0} (k : ℕ) (m : Action A) → Draining k m → Draining k (or_fail m)
unfolding or_fail
or_fail-Draining k m hm = record { at = λ n s h lt. failing-Leaves n (m s) (hm.at n s h lt) }

judge_final-Draining :
    (k : ℕ) (more : Action String) (flow : Bool) (blocks : ℕ) (r : String × Bool)
    → Draining k more
    → Draining k (judge_final more flow blocks r)
unfolding judge_final
judge_final-Draining k more flow blocks (line, late) hm = record {
  at = λ n s h lt. ground (arith, hm.at n s h lt);
}

await_final-Draining : (k : ℕ) (flow : Bool) (blocks : ℕ) → Draining k (await_final k flow blocks)
unfolding await_final
await_final-Draining zero flow blocks = record { at = λ n s h lt. absurd (omega arith) }
await_final-Draining (suc k) flow blocks = Draining-Taking (suc k) _ (
    Taking-bind (judge_final (await_final k flow blocks) flow blocks) k recv_line
      (recv_line-Taking (suc k))
      (λ r.
        judge_final-Draining k (await_final k flow blocks) flow blocks r
          (await_final-Draining k flow blocks)))

final_reply-Draining : (k : ℕ) (flow : Bool) (blocks : ℕ) → Draining k (final_reply flow blocks)
unfolding final_reply
final_reply-Draining k flow blocks = record {
  at = λ n s h lt.
      Leaves-more (length s.events) n (await_final (length s.events + 1) flow blocks s) h (
        (await_final-Draining (length s.events + 1) flow blocks).at (length s.events) s
          (omega arith) (omega arith));
}

module _ (zlib_crc32 : Bytes → ℕ → ℕ) where
  block_reply-Draining :
      (k seq attempt : ℕ) (reply : String) → Draining k (block_reply zlib_crc32 seq attempt reply)
  unfolding block_reply
  block_reply-Draining k seq attempt reply = record { at = λ n s h lt. ground arith }

  send_attempts-Draining :
      (k rounds seq : ℕ) (chunk : Bytes) (attempt timeouts : ℕ)
      → Draining k (send_attempts zlib_crc32 rounds seq chunk attempt timeouts)
  unfolding send_attempts send_payload
  send_attempts-Draining k zero seq chunk attempt timeouts = fail-raise-Draining k Kind.retry
  send_attempts-Draining k (suc rounds) seq chunk attempt timeouts =
      Draining-bind _ k (send_payload (data_header zlib_crc32 seq chunk) chunk)
        (record { at = λ n s h lt. h })
        (λ _.
          Draining-bind _ k recv_or_timeout
            (Draining-Taking k recv_or_timeout (recv_or_timeout-Taking k))
            (λ r.
              Draining-elim k r _ _
                (Draining-if k (leb max_timeouts (timeouts + 1)) _ _
                  (fail-raise-Draining k Kind.timeout)
                  (send_attempts-Draining k rounds seq chunk (attempt + 1) (timeouts + 1)))
                (λ x.
                  Draining-bind _ k (block_reply zlib_crc32 seq attempt x.0)
                    (block_reply-Draining k seq attempt x.0)
                    (λ done.
                      Draining-elim k done _ pure
                        (send_attempts-Draining k rounds seq chunk (attempt + 1) timeouts)
                        (Draining-pure k)))))

  send_block-Draining : (k seq : ℕ) (chunk : Bytes) → Draining k (send_block zlib_crc32 seq chunk)
  unfolding send_block
  send_block-Draining k seq chunk = record {
    at = λ n s h lt. (send_attempts-Draining k (s.max_retries + 1) seq chunk 0 0).at n s h lt;
  }

  send_blocks-Draining :
      (k : ℕ) (input : Bytes) (block_size m seq retransmits : ℕ)
      → Draining k (send_blocks zlib_crc32 input block_size m seq retransmits)
  unfolding send_blocks
  send_blocks-Draining k input block_size zero seq retransmits = Draining-pure k retransmits
  send_blocks-Draining k input block_size (suc m) seq retransmits =
      Draining-bind _ k (send_block zlib_crc32 seq (slice (seq * block_size) block_size input))
        (send_block-Draining k seq (slice (seq * block_size) block_size input))
        (λ more. send_blocks-Draining k input block_size m (seq + 1) (retransmits + more))

  send_all-Draining :
      (k : ℕ) (flow : Bool) (input : Bytes) (block_size blocks : ℕ)
      → Draining k (send_all zlib_crc32 flow input block_size blocks)
  unfolding send_all
  send_all-Draining k true input block_size blocks =
      Draining-bind _ k (or_fail (send_window zlib_crc32 input blocks))
        (or_fail-Draining k (send_window zlib_crc32 input blocks)
          (send_window-Draining zlib_crc32 input blocks k))
        (λ w. Draining-pure k w.retransmits)
  send_all-Draining k false input block_size blocks =
      send_blocks-Draining k input block_size blocks 0 0

  confirm-Draining :
      (k : ℕ) (flow : Bool) (filename : String) (input : Bytes) (blocks : ℕ) (file_crc : String)
      (retransmits : ℕ)
      → Draining k (confirm zlib_crc32 flow filename input blocks file_crc retransmits)
  unfolding confirm
  confirm-Draining k flow filename input blocks file_crc retransmits =
      Draining-bind _ k (send_line (unwords ("DONE" ∷ file_crc ∷ [])))
        (send_line-Draining k (unwords ("DONE" ∷ file_crc ∷ [])))
        (λ _.
          Draining-bind (take_final zlib_crc32 filename input blocks file_crc retransmits) k
            (final_reply flow blocks) (final_reply-Draining k flow blocks)
            (λ final. record { at = λ n s h lt. h }))

  take_ready-Draining :
      (k : ℕ) (flow : Bool) (filename : String) (input : Bytes) (block_size blocks : ℕ)
      (file_crc reply : String)
      → Draining k (take_ready zlib_crc32 flow filename input block_size blocks file_crc reply)
  unfolding take_ready
  take_ready-Draining k flow filename input block_size blocks file_crc reply =
      Draining-if k (str_eq reply "READY") _ (pure none)
        (Draining-bind _ k (send_all zlib_crc32 flow input block_size blocks)
          (send_all-Draining k flow input block_size blocks)
          (λ retransmits. confirm-Draining k flow filename input blocks file_crc retransmits))
        (Draining-pure k none)

  announce-Draining :
      (k : ℕ) (flow : Bool) (filename : String) (input : Bytes) (block_size blocks : ℕ)
      → Draining k (announce zlib_crc32 flow filename input block_size blocks)
  unfolding announce
  announce-Draining k flow filename input block_size blocks =
      Draining-bind _ k (send_line line) (send_line-Draining k line) (λ _.
        Draining-bind _ k recv_line (Draining-Taking k recv_line (recv_line-Taking k))
          (λ r. take_ready-Draining k flow filename input block_size blocks file_crc (r.0)))
    where
      file_crc : String
      file_crc = crc32_hex zlib_crc32 input 0

      line : String
      line = meta_line filename (length input) block_size blocks file_crc

  send_file-Draining :
      (k : ℕ) (c : Setting) (filename : String) (input : Bytes)
      → Draining k (send_file zlib_crc32 c filename input)
  unfolding send_file prepare
  send_file-Draining k c filename input = record {
    at = λ n s h lt.
        (announce-Draining k c.flow filename input
            (transfer_block c s.window_size s.baud s.block_size input)
            (block_count (length input)
              (transfer_block c s.window_size s.baud s.block_size input))).at
          n (prepare zlib_crc32 c input s).1 h lt;
  }

  module _ (fetcher : String → ℕ → Result Bytes) where
    -- a refusal, behind an ERR line
    refuse-Draining :
        (k : ℕ) (e : PcutpError)
        → Draining k (send_line (wire e) >> pure {A = Option TransferResult} none)
    refuse-Draining k e =
        Draining-bind _ k (send_line (wire e)) (send_line-Draining k (wire e))
          (λ _. Draining-pure k none)

    take_fetched-Draining :
        (k : ℕ) (c : Setting) (filename : String) (fetched : Result Bytes)
        → Draining k (take_fetched zlib_crc32 fetcher c filename fetched)
    unfolding take_fetched
    take_fetched-Draining k c filename (err e) = refuse-Draining k e
    take_fetched-Draining k c filename (ok input) = send_file-Draining k c filename input

    fetch_named-Draining :
        (k : ℕ) (c : Setting) (named : Result String) (url : String)
        → Draining k (fetch_named zlib_crc32 fetcher c named url)
    unfolding fetch_named
    fetch_named-Draining k c (err e) url = refuse-Draining k e
    fetch_named-Draining k c (ok filename) url =
        Draining-bind _ k (send_line "FETCHING") (send_line-Draining k "FETCHING")
          (λ _. take_fetched-Draining k c filename (fetcher url c.max_file_size))

    pub handle_get-Draining :
        (k : ℕ) (c : Setting) (line : String) → Draining k (handle_get zlib_crc32 fetcher c line)
    unfolding handle_get
    handle_get-Draining k c line =
        Draining-if k _ _ _ (fail-raise-Draining k Kind.protocol)
          (fetch_named-Draining k c (sanitize_filename (part (split line) 1)) (part (split line) 2))
