-- ===== src/Server/Transfer.antt =====
-- `send_file` and `_handle_get` of src/pcutp/server.py. `Setting` has the attributes that these
-- read and no step of a transfer changes. The fetcher, which talks to the network, is a parameter;
-- progress, log and sounds are left out.
use text.Mathlib.Text.{◌==◌ as str_eq}
use pcutp.Base.{
  ℕ, zero, suc, ◌+◌, ◌-◌, ◌*◌, ◌/◌, Bool, true, false, ◌&&◌, ◌||◌, not, Option, none, some, List,
  [], ◌∷◌, String, Bytes, length, max, min, ltb, ◌==◌, if◌then◌else◌,
}
use pcutp.Base.Slices.{slice}
use pcutp.Base.Text.{split, part, is_decimal, int, unwords, str}
use pcutp.Errors.{Kind, Result, ok, err, wire}
use pcutp.Names.{sanitize_filename}
use pcutp.Crc.{crc32_hex}
use pcutp.Flow.{choose_block, ceil_div}
use pcutp.Compression.Encoder.{compress}
use pcutp.Compression.Worthwhile.{worthwhile}
use pcutp.Client.Header.{starts}
use pcutp.Server.Session.{
  Action, Outcome, returned, raised, waiting, pure, raise, modify, send_line, fail, recv_line,
  ◌>>=◌, ◌>>◌,
}
use pcutp.Server.Block.{send_block}
use pcutp.Server.Recovery.{old_resume}
use pcutp.Server.Window.{send_window}

pub record Setting : Type 0 where
  pub flow : Bool
  pub compression : Bool
  pub auto_block : Bool
  pub negotiated_block_limit : ℕ
  pub max_file_size : ℕ

pub record TransferResult : Type 0 where
  pub filename : String
  pub size : ℕ
  pub blocks : ℕ
  pub crc32 : String
  pub retransmits : ℕ
  pub verified : Bool
  pub compressed_blocks : ℕ
  pub data_wire_bytes : ℕ

-- `any(test(data[s:s + n]) for s in starts)`: at the front, in the middle and at the end
unfoldable pub any_sample : (Bytes → Bool) → ℕ → Bytes → Bool
any_sample test n input =
    test (slice 0 n input)
    || (test (slice (length input / 2 - n / 2) n input) || test (slice (length input - n) n input))

-- `compress(…)[1]`, as a truth value
unfoldable pub has_matches : Bytes → Bool
has_matches raw = not ((compress raw).1 == 0)

unfoldable pub pays : ℕ → Bytes → Bool
pays baud raw = elim (worthwhile raw baud) [ none ↦ false | some packed ↦ true ]

-- `self._use_compression`
unfoldable pub will_compress : Setting → Bytes → Bool
unfolding any_sample
will_compress c input =
    c.compression && any_sample has_matches (min 1024 c.negotiated_block_limit) input

-- `self.block_size` behind the choice, with the value before it
unfoldable pub transfer_block : Setting → ℕ → ℕ → ℕ → Bytes → ℕ
unfolding will_compress any_sample
transfer_block c window baud block_size input =
    if not c.auto_block
    then block_size
    else if will_compress c input && any_sample (pays baud) c.negotiated_block_limit input
    then c.negotiated_block_limit
    else choose_block (length input) c.negotiated_block_limit window baud

-- `max(1, -(-size // self.block_size))`
unfoldable pub block_count : ℕ → ℕ → ℕ
unfolding ceil_div
block_count size block_size = max 1 (ceil_div size block_size)

-- f"META {filename} {size} {self.block_size} {blocks} {file_crc}"
unfoldable pub meta_line : String → ℕ → ℕ → ℕ → String → String
meta_line filename size block_size blocks file_crc =
    unwords ("META" ∷ filename ∷ str size ∷ str block_size ∷ str blocks ∷ file_crc ∷ [])

-- `except PcutpError as exc: self._fail(exc); raise`
unfoldable pub failing : {A : Type 0} → Outcome A → Action A
failing (returned a) s = (returned a, s)
failing waiting s = (waiting, s)
failing (raised e) s = (raised e, (send_line (wire e) s).1)

unfoldable pub or_fail : {A : Type 0} → Action A → Action A
unfolding failing
or_fail m s = let (o, s') = m s in failing o s'

-- whether the loop behind DONE reads on
unfoldable pub is_stale : Bool → ℕ → ℕ → List String → Bool
unfolding starts part
is_stale flow barrier_id blocks parts =
    flow
    && (length parts == 2
          && (starts parts "ACK" && (is_decimal (part parts 1) && ltb (int (part parts 1)) blocks))
        || old_resume barrier_id parts)

-- a line behind DONE
unfoldable pub judge_final : Action String → Bool → ℕ → String × Bool → Action String
unfolding is_stale
judge_final more flow blocks (line, late) s =
    let rest = more s in
    if not (is_stale flow s.barrier_id blocks (split line))
    then pure line s
    else if late
    then raise Kind.timeout s
    else rest

-- the loop behind DONE; a round takes an event
unfoldable pub await_final : ℕ → Bool → ℕ → Action String
unfolding judge_final
await_final zero flow blocks = λ s. (waiting, s)
await_final (suc fuel) flow blocks = do
  r ← recv_line
  judge_final (await_final fuel flow blocks) flow blocks r

unfoldable pub final_reply : Bool → ℕ → Action String
final_reply flow blocks s = await_final (length s.events + 1) flow blocks s

-- `final.split()[:2] == ["OK", file_crc]`
unfoldable pub is_verified : String → List String → Bool
unfolding starts part
is_verified file_crc parts =
    ltb 1 (length parts) && (starts parts "OK" && str_eq (part parts 1) file_crc)

module _ (zlib_crc32 : Bytes → ℕ → ℕ) where
  -- the rounds that are left of the loop over the blocks without FLOW, and the retransmits so far
  unfoldable pub send_blocks : Bytes → ℕ → ℕ → ℕ → ℕ → Action ℕ
  send_blocks input block_size zero seq retransmits = pure retransmits
  send_blocks input block_size (suc n) seq retransmits = do
    more ← send_block zlib_crc32 seq (slice (seq * block_size) block_size input)
    send_blocks input block_size n (seq + 1) (retransmits + more)

  unfoldable pub send_all : Bool → Bytes → ℕ → ℕ → Action ℕ
  send_all true input block_size blocks = do
    w ← or_fail (send_window zlib_crc32 input blocks)
    pure w.retransmits
  send_all false input block_size blocks = send_blocks input block_size blocks 0 0

  -- the result, behind the final reply
  unfoldable pub take_final :
      String → Bytes → ℕ → String → ℕ → String → Action (Option TransferResult)
  take_final filename input blocks file_crc retransmits final s =
      pure
        (some (record {
          filename = filename;
          size = length input;
          blocks = blocks;
          crc32 = file_crc;
          retransmits = retransmits;
          verified = is_verified file_crc (split final);
          compressed_blocks = s.compressed_blocks;
          data_wire_bytes = s.data_wire_bytes;
        }))
        s

  unfoldable pub confirm : Bool → String → Bytes → ℕ → String → ℕ → Action (Option TransferResult)
  unfolding take_final
  confirm flow filename input blocks file_crc retransmits = do
    send_line (unwords ("DONE" ∷ file_crc ∷ []))
    final ← final_reply flow blocks
    take_final filename input blocks file_crc retransmits final

  -- the reply to META
  unfoldable pub take_ready :
      Bool → String → Bytes → ℕ → ℕ → String → String → Action (Option TransferResult)
  unfolding send_all confirm
  take_ready flow filename input block_size blocks file_crc reply =
      if str_eq reply "READY"
      then (do
        retransmits ← send_all flow input block_size blocks
        confirm flow filename input blocks file_crc retransmits)
      else pure none

  -- the attributes that `send_file` sets first
  unfoldable pub prepare : Setting → Bytes → Action (Unit {0})
  prepare c input = modify (λ s. record s {
    compressed_blocks = 0;
    data_wire_bytes = 0;
    use_compression = will_compress c input;
    block_size = transfer_block c s.window_size s.baud s.block_size input;
  })

  unfoldable pub announce : Bool → String → Bytes → ℕ → ℕ → Action (Option TransferResult)
  announce flow filename input block_size blocks = do
    send_line (meta_line filename (length input) block_size blocks (crc32_hex zlib_crc32 input 0))
    r ← recv_line
    take_ready flow filename input block_size blocks (crc32_hex zlib_crc32 input 0) (r.0)

  unfoldable pub send_file : Setting → String → Bytes → Action (Option TransferResult)
  send_file c filename input = do
    prepare c input
    λ s. announce c.flow filename input s.block_size (block_count (length input) s.block_size) s

  module _ (fetcher : String → ℕ → Result Bytes) where
    -- what the fetcher returns or raises
    unfoldable pub take_fetched : Setting → String → Result Bytes → Action (Option TransferResult)
    take_fetched c filename (err e) = do send_line (wire e); pure none
    take_fetched c filename (ok input) = send_file c filename input

    unfoldable pub fetch_named : Setting → Result String → String → Action (Option TransferResult)
    unfolding take_fetched
    fetch_named c (err e) url = do send_line (wire e); pure none
    fetch_named c (ok filename) url = do
      send_line "FETCHING"
      take_fetched c filename (fetcher url c.max_file_size)

    unfoldable pub handle_get : Setting → String → Action (Option TransferResult)
    unfolding fetch_named
    handle_get c line =
        let parts = split line in
        if not (length parts == 3) || not (starts parts "GET")
        then (do fail Kind.protocol; raise Kind.protocol)
        else fetch_named c (sanitize_filename (part parts 1)) (part parts 2)
