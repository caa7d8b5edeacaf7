-- ===== src/Client/Receive.antt =====
-- `_receive` of src/pcutp/client.py. A round of its loop reads one control line and, behind a
-- DATA or ZDATA line, a payload. `Round` is what the link delivers to it: the line, or a timeout;
-- the bytes that come in before the deadline of `recv_exact`; and whether the disk takes a write.
-- The part file, the final file and the checkpoint are fields of the state; progress callbacks and
-- the text of the checkpoint are left out.
use Prim.Native.Nat.{min, max}
use text.Mathlib.Text.{◌==◌ as str_eq}
use pcutp.Base.{
  ℕ, ◌+◌, ◌-◌, ◌*◌, ◌%◌, Bool, true, false, ◌||◌, not, Option, none, some, List, [], ◌∷◌, ◌++◌,
  String, Bytes, length, take, ltb, leb, ◌==◌, if◌then◌else◌,
}
use pcutp.Base.Text.{unwords, str, part, upper}
use pcutp.Errors.{Kind, PcutpError, ok, err, make}
use pcutp.Names.{sanitize_filename}
use pcutp.Crc.{crc32, crc32_hex}
use pcutp.Crc.Hex.{to_hex, parse_hex}
use pcutp.Flow.{ceil_div}
use pcutp.Compression.Decoder.{decompress}
use pcutp.Client.Header.{Client, Block, Header, classify}

abbrev pub max_file_size : ℕ
max_file_size = 16 * 1024 * 1024

abbrev pub max_drops : ℕ
max_drops = 3

abbrev pub max_resets : ℕ
max_resets = 2

pub record Meta : Type 0 where
  pub filename : String
  pub size : ℕ
  pub blocksize : ℕ
  pub blocks : ℕ
  pub crc32 : String

-- what `_write_rmb` writes beside the part file; the other fields are those of `Meta`
pub record Rmb : Type 0 where
  pub state : String
  pub next_seq : ℕ
  pub received : ℕ
  pub running_crc32 : String

-- the local variables of `_receive`, the files, and the lines sent
pub record Receiver : Type 0 where
  pub expected : ℕ
  pub running : ℕ
  pub received : ℕ
  pub drops : ℕ
  pub resets : ℕ
  pub handle : Bytes
  pub final : Option Bytes
  pub checkpoint : Option Rmb
  pub peer_closing : Bool
  pub sent : List String

pub record Round : Type 0 where
  pub header : Option String
  pub arrived : Bytes
  pub writable : Bool

-- how a round ends: `continue`, a `Download` with its `ok`, or an exception
pub data Next : Type 0 where
  again : Next
  download : Bool → Next
  raised : PcutpError → Next

pub record Turn : Type 0 where
  pub state : Receiver
  pub next : Next

-- `send_line`, of a line with these words
unfoldable pub send : List String → Receiver → Receiver
send words r = record r { sent = r.sent ++ unwords words ∷ [] }

unfoldable pub continue : Receiver → Turn
continue r = record { state = r; next = again }

unfoldable pub throw : Kind → Receiver → Turn
throw k r = record { state = r; next = raised (make k) }

-- `_write_rmb`
unfoldable pub write_rmb : String → Receiver → Receiver
write_rmb state r = record r {
  checkpoint = some (record {
    state = state;
    next_seq = r.expected;
    received = r.received;
    running_crc32 = to_hex r.running;
  });
}

-- `seek(0)`, `truncate()` and the counters that both resets clear
unfoldable pub truncate : Receiver → Receiver
truncate r = record r { expected = 0; running = 0; received = 0; drops = 0; handle = [] }

-- `recv_exact`: the payload, or `none` for a timeout
unfoldable pub recv_exact : ℕ → Bytes → Option Bytes
recv_exact size arrived = if leb size (length arrived) then some (take size arrived) else none

module _ (zlib_crc32 : Bytes → ℕ → ℕ) (c : Client) (m : Meta) where
  -- a block that is the next one
  unfoldable pub store : Block → Bytes → Receiver → Receiver
  unfolding send write_rmb
  store b payload r =
      let r₁ = send ("ACK" ∷ str b.seq ∷ []) (record r {
        handle = r.handle ++ payload;
        running = crc32 zlib_crc32 payload r.running;
        received = r.received + length payload;
        expected = r.expected + 1;
        drops = 0;
      }) in
      if r₁.expected == m.blocks || r₁.expected % 8 == 0 then write_rmb "ACTIVE" r₁ else r₁

  -- `if seq != expected`, for a block behind a gap
  unfoldable pub gap : Block → Receiver → Turn
  unfolding send continue throw truncate
  gap b r =
      let dropped = record r { drops = r.drops + 1 } in
      let reset = record dropped { resets = dropped.resets + 1 } in
      if leb max_drops dropped.drops
      then (if ltb max_resets reset.resets
          then throw Kind.protocol (send ("ERR" ∷ "RETRY" ∷ []) reset)
          else continue (send ("RST" ∷ "0" ∷ []) (truncate reset)))
      else continue (send ("DROP" ∷ str r.expected ∷ str b.seq ∷ []) dropped)

  -- a payload of `size` bytes, unpacked: the CRC, the sequence number, the length and the write
  unfoldable pub accept : Block → ℕ → Bytes → Bool → Receiver → Turn
  unfolding send continue throw store gap
  accept b size payload writable r =
      if not (str_eq (crc32_hex zlib_crc32 payload 0) b.want)
      then continue (send ("NAK" ∷ str r.expected ∷ "CRC" ∷ []) r)
      else if ltb b.seq r.expected
      then continue (send ("ACK" ∷ str (if c.flow then r.expected - 1 else b.seq) ∷ []) r)
      else if not (b.seq == r.expected)
      then gap b r
      else if ltb m.size r.received || not (size == min m.blocksize (m.size - r.received))
      then throw Kind.protocol (send ("ERR" ∷ "PROTOCOL" ∷ []) r)
      else if not writable
      then throw Kind.storage (send ("ERR" ∷ "WRITE" ∷ []) r)
      else continue (store b payload r)

  unfoldable pub take_block : Block → Bytes → Bool → Receiver → Turn
  unfolding send continue throw accept recv_exact
  take_block b arrived writable r =
      if ltb m.blocksize b.length || leb m.blocks b.seq
      then throw Kind.protocol (send ("ERR" ∷ "PROTOCOL" ∷ []) r)
      else if ltb m.blocksize b.raw_length
      then throw Kind.protocol r
      else elim (recv_exact b.length arrived) [
        | none ↦
            continue (send ((if c.flow then "DROP" else "NAK") ∷ str r.expected ∷ "RAW" ∷ []) r)
        | some payload ↦ elim b.packed [
          | false ↦ accept b b.length payload writable r
          | true ↦ elim (decompress payload b.raw_length) [
            | err e ↦ continue (send ("NAK" ∷ str r.expected ∷ "DECODE" ∷ []) r)
            | ok unpacked ↦ accept b b.raw_length unpacked writable r
          ]
        ]
      ]

  -- behind the loop: `parts` is the DONE line
  unfoldable pub conclude : List String → Receiver → Turn
  unfolding send throw
  conclude parts r =
      let actual = to_hex r.running in
      if not (length parts == 2)
      then throw Kind.protocol r
      else if not (str_eq actual (upper (part parts 1)))
          || (not (str_eq actual m.crc32) || not (r.received == m.size))
      then record { state = send ("FAIL" ∷ "FILECRC" ∷ actual ∷ []) r; next = download false }
      else record {
        state = record (send ("OK" ∷ actual ∷ []) r) { final = some r.handle; checkpoint = none };
        next = download true;
      }

  unfoldable pub take_header : Header → Bytes → Bool → Receiver → Turn
  unfolding send continue throw write_rmb truncate take_block conclude
  take_header (Header.error e) arrived writable r = record { state = r; next = raised e }
  take_header (Header.probe token) arrived writable r =
      continue (send ("HERE" ∷ token ∷ str r.expected ∷ []) r)
  take_header (Header.reset token) arrived writable r =
      continue (
        send ("RST-ACK" ∷ token ∷ "0" ∷ [])
          (write_rmb "RESET" (truncate (record r { resets = 0 }))))
  take_header (Header.finish parts) arrived writable r =
      if r.expected == m.blocks then conclude parts r else throw Kind.protocol r
  take_header (Header.barrier token) arrived writable r =
      continue (send ("RESUME" ∷ token ∷ str r.expected ∷ []) r)
  take_header Header.bad_barrier arrived writable r = throw Kind.protocol r
  take_header Header.close arrived writable r =
      continue (record (send ("BYE" ∷ []) r) { peer_closing = true })
  take_header (Header.block b) arrived writable r = take_block b arrived writable r
  take_header Header.not_block arrived writable r = throw Kind.protocol r
  take_header Header.bad_numbers arrived writable r =
      throw Kind.protocol (send ("ERR" ∷ "PROTOCOL" ∷ []) r)

  -- what `recv_line` returns or raises
  unfoldable pub take_line : Option String → Bytes → Bool → Receiver → Turn
  unfolding take_header throw
  take_line none arrived writable r = throw Kind.timeout r
  take_line (some header) arrived writable r = take_header (classify c header) arrived writable r

  -- one round of `while True`
  unfoldable pub take_round : Round → Receiver → Turn
  unfolding take_line
  take_round round r = take_line round.header round.arrived round.writable r

  -- the loop, as far as the link has delivered
  unfoldable pub run : List Round → Receiver → Turn
  unfolding continue
  run [] r = continue r
  run (round ∷ rounds) r =
      let t = take_round round r in elim t.next [ again ↦ run rounds t.state | _ ↦ t ]

  -- the state behind the READY line; `final` is the file that has the name already
  unfoldable pub start : Option Bytes → List String → Bool → Receiver
  unfolding send write_rmb
  start final sent closing = write_rmb "ACTIVE" (
      send ("READY" ∷ []) (record {
        expected = 0;
        running = 0;
        received = 0;
        drops = 0;
        resets = 0;
        handle = [];
        final = final;
        checkpoint = none;
        peer_closing = closing;
        sent = sent;
      }))

  -- the fields of META that `_receive` refuses
  unfoldable pub meta_refusal : Option Kind
  unfolding ceil_div
  meta_refusal = elim (sanitize_filename m.filename) [
    | err e ↦ some Kind.protocol
    | ok filename ↦ elim (parse_hex m.crc32) [
      | none ↦ some Kind.protocol
      | some checksum ↦
          if ltb m.blocksize 1
            || (ltb c.max_block_size m.blocksize
                || (ltb max_file_size m.size
                    || not (m.blocks == max 1 (ceil_div m.size m.blocksize))))
          then some Kind.protocol
          else elim c.free_space [
            | none ↦ none
            | some free ↦ if ltb free m.size then some Kind.storage else none
          ]
    ]
  ]

  -- `_receive`: the lines sent by a refusal are `ERR PROTOCOL` and `ERR STORAGE`
  unfoldable pub receive : Option Bytes → List String → Bool → List Round → Turn
  unfolding run start meta_refusal send throw
  receive final sent closing rounds = elim meta_refusal [
    | some k ↦
        let r = record (start final sent closing) { checkpoint = none; sent = sent } in
        throw k (send ("ERR" ∷ (make k).code ∷ []) r)
    | none ↦ run rounds (start final sent closing)
  ]
