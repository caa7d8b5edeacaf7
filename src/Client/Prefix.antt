-- ===== src/Client/Prefix.antt =====
-- The part file is a prefix of the sender's file, over a link that repeats, drops, delays and
-- corrupts, as long as no payload that passes its CRC is another than the block of its number.
use text.Mathlib.Text.{◌==◌ as str_eq}
use pcutp.Base.{
  ℕ, ◌+◌, ◌*◌, ◌≡◌, refl, sym, ap, ◌∙◌, Bool, true, false, Option, none, some, List, [], ◌∷◌, ◌++◌,
  arith, inl, inr, Option-cases, String, Bytes, length, take, min,
}
use pcutp.Base.Slices.{slice, take-add, take_all}
use pcutp.Errors.{ok, err, Result-cases}
use pcutp.Crc.{IsRunning, crc32_hex}
use pcutp.Compression.Decoder.{decompress}
use pcutp.Client.Header.{Client, Block, Header, classify}
use pcutp.Client.Receive.{
  Meta, Receiver, Round, download, recv_exact, store, gap, accept, take_block, conclude,
  take_header, take_line, take_round, run, start,
}
use pcutp.Client.Consistency.{IsConsistent, run-IsConsistent, start-IsConsistent}
use pcutp.Client.Final.{IsVerified, download-IsVerified}

-- the payload that a round delivers for a block, unpacked
unfoldable pub delivered : Block → Bytes → Option Bytes
delivered b arrived = elim (recv_exact b.length arrived) [
  | none ↦ none
  | some payload ↦ elim b.packed [
    | false ↦ some payload
    | true ↦ elim (decompress payload b.raw_length) [ err e ↦ none | ok raw ↦ some raw ]
  ]
]

module _ (zlib_crc32 : Bytes → ℕ → ℕ) (c : Client) (m : Meta) (xs : Bytes) where
  -- Of a block, a payload with the right CRC is that part of the sender's file.
  pub record IsGenuine (b : Block) (arrived : Bytes) : Type 0 where
    pub genuine :
        (payload : Bytes)
        → delivered b arrived ≡ some payload
        → str_eq (crc32_hex zlib_crc32 payload 0) b.want ≡ true
        → payload ≡ slice (b.seq * m.blocksize) m.blocksize xs

  abbrev pub IsGenuineLine : Option String → Bytes → Type 0
  IsGenuineLine none arrived = Unit
  IsGenuineLine (some x) arrived = (b : Block) → classify c x ≡ Header.block b → IsGenuine b arrived

  abbrev pub AreGenuine : List Round → Type 0
  AreGenuine [] = Unit
  AreGenuine (round ∷ rounds) = IsGenuineLine round.header round.arrived × AreGenuine rounds

  abbrev pub HoldsPrefix : Receiver → Type 0
  HoldsPrefix r = r.handle ≡ take (r.expected * m.blocksize) xs

  pub prefix_grows :
      (e s : ℕ) (handle payload : Bytes)
      → handle ≡ take (e * s) xs
      → payload ≡ slice (e * s) s xs
      → handle ++ payload ≡ take ((e + 1) * s) xs
  prefix_grows e s handle payload h k =
      rw (h, k) (sym (take-add (e * s) s xs) ∙ ap (λ n. take n xs) {y = (e + 1) * s} (omega arith))

  HoldsPrefix-accept :
      (b : Block) (size : ℕ) (payload : Bytes) (writable : Bool) (r : Receiver)
      → HoldsPrefix r
      → (str_eq (crc32_hex zlib_crc32 payload 0) b.want ≡ true
          → payload ≡ slice (b.seq * m.blocksize) m.blocksize xs)
      → HoldsPrefix (accept zlib_crc32 c m b size payload writable r).state
  unfolding accept gap store
  HoldsPrefix-accept b size payload writable r h genuine =
      ground (arith, prefix_grows b.seq m.blocksize r.handle payload)

  HoldsPrefix-take_block :
      (b : Block) (arrived : Bytes) (writable : Bool) (r : Receiver)
      → HoldsPrefix r
      → IsGenuine b arrived
      → HoldsPrefix (take_block zlib_crc32 c m b arrived writable r).state
  unfolding take_block delivered
  HoldsPrefix-take_block b arrived writable r h g =
      elim (Option-cases (recv_exact b.length arrived)) [
        | inl missing ↦ ground arith
        | inr (payload, got) ↦ elim (Result-cases (decompress payload b.raw_length)) [
          | inl (e, failed) ↦
              ground (arith, HoldsPrefix-accept b b.length payload writable r h, g.genuine payload)
          | inr (raw, unpacked) ↦ ground (
            arith,
            HoldsPrefix-accept b b.length payload writable r h,
            HoldsPrefix-accept b b.raw_length raw writable r h,
            g.genuine payload,
            g.genuine raw,
          )
        ]
      ]

  HoldsPrefix-take_header :
      (x : Header) (arrived : Bytes) (writable : Bool) (r : Receiver)
      → HoldsPrefix r
      → ((b : Block) → x ≡ Header.block b → IsGenuine b arrived)
      → HoldsPrefix (take_header zlib_crc32 c m x arrived writable r).state
  unfolding take_header
  HoldsPrefix-take_header (Header.block b) arrived writable r h g =
      HoldsPrefix-take_block b arrived writable r h (g b refl)
  HoldsPrefix-take_header (Header.reset token) arrived writable r h g =
      ap (λ n. take n xs) {x = 0} {y = 0 * m.blocksize} (omega arith)
  HoldsPrefix-take_header (Header.finish parts) arrived writable r h g =
      unfold conclude in ground arith
  HoldsPrefix-take_header _ arrived writable r h g = h

  HoldsPrefix-take_line :
      (line : Option String) (arrived : Bytes) (writable : Bool) (r : Receiver)
      → HoldsPrefix r
      → IsGenuineLine line arrived
      → HoldsPrefix (take_line zlib_crc32 c m line arrived writable r).state
  unfolding take_line
  HoldsPrefix-take_line none arrived writable r h g = h
  HoldsPrefix-take_line (some x) arrived writable r h g =
      HoldsPrefix-take_header (classify c x) arrived writable r h g

  HoldsPrefix-take_round :
      (round : Round) (r : Receiver)
      → HoldsPrefix r
      → IsGenuineLine round.header round.arrived
      → HoldsPrefix (take_round zlib_crc32 c m round r).state
  unfolding take_round
  HoldsPrefix-take_round round = HoldsPrefix-take_line round.header round.arrived round.writable

  HoldsPrefix-run :
      (rounds : List Round) (r : Receiver)
      → HoldsPrefix r
      → AreGenuine rounds
      → HoldsPrefix (run zlib_crc32 c m rounds r).state
  unfolding run
  HoldsPrefix-run [] r h g = h
  HoldsPrefix-run (round ∷ rounds) r h (g, gs) = ground (
    arith,
    HoldsPrefix-take_round round r h g,
    HoldsPrefix-run rounds (take_round zlib_crc32 c m round r).state,
  )

  -- Over a link that delivers the control lines and payloads in any order, repeats them, loses
  -- them and corrupts them, as long as a payload with the right CRC is the block of its number:
  -- the part file is at all times the blocks of the sender's file before `expected`.
  pub part_is_prefix :
      (final : Option Bytes) (sent : List String) (closing : Bool) (rounds : List Round)
      → AreGenuine rounds
      → HoldsPrefix (run zlib_crc32 c m rounds (start zlib_crc32 c m final sent closing)).state
  part_is_prefix final sent closing rounds g =
      HoldsPrefix-run rounds (start zlib_crc32 c m final sent closing)
        (unfold start in ap (λ n. take n xs) {x = 0} {y = 0 * m.blocksize} (omega arith)) g

-- the whole file, once its size is reached
all_of_prefix :
    (xs handle : Bytes) (n k size : ℕ)
    → handle ≡ take n xs
    → length handle ≡ size
    → length handle ≡ min n k
    → length xs ≡ size
    → handle ≡ xs
all_of_prefix xs handle n k size h l c s = h ∙ take_all n xs (omega (arith, l, c, s))

module _ (zlib_crc32 : Bytes → ℕ → ℕ) (law : IsRunning zlib_crc32) where
  -- Over such a link, with the file's size in META: a download that ends with `ok` leaves the
  -- sender's file, byte for byte, under the final name.
  pub download_is_file :
      (c : Client) (m : Meta) (xs : Bytes) (final : Option Bytes) (sent : List String)
      (closing : Bool) (rounds : List Round)
      → m.size ≡ length xs
      → AreGenuine zlib_crc32 c m xs rounds
      → (run zlib_crc32 c m rounds (start zlib_crc32 c m final sent closing)).next ≡ download true
      → (run zlib_crc32 c m rounds (start zlib_crc32 c m final sent closing)).state.final ≡ some xs
  download_is_file c m xs final sent closing rounds size g e =
      v.installed
      ∙ ap some (
          all_of_prefix xs r.handle (r.expected * m.blocksize) m.size m.size
            (part_is_prefix zlib_crc32 c m xs final sent closing rounds g) v.sized
            (k.sized ∙ k.counted) (sym size))
    where
      r : Receiver
      r = (run zlib_crc32 c m rounds (start zlib_crc32 c m final sent closing)).state

      v : IsVerified zlib_crc32 m r
      v = download-IsVerified zlib_crc32 law c m final sent closing rounds e

      k : IsConsistent zlib_crc32 m r
      k =
          run-IsConsistent zlib_crc32 law c m rounds (start zlib_crc32 c m final sent closing)
            (start-IsConsistent zlib_crc32 law c m final sent closing)
