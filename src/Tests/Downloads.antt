-- ===== src/Tests/Downloads.antt =====
-- A download of src/pcutp/client.py: the file of three bytes in two blocks, over a link that
-- repeats a block.
use pcutp.Base.{
  ◌⊎◌, ◌*◌, ◌≡◌, ◌≢◌, refl, sym, ◌∙◌, true, false, none, some, List, [], ◌∷◌, arith, String, Bytes,
}
use pcutp.Base.Slices.{slice}
use pcutp.Base.Text.{split, is_decimal, int, upper}
use pcutp.Errors.{ok, Kind, make}
use pcutp.Crc.{crc32_hex}
use pcutp.Crc.Hex.{parse_hex, to_hex}
use pcutp.Client.Header.{Client, Block, Header, classify}
use pcutp.Names.{sanitize_filename}
use pcutp.Client.Announce.{recv_meta, checked_meta}
use pcutp.Client.Receive.{
  Meta, Receiver, Round, download, raised, recv_exact, run, start, take_round,
}
use pcutp.Client.Consistency.{IsConsistent, start-IsConsistent}
use pcutp.Client.Limits.{InLimits, IsOver, take_round-InLimits}
use pcutp.Client.Final.{IsVerified, download-IsVerified, run-final}
use pcutp.Client.Prefix.{
  delivered, IsGenuine, AreGenuine, HoldsPrefix, part_is_prefix, download_is_file,
}
use pcutp.Tests.{sum_crc, sum_crc-IsRunning}

abbrev pub receiver : Client
receiver = record {
  free_space = none;
  max_block_size = 4096;
  window_limit = 2;
  receive_buffer = 16384;
  window_size = 2;
  flow = true;
  compression_enabled = true;
  compression = true;
  identity = true;
}

abbrev contents : Bytes
contents = 1 ∷ 2 ∷ 3 ∷ []

abbrev announced : Meta
announced = record { filename = "A.TXT"; size = 3; blocksize = 2; blocks = 2; crc32 = "00000006" }

announces : recv_meta (some "FETCHING") (some "META A.TXT 3 2 2 00000006") ≡ ok announced
unfolding recv_meta checked_meta split is_decimal int upper parse_hex sanitize_filename
announces = refl

abbrev round : String → Bytes → Round
round line arrived = record { header = some line; arrived = arrived; writable = true }

abbrev rounds : List Round
rounds =
    round "DATA 0 2 00000003" (1 ∷ 2 ∷ [])
    ∷ round "DATA 0 2 00000003" (1 ∷ 2 ∷ [])
    ∷ round "DATA 1 1 00000003" (3 ∷ [])
    ∷ round "DONE 00000006" []
    ∷ []

abbrev begun : Receiver
begun = start sum_crc receiver announced none [] false

runs : (run sum_crc receiver announced rounds begun).next ≡ download true
unfolding run take_round start classify crc32_hex split is_decimal int to_hex upper
runs = refl

classified :
    (line : String) (b₀ : Block) (arrived payload₀ : Bytes)
    → classify receiver line ≡ Header.block b₀
    → delivered b₀ arrived ≡ some payload₀
    → payload₀ ≡ slice (b₀.seq * 2) 2 contents
    → (b : Block) → classify receiver line ≡ Header.block b
    → IsGenuine sum_crc receiver announced contents b arrived
classified line b₀ arrived payload₀ c₀ d s b c = record { genuine = λ payload e sum. cc }

abbrev first_block : Block
first_block = record { packed = false; seq = 0; length = 2; raw_length = 2; want = "00000003" }

abbrev second_block : Block
second_block = record { packed = false; seq = 1; length = 1; raw_length = 1; want = "00000003" }

IsGenuine-first :
    (b : Block)
    → classify receiver "DATA 0 2 00000003" ≡ Header.block b
    → IsGenuine sum_crc receiver announced contents b (1 ∷ 2 ∷ [])
unfolding classify delivered split is_decimal int upper recv_exact
IsGenuine-first =
    classified "DATA 0 2 00000003" first_block (1 ∷ 2 ∷ []) (1 ∷ 2 ∷ []) refl refl refl

IsGenuine-second :
    (b : Block)
    → classify receiver "DATA 1 1 00000003" ≡ Header.block b
    → IsGenuine sum_crc receiver announced contents b (3 ∷ [])
unfolding classify delivered split is_decimal int upper recv_exact
IsGenuine-second = classified "DATA 1 1 00000003" second_block (3 ∷ []) (3 ∷ []) refl refl refl

closes : classify receiver "DONE 00000006" ≡ Header.finish ("DONE" ∷ "00000006" ∷ [])
unfolding classify split
closes = refl

IsGenuine-last :
    (b : Block)
    → classify receiver "DONE 00000006" ≡ Header.block b
    → IsGenuine sum_crc receiver announced contents b []
IsGenuine-last b e = absurd (finish-ne-block (sym closes ∙ e))
  where
    finish-ne-block : Header.finish ("DONE" ∷ "00000006" ∷ []) ≡ Header.block b → ⊥
    finish-ne-block h = ground arith

are_genuine : AreGenuine sum_crc receiver announced contents rounds
are_genuine = (IsGenuine-first, (IsGenuine-first, (IsGenuine-second, (IsGenuine-last, tt))))

download_is_file_example : (run sum_crc receiver announced rounds begun).state.final ≡ some contents
download_is_file_example =
    download_is_file sum_crc sum_crc-IsRunning receiver announced contents none [] false rounds refl
      are_genuine runs

part_is_prefix_example :
    HoldsPrefix sum_crc receiver announced contents
      (run sum_crc receiver announced rounds begun).state
part_is_prefix_example =
    part_is_prefix sum_crc receiver announced contents none [] false rounds are_genuine

download-IsVerified_example :
    IsVerified sum_crc announced (run sum_crc receiver announced rounds begun).state
download-IsVerified_example =
    download-IsVerified sum_crc sum_crc-IsRunning receiver announced none [] false rounds runs

-- two resets and two drops, and a block behind a gap
abbrev strained : Receiver
strained = record begun { drops = 2; resets = 2 }

strained-IsConsistent : IsConsistent sum_crc announced strained
strained-IsConsistent =
    let h = start-IsConsistent sum_crc sum_crc-IsRunning receiver announced none [] false in
    record { sized = h.sized; summed = h.summed; counted = h.counted; in_meta = h.in_meta }

take_round-InLimits_example :
    IsConsistent sum_crc announced
      (take_round sum_crc receiver announced
        (round "DATA 1 2 00000003" (1 ∷ 2 ∷ []))
        strained).state
    × (InLimits
          (take_round sum_crc receiver announced
            (round "DATA 1 2 00000003" (1 ∷ 2 ∷ []))
            strained).state
        ⊎ IsOver (
            take_round sum_crc receiver announced
              (round "DATA 1 2 00000003" (1 ∷ 2 ∷ []))
              strained))
take_round-InLimits_example =
    take_round-InLimits sum_crc receiver announced sum_crc-IsRunning
      (round "DATA 1 2 00000003" (1 ∷ 2 ∷ [])) strained strained-IsConsistent
      (record { drops = omega arith; resets = omega arith })

-- the second block has not come
abbrev broken_rounds : List Round
broken_rounds = round "DATA 0 2 00000003" (1 ∷ 2 ∷ []) ∷ round "DONE 00000003" [] ∷ []

abbrev begun_over : Receiver
begun_over = start sum_crc receiver announced (some (9 ∷ [])) [] false

broken :
    (run sum_crc receiver announced broken_rounds begun_over).next ≡ raised (make Kind.protocol)
unfolding run take_round start classify crc32_hex split is_decimal int to_hex upper
broken = refl

breaks : (run sum_crc receiver announced broken_rounds begun_over).next ≢ download true
breaks e = raised-ne-download (sym broken ∙ e)
  where
    raised-ne-download : raised (make Kind.protocol) ≡ download true → ⊥
    raised-ne-download h = ground arith

run-final_example :
    (run sum_crc receiver announced broken_rounds begun_over).state.final ≡ begun_over.final
run-final_example = run-final sum_crc receiver announced broken_rounds begun_over breaks
