-- ===== src/Exchange/Completes.antt =====
-- A transfer in which src/pcutp/server.py and src/pcutp/client.py hear each other: a control line,
-- or a header with its payload, is a round of the receiver; a line of the receiver is an event of
-- the sender.
use mathlib.Core.Path.{subst}
use pcutp.Base.{
  ℕ, zero, suc, ◌+◌, ◌≤◌, ◌≡◌, refl, sym, ap, ◌∙◌, Bool, true, Option, some, List, [], ◌∷◌, ◌++◌,
  String, Bytes, length, append_assoc,
}
use pcutp.Base.Text.{unwords}
use pcutp.Base.Words.{IsWord}
use pcutp.Errors.{ok}
use pcutp.Names.{sanitize_filename}
use pcutp.Crc.{IsRunning, crc32_hex}
use pcutp.Client.Header.{Client}
use pcutp.Client.Announce.{recv_meta}
use pcutp.Client.Receive.{Meta, Round, download, receive, max_file_size}
use pcutp.Server.Session.{Server, Event, Frame, control, payload}
use pcutp.Server.Transfer.{Setting, TransferResult, will_compress, send_file}
use pcutp.Exchange.Frames.{frames}
use pcutp.Exchange.Fills.{wired}
use pcutp.Exchange.Sends.{reply, ack_words, acks}
use pcutp.Exchange.Windows.{wire_from}
use pcutp.Exchange.Confirms.{Delivered, done_line, ok_words}
use pcutp.Exchange.Files.{sent_of, knobs, blocks_of, send_file-Yields}
use pcutp.Exchange.Receives.{round_of, rounds_of, ack_lines}
use pcutp.Exchange.Downloads.{IsDone, transfer_rounds, receive-IsDone}
use pcutp.Exchange.Announced.{
  announced, announcement, block_count_enough, recv_meta-announcement, HasRoom, announced-accepted,
}
use pcutp.Exchange.Yields.{Knobs, Yields, Yields-weaken}

-- what the sender hears of the receiver's lines, and the receiver of the sender's frames
unfoldable pub replies : List String → List Event
replies [] = []
replies (l ∷ ls) = reply l ∷ replies ls

abbrev heard_as : Frame → Round
heard_as (control line) = record { header = some line; arrived = []; writable = true }
heard_as (payload header body) = record { header = some header; arrived = body; writable = true }

unfoldable pub rounds_from : List Frame → List Round
rounds_from [] = []
rounds_from (f ∷ fs) = heard_as f ∷ rounds_from fs

replies-append : (xs ys : List String) → replies (xs ++ ys) ≡ replies xs ++ replies ys
unfolding replies
replies-append [] ys = refl
replies-append (x ∷ xs) ys = ap (λ l. reply x ∷ l) (replies-append xs ys)

replies-ack_lines : (seq n : ℕ) → replies (ack_lines seq n) ≡ acks seq n
unfolding replies ack_lines acks
replies-ack_lines seq zero = refl
replies-ack_lines seq (suc n) =
    ap (λ l. reply (unwords (ack_words seq)) ∷ l) (replies-ack_lines (seq + 1) n)

rounds_from-wired :
    (fs : List (String × Bytes)) (rest : List Frame)
    → rounds_from (wired fs ++ rest) ≡ rounds_of fs ++ rounds_from rest
unfolding rounds_from wired rounds_of
rounds_from-wired [] rest = refl
rounds_from-wired (f ∷ fs) rest = ap (λ l. round_of f ∷ l) (rounds_from-wired fs rest)

module _ (zlib_crc32 : Bytes → ℕ → ℕ) where
  -- what the sender reports, what it has heard and what it has sent
  abbrev pub Reported :
      Server → String → Bytes → ℕ → List Frame → Option TransferResult → Server → Type 0
  Reported s filename input block_size wire r s' =
      (r
        ≡ some (record {
          filename = filename;
          size = length input;
          blocks = (announced zlib_crc32 filename input block_size).blocks;
          crc32 = crc32_hex zlib_crc32 input 0;
          retransmits = 0;
          verified = true;
          compressed_blocks = s'.compressed_blocks;
          data_wire_bytes = s'.data_wire_bytes;
        }))
      × (s'.events ≡ [])
      × (s'.sent ≡ s.sent ++ control (announcement zlib_crc32 filename input block_size) ∷ wire)

  -- The sender, with these lines to hear, sends META and these frames and reports the file as
  -- verified, with no retransmit; the receiver, with META and these frames to hear, sends these
  -- lines and has the file.
  pub record BothEnds (d : Setting) (s : Server) (c : Client) (filename : String) (input : Bytes)
      (block_size : ℕ) (final : Option Bytes) (closing : Bool) (told : List String)
      (wire : List Frame) : Type 0 where
    pub sends :
        Yields
          (Reported s filename input block_size wire)
          (send_file zlib_crc32 d filename input (record s { events = replies told }))
    pub announces :
        recv_meta (some "FETCHING") (some (announcement zlib_crc32 filename input block_size))
        ≡ ok (announced zlib_crc32 filename input block_size)
    pub downloads :
        (receive zlib_crc32 c
          (announced zlib_crc32 filename input block_size)
          final
          []
          closing
          (rounds_from wire)).next
        ≡ download true
    pub installs :
        (receive zlib_crc32 c
          (announced zlib_crc32 filename input block_size)
          final
          []
          closing
          (rounds_from wire)).state.final
        ≡ some input
    pub answers :
        (receive zlib_crc32 c
          (announced zlib_crc32 filename input block_size)
          final
          []
          closing
          (rounds_from wire)).state.sent
        ≡ told

module _ (zlib_crc32 : Bytes → ℕ → ℕ) (law : IsRunning zlib_crc32) where
  -- In a session with FLOW, with a word as a name that is safe, a window of at least one block, a
  -- block size that both ends allow, compression only where the receiver has it, a file of at
  -- most 16 MiB, and room on the disk: there are lines of the receiver and frames of the sender
  -- by which the transfer completes at both ends. Each end, hearing what the other sends, sends
  -- what the other hears; the sender reports the file as verified, and the receiver has its bytes
  -- under the final name.
  pub transfer_completes :
      (d : Setting) (s : Server) (c : Client) (filename : String) (input : Bytes)
      (final : Option Bytes) (closing : Bool)
      → IsWord filename
      → sanitize_filename filename ≡ ok filename
      → d.flow ≡ true
      → 1 ≤ s.window_size
      → (will_compress d input ≡ true → c.compression ≡ true)
      → 1 ≤ (knobs zlib_crc32 d input s).block_size
      → (knobs zlib_crc32 d input s).block_size ≤ c.max_block_size
      → (knobs zlib_crc32 d input s).block_size ≤ 4096
      → length input ≤ max_file_size
      → HasRoom zlib_crc32 filename input (knobs zlib_crc32 d input s).block_size c.free_space
      → (told : List String) × (wire : List Frame) × BothEnds zlib_crc32 d s c filename input
          (knobs zlib_crc32 d input s).block_size
          final
          closing
          told
          wire
  unfolding replies rounds_from
  transfer_completes d s c filename input final closing w safe flow window on some_size fits small
        size room =
      (
        told,
        wire,
        record {
          sends =
              Yields-weaken
                (Delivered zlib_crc32 filename input n []
                  (sent_of zlib_crc32 k input n filename s.sent) k)
                (Reported zlib_crc32 s filename input k.block_size wire)
                (send_file zlib_crc32 d filename input (record s { events = replies told }))
                (send_file-Yields zlib_crc32 d filename input []
                  (record s { events = replies told }) flow window heard)
                (λ r s' h. (h.0, h.1.has_events, h.1.has_sent ∙ all_sent));
          announces = recv_meta-announcement zlib_crc32 filename input k.block_size w safe;
          downloads = done.0;
          installs = done.1;
          answers = done.2;
        },
      )
    where
      k : Knobs
      k = knobs zlib_crc32 d input s

      m : Meta
      m = announced zlib_crc32 filename input k.block_size

      n : ℕ
      n = blocks_of zlib_crc32 d input s

      told : List String
      told = ("READY" ∷ ack_lines 0 n) ++ unwords (ok_words zlib_crc32 input) ∷ []

      wire : List Frame
      wire = wire_from zlib_crc32 input n k 0 n ++ control (done_line zlib_crc32 input) ∷ []

      wire_rounds :
          rounds_from wire ≡ transfer_rounds zlib_crc32 law c m input k.use_compression k.baud
      wire_rounds =
          rounds_from-wired (frames zlib_crc32 k.use_compression k.baud k.block_size input 0 n)
            (control (done_line zlib_crc32 input) ∷ [])

      done :
          IsDone zlib_crc32 law c m input k.use_compression k.baud
            ("READY" ∷ ack_lines 0 n)
            (receive zlib_crc32 c m final [] closing (rounds_from wire))
      done =
          subst
            (λ rounds.
              IsDone zlib_crc32 law c m input k.use_compression k.baud ("READY" ∷ ack_lines 0 n)
                (receive zlib_crc32 c m final [] closing rounds))
            (sym wire_rounds)
            (receive-IsDone zlib_crc32 law c m input k.use_compression k.baud final [] closing
              (announced-accepted zlib_crc32 filename input k.block_size c c.free_space refl room
                safe some_size fits size)
              refl refl (block_count_enough (length input) k.block_size some_size) small on)

      heard :
          replies told
          ≡ reply "READY" ∷ acks 0 n ++ reply (unwords (ok_words zlib_crc32 input)) ∷ []
      heard =
          ap (λ l. reply "READY" ∷ l)
            (replies-append (ack_lines 0 n) (unwords (ok_words zlib_crc32 input) ∷ [])
              ∙ ap (λ l. l ++ reply (unwords (ok_words zlib_crc32 input)) ∷ [])
                  (replies-ack_lines 0 n))

      all_sent :
          sent_of zlib_crc32 k input n filename s.sent
          ≡ s.sent ++ control (announcement zlib_crc32 filename input k.block_size) ∷ wire
      all_sent =
          append_assoc
            (s.sent ++ control (announcement zlib_crc32 filename input k.block_size) ∷ [])
            (wire_from zlib_crc32 input n k 0 n) (control (done_line zlib_crc32 input) ∷ [])
          ∙ append_assoc s.sent (control (announcement zlib_crc32 filename input k.block_size) ∷ [])
              wire
