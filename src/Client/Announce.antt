-- ===== src/Client/Announce.antt =====
-- `_recv_meta` of src/pcutp/client.py: the line that announces a file, behind FETCHING or at once.
use text.Mathlib.Text.{◌==◌ as str_eq}
use pcutp.Base.{◌||◌, not, Option, none, some, String, length, ◌==◌, if◌then◌else◌}
use pcutp.Base.Text.{split, part, is_decimal, int, upper}
use pcutp.Errors.{Kind, Result, ok, err, raise}
use pcutp.Names.{sanitize_filename}
use pcutp.Crc.Hex.{parse_hex}
use pcutp.Client.Header.{starts, peer_error}
use pcutp.Client.Receive.{Meta}

-- the fields of a line
unfoldable pub take_meta : String → Result Meta
unfolding starts part
take_meta line =
    let parts = split line in
    if not (length parts == 6) || not (starts parts "META")
    then raise Kind.protocol
    else if not (is_decimal (part parts 2))
        || (not (is_decimal (part parts 3)) || not (is_decimal (part parts 4)))
    then raise Kind.protocol
    else elim (parse_hex (upper (part parts 5))) [
      | none ↦ raise Kind.protocol
      | some checksum ↦ elim (sanitize_filename (part parts 1)) [
        | err e ↦ err e
        | ok filename ↦ ok (record {
          filename = filename;
          size = int (part parts 2);
          blocksize = int (part parts 3);
          blocks = int (part parts 4);
          crc32 = upper (part parts 5);
        })
      ]
    ]

-- behind `_raise_for_err`
unfoldable pub checked_meta : String → Result Meta
unfolding take_meta
checked_meta line =
    if starts (split line) "ERR" then err (peer_error (split line)) else take_meta line

-- what the link delivers: a line or a timeout, twice where the first line is FETCHING
unfoldable pub recv_meta : Option String → Option String → Result Meta
unfolding checked_meta
recv_meta none second = raise Kind.timeout
recv_meta (some line) second =
    if str_eq line "FETCHING"
    then (elim second [ none ↦ raise Kind.timeout | some line' ↦ checked_meta line' ])
    else checked_meta line
