-- ===== src/Client/Header.antt =====
-- The control lines of the loop in `_receive` of src/pcutp/client.py: which branch a line takes.
-- The tests stand in the source's order; they read only the line and two attributes.
use text.Mathlib.Text.{◌==◌ as str_eq}
use pcutp.Base.{
  ℕ, Bool, false, ◌&&◌, ◌||◌, not, Option, List, [], ◌∷◌, String, length, ltb, ◌==◌, if◌then◌else◌,
}
use pcutp.Base.Text.{split, is_decimal, int, part, upper}
use pcutp.Errors.{Kind, PcutpError}

-- the attributes of `PcutpClient`
pub record Client : Type 0 where
  pub free_space : Option ℕ
  pub max_block_size : ℕ
  pub window_limit : ℕ
  pub receive_buffer : ℕ
  pub window_size : ℕ
  pub flow : Bool
  pub compression_enabled : Bool
  pub compression : Bool
  pub identity : Bool

-- the fields of a DATA or ZDATA line; `raw_length` is `length` for DATA
pub record Block : Type 0 where
  pub packed : Bool
  pub seq : ℕ
  pub length : ℕ
  pub raw_length : ℕ
  pub want : String

pub data Header : Type 0 where
  error : PcutpError → Header
  probe : String → Header
  reset : String → Header
  finish : List String → Header
  barrier : String → Header
  bad_barrier : Header
  close : Header
  block : Block → Header
  not_block : Header
  bad_numbers : Header

-- `parts[:1] == [word]`
unfoldable pub starts : List String → String → Bool
starts [] word = false
starts (w ∷ ws) word = str_eq w word

-- the exception of `_raise_for_err`
unfoldable pub peer_error : List String → PcutpError
unfolding part
peer_error parts = record {
  kind = Kind.base;
  code = if ltb 1 (length parts) then part parts 1 else "PROTOCOL";
  detail = "";
}

-- the numeric fields, behind the test for DATA and ZDATA
unfoldable pub block_fields : Bool → List String → Header
unfolding part
block_fields packed parts =
    if not (is_decimal (part parts 1))
      || (not (is_decimal (part parts 2)) || packed && not (is_decimal (part parts 3)))
    then bad_numbers
    else block (record {
      packed = packed;
      seq = int (part parts 1);
      length = int (part parts 2);
      raw_length = if packed then int (part parts 3) else int (part parts 2);
      want = upper (if packed then part parts 4 else part parts 3);
    })

unfoldable pub classify : Client → String → Header
unfolding starts peer_error block_fields part
classify c header =
    let parts = split header in
    let packed = c.compression && (length parts == 5 && starts parts "ZDATA") in
    if starts parts "ERR"
    then error (peer_error parts)
    else if length parts == 2 && (starts parts "AYT?" && is_decimal (part parts 1))
    then probe (part parts 1)
    else if length parts == 3
        && (starts parts "RST" && (str_eq (part parts 1) "0" && is_decimal (part parts 2)))
    then reset (part parts 2)
    else if starts parts "DONE"
    then finish parts
    else if c.flow && (length parts == 2 && starts parts "BARRIER")
    then (if is_decimal (part parts 1) then barrier (part parts 1) else bad_barrier)
    else if str_eq header "CLOSE"
    then close
    else if not packed && (not (length parts == 4) || not (starts parts "DATA"))
    then not_block
    else block_fields packed parts
