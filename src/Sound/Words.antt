-- ===== src/Sound/Words.antt =====
-- The tables of src/pcutp/sound.py, and a lookup in a table. A set of words is a list.
use text.Mathlib.Text.{◌==◌ as str_eq}
use pcutp.Base.{ℕ, Bool, false, ◌||◌, Option, none, some, List, [], ◌∷◌, String, if◌then◌else◌}

abbrev pub pitch : List (String × ℕ)
pitch =
    ("HELLO", 262)
    ∷ ("HELLO?", 277)
    ∷ ("OHRU", 370)
    ∷ ("GET", 294)
    ∷ ("FETCHING", 311)
    ∷ ("META", 330)
    ∷ ("READY", 349)
    ∷ ("DATA", 392)
    ∷ ("ZDATA", 415)
    ∷ ("BARRIER", 196)
    ∷ ("RESUME", 554)
    ∷ ("DROP", 185)
    ∷ ("RST", 123)
    ∷ ("RST-ACK", 138)
    ∷ ("AYT?", 698)
    ∷ ("AYT-OK", 784)
    ∷ ("RMB?", 932)
    ∷ ("RMB", 1047)
    ∷ ("RMB-ACK", 1175)
    ∷ ("HERE", 880)
    ∷ ("BYE", 131)
    ∷ ("ACK", 440)
    ∷ ("NAK", 147)
    ∷ ("DONE", 494)
    ∷ ("OK", 523)
    ∷ ("FAIL", 110)
    ∷ ("ERR", 98)
    ∷ ("CLOSE", 82)
    ∷ ("HRU", 466)
    ∷ ("PING", 740)
    ∷ ("PONG", 831)
    ∷ ("BEACON", 622)
    ∷ ("MARK", 659)
    ∷ []

abbrev pub morse_signatures : List (String × String)
morse_signatures =
    ("BEACON", "-...")
    ∷ ("MARK", "--")
    ∷ ("PING", ".--.")
    ∷ ("PONG", ".--. ---")
    ∷ ("HELLO", "....")
    ∷ ("HELLO?", "..--..")
    ∷ ("OHRU", "---")
    ∷ ("HRU", ".... .-. ..-")
    ∷ ("CLOSE", "-.-.")
    ∷ ("BYE", "-...")
    ∷ []

abbrev pub net_error_hz : List (String × ℕ)
net_error_hz = ("UrlError", 120) ∷ ("DnsError", 150) ∷ ("HttpError", 180) ∷ ("SizeError", 100) ∷ []

abbrev pub dtmf_rows : List (String × ℕ)
dtmf_rows =
    ("1", 697)
    ∷ ("2", 697)
    ∷ ("3", 697)
    ∷ ("4", 770)
    ∷ ("5", 770)
    ∷ ("6", 770)
    ∷ ("7", 852)
    ∷ ("8", 852)
    ∷ ("9", 852)
    ∷ ("0", 941)
    ∷ []

abbrev pub dtmf_cols : List (String × ℕ)
dtmf_cols =
    ("1", 1209)
    ∷ ("2", 1336)
    ∷ ("3", 1477)
    ∷ ("4", 1209)
    ∷ ("5", 1336)
    ∷ ("6", 1477)
    ∷ ("7", 1209)
    ∷ ("8", 1336)
    ∷ ("9", 1477)
    ∷ ("0", 1336)
    ∷ []

abbrev pub short : List String
short = "DATA" ∷ "ZDATA" ∷ "ACK" ∷ "HRU" ∷ "PING" ∷ "PONG" ∷ []

abbrev pub squares : List String
squares = "ERR" ∷ "NAK" ∷ "FAIL" ∷ []

abbrev pub triangles : List String
triangles = "DATA" ∷ "ZDATA" ∷ "ACK" ∷ []

abbrev pub word_ms : ℕ
word_ms = 45

abbrev pub blip_ms : ℕ
blip_ms = 12

abbrev pub morse_unit_ms : ℕ
morse_unit_ms = 30

abbrev pub rate : ℕ
rate = 22050

-- `word in words`
unfoldable pub is_in : String → List String → Bool
is_in word [] = false
is_in word (w ∷ words) = str_eq w word || is_in word words

-- `table.get(word)`
unfoldable pub lookup {ℓ} : {V : Type ℓ} → String → List (String × V) → Option V
lookup word [] = none
lookup word ((k, v) ∷ table) = if str_eq k word then some v else lookup word table
