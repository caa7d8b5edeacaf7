-- ===== src/Tests/Choices.antt =====
-- The names and block sizes of src/pcutp/names.py and src/pcutp/flow.py.
use pcutp.Base.{ℕ, ◌≤◌, ◌≡◌, ◌≢◌, refl, true, false, String}
use pcutp.Errors.{ok}
use pcutp.Names.{text_length, is_allowed, sanitize_filename}
use pcutp.Names.Safe.{has_separator, sanitize_filename_safe, sanitize_filename-sanitize_filename}

abbrev passwd : String
passwd = "passwd"

sanitized : sanitize_filename "../../etc\\passwd" ≡ ok "passwd"
unfolding sanitize_filename
sanitized = refl

sanitize_filename_safe_example :
    (has_separator "passwd" ≡ false)
    × (passwd ≢ "")
    × (passwd ≢ ".")
    × (passwd ≢ "..")
    × (text_length "passwd" ≤ 64)
    × (is_allowed "passwd" ≡ true)
sanitize_filename_safe_example = sanitize_filename_safe "../../etc\\passwd" "passwd" sanitized

sanitize_filename-sanitize_filename_example : sanitize_filename "passwd" ≡ ok "passwd"
sanitize_filename-sanitize_filename_example =
    sanitize_filename-sanitize_filename "../../etc\\passwd" "passwd" sanitized

abbrev window : ℕ
window = 2
