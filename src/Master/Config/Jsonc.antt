-- ===== src/Master/Config/Jsonc.antt =====
-- src/ptp_client/ptp/l2master/config.py: the texts of configuration files and of addresses, as lists of
-- code points. The loop over an index is a machine with a mode.
pub mod Comments
use ptp_client.Prelude.{
  ℕ, ◌+◌, ◌-◌, ◌*◌, ◌==◌, ◌||◌, ◌&&◌, List, [], ◌∷◌, Bool, true, false, leb, length, if◌then◌else◌,
  Result, ok, err, value_error, ◌>>=◌,
}
use ptp_client.Wire.{Bytes}
use ptp_client.Request.{Text, is_space, hex_digit}

-- In a string, behind a backslash in it, in a comment to the end of the line or to its mark, or none.
pub data Mode : Type 0 where
  outside quoted escaped line block : Mode

abbrev quote : ℕ
quote = 34

abbrev backslash : ℕ
backslash = 92

abbrev slash : ℕ
slash = 47

abbrev star : ℕ
star = 42

abbrev newline : ℕ
newline = 10

-- _strip_jsonc_comments, from a mode on
unfoldable pub strip_from : Mode → Text → Text
strip_from mode [] = []
strip_from escaped (c ∷ cs) = c ∷ strip_from quoted cs
strip_from quoted (c ∷ cs) =
    let inside = strip_from quoted cs in
    let behind = strip_from escaped cs in
    let closed = strip_from outside cs in
    if c == backslash then c ∷ behind else if c == quote then c ∷ closed else c ∷ inside
strip_from line (c ∷ cs) =
    let ended = strip_from outside cs in
    let going = strip_from line cs in if c == newline then c ∷ ended else going
strip_from block (c ∷ []) = []
strip_from block (c ∷ d ∷ cs) =
    let ended = strip_from outside cs in
    let going = strip_from block (d ∷ cs) in if (c == star) && (d == slash) then ended else going
strip_from outside (c ∷ []) = c ∷ []
strip_from outside (c ∷ d ∷ cs) =
    let opened = strip_from quoted (d ∷ cs) in
    let to_line = strip_from line cs in
    let to_mark = strip_from block cs in
    let going = strip_from outside (d ∷ cs) in
    if c == quote
    then c ∷ opened
    else if (c == slash) && (d == slash)
    then to_line
    else if (c == slash) && (d == star)
    then to_mark
    else c ∷ going

unfoldable pub strip_jsonc_comments : Text → Text
strip_jsonc_comments s = strip_from outside s

-- A closing bracket comes next, behind white space.
unfoldable pub closes : Text → Bool
closes [] = false
closes (c ∷ cs) = let later = closes cs in if is_space c then later else (c == 125) || (c == 93)

-- _strip_trailing_commas
unfoldable pub strip_trailing_commas : Text → Text
strip_trailing_commas [] = []
strip_trailing_commas (c ∷ cs) =
    let rest = strip_trailing_commas cs in if (c == 44) && closes cs then rest else c ∷ rest

-- re.sub(r"[:\- ]", "", s)
unfoldable pub without_marks : Text → Text
without_marks [] = []
without_marks (c ∷ cs) =
    let rest = without_marks cs in if (c == 58) || ((c == 45) || (c == 32)) then rest else c ∷ rest

-- The white space that bytes.fromhex skips between two octets.
unfoldable pub is_ascii_space : ℕ → Bool
is_ascii_space c = (leb 9 c && leb c 13) || (c == 32)

unfoldable pub spaced_from_hex : Text → Result Bytes
spaced_from_hex [] = ok []
spaced_from_hex (a ∷ []) = if is_ascii_space a then ok [] else err value_error
spaced_from_hex (a ∷ b ∷ cs) =
    let skipped = spaced_from_hex (b ∷ cs) in
    let rest = spaced_from_hex cs in
    if is_ascii_space a
    then skipped
    else (do high ← hex_digit a; low ← hex_digit b; bs ← rest; ok ((high * 16 + low) ∷ bs))

-- _parse_mac and _parse_clock_identity: an address of so many octets.
unfoldable pub parse_address : ℕ → Text → Result Bytes
parse_address n s = do
  b ← spaced_from_hex (without_marks s)
  if length b == n then ok b else err value_error

abbrev pub parse_mac : Text → Result Bytes
parse_mac = parse_address 6

abbrev pub parse_identity : Text → Result Bytes
parse_identity = parse_address 8
