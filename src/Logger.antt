-- ===== src/Logger.antt =====
-- The logger (sources/misc/logger/logger.go) and the texts that its writers print
-- (sources/misc/logger/loggerutils/common.go). Package time is a parameter, and the entries of a
-- call are the texts that AnyToString gives for them.
use variables_and_streams_se.Base.{
  ℕ, zero, suc, ◌+◌, ◌-◌, ◌/◌, ◌%◌, Bool, true, false, not, ◌&&◌, List, [], ◌∷◌, ◌++◌, ◌==◌, ltb,
  if◌then◌else◌, length, is_empty,
}
use variables_and_streams_se.Base.Text.{Text, codes, join}
use variables_and_streams_se.Base.Decimal.{ℤ, pos, negsuc, itoa_nat, minus}
pub mod Escaping
pub mod Queue
mod Tests

-- strings.ReplaceAll(s, b, w) for one byte b.
unfoldable pub replace_all : ℕ → Text → Text → Text
replace_all b w [] = []
replace_all b w (c ∷ s) = if c == b then w ++ replace_all b w s else c ∷ replace_all b w s

-- strings.HasSuffix(s, b) for one byte b.
unfoldable pub has_suffix : ℕ → Text → Bool
has_suffix b [] = false
has_suffix b (c ∷ []) = c == b
has_suffix b (c ∷ d ∷ s) = has_suffix b (d ∷ s)

-- s[:n]
unfoldable pub take_bytes : ℕ → Text → Text
take_bytes zero s = []
take_bytes (suc n) [] = []
take_bytes (suc n) (c ∷ s) = c ∷ take_bytes n s

abbrev line_end : ℕ
line_end = 10

-- Ident
unfoldable pub ident : Text → Text → Text
unfolding replace_all has_suffix take_bytes
ident source prefix =
    let ret = replace_all line_end (line_end ∷ prefix) source in
    if has_suffix line_end source then take_bytes (length ret - length prefix) ret else ret

-- EscapeString
unfoldable pub escape_string : Text → Text
unfolding replace_all
escape_string s =
    let s1 = replace_all b'\\' (b'\\' ∷ b'\\' ∷ []) s in
    let s2 = replace_all b'"' (b'\\' ∷ b'"' ∷ []) s1 in
    let s3 = replace_all 10 (b'\\' ∷ b'n' ∷ []) s2 in
    let s4 = replace_all 13 (b'\\' ∷ b'r' ∷ []) s3 in replace_all 9 (b'\\' ∷ b't' ∷ []) s4

-- LevelToString
unfoldable pub level_to_string : ℕ → Text → Text
level_to_string level default_name =
    if level == 9
    then codes "TRACE"
    else if level == 10
    then codes "DEBUG2"
    else if level == 20
    then codes "DEBUG"
    else if level == 30
    then codes "INFO2"
    else if level == 40
    then codes "INFO"
    else if level == 50
    then codes "WARNING"
    else if level == 60
    then codes "ERROR"
    else if level == 70
    then codes "CRITICAL"
    else default_name

-- -n
abbrev negative : ℕ → ℤ
negative zero = pos 0
negative (suc n) = negsuc n

-- a - b
unfoldable pub difference : ℤ → ℤ → ℤ
difference (pos n) b = minus n b
difference (negsuc n) (pos m) = negsuc (n + m)
difference (negsuc n) (negsuc m) = minus m (pos n)

-- The hours and the minutes of an offset in seconds; / and % of Go round towards zero.
unfoldable pub hours_of : ℤ → ℤ
hours_of (pos n) = pos (n / 3600)
hours_of (negsuc n) = negative (suc n / 3600)

unfoldable pub minutes_of : ℤ → ℤ
minutes_of (pos n) = pos (n % 3600 / 60)
minutes_of (negsuc n) = negative (suc n % 3600 / 60)

-- %02d of fmt.Sprintf: at least two bytes, the sign among them.
unfoldable pub two_digits : ℤ → Text
unfolding itoa_nat
two_digits (pos n) = if ltb n 10 then b'0' ∷ itoa_nat n else itoa_nat n
two_digits (negsuc n) = b'-' ∷ itoa_nat (suc n)

-- %+03d: a sign always, and at least three bytes.
unfoldable pub signed_digits : ℤ → Text
unfolding two_digits
signed_digits (pos n) = b'+' ∷ two_digits (pos n)
signed_digits (negsuc n) = b'-' ∷ two_digits (pos (suc n))

-- What the source uses of time.Time: IsZero, the offset that Zone gives, Add of whole seconds, and
-- the text that Format gives with milliseconds or without.
pub record Clock : Type 1 where
  Time : Type 0
  is_zero : Time → Bool
  zone : Time → ℤ
  add : ℤ → Time → Time
  format : Bool → Time → Text

pub record Message (clock : Clock) : Type 0 where
  msg : Text
  level : ℕ
  name : Text
  date_time : clock.Time
  offset : ℤ

-- `buffer` is what the channel holds, the oldest first, and `written` what each of the writers was
-- given; the channel is never full.
pub record Logger (clock : Clock) : Type 0 where
  use_custom_timezone : Bool
  custom_offset : ℤ
  buffer : List (Message clock)
  written : List (Message clock)
  keep_next_line_opened : Bool

module _ (clock : Clock) where
  -- GenerateLineBeginning; `now` is time.Now().
  unfoldable pub generate_line_beginning :
      clock.Time → Text → Text → Bool → clock.Time → ℤ → Bool → Text
  unfolding difference hours_of minutes_of two_digits signed_digits
  generate_line_beginning now level_str name include_date_time date_time offset include_millis =
      let local = clock.add (difference offset (clock.zone now)) now in
      let time = if clock.is_zero date_time then local else date_time in
      let shift = signed_digits (hours_of offset) ++ two_digits (minutes_of offset) in
      let date = b'[' ∷ clock.format include_millis time ++ shift ++ codes "] " in
      let name_part = if is_empty name then [] else b'[' ∷ name ++ codes "] " in
      (if include_date_time then date else []) ++ b'[' ∷ level_str ++ codes "] " ++ name_part

  -- KeepNextLineOpened
  unfoldable pub keep_line_opened : Logger clock → Logger clock
  keep_line_opened l = record l { keep_next_line_opened = true }

  -- The text that Log makes of its entries.
  unfoldable pub line_of : Bool → List Text → Text
  unfolding join has_suffix
  line_of keep msgs =
      let line = join b' ' msgs in
      if not keep && not (has_suffix line_end line) then line ++ line_end ∷ [] else line

  -- The message that Log sends to the channel, with the options of the logger.
  unfoldable pub message_of : Bool → ℤ → Bool → clock.Time → ℕ → Text → List Text → Message clock
  unfolding difference line_of
  message_of custom custom_offset keep now level name msgs =
      let zone_offset = clock.zone now in
      let total = difference custom_offset zone_offset in
      record {
        msg = line_of keep msgs;
        level = level;
        name = name;
        date_time = if custom then clock.add total now else now;
        offset = if custom then total else zone_offset;
      }

  -- Log
  unfoldable pub log : clock.Time → ℕ → Text → List Text → Logger clock → Logger clock
  unfolding message_of
  log now level name msgs l =
      let custom = l.use_custom_timezone in
      let entry =
        message_of custom (l.custom_offset) (l.keep_next_line_opened) now level name msgs in
      record l { buffer = l.buffer ++ entry ∷ []; keep_next_line_opened = false }

  -- One round of the goroutine of NewLogger, which waits while there is no message.
  abbrev passed_on : List (Message clock) → Logger clock → Logger clock
  passed_on [] l = l
  passed_on (m ∷ ms) l = record l { buffer = ms; written = l.written ++ m ∷ [] }

  unfoldable pub write_next : Logger clock → Logger clock
  write_next l = passed_on (l.buffer) l
