-- ===== src/Logger/Tests.antt =====
-- Runs of the logger.
use variables_and_streams_se.Base.{true, false, [], ◌∷◌, ◌++◌, List, ◌≡◌, refl, length}
use variables_and_streams_se.Base.Text.{codes, join, Lacks}
use variables_and_streams_se.Base.Decimal.{ℤ, pos, negsuc, itoa_nat, digits}
use variables_and_streams_se.Logger.{
  Clock, Logger, replace_all, has_suffix, take_bytes, ident, escape_string, level_to_string,
  difference, hours_of, minutes_of, two_digits, signed_digits, generate_line_beginning, line_of,
  message_of, keep_line_opened, log, write_next,
}
use variables_and_streams_se.Logger.Escaping.{unescape, unescape-escape_string}
use variables_and_streams_se.Logger.Queue.{
  Event, keep, call, round, on_event, run, messages, rounds_of, drained,
}

-- A clock of seconds in one zone, which prints no date.
abbrev clock : Clock
clock = record {
  Time = ℤ;
  is_zero = λ t. false;
  zone = λ t. pos 10800;
  add = λ d t. t;
  format = λ millis t. codes "T";
}

-- Opens all that a run of the logger computes with.
unfoldable logger_runs : Unit {0}
unfolding replace_all has_suffix take_bytes ident escape_string level_to_string difference hours_of
    minutes_of two_digits signed_digits generate_line_beginning line_of message_of keep_line_opened
    log write_next on_event run messages rounds_of itoa_nat digits join
logger_runs = tt

abbrev logger : Logger clock
logger = record {
  use_custom_timezone = true;
  custom_offset = pos 0;
  buffer = [];
  written = [];
  keep_next_line_opened = false;
}

ident_keeps_end : ident (codes "a\nb\n") (codes "> ") ≡ codes "a\n> b\n"
unfolding logger_runs
ident_keeps_end = refl

error_level : level_to_string 60 (codes "?") ≡ codes "ERROR"
unfolding logger_runs
error_level = refl

-- Half an hour behind the other zone: the minutes have a sign of their own.
minutes_signed :
    generate_line_beginning clock
      (pos 0)
      (codes "INFO")
      (codes "n")
      true
      (pos 0)
      (negsuc 12599)
      false
    ≡ codes "[T-03-30] [INFO] [n] "
unfolding logger_runs
minutes_signed = refl

-- With a custom zone of 0 in a zone of three hours, the message is labelled with -3 hours.
offset_is_shift :
    (message_of clock true (pos 0) false (pos 0) 40 [] (codes "a" ∷ codes "b" ∷ [])).offset
    ≡ negsuc 10799
unfolding logger_runs
offset_is_shift = refl

unescape-escape_string_example :
    (unescape (escape_string (codes "a\n\"\\n")) ≡ codes "a\n\"\\n")
    × Lacks 10 (escape_string (codes "a\n\"\\n"))
unescape-escape_string_example = unescape-escape_string (codes "a\n\"\\n")

abbrev events : List (Event clock)
events =
    call (pos 0) 40 [] (codes "a" ∷ [])
    ∷ round
    ∷ keep
    ∷ call (pos 1) 60 [] (codes "b" ∷ [])
    ∷ call (pos 2) 60 [] (codes "c" ∷ [])
    ∷ []

drained_example :
    (run clock
      (rounds_of clock (length ((run clock events logger).buffer)))
      (run clock events logger)).written
    ≡ logger.written ++ logger.buffer ++ messages clock true (pos 0) false events
drained_example = drained clock events logger
