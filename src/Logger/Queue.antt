-- ===== src/Logger/Queue.antt =====
-- What the writers are given by calls of the logger (sources/misc/logger/logger.go) and rounds of
-- its goroutine in any order.
use variables_and_streams_se.Base.{
  ℕ, zero, suc, Bool, true, false, List, [], ◌∷◌, ◌++◌, ◌≡◌, refl, ◌∙◌, sym, ap, append_assoc,
  append-nil, length,
}
use variables_and_streams_se.Base.Text.{Text}
use variables_and_streams_se.Base.Decimal.{ℤ}
use variables_and_streams_se.Logger.{
  Clock, Message, Logger, message_of, keep_line_opened, log, write_next, passed_on,
}

module _ (clock : Clock) where
  -- A call of KeepNextLineOpened, a call of Log, and a round of the goroutine.
  pub data Event : Type 0 where
    keep : Event
    call : clock.Time → ℕ → Text → List Text → Event
    round : Event

  unfoldable pub on_event : Event → Logger clock → Logger clock
  unfolding keep_line_opened log write_next
  on_event keep l = keep_line_opened clock l
  on_event (call now level name msgs) l = log clock now level name msgs l
  on_event round l = write_next clock l

  unfoldable pub run : List Event → Logger clock → Logger clock
  unfolding on_event
  run [] l = l
  run (e ∷ es) l = run es (on_event e l)

  -- The messages of the calls alone, for the options of the logger and its flag.
  unfoldable pub messages : Bool → ℤ → Bool → List Event → List (Message clock)
  unfolding message_of
  messages custom shift opened [] = []
  messages custom shift opened (keep ∷ es) = messages custom shift true es
  messages custom shift opened (call now level name msgs ∷ es) =
      message_of clock custom shift opened now level name msgs ∷ messages custom shift false es
  messages custom shift opened (round ∷ es) = messages custom shift opened es

  -- As many rounds as the number says.
  unfoldable pub rounds_of : ℕ → List Event
  rounds_of zero = []
  rounds_of (suc n) = round ∷ rounds_of n

  -- All messages in their order.
  abbrev all : Logger clock → List (Message clock)
  all l = l.written ++ l.buffer

  -- The messages that the calls of a run make from a logger on.
  abbrev made : Logger clock → List Event → List (Message clock)
  made l es = messages (l.use_custom_timezone) (l.custom_offset) (l.keep_next_line_opened) es

  all-passed_on :
      (ms : List (Message clock)) (l : Logger clock)
      → l.buffer ≡ ms
      → all (passed_on clock ms l) ≡ l.written ++ ms
  all-passed_on [] l h = rw h refl
  all-passed_on (m ∷ ms) l h = append_assoc (l.written) (m ∷ []) ms

  all-write_next : (l : Logger clock) → all (write_next clock l) ≡ all l
  unfolding write_next
  all-write_next l = all-passed_on (l.buffer) l refl

  made-passed_on :
      (ms : List (Message clock)) (l : Logger clock) (es : List Event)
      → made (passed_on clock ms l) es ≡ made l es
  made-passed_on [] l es = refl
  made-passed_on (m ∷ ms) l es = refl

  made-write_next : (l : Logger clock) (es : List Event) → made (write_next clock l) es ≡ made l es
  unfolding write_next
  made-write_next l es = made-passed_on (l.buffer) l es

  all-run : (es : List Event) (l : Logger clock) → all (run es l) ≡ all l ++ made l es
  unfolding run on_event messages keep_line_opened log
  all-run [] l = sym (append-nil (all l))
  all-run (keep ∷ es) l = all-run es (keep_line_opened clock l)
  all-run (call now level name msgs ∷ es) l =
      all-run es (log clock now level name msgs l) ∙ simp append_assoc
  all-run (round ∷ es) l =
      all-run es (write_next clock l) ∙ rw (all-write_next l, made-write_next l es)

  write_next_with :
      (ms : List (Message clock)) (l : Logger clock)
      → l.buffer ≡ ms
      → write_next clock l ≡ passed_on clock ms l
  unfolding write_next
  write_next_with ms l h = ap (λ k. passed_on clock k l) h

  rounds-written :
      (ms : List (Message clock)) (l : Logger clock)
      → l.buffer ≡ ms
      → (run (rounds_of (length ms)) l).written ≡ l.written ++ ms
  unfolding run on_event rounds_of write_next
  rounds-written [] l h = sym (append-nil (l.written))
  rounds-written (m ∷ ms) l h =
      ap (λ k. (run (rounds_of (length ms)) k).written) (write_next_with (m ∷ ms) l h)
      ∙ rounds-written ms (passed_on clock (m ∷ ms) l) refl
      ∙ append_assoc (l.written) (m ∷ []) ms

  -- Once the goroutine has had a round for every message that waits, the writers have been given
  -- what they had, what waited before, and a message for every call of the run, in this order.
  pub drained :
      (es : List Event) (l : Logger clock)
      → (run (rounds_of (length ((run es l).buffer))) (run es l)).written
        ≡ l.written ++ l.buffer ++ made l es
  drained es l = rounds-written ((run es l).buffer) (run es l) refl ∙ all-run es l
