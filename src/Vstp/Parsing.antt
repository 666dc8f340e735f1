-- ===== src/Vstp/Parsing.antt =====
-- Writing and reading messages, and names with metadata.
use variables_and_streams_se.Base.{
  ℕ, [], ◌∷◌, ◌++◌, false, ◌≡◌, refl, arith, if◌then◌else◌, map, append_assoc, All, is_empty,
}
use variables_and_streams_se.Base.Text.{
  Text, Lacks, Lacks-append, is_space, has_byte, has_byte-append, before-append, after-append,
}
use variables_and_streams_se.Vstp.{
  newline, carriage_return, onto_line, take_lines, trim_right, on_client_data, trim_space,
  trim_left_space, trim_right_space, is_separator, separate_key_and_value,
  separate_name_and_metadata, trim_suffix, protocol_write, command_of,
}

-- A byte of a command's word.
abbrev pub IsWordByte : ℕ → Type 0
IsWordByte c = (is_separator c ≡ false) × (is_space c ≡ false)

abbrev pub IsWord : Text → Type 0
IsWord = All IsWordByte

take_lines_one : (s : Text) → Lacks newline s → take_lines (s ++ newline ∷ []) ≡ (s ∷ [], [])
unfolding take_lines onto_line
take_lines_one [] h = ground arith
take_lines_one (c ∷ s) h = ground (arith, take_lines_one s)

IsWord-Lacks : (s : Text) → IsWord s → Lacks newline s
unfolding is_space
IsWord-Lacks [] h = tt
IsWord-Lacks (c ∷ s) (h, hs) = (ground arith, IsWord-Lacks s hs)

pub separate_word :
    (key : Text) (val : Text) → IsWord key → separate_key_and_value (key ++ b':' ∷ val) ≡ (key, val)
unfolding separate_key_and_value is_separator
separate_word [] val h = ground arith
separate_word (c ∷ key) val (h, hs) = ground (arith, separate_word key val hs)

pub trim_left_word : (s : Text) → IsWord s → trim_left_space s ≡ s
unfolding trim_left_space
trim_left_word [] h = refl
trim_left_word (c ∷ s) (h, hs) = ground arith

pub trim_right_word : (s : Text) → IsWord s → trim_right_space s ≡ s
unfolding trim_right_space
trim_right_word [] h = refl
trim_right_word (c ∷ s) (h, hs) = ground (arith, trim_right_word s hs)

trim_right_of_spaces : (s : Text) → trim_right_space s ≡ s → trim_right carriage_return s ≡ s
unfolding trim_right_space trim_right is_space
trim_right_of_spaces [] h = refl
trim_right_of_spaces (c ∷ s) h = ground (arith, trim_right_of_spaces s)

not_empty : (s t : Text) → is_empty (s ++ b':' ∷ t) ≡ false
not_empty [] t = refl
not_empty (c ∷ s) t = refl

trim_right_behind :
    (s t : Text)
    → trim_right carriage_return t ≡ t
    → trim_right carriage_return (s ++ b':' ∷ t) ≡ s ++ b':' ∷ t
unfolding trim_right
trim_right_behind [] t h = ground arith
trim_right_behind (c ∷ s) t h = ground (arith, trim_right_behind s t, not_empty s t)

-- Neither end is white space.
abbrev pub IsTrimmed : Text → Type 0
IsTrimmed s = (trim_left_space s ≡ s) × (trim_right_space s ≡ s)

message_line :
    (cmd payload : Text)
    → IsWord cmd
    → Lacks newline payload
    → trim_right_space payload ≡ payload
    → on_client_data [] (protocol_write cmd payload) ≡ ((cmd ++ b':' ∷ payload) ∷ [], [])
unfolding on_client_data protocol_write
message_line cmd payload w l t =
    rw
      (
        take_lines_one (cmd ++ b':' ∷ payload)
            (Lacks-append newline cmd (b':' ∷ payload) (IsWord-Lacks cmd w) (omega arith, l)),
        trim_right_behind cmd payload (trim_right_of_spaces payload t),
      )
      refl

-- A message that is written with a plain command and a payload of one line with no white space at its
-- ends arrives as one message, of which that command and that payload are read, and leaves nothing in
-- the buffer.
pub command_of-protocol_write :
    (cmd payload : Text)
    → IsWord cmd
    → Lacks newline payload
    → IsTrimmed payload
    → (map command_of (on_client_data [] (protocol_write cmd payload)).0 ≡ (cmd, payload) ∷ [])
      × ((on_client_data [] (protocol_write cmd payload)).1 ≡ [])
unfolding command_of trim_space
command_of-protocol_write cmd payload w l (tl, tr) = rw (message_line cmd payload w l tr) (
  rw (separate_word cmd payload w, trim_left_word cmd w, trim_right_word cmd w, tl, tr) refl,
  refl,
)

trim_suffix-append : (b : ℕ) (s : Text) → trim_suffix b (s ++ b ∷ []) ≡ s
unfolding trim_suffix
trim_suffix-append b [] = ground arith
trim_suffix-append b (c ∷ []) = ground arith
trim_suffix-append b (c ∷ d ∷ s) = ground (arith, trim_suffix-append b (d ∷ s))

has_byte_of_Lacks : (b : ℕ) (s : Text) → Lacks b s → has_byte b s ≡ false
unfolding has_byte
has_byte_of_Lacks b [] h = refl
has_byte_of_Lacks b (c ∷ s) h = ground (arith, has_byte_of_Lacks b s)

-- The name with its metadata as NotifyClient writes it.
abbrev pub name_with : Text → Text → Text
name_with name meta = if is_empty meta then name else name ++ b'(' ∷ meta ++ b')' ∷ []

-- A name with no parenthesis and any metadata are read back from the form in which they are written.
pub separate-name_with :
    (name meta : Text)
    → Lacks b'(' name
    → separate_name_and_metadata (name_with name meta) ≡ (name, meta)
unfolding separate_name_and_metadata
separate-name_with name [] h = rw (has_byte_of_Lacks b'(' name h) refl
separate-name_with name (m ∷ meta) h =
    rw
      (
        append_assoc name (b'(' ∷ m ∷ meta) (b')' ∷ []),
        has_byte-append b'(' name ((m ∷ meta) ++ b')' ∷ []),
        before-append b'(' name _ h,
        after-append b'(' name _ h,
        trim_suffix-append b')' (m ∷ meta),
      )
      refl
