-- ===== src/Vstp.antt =====
-- sources/services/apis/vstp/vstp.go: the text protocol, its lines and its commands.
pub mod Framing
pub mod Parsing
pub mod Clients
pub mod Commands
pub mod Waiting
pub mod CommandTests
pub mod Exchange
pub mod Answers
pub mod Processing
pub mod Sessions
pub mod Owning
pub mod Tests
use variables_and_streams_se.Base.{
  ℕ, List, [], ◌∷◌, ◌++◌, Bool, true, false, ◌&&◌, ◌||◌, ◌==◌, if◌then◌else◌, is_empty, map,
}
use variables_and_streams_se.Base.Text.{Text, codes, same, is_space, has_byte, before, after}

abbrev pub newline : ℕ
newline = 10

abbrev pub carriage_return : ℕ
carriage_return = 13

-- A byte in front of the first line, or of what is left if there is no line.
unfoldable pub onto_line : ℕ → List Text × Text → List Text × Text
onto_line c ([], left) = ([], c ∷ left)
onto_line c (line ∷ lines, left) = ((c ∷ line) ∷ lines, left)

-- The loop of the data callback: the lines of the buffer, and what is left of it.
unfoldable pub take_lines : Text → List Text × Text
take_lines [] = ([], [])
take_lines (c ∷ buf) =
    let (lines, left) = take_lines buf in
    if c == newline then ([] ∷ lines, left) else onto_line c (lines, left)

-- strings.TrimRight(line, b) for one byte b.
unfoldable pub trim_right : ℕ → Text → Text
trim_right b [] = []
trim_right b (c ∷ line) =
    let rest = trim_right b line in if (c == b) && is_empty rest then [] else c ∷ rest

-- The data callback: the messages that it starts to process, and the new buffer.
unfoldable pub on_client_data : Text → Text → List Text × Text
on_client_data buf bytes =
    let (lines, left) = take_lines (buf ++ bytes) in (map (trim_right carriage_return) lines, left)

-- strings.TrimSpace, as far as white space is ASCII.
unfoldable pub trim_left_space : Text → Text
trim_left_space [] = []
trim_left_space (c ∷ s) = if is_space c then trim_left_space s else c ∷ s

unfoldable pub trim_right_space : Text → Text
trim_right_space [] = []
trim_right_space (c ∷ s) =
    let rest = trim_right_space s in if is_space c && is_empty rest then [] else c ∷ rest

unfoldable pub trim_space : Text → Text
trim_space s = trim_right_space (trim_left_space s)

-- One of "=;:".
unfoldable pub is_separator : ℕ → Bool
is_separator c = (c == b'=') || ((c == b';') || (c == b':'))

unfoldable pub separate_key_and_value : Text → Text × Text
separate_key_and_value [] = ([], [])
separate_key_and_value (c ∷ s) =
    let (key, val) = separate_key_and_value s in if is_separator c then ([], s) else (c ∷ key, val)

-- strings.TrimSuffix(s, b)
unfoldable pub trim_suffix : ℕ → Text → Text
trim_suffix b [] = []
trim_suffix b (c ∷ []) = if c == b then [] else c ∷ []
trim_suffix b (c ∷ d ∷ s) = c ∷ trim_suffix b (d ∷ s)

unfoldable pub separate_name_and_metadata : Text → Text × Text
separate_name_and_metadata original =
    if has_byte b'(' original
    then (before b'(' original, trim_suffix b')' (after b'(' original))
    else (original, [])

-- protocolWrite
unfoldable pub protocol_write : Text → Text → Text
protocol_write cmd payload = cmd ++ b':' ∷ payload ++ newline ∷ []

-- What NotifyClient sends for one changed variable: the name, the metadata and the value.
unfoldable pub var_changed : Text → Text → Text → Text
var_changed name meta v =
    let meta_str = if is_empty meta then [] else b'(' ∷ meta ++ b')' ∷ [] in
    protocol_write (codes "varchanged") (name ++ meta_str ++ b'=' ∷ v)

-- The command and the payload of a message, as processReceivedMessage reads them.
unfoldable pub command_of : Text → Text × Text
command_of message =
    let (cmd, payload) = separate_key_and_value message in (trim_space cmd, trim_space payload)
