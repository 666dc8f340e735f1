-- ===== src/Confs/Sources.antt =====
-- sources/misc/confs/sources: where values of the configuration are looked for. What os.Getenv gives, the
-- arguments and the lines of the file are arguments.
use variables_and_streams_se.Base.{
  ℕ, zero, suc, List, [], ◌∷◌, ◌++◌, ◌&&◌, ◌||◌, Option, none, some, if◌then◌else◌, is_empty, leb,
  ◌+◌, ◌-◌, length, map, get_or,
}
use variables_and_streams_se.Base.Text.{Text, codes, same, has_byte, before, after, has_prefix}
use variables_and_streams_se.Base.Maps.{lookup, put}
use variables_and_streams_se.Vstp.{trim_space}

abbrev pub Table : Type 0
Table = List (Text × Text)

-- strings.ReplaceAll(s, old, new): `skip` bytes belong to the last match. An empty `old` matches in front
-- of every byte and at the end, as far as the text is ASCII.
unfoldable pub replace_from : Text → Text → ℕ → Text → Text
replace_from old new skip [] = []
replace_from old new (suc skip) (c ∷ s) = replace_from old new skip s
replace_from old new zero (c ∷ s) =
    let matched = replace_from old new (length old - 1) s in
    let kept = replace_from old new zero s in
    if has_prefix old (c ∷ s) then new ++ matched else c ∷ kept

unfoldable pub put_between : Text → Text → Text
put_between new [] = new
put_between new (c ∷ s) = new ++ c ∷ put_between new s

unfoldable pub replace_all : Text → Text → Text → Text
replace_all s [] new = put_between new s
replace_all s (c ∷ old) new = replace_from (c ∷ old) new 0 s

unfoldable pub underscored : Text → Text
underscored n = replace_all n (codes ".") (codes "_")

-- strings.ToUpper and strings.ToLower, as far as the text is ASCII.
abbrev pub upper_byte : ℕ → ℕ
upper_byte c = if leb b'a' c && leb c b'z' then c - 32 else c

abbrev pub lower_byte : ℕ → ℕ
lower_byte c = if leb b'A' c && leb c b'Z' then c + 32 else c

unfoldable pub to_upper : Text → Text
to_upper s = map upper_byte s

unfoldable pub to_lower : Text → Text
to_lower s = map lower_byte s

-- What a source finds: a value and the name that it stands under.
abbrev pub Found : Type 0
Found = Option (Text × Text)

-- IConfsSource
pub record Source : Type 0 where
  pub find : List Text → Found
  pub source_info : Text

-- The first of two names that has a value.
unfoldable pub first_of : Text → Option Text → Text → Option Text → Found → Found
first_of n (some v) alt w rest = some (v, n)
first_of n none alt (some w) rest = some (w, alt)
first_of n none alt none rest = rest

-- Find of CommandLineSource and of FileSource.
unfoldable pub find_in_table : Table → List Text → Found
find_in_table kv [] = none
find_in_table kv (n ∷ names) =
    first_of n (lookup same n kv) (underscored n) (lookup same (underscored n) kv)
      (find_in_table kv names)

-- A variable that is not set and one that is empty are the same.
unfoldable pub not_blank : Text → Option Text
not_blank v = if is_empty v then none else some v

-- Find of EnvSource.
unfoldable pub find_in_env : (Text → Text) → List Text → Found
find_in_env getenv [] = none
find_in_env getenv (n ∷ names) =
    let alt = to_upper (underscored n) in
    first_of n (not_blank (getenv n)) alt (not_blank (getenv alt)) (find_in_env getenv names)

-- An argument with no "=" and no ":" takes the next one as its value.
unfoldable pub next_argument : Text → List Text → Table → Table
next_argument a [] kv = kv
next_argument a (b ∷ args) kv = put same a b kv

unfoldable pub with_argument : Text → List Text → Table → Table
with_argument a args kv =
    if has_byte b'=' a
    then put same (before b'=' a) (after b'=' a) kv
    else if has_byte b':' a
    then put same (before b':' a) (after b':' a) kv
    else next_argument a args kv

-- The loop of NewCommandLineSource.
unfoldable pub read_arguments : List Text → Table → Table
read_arguments [] kv = kv
read_arguments (a ∷ args) kv = read_arguments args (with_argument a args kv)

unfoldable pub with_line : Text → Table → Table
with_line raw kv =
    let line = trim_space raw in
    if is_empty line || has_prefix (codes "#") line
    then kv
    else if has_byte b'=' line
    then put same (trim_space (before b'=' line)) (trim_space (after b'=' line)) kv
    else kv

-- The loop of NewFileSource.
unfoldable pub read_lines : List Text → Table → Table
read_lines [] kv = kv
read_lines (line ∷ lines) kv = read_lines lines (with_line line kv)

unfoldable pub command_line_source : List Text → Source
command_line_source args = record {
  find = find_in_table (read_arguments args []);
  source_info = codes "Command Line Arguments";
}

unfoldable pub env_source : (Text → Text) → Source
env_source getenv = record {
  find = find_in_env getenv;
  source_info = codes "Environment Variables";
}

unfoldable pub file_source : List Text → Source
file_source lines =
    let kv = read_lines lines [] in
    record {
      find = find_in_table kv;
      source_info =
          codes "Configuration File (" ++ get_or (lookup same (codes "file") kv) [] ++ codes ")";
    }
