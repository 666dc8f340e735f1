-- ===== src/Storage/Dump.antt =====
-- `dumpToStringLocked`, `load` and `backgroundDumper` of sources/services/storage/ramcachedb.go.
use variables_and_streams_se.Base.{
  ℕ, List, [], ◌∷◌, ◌++◌, false, Option, none, some, if◌then◌else◌, is_empty,
}
use variables_and_streams_se.Base.Text.{Text, before, after, has_byte, split, is_blank}
use variables_and_streams_se.Storage.{RamCacheDb}
use variables_and_streams_se.Storage.Path.{dot, scroll_path}
use variables_and_streams_se.Storage.Tree.{
  RamNode, Childs, node, no_childs, child, value, set_value, alter,
}

abbrev pub newline : ℕ
newline = 10

abbrev pub equals : ℕ
equals = b'='

-- `prefix` of dumpToStringLocked.
unfoldable pub dump_prefix : Text → Text
dump_prefix parent = if is_empty parent then [] else parent ++ dot ∷ []

-- One line of the dump, and none for the empty value.
unfoldable pub dump_line : Text → Text → Text
dump_line key v = if is_empty v then [] else key ++ equals ∷ v ++ newline ∷ []

-- dumpToStringLocked, and its range over the children.
unfoldable mutual
  pub dump_to_string : RamNode → Text → Text
  dump_to_string (node i v cs) parent = dump_childs cs (dump_prefix parent)

  pub dump_childs : Childs → Text → Text
  dump_childs no_childs prefix = []
  dump_childs (child k c cs) prefix =
      dump_line (prefix ++ k) (value c) ++ dump_to_string c (prefix ++ k) ++ dump_childs cs prefix

-- The round of `load` for one line of the file.
unfoldable pub load_line : Text → RamNode → RamNode
load_line line n =
    if is_blank line
    then n
    else if has_byte equals line
    then alter (scroll_path (before equals line)) (set_value (after equals line)) n
    else n

unfoldable pub load_lines : List Text → RamNode → RamNode
load_lines [] n = n
load_lines (line ∷ lines) n = load_lines lines (load_line line n)

-- `load`, given what is read of the file: nothing, if it does not exist.
unfoldable pub load : Option Text → RamCacheDb → RamCacheDb
load none r = r
load (some text) r = record {
  root = load_lines (split newline text) r.root;
  pending_changes = false;
}

-- What os.MkdirAll and os.WriteFile come to: the whole text, or an error and what it leaves of the file,
-- which os.WriteFile truncates before it writes.
pub data Write : Type 0 where
  complete : Write
  broken : Option Text → Write

-- What is then in the file.
unfoldable pub file_after : Write → Text → Option Text
file_after complete text = some text
file_after (broken left) text = left

-- The service with its file.
pub record Service : Type 0 where
  pub db : RamCacheDb
  pub file : Option Text

-- A round of backgroundDumper. `dump` logs a failure and returns, and the round goes on.
unfoldable pub dump_round : Write → Service → Service
unfolding file_after
dump_round write s =
    if s.db.pending_changes
    then record {
      db = record { root = s.db.root; pending_changes = false };
      file = file_after write (dump_to_string s.db.root []);
    }
    else s
