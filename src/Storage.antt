-- ===== src/Storage.antt =====
-- sources/services/storage: the in-memory tree of ramcachedb.go behind the operations of istorage.go.
-- A stored `DynamicVar` is its text. The dump file on disk is part of the state of the service.
pub mod Path
pub mod Tree
pub mod Values
pub mod Wf
pub mod Deletion
pub mod Dump
pub mod Replay
pub mod RoundTrip
pub mod Plain
pub mod Durability
pub mod Interface
pub mod Depth
pub mod Gets
mod Each
pub mod Tests
pub mod Laws
use variables_and_streams_se.Base.{
  List, [], Bool, true, false, Option, none, some, if◌then◌else◌, is_empty, map,
}
use variables_and_streams_se.Base.Text.{Text}
use Path.{scroll_path}
use Tree.{
  RamNode, Childs, node, no_childs, child, find, alter, delete_at, set_value, value, childs, keys,
}

-- `RamCacheDB`, without its configuration and its locks: each operation below runs under `mu`.
pub record RamCacheDb : Type 0 where
  pub root : RamNode
  pub pending_changes : Bool

abbrev pub empty_db : RamCacheDb
empty_db = record { root = node [] [] no_childs; pending_changes = false }

unfoldable pub set : Text → Text → RamCacheDb → RamCacheDb
set name v r = record {
  root = alter (scroll_path name) (set_value v) r.root;
  pending_changes = true;
}

unfoldable pub get : Text → Text → RamCacheDb → Text
get name default r = elim (find (scroll_path name) r.root) [
  | none ↦ default
  | some item ↦ value item
]

unfoldable pub get_childs : Text → RamCacheDb → List Text
get_childs parent_name r =
    if is_empty parent_name
    then keys (childs r.root)
    else elim (find (scroll_path parent_name) r.root) [ none ↦ [] | some item ↦ keys (childs item) ]

unfoldable pub has_value : Text → RamCacheDb → Bool
has_value name r = elim (find (scroll_path name) r.root) [ none ↦ false | some item ↦ true ]

unfoldable pub delete_value : Text → Bool → RamCacheDb → RamCacheDb
delete_value name cascade r = elim (find (scroll_path name) r.root) [
  | none ↦ r
  | some item ↦ record {
    root = delete_at (scroll_path name) cascade r.root;
    pending_changes = true;
  }
]
