-- ===== src/Storage/Tree.antt =====
-- The tree of `RamCacheDB` (sources/services/storage/ramcachedb.go): its nodes, the descent along a
-- list of immediate names, and the changes made at the node where the descent ends.
use variables_and_streams_se.Base.{
  List, [], ◌∷◌, Bool, true, false, Option, none, some, if◌then◌else◌, is_empty, get_or,
}
use variables_and_streams_se.Base.Text.{Text, same}

-- A `ramNode`. Its `parent` is the node that holds it, which the descent comes through. A map of
-- children is a list of keys and nodes; Go leaves the order of a range over it open.
mutual
  pub data RamNode : Type 0 where
    node : Text → Text → Childs → RamNode

  pub data Childs : Type 0 where
    no_childs : Childs
    child : Text → RamNode → Childs → Childs

abbrev pub imediate_name : RamNode → Text
imediate_name (node i v cs) = i

abbrev pub value : RamNode → Text
value (node i v cs) = v

abbrev pub childs : RamNode → Childs
childs (node i v cs) = cs

abbrev pub set_value : Text → RamNode → RamNode
set_value v (node i w cs) = node i v cs

abbrev pub set_childs : Childs → RamNode → RamNode
set_childs cs (node i v ds) = node i v cs

-- childs[k]
unfoldable pub get_child : Text → Childs → Option RamNode
get_child k no_childs = none
get_child k (child j n cs) = if same j k then some n else get_child k cs

-- childs[k] = n
unfoldable pub put_child : Text → RamNode → Childs → Childs
put_child k n no_childs = child k n no_childs
put_child k n (child j m cs) = if same j k then child j n cs else child j m (put_child k n cs)

-- delete(childs, k)
unfoldable pub delete_child : Text → Childs → Childs
delete_child k no_childs = no_childs
delete_child k (child j m cs) =
    let rest = delete_child k cs in if same j k then rest else child j m rest

abbrev pub is_leaf : Childs → Bool
is_leaf no_childs = true
is_leaf (child k n cs) = false

-- The keys, in the order of a range over the map.
unfoldable pub keys : Childs → List Text
keys no_childs = []
keys (child k n cs) = k ∷ keys cs

-- scrollTree with readOnly: the node where the descent ends, if all its nodes are there.
unfoldable pub find : List Text → RamNode → Option RamNode
find [] n = some n
find (k ∷ ks) n = elim (get_child k (childs n)) [ none ↦ none | some m ↦ find ks m ]

-- The node that scrollTree makes for a missing name.
abbrev pub new_node : Text → RamNode
new_node k = node k [] no_childs

-- scrollTree without readOnly, and a change of the node that it returns.
unfoldable pub alter : List Text → (RamNode → RamNode) → RamNode → RamNode
alter [] f n = f n
alter (k ∷ ks) f n =
    let m = get_or (get_child k (childs n)) (new_node k) in
    set_childs (put_child k (alter ks f m) (childs n)) n

-- DeleteValue: what becomes of the node that was found, before its parent is looked at.
unfoldable pub cleared : Bool → RamNode → RamNode
cleared cascade (node i v cs) = node i [] (if cascade then no_childs else cs)

-- DeleteValue: a node with no children left goes out of its parent's map, under its own name.
unfoldable pub drop_or_keep : Text → RamNode → Childs → Childs
drop_or_keep k m cs =
    if is_leaf (childs m) then delete_child (imediate_name m) cs else put_child k m cs

unfoldable pub delete_at : List Text → Bool → RamNode → RamNode
delete_at [] cascade n = n
delete_at (k ∷ ks) cascade n = elim (get_child k (childs n)) [
  | none ↦ n
  | some m ↦
      if is_empty ks
      then set_childs (drop_or_keep k (cleared cascade m) (childs n)) n
      else set_childs (put_child k (delete_at ks cascade m) (childs n)) n
]
