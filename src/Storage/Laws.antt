-- ===== src/Storage/Laws.antt =====
-- The operations of the storage by name: what a name holds after each of them.
use variables_and_streams_se.Base.{
  List, [], ◌∷◌, Bool, Option, none, some, if◌then◌else◌, get_or, ◌≡◌, arith, Option-cases, inl,
  inr, is_some,
}
use variables_and_streams_se.Base.Text.{Text}
use variables_and_streams_se.Storage.{RamCacheDb, empty_db, set, get, has_value, delete_value}
use variables_and_streams_se.Storage.Path.{
  scroll_path, scroll_path-ne-nil, scroll_path-All-Lacks, same_path, is_prefix,
}
use variables_and_streams_se.Storage.Tree.{find}
use variables_and_streams_se.Storage.Values.{value_at, value_at-alter, left_at}
use variables_and_streams_se.Storage.Wf.{IsWf, IsWf-alter, IsWf-delete_at, IsWf-empty}
use variables_and_streams_se.Storage.Deletion.{value_at-delete_at}

-- What a name holds: nothing, or the value of its node.
unfoldable pub holds : Text → RamCacheDb → Option Text
holds name r = value_at (scroll_path name) r.root

pub get_lem :
    (name default : Text) (r : RamCacheDb) → get name default r ≡ get_or (holds name r) default
unfolding get holds value_at
get_lem name default r = ground arith

pub has_value_lem : (name : Text) (r : RamCacheDb) → has_value name r ≡ is_some (holds name r)
unfolding has_value holds value_at
has_value_lem name r = ground arith

-- after_deletion Set the name, in every spelling that goes through the same nodes, holds the new value. A name
-- on the way to it holds what it held, and the empty value if it held nothing. Every other name holds
-- what it held.
pub holds-set :
    (name other v : Text) (r : RamCacheDb)
    → holds other (set name v r) ≡ (
        if same_path (scroll_path name) (scroll_path other)
        then some v
        else if is_prefix (scroll_path other) (scroll_path name)
        then some (get_or (holds other r) [])
        else holds other r)
unfolding holds set
holds-set name other v r = value_at-alter (scroll_path name) (scroll_path other) v r.root

-- What is left of a name that DeleteValue is called for: its node, with the empty value, if it has
-- children that stay.
unfoldable pub kept : Text → Bool → RamCacheDb → Option Text
kept name cascade r = elim (find (scroll_path name) r.root) [
  | none ↦ none
  | some m ↦ left_at cascade m
]

unfoldable pub IsSound : RamCacheDb → Type 0
IsSound r = IsWf r.root

-- after_deletion DeleteValue the name itself holds nothing, or the empty value if its node has children and
-- they are kept. The names below it hold nothing in a cascade. Every other name holds what it held.
pub holds-delete_value :
    (name other : Text) (cascade : Bool) (r : RamCacheDb)
    → IsSound r
    → holds other (delete_value name cascade r) ≡ (
        if has_value name r
        then (if is_prefix (scroll_path name) (scroll_path other)
            then (if same_path (scroll_path name) (scroll_path other)
                then kept name cascade r
                else if cascade
                then none
                else holds other r)
            else holds other r)
        else holds other r)
unfolding holds delete_value kept has_value IsSound
holds-delete_value name other cascade r w = elim (Option-cases (find (scroll_path name) r.root)) [
  | inl e ↦ rw (e, has_value, delete_value)
  | inr (m, e) ↦
      rw (e, has_value, delete_value, kept)
        (value_at-delete_at (scroll_path name) cascade r.root m (scroll_path other) w e
          (scroll_path-ne-nil name))
]

-- The changes that a client can make.
pub data Change : Type 0 where
  set_name : Text → Text → Change
  delete_name : Text → Bool → Change

unfoldable pub apply : Change → RamCacheDb → RamCacheDb
apply (set_name name v) r = set name v r
apply (delete_name name cascade) r = delete_value name cascade r

unfoldable pub run : List Change → RamCacheDb → RamCacheDb
run [] r = r
run (c ∷ cs) r = run cs (apply c r)

pub set-IsSound : (name v : Text) (r : RamCacheDb) → IsSound r → IsSound (set name v r)
unfolding IsSound set
set-IsSound name v r w = IsWf-alter (scroll_path name) v r.root (scroll_path-All-Lacks name) w

pub delete_value-IsSound :
    (name : Text) (cascade : Bool) (r : RamCacheDb)
    → IsSound r
    → IsSound (delete_value name cascade r)
unfolding IsSound delete_value
delete_value-IsSound name cascade r w = elim (Option-cases (find (scroll_path name) r.root)) [
  | inl e ↦ rw (e, delete_value) w
  | inr (m, e) ↦ rw (e, delete_value) (IsWf-delete_at (scroll_path name) cascade r.root w)
]

pub apply-IsSound : (c : Change) (r : RamCacheDb) → IsSound r → IsSound (apply c r)
unfolding apply
apply-IsSound (set_name name v) r w = set-IsSound name v r w
apply-IsSound (delete_name name cascade) r w = delete_value-IsSound name cascade r w

-- From a sound tree every sequence of changes leads to a sound one: each node goes by the key that it
-- stands under, no key stands twice in a map, and no key has a dot.
pub run-IsSound : (cs : List Change) (r : RamCacheDb) → IsSound r → IsSound (run cs r)
unfolding run
run-IsSound [] r w = w
run-IsSound (c ∷ cs) r w = run-IsSound cs (apply c r) (apply-IsSound c r w)

pub empty_db-IsSound : IsSound empty_db
unfolding IsSound
empty_db-IsSound = IsWf-empty
