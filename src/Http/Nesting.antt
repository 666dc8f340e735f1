-- ===== src/Http/Nesting.antt =====
-- What is read of the tree after `insertNested`.
use variables_and_streams_se.Base.{
  List, [], ◌∷◌, false, Option, none, some, ◌≡◌, refl, arith, if◌then◌else◌, is_empty,
}
use variables_and_streams_se.Base.Text.{Text, same, same_refl, eq_of_same}
use variables_and_streams_se.Http.Tree.{
  Json, null, scalar, text, array, object, Fields, end, field, get_field, put_field, own_value,
  merged, as_map, insert_nested,
}

-- What a path leads to from a node: a value, which a map holds as "_value".
unfoldable pub read_from : List Text → Option Json → Option Json
read_from [] none = none
read_from [] (some (object m)) = get_field own_value m
read_from [] (some null) = some null
read_from [] (some (scalar s)) = some (scalar s)
read_from [] (some (text s)) = some (text s)
read_from [] (some (array xs)) = some (array xs)
read_from (d ∷ q) (some (object m)) = read_from q (get_field d m)
read_from (d ∷ q) (some null) = none
read_from (d ∷ q) (some (scalar s)) = none
read_from (d ∷ q) (some (text s)) = none
read_from (d ∷ q) (some (array xs)) = none
read_from (d ∷ q) none = none

-- A name that can be a part: it is not empty, and not the one of a map's own value.
abbrev pub IsPart : Text → Type 0
IsPart k = (is_empty k ≡ false) × (same own_value k ≡ false)

-- A value with no names of its own.
unfoldable pub IsPlain : Json → Type 0
IsPlain null = Unit
IsPlain (scalar s) = Unit
IsPlain (text s) = Unit
IsPlain (array xs) = Unit
IsPlain (object m) = ⊥

pub get-put_field :
    (k j : Text) (v : Json) (fs : Fields)
    → get_field j (put_field k v fs) ≡ (if same k j then some v else get_field j fs)
unfolding get_field put_field
get-put_field k j v end = refl
get-put_field k j v (field i w fs) = ground (
  arith,
  eq_of_same i k,
  eq_of_same i j,
  eq_of_same k j,
  same_refl i,
  same_refl j,
  same_refl k,
  get-put_field k j v fs,
)

-- What stands under the first key after an insertion.
abbrev new_at : List Text → Json → Option Json → Json
new_at [] v e = merged v e
new_at (b ∷ p) v e = object (insert_nested (b ∷ p) v (as_map e))

-- What a path leads to from the root.
unfoldable pub read_at : List Text → Fields → Option Json
read_at [] root = none
read_at (k ∷ q) root = read_from q (get_field k root)
