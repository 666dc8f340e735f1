-- ===== src/Http/Tree.antt =====
-- sources/services/apis/httpapi/httpapi.go: the tree of JSON values that a GET answers with. A string is
-- its bytes, a number or a truth value its text in JSON; a map is a list in the order of a range over it.
use variables_and_streams_se.Base.{
  ℕ, suc, List, [], ◌∷◌, Bool, true, false, ◌&&◌, ◌==◌, Option, none, some, if◌then◌else◌, is_empty,
}
use variables_and_streams_se.Base.Text.{Text, codes, same}
use variables_and_streams_se.Base.Decimal.{pos, negsuc, atoi}

mutual
  pub data Json : Type 0 where
    null : Json
    scalar : Text → Json
    text : Text → Json
    array : Items → Json
    object : Fields → Json

  pub data Items : Type 0 where
    nil : Items
    item : Json → Items → Items

  pub data Fields : Type 0 where
    end : Fields
    field : Text → Json → Fields → Fields

unfoldable pub get_field : Text → Fields → Option Json
get_field k end = none
get_field k (field j v fs) = let rest = get_field k fs in if same j k then some v else rest

-- m[k] = v
unfoldable pub put_field : Text → Json → Fields → Fields
put_field k v end = field k v end
put_field k v (field j w fs) =
    let rest = put_field k v fs in if same j k then field j v fs else field j w rest

abbrev pub own_value : Text
own_value = codes "_value"

-- The value for the last part of insertNested, for what stands there.
unfoldable pub merged : Json → Option Json → Json
merged v (some (object m)) = object (put_field own_value v m)
merged v (some null) = v
merged v (some (scalar s)) = v
merged v (some (text s)) = v
merged v (some (array xs)) = v
merged v none = v

-- The map to go on in: what is no map is put into one.
unfoldable pub as_map : Option Json → Fields
as_map none = end
as_map (some (object m)) = m
as_map (some null) = field own_value null end
as_map (some (scalar s)) = field own_value (scalar s) end
as_map (some (text s)) = field own_value (text s) end
as_map (some (array xs)) = field own_value (array xs) end

unfoldable pub insert_nested : List Text → Json → Fields → Fields
insert_nested [] v node = node
insert_nested (last ∷ []) v node =
    if is_empty last then node else put_field last (merged v (get_field last node)) node
insert_nested (key ∷ next ∷ parts) v node =
    let skipped = insert_nested (next ∷ parts) v node in
    let below = insert_nested (next ∷ parts) v (as_map (get_field key node)) in
    if is_empty key then skipped else put_field key (object below) node

-- The keys are "0", "1", ... in the order of the range.
unfoldable pub counts_up : ℕ → Fields → Bool
counts_up i end = true
counts_up i (field k v fs) =
    let rest = counts_up (suc i) fs in
    elim (atoi k) [
      | none ↦ false
      | some idx ↦ elim idx [ pos n ↦ (n == i) && rest | negsuc n ↦ false ]
    ]

unfoldable pub values_of : Fields → Items
values_of end = nil
values_of (field k v fs) = item v (values_of fs)

unfoldable pub as_array : Fields → Json
as_array end = object end
as_array (field k v fs) =
    if counts_up 0 (field k v fs) then array (values_of (field k v fs)) else object (field k v fs)

unfoldable mutual
  pub normalize_arrays : Json → Json
  normalize_arrays null = null
  normalize_arrays (scalar s) = scalar s
  normalize_arrays (text s) = text s
  normalize_arrays (array xs) = array (normalize_items xs)
  normalize_arrays (object fs) = as_array (normalize_fields fs)

  pub normalize_items : Items → Items
  normalize_items nil = nil
  normalize_items (item x xs) = item (normalize_arrays x) (normalize_items xs)

  pub normalize_fields : Fields → Fields
  normalize_fields end = end
  normalize_fields (field k v fs) = field k (normalize_arrays v) (normalize_fields fs)
