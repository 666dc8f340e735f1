-- ===== src/Controller/Reading.antt =====
-- sources/controller/controller.go: GetVars, DelVar, GetChildsOfVar and the read behind a notification.
use variables_and_streams_se.Base.{
  ℕ, zero, suc, List, [], ◌∷◌, ◌++◌, Bool, true, false, Option, none, some, if◌then◌else◌, is_empty,
  ◌==◌,
}
use variables_and_streams_se.Base.Text.{Text, has_byte}
use variables_and_streams_se.Storage.Path.{dot}
use variables_and_streams_se.Storage.Interface.{IStorage}
use variables_and_streams_se.VarHelper.{
  Nap, star, controlled_name, get_value, get_child_names, delete_variable, lock, unlock, is_locked,
}

-- The errors of GetVars, and the one that DelVar adds.
pub data GetVarsError : Type 0 where
  empty_name misplaced_wildcard nothing_found : GetVarsError

unfoldable pub ends_with : ℕ → Text → Bool
ends_with b [] = false
ends_with b (c ∷ []) = c == b
ends_with b (c ∷ d ∷ s) = ends_with b (d ∷ s)

-- s[:len(s)-1]
unfoldable pub but_last : Text → Text
but_last [] = []
but_last (c ∷ []) = []
but_last (c ∷ d ∷ s) = c ∷ but_last (d ∷ s)

-- strings.TrimSuffix(s, ".")
unfoldable pub trim_dot : Text → Text
trim_dot s = if ends_with dot s then but_last s else s

-- The name to read and whether its children are wanted, too.
unfoldable pub parse_name : Text → Option (Text × Bool)
parse_name name =
    if has_byte star name
    then (if ends_with star name
        then (let namep = but_last name in
            some (trim_dot (if ends_with dot namep then but_last namep else namep), true))
        else none)
    else some (name, false)

-- The loop of readFromDb over the children: what is read of a child goes to the front.
unfoldable pub collect :
    (Text → List (Text × Text)) → Text → List Text → List (Text × Text) → List (Text × Text)
collect read prefix [] res = res
collect read prefix (curr ∷ childs) res = collect read prefix childs (read (prefix ++ curr) ++ res)

-- `prefix` of readFromDb, and the names of getVarInternal.
unfoldable pub child_prefix : Text → Text
child_prefix nname = if is_empty nname then [] else nname ++ dot ∷ []

module _ (st : IStorage) (raw : Bool) where
  open st use {Db}

  -- The variable itself, if it has a value.
  unfoldable pub own_value : Text → Db → List (Text × Text)
  own_value nname db =
      let dv = get_value st (controlled_name raw nname) db in
      if is_empty dv then [] else (nname, dv) ∷ []

  -- readFromDb. The fuel bounds the depth of the descent.
  unfoldable pub read_from_db : ℕ → Text → Bool → Db → List (Text × Text)
  read_from_db zero nname childs_too db = []
  read_from_db (suc fuel) nname childs_too db =
      let below =
        collect (λ child_name. read_from_db fuel child_name true db) (child_prefix nname)
          (get_child_names st raw (controlled_name raw nname) db) (own_value nname db) in
      if childs_too then below else own_value nname db

  -- GetVars
  unfoldable pub get_vars : ℕ → Text → Text → Db → (List (Text × Text)) × Option GetVarsError
  get_vars fuel name default db =
      if is_empty name then ([], some empty_name) else elim (parse_name name) [
        | none ↦ ([], some misplaced_wildcard)
        | some (namep, childs_too) ↦
            let values = read_from_db fuel namep childs_too db in
            (if is_empty values then (namep, default) ∷ [] else values, none)
      ]

  -- The deletions of DelVar, in order; each starts a notification with the empty value.
  unfoldable pub delete_found : List (Text × Text) → Db → Db × List (Text × Text)
  delete_found [] db = (db, [])
  delete_found ((name, v) ∷ vals) db =
      let (db', notified) = delete_found vals (delete_variable st (controlled_name raw name) db) in
      (db', (name, []) ∷ notified)

  -- What DelVar does with the result of GetVars.
  unfoldable pub delete_result :
      (List (Text × Text)) × Option GetVarsError
      → Db
      → (Db × List (Text × Text)) × Option GetVarsError
  delete_result (vals, some e) db = ((db, []), some e)
  delete_result ([], none) db = ((db, []), some nothing_found)
  delete_result (v ∷ vals, none) db = (delete_found (v ∷ vals) db, none)

  -- DelVar: the database, the notifications, and the error.
  unfoldable pub del_var : ℕ → Text → Db → (Db × List (Text × Text)) × Option GetVarsError
  del_var fuel name db = delete_result (get_vars fuel name [] db) db

  unfoldable pub get_childs_of_var : Text → Db → List Text
  get_childs_of_var parent_name db =
      if has_byte star parent_name
      then []
      else get_child_names st raw (controlled_name raw parent_name) db

  -- The loop of getVarInternal over the children.
  unfoldable pub child_values : Text → List Text → Db → List (Text × Text)
  child_values name [] db = []
  child_values name (ch ∷ childs) db =
      let full = child_prefix name ++ ch in
      (full, get_value st (controlled_name raw full) db) ∷ child_values name childs db

  -- getVarInternal
  unfoldable pub get_var_internal : Text → Db → List (Text × Text)
  get_var_internal name db =
      own_value name db
      ++ child_values name (get_child_names st raw (controlled_name raw name) db) db

  -- LockVar, UnlockVar and IsVarLocked
  unfoldable pub lock_var : Text → ℕ → (ℕ → Nap Db) → Db → Db × Bool
  lock_var var_name timeout_ms naps db = lock st (controlled_name raw var_name) timeout_ms naps db

  unfoldable pub unlock_var : Text → Db → Db
  unlock_var var_name db = unlock st (controlled_name raw var_name) db

  unfoldable pub is_var_locked : Text → Db → Bool
  is_var_locked var_name db = is_locked st (controlled_name raw var_name) db
