-- ===== src/VarHelper.antt =====
-- sources/controller/controller_varhelper.go: the helper for one variable, over the storage. `name` is
-- the helper's `name`, which `controlled_name` gives; a method takes the database and returns it.
pub mod Internal
pub mod Locking
pub mod Deadline
pub mod Observers
pub mod Tests
use variables_and_streams_se.Base.{
  ℕ, zero, suc, ◌+◌, ◌-◌, ◌*◌, ◌/◌, ◌%◌, ◌^◌, ltb, leb, List, [], ◌∷◌, ◌++◌, Bool, true, false, not,
  ◌&&◌, Option, if◌then◌else◌, ◌==◌, is_empty,
}
use variables_and_streams_se.Base.Text.{Text, codes, same, has_byte, has_prefix}
use variables_and_streams_se.Base.Decimal.{ℤ, pos, negsuc}
use variables_and_streams_se.Storage.Path.{dot}
use variables_and_streams_se.Storage.Interface.{IStorage}

abbrev pub star : ℕ
star = b'*'

abbrev pub underscore : ℕ
underscore = b'_'

-- SetControlledVarName
unfoldable pub controlled_name : Bool → Text → Text
controlled_name allow_raw_db_access vname =
    if allow_raw_db_access
    then vname
    else if has_prefix (codes "vars.") vname
    then vname
    else codes "vars." ++ vname

unfoldable pub starts_with : ℕ → Text → Bool
starts_with b [] = false
starts_with b (c ∷ s) = c == b

-- The flag's name as SetFlag and GetFlag use it.
unfoldable pub flag_name : Text → Text
flag_name flag = if starts_with underscore flag then flag else underscore ∷ flag

-- The names that GetChildNames lets through.
unfoldable pub visible_childs : Bool → List Text → List Text
visible_childs allow_raw_db_access [] = []
visible_childs allow_raw_db_access (ch ∷ childs) =
    let rest = visible_childs allow_raw_db_access childs in
    if is_empty ch
    then rest
    else if not allow_raw_db_access && starts_with underscore ch
    then rest
    else ch ∷ rest

-- name[:strings.LastIndex(name, ".")], and nothing if there is no dot.
unfoldable pub get_parent_name : Text → Text
get_parent_name [] = []
get_parent_name (c ∷ s) = if has_byte dot s then c ∷ get_parent_name s else []

-- An integer of 64 bits with a sign, from its bits.
unfoldable pub from_bits : ℕ → ℤ
from_bits n =
    let bits = n % 2 ^ 64 in if ltb bits (2 ^ 63) then pos bits else negsuc (2 ^ 64 - 1 - bits)

-- maxTimeout of Lock in nanoseconds: 30 seconds stand in for 0.
unfoldable pub or_default : ℤ → ℤ
or_default (pos n) = if ltb 0 n then pos n else pos 30000000000
or_default (negsuc n) = negsuc n

unfoldable pub max_timeout : ℕ → ℤ
max_timeout ms = or_default (from_bits (ms * 1000000))

abbrev pub millisecond : ℕ
millisecond = 1000000

-- time.Since(start) >= maxTimeout
unfoldable pub passed : ℤ → ℕ → Bool
passed (pos n) since = leb n since
passed (negsuc n) since = true

-- What a round of the loop of Lock finds: the nanoseconds that its try takes, those that its sleep takes
-- beyond a millisecond, which is the least that it takes, and what others do to the database meanwhile.
pub record Nap (Db : Type 0) : Type 0 where
  pub try_ns : ℕ
  pub beyond_ns : ℕ
  pub others : Db → Db

-- Rounds enough for every deadline, as each sleep takes a millisecond at least.
unfoldable pub enough_rounds : ℤ → ℕ
enough_rounds (pos n) = suc (n / millisecond + 1)
enough_rounds (negsuc n) = 1

module _ (st : IStorage) where
  open st use {Db, set, get, get_childs, has_value, delete_value}

  unfoldable pub get_value : Text → Db → Text
  get_value name db = get name [] db

  unfoldable pub set_value : Text → Text → Db → Db
  set_value name v db = if has_byte star name then db else set name v db

  unfoldable pub get_child_names : Bool → Text → Db → List Text
  get_child_names allow_raw_db_access name db =
      visible_childs allow_raw_db_access (get_childs name db)

  unfoldable pub set_flag : Text → Text → Text → Db → Db
  set_flag name flag v db = if is_empty flag then db else set (name ++ dot ∷ flag_name flag) v db

  unfoldable pub get_flag : Text → Text → Text → Db → Text
  get_flag name flag default db =
      if is_empty flag then default else get (name ++ dot ∷ flag_name flag) default db

  unfoldable pub is_locked : Text → Db → Bool
  is_locked name db =
      let lock_val = get_flag name (codes "lock") (codes "0") db in
      not (same lock_val (codes "0")) && not (is_empty lock_val)

  -- The `tryLock` of Lock, which runs inside the named lock "varLockerSystem".
  unfoldable pub try_lock : Text → Db → Db × Bool
  try_lock name db =
      let locked = set_flag name (codes "lock") (codes "1") db in
      if not (is_locked name db) then (locked, is_locked name locked) else (db, false)

  -- The loop of Lock, for the nanoseconds since its start.
  unfoldable pub lock_until : ℕ → Text → ℤ → ℕ → (ℕ → Nap Db) → Db → Db × Bool
  unfolding try_lock passed
  lock_until zero name max since naps db = (db, false)
  lock_until (suc fuel) name max since naps db =
      let (db', locked) = try_lock name db in
      let nap = naps 0 in
      let now = since + nap.try_ns in
      elim locked [
        | true ↦ (db', true)
        | false ↦ elim (passed max now) [
          | true ↦ (db', false)
          | false ↦
              lock_until fuel name max (now + millisecond + nap.beyond_ns) (λ i. naps (suc i))
                (nap.others db')
        ]
      ]

  -- Lock
  unfoldable pub lock : Text → ℕ → (ℕ → Nap Db) → Db → Db × Bool
  unfolding max_timeout enough_rounds lock_until
  lock name wait_timeout_ms naps db =
      let max = max_timeout wait_timeout_ms in lock_until (enough_rounds max) name max 0 naps db

  unfoldable pub unlock : Text → Db → Db
  unlock name db = set_flag name (codes "lock") (codes "0") db

  unfoldable pub is_client_observing : Text → Text → Text → Db → Bool
  is_client_observing name client_id metadata db =
      has_value (name ++ codes "._observers.byId." ++ client_id ++ codes ".byMetadata." ++ metadata)
        db

  -- DeleteValue
  unfoldable pub delete_variable : Text → Db → Db
  delete_variable name db = delete_value name false db
