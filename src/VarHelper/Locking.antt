-- ===== src/VarHelper/Locking.antt =====
-- The lock of a variable: what tries, unlocks and ordinary writes do to it, in any order.
use variables_and_streams_se.Base.{
  ℕ, List, [], ◌∷◌, Bool, true, false, not, ◌&&◌, ◌≡◌, arith, if◌then◌else◌, is_empty, Option,
  get_or, some, All, ◌+◌, ◌≤◌,
}
use variables_and_streams_se.Base.Text.{Text, codes, same}
use variables_and_streams_se.Storage.Path.{scroll_path, same_path_refl}
use variables_and_streams_se.Storage.Interface.{IStorage}
use variables_and_streams_se.VarHelper.{set_flag, get_flag, is_locked, try_lock, unlock}
use variables_and_streams_se.VarHelper.Internal.{
  is_internal, lock_key, lock_key-internal, held_internal,
}

-- The lock flag as a value: held, unless it is missing, "0" or empty.
unfoldable flag_is_set : Option Text → Bool
flag_is_set o =
    let lock_val = get_or o (codes "0") in
    not (same lock_val (codes "0")) && not (is_empty lock_val)

module _ (st : IStorage) where
  open st use {Db, set, get, held, get_held, held_set}

  is_locked_lem :
      (name : Text) (db : Db) → is_locked st name db ≡ flag_is_set (held (lock_key name) db)
  unfolding is_locked get_flag flag_is_set
  is_locked_lem name db = rw get_held

  held_self : (key v : Text) (db : Db) → held key (set key v db) ≡ some v
  held_self key v db = ground (arith, held_set key key v db, same_path_refl (scroll_path key))

  -- Setting the flag to "1" locks, and to "0" unlocks.
  is_locked-set :
      (name : Text) (db : Db)
      → (is_locked st name (set_flag st name (codes "lock") (codes "1") db) ≡ true)
        × (is_locked st name (set_flag st name (codes "lock") (codes "0") db) ≡ false)
  unfolding set_flag flag_is_set same
  is_locked-set name db = (rw (is_locked_lem, held_self), rw (is_locked_lem, held_self))

  -- A try succeeds exactly if the variable is not locked; it is locked afterwards in any case, and a
  -- failed try changes nothing.
  pub try_lock_lem :
      (name : Text) (db : Db)
      → ((try_lock st name db).1 ≡ not (is_locked st name db))
        × (is_locked st name (try_lock st name db).0 ≡ true)
        × (is_locked st name db ≡ true → (try_lock st name db).0 ≡ db)
  unfolding try_lock
  try_lock_lem name db = ground (arith, is_locked-set name db)

  pub is_locked-unlock : (name : Text) (db : Db) → is_locked st name (unlock st name db) ≡ false
  unfolding unlock
  is_locked-unlock name db = (is_locked-set name db).1

  is_locked-write :
      (name other v : Text) (db : Db)
      → is_internal (scroll_path other) ≡ false
      → is_locked st name (set other v db) ≡ is_locked st name db
  is_locked-write name other v db clean = rw (
    is_locked_lem,
    is_locked_lem,
    held_internal st other (lock_key name) v db clean (lock_key-internal name),
  )

-- What goroutines do to one variable and its lock, each inside the storage's or the named lock, in
-- the order in which they get their turns.
pub data Turn : Type 0 where
  try : Turn
  release : Turn
  write : (other v : Text) → Turn

-- A write is one of SetVar's: not at an internal name.
abbrev pub IsClean : Turn → Type 0
IsClean (write other v) = is_internal (scroll_path other) ≡ false
IsClean _ = Unit

module _ (st : IStorage) (name : Text) where
  open st use {Db, set}

  -- The database, the successful tries and the releases so far.
  unfoldable pub turns : List Turn → Db → ℕ → ℕ → Db × ℕ × ℕ
  turns [] db won released = (db, won, released)
  turns (try ∷ ts) db won released =
      let (db', ok) = try_lock st name db in turns ts db' (if ok then won + 1 else won) released
  turns (release ∷ ts) db won released = turns ts (unlock st name db) won (released + 1)
  turns (write other v ∷ ts) db won released = turns ts (set other v db) won released

-- Every win is paid for by a release, but for one while the variable is not locked.
abbrev Paid : Bool → ℕ → ℕ → Type 0
Paid locked won released = won + (if locked then 0 else 1) ≤ released + 1

module _ (st : IStorage) (name : Text) where
  open st use {Db}

  turns-Paid :
      (ts : List Turn) (db : Db) (won released : ℕ)
      → All IsClean ts
      → Paid (is_locked st name db) won released
      → Paid
          (is_locked st name (turns st name ts db won released).0)
          (turns st name ts db won released).1
          (turns st name ts db won released).2
  unfolding turns
  turns-Paid [] db won released h p = p
  turns-Paid (try ∷ ts) db won released (c, h) p =
      let (won_if, locked, same_db) = try_lock_lem st name db in
      turns-Paid ts (try_lock st name db).0 (if (try_lock st name db).1 then won + 1 else won)
        released h (ground (arith, won_if, locked))
  turns-Paid (release ∷ ts) db won released (c, h) p =
      turns-Paid ts (unlock st name db) won (released + 1) h
        (ground (arith, is_locked-unlock st name db))
  turns-Paid (write other v ∷ ts) db won released (c, h) p =
      turns-Paid ts (st.set other v db) won released h
        (ground (arith, is_locked-write st name other v db c))

  -- From an unlocked variable, in every order of tries, releases and ordinary writes, the tries that
  -- succeed are at most one more than the releases: no two holders at once, if each holder releases
  -- once.
  pub exclusion :
      (ts : List Turn) (db : Db)
      → All IsClean ts
      → is_locked st name db ≡ false
      → (turns st name ts db 0 0).1 ≤ (turns st name ts db 0 0).2 + 1
  exclusion ts db h free = ground (arith, turns-Paid ts db 0 0 h (ground (arith, free)))
