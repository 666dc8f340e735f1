-- ===== src/Controller/ReadBack.antt =====
-- What GetVars gives after SetVar and after DelVar, and its errors.
use variables_and_streams_se.Base.{
  ℕ, suc, [], ◌∷◌, ◌++◌, Bool, true, false, none, some, if◌then◌else◌, is_empty, ◌≡◌, refl, arith,
  ◌⊎◌, ◌↔◌, ◌∙◌,
}
use variables_and_streams_se.Base.Text.{Text, codes, has_byte}
use variables_and_streams_se.Storage.Path.{scroll_path, same_path_refl}
use variables_and_streams_se.Storage.Interface.{IStorage}
use variables_and_streams_se.VarHelper.{star, controlled_name, get_value, delete_variable}
use variables_and_streams_se.Controller.{Limits, set_var}
use variables_and_streams_se.Controller.Names.{valid_chars, get_only}
use variables_and_streams_se.Controller.Setting.{get-set_var, set_var_accepted, checked}
use variables_and_streams_se.Controller.Reading.{
  ends_with, parse_name, own_value, read_from_db, get_vars, delete_found, delete_result, del_var,
}

parse_name_plain : (name : Text) → has_byte star name ≡ false → parse_name name ≡ some (name, false)
unfolding parse_name
parse_name_plain name h = rw h refl

has_byte-vars : (name : Text) → has_byte star (codes "vars." ++ name) ≡ has_byte star name
unfolding has_byte
has_byte-vars name = refl

controlled_plain :
    (raw : Bool) (name : Text)
    → has_byte star name ≡ false
    → has_byte star (controlled_name raw name) ≡ false
unfolding controlled_name
controlled_plain raw name h = ground (arith, has_byte-vars name)

module _ (st : IStorage) (raw : Bool) where
  open st use {Db, Sound, get_held, held_delete}

  read_plain :
      (fuel : ℕ) (name : Text) (db : Db)
      → read_from_db st raw (suc fuel) name false db ≡ own_value st raw name db
  unfolding read_from_db
  read_plain fuel name db = refl

  -- A name with no wildcard gives the variable itself, or the default.
  get_vars_plain :
      (fuel : ℕ) (name default : Text) (db : Db)
      → is_empty name ≡ false
      → has_byte star name ≡ false
      → get_vars st raw (suc fuel) name default db ≡ (
        (
          name,
          (if is_empty (get_value st (controlled_name raw name) db)
              then default
              else get_value st (controlled_name raw name) db),
        )
            ∷ [],
        none,
      )
  unfolding get_vars own_value
  get_vars_plain fuel name default db ne plain =
      rw (ne, parse_name_plain name plain, read_plain) (ground arith)

  get_value-delete_variable :
      (name : Text) (db : Db) → Sound db → get_value st name (delete_variable st name db) ≡ []
  unfolding get_value delete_variable
  get_value-delete_variable name db h =
      rw (get_held) (ground (arith, held_delete name name db h, same_path_refl (scroll_path name)))

  pub del_var_plain :
      (fuel : ℕ) (name : Text) (db : Db)
      → is_empty name ≡ false
      → has_byte star name ≡ false
      → del_var st raw (suc fuel) name db
        ≡ ((delete_variable st (controlled_name raw name) db, (name, []) ∷ []), none)
  unfolding del_var delete_result delete_found
  del_var_plain fuel name db ne plain = rw (get_vars_plain fuel name [] db ne plain) (ground arith)

  -- In a sound database, DelVar of a name with no wildcard starts one notification, of the empty value,
  -- and GetVars of that name then gives its default alone.
  pub get_vars-del_var :
      (fuel : ℕ) (name default : Text) (db : Db)
      → Sound db
      → is_empty name ≡ false
      → has_byte star name ≡ false
      → (get_vars st raw (suc fuel) name default (del_var st raw (suc fuel) name db).0.0
          ≡ ((name, default) ∷ [], none))
        × ((del_var st raw (suc fuel) name db).0.1 ≡ (name, []) ∷ [])
  get_vars-del_var fuel name default db h ne plain = rw (del_var_plain fuel name db ne plain) (
    get_vars_plain fuel name default _ ne plain
        ∙ rw (get_value-delete_variable (controlled_name raw name) db h) refl,
    refl,
  )

  -- GetVars gives no error exactly if the name is not empty and either has no wildcard or ends with
  -- one.
  pub get_vars_ok :
      (fuel : ℕ) (name default : Text) (db : Db)
      → ((get_vars st raw fuel name default db).1 ≡ none)
        ↔ ((is_empty name ≡ false) × ((has_byte star name ≡ false) ⊎ (ends_with star name ≡ true)))
  unfolding get_vars parse_name
  get_vars_ok fuel name default db = ground arith

module _ (st : IStorage) where
  open st use {Db}

  -- After a successful SetVar of a value that is not empty on a name with no wildcard, GetVars of the
  -- filtered name gives that name and value, and nothing else.
  pub get_vars-set_var :
      (c : Limits) (fuel : ℕ) (raw_name v default : Text) (d : Db)
      → (set_var st c raw_name v d).error ≡ none
      → has_byte star (get_only raw_name valid_chars) ≡ false
      → is_empty v ≡ false
      → get_vars st c.allow_raw_db_access
          (suc fuel)
          (get_only raw_name valid_chars)
          default
          (set_var st c raw_name v d).db
        ≡ ((get_only raw_name valid_chars, v) ∷ [], none)
  get_vars-set_var c fuel raw_name v default d ok plain ne =
      let raw = c.allow_raw_db_access in
      let name = get_only raw_name valid_chars in
      let (stored, notes) = get-set_var st c raw_name v d ok (controlled_plain raw name plain) in
      let (name_ok, free, new_db, note) = set_var_accepted st c raw_name v d ok in
      get_vars_plain st raw fuel name default _ (checked c name v name_ok).0 plain
      ∙ rw (stored, ne) refl
