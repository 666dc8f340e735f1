-- ===== src/Controller/Fuel.antt =====
-- The fuel of GetVars and of DelVar, and the depth of the database.
use variables_and_streams_se.Base.{
  ℕ, zero, suc, List, [], ◌++◌, Bool, true, false, is_empty, length, ◌≤◌, ◌+◌, ◌<◌, ◌≡◌, refl,
  arith, All, ap, ltb, Option, Option-cases, Bool-cases, inl, inr,
}
use variables_and_streams_se.Base.Text.{Text}
use variables_and_streams_se.Storage.Path.{scroll_path}
use variables_and_streams_se.Storage.Interface.{IStorage}
use variables_and_streams_se.VarHelper.{controlled_name, get_child_names, visible_childs}
use variables_and_streams_se.Controller.Reading.{
  child_prefix, own_value, read_from_db, get_vars, del_var, parse_name, delete_result, GetVarsError,
}
use variables_and_streams_se.Controller.Parts.{
  parts, IsChildName, parts-child, parts-path, visible-All, collect_same, no_parts, All-map,
}

module _ (st : IStorage) (raw : Bool) where
  open st use {Db, Sound, depth, get_childs, childs_deep, childs_lack_dots}

  child_names-All :
      (name : Text) (db : Db) → Sound db → All IsChildName (get_child_names st raw name db)
  unfolding get_child_names
  child_names-All name db h = visible-All raw (get_childs name db) (childs_lack_dots name db h)

  no_child_names :
      (name : Text) (db : Db)
      → is_empty name ≡ false
      → depth db ≤ length (scroll_path name)
      → get_child_names st raw name db ≡ []
  unfolding get_child_names visible_childs
  no_child_names name db ne deep = rw (childs_deep name db ne deep) refl

  -- A name with as many parts as the depth and one more has no children.
  no_child_parts :
      (name : Text) (db : Db)
      → suc (depth db) ≤ parts name
      → get_child_names st raw (controlled_name raw name) db ≡ []
  no_child_parts name db many = elim (Bool-cases (is_empty (controlled_name raw name))) [
    | inl e ↦ absurd (omega (arith, no_parts raw name e))
    | inr ne ↦
        no_child_names (controlled_name raw name) db ne (omega (arith, parts-path raw name ne))
  ]

  -- Two amounts of fuel that are enough for a name read the same.
  read_same :
      (fuel fuel' : ℕ) (name : Text) (childs_too : Bool) (db : Db)
      → Sound db
      → depth db + 2 ≤ fuel + parts name
      → depth db + 2 ≤ fuel' + parts name
      → 0 < fuel
      → 0 < fuel'
      → read_from_db st raw fuel name childs_too db ≡ read_from_db st raw fuel' name childs_too db
  unfolding read_from_db
  read_same zero fuel' name childs_too db h e e' p p' = absurd (omega arith)
  read_same (suc f) zero name childs_too db h e e' p p' = absurd (omega arith)
  read_same (suc f) (suc f') name false db h e e' p p' = refl
  read_same (suc f) (suc f') name true db h e e' p p' =
      let names = get_child_names st raw (controlled_name raw name) db in
      elim (Bool-cases (ltb (depth db) (parts name))) [
        | inl deep ↦
            rw (no_child_parts name db (ground arith))
              (collect_same _ _ (child_prefix name) [] (own_value st raw name db) tt)
        | inr shallow ↦ collect_same _ _ (child_prefix name) names (own_value st raw name db) (
            All-map IsChildName _ names
              (λ curr is_child.
                read_same f f' (child_prefix name ++ curr) true db h
                  (omega (arith, parts-child name curr is_child))
                  (omega (arith, parts-child name curr is_child)) (ground arith) (ground arith))
              (child_names-All (controlled_name raw name) db h))
      ]

  get_vars_same :
      (fuel : ℕ) (name default : Text) (db : Db)
      → Sound db
      → depth db + 2 ≤ fuel
      → get_vars st raw fuel name default db ≡ get_vars st raw (depth db + 2) name default db
  unfolding get_vars
  get_vars_same fuel name default db h enough = elim (Option-cases (parse_name name)) [
    | inl none_e ↦ rw none_e refl
    | inr ((namep, childs_too), e) ↦
        rw
          (
            e,
            read_same fuel (depth db + 2) namep childs_too db h (omega arith) (omega arith)
                (omega arith) (omega arith),
          )
          refl
  ]

  -- In a sound database, with the fuel of its depth and two, GetVars and DelVar give what they give with
  -- any larger fuel: their descent has ended.
  pub get_vars_ends :
      (fuel : ℕ) (name default : Text) (db : Db)
      → Sound db
      → depth db + 2 ≤ fuel
      → (get_vars st raw fuel name default db ≡ get_vars st raw (depth db + 2) name default db)
        × (del_var st raw fuel name db ≡ del_var st raw (depth db + 2) name db)
  unfolding del_var
  get_vars_ends fuel name default db h enough = (
    get_vars_same fuel name default db h enough,
    ap (λ (r : (List (Text × Text)) × Option GetVarsError). delete_result st raw r db)
        (get_vars_same fuel name [] db h enough),
  )
