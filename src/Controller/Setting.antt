-- ===== src/Controller/Setting.antt =====
-- What `SetVar` promises.
use variables_and_streams_se.Base.{
  ℕ, List, [], ◌∷◌, ◌++◌, Bool, true, false, none, some, is_empty, length, ◌≡◌, ◌≢◌, refl, arith,
  Bool-cases, Option-cases, inl, inr, ◌⊎◌, ◌↔◌, if◌then◌else◌, zero, suc, ◌≤◌, All, ◌∙◌, ap,
}
use variables_and_streams_se.Base.Text.{Text, codes, split, onto_first, has_byte, has_prefix}
use variables_and_streams_se.Base.Decimal.{pos}
use variables_and_streams_se.Storage.Interface.{IStorage}
use variables_and_streams_se.Storage.Path.{dot, scroll_path, scroll_path-dot, same_path_refl}
use variables_and_streams_se.VarHelper.{
  star, starts_with, controlled_name, set_value, get_value, is_locked,
}
use variables_and_streams_se.VarHelper.Internal.{
  is_internal, is_internal-scroll_path, held_internal,
}
use variables_and_streams_se.Controller.{
  Limits, SetError, internal_name, check_name, refused, accepted, set_var,
}
use variables_and_streams_se.Controller.Names.{
  valid_chars, get_only, any_exceeds, name_parts, internal_guard, other_parts,
  is_internal-other_parts,
}

-- An accepted name is not empty, and if raw access is off no part of it is internal.
pub checked :
    (c : Limits) (name v : Text)
    → check_name c name v ≡ none
    → (is_empty name ≡ false)
      × (c.allow_raw_db_access ≡ false → is_internal (split dot name) ≡ false)
unfolding check_name
checked c name v h = (ground arith, λ off. ground (arith, internal_guard name))

vars_path :
    (name : Text)
    → is_empty name ≡ false
    → is_internal (split dot name) ≡ false
    → is_internal (scroll_path (codes "vars." ++ name)) ≡ false
vars_path [] ne clean = cc
vars_path (b ∷ name) ne clean =
    rw (scroll_path-dot (codes "vars") (b ∷ name) (omega arith) (cc))
      (unfold is_internal starts_with in rw is_internal-scroll_path clean)

-- A name behind "vars." goes through the node "vars" first.
controlled_path :
    (name : Text)
    → is_empty name ≡ false
    → is_internal (split dot name) ≡ false
    → is_internal (scroll_path (controlled_name false name)) ≡ false
unfolding controlled_name
controlled_path name ne clean = elim (Bool-cases (has_prefix (codes "vars.") name)) [
  | inl e ↦ rw (e, is_internal-scroll_path) clean
  | inr e ↦ rw (e) (vars_path name ne clean)
]

-- The parts between dots that may not start with an underscore: all, but with raw access the first may.
abbrev pub guarded_parts : Bool → Text → List Text
guarded_parts allow_raw_db_access name =
    if allow_raw_db_access then other_parts (split dot name) else split dot name

check_name-internal :
    (c : Limits) (name v : Text)
    → (check_name c name v ≡ some internal_name)
      ↔ ((is_empty name ≡ false) × (is_internal (guarded_parts c.allow_raw_db_access name) ≡ true))
unfolding check_name
check_name-internal c name v = ground (arith, internal_guard name, is_internal-other_parts name)

module _ (st : IStorage) where
  open st use {Db, set, get, held, get_held, held_set}

  -- SetVar gives the error for internal names just if the name that is left of the request is not empty and
  -- one of its parts between dots starts with an underscore; with raw access the first part may.
  pub set_var-internal_name :
      (c : Limits) (raw_name v : Text) (d : Db)
      → let name = get_only raw_name valid_chars in
        ((set_var st c raw_name v d).error ≡ some internal_name) ↔ (
          (is_empty name ≡ false) × (is_internal (guarded_parts c.allow_raw_db_access name) ≡ true))
  unfolding set_var accepted refused
  set_var-internal_name c raw_name v d =
      ground (arith, check_name-internal c (get_only raw_name valid_chars) v)

  -- The branches of SetVar: an error leaves the database as it is and notifies nobody.
  pub set_var_error :
      (c : Limits) (raw_name v : Text) (d : Db) (e : SetError)
      → (set_var st c raw_name v d).error ≡ some e
      → ((set_var st c raw_name v d).db ≡ d) × ((set_var st c raw_name v d).notified ≡ [])
  unfolding set_var accepted refused
  set_var_error c raw_name v d e h = ground arith

  -- What an accepted call has checked and done.
  pub set_var_accepted :
      (c : Limits) (raw_name v : Text) (d : Db)
      → (set_var st c raw_name v d).error ≡ none
      → let name = get_only raw_name valid_chars in
        let vname = controlled_name c.allow_raw_db_access name in
        (check_name c name v ≡ none)
        × (is_locked st vname d ≡ false)
        × ((set_var st c raw_name v d).db ≡ set_value st vname v d)
        × ((set_var st c raw_name v d).notified ≡ (name, v) ∷ [])
  unfolding set_var accepted refused
  set_var_accepted c raw_name v d h = ground arith

  -- After a successful SetVar the variable has the new value, if the name that is left of the request
  -- has no wildcard; and one notification, of that name and value, is started.
  pub get-set_var :
      (c : Limits) (raw_name v : Text) (d : Db)
      → (set_var st c raw_name v d).error ≡ none
      → has_byte star (controlled_name c.allow_raw_db_access (get_only raw_name valid_chars))
        ≡ false
      → (get_value st
            (controlled_name c.allow_raw_db_access (get_only raw_name valid_chars))
            (set_var st c raw_name v d).db
          ≡ v)
        × ((set_var st c raw_name v d).notified ≡ (get_only raw_name valid_chars, v) ∷ [])
  unfolding get_value set_value
  get-set_var c raw_name v d h plain =
      let vname = controlled_name c.allow_raw_db_access (get_only raw_name valid_chars) in
      let (ok, free, new_db, notes) = set_var_accepted c raw_name v d h in
      (
        rw (new_db, plain, get_held)
            (ground (arith, held_set vname vname v d, same_path_refl (scroll_path vname))),
        notes,
      )

  -- A name with a wildcard is reported as set, and its observers are notified, but nothing is stored.
  pub set_var_wildcard :
      (c : Limits) (raw_name v : Text) (d : Db)
      → (set_var st c raw_name v d).error ≡ none
      → has_byte star (controlled_name c.allow_raw_db_access (get_only raw_name valid_chars)) ≡ true
      → ((set_var st c raw_name v d).db ≡ d)
        × ((set_var st c raw_name v d).notified ≡ (get_only raw_name valid_chars, v) ∷ [])
  unfolding set_value
  set_var_wildcard c raw_name v d h wild =
      let (ok, free, new_db, notes) = set_var_accepted c raw_name v d h in (new_db ∙ rw wild, notes)

  -- While a variable is locked, SetVar changes nothing, whoever calls it.
  pub set_var_locked :
      (c : Limits) (raw_name v : Text) (d : Db)
      → is_locked st (controlled_name c.allow_raw_db_access (get_only raw_name valid_chars)) d
        ≡ true
      → ((set_var st c raw_name v d).error ≢ none) × ((set_var st c raw_name v d).db ≡ d)
  unfolding set_var accepted refused
  set_var_locked c raw_name v d h = ground arith

  set_value_internal :
      (name other v : Text) (d : Db)
      → is_internal (scroll_path name) ≡ false
      → is_internal (scroll_path other) ≡ true
      → held other (set_value st name v d) ≡ held other d
  unfolding set_value
  set_value_internal name other v d clean internal =
      ground (arith, held_internal st name other v d clean internal)

  -- With raw access off, no call of SetVar, whatever its name and value, changes what an internal name
  -- holds: one of which a part starts with an underscore, as the lock flags and the observer lists do.
  pub set_var_keeps_internal :
      (c : Limits) (raw_name v other : Text) (d : Db)
      → c.allow_raw_db_access ≡ false
      → is_internal (scroll_path other) ≡ true
      → held other (set_var st c raw_name v d).db ≡ held other d
  set_var_keeps_internal c raw_name v other d off internal =
      elim (Option-cases (set_var st c raw_name v d).error) [
        | inr (e, refused_e) ↦ ap (held other) (set_var_error c raw_name v d e refused_e).0
        | inl none_e ↦
            let name = get_only raw_name valid_chars in
            let (ok, free, new_db, notes) = set_var_accepted c raw_name v d none_e in
            let (ne, clean) = checked c name v ok in
            rw (new_db, off)
              (set_value_internal _ other v d (controlled_path name ne (clean off)) internal)
      ]

-- Every part of the name is within the limit.
abbrev pub AllWithin : ℕ → List Text → Type 0
AllWithin limit = All (λ (p : Text). length p ≤ limit)

any_exceeds-false :
    (parts : List Text) (limit : ℕ) → any_exceeds parts (pos limit) ≡ false → AllWithin limit parts
unfolding any_exceeds
any_exceeds-false [] limit h = tt
any_exceeds-false (p ∷ parts) limit h = (ground arith, any_exceeds-false parts limit (ground arith))

split_of_no_byte : (b : ℕ) (s : Text) → has_byte b s ≡ false → split b s ≡ s ∷ []
unfolding has_byte split onto_first
split_of_no_byte b [] h = refl
split_of_no_byte b (c ∷ s) h = ground (arith, split_of_no_byte b s)

name_parts-split : (name : Text) → name_parts name ≡ split dot name
unfolding name_parts
name_parts-split name = ground (arith, split_of_no_byte dot name)

abbrev pub limits : Bool → ℕ → ℕ → ℕ → Limits
limits raw key_limit word_limit size_limit = record {
  max_key_length = pos key_limit;
  max_key_word_length = pos word_limit;
  max_value_size = pos size_limit;
  allow_raw_db_access = raw;
}

checked_limits :
    (raw : Bool) (key_limit word_limit size_limit : ℕ) (name v : Text)
    → check_name (limits raw key_limit word_limit size_limit) name v ≡ none
    → (length name ≤ key_limit)
      × (length v ≤ size_limit)
      × ((word_limit ≡ 0) ⊎ AllWithin word_limit (split dot name))
unfolding check_name
checked_limits raw key_limit zero size_limit name v h = (ground arith, ground arith, inl refl)
checked_limits raw key_limit (suc w) size_limit name v h = (
  ground arith,
  ground arith,
  inr (any_exceeds-false (split dot name) (suc w) (ground (arith, name_parts-split name))),
)

module _ (st : IStorage) where
  open st use {Db}

  -- A successful SetVar has kept its limits: the length of the name and the size of the value, where a limit
  -- of 0 lets nothing but the empty one through, and, unless its limit is 0, the length of every part
  -- between dots.
  pub set_var-limits :
      (raw : Bool) (key_limit word_limit size_limit : ℕ) (raw_name v : Text) (d : Db)
      → (set_var st (limits raw key_limit word_limit size_limit) raw_name v d).error ≡ none
      → (length (get_only raw_name valid_chars) ≤ key_limit)
        × (length v ≤ size_limit)
        × ((word_limit ≡ 0) ⊎ AllWithin word_limit (split dot (get_only raw_name valid_chars)))
  set_var-limits raw key_limit word_limit size_limit raw_name v d h =
      let c = limits raw key_limit word_limit size_limit in
      let name = get_only raw_name valid_chars in
      let (ok, free, new_db, notes) = set_var_accepted st c raw_name v d h in
      checked_limits raw key_limit word_limit size_limit name v ok
