-- ===== src/Controller/Hiding.antt =====
-- What a read with a wildcard shows of internal nodes.
use variables_and_streams_se.Base.{
  ℕ, zero, suc, List, [], ◌∷◌, ◌++◌, Bool, true, false, is_empty, ◌≡◌, arith, All, All-append,
  append_assoc, some, Bool-cases, inl, inr,
}
use variables_and_streams_se.Base.Text.{Text, split, Lacks, split_of_Lacks}
use variables_and_streams_se.Storage.Path.{dot}
use variables_and_streams_se.Storage.Interface.{IStorage}
use variables_and_streams_se.VarHelper.{
  controlled_name, get_child_names, visible_childs, starts_with, underscore, get_value,
}
use variables_and_streams_se.VarHelper.Internal.{is_internal}
use variables_and_streams_se.Controller.Reading.{
  collect, child_prefix, own_value, read_from_db, get_vars, parse_name,
}
use variables_and_streams_se.Controller.Parts.{split-under, All-map}

-- No part of the name starts with an underscore.
abbrev pub IsOpen : Text → Type 0
IsOpen name = is_internal (split dot name) ≡ false

abbrev IsOpenChild : Text → Type 0
IsOpenChild curr = (is_empty curr ≡ false) × Lacks dot curr × (starts_with underscore curr ≡ false)

parts-append :
    (p q : List Text) → is_internal p ≡ false → is_internal q ≡ false → is_internal (p ++ q) ≡ false
unfolding is_internal
parts-append [] q h h' = h'
parts-append (k ∷ p) q h h' = ground (arith, parts-append p q)

one_part : (curr : Text) → starts_with underscore curr ≡ false → is_internal (curr ∷ []) ≡ false
unfolding is_internal
one_part curr h = ground arith

child-IsOpen :
    (name curr : Text) → IsOpen name → IsOpenChild curr → IsOpen (child_prefix name ++ curr)
unfolding child_prefix
child-IsOpen [] curr h (ne, l, o) = rw (split_of_Lacks dot curr l) (one_part curr o)
child-IsOpen (c ∷ name) curr h (ne, l, o) =
    rw
      (
        append_assoc (c ∷ name) (dot ∷ []) curr,
        split-under (c ∷ name) curr,
        split_of_Lacks dot curr l,
      )
      (parts-append (split dot (c ∷ name)) (curr ∷ []) h (one_part curr o))

visible-IsOpenChild :
    (childs : List Text) → All (Lacks dot) childs → All IsOpenChild (visible_childs false childs)
unfolding visible_childs
visible-IsOpenChild [] h = tt
visible-IsOpenChild (ch ∷ childs) (h, hs) = elim (Bool-cases (is_empty ch)) [
  | inl e ↦ rw e (visible-IsOpenChild childs hs)
  | inr e ↦ elim (Bool-cases (starts_with underscore ch)) [
    | inl u ↦ rw (e, u) (visible-IsOpenChild childs hs)
    | inr u ↦ rw (e, u) ((e, h, u), visible-IsOpenChild childs hs)
  ]
]

abbrev pub AllOpen : List (Text × Text) → Type 0
AllOpen = All (λ (entry : Text × Text). IsOpen entry.0)

collect-AllOpen :
    (read : Text → List (Text × Text)) (prefix : Text) (childs : List Text)
    (res : List (Text × Text))
    → All (λ (curr : Text). AllOpen (read (prefix ++ curr))) childs
    → AllOpen res
    → AllOpen (collect read prefix childs res)
unfolding collect
collect-AllOpen read prefix [] res h o = o
collect-AllOpen read prefix (curr ∷ childs) res (h, hs) o =
    collect-AllOpen read prefix childs (read (prefix ++ curr) ++ res) hs
      (All-append (λ (entry : Text × Text). IsOpen entry.0) (read (prefix ++ curr)) res h o)

module _ (st : IStorage) where
  open st use {Db, Sound, get_childs, childs_lack_dots}

  own-AllOpen : (name : Text) (db : Db) → IsOpen name → AllOpen (own_value st false name db)
  unfolding own_value
  own-AllOpen name db h =
      elim (Bool-cases (is_empty (get_value st (controlled_name false name) db))) [
        | inl e ↦ rw e tt
        | inr e ↦ rw e (h, tt)
      ]

  child_names-IsOpenChild :
      (name : Text) (db : Db) → Sound db → All IsOpenChild (get_child_names st false name db)
  unfolding get_child_names
  child_names-IsOpenChild name db h =
      visible-IsOpenChild (get_childs name db) (childs_lack_dots name db h)

  read-AllOpen :
      (fuel : ℕ) (name : Text) (childs_too : Bool) (db : Db)
      → Sound db
      → IsOpen name
      → AllOpen (read_from_db st false fuel name childs_too db)
  unfolding read_from_db
  read-AllOpen zero name childs_too db h o = tt
  read-AllOpen (suc fuel) name false db h o = own-AllOpen name db o
  read-AllOpen (suc fuel) name true db h o =
      let names = get_child_names st false (controlled_name false name) db in
      collect-AllOpen _ (child_prefix name) names (own_value st false name db)
        (All-map IsOpenChild _ names
          (λ curr is_child.
            read-AllOpen fuel (child_prefix name ++ curr) true db h
              (child-IsOpen name curr o is_child))
          (child_names-IsOpenChild (controlled_name false name) db h))
        (own-AllOpen name db o)

  -- With raw access off and in a sound database, GetVars returns no name with a part that starts with
  -- an underscore, if the requested name without its wildcard has none.
  pub get_vars-AllOpen :
      (fuel : ℕ) (name namep default : Text) (childs_too : Bool) (db : Db)
      → Sound db
      → parse_name name ≡ some (namep, childs_too)
      → IsOpen namep
      → AllOpen (get_vars st false fuel name default db).0
  unfolding get_vars
  get_vars-AllOpen fuel name namep default childs_too db h e o = elim (Bool-cases (is_empty name)) [
    | inl ne ↦ rw ne tt
    | inr ne ↦ elim (Bool-cases (is_empty (read_from_db st false fuel namep childs_too db))) [
      | inl none_found ↦ rw (ne, e, none_found) (o, tt)
      | inr found ↦ rw (ne, e, found) (read-AllOpen fuel namep childs_too db h o)
    ]
  ]
