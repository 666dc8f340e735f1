-- ===== src/Http/Setting.antt =====
-- What `setJson` does, as one pass over the leaves of the object.
use variables_and_streams_se.Base.{List, [], ◌∷◌, ◌++◌, Option, none, some, ◌≡◌, refl, ◌∙◌, sym, ap}
use variables_and_streams_se.Base.Text.{Text}
use variables_and_streams_se.Storage.Interface.{IStorage}
use variables_and_streams_se.Controller.{Limits}
use variables_and_streams_se.Controller.Reading.{child_prefix}
use variables_and_streams_se.Http.Tree.{Json, null, scalar, text, array, object, Fields, end, field}
use variables_and_streams_se.Http.{
  Encoding, Stop, to_text, Left, set_leaf, unless_error, set_value, set_fields, set_json,
}

module _ (enc : Encoding) where
  -- The names of the leaves below a name, with their values as texts; null has none.
  unfoldable mutual
    pub leaves : Text → Json → List (Text × Option Text)
    leaves name null = (name, to_text enc null) ∷ []
    leaves name (scalar s) = (name, to_text enc (scalar s)) ∷ []
    leaves name (text s) = (name, to_text enc (text s)) ∷ []
    leaves name (array xs) = (name, to_text enc (array xs)) ∷ []
    leaves name (object fs) = leaves_of (child_prefix name) fs

    pub leaves_of : Text → Fields → List (Text × Option Text)
    leaves_of parent end = []
    leaves_of parent (field key v fs) = leaves (parent ++ key) v ++ leaves_of parent fs

  module _ (st : IStorage) (c : Limits) where
    open st use {Db}

    -- SetVar of one after the other, up to the first error or the first value with no text.
    unfoldable pub set_all : List (Text × Option Text) → Left enc st c → Left enc st c × Option Stop
    set_all [] left = (left, none)
    set_all ((name, v) ∷ leaves) left =
        unless_error enc st c (set_leaf enc st c name v left) (λ after. set_all leaves after)

    unless_same :
        (r : Left enc st c × Option Stop) (f g : Left enc st c → Left enc st c × Option Stop)
        → ((left : Left enc st c) → f left ≡ g left)
        → unless_error enc st c r f ≡ unless_error enc st c r g
    unfolding unless_error
    unless_same (left, none) f g h = h left
    unless_same (left, some e) f g h = refl

    unless_twice :
        (r : Left enc st c × Option Stop) (f g : Left enc st c → Left enc st c × Option Stop)
        → unless_error enc st c (unless_error enc st c r f) g
          ≡ unless_error enc st c r (λ left. unless_error enc st c (f left) g)
    unfolding unless_error
    unless_twice (left, none) f g = refl
    unless_twice (left, some e) f g = refl

    unless_nothing :
        (r : Left enc st c × Option Stop) → unless_error enc st c r (λ left. (left, none)) ≡ r
    unfolding unless_error
    unless_nothing (left, none) = refl
    unless_nothing (left, some e) = refl

    set_all-append :
        (xs ys : List (Text × Option Text)) (left : Left enc st c)
        → set_all (xs ++ ys) left
          ≡ unless_error enc st c (set_all xs left) (λ after. set_all ys after)
    unfolding set_all
    set_all-append [] ys left = unfold unless_error in refl
    set_all-append ((name, v) ∷ xs) ys left =
        unless_same _ _ _ (λ after. set_all-append xs ys after) ∙ sym (unless_twice _ _ _)

    set_all_one :
        (name : Text) (v : Option Text) (left : Left enc st c)
        → set_all ((name, v) ∷ []) left ≡ set_leaf enc st c name v left
    unfolding set_all
    set_all_one name v left = unless_nothing _

    mutual
      unfolding set_value leaves set_all

      set_value_lem :
          (name : Text) (v : Json) (left : Left enc st c)
          → set_value enc st c name v left ≡ set_all (leaves name v) left
      set_value_lem name null left = sym (set_all_one name _ left)
      set_value_lem name (scalar s) left = sym (set_all_one name _ left)
      set_value_lem name (text s) left = sym (set_all_one name _ left)
      set_value_lem name (array xs) left = sym (set_all_one name _ left)
      set_value_lem name (object fs) left = set_fields_lem (child_prefix name) fs left

      set_fields_lem :
          (parent : Text) (fs : Fields) (left : Left enc st c)
          → set_fields enc st c parent fs left ≡ set_all (leaves_of parent fs) left
      set_fields_lem parent end left = refl
      set_fields_lem parent (field key v fs) left =
          unless_same _ _ _ (λ after. set_fields_lem parent fs after)
          ∙ ap (λ r. unless_error enc st c r (λ after. set_all (leaves_of parent fs) after))
              (set_value_lem (parent ++ key) v left)
          ∙ sym (set_all-append (leaves (parent ++ key) v) (leaves_of parent fs) left)

    -- setJson of an object sets its leaves one after the other, each under the names of the objects around
    -- it with dots between them, and stops at the first one that SetVar refuses or that is null, with those
    -- before it set: a null panics.
    pub set_json_lem :
        (obj : Fields) (db : Db) → set_json enc st c obj db ≡ set_all (leaves_of [] obj) (db, [])
    unfolding set_json
    set_json_lem obj db = set_fields_lem [] obj (db, [])
