-- ===== src/VarHelper/Observers/Effects.antt =====
-- What a change under one key of a variable's observations does to what is read under the others.
use variables_and_streams_se.Base.{List, ◌∷◌, ◌++◌, Bool, true, false, ◌≡◌, refl, arith}
use variables_and_streams_se.Base.Text.{Text, same, split, same_refl}
use variables_and_streams_se.Storage.Path.{
  dot, scroll_path, is_prefix, same_path, same_path-append, is_prefix-append,
}
use variables_and_streams_se.VarHelper.Observers.Keys.{
  Field, client_id, metadata, field_name, observers,
}

abbrev pub same_field : Field → Field → Bool
same_field client_id client_id = true
same_field metadata metadata = true
same_field _ _ = false

pub field_names : (f g : Field) → same (field_name f) (field_name g) ≡ same_field f g
unfolding same
field_names client_id client_id = refl
field_names client_id metadata = refl
field_names metadata client_id = refl
field_names metadata metadata = refl

-- Below the observers of a name, two keys meet if the rests of their paths do.
pub prefix_below :
    (name p q : Text) (r s : List Text)
    → scroll_path p ≡ split dot name ++ observers ∷ r
    → scroll_path q ≡ split dot name ++ observers ∷ s
    → is_prefix (scroll_path p) (scroll_path q) ≡ is_prefix r s
prefix_below name p q r s e f =
    rw (e, f, is_prefix-append) (unfold is_prefix in ground (arith, same_refl observers))

pub same_below :
    (name p q : Text) (r s : List Text)
    → scroll_path p ≡ split dot name ++ observers ∷ r
    → scroll_path q ≡ split dot name ++ observers ∷ s
    → same_path (scroll_path p) (scroll_path q) ≡ same_path r s
same_below name p q r s e f =
    rw (e, f, same_path-append) (unfold same_path in ground (arith, same_refl observers))
