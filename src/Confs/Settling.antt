-- ===== src/Confs/Settling.antt =====
-- What `CreateConfig` settles.
use variables_and_streams_se.Base.{
  List, [], ◌∷◌, ◌++◌, Option, none, some, ◌≡◌, refl, arith, ◌⊎◌, inl, inr, sym, ◌∙◌, ap, All,
}
use variables_and_streams_se.Base.Text.{Text, same, same_refl}
use variables_and_streams_se.Base.Maps.{lookup, put}
use variables_and_streams_se.Confs.Sources.{Table, Source}
use variables_and_streams_se.Confs.{
  ConfItem, Confs, ConfOption, with_value, from_source, validate_current_value, apply_place_holders,
  taken_from, resolved, settled, new_config, new_conf_item, create_in, create_config,
}

found_again :
    (k : Text) (item : ConfItem) (m : List (Text × ConfItem))
    → lookup same k (put same k item m) ≡ some item
unfolding lookup put
found_again k item [] = ground (arith, same_refl k)
found_again k item ((j, w) ∷ m) = ground (arith, same_refl k, found_again k item m)

settled_lem :
    (place_holders : Table) (c : ConfItem) (found : Option Text)
    → validate_current_value c ≡ found
    → (((settled place_holders c found).1 ≡ none)
        × (validate_current_value (settled place_holders c found).0 ≡ none))
      ⊎ ((error : Text) × ((settled place_holders c found).1 ≡ some error)
          × ((settled place_holders c found).0.the_value
              ≡ apply_place_holders place_holders (settled place_holders c found).0.default_value))
unfolding settled with_value
settled_lem place_holders c none e = inl (refl, e)
settled_lem place_holders c (some error) e = inr (error, refl, refl)

-- CreateConfig of a name that is not known yet either gives no error, and then the item's validation accepts
-- its value, or it gives the error of the validation, and then the value is the default one with the
-- place holders replaced. Each later CreateConfig of the name gives the same item with no error, whatever
-- its options, and changes nothing.
pub create_config_settles :
    (name : Text) (options later : List ConfOption) (c : Confs)
    → lookup same name c.items ≡ none
    → let (c', (item, error)) = create_config name options c in
      (((error ≡ none) × (validate_current_value item ≡ none))
        ⊎ ((e : Text) × (error ≡ some e)
            × (item.the_value ≡ apply_place_holders c.place_holders item.default_value)))
      × (create_config name later c' ≡ (c', (item, none)))
unfolding create_config create_in new_config validate_current_value
create_config_settles name options later c new =
    let item = resolved c.place_holders c.sources (new_conf_item name options) in
    rw (new, create_in)
      (settled_lem c.place_holders item _ refl, rw (found_again name _ c.items) refl)

resolved-first :
    (place_holders : Table) (before after : List Source) (source : Source) (c : ConfItem)
    (v n : Text)
    → All (λ s. s.find c.possible_names ≡ none) before
    → source.find c.possible_names ≡ some (v, n)
    → resolved place_holders (before ++ source ∷ after) c
      ≡ from_source n source.source_info (with_value (apply_place_holders place_holders v) c)
unfolding resolved taken_from
resolved-first place_holders [] after source c v n h e = rw (e, taken_from) refl
resolved-first place_holders (s ∷ before) after source c v n (h, hs) e =
    rw (h, taken_from) (resolved-first place_holders before after source c v n hs e)

accepted :
    (place_holders : Table) (c : ConfItem) (found : Option Text)
    → (settled place_holders c found).1 ≡ none
    → (settled place_holders c found).0 ≡ c
unfolding settled
accepted place_holders c none e = refl
accepted place_holders c (some error) e = cc

created :
    (name : Text) (options : List ConfOption) (c : Confs)
    → lookup same name c.items ≡ none
    → (create_config name options c).1 ≡ new_config name options c
unfolding create_config create_in new_config
created name options c new = rw (new, create_in) refl

new_item :
    (name : Text) (options : List ConfOption) (c : Confs)
    → (new_config name options c).1 ≡ none
    → (new_config name options c).0
      ≡ resolved c.place_holders c.sources (new_conf_item name options)
unfolding new_config
new_item name options c ok = accepted c.place_holders _ _ ok

-- If CreateConfig of a name that is not known yet gives no error, the value is that of the first source that
-- has one of the item's names, with the place holders replaced, whatever the sources behind it have, and
-- the item names that source and the name that it used.
pub create_config_precedence :
    (name v n : Text) (options : List ConfOption) (before after : List Source) (source : Source)
    (c : Confs)
    → lookup same name c.items ≡ none
    → c.sources ≡ before ++ source ∷ after
    → All (λ s. s.find (new_conf_item name options).possible_names ≡ none) before
    → source.find (new_conf_item name options).possible_names ≡ some (v, n)
    → (create_config name options c).1.1 ≡ none
    → let item = (create_config name options c).1.0 in
      (item.the_value ≡ apply_place_holders c.place_holders v)
      × (item.used_name_in_source ≡ n)
      × (item.source_info ≡ source.source_info)
unfolding from_source with_value
create_config_precedence name v n options before after source c new at none_before found ok =
    let made = created name options c new in
    let item = new_item name options c (ap (λ x. x.1) (sym made) ∙ ok) in
    let taken =
      resolved-first c.place_holders before after source (new_conf_item name options) v n
        none_before found in
    rw (made, item, at, taken) (refl, refl, refl)
