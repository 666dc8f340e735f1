-- ===== src/Confs.antt =====
-- sources/misc/confs/confs.go: the items of the configuration and how their values are found.
pub mod Sources
pub mod Tests
pub mod Settling
use variables_and_streams_se.Base.{
  ℕ, List, [], ◌∷◌, ◌++◌, Bool, true, false, Option, none, some, if◌then◌else◌, get_or,
}
use variables_and_streams_se.Base.Text.{Text, codes, same}
use variables_and_streams_se.Base.Maps.{lookup, put}
use Sources.{Table, Found, Source, replace_all, to_lower}

-- A validation reads the value of the item with and without the map of values; what it gives is the text
-- of its error.
pub record ConfItem : Type 0 where
  pub name : Text
  pub possible_names : List Text
  pub default_value : Text
  pub the_value : Text
  pub value_map : Table
  pub validate : Text → Text → Option Text
  pub used_name_in_source : Text
  pub source_info : Text

pub record Confs : Type 0 where
  pub items : List (Text × ConfItem)
  pub sources : List Source
  pub place_holders : Table

-- The options of CreateConfig.
pub data ConfOption : Type 0 where
  with_possible_names : List Text → ConfOption
  with_default_value : Text → ConfOption
  with_value_map : Table → ConfOption
  with_validation_func : (Text → Text → Option Text) → ConfOption

-- AddValueMap
unfoldable pub add_value_map : Table → Table → Table
add_value_map [] values = values
add_value_map ((k, v) ∷ more) values = add_value_map more (put same (to_lower k) v values)

unfoldable pub apply_option : ConfOption → ConfItem → ConfItem
apply_option (with_possible_names names) c = record {
  name = c.name;
  possible_names = names;
  default_value = c.default_value;
  the_value = c.the_value;
  value_map = c.value_map;
  validate = c.validate;
  used_name_in_source = c.used_name_in_source;
  source_info = c.source_info;
}
apply_option (with_default_value v) c = record {
  name = c.name;
  possible_names = c.possible_names;
  default_value = v;
  the_value = c.the_value;
  value_map = c.value_map;
  validate = c.validate;
  used_name_in_source = c.used_name_in_source;
  source_info = c.source_info;
}
apply_option (with_value_map values) c = record {
  name = c.name;
  possible_names = c.possible_names;
  default_value = c.default_value;
  the_value = c.the_value;
  value_map = add_value_map values c.value_map;
  validate = c.validate;
  used_name_in_source = c.used_name_in_source;
  source_info = c.source_info;
}
apply_option (with_validation_func f) c = record {
  name = c.name;
  possible_names = c.possible_names;
  default_value = c.default_value;
  the_value = c.the_value;
  value_map = c.value_map;
  validate = f;
  used_name_in_source = c.used_name_in_source;
  source_info = c.source_info;
}

unfoldable pub apply_options : List ConfOption → ConfItem → ConfItem
apply_options [] c = c
apply_options (option ∷ options) c = apply_options options (apply_option option c)

unfoldable pub new_conf_item : Text → List ConfOption → ConfItem
new_conf_item name options = apply_options options (record {
  name = name;
  possible_names = [];
  default_value = [];
  the_value = [];
  value_map = [];
  validate = λ value raw. none;
  used_name_in_source = name ++ codes " (default value, no source)";
  source_info = codes "No source";
})

-- Value
unfoldable pub value : ConfItem → Text
value c = get_or (lookup same (to_lower c.the_value) c.value_map) c.the_value

unfoldable pub with_value : Text → ConfItem → ConfItem
with_value v c = record {
  name = c.name;
  possible_names = c.possible_names;
  default_value = c.default_value;
  the_value = v;
  value_map = c.value_map;
  validate = c.validate;
  used_name_in_source = c.used_name_in_source;
  source_info = c.source_info;
}

unfoldable pub from_source : Text → Text → ConfItem → ConfItem
from_source found_name info c = record {
  name = c.name;
  possible_names = c.possible_names;
  default_value = c.default_value;
  the_value = c.the_value;
  value_map = c.value_map;
  validate = c.validate;
  used_name_in_source = found_name;
  source_info = info;
}

-- ValidateThisValue. The value that it is given is not looked at: the validation reads the item.
unfoldable pub validate_this_value : Text → ConfItem → Option Text
validate_this_value v c = c.validate (value c) c.the_value

unfoldable pub validate_current_value : ConfItem → Option Text
validate_current_value c = validate_this_value c.the_value c

-- ChangeCurrentValue, with its error.
unfoldable pub change_current_value : Text → Bool → ConfItem → ConfItem × Option Text
change_current_value v false c = (with_value v c, none)
change_current_value v true c = elim (validate_this_value v c) [
  | none ↦ (with_value v c, none)
  | some error ↦ (c, some error)
]

-- applyPlaceHolders, in the order in which the range over the map goes.
unfoldable pub apply_place_holders : Table → Text → Text
apply_place_holders [] v = v
apply_place_holders ((name, by) ∷ more) v = apply_place_holders more (replace_all v name by)

unfoldable pub add_place_holders : Table → Confs → Confs
add_place_holders [] c = c
add_place_holders ((name, v) ∷ more) c = add_place_holders more (record {
  items = c.items;
  sources = c.sources;
  place_holders = put same name v c.place_holders;
})

unfoldable pub add_new_source : Source → Confs → Confs
add_new_source source c = record {
  items = c.items;
  sources = c.sources ++ source ∷ [];
  place_holders = c.place_holders;
}

-- The loop over the sources in CreateConfig, for what one of them finds.
unfoldable pub taken_from : Table → Source → Found → ConfItem → ConfItem → ConfItem
taken_from place_holders source none c rest = rest
taken_from place_holders source (some (v, found_name)) c rest =
    from_source found_name source.source_info (with_value (apply_place_holders place_holders v) c)

unfoldable pub resolved : Table → List Source → ConfItem → ConfItem
resolved place_holders [] c = with_value (apply_place_holders place_holders c.default_value) c
resolved place_holders (source ∷ sources) c =
    taken_from place_holders source (source.find c.possible_names) c
      (resolved place_holders sources c)

-- The item that CreateConfig stores, with the error that it returns.
unfoldable pub settled : Table → ConfItem → Option Text → ConfItem × Option Text
settled place_holders c none = (c, none)
settled place_holders c (some error) =
    (with_value (apply_place_holders place_holders c.default_value) c, some error)

unfoldable pub new_config : Text → List ConfOption → Confs → ConfItem × Option Text
new_config name options c =
    let item = resolved c.place_holders c.sources (new_conf_item name options) in
    settled c.place_holders item (validate_this_value item.the_value item)

-- CreateConfig, for what the items have of the name.
unfoldable pub create_in :
    Option ConfItem → Text → List ConfOption → Confs → Confs × (ConfItem × Option Text)
create_in (some item) name options c = (c, (item, none))
create_in none name options c =
    let (item, error) = new_config name options c in
    (
      record {
        items = put same name item c.items;
        sources = c.sources;
        place_holders = c.place_holders;
      },
      (item, error),
    )

unfoldable pub create_config : Text → List ConfOption → Confs → Confs × (ConfItem × Option Text)
create_config name options c = create_in (lookup same name c.items) name options c

unfoldable pub get_config : Text → List ConfOption → Confs → Confs × ConfItem
get_config name options c = let (c', (item, error)) = create_config name options c in (c', item)

-- FindConfByParamName, in the order in which the range over the map goes.
unfoldable pub has_name : Text → List Text → Bool
has_name x [] = false
has_name x (y ∷ names) = if same y x then true else has_name x names

unfoldable pub find_conf_by_param_name : Text → List (Text × ConfItem) → Option ConfItem
find_conf_by_param_name param_name [] = none
find_conf_by_param_name param_name ((name, item) ∷ items) =
    let more = find_conf_by_param_name param_name items in
    if has_name param_name item.possible_names then some item else more
