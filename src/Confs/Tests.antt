-- ===== src/Confs/Tests.antt =====
-- Runs of the configuration.
use variables_and_streams_se.Base.{
  List, [], ◌∷◌, true, Option, none, some, ◌≡◌, refl, ◌⊎◌, if◌then◌else◌, All,
}
use variables_and_streams_se.Base.Text.{
  Text, codes, same, has_byte, before, after, has_prefix, is_space,
}
use variables_and_streams_se.Base.Maps.{lookup, put}
use variables_and_streams_se.Vstp.{trim_space, trim_left_space, trim_right_space}
use variables_and_streams_se.Confs.Sources.{
  Source, replace_from, put_between, replace_all, underscored, to_upper, to_lower, first_of,
  find_in_table, not_blank, find_in_env, next_argument, with_argument, read_arguments, with_line,
  read_lines, command_line_source, env_source, file_source,
}
use variables_and_streams_se.Confs.{
  Confs, ConfOption, with_possible_names, with_default_value, with_validation_func, apply_option,
  apply_options, new_conf_item, with_value, from_source, value, validate_this_value,
  validate_current_value, change_current_value, apply_place_holders, taken_from, resolved, settled,
  new_config, create_in, create_config,
}
use variables_and_streams_se.Confs.Settling.{create_config_settles, create_config_precedence}

-- Opens all that a run of the configuration computes with.
unfoldable pub configuration_runs : Unit {0}
unfolding replace_from put_between replace_all underscored to_upper to_lower first_of find_in_table
    not_blank find_in_env next_argument with_argument read_arguments with_line read_lines
    command_line_source env_source file_source apply_option apply_options new_conf_item with_value
    from_source value validate_this_value validate_current_value change_current_value
    apply_place_holders taken_from resolved settled new_config create_in create_config lookup put
    same has_byte before after has_prefix is_space trim_space trim_left_space trim_right_space
configuration_runs = tt

abbrev port : Text
port = codes "vstpApiPort"

-- A number is needed, of which one looks at the first byte only.
abbrev starts_with_digit : Text → Text → Option Text
starts_with_digit v [] = some (codes "empty")
starts_with_digit v (c ∷ raw) =
    if has_byte c (codes "0123456789") then none else some (codes "no port")

abbrev options : List ConfOption
options =
    with_possible_names (codes "vstp.port" ∷ [])
    ∷ with_default_value (codes "5032")
    ∷ with_validation_func starts_with_digit
    ∷ []

abbrev from_arguments : Source
from_arguments = command_line_source (codes "--other" ∷ codes "x" ∷ [])

abbrev from_file : Source
from_file = file_source (codes "# ports" ∷ codes " vstp_port = 6000 " ∷ [])

abbrev confs : Confs
confs = record { items = []; sources = from_arguments ∷ from_file ∷ []; place_holders = [] }

no_items : lookup same port confs.items ≡ none
unfolding configuration_runs
no_items = refl

create_config_settles_example :
    let (c', (item, error)) = create_config port options confs in
    (((error ≡ none) × (validate_current_value item ≡ none))
      ⊎ ((e : Text) × (error ≡ some e)
          × (item.the_value ≡ apply_place_holders confs.place_holders item.default_value)))
    × (create_config port [] c' ≡ (c', (item, none)))
create_config_settles_example = create_config_settles port options [] confs no_items

not_in_arguments :
    All (λ s. s.find (new_conf_item port options).possible_names ≡ none) (from_arguments ∷ [])
unfolding configuration_runs
not_in_arguments = (refl, tt)

in_file :
    from_file.find (new_conf_item port options).possible_names
    ≡ some (codes "6000", codes "vstp_port")
unfolding configuration_runs
in_file = refl

port_ok : (create_config port options confs).1.1 ≡ none
unfolding configuration_runs
port_ok = refl

create_config_precedence_example :
    let item = (create_config port options confs).1.0 in
    (item.the_value ≡ apply_place_holders confs.place_holders (codes "6000"))
    × (item.used_name_in_source ≡ codes "vstp_port")
    × (item.source_info ≡ from_file.source_info)
create_config_precedence_example =
    create_config_precedence port (codes "6000") (codes "vstp_port") options (from_arguments ∷ [])
      [] from_file confs no_items refl not_in_arguments in_file port_ok

-- A value that the validation refuses is set, since the validation reads the old one.
refused_value_set :
    (change_current_value (codes "none") true (create_config port options confs).1.0).0.the_value
    ≡ codes "none"
unfolding configuration_runs
refused_value_set = refl

arguments_read :
    read_arguments (codes "--a=1" ∷ codes "b:2" ∷ codes "c" ∷ codes "d" ∷ []) []
    ≡ (codes "--a", codes "1") ∷ (codes "b", codes "2") ∷ (codes "c", codes "d") ∷ []
unfolding configuration_runs
arguments_read = refl

replaced : replace_all (codes "x.%d.%d") (codes "%d") (codes "ab") ≡ codes "x.ab.ab"
unfolding configuration_runs
replaced = refl
