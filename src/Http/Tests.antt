-- ===== src/Http/Tests.antt =====
-- Runs of the requests over HTTP.
use variables_and_streams_se.Base.{[], ◌∷◌, none, some, ◌≡◌, refl}
use variables_and_streams_se.Base.Text.{codes, split, onto_first, contains_text, drop_bytes}
use variables_and_streams_se.Base.Decimal.{atoi, magnitude, from_magnitude, scan}
use variables_and_streams_se.Storage.{empty_db}
use variables_and_streams_se.Storage.Interface.{ram_storage}
use variables_and_streams_se.Controller.Tests.{controller_runs, c}
use variables_and_streams_se.Controller.Reading.{child_prefix, ends_with}
use variables_and_streams_se.Confs.Sources.{to_lower}
use variables_and_streams_se.Http.Tree.{
  null, scalar, text, array, object, nil, item, Fields, end, field, get_field, put_field,
  insert_nested, merged, as_map, normalize_arrays, as_array, counts_up, values_of,
}
use variables_and_streams_se.Http.{
  Encoding, no_content, infer_type, one_of, get_bool, single_json, to_text, set_one, set_leaf,
  unless_error, set_value, set_json, trim_wildcard_base, get_response, build_answer, below_base,
  encoded, parse_dynamic_var,
}
use variables_and_streams_se.Http.Setting.{leaves_of, leaves, set_all, set_json_lem}
use variables_and_streams_se.Http.Requests.{post_json, reply, json_response}

-- An encoding that decodes nothing.
abbrev strings_only : Encoding
strings_only = record {
  unmarshal = λ s. none;
  marshal = λ j. codes "{}";
  marshal_indent = λ j. codes "{}";
  format_float = λ s. none;
}

-- Opens all that a run of a request computes with.
unfoldable pub http_runs : Unit {0}
unfolding controller_runs get_field put_field insert_nested merged as_map normalize_arrays as_array
    counts_up values_of infer_type one_of get_bool single_json to_text set_one set_leaf unless_error
    json_response set_value set_json trim_wildcard_base get_response build_answer below_base encoded
    parse_dynamic_var leaves post_json reply no_content child_prefix ends_with to_lower
    contains_text drop_bytes atoi magnitude from_magnitude scan split onto_first
http_runs = tt

abbrev root : Fields
root = field (codes "lamp") (scalar (codes "1")) end

abbrev obj : Fields
obj =
    field (codes "home")
      (object
        (field (codes "lamp") (text (codes "on")) (field (codes "_x") (text (codes "1")) end)))
      (field (codes "door") (text (codes "shut")) end)

set_json_lem_example :
    set_json strings_only ram_storage c obj empty_db
    ≡ set_all strings_only ram_storage c (leaves_of strings_only [] obj) (empty_db, [])
set_json_lem_example = set_json_lem strings_only ram_storage c obj empty_db

obj_leaves :
    leaves_of strings_only [] obj
    ≡ (codes "home.lamp", some (codes "on"))
      ∷ (codes "home._x", some (codes "1"))
      ∷ (codes "door", some (codes "shut"))
      ∷ []
unfolding http_runs
obj_leaves = refl

-- The second leaf is refused, the third one is not set, and the answer is that of a success.
error_dropped :
    ((post_json strings_only ram_storage c (some obj) empty_db).response ≡ some no_content)
    × ((post_json strings_only ram_storage c (some obj) empty_db).started
        ≡ (codes "home.lamp", codes "on") ∷ [])
unfolding http_runs
error_dropped = (refl, refl)

-- A null ends the request with a panic: there is no answer, and the variable behind it is not set.
abbrev with_null : Fields
with_null = field (codes "home") null (field (codes "door") (text (codes "shut")) end)

null_panics :
    ((post_json strings_only ram_storage c (some with_null) empty_db).response ≡ none)
    × ((post_json strings_only ram_storage c (some with_null) empty_db).started ≡ [])
unfolding http_runs
null_panics = (refl, refl)

-- A variable with the value "true" is not answered with a JSON value.
not_json :
    single_json strings_only (infer_type (λ s. none) (codes "true")) (codes "true") ≡ codes "trye"
unfolding http_runs
not_json = refl

-- A name that is asked for with a wildcard and two values below it.
as_list :
    normalize_arrays (
      object (
        insert_nested
          (codes "1" ∷ [])
          (text (codes "b"))
          (insert_nested (codes "0" ∷ []) (text (codes "a")) end)))
    ≡ array (item (text (codes "a")) (item (text (codes "b")) nil))
unfolding http_runs
as_list = refl

-- Of the variables a.b and a..b one takes the other's place.
place_taken :
    insert_nested
      (split b'.' (codes "a..b"))
      (text (codes "2"))
      (insert_nested (split b'.' (codes "a.b")) (text (codes "1")) end)
    ≡ field (codes "a") (object (field (codes "b") (text (codes "2")) end)) end
unfolding http_runs
place_taken = refl
