-- ===== src/Http.antt =====
-- sources/services/apis/httpapi/httpapi.go: the requests on variables. net/http hands over the method, the
-- path, the parameters and the body; encoding/json and the printing of floating numbers are parameters.
pub mod Tree
pub mod Nesting
pub mod Requests
pub mod Setting
pub mod Tests
use variables_and_streams_se.Base.{
  ℕ, List, [], ◌∷◌, ◌++◌, Bool, true, false, not, ◌&&◌, ◌||◌, ◌==◌, Option, none, some,
  if◌then◌else◌, is_empty, length, ◌+◌, get_or,
}
use variables_and_streams_se.Base.Text.{
  Text, codes, same, has_byte, has_prefix, drop_bytes, split, join, contains_text,
}
use variables_and_streams_se.Base.Decimal.{ℤ, itoa, atoi, get_int64}
use variables_and_streams_se.Storage.Path.{dot}
use variables_and_streams_se.Storage.Interface.{IStorage}
use variables_and_streams_se.VarHelper.{star}
use variables_and_streams_se.Controller.{Limits, SetError, SetOutcome, set_var}
use variables_and_streams_se.Controller.Reading.{
  GetVarsError, ends_with, but_last, trim_dot, child_prefix, get_vars, del_var,
}
use variables_and_streams_se.Confs.Sources.{to_lower, replace_all}
use variables_and_streams_se.Vstp.Commands.{set_error_text, get_error_text}
use Tree.{
  Json, null, scalar, text, array, object, Items, Fields, end, field, insert_nested,
  normalize_arrays,
}

-- trimWildcardBase
unfoldable pub trim_wildcard_base : Text → Text
trim_wildcard_base name = if ends_with star name then trim_dot (but_last name) else name

-- The name without the base and the dot behind it, if it begins with them.
unfoldable pub below_base : Text → Text → Text
below_base base name =
    if not (is_empty base) && has_prefix (base ++ dot ∷ []) name
    then drop_bytes (length base + 1) name
    else name

-- InferType and GetBool of a DynamicVar.
pub data Kind : Type 0 where
  int_kind float_kind bool_kind string_kind : Kind

abbrev pub bool_words : List Text
bool_words = codes "1" ∷ codes "0" ∷ codes "true" ∷ codes "false" ∷ codes "yes" ∷ codes "no" ∷ []

unfoldable pub one_of : List Text → Text → Bool
one_of [] s = false
one_of (w ∷ words) s = if same s w then true else one_of words s

unfoldable pub infer_type : (Text → Option Text) → Text → Kind
infer_type format_float v = elim (atoi v) [
  | some n ↦ int_kind
  | none ↦ elim (format_float v) [
    | some f ↦ float_kind
    | none ↦ if one_of bool_words (to_lower v) then bool_kind else string_kind
  ]
]

unfoldable pub get_bool : Text → Bool
get_bool v = contains_text (to_lower v) (codes "1trueyesok")

-- What a GET answers with: one value, or the tree.
pub data Answer : Type 0 where
  whole : Text → Answer
  nested : Fields → Answer

pub record Response : Type 0 where
  pub status : ℕ
  pub body : Text

-- http.Error
unfoldable pub http_error : ℕ → Text → Response
http_error status message = record { status = status; body = message ++ 10 ∷ [] }

unfoldable pub no_content : Response
no_content = record { status = 204; body = [] }

-- Why setJson ends early: an error of SetVar, or a panic.
pub data Stop : Type 0 where
  refused : SetError → Stop
  panicked : Stop

abbrev pub map_error : Option SetError → Option Stop
map_error none = none
map_error (some e) = some (refused e)

-- What encoding/json and strconv do: Unmarshal, Marshal and MarshalIndent, and FormatFloat of ParseFloat.
pub record Encoding : Type 0 where
  pub unmarshal : Text → Option Json
  pub marshal : Json → Text
  pub marshal_indent : Json → Text
  pub format_float : Text → Option Text

module _ (enc : Encoding) where
  unfoldable pub parse_dynamic_var : Text → Json
  parse_dynamic_var s = if is_empty s then text [] else get_or (enc.unmarshal s) (text s)

  -- The value of one variable, with no object around it.
  unfoldable pub single_json : Kind → Text → Text
  single_json int_kind v = itoa (get_int64 v)
  single_json float_kind v = get_or (enc.format_float v) (codes "0")
  single_json bool_kind v = if get_bool v then codes "trye" else codes "false"
  single_json string_kind v = b'"' ∷ v ++ b'"' ∷ []

  unfoldable pub plain_lines : Bool → Text → List (Text × Text) → List Text
  plain_lines full base [] = []
  plain_lines full base ((name, v) ∷ vals) =
      ((if full then name else below_base base name) ++ b'=' ∷ v) ∷ plain_lines full base vals

  -- The loop of handleGetByName over the values, of which there are `count`.
  unfoldable pub build_answer : Bool → Text → ℕ → List (Text × Text) → Fields → Answer
  build_answer full base count [] root = nested root
  build_answer full base count ((name, v) ∷ vals) root =
      let with_name : Text → Answer = λ n.
        build_answer full base count vals
          (insert_nested (split dot n) (parse_dynamic_var v) root) in
      if full
      then with_name name
      else if same base name
      then (if count == 1
          then (if has_byte dot name
              then whole (single_json (infer_type enc.format_float v) v)
              else with_name name)
          else with_name (codes "_value"))
      else with_name (below_base base name)

  unfoldable pub encoded : Bool → Answer → Text
  encoded pretty (whole body) = body
  encoded pretty (nested root) =
      let final = normalize_arrays (object root) in
      if pretty then enc.marshal_indent final else enc.marshal final

  -- handleGetByName, for the values that GetVars gives.
  unfoldable pub get_response :
      Text → Bool → Bool → Text → (List (Text × Text)) × Option GetVarsError → Response
  get_response exporter pretty full name (vals, some e) = http_error 500 (get_error_text e)
  get_response exporter pretty full name (vals, none) =
      let base = trim_wildcard_base name in
      if same exporter (codes "plain")
      then record { status = 200; body = join 10 (plain_lines full base vals) }
      else record {
        status = 200;
        body = encoded pretty (build_answer full base (length vals) vals end);
      }

  -- NewDynamicVar of a decoded value: none for null, whose type is nil, so that `msgsType.Kind()` panics.
  unfoldable pub to_text : Json → Option Text
  to_text null = none
  to_text (text s) = some s
  to_text (scalar s) = some (enc.marshal (scalar s))
  to_text (array xs) = some (enc.marshal (array xs))
  to_text (object fs) = some (enc.marshal (object fs))

  module _ (st : IStorage) (c : Limits) where
    open st use {Db}

    -- What a request leaves: the database, and the notifications that it starts.
    abbrev pub Left : Type 0
    Left = Db × List (Text × Text)

    -- One variable of setJson, behind those that are set already.
    unfoldable pub set_one : Text → Text → Left → Left × Option Stop
    set_one name v (db, notified) =
        let done = set_var st c name v db in
        ((done.db, notified ++ done.notified), map_error done.error)

    -- The same for what NewDynamicVar makes of the value.
    unfoldable pub set_leaf : Text → Option Text → Left → Left × Option Stop
    unfolding set_one
    set_leaf name none left = (left, some panicked)
    set_leaf name (some v) left = set_one name v left

    -- `if err != nil { return err }`
    unfoldable pub unless_error :
        Left × Option Stop → (Left → Left × Option Stop) → Left × Option Stop
    unless_error (left, none) go_on = go_on left
    unless_error (left, some e) go_on = (left, some e)

    -- The loop of setJson: the first error ends it, and ends the loops around it; so does a panic.
    unfoldable mutual
      pub set_value : Text → Json → Left → Left × Option Stop
      set_value name null left = set_leaf name (to_text null) left
      set_value name (scalar s) left = set_leaf name (to_text (scalar s)) left
      set_value name (text s) left = set_leaf name (to_text (text s)) left
      set_value name (array xs) left = set_leaf name (to_text (array xs)) left
      set_value name (object fs) left = set_fields (child_prefix name) fs left

      pub set_fields : Text → Fields → Left → Left × Option Stop
      set_fields parent end left = (left, none)
      set_fields parent (field key v fs) left =
          unless_error (set_value (parent ++ key) v left) (λ after. set_fields parent fs after)

    -- setJson of a whole body
    unfoldable pub set_json : Fields → Db → Left × Option Stop
    set_json obj db = set_fields [] obj (db, [])
