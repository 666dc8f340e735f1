-- ===== src/Controller/Tests.antt =====
-- Runs of `SetVar` over the tree in memory.
use variables_and_streams_se.Base.{
  ℕ, [], ◌∷◌, true, false, some, none, ◌≡◌, ◌≢◌, refl, ◌≤◌, ◌⊎◌, ◌↔◌, is_empty, length,
}
use variables_and_streams_se.Base.Text.{Text, codes, split, has_byte}
use variables_and_streams_se.Storage.{RamCacheDb, empty_db}
use variables_and_streams_se.Storage.Laws.{holds}
use variables_and_streams_se.Storage.Path.{scroll_path, dot}
use variables_and_streams_se.Storage.Interface.{ram_storage}
use variables_and_streams_se.VarHelper.{
  controlled_name, star, set_value, get_value, is_locked, try_lock,
}
use variables_and_streams_se.VarHelper.Internal.{is_internal}
use variables_and_streams_se.VarHelper.Tests.{helper_runs}
use variables_and_streams_se.Controller.{
  Limits, internal_name, check_name, set_var, accepted, refused,
}
use variables_and_streams_se.Controller.Names.{
  valid_chars, get_only, contains_underscore_dot, name_parts, any_exceeds,
}
use variables_and_streams_se.Controller.Setting.{
  limits, AllWithin, set_var_error, get-set_var, set_var_wildcard, set_var_locked,
  set_var_keeps_internal, set_var-limits, guarded_parts, set_var-internal_name,
}

-- Opens all that a run of the controller computes with.
unfoldable pub controller_runs : Unit {0}
unfolding helper_runs set_value get_value check_name set_var accepted refused get_only
    contains_underscore_dot name_parts any_exceeds
controller_runs = tt

abbrev pub word_limit : ℕ
word_limit = 16

abbrev pub c : Limits
c = limits false 64 word_limit 32

-- A request with a byte that is filtered out.
abbrev pub request : Text
request = codes "home.la$mp"

abbrev pub lamp : Text
lamp = codes "vars.home.lamp"

abbrev pub on : Text
on = codes "on"

abbrev lock_flag : Text
lock_flag = codes "vars.home.lamp._lock"

filtered : controlled_name c.allow_raw_db_access (get_only request valid_chars) ≡ lamp
unfolding controller_runs
filtered = refl

pub request_ok : (set_var ram_storage c request on empty_db).error ≡ none
unfolding controller_runs
request_ok = refl

request_plain :
    has_byte star (controlled_name c.allow_raw_db_access (get_only request valid_chars)) ≡ false
unfolding controller_runs
request_plain = refl

get-set_var_example :
    (get_value ram_storage
        (controlled_name c.allow_raw_db_access (get_only request valid_chars))
        (set_var ram_storage c request on empty_db).db
      ≡ on)
    × ((set_var ram_storage c request on empty_db).notified
        ≡ (get_only request valid_chars, on) ∷ [])
get-set_var_example = get-set_var ram_storage c request on empty_db request_ok request_plain

flag_refused : (set_var ram_storage c lock_flag on empty_db).error ≡ some internal_name
unfolding controller_runs
flag_refused = refl

refused_unchanged :
    ((set_var ram_storage c lock_flag on empty_db).db ≡ empty_db)
    × ((set_var ram_storage c lock_flag on empty_db).notified ≡ [])
refused_unchanged = set_var_error ram_storage c lock_flag on empty_db internal_name flag_refused

abbrev all_lamps : Text
all_lamps = codes "home.*"

all_ok : (set_var ram_storage c all_lamps on empty_db).error ≡ none
unfolding controller_runs
all_ok = refl

all_wild :
    has_byte star (controlled_name c.allow_raw_db_access (get_only all_lamps valid_chars)) ≡ true
unfolding controller_runs
all_wild = refl

wildcard_not_set :
    ((set_var ram_storage c all_lamps on empty_db).db ≡ empty_db)
    × ((set_var ram_storage c all_lamps on empty_db).notified
        ≡ (get_only all_lamps valid_chars, on) ∷ [])
wildcard_not_set = set_var_wildcard ram_storage c all_lamps on empty_db all_ok all_wild

abbrev locked_db : RamCacheDb
locked_db = (try_lock ram_storage lamp empty_db).0

request_locked :
    is_locked ram_storage
      (controlled_name c.allow_raw_db_access (get_only request valid_chars))
      locked_db
    ≡ true
unfolding controller_runs
request_locked = refl

locked_not_set :
    ((set_var ram_storage c request on locked_db).error ≢ none)
    × ((set_var ram_storage c request on locked_db).db ≡ locked_db)
locked_not_set = set_var_locked ram_storage c request on locked_db request_locked

flag_internal : is_internal (scroll_path lock_flag) ≡ true
unfolding controller_runs
flag_internal = refl

set_var_keeps_internal_example :
    holds lock_flag (set_var ram_storage c request on locked_db).db ≡ holds lock_flag locked_db
set_var_keeps_internal_example =
    set_var_keeps_internal ram_storage c request on lock_flag locked_db refl flag_internal

set_var-limits_example :
    (length (get_only request valid_chars) ≤ 64)
    × (length on ≤ 32)
    × ((word_limit ≡ 0) ⊎ AllWithin word_limit (split dot (get_only request valid_chars)))
set_var-limits_example =
    set_var-limits ram_storage false 64 word_limit 32 request on empty_db request_ok

set_var-internal_name_example :
    ((set_var ram_storage c lock_flag on empty_db).error ≡ some internal_name) ↔ (
      (is_empty (get_only lock_flag valid_chars) ≡ false)
      × (is_internal (guarded_parts false (get_only lock_flag valid_chars)) ≡ true))
set_var-internal_name_example = set_var-internal_name ram_storage c lock_flag on empty_db
