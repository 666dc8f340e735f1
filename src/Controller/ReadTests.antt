-- ===== src/Controller/ReadTests.antt =====
-- Runs of GetVars, DelVar and the notifications over the tree in memory.
use variables_and_streams_se.Base.{some, ℕ, [], ◌∷◌, true, false, none, ◌≡◌, refl, ◌≤◌, ◌⊎◌}
use variables_and_streams_se.Base.Text.{Text, codes, has_byte}
use variables_and_streams_se.Storage.{RamCacheDb, empty_db}
use variables_and_streams_se.Storage.Interface.{ram_storage}
use variables_and_streams_se.VarHelper.{star, is_locked}
use variables_and_streams_se.Controller.{set_var}
use variables_and_streams_se.Controller.Names.{valid_chars, get_only}
use mathlib.Core.List.{Memᴰ}
use mathlib.Core.List.Memᴰ.{head}
use variables_and_streams_se.Base.{is_empty, ◌↔◌, ◌+◌, arith, inr}
use variables_and_streams_se.Base.Decimal.{
  itoa_nat, itoa, get_int64, atoi, magnitude, from_magnitude, scan,
}
use variables_and_streams_se.Storage.{set}
use variables_and_streams_se.Storage.Depth.{depth, height}
use variables_and_streams_se.Storage.Laws.{IsSound, set-IsSound, empty_db-IsSound}
use variables_and_streams_se.VarHelper.{get_child_names, visible_childs}
use variables_and_streams_se.VarHelper.Observers.{
  register_observation, get_all_observing_clients, observing_from, count, entry,
}
use variables_and_streams_se.VarHelper.Observers.Keys.{count_key, entry_key, by_id_key}
use variables_and_streams_se.Controller.Reading.{
  get_vars, del_var, ends_with, parse_name, but_last, trim_dot, read_from_db, collect, child_prefix,
  own_value,
}
use variables_and_streams_se.Controller.ReadBack.{get_vars-set_var, get_vars-del_var, get_vars_ok}
use variables_and_streams_se.Base.Text.{has_prefix}
use variables_and_streams_se.VarHelper.Internal.{lock_key}
use variables_and_streams_se.Controller.Unlocking.{del_var_unlocks}
use variables_and_streams_se.Controller.Hiding.{IsOpen, AllOpen, get_vars-AllOpen}
use variables_and_streams_se.Controller.Fuel.{get_vars_ends}
use variables_and_streams_se.Controller.Notifying.{
  Notification, notify_clients, observations, notify_var_modification,
}
use variables_and_streams_se.Controller.Reaching.{Concerns, Concerns-notified, notified-Concerns}
use variables_and_streams_se.Controller.Tests.{controller_runs, c, request, lamp, on, request_ok}

on_filled : is_empty on ≡ false
on_filled = refl

name_plain : has_byte star (get_only request valid_chars) ≡ false
unfolding controller_runs
name_plain = refl

get_vars-set_var_example :
    get_vars ram_storage c.allow_raw_db_access 4
      (get_only request valid_chars)
      []
      (set_var ram_storage c request on empty_db).db
    ≡ ((get_only request valid_chars, on) ∷ [], none)
get_vars-set_var_example =
    get_vars-set_var ram_storage c 3 request on [] empty_db request_ok name_plain on_filled

abbrev lit : RamCacheDb
lit = set lamp on empty_db

lit-IsSound : IsSound lit
lit-IsSound = set-IsSound lamp on empty_db empty_db-IsSound

lamp_plain : has_byte star lamp ≡ false
unfolding controller_runs
lamp_plain = refl

get_vars-del_var_example :
    (get_vars ram_storage false 4 lamp on (del_var ram_storage false 4 lamp lit).0.0
      ≡ ((lamp, on) ∷ [], none))
    × ((del_var ram_storage false 4 lamp lit).0.1 ≡ (lamp, []) ∷ [])
get_vars-del_var_example =
    get_vars-del_var ram_storage false 3 lamp on lit lit-IsSound refl lamp_plain

get_vars_without_error : ((get_vars ram_storage false 4 (codes "home.*") [] lit).1 ≡ none) ↔ (
    (is_empty (codes "home.*") ≡ false)
    × ((has_byte star (codes "home.*") ≡ false) ⊎ (ends_with star (codes "home.*") ≡ true)))
get_vars_without_error = get_vars_ok ram_storage false 4 (codes "home.*") [] lit

all_below :
    get_vars ram_storage false 5 (codes "home.*") [] lit ≡ ((codes "home.lamp", on) ∷ [], none)
unfolding controller_runs get_vars parse_name ends_with but_last trim_dot read_from_db collect
    child_prefix own_value get_child_names visible_childs
all_below = refl

abbrev fuel : ℕ
fuel = 5

lit_shallow : depth lit + 2 ≤ fuel
unfolding controller_runs depth height
lit_shallow = omega arith

get_vars_ends_example :
    (get_vars ram_storage false fuel (codes "home.*") [] lit
      ≡ get_vars ram_storage false (depth lit + 2) (codes "home.*") [] lit)
    × (del_var ram_storage false fuel (codes "home.*") lit
        ≡ del_var ram_storage false (depth lit + 2) (codes "home.*") lit)
get_vars_ends_example =
    get_vars_ends ram_storage false fuel (codes "home.*") [] lit lit-IsSound lit_shallow

-- A client that observes all below "home".
abbrev observed_db : RamCacheDb
observed_db =
    (register_observation ram_storage (codes "vars.home.*") (codes "a") (codes "x") empty_db).0

abbrev news : Notification
news = record {
  client_id = codes "a";
  changed_name = codes "home.lamp";
  metadata = codes "x";
  value = on;
}

told_of_lamp : Memᴰ news (
    notify_clients
      (observations ram_storage false (codes "home.*") observed_db)
      (codes "home.lamp")
      on)
unfolding controller_runs register_observation observations get_all_observing_clients observing_from
    count entry count_key entry_key by_id_key itoa_nat itoa get_int64 atoi magnitude from_magnitude
    scan notify_clients
told_of_lamp = head refl

lamp-Concerns : Concerns (codes "home.lamp") (codes "home.*")
lamp-Concerns = inr (inr (codes "home", (codes "lamp", refl), refl))

Concerns-notified_example :
    Memᴰ news (notify_var_modification ram_storage false (codes "home.lamp") on observed_db)
Concerns-notified_example =
    Concerns-notified ram_storage false (codes "home.lamp") on (codes "home.*") news observed_db
      lamp-Concerns told_of_lamp

notified-Concerns_example :
    (p : Text) × Concerns (codes "home.lamp") p
    × Memᴰ news
        (notify_clients (observations ram_storage false p observed_db) (codes "home.lamp") on)
notified-Concerns_example =
    notified-Concerns ram_storage false (codes "home.lamp") on news observed_db (
      Concerns-notified ram_storage false (codes "home.lamp") on (codes "home.*") news observed_db
        lamp-Concerns told_of_lamp)

-- The lamp is locked, and the request deletes the flag.
abbrev flagged : RamCacheDb
flagged = set (lock_key lamp) (codes "1") empty_db

flagged_locked : is_locked ram_storage lamp flagged ≡ true
unfolding controller_runs
flagged_locked = refl

lamp_prefixed : has_prefix (codes "vars.") lamp ≡ true
unfolding controller_runs
lamp_prefixed = refl

lock_flag_deleted :
    is_locked ram_storage lamp (del_var ram_storage false fuel (lock_key lamp) flagged).0.0 ≡ false
lock_flag_deleted =
    del_var_unlocks ram_storage false 4 lamp flagged
      (set-IsSound (lock_key lamp) (codes "1") empty_db empty_db-IsSound) lamp_prefixed lamp_plain

wild_parsed : parse_name (codes "home.*") ≡ some (codes "home", true)
unfolding controller_runs parse_name ends_with but_last trim_dot
wild_parsed = refl

home-IsOpen : IsOpen (codes "home")
unfolding controller_runs
home-IsOpen = refl

get_vars-AllOpen_example : AllOpen (get_vars ram_storage false fuel (codes "home.*") [] flagged).0
get_vars-AllOpen_example =
    get_vars-AllOpen ram_storage fuel (codes "home.*") (codes "home") [] true flagged
      (set-IsSound (lock_key lamp) (codes "1") empty_db empty_db-IsSound) wild_parsed home-IsOpen
