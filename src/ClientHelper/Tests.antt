-- ===== src/ClientHelper/Tests.antt =====
-- Runs of the client helper over the tree in memory.
use variables_and_streams_se.Base.{List, [], ◌∷◌, true, some, none, Option, ◌≡◌, refl, arith}
use variables_and_streams_se.Base.Text.{Text, codes, contains_text, drop_bytes, has_prefix}
use variables_and_streams_se.Base.Decimal.{
  pos, get_int64, atoi, itoa_nat, itoa, scan, magnitude, from_magnitude,
}
use variables_and_streams_se.Storage.{RamCacheDb, empty_db}
use variables_and_streams_se.Storage.Path.{scroll_path, is_prefix}
use variables_and_streams_se.Storage.Laws.{empty_db-IsSound}
use variables_and_streams_se.Storage.Tests.{storage_runs}
use variables_and_streams_se.Storage.Interface.{ram_storage}
use variables_and_streams_se.ClientHelper.{
  update_live_time, enlist, set_api, initialize, get_observing_vars, get_observing_vars_count,
  observing_var, collect_observing, find_var_index_on_observing_vars, register_new_observation,
  unregister_observation, forget_at, delist_at, remove_client_from_observation_system,
}
use variables_and_streams_se.ClientHelper.Keys.{
  client_key, api_id_key, last_live_time_key, observing_count_key, observing_key, observing_node,
  list_key, list_count_key,
}
use variables_and_streams_se.ClientHelper.Lists.{find_from, shift_down, close_gap}
use variables_and_streams_se.ClientHelper.Listed.{remove_first}
use variables_and_streams_se.ClientHelper.Observing.{Observing}
use variables_and_streams_se.ClientHelper.Clients.{
  Clients, initialize-Clients, remove_client-Clients,
}
use variables_and_streams_se.ClientHelper.Runs.{
  Call, observe, forget, notify_client, on_vars, on_vars_all, perform_calls, client_refines,
}

-- Opens all that a run of the client helper computes with.
unfoldable pub client_runs : Unit {0}
unfolding storage_runs update_live_time enlist set_api initialize get_observing_vars
    get_observing_vars_count observing_var collect_observing find_var_index_on_observing_vars
    register_new_observation unregister_observation forget_at delist_at find_from shift_down
    close_gap remove_client_from_observation_system client_key api_id_key last_live_time_key
    observing_count_key observing_key observing_node list_key list_count_key get_int64 atoi scan
    magnitude from_magnitude itoa_nat itoa has_prefix contains_text drop_bytes
client_runs = tt

abbrev seven : Text
seven = codes "7"

abbrev api : Option Text
api = some (codes "vstp")

nothing_observed : Observing ram_storage seven [] empty_db
unfolding client_runs
nothing_observed = record { sound = empty_db-IsSound; counted = refl; reads = tt }

abbrev calls : List Call
calls =
    observe (codes "a") 10
    ∷ observe (codes "b") 20
    ∷ notify_client api true 30
    ∷ forget (codes "a") 40
    ∷ []

client_refines_example :
    Observing ram_storage seven
      (on_vars_all calls [])
      (perform_calls ram_storage seven calls empty_db)
client_refines_example =
    client_refines ram_storage seven calls [] empty_db (omega arith) nothing_observed

b_left : on_vars_all calls [] ≡ codes "vars.b" ∷ []
unfolding client_runs on_vars_all on_vars remove_first
b_left = refl

b_read :
    get_observing_vars ram_storage seven
      (register_new_observation ram_storage seven (codes "b") 20 empty_db)
    ≡ codes "b" ∷ []
unfolding client_runs
b_read = refl

-- Three clients come, and the first one goes.
abbrev with_client : Text → RamCacheDb → RamCacheDb
with_client client db = initialize ram_storage client none 10 db

abbrev three : RamCacheDb
three = with_client (codes "c") (with_client (codes "b") (with_client (codes "a") empty_db))

no_clients : Clients ram_storage [] empty_db
unfolding client_runs
no_clients = record { sound = empty_db-IsSound; counted = refl; reads = tt }

first_client : Clients ram_storage (codes "a" ∷ []) (with_client (codes "a") empty_db)
unfolding client_runs
first_client =
    initialize-Clients ram_storage (codes "a") none 10 [] empty_db (omega arith) no_clients

first_index :
    get_int64
      (ram_storage.get (client_key (codes "a")) (codes "-1") (with_client (codes "a") empty_db))
    ≡ pos 0
unfolding client_runs
first_index = refl

below_itself :
    is_prefix (scroll_path (client_key (codes "a"))) (scroll_path (api_id_key (codes "a"))) ≡ true
unfolding client_runs is_prefix
below_itself = refl

remove_client-Clients_example :
    Clients ram_storage [] (
      remove_client_from_observation_system ram_storage
        (codes "a")
        (with_client (codes "a") empty_db))
    × (ram_storage.get (api_id_key (codes "a")) [] (
          remove_client_from_observation_system ram_storage
            (codes "a")
            (with_client (codes "a") empty_db))
        ≡ [])
remove_client-Clients_example =
    remove_client-Clients ram_storage (codes "a") 0 (codes "a" ∷ []) (api_id_key (codes "a")) []
      (with_client (codes "a") empty_db) (omega arith) (omega arith) first_index below_itself
      first_client

-- The index that the database has of "b" is the one from before "a" went: "c" goes in its place.
stale_index :
    ram_storage.get (list_key (codes "0")) [] (
      remove_client_from_observation_system ram_storage
        (codes "b")
        (remove_client_from_observation_system ram_storage (codes "a") three))
    ≡ codes "b"
unfolding client_runs
stale_index = refl
