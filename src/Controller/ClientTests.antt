-- ===== src/Controller/ClientTests.antt =====
-- Runs of the operations on clients over the tree in memory.
use variables_and_streams_se.Base.{[], ◌∷◌, true, false, some, Option, ◌≡◌, refl, arith}
use variables_and_streams_se.Base.Text.{Text, codes}
use variables_and_streams_se.Base.Decimal.{pos, get_int64, atoi}
use variables_and_streams_se.Storage.{RamCacheDb, empty_db}
use variables_and_streams_se.Storage.Laws.{empty_db-IsSound}
use variables_and_streams_se.Storage.Interface.{ram_storage}
use variables_and_streams_se.VarHelper.{controlled_name, is_client_observing}
use variables_and_streams_se.VarHelper.Tests.{helper_runs}
use variables_and_streams_se.VarHelper.Observers.{count}
use variables_and_streams_se.VarHelper.Observers.Keys.{count_key}
use variables_and_streams_se.VarHelper.Observers.Spec.{remove_last}
use variables_and_streams_se.ClientHelper.Keys.{client_key, observing_count_key}
use variables_and_streams_se.ClientHelper.Listed.{remove_first}
use variables_and_streams_se.ClientHelper.Observing.{var_of}
use variables_and_streams_se.Controller.Clients.{World, at_least, observe_var, stop_observing_var}
use variables_and_streams_se.Controller.Telling.{
  Linked, observe_var_links, stop_observing_var_unlinks,
}

-- An API that knows all clients, and reaches none of them.
abbrev silent : World
silent = record {
  apis = λ id. some id;
  notify_client = λ api client payload. false;
  check_alive = λ api client. false;
  now = 1000;
  max_time_waiting_client = pos 60;
  allow_raw_db_access = false;
}

abbrev lamps : Text
lamps = codes "home.*"

abbrev seven : Text
seven = codes "7"

abbrev note : Text
note = codes "note"

abbrev vstp : Option Text
vstp = some (codes "vstp")

unlinked : Linked ram_storage silent lamps seven [] [] empty_db
unfolding helper_runs count get_int64 atoi count_key observing_count_key client_key
unlinked = (
  record { sound = empty_db-IsSound; counted = refl; reads = tt },
  record { sound = empty_db-IsSound; counted = refl; reads = tt },
)

waits : at_least silent.max_time_waiting_client (pos 1) ≡ true
unfolding at_least
waits = refl

not_yet : is_client_observing ram_storage (controlled_name false lamps) seven note empty_db ≡ false
unfolding helper_runs is_client_observing
not_yet = refl

abbrev observed : RamCacheDb
observed = (observe_var ram_storage silent lamps seven note vstp empty_db).0

linked :
    Linked ram_storage silent lamps seven ((seven, note) ∷ []) (codes "vars.home.*" ∷ []) observed
linked =
    observe_var_links ram_storage silent refl lamps seven note vstp [] [] empty_db waits
      (omega arith) (omega arith) (omega arith) not_yet unlinked

stop_observing_var_unlinks_example :
    Linked ram_storage silent lamps seven
      (remove_last seven note ((seven, note) ∷ []))
      (remove_first (var_of lamps) (codes "vars.home.*" ∷ []))
      (stop_observing_var ram_storage silent lamps seven note vstp observed)
stop_observing_var_unlinks_example =
    stop_observing_var_unlinks ram_storage silent refl lamps seven note vstp ((seven, note) ∷ [])
      (codes "vars.home.*" ∷ []) observed (omega arith) (omega arith) linked
