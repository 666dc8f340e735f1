-- ===== src/Vstp/CommandTests.antt =====
-- Runs of the commands of the text protocol over the tree in memory.
use variables_and_streams_se.Base.{ℕ, [], ◌∷◌, ◌++◌, true, false, some, none, ◌≡◌, refl, All}
use variables_and_streams_se.Base.Text.{Text, codes, has_byte, is_space}
use variables_and_streams_se.Base.Decimal.{pos}
use variables_and_streams_se.Storage.{RamCacheDb, empty_db}
use variables_and_streams_se.Storage.Interface.{ram_storage}
use variables_and_streams_se.VarHelper.{Nap, star, controlled_name, is_locked, try_lock}
use variables_and_streams_se.Controller
use variables_and_streams_se.Controller.Tests.{controller_runs, c}
use variables_and_streams_se.Controller.Names.{get_only, valid_chars}
use variables_and_streams_se.Controller.Clients.{World}
use variables_and_streams_se.Vstp.{
  protocol_write, separate_key_and_value, is_separator, trim_right_space,
}
use variables_and_streams_se.Vstp.Parsing.{IsWord}
use variables_and_streams_se.Vstp.Clients.{ClientMaps, on_connect, change_id}
use variables_and_streams_se.Vstp.Sessions.{no_clients, id_of}
use variables_and_streams_se.Vstp.Owning.{start, connect, take_id, Reachable}
use variables_and_streams_se.Vstp.Tests.{protocol_runs}
use variables_and_streams_se.Vstp.Commands
use variables_and_streams_se.Vstp.Commands.{Command, command_word, framed, to_cli, result_line}
use variables_and_streams_se.Vstp.Processing.{
  Setting, Outcome, process_lock, process_received_message,
}
use variables_and_streams_se.Vstp.Answers.{Own, process_received_message-Own}
use variables_and_streams_se.Vstp.Exchange.{message_of, get_after_set}
use variables_and_streams_se.Vstp.Waiting.{process_lock_gives_up}

abbrev alone : World
alone = record {
  apis = λ id. none;
  notify_client = λ api client payload. false;
  check_alive = λ api client. false;
  now = 1000;
  max_time_waiting_client = pos 60;
  allow_raw_db_access = false;
}

-- Others do nothing while a lock waits.
abbrev no_change : ℕ → Nap RamCacheDb
no_change i = record { try_ns = 0; beyond_ns = 0; others = λ db. db }

abbrev setting : Setting ram_storage
setting = record { limits = c; world = alone; clock_id = codes "99"; naps = no_change; fuel = 5 }

abbrev lamp : Text
lamp = codes "home.lamp"

abbrev on : Text
on = codes "on"

abbrev maps : ClientMaps
maps = on_connect 3 (codes "7") no_clients

lamp-IsWord : IsWord lamp
unfolding is_separator is_space
lamp-IsWord = (
  (refl, refl),
  (
    (refl, refl),
    (
      (refl, refl),
      (
        (refl, refl),
        ((refl, refl), ((refl, refl), ((refl, refl), ((refl, refl), ((refl, refl), tt))))),
      ),
    ),
  ),
)

lamp_valid : get_only lamp valid_chars ≡ lamp
unfolding controller_runs
lamp_valid = refl

lamp_plain : has_byte star lamp ≡ false
unfolding controller_runs
lamp_plain = refl

on_trimmed : trim_right_space on ≡ on
unfolding protocol_runs
on_trimmed = refl

lamp_ok : (Controller.set_var ram_storage c lamp on empty_db).error ≡ none
unfolding controller_runs
lamp_ok = refl

abbrev after_set : Outcome ram_storage
after_set =
    process_received_message ram_storage setting 3 (message_of Commands.set_var (lamp ++ b'=' ∷ on))
      maps empty_db

get_after_set_example :
    (after_set.written ≡ to_cli 3 (framed Commands.set_var (lamp ++ b'=' ∷ on) []))
    × ((process_received_message ram_storage setting 4
          (message_of Commands.get_var lamp)
          after_set.maps
          after_set.db).written
        ≡ to_cli 4 (
            framed Commands.get_var lamp
              (protocol_write (codes "varvalue") (lamp ++ b'=' ∷ on) ∷ [])))
get_after_set_example =
    get_after_set ram_storage setting 3 4 lamp on 4 maps empty_db refl lamp-IsWord lamp_valid
      lamp_plain refl on_trimmed lamp_ok

no_id_yet : (cli : ℕ) → id_of cli no_clients ≡ none
unfolding protocol_runs
no_id_yet cli = refl

-- The fourth connection has taken the id of the third.
abbrev taken : ClientMaps
taken = change_id 4 (codes "7") maps

taken-Reachable : Reachable taken
taken-Reachable = take_id 4 (codes "7") maps (connect 3 (codes "7") no_clients start (no_id_yet 3))

process_received_message-Own_example :
    All
      (Own 3
        (process_received_message ram_storage setting 3
          (codes "subscribe:home.*(note)")
          taken
          empty_db).maps)
      (process_received_message ram_storage setting 3
        (codes "subscribe:home.*(note)")
        taken
        empty_db).written
process_received_message-Own_example =
    process_received_message-Own ram_storage setting 3 taken (codes "subscribe:home.*(note)")
      empty_db taken-Reachable

abbrev locked_db : RamCacheDb
locked_db = (try_lock ram_storage (codes "vars.home.lamp") empty_db).0

lamp_locked : is_locked ram_storage (controlled_name c.allow_raw_db_access lamp) locked_db ≡ true
unfolding controller_runs
lamp_locked = refl

lamp_alone : separate_key_and_value lamp ≡ (lamp, [])
unfolding protocol_runs
lamp_alone = refl

process_lock_gives_up_example :
    ((process_lock ram_storage setting 3 lamp maps locked_db).db ≡ locked_db)
    × ((process_lock ram_storage setting 3 lamp maps locked_db).written
        ≡ to_cli 3 (
            framed Commands.lock_var lamp
              (result_line (codes "lockresult") lamp (some (codes "timeout reached")) ∷ [])))
process_lock_gives_up_example =
    process_lock_gives_up ram_storage setting 3 lamp lamp maps locked_db lamp_alone lamp_locked
