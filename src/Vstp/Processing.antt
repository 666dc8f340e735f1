-- ===== src/Vstp/Processing.antt =====
-- processReceivedMessage of sources/services/apis/vstp/vstp.go over the controller.
use variables_and_streams_se.Base.{
  ℕ, List, [], ◌∷◌, ◌++◌, Option, none, some, if◌then◌else◌, is_empty, get_or,
}
use variables_and_streams_se.Base.Text.{Text, codes, same, join}
use variables_and_streams_se.Base.Decimal.{itoa}
use variables_and_streams_se.Storage.Interface.{IStorage}
use variables_and_streams_se.VarHelper.{Nap}
use variables_and_streams_se.Controller
use variables_and_streams_se.Controller.{Limits, SetOutcome}
use variables_and_streams_se.Controller.Reading
use variables_and_streams_se.Controller.Reading.{
  GetVarsError, get_vars, del_var, get_childs_of_var, is_var_locked,
}
use variables_and_streams_se.Controller.Clients.{
  World, Payload, observe_var, stop_observing_var, client_connected,
}
use variables_and_streams_se.Vstp.{
  protocol_write, separate_key_and_value, separate_name_and_metadata, command_of,
}
use variables_and_streams_se.Vstp.Clients.{ClientMaps, lookup, number_eq, change_id, check_alive}
use variables_and_streams_se.Vstp.Commands.{
  Command, set_var, delete_var, get_var, subscribe_var, unsubscribe_var, lock_var, unlock_var, ping,
  change_or_confirm_cli_id, get_childs, check_var_lock_status, command_named, framed, to_cli,
  set_lines, get_lines, failure_text, result_line, lock_error, lock_timeout, notify_lines,
  assign_id,
}

abbrev pub api_id : Text
api_id = codes "VSTPAPI"

-- What goes on in goroutines behind an answer: the notifications of a change, and the values of all that
-- a client observes.
pub data Started : Type 0 where
  changed : Text → Text → Started
  updated : Text → Started

unfoldable pub all_changed : List (Text × Text) → List Started
all_changed [] = []
all_changed ((name, v) ∷ changes) = changed name v ∷ all_changed changes

-- The controller's surroundings as the protocol sees them: NotifyClient and CheckAlive of its own API
-- look for the client in the maps.
unfoldable pub vstp_world : World → Limits → ClientMaps → World
vstp_world w c v = record {
  apis = λ id. if same id api_id then some api_id else w.apis id;
  notify_client = λ api client payload.
      if same api api_id then check_alive client v else w.notify_client api client payload;
  check_alive =
      λ api client. if same api api_id then check_alive client v else w.check_alive api client;
  now = w.now;
  max_time_waiting_client = w.max_time_waiting_client;
  allow_raw_db_access = c.allow_raw_db_access;
}

-- The lines of ObserveVar's message, which stand between the first and the last line of the answer.
unfoldable pub sent_lines : Text → Option Payload → ClientMaps → List (ℕ × Text)
sent_lines client none v = []
sent_lines client (some payload) v = notify_lines client payload v

module _ (st : IStorage) where
  open st use {Db}

  -- What a message finds besides the maps and the database: the controller's settings, the other APIs, an
  -- id that is made of the clock, and what the rounds of a lock find. The fuel is that of GetVars.
  pub record Setting : Type 0 where
    pub limits : Limits
    pub world : World
    pub clock_id : Text
    pub naps : ℕ → Nap Db
    pub fuel : ℕ

  pub record Outcome : Type 0 where
    pub db : Db
    pub maps : ClientMaps
    pub written : List (ℕ × Text)
    pub started : List Started

  unfoldable pub answered : List (ℕ × Text) → ClientMaps → Db → Outcome
  answered written v db = record { db = db; maps = v; written = written; started = [] }

  module _ (s : Setting) (cli : ℕ) where
    unfoldable pub process_set : Text → ClientMaps → Db → Outcome
    process_set payload v db =
        let (name, val) = separate_key_and_value payload in
        let done = Controller.set_var st s.limits name val db in
        if is_empty name
        then answered
            (to_cli cli (
              framed set_var payload
                (protocol_write (codes "error") (codes "set error: invalid variable name") ∷ [])))
            v db
        else record {
          db = done.db;
          maps = v;
          written = to_cli cli (framed set_var payload (set_lines s.limits done.error));
          started = all_changed done.notified;
        }

    unfoldable pub process_delete : Text → ClientMaps → Db → Outcome
    process_delete payload v db =
        let (name, val) = separate_key_and_value payload in
        let ((db', notified), error) = del_var st s.limits.allow_raw_db_access s.fuel name db in
        record {
          db = db';
          maps = v;
          written = to_cli cli (
              framed delete_var payload
                (result_line (codes "deleteresult") name (failure_text error) ∷ []));
          started = all_changed notified;
        }

    unfoldable pub process_get : Text → ClientMaps → Db → Outcome
    process_get payload v db =
        let (name, val) = separate_key_and_value payload in
        let res = get_vars st s.limits.allow_raw_db_access s.fuel name [] db in
        answered (to_cli cli (framed get_var name (get_lines res))) v db

    unfoldable pub subscribe_as : Text → Text → ClientMaps → Db → Outcome
    subscribe_as cid payload v db =
        let (name, meta) = separate_name_and_metadata payload in
        let (db', message) =
          observe_var st (vstp_world s.world s.limits v) name cid meta (some api_id) db in
        let of = codes "subscribe:" ++ payload in
        answered
          ((cli, protocol_write (codes "beginresponse") of)
            ∷ (sent_lines cid message v ++ (cli, protocol_write (codes "endresponse") of) ∷ []))
          v db'

    unfoldable pub process_subscribe : Text → ClientMaps → Db → Outcome
    process_subscribe payload v db =
        let (cid, v') = assign_id cli s.clock_id (lookup number_eq cli v.clients_by_tcp_cli) v in
        subscribe_as cid payload v' db

    unfoldable pub unsubscribe_as : Text → Text → ClientMaps → Db → Outcome
    unsubscribe_as cid payload v db =
        let (name, meta) = separate_name_and_metadata payload in
        let db' =
          stop_observing_var st (vstp_world s.world s.limits v) name cid meta (some api_id) db in
        if is_empty cid
        then answered [] v db
        else answered (to_cli cli (framed unsubscribe_var payload [])) v db'

    -- The id of a connection that has none is the empty one.
    unfoldable pub process_unsubscribe : Text → ClientMaps → Db → Outcome
    process_unsubscribe payload v db =
        unsubscribe_as (get_or (lookup number_eq cli v.clients_by_tcp_cli) []) payload v db

    unfoldable pub process_lock : Text → ClientMaps → Db → Outcome
    process_lock payload v db =
        let (name, val) = separate_key_and_value payload in
        let (db', done) =
          Reading.lock_var st s.limits.allow_raw_db_access name (lock_timeout val) s.naps db in
        answered
          (to_cli cli (
            framed lock_var payload (result_line (codes "lockresult") name (lock_error done) ∷ [])))
          v db'

    unfoldable pub process_unlock : Text → ClientMaps → Db → Outcome
    process_unlock payload v db =
        let (name, val) = separate_key_and_value payload in
        answered
          (to_cli cli (framed unlock_var payload (protocol_write (codes "unlockdone") name ∷ []))) v
          (Reading.unlock_var st s.limits.allow_raw_db_access name db)

    unfoldable pub process_set_id : Text → ClientMaps → Db → Outcome
    process_set_id payload v db =
        let v' = change_id cli payload v in
        let (db', id, observing) =
          client_connected st (vstp_world s.world s.limits v') s.clock_id payload (some api_id)
            db in
        record {
          db = db';
          maps = v';
          written = to_cli cli (
              framed change_or_confirm_cli_id payload
                (protocol_write (codes "aoc") (itoa observing) ∷ []));
          started = updated id ∷ [];
        }

    unfoldable pub process_get_childs : Text → ClientMaps → Db → Outcome
    process_get_childs payload v db =
        let childs = get_childs_of_var st s.limits.allow_raw_db_access payload db in
        answered
          (to_cli cli
            (framed get_childs payload (protocol_write (codes "childs") (join b',' childs) ∷ [])))
          v db

    unfoldable pub process_lock_status : Text → ClientMaps → Db → Outcome
    process_lock_status payload v db =
        let status =
          if is_var_locked st s.limits.allow_raw_db_access payload db
          then codes "locked"
          else codes "unlocked" in
        answered
          (to_cli cli (protocol_write (codes "lockstatusresult") (payload ++ b'=' ∷ status) ∷ [])) v
          db

    -- The cases of the switch.
    unfoldable pub process_command : Option Command → Text → ClientMaps → Db → Outcome
    process_command none payload v db = answered [] v db
    process_command (some set_var) payload v db = process_set payload v db
    process_command (some delete_var) payload v db = process_delete payload v db
    process_command (some get_var) payload v db = process_get payload v db
    process_command (some subscribe_var) payload v db = process_subscribe payload v db
    process_command (some unsubscribe_var) payload v db = process_unsubscribe payload v db
    process_command (some lock_var) payload v db = process_lock payload v db
    process_command (some unlock_var) payload v db = process_unlock payload v db
    process_command (some ping) payload v db =
        answered (to_cli cli (framed ping payload (protocol_write (codes "pong") [] ∷ []))) v db
    process_command (some change_or_confirm_cli_id) payload v db = process_set_id payload v db
    process_command (some get_childs) payload v db = process_get_childs payload v db
    process_command (some check_var_lock_status) payload v db = process_lock_status payload v db

    unfoldable pub process_received_message : Text → ClientMaps → Db → Outcome
    process_received_message message v db =
        let (cmd, payload) = command_of message in process_command (command_named cmd) payload v db
