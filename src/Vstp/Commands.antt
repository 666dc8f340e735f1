-- ===== src/Vstp/Commands.antt =====
-- The commands of sources/services/apis/vstp/vstp.go and the lines that answer them.
use variables_and_streams_se.Base.{
  ℕ, List, [], ◌∷◌, ◌++◌, Bool, true, false, Option, none, some, if◌then◌else◌, is_empty, ◌-◌, ◌^◌,
}
use variables_and_streams_se.Base.Text.{Text, codes, same}
use variables_and_streams_se.Base.Decimal.{ℤ, pos, negsuc, itoa, atoi}
use variables_and_streams_se.Controller.{
  Limits, SetError, empty_name, internal_name, name_too_long, value_too_long, word_too_long, locked,
}
use variables_and_streams_se.Controller.Reading.{GetVarsError, misplaced_wildcard, nothing_found}
use variables_and_streams_se.Controller.Clients.{Payload}
use variables_and_streams_se.Vstp.{protocol_write, var_changed}
use variables_and_streams_se.Vstp.Clients.{ClientMaps, lookup, put, number_eq}

-- The commands that processReceivedMessage knows.
pub data Command : Type 0 where
  set_var delete_var get_var subscribe_var unsubscribe_var lock_var unlock_var ping : Command
  change_or_confirm_cli_id get_childs check_var_lock_status : Command

unfoldable pub command_word : Command → Text
command_word set_var = codes "set"
command_word delete_var = codes "delete"
command_word get_var = codes "get"
command_word subscribe_var = codes "subscribe"
command_word unsubscribe_var = codes "unsubscribe"
command_word lock_var = codes "lock"
command_word unlock_var = codes "unlock"
command_word ping = codes "ping"
command_word change_or_confirm_cli_id = codes "setid"
command_word get_childs = codes "getchilds"
command_word check_var_lock_status = codes "lockstatus"

-- The cases of the switch, in their order.
abbrev pub all_commands : List Command
all_commands =
    set_var ∷ delete_var ∷ get_var ∷ subscribe_var ∷ unsubscribe_var ∷ lock_var ∷ unlock_var ∷ ping
    ∷ change_or_confirm_cli_id ∷ get_childs ∷ check_var_lock_status ∷ []

unfoldable pub first_named : List Command → Text → Option Command
first_named [] cmd = none
first_named (c ∷ cs) cmd =
    let more = first_named cs cmd in if same cmd (command_word c) then some c else more

unfoldable pub command_named : Text → Option Command
command_named cmd = first_named all_commands cmd

-- The texts of SetVar's errors.
unfoldable pub set_error_text : Limits → SetError → Text
set_error_text c empty_name = codes "variable name cannot be empty"
set_error_text c internal_name = codes "variables started with underscore are for internal use only"
set_error_text c name_too_long =
    codes "variable name exceeds maximum length of " ++ itoa c.max_key_length
set_error_text c value_too_long =
    codes "variable value exceeds maximum size of " ++ itoa c.max_value_size
set_error_text c word_too_long =
    codes "a part of the variable name exceeds maximum length of " ++ itoa c.max_key_word_length
set_error_text c locked = codes "variable is locked"

-- The texts of the errors of GetVars and DelVar.
unfoldable pub get_error_text : GetVarsError → Text
get_error_text GetVarsError.empty_name = codes "variable name cannot be empty"
get_error_text misplaced_wildcard = codes "wildcard can only be used at the end of the var name"
get_error_text nothing_found = codes "error deleting variable: maybe it doesn't exist"

unfoldable pub failure_text : Option GetVarsError → Option Text
failure_text none = none
failure_text (some e) = some (get_error_text e)

abbrev pub begin_word : Text
begin_word = codes "beginresponse"

abbrev pub end_word : Text
end_word = codes "endresponse"

-- An answer, between the lines that repeat the command and what it was for.
unfoldable pub framed : Command → Text → List Text → List Text
framed cmd echo lines =
    let of = command_word cmd ++ b':' ∷ echo in
    protocol_write begin_word of ∷ (lines ++ protocol_write end_word of ∷ [])

unfoldable pub to_cli : ℕ → List Text → List (ℕ × Text)
to_cli cli [] = []
to_cli cli (line ∷ lines) = (cli, line) ∷ to_cli cli lines

unfoldable pub set_lines : Limits → Option SetError → List Text
set_lines c none = []
set_lines c (some e) =
    protocol_write (codes "error") (codes "set error: " ++ set_error_text c e) ∷ []

unfoldable pub value_lines : List (Text × Text) → List Text
value_lines [] = []
value_lines ((name, v) ∷ values) =
    protocol_write (codes "varvalue") (name ++ b'=' ∷ v) ∷ value_lines values

unfoldable pub get_lines : (List (Text × Text)) × Option GetVarsError → List Text
get_lines (values, none) = value_lines values
get_lines (values, some e) =
    protocol_write (codes "error") (codes "get error: " ++ get_error_text e) ∷ []

-- The results of a deletion and of a lock.
unfoldable pub result_line : Text → Text → Option Text → Text
result_line cmd name none = protocol_write cmd (name ++ codes "=success")
result_line cmd name (some e) = protocol_write cmd (name ++ codes "=failure:" ++ e)

unfoldable pub lock_error : Bool → Option Text
lock_error true = none
lock_error false = some (codes "timeout reached")

-- The headers that a new connection gets.
unfoldable pub welcome : Text → Text → List Text
welcome version uid =
    protocol_write (codes "beginserverheaders") []
    ∷ protocol_write (codes "serverinfo") (codes "PROTOCOL VERSION=1.2.0")
    ∷ protocol_write (codes "serverinfo") (codes "VSS VERSION=" ++ version)
    ∷ protocol_write (codes "sugestednewid") uid
    ∷ protocol_write (codes "endserverheaders") []
    ∷ []

-- The timeout of a lock command in milliseconds, an unsigned number of 64 bits.
unfoldable pub as_uint : Option ℤ → ℕ
as_uint none = 2 ^ 64 - 1
as_uint (some (pos n)) = n
as_uint (some (negsuc n)) = 2 ^ 64 - 1 - n

unfoldable pub lock_timeout : Text → ℕ
lock_timeout val = if is_empty val then 2 ^ 64 - 1 else as_uint (atoi val)

-- NotifyClient: the lines that it writes, and whether it finds the client. A write to a connection
-- succeeds.
unfoldable pub changed_lines : Payload → List Text
changed_lines [] = []
changed_lines ((name, meta, v) ∷ payload) = var_changed name meta v ∷ changed_lines payload

unfoldable pub lines_to : Option ℕ → Payload → List (ℕ × Text)
lines_to none payload = []
lines_to (some cli) payload = to_cli cli (changed_lines payload)

unfoldable pub notify_lines : Text → Payload → ClientMaps → List (ℕ × Text)
notify_lines client_id payload v = lines_to (lookup same client_id v.clients_by_id) payload

-- The id of a connection in SUBSCRIBE_VAR, for what the map has of it: one of the clock stands in for
-- none, and for the empty one.
unfoldable pub with_id : ℕ → Text → ClientMaps → Text × ClientMaps
with_id cli clock_id v = (
  clock_id,
  record {
    clients_by_id = put same clock_id cli v.clients_by_id;
    clients_by_tcp_cli = put number_eq cli clock_id v.clients_by_tcp_cli;
    incoming_data_buffer = v.incoming_data_buffer;
  },
)

unfoldable pub assign_id : ℕ → Text → Option Text → ClientMaps → Text × ClientMaps
assign_id cli clock_id none v = with_id cli clock_id v
assign_id cli clock_id (some id) v = if is_empty id then with_id cli clock_id v else (id, v)
