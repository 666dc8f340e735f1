-- ===== src/Vstp/Tests.antt =====
-- Runs of the protocol's framing, parsing and client maps.
use variables_and_streams_se.Base.{
  ℕ, List, [], ◌∷◌, ◌++◌, false, some, none, ◌≡◌, ◌≢◌, ◌⊎◌, refl, arith, map,
}
use variables_and_streams_se.Base.Text.{Text, codes, same, is_space, Lacks, has_byte, before, after}
use variables_and_streams_se.Vstp.{
  newline, onto_line, take_lines, trim_right, on_client_data, trim_space, trim_left_space,
  trim_right_space, is_separator, separate_key_and_value, separate_name_and_metadata, trim_suffix,
  protocol_write, var_changed, command_of,
}
use variables_and_streams_se.Vstp.Framing.{feed, concat, feed-on_client_data}
use variables_and_streams_se.Vstp.Parsing.{
  IsWord, IsTrimmed, name_with, command_of-protocol_write, separate-name_with,
}
use variables_and_streams_se.Vstp.Clients.{
  lookup, put, delete, ClientMaps, on_connect, on_disconnect, change_id, check_alive,
}
use variables_and_streams_se.Vstp.Sessions.{cli_of, id_of, no_clients, taken_over}
use variables_and_streams_se.Vstp.Owning.{start, connect, take_id, Reachable, Reachable-id_of}

-- Opens all that a run of the protocol computes with.
unfoldable pub protocol_runs : Unit {0}
unfolding onto_line take_lines trim_right on_client_data trim_space trim_left_space trim_right_space
    is_separator separate_key_and_value separate_name_and_metadata trim_suffix protocol_write
    var_changed command_of is_space feed lookup put delete on_connect on_disconnect change_id
    check_alive same has_byte before after
protocol_runs = tt

-- Two messages in three chunks, one of them with a carriage return.
abbrev chunks : List Text
chunks =
    codes "set:a"
    ∷ (codes "=1" ++ 13 ∷ newline ∷ codes "pi")
    ∷ (codes "ng" ++ newline ∷ codes "ge")
    ∷ []

chunks_read : feed chunks [] ≡ (codes "set:a=1" ∷ codes "ping" ∷ [], codes "ge")
unfolding protocol_runs
chunks_read = refl

feed-on_client_data_example : feed chunks [] ≡ on_client_data [] (concat chunks)
feed-on_client_data_example = feed-on_client_data chunks [] tt

notified_line :
    var_changed (codes "home.lamp") (codes "x") (codes "on")
    ≡ codes "varchanged:home.lamp(x)=on" ++ newline ∷ []
unfolding protocol_runs
notified_line = refl

set-IsWord : IsWord (codes "set")
unfolding protocol_runs
set-IsWord = ((refl, refl), ((refl, refl), ((refl, refl), tt)))

payload-IsTrimmed : IsTrimmed (codes "a b=1")
unfolding protocol_runs
payload-IsTrimmed = (refl, refl)

payload_one_line : Lacks newline (codes "a b=1")
payload_one_line = omega arith

message_read_back :
    (map command_of (on_client_data [] (protocol_write (codes "set") (codes "a b=1"))).0
      ≡ (codes "set", codes "a b=1") ∷ [])
    × ((on_client_data [] (protocol_write (codes "set") (codes "a b=1"))).1 ≡ [])
message_read_back =
    command_of-protocol_write (codes "set") (codes "a b=1") set-IsWord payload_one_line
      payload-IsTrimmed

lamp_plain : Lacks b'(' (codes "lamp")
lamp_plain = omega arith

metadata_read_back :
    separate_name_and_metadata (name_with (codes "lamp") (codes "(x)"))
    ≡ (codes "lamp", codes "(x)")
metadata_read_back = separate-name_with (codes "lamp") (codes "(x)") lamp_plain

abbrev first : ℕ
first = 1

abbrev second : ℕ
second = 2

abbrev one_client : ClientMaps
one_client = on_connect 1 (codes "a") no_clients

no_id_yet : (cli : ℕ) → id_of cli no_clients ≡ none
unfolding protocol_runs
no_id_yet cli = refl

one_known : id_of 1 one_client ≡ some (codes "a")
unfolding protocol_runs
one_known = refl

-- The second connection comes with an id of its own and takes that of the first.
abbrev resumed : ClientMaps
resumed = change_id 2 (codes "a") (on_connect 2 (codes "b") one_client)

second_new : id_of 2 one_client ≡ none
unfolding protocol_runs
second_new = refl

resumed-Reachable : Reachable resumed
resumed-Reachable = take_id 2 (codes "a") (on_connect 2 (codes "b") one_client) (
    connect 2 (codes "b") one_client (connect 1 (codes "a") no_clients start (no_id_yet 1))
      second_new)

resumed_found : cli_of (codes "a") resumed ≡ some 2
unfolding protocol_runs
resumed_found = refl

Reachable-id_of_example :
    (id_of 2 resumed ≡ some (codes "a"))
    × ((cli_of (codes "b") resumed ≢ some 2) ⊎ (codes "b" ≡ codes "a"))
Reachable-id_of_example =
    Reachable-id_of resumed 2 (codes "a") (codes "b") resumed-Reachable refl refl resumed_found

other_connection : first ≢ second
other_connection = omega arith

taken_over_example :
    (id_of second (on_disconnect first (change_id second (codes "a") one_client))
      ≡ some (codes "a"))
    × (check_alive (codes "a") (on_disconnect first (change_id second (codes "a") one_client))
        ≡ false)
taken_over_example = taken_over first second (codes "a") one_client other_connection one_known
