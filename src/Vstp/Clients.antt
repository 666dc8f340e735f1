-- ===== src/Vstp/Clients.antt =====
-- The clients of the protocol: two maps between ids and connections, and a buffer for each connection.
unfoldable pub use variables_and_streams_se.Base.Maps.{lookup, put, delete}
pub use variables_and_streams_se.Base.Maps.{number_eq}
use variables_and_streams_se.Base.{
  ℕ, List, [], ◌∷◌, Bool, ◌==◌, Option, none, some, if◌then◌else◌, is_empty, is_some, get_or,
}
use variables_and_streams_se.Base.Text.{Text, same}
use variables_and_streams_se.Vstp.{on_client_data}

-- The maps of a `VSTP`; a connection is a number. Each operation below runs under `clientsLock`.
pub record ClientMaps : Type 0 where
  pub clients_by_id : List (Text × ℕ)
  pub clients_by_tcp_cli : List (ℕ × Text)
  pub incoming_data_buffer : List (ℕ × Text)

-- The first id of a connection in a scan of `clientsById`. Go leaves the order of the scan open.
unfoldable pub scan_for : ℕ → List (Text × ℕ) → Option Text
scan_for cli [] = none
scan_for cli ((id, c) ∷ m) = if c == cli then some id else scan_for cli m

-- SetOnCLientConnect, with the new id.
unfoldable pub on_connect : ℕ → Text → ClientMaps → ClientMaps
on_connect cli uid v = record {
  clients_by_id = put same uid cli v.clients_by_id;
  clients_by_tcp_cli = put number_eq cli uid v.clients_by_tcp_cli;
  incoming_data_buffer = put number_eq cli [] v.incoming_data_buffer;
}

-- SetOnClientDisconnect
unfoldable pub on_disconnect : ℕ → ClientMaps → ClientMaps
on_disconnect cli v = elim (lookup number_eq cli v.clients_by_tcp_cli) [
  | some id ↦ record {
    clients_by_id = delete same id v.clients_by_id;
    clients_by_tcp_cli = delete number_eq cli v.clients_by_tcp_cli;
    incoming_data_buffer = delete number_eq cli v.incoming_data_buffer;
  }
  | none ↦ record {
    clients_by_id = elim (scan_for cli v.clients_by_id) [
      | some id ↦ delete same id v.clients_by_id
      | none ↦ v.clients_by_id
    ];
    clients_by_tcp_cli = v.clients_by_tcp_cli;
    incoming_data_buffer = delete number_eq cli v.incoming_data_buffer;
  }
]

-- SetOnClientData: the messages to process. For a connection with no buffer the callback locks
-- `clientsLock` a second time, which never returns: none.
unfoldable pub on_data : ℕ → Text → ClientMaps → Option (List Text × ClientMaps)
on_data cli bytes v = elim (lookup number_eq cli v.incoming_data_buffer) [
  | none ↦ none
  | some buf ↦
      let (messages, left) = on_client_data buf bytes in
      some (
        messages,
        record {
          clients_by_id = v.clients_by_id;
          clients_by_tcp_cli = v.clients_by_tcp_cli;
          incoming_data_buffer = put number_eq cli left v.incoming_data_buffer;
        },
      )
]

-- CHANGE_OR_CONFIRM_CLI_ID: the maps' part.
unfoldable pub change_id : ℕ → Text → ClientMaps → ClientMaps
change_id cli new_id v =
    let old_id = get_or (lookup number_eq cli v.clients_by_tcp_cli) [] in
    let without_old =
      if is_empty old_id then v.clients_by_id else delete same old_id v.clients_by_id in
    record {
      clients_by_id = put same new_id cli without_old;
      clients_by_tcp_cli = put number_eq cli new_id v.clients_by_tcp_cli;
      incoming_data_buffer = v.incoming_data_buffer;
    }

-- CheckAlive
unfoldable pub check_alive : Text → ClientMaps → Bool
check_alive client_id v = is_some (lookup same client_id v.clients_by_id)
