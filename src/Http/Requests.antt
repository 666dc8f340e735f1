-- ===== src/Http/Requests.antt =====
-- handlePath of sources/services/apis/httpapi/httpapi.go with its handlers, and the websockets.
use variables_and_streams_se.Base.{
  ℕ, List, [], ◌∷◌, Bool, true, false, ◌&&◌, ◌||◌, ◌==◌, Option, none, some, if◌then◌else◌,
  is_empty, is_some,
}
use variables_and_streams_se.Base.Text.{Text, codes, same, has_prefix, contains_text}
use variables_and_streams_se.Base.Maps.{lookup, put, delete, number_eq}
use variables_and_streams_se.Storage.Interface.{IStorage}
use variables_and_streams_se.Controller.{Limits, set_var}
use variables_and_streams_se.Controller.Reading.{get_vars, del_var}
use variables_and_streams_se.Controller.Clients.{
  World, observe_var, stop_observing_var, client_connected,
}
use variables_and_streams_se.Confs.Sources.{to_lower, replace_all}
use variables_and_streams_se.Vstp.{trim_space, separate_name_and_metadata}
use variables_and_streams_se.Vstp.Commands.{set_error_text, get_error_text}
use variables_and_streams_se.Http.Tree.{Fields}
use variables_and_streams_se.Http.{
  Encoding, Response, Stop, refused, panicked, http_error, no_content, get_response, set_json,
}

pub data Method : Type 0 where
  get post delete_method other_method : Method

-- A request, its headers and parameters as they are sent. `decoded` is what the JSON decoder gives of the
-- body: none stands for an error.
pub record Request : Type 0 where
  pub method : Method
  pub path : Text
  pub connection : Text
  pub upgrade : Text
  pub content_type : Text
  pub exporter : Text
  pub pretty : Text
  pub full_names : Text
  pub body : Text
  pub decoded : Option Fields

-- strings.TrimPrefix(path, "/")
unfoldable pub trim_slash : Text → Text
trim_slash [] = []
trim_slash (c ∷ path) = if c == b'/' then path else c ∷ path

unfoldable pub var_name_of : Text → Text
var_name_of path = replace_all (trim_slash path) (codes "/") (codes ".")

unfoldable pub is_upgrade : Request → Bool
is_upgrade r =
    same (to_lower r.connection) (codes "upgrade") && same (to_lower r.upgrade) (codes "websocket")

unfoldable pub exporter_of : Text → Text
exporter_of exporter = if is_empty exporter then codes "json" else to_lower exporter

abbrev pub api_id : Text
api_id = codes "HTTPAPI"

-- The connections, which are numbers.
pub record Sockets : Type 0 where
  pub clients : List (Text × ℕ)
  pub conn_to_id : List (ℕ × Text)

unfoldable pub open_socket : Text → ℕ → Sockets → Sockets
open_socket cid conn h = record {
  clients = put same cid conn h.clients;
  conn_to_id = put number_eq conn cid h.conn_to_id;
}

unfoldable pub close_socket : Text → ℕ → Sockets → Sockets
close_socket cid conn h = record {
  clients = delete same cid h.clients;
  conn_to_id = delete number_eq conn h.conn_to_id;
}

unfoldable pub socket_alive : Text → Sockets → Bool
socket_alive client_id h = is_some (lookup same client_id h.clients)

-- NotifyClient, for what the write gives: a connection whose write fails is forgotten.
unfoldable pub drop_dead : ℕ → Option Text → Sockets → Sockets
drop_dead conn none h = h
drop_dead conn (some cid) h = close_socket cid conn h

unfoldable pub notify_socket : Text → Bool → Sockets → Sockets × Bool
notify_socket client_id written h = elim (lookup same client_id h.clients) [
  | none ↦ (h, false)
  | some conn ↦
      if written then (h, true) else (drop_dead conn (lookup number_eq conn h.conn_to_id) h, false)
]

-- One of ":=".
unfoldable pub split_command : Text → Text × Text
split_command [] = ([], [])
split_command (c ∷ s) =
    let (key, val) = split_command s in
    if (c == b':') || (c == b'=') then ([], s) else (c ∷ key, val)

module _ (enc : Encoding) (st : IStorage) (c : Limits) where
  open st use {Db}

  -- The response is none if the handler panics: net/http recovers, and closes the connection.
  pub record Reply : Type 0 where
    pub response : Option Response
    pub db : Db
    pub started : List (Text × Text)

  unfoldable pub reply : Response → Db → Reply
  reply response db = record { response = some response; db = db; started = [] }

  unfoldable pub handle_get_by_name : ℕ → Request → Text → Db → Reply
  handle_get_by_name fuel r name db =
      reply
        (get_response enc (exporter_of r.exporter) (same (to_lower r.pretty) (codes "true"))
          (same (to_lower r.full_names) (codes "true")) name
          (get_vars st c.allow_raw_db_access fuel name [] db))
        db

  -- The error of setJson is dropped; a panic is not.
  unfoldable pub json_response : Option Stop → Option Response
  json_response none = some no_content
  json_response (some (refused e)) = some no_content
  json_response (some panicked) = none

  unfoldable pub post_json : Option Fields → Db → Reply
  post_json none db = reply (http_error 400 (codes "invalid json")) db
  post_json (some obj) db =
      let ((db', started), error) = set_json enc st c obj db in
      record { response = json_response error; db = db'; started = started }

  unfoldable pub post_value : Text → Text → Db → Reply
  post_value name val db =
      let done = set_var st c name val db in
      record {
        response =
            some (elim done.error [
              | none ↦ no_content
              | some e ↦ http_error 403 (set_error_text c e)
            ]);
        db = done.db;
        started = done.notified;
      }

  unfoldable pub handle_post_by_name : Request → Text → Db → Reply
  handle_post_by_name r name db =
      if contains_text (codes "application/json") r.content_type
      then post_json r.decoded db
      else post_value name r.body db

  unfoldable pub handle_delete_by_name : ℕ → Text → Db → Reply
  handle_delete_by_name fuel name db =
      let ((db', started), error) = del_var st c.allow_raw_db_access fuel name db in
      record {
        response =
            some (elim error [ none ↦ no_content | some e ↦ http_error 500 (get_error_text e) ]);
        db = db';
        started = started;
      }

  unfoldable pub handle_method : ℕ → Method → Request → Text → Db → Reply
  handle_method fuel get r name db = handle_get_by_name fuel r name db
  handle_method fuel post r name db = handle_post_by_name r name db
  handle_method fuel delete_method r name db = handle_delete_by_name fuel name db
  handle_method fuel other_method r name db = reply (record { status = 405; body = [] }) db

  -- handlePath; none stands for a request that goes on as a websocket for the variable.
  unfoldable pub handle_path : ℕ → Request → Db → Option Reply
  handle_path fuel r db =
      let name = var_name_of r.path in
      if is_empty name
      then some (reply (http_error 404 (codes "variable path required")) db)
      else if is_upgrade r
      then none
      else some (handle_method fuel r.method r name db)

  -- handleWSForVar, up to its loop, for the id that is made of the clock.
  unfoldable pub start_socket : World → Text → ℕ → Text → Sockets → Db → Sockets × Db
  start_socket w cid conn name h db =
      let connected = (client_connected st w [] cid (some api_id) db).0 in
      (open_socket cid conn h, (observe_var st w name cid [] (some api_id) connected).0)

  -- One text message of the loop.
  unfoldable pub socket_message : World → Text → Text → Db → Db
  socket_message w cid msg db =
      let s = trim_space msg in
      let (name, meta) = separate_name_and_metadata (split_command s).1 in
      if has_prefix (codes "subscribe:") s
      then (observe_var st w name cid meta (some api_id) db).0
      else if has_prefix (codes "unsubscribe:") s
      then stop_observing_var st w name cid meta (some api_id) db
      else db
