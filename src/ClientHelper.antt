-- ===== src/ClientHelper.antt =====
-- sources/controller/controller_clienthelper.go: what the database holds of a client, such as the
-- list of the variables that it observes. What runs inside the named lock "db.intenal.clients" is one
-- step. The time is an argument, and so is what the client's API answers.
pub mod Keys
pub mod Lists
pub mod Tests
pub mod Apart
pub mod Frames
pub mod Runs
pub mod Clients
pub mod Observing
pub mod Paths
pub mod Listed
use variables_and_streams_se.Base.{
  ℕ, zero, suc, List, [], ◌∷◌, ◌++◌, Bool, true, false, ◌&&◌, ◌||◌, if◌then◌else◌, ◌-◌, ◌+◌, ◌==◌,
  ltb, is_empty, Option, some, none, length, leb,
}
use variables_and_streams_se.Base.Text.{Text, codes, same, has_prefix, contains_text, drop_bytes}
use variables_and_streams_se.Base.Decimal.{
  ℤ, pos, negsuc, rounds, increment, decrement, itoa, itoa_nat, get_int64, minus,
}
use variables_and_streams_se.Storage.Path.{dot}
use variables_and_streams_se.Storage.Interface.{IStorage}
use Lists.{find_from, close_gap}
use Keys.{
  client_key, api_id_key, last_live_time_key, observing_count_key, observing_key, list_count_key,
  list_key, observing_node,
}

-- The answer of Notify.
pub data SendResult : Type 0 where
  live disconnected : SendResult

module _ (st : IStorage) (client : Text) where
  open st use {Db, set, get, get_childs, has_value, delete_value}

  -- UpdateLiveTime
  unfoldable pub update_live_time : ℕ → Db → Db
  update_live_time now db = set (last_live_time_key client) (itoa_nat now) db

  -- The part of initialize for a client that is not known yet.
  unfoldable pub enlist : Db → Db
  enlist db =
      let cnt = get_int64 (get list_count_key (codes "0") db) in
      let db₁ = set list_count_key (itoa (increment cnt)) db in
      let db₂ = set (list_key (itoa cnt)) client db₁ in set (client_key client) (itoa cnt) db₂

  unfoldable pub set_api : Option Text → Db → Db
  set_api none db = db
  set_api (some api_id) db = set (api_id_key client) api_id db

  -- initialize, with the id of the API, if there is one.
  unfoldable pub initialize : Option Text → ℕ → Db → Db
  initialize api now db =
      let known = if has_value (client_key client) db then db else enlist db in
      update_live_time now (set_api api known)

  -- NewControllerClientHelperWithApis: `apis` gives the own id of the API that is known as an id; none
  -- stands for ErrAPIIdNotFound.
  unfoldable pub find_api : (Text → Option Text) → Db → Option Text
  find_api apis db =
      let api_id = get (api_id_key client) [] db in if is_empty api_id then none else apis api_id

  unfoldable pub new_with_apis : (Text → Option Text) → ℕ → Db → Option (Db × Text)
  new_with_apis apis now db = elim (find_api apis db) [
    | none ↦ none
    | some api ↦ some (initialize (some api) now db, api)
  ]

  -- SetControlledClientId, behind the change of the id.
  unfoldable pub set_controlled_client_id : Option Text → Text → Db → Db
  set_controlled_client_id (some own) api_id db = set (api_id_key client) own db
  set_controlled_client_id none api_id db =
      if is_empty api_id then db else set (api_id_key client) api_id db

  unfoldable pub get_last_live_time : Db → ℤ
  get_last_live_time db = get_int64 (get (last_live_time_key client) (codes "0") db)

  unfoldable pub time_since_last_live_time : ℕ → Db → ℤ
  time_since_last_live_time now db = minus now (get_last_live_time db)

  -- IsConnected: `alive` is what CheckAlive of the API gives.
  unfoldable pub is_connected : Option Text → Bool → ℕ → Db → Db × Bool
  is_connected none alive now db = (db, false)
  is_connected (some api) alive now db =
      if alive then (update_live_time now db, true) else (db, false)

  unfoldable pub get_observing_vars_count : Db → ℤ
  get_observing_vars_count db = get_int64 (get (observing_count_key client) (codes "0") db)

  -- The value of a child of the node "observing", without its "vars.".
  unfoldable pub observing_var : Text → Db → Text
  observing_var c db =
      let curr = get (observing_key client c) [] db in
      if ltb 5 (length curr) && has_prefix (codes "vars.") curr then drop_bytes 5 curr else curr

  -- The loop of GetObservingVars.
  unfoldable pub collect_observing : List Text → Db → List Text
  collect_observing [] db = []
  collect_observing (c ∷ childs) db =
      let rest = collect_observing childs db in
      if contains_text (codes "count") c || contains_text (codes "size") c
      then rest
      else observing_var c db ∷ rest

  unfoldable pub get_observing_vars : Db → List Text
  get_observing_vars db = collect_observing (get_childs (observing_node client) db) db

  -- Notify: `sent` is what NotifyClient of the API gives.
  unfoldable pub notify : Option Text → Bool → ℕ → Db → Db × SendResult
  notify none sent now db = (db, disconnected)
  notify (some api) sent now db =
      if sent then (update_live_time now db, live) else (db, disconnected)

  unfoldable pub register_new_observation : Text → ℕ → Db → Db
  register_new_observation var_name now db =
      let db₁ = update_live_time now db in
      let curr = get_observing_vars_count db₁ in
      let db₂ = set (observing_count_key client) (itoa (increment curr)) db₁ in
      set (observing_key client (itoa curr)) (codes "vars." ++ var_name) db₂

  unfoldable pub find_var_index_on_observing_vars : Text → Db → Option ℕ
  find_var_index_on_observing_vars var_name db =
      find_from st (observing_key client) (rounds (get_observing_vars_count db)) 0 var_name db

  -- UnregisterObservation, for what the search gives.
  unfoldable pub forget_at : Option ℕ → Db → Db
  forget_at none db = db
  forget_at (some idx) db =
      close_gap st (observing_key client) (observing_count_key client) idx
        (get_observing_vars_count db) db

  unfoldable pub unregister_observation : Text → ℕ → Db → Db
  unregister_observation var_name now db =
      let db₁ = update_live_time now db in
      forget_at (find_var_index_on_observing_vars (codes "vars." ++ var_name) db₁) db₁

  unfoldable pub get_api_id : Db → Text
  get_api_id db = get (api_id_key client) [] db

  -- RemoveClientFromObservationSystem, for the index that the database has of the client.
  unfoldable pub delist_at : ℤ → Db → Db
  delist_at (negsuc n) db = db
  delist_at (pos client_index) db =
      let current_count = get_int64 (get list_count_key (codes "0") db) in
      close_gap st list_key list_count_key client_index current_count db

  unfoldable pub remove_client_from_observation_system : Db → Db
  remove_client_from_observation_system db =
      delete_value (client_key client) true
        (delist_at (get_int64 (get (client_key client) (codes "-1") db)) db)
