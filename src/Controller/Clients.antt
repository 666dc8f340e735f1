-- ===== src/Controller/Clients.antt =====
-- sources/controller/controller.go: the operations on clients. What runs in one goroutine is one step.
-- The APIs answer by `World`, and the clock stands still within an operation.
use variables_and_streams_se.Base.{
  ℕ, List, [], ◌∷◌, ◌++◌, Bool, true, false, Option, none, some, if◌then◌else◌, is_empty, leb,
}
use variables_and_streams_se.Base.Text.{Text}
use variables_and_streams_se.Base.Decimal.{ℤ, pos, negsuc}
use variables_and_streams_se.Storage.Interface.{IStorage}
use variables_and_streams_se.VarHelper.{controlled_name, is_client_observing}
use variables_and_streams_se.VarHelper.Observers.{
  register_observation, internal_remove_observing, remove_all_client_observations,
  get_metadatas_of_a_client,
}
use variables_and_streams_se.ClientHelper.{
  SendResult, live, disconnected, initialize, new_with_apis, notify, is_connected,
  time_since_last_live_time, get_observing_vars, get_observing_vars_count, register_new_observation,
  unregister_observation, remove_client_from_observation_system,
}
use variables_and_streams_se.Controller.Reading.{get_var_internal}
use variables_and_streams_se.Controller.Notifying.{Notification}

-- Names with metadata and value, as NotifyClient gets them.
abbrev pub Payload : Type 0
Payload = List (Text × Text × Text)

-- What the operations find around them: the registered APIs with their own ids, what NotifyClient and
-- CheckAlive of an API give, the time in seconds, and the controller's settings.
pub record World : Type 0 where
  pub apis : Text → Option Text
  pub notify_client : Text → Text → Payload → Bool
  pub check_alive : Text → Text → Bool
  pub now : ℕ
  pub max_time_waiting_client : ℤ
  pub allow_raw_db_access : Bool

-- `m >= n` on the machine's integers
unfoldable pub at_least : ℤ → ℤ → Bool
at_least (pos m) (pos n) = leb n m
at_least (pos m) (negsuc n) = true
at_least (negsuc m) (pos n) = false
at_least (negsuc m) (negsuc n) = leb m n

unfoldable pub with_metadata : Text → List (Text × Text) → Payload
with_metadata meta [] = []
with_metadata meta ((name, v) ∷ vals) = (name, meta, v) ∷ with_metadata meta vals

unfoldable pub for_each_metadata : Text → Text → List Text → Payload
for_each_metadata name v [] = []
for_each_metadata name v (m ∷ ms) = (name, m, v) ∷ for_each_metadata name v ms

-- What the list of metadata of a client makes of a variable's value.
unfoldable pub entries_for : Text → Text → List Text → Payload
entries_for name v [] = (name, [], v) ∷ []
entries_for name v (m ∷ ms) = for_each_metadata name v (m ∷ ms)

-- Whether the helper's API, if it has one, says yes.
unfoldable pub answer : Option Text → (Text → Bool) → Bool
answer none ask = false
answer (some api) ask = ask api

-- NewController: the time that a client is waited for.
unfoldable pub max_time_waiting : ℤ → ℤ
max_time_waiting conf = if at_least conf (pos 1) then conf else pos 43200

module _ (st : IStorage) (w : World) where
  open st use {Db}

  abbrev vname : Text → Text
  vname name = controlled_name w.allow_raw_db_access name

  -- The loop of deleteClient.
  unfoldable pub forget_client : Text → List Text → Db → Db
  forget_client client [] db = db
  forget_client client (v ∷ vars) db =
      forget_client client vars (remove_all_client_observations st (vname v) client db)

  unfoldable pub delete_client : Text → Db → Db
  delete_client client db =
      let vars = get_observing_vars st client db in
      forget_client client vars (remove_client_from_observation_system st client db)

  -- checkClientLiveTime, for what IsConnected gives and leaves.
  unfoldable pub after_check : Text → Db × Bool → Db
  after_check client (db, true) = db
  after_check client (db, false) =
      if at_least (time_since_last_live_time st client w.now db) w.max_time_waiting_client
      then delete_client client db
      else db

  unfoldable pub check_client_live_time : Option Text → Text → Db → Db
  check_client_live_time api client db =
      let alive = answer api (λ a. w.check_alive a client) in
      after_check client (is_connected st client api alive w.now db)

  -- Notify, and the check of the client if that fails.
  unfoldable pub after_notify : Option Text → Text → Db × SendResult → Db
  after_notify api client (db, live) = db
  after_notify api client (db, disconnected) = check_client_live_time api client db

  unfoldable pub tell : Option Text → Text → Payload → Db → Db
  tell api client payload db =
      let sent = answer api (λ a. w.notify_client a client payload) in
      after_notify api client (notify st client api sent w.now db)

  -- ObserveVar of a client that does not observe the variable with this metadata yet, up to the message.
  unfoldable pub register_both : Text → Text → Text → Option Text → Db → Db
  register_both name client meta api db =
      let db₁ = initialize st client api w.now db in
      let db₂ = (register_observation st (vname name) client meta db₁).0 in
      register_new_observation st client name w.now db₂

  -- ObserveVar, with the message that it sends.
  unfoldable pub observe_var : Text → Text → Text → Option Text → Db → Db × Option Payload
  observe_var name client meta api db =
      let db₁ = register_both name client meta api db in
      let payload = with_metadata meta (get_var_internal st w.allow_raw_db_access name db₁) in
      if is_client_observing st (vname name) client meta db
      then (db, none)
      else (tell api client payload db₁, some payload)

  unfoldable pub stop_observing_var : Text → Text → Text → Option Text → Db → Db
  stop_observing_var name client meta api db =
      let db₁ = internal_remove_observing st (vname name) client meta db in
      let db₂ = initialize st client api w.now db₁ in
      unregister_observation st client name w.now db₂

  -- ClientConnected, for the id that is made of the clock. What it starts is `update_client`.
  unfoldable pub client_connected : Text → Text → Option Text → Db → Db × Text × ℤ
  client_connected clock_id client_id api db =
      let client = if is_empty client_id then clock_id else client_id in
      let db₁ = initialize st client api w.now db in
      (db₁, client, get_observing_vars_count st client db₁)

  -- The payload for one variable of updateClientAboutObservatingVars.
  unfoldable pub update_payload : Text → List (Text × Text) → Db → Payload
  update_payload client [] db = []
  update_payload client ((name, v) ∷ vals) db =
      entries_for name v (get_metadatas_of_a_client st (vname name) client db)
      ++ update_payload client vals db

  -- The loop of updateClientAboutObservatingVars, which a message that fails ends.
  unfoldable pub update_vars : Option Text → Text → List Text → Db → Db
  update_vars api client [] db = db
  update_vars api client (v ∷ vars) db =
      let payload = update_payload client (get_var_internal st w.allow_raw_db_access v db) db in
      let (db₁, result) =
        notify st client api (answer api (λ a. w.notify_client a client payload)) w.now db in
      let rest = update_vars api client vars db₁ in
      let checked = check_client_live_time api client db₁ in
      elim result [ live ↦ rest | disconnected ↦ checked ]

  unfoldable pub update_client : Option Text → Text → Db → Db
  update_client api client db = update_vars api client (get_observing_vars st client db) db

  -- The goroutine of notifyClientsAboutVarChange for one observation, for the helper that is found.
  unfoldable pub tell_found : Notification → Option (Db × Text) → Db → Db
  tell_found n none db = delete_client n.client_id (initialize st n.client_id none w.now db)
  tell_found n (some (db', api)) db =
      tell (some api) n.client_id ((n.changed_name, n.metadata, n.value) ∷ []) db'

  unfoldable pub tell_observer : Notification → Db → Db
  tell_observer n db = tell_found n (new_with_apis st n.client_id w.apis w.now db) db

  -- The goroutines of a change, in the order in which they get to run.
  unfoldable pub tell_observers : List Notification → Db → Db
  tell_observers [] db = db
  tell_observers (n ∷ ns) db = tell_observers ns (tell_observer n db)
