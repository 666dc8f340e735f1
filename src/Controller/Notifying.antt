-- ===== src/Controller/Notifying.antt =====
-- sources/controller/controller.go: which observations a change of a variable reaches.
use variables_and_streams_se.Base.{ℕ, zero, suc, List, [], ◌∷◌, ◌++◌, Bool, if◌then◌else◌, length}
use variables_and_streams_se.Base.Text.{Text, codes, has_byte}
use variables_and_streams_se.Storage.Path.{dot}
use variables_and_streams_se.Storage.Interface.{IStorage}
use variables_and_streams_se.VarHelper.{controlled_name, get_parent_name}
use variables_and_streams_se.VarHelper.Observers.{get_all_observing_clients}

-- What is sent to a client: the changed name, the metadata of its observation, and the value.
pub record Notification : Type 0 where
  pub client_id : Text
  pub changed_name : Text
  pub metadata : Text
  pub value : Text

-- notifyClientsAboutVarChange starts one goroutine for each of the observations.
unfoldable pub notify_clients : List (Text × Text × Text) → Text → Text → List Notification
notify_clients [] changed value = []
notify_clients ((id, client, meta) ∷ obs) changed value =
    record { client_id = client; changed_name = changed; metadata = meta; value = value }
    ∷ notify_clients obs changed value

module _ (st : IStorage) (raw : Bool) where
  open st use {Db}

  -- The observations of a name.
  unfoldable pub observations : Text → Db → List (Text × Text × Text)
  observations name db = get_all_observing_clients st (controlled_name raw name) db

  -- notifyParentGenericObservers. The fuel bounds the number of parents; the name's length is enough.
  unfoldable pub notify_parents : ℕ → Text → Text → Text → Db → List Notification
  notify_parents zero var_name changed value db = []
  notify_parents (suc fuel) var_name changed value db =
      let parent = get_parent_name var_name in
      let above = notify_parents fuel parent changed value db in
      if has_byte dot var_name
      then notify_clients (observations (parent ++ codes ".*") db) changed value ++ above
      else []

  -- notifyVarModification
  unfoldable pub notify_var_modification : Text → Text → Db → List Notification
  notify_var_modification var_name value db =
      notify_clients (observations var_name db) var_name value
      ++ (notify_parents (length var_name) var_name var_name value db
          ++ notify_clients (observations (var_name ++ codes ".*") db) var_name value)
