-- ===== src/VarHelper/Observers.antt =====
-- sources/controller/controller_varhelper.go: the observations of a variable, kept as a list of
-- numbered entries under the variable's name. Each method runs inside the named lock of the variable.
pub mod Frames
pub mod Apart
pub mod Keys
pub mod Effects
pub mod Laws
pub mod Spec
pub mod Shifting
pub mod Refinement
pub mod Removal
pub mod Runs
pub mod Metadata
use variables_and_streams_se.Base.{
  ℕ, zero, suc, List, [], ◌∷◌, ◌++◌, Bool, true, false, ◌&&◌, if◌then◌else◌, ◌-◌, ◌+◌, is_empty,
  some, none,
}
use variables_and_streams_se.Base.Text.{Text, codes, same, has_byte, after}
use variables_and_streams_se.Base.Decimal.{ℤ, increment, rounds, itoa, itoa_nat, get_int64, atoi}
use variables_and_streams_se.Storage.Path.{dot}
use variables_and_streams_se.Storage.Interface.{IStorage}
use Keys.{entry_key, node_key, count_key, by_id_key, client_key, Field, client_id, metadata}

-- GetMetadatasOfAClient: what is behind the first dot of a child's name, if there is one.
unfoldable pub behind_dots : List Text → List Text
behind_dots [] = []
behind_dots (curr ∷ childs) =
    let rest = behind_dots childs in if has_byte dot curr then after dot curr ∷ rest else rest

module _ (st : IStorage) (name : Text) where
  open st use {Db, set, get, get_childs, delete_value}

  -- int(c.db.Get(c.name+"._observers.list.count", 0).GetInt64())
  unfoldable pub count : Db → ℤ
  count db = get_int64 (get (count_key name) (codes "0") db)

  unfoldable pub entry : Field → ℕ → Db → Text
  entry f i db = get (entry_key name (itoa_nat i) f) [] db

  -- RegisterObservation, with the id that it returns.
  unfoldable pub register_observation : Text → Text → Db → Db × Text
  register_observation client meta db =
      let cnt = count db in
      let db₁ = set (entry_key name (itoa cnt) client_id) client db in
      let db₂ = set (entry_key name (itoa cnt) metadata) meta db₁ in
      let db₃ = set (by_id_key name client meta) (itoa cnt) db₂ in
      (set (count_key name) (itoa (increment cnt)) db₃, itoa cnt)

  -- The entries of GetAllObservingClients: those from number i on, n of them.
  unfoldable pub observing_from : ℕ → ℕ → Db → List (Text × Text × Text)
  observing_from i zero db = []
  observing_from i (suc n) db =
      let rest = observing_from (suc i) n db in
      if is_empty (entry client_id i db)
      then rest
      else (itoa_nat i, entry client_id i db, entry metadata i db) ∷ rest

  unfoldable pub get_all_observing_clients : Db → List (Text × Text × Text)
  get_all_observing_clients db = observing_from 0 (rounds (count db)) db

  -- The inner loop of internalRemoveObserving: entry j takes the client and metadata of entry j + 1.
  unfoldable pub shift_left : ℕ → ℕ → Db → Db
  shift_left zero j db = db
  shift_left (suc n) j db =
      let next_client = entry client_id (suc j) db in
      let next_metadata = entry metadata (suc j) db in
      let db₁ = set (entry_key name (itoa_nat j) client_id) next_client db in
      let db₂ = set (entry_key name (itoa_nat j) metadata) next_metadata db₁ in
      let db₃ = set (by_id_key name next_client next_metadata) (itoa_nat j) db₂ in
      shift_left n (suc j) db₃

  -- The body of internalRemoveObserving for a match at entry i of n.
  unfoldable pub remove_entry : Text → ℕ → ℕ → Db → Db
  remove_entry client i n db =
      let db₁ = shift_left (n - 1 - i) i db in
      let db₂ = delete_value (node_key name (itoa_nat (n - 1))) true db₁ in
      let db₃ = set (count_key name) (itoa_nat (n - 1)) db₂ in
      delete_value (client_key name client) true db₃

  -- The outer loop, from entry i - 1 down.
  unfoldable pub remove_below : Text → Text → ℕ → ℕ → Db → Db
  remove_below client meta zero n db = db
  remove_below client meta (suc i) n db =
      if same (entry client_id i db) client && same (entry metadata i db) meta
      then remove_entry client i n db
      else remove_below client meta i n db

  unfoldable pub internal_remove_observing : Text → Text → Db → Db
  internal_remove_observing client meta db =
      remove_below client meta (rounds (count db)) (rounds (count db)) db

  -- The loop of RemoveAllClientObservations, from entry i - 1 down.
  unfoldable pub remove_client_below : Text → ℕ → Db → Db
  remove_client_below client zero db = db
  remove_client_below client (suc i) db = remove_client_below client i (
      if same (entry client_id i db) client
      then internal_remove_observing (entry client_id i db) (entry metadata i db) db
      else db)

  unfoldable pub remove_all_client_observations : Text → Db → Db
  remove_all_client_observations client db = remove_client_below client (rounds (count db)) db

  -- RemoveObservationById. The entry's fields are read outside the named lock.
  unfoldable pub remove_observation_by_id : Text → Db → Db
  remove_observation_by_id obs_id db = elim (atoi obs_id) [
    | none ↦ db
    | some idx ↦
        let client = get (entry_key name (itoa idx) client_id) [] db in
        let meta = get (entry_key name (itoa idx) metadata) [] db in
        if is_empty client && is_empty meta then db else internal_remove_observing client meta db
  ]

  unfoldable pub remove_all_observations : Db → Db
  remove_all_observations db =
      set (count_key name) (codes "0") (delete_value (name ++ codes "._observers") true db)

  unfoldable pub get_metadatas_of_a_client : Text → Db → List Text
  get_metadatas_of_a_client client db =
      behind_dots (get_childs (client_key name client ++ codes ".byMetadata") db)
