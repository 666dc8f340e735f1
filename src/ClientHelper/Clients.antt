-- ===== src/ClientHelper/Clients.antt =====
-- The list of all clients in the database: the initialisation of a helper and
-- RemoveClientFromObservationSystem.
use variables_and_streams_se.Base.{
  ℕ, List, [], ◌∷◌, ◌++◌, true, ◌≡◌, refl, ◌≤◌, ◌<◌, length, ap, some, none, Option, if◌then◌else◌,
  Bool-cases, inl, inr,
}
use variables_and_streams_se.Base.Text.{Text, codes, same}
use variables_and_streams_se.Base.Decimal.{ℤ, pos, itoa, itoa_nat, get_int64, max_int}
use variables_and_streams_se.Base.Reads.{remove_at}
use variables_and_streams_se.Storage.Path.{scroll_path, is_prefix}
use variables_and_streams_se.Storage.Interface.{IStorage}
use variables_and_streams_se.Storage.Gets.{get_cascade}
use variables_and_streams_se.ClientHelper.{
  update_live_time, enlist, set_api, initialize, delist_at, remove_client_from_observation_system,
}
use variables_and_streams_se.ClientHelper.Keys.{client_key, list_key, list_count_key}
use variables_and_streams_se.ClientHelper.Listed.{
  Listed, append_item, append-Listed, close_gap-Listed, set-Listed, delete-Listed,
}
use variables_and_streams_se.ClientHelper.Paths.{
  list_base, list_key_path, list_count_path, client_key_path, live_time_path, api_id_path,
}

module _ (st : IStorage) where
  open st use {Db, set, get, has_value, delete_value, Sound}

  -- The database holds this list of clients.
  abbrev pub Clients : List Text → Db → Type 0
  Clients = Listed st list_key list_count_key

  set_of_client :
      (key v : Text) (p : List Text) (xs : List Text) (db : Db)
      → scroll_path key ≡ codes "internal" ∷ codes "clients" ∷ codes "byId" ∷ p
      → Clients xs db
      → Clients xs (set key v db)
  unfolding is_prefix same
  set_of_client key v p xs db e r =
      set-Listed st list_key list_count_key list_base list_key_path list_count_path key v xs db
        (λ s. rw e refl) r

module _ (st : IStorage) (client : Text) where
  open st use {Db, set, get, has_value, delete_value, Sound}

  enlisted :
      (n : ℕ) (db : Db)
      → get_int64 (get list_count_key (codes "0") db) ≡ pos n
      → enlist st client db
        ≡ set
            (client_key client)
            (itoa_nat n)
            (append_item st list_key list_count_key client (pos n) db)
  unfolding enlist append_item itoa
  enlisted n db e =
      ap
        (λ (m : ℤ).
          set (client_key client) (itoa m) (append_item st list_key list_count_key client m db))
        e

  live_time-Clients :
      (now : ℕ) (xs : List Text) (db : Db)
      → Clients st xs db
      → Clients st xs (update_live_time st client now db)
  unfolding update_live_time
  live_time-Clients now xs db r = set_of_client st _ _ _ xs db (live_time_path client) r

  api-Clients :
      (api : Option Text) (xs : List Text) (db : Db)
      → Clients st xs db
      → Clients st xs (set_api st client api db)
  unfolding set_api
  api-Clients none xs db r = r
  api-Clients (some api_id) xs db r = set_of_client st _ _ _ xs db (api_id_path client) r

  enlist-Clients :
      (xs : List Text) (db : Db)
      → length xs < max_int
      → Clients st xs db
      → Clients st (xs ++ client ∷ []) (enlist st client db)
  enlist-Clients xs db lt r = rw (enlisted (length xs) db r.counted) (
      set_of_client st _ _ _ _ _ (client_key_path client) (
        append-Listed st list_key list_count_key list_base list_key_path list_count_path client xs
          db lt r))

  -- A new client comes last; one that is known stays where it is.
  pub initialize-Clients :
      (api : Option Text) (now : ℕ) (xs : List Text) (db : Db)
      → length xs < max_int
      → Clients st xs db
      → Clients st
          (if has_value (client_key client) db then xs else xs ++ client ∷ [])
          (initialize st client api now db)
  unfolding initialize
  initialize-Clients api now xs db lt r = elim (Bool-cases (has_value (client_key client) db)) [
    | inl e ↦ rw (e) (live_time-Clients now _ _ (api-Clients api _ _ r))
    | inr e ↦ rw (e) (live_time-Clients now _ _ (api-Clients api _ _ (enlist-Clients xs db lt r)))
  ]

  delist-Clients :
      (i : ℕ) (xs : List Text) (db : Db)
      → length xs ≤ max_int
      → i < length xs
      → Clients st xs db
      → Clients st (remove_at i xs) (delist_at st client (pos i) db)
  unfolding delist_at
  delist-Clients i xs db le lt r = rw r.counted (
      close_gap-Listed st list_key list_count_key list_base list_key_path list_count_path i xs db le
        lt r)

  removed :
      (i : ℕ) (db : Db)
      → get_int64 (get (client_key client) (codes "-1") db) ≡ pos i
      → remove_client_from_observation_system st client db
        ≡ delete_value (client_key client) true (delist_at st client (pos i) db)
  unfolding remove_client_from_observation_system
  removed i db e =
      ap (λ (z : ℤ). delete_value (client_key client) true (delist_at st client z db)) e

  -- The entry at the index that the database has of the client goes, and with the client's node goes
  -- all that is below it.
  pub remove_client-Clients :
      (i : ℕ) (xs : List Text) (key d : Text) (db : Db)
      → length xs ≤ max_int
      → i < length xs
      → get_int64 (get (client_key client) (codes "-1") db) ≡ pos i
      → is_prefix (scroll_path (client_key client)) (scroll_path key) ≡ true
      → Clients st xs db
      → Clients st (remove_at i xs) (remove_client_from_observation_system st client db)
        × (get key d (remove_client_from_observation_system st client db) ≡ d)
  unfolding is_prefix same
  remove_client-Clients i xs key d db le lt e below r =
      let less = delist-Clients i xs db le lt r in
      rw (removed i db e) (
        delete-Listed st list_key list_count_key list_base list_key_path list_count_path
            (client_key client) (remove_at i xs) _ (λ s. rw client_key_path refl) less,
        rw (get_cascade st _ key d _ less.sound, below) refl,
      )
