-- ===== src/ClientHelper/Frames.antt =====
-- The client helper writes and deletes below "internal" only: what no such change can touch outlives
-- its operations.
use variables_and_streams_se.Base.{
  ℕ, zero, suc, [], ◌++◌, false, ◌≢◌, Option, some, none, Bool-cases, inl, inr,
}
use variables_and_streams_se.Base.Text.{Text, codes}
use variables_and_streams_se.Storage.Interface.{IStorage}
use variables_and_streams_se.ClientHelper.{
  update_live_time, enlist, set_api, initialize, register_new_observation, forget_at,
  unregister_observation,
}
use variables_and_streams_se.ClientHelper.Keys.{
  client_key, api_id_key, last_live_time_key, observing_count_key, observing_key, list_count_key,
  list_key,
}
use variables_and_streams_se.ClientHelper.Lists.{shift_down, close_gap}

module _ (st : IStorage) (P : st.Db → Type 0)
    (keep_set : (rest v : Text) (db : st.Db)
      → rest ≢ []
      → P db
      → P (st.set (codes "internal." ++ rest) v db))
    (keep_delete : (rest : Text) (db : st.Db)
      → rest ≢ []
      → P db
      → P (st.delete_value (codes "internal." ++ rest) false db)) where
  open st use {Db, set, get, has_value, delete_value}

  module _ (client : Text) where
    pub live_time-keeps : (now : ℕ) (db : Db) → P db → P (update_live_time st client now db)
    unfolding update_live_time last_live_time_key client_key
    live_time-keeps now db h = keep_set _ _ _ (cc) h

    api-keeps : (api : Option Text) (db : Db) → P db → P (set_api st client api db)
    unfolding set_api api_id_key client_key
    api-keeps none db h = h
    api-keeps (some api_id) db h = keep_set _ _ _ (cc) h

    enlist-keeps : (db : Db) → P db → P (enlist st client db)
    unfolding enlist client_key list_key list_count_key
    enlist-keeps db h = keep_set _ _ _ (cc) (keep_set _ _ _ (cc) (keep_set _ _ _ (cc) h))

    pub initialize-keeps :
        (api : Option Text) (now : ℕ) (db : Db) → P db → P (initialize st client api now db)
    unfolding initialize
    initialize-keeps api now db h = elim (Bool-cases (has_value (client_key client) db)) [
      | inl e ↦ rw (e) (live_time-keeps now _ (api-keeps api _ h))
      | inr e ↦ rw (e) (live_time-keeps now _ (api-keeps api _ (enlist-keeps db h)))
    ]

    pub register-keeps :
        (name : Text) (now : ℕ) (db : Db)
        → P db
        → P (register_new_observation st client name now db)
    unfolding register_new_observation observing_key observing_count_key client_key
    register-keeps name now db h =
        keep_set _ _ _ (cc) (keep_set _ _ _ (cc) (live_time-keeps now db h))

    shift-keeps : (n c : ℕ) (db : Db) → P db → P (shift_down st (observing_key client) n c db)
    unfolding shift_down observing_key client_key
    shift-keeps zero c db h = h
    shift-keeps (suc n) c db h = shift-keeps n (suc c) _ (keep_set _ _ _ (cc) h)

    forget-keeps : (i : Option ℕ) (db : Db) → P db → P (forget_at st client i db)
    unfolding forget_at close_gap observing_key observing_count_key client_key
    forget-keeps none db h = h
    forget-keeps (some i) db h = keep_set _ _ _ (cc) (keep_delete _ _ (cc) (shift-keeps _ i db h))

    pub unregister-keeps :
        (name : Text) (now : ℕ) (db : Db) → P db → P (unregister_observation st client name now db)
    unfolding unregister_observation
    unregister-keeps name now db h = forget-keeps _ _ (live_time-keeps now db h)
