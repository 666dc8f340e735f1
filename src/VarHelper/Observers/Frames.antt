-- ===== src/VarHelper/Observers/Frames.antt =====
-- The methods on observations write and delete below the variable only: what no such change can touch
-- outlives them.
use variables_and_streams_se.Base.{
  ℕ, zero, suc, List, ◌++◌, true, ◌&&◌, ◌≡◌, ◌-◌, Bool-cases, inl, inr,
}
use variables_and_streams_se.Base.Text.{Text, same, split}
use variables_and_streams_se.Base.Decimal.{pos}
use variables_and_streams_se.Storage.Path.{dot, scroll_path}
use variables_and_streams_se.Storage.Interface.{IStorage}
use variables_and_streams_se.VarHelper.Observers.{
  count, entry, register_observation, shift_left, remove_entry, remove_below,
  internal_remove_observing,
}
use variables_and_streams_se.VarHelper.Observers.Keys.{
  client_id, metadata, entry_path, node_path, count_path, by_id_key_path, client_key_path,
}
use variables_and_streams_se.VarHelper.Observers.Shifting.{put_entry}
use variables_and_streams_se.VarHelper.Observers.Refinement.{registered}

module _ (st : IStorage) (name : Text) (P : st.Db → Type 0)
    (keep_set : (key v : Text) (q : List Text) (db : st.Db)
      → scroll_path key ≡ split dot name ++ q
      → P db
      → P (st.set key v db))
    (keep_delete : (key : Text) (q : List Text) (db : st.Db)
      → scroll_path key ≡ split dot name ++ q
      → P db
      → P (st.delete_value key true db)) where
  open st use {Db}

  pub register-keeps :
      (client meta : Text) (n : ℕ) (db : Db)
      → count st name db ≡ pos n
      → P db
      → P (register_observation st name client meta db).0
  unfolding put_entry
  register-keeps client meta n db e h = rw (registered st name client meta n db e) (
      keep_set _ _ _ _ (count_path name) (
        keep_set _ _ _ _ (by_id_key_path name client meta) (
          keep_set _ _ _ _ (entry_path name n metadata)
            (keep_set _ _ _ _ (entry_path name n client_id) h))))

  shift-keeps : (n j : ℕ) (db : Db) → P db → P (shift_left st name n j db)
  unfolding shift_left
  shift-keeps zero j db h = h
  shift-keeps (suc n) j db h = shift-keeps n (suc j) _ (
      keep_set _ _ _ _ (by_id_key_path name _ _) (
        keep_set _ _ _ _ (entry_path name j metadata)
          (keep_set _ _ _ _ (entry_path name j client_id) h)))

  remove_entry-keeps :
      (client : Text) (i n : ℕ) (db : Db) → P db → P (remove_entry st name client i n db)
  unfolding remove_entry
  remove_entry-keeps client i n db h = keep_delete _ _ _ (client_key_path name client) (
      keep_set _ _ _ _ (count_path name)
        (keep_delete _ _ _ (node_path name (n - 1)) (shift-keeps (n - 1 - i) i db h)))

  remove_below-keeps :
      (client meta : Text) (i n : ℕ) (db : Db) → P db → P (remove_below st name client meta i n db)
  unfolding remove_below
  remove_below-keeps client meta zero n db h = h
  remove_below-keeps client meta (suc i) n db h =
      elim (Bool-cases
        (same (entry st name client_id i db) client && same (entry st name metadata i db) meta)) [
          | inl e ↦ rw e (remove_entry-keeps client i n db h)
          | inr e ↦ rw e (remove_below-keeps client meta i n db h)
        ]

  pub remove-keeps :
      (client meta : Text) (db : Db) → P db → P (internal_remove_observing st name client meta db)
  unfolding internal_remove_observing
  remove-keeps client meta db h = remove_below-keeps client meta _ _ db h
