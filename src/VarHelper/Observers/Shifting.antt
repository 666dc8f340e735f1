-- ===== src/VarHelper/Observers/Shifting.antt =====
-- The entries as a list in the database, and what `internalRemoveObserving` does to them.
use variables_and_streams_se.Base.{
  ℕ, zero, suc, true, false, ◌&&◌, ◌==◌, ◌≡◌, refl, arith, if◌then◌else◌, ◌≤◌, ◌<◌, ◌+◌, ◌-◌, ltb,
  leb, ◌∙◌,
}
use variables_and_streams_se.Base.Text.{Text}
use variables_and_streams_se.Base.Decimal.{pos, itoa_nat, max_int}
use variables_and_streams_se.Storage.Interface.{IStorage}
use variables_and_streams_se.VarHelper.Observers.{count, entry, shift_left, remove_entry}
use variables_and_streams_se.VarHelper.Observers.Keys.{
  Field, client_id, metadata, entry_key, node_key, count_key, by_id_key,
}
use variables_and_streams_se.VarHelper.Observers.Laws.{
  entry-set_entry, entry-set_by_id, entry-set_count, entry-delete_node, entry-delete_client,
  count-set_count, count-delete_client,
}
use variables_and_streams_se.VarHelper.Observers.Spec.{Observation}

module _ (st : IStorage) (name : Text) where
  open st use {Db, set, delete_value, Sound, set_sound, delete_sound}

  -- Entry i.
  unfoldable pub at : ℕ → Db → Observation
  at i db = (entry st name client_id i db, entry st name metadata i db)

  -- The two writes of an entry.
  unfoldable pub put_entry : ℕ → Observation → Db → Db
  put_entry j x db =
      set (entry_key name (itoa_nat j) metadata) x.1
        (set (entry_key name (itoa_nat j) client_id) x.0 db)

  pub at-put_entry :
      (i j : ℕ) (x : Observation) (db : Db)
      → at i (put_entry j x db) ≡ (if i == j then x else at i db)
  unfolding at put_entry
  at-put_entry i j (c, m) db =
      rw
        (
          entry-set_entry st name i j client_id metadata m,
          entry-set_entry st name i j client_id client_id c,
          entry-set_entry st name i j metadata metadata m,
          entry-set_entry st name i j metadata client_id c,
        )
        (ground arith)

  pub at_lem :
      (i : ℕ) (db db' : Db)
      → ((f : Field) → entry st name f i db ≡ entry st name f i db')
      → at i db ≡ at i db'
  unfolding at
  at_lem i db db' h = λ k. (h client_id k, h metadata k)

  shift_step :
      (n j : ℕ) (db : Db)
      → shift_left st name (suc n) j db
        ≡ shift_left st name n (suc j) (
            set
              (by_id_key name (at (suc j) db).0 (at (suc j) db).1)
              (itoa_nat j)
              (put_entry j (at (suc j) db) db))
  unfolding shift_left at put_entry
  shift_step n j db = refl

  pub at-set_count : (i : ℕ) (v : Text) (db : Db) → at i (set (count_key name) v db) ≡ at i db
  at-set_count i v db = at_lem i _ db (λ f. entry-set_count st name i f v db)

  pub at-set_by_id :
      (i : ℕ) (client meta v : Text) (db : Db)
      → at i (set (by_id_key name client meta) v db) ≡ at i db
  at-set_by_id i client meta v db =
      at_lem i _ db (λ f. entry-set_by_id st name i f client meta v db)

  -- Entries j to j + n - 1 become those one further on; the others stay.
  pub at-shift_left :
      (n j i : ℕ) (db : Db)
      → at i (shift_left st name n j db)
        ≡ (if leb j i && ltb i (j + n) then at (suc i) db else at i db)
  at-shift_left zero j i db = unfold shift_left in ground arith
  at-shift_left (suc n) j i db =
      rw
        (
          shift_step n j db,
          at-shift_left n (suc j) i,
          at-set_by_id,
          at-set_by_id,
          at-put_entry,
          at-put_entry,
        )
        (ground arith)

  shift_left_sound : (n j : ℕ) (db : Db) → Sound db → Sound (shift_left st name n j db)
  unfolding put_entry
  shift_left_sound zero j db h = unfold shift_left in h
  shift_left_sound (suc n) j db h =
      rw (shift_step n j db)
        (shift_left_sound n (suc j) _ (set_sound _ _ _ (set_sound _ _ _ (set_sound _ _ _ h))))

  pub remove_entry_sound :
      (client : Text) (i n : ℕ) (db : Db) → Sound db → Sound (remove_entry st name client i n db)
  unfolding remove_entry
  remove_entry_sound client i n db h =
      delete_sound _ _ _
        (set_sound _ _ _ (delete_sound _ _ _ (shift_left_sound (n - 1 - i) i db h)))

  pub count-remove_entry :
      (client : Text) (i n : ℕ) (db : Db)
      → Sound db
      → n ≤ max_int
      → count st name (remove_entry st name client i n db) ≡ pos (n - 1)
  unfolding remove_entry
  count-remove_entry client i n db h le =
      count-delete_client st name client _
        (set_sound _ _ _ (delete_sound _ _ _ (shift_left_sound (n - 1 - i) i db h)))
      ∙ count-set_count st name (n - 1) _ (omega arith)

  at-delete_node :
      (i j : ℕ) (db : Db)
      → Sound db
      → (i == j) ≡ false
      → at i (delete_value (node_key name (itoa_nat j)) true db) ≡ at i db
  at-delete_node i j db h ne =
      at_lem i _ db (λ f. entry-delete_node st name i j f db h ∙ rw ne refl)

  -- Below the last entry, those from i on are the ones that were one further on.
  pub at-remove_entry :
      (client : Text) (i n k : ℕ) (db : Db)
      → Sound db
      → i < n
      → k + 1 < n
      → at k (remove_entry st name client i n db) ≡ (if ltb k i then at k db else at (suc k) db)
  unfolding remove_entry
  at-remove_entry client i n k db h lt le =
      let shifted = shift_left st name (n - 1 - i) i db in
      let shifted_sound = shift_left_sound (n - 1 - i) i db h in
      let cut = delete_value (node_key name (itoa_nat (n - 1))) true shifted in
      let cut_sound = delete_sound _ _ _ shifted_sound in
      at_lem k _ _ (λ f. entry-delete_client st name k f client _ (set_sound _ _ _ cut_sound))
      ∙ at_lem k _ cut (λ f. entry-set_count st name k f (itoa_nat (n - 1)) cut)
      ∙ at-delete_node k (n - 1) shifted shifted_sound (ground arith)
      ∙ rw (at-shift_left) (ground arith)
