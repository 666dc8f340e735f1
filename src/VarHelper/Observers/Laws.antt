-- ===== src/VarHelper/Observers/Laws.antt =====
-- The entries and the count of a variable's observations under each change that the helper makes.
use variables_and_streams_se.Base.{
  ℕ, List, [], ◌∷◌, true, ◌&&◌, ◌==◌, ◌≡◌, refl, arith, if◌then◌else◌, ◌≤◌, Bool-cases, inl, inr,
  ◌∙◌, ap,
}
use variables_and_streams_se.Base.Text.{Text, codes, same}
use variables_and_streams_se.Base.Decimal.{pos, itoa_nat, get_int64, get_int64-itoa_nat, max_int}
use variables_and_streams_se.Storage.Path.{is_prefix}
use variables_and_streams_se.Storage.Interface.{IStorage}
use variables_and_streams_se.VarHelper.Observers.{count, entry}
use variables_and_streams_se.VarHelper.Observers.Keys.{
  Field, client_id, metadata, field_name, entry_key, node_key, count_key, by_id_key, client_key,
  entry_path, node_path, count_path, by_id_key_path, client_key_path,
}
use variables_and_streams_se.VarHelper.Observers.Effects.{same_field, field_names, prefix_below}
use variables_and_streams_se.Storage.Gets.{same_itoa, count_word, get_set, get_other, get_cascade}

abbrev list_rest : ℕ → Field → List Text
list_rest i f = codes "list" ∷ itoa_nat i ∷ field_name f ∷ []

rest_prefix :
    (i j : ℕ) (f g : Field) → is_prefix (list_rest i f) (list_rest j g) ≡ (i == j) && same_field f g
unfolding is_prefix same
rest_prefix i j f g = ground (arith, same_itoa i j, field_names f g)

same_field_eq : (f g : Field) → same_field f g ≡ true → f ≡ g
same_field_eq client_id client_id h = refl
same_field_eq client_id metadata h = cc
same_field_eq metadata client_id h = cc
same_field_eq metadata metadata h = refl

module _ (st : IStorage) (name : Text) where
  open st use {Db, set, get, delete_value, Sound}

  pub entry-set_entry :
      (i j : ℕ) (f g : Field) (v : Text) (db : Db)
      → entry st name f i (set (entry_key name (itoa_nat j) g) v db)
        ≡ (if (i == j) && same_field f g then v else entry st name f i db)
  unfolding entry
  entry-set_entry i j f g v db = elim (Bool-cases ((i == j) && same_field f g)) [
    | inr e ↦
        get_other st _ _ v [] db (
          prefix_below name _ _ (list_rest i f) (list_rest j g) (entry_path name i f)
            (entry_path name j g)
          ∙ rest_prefix i j f g
          ∙ e)
        ∙ rw e refl
    | inl e ↦ rw (e) (
        ap (λ (k : Text). get k [] (set (entry_key name (itoa_nat j) g) v db)) (same_key e)
        ∙ get_set st _ v [] db)
  ]
    where
      same_key :
          ((i == j) && same_field f g) ≡ true
          → entry_key name (itoa_nat i) f ≡ entry_key name (itoa_nat j) g
      same_key e = ground (arith, same_field_eq f g)

  pub entry-set_by_id :
      (i : ℕ) (f : Field) (client meta v : Text) (db : Db)
      → entry st name f i (set (by_id_key name client meta) v db) ≡ entry st name f i db
  unfolding entry is_prefix same
  entry-set_by_id i f client meta v db = get_other st _ _ v [] db (
      rw (prefix_below name _ _ _ _ (entry_path name i f) (by_id_key_path name client meta))
        (ground arith))

  pub entry-set_count :
      (i : ℕ) (f : Field) (v : Text) (db : Db)
      → entry st name f i (set (count_key name) v db) ≡ entry st name f i db
  unfolding entry is_prefix same
  entry-set_count i f v db = get_other st _ _ v [] db (
      rw (prefix_below name _ _ _ _ (entry_path name i f) (count_path name))
        (ground (arith, count_word i)))

  pub entry-delete_node :
      (i j : ℕ) (f : Field) (db : Db)
      → Sound db
      → entry st name f i (delete_value (node_key name (itoa_nat j)) true db)
        ≡ (if i == j then [] else entry st name f i db)
  unfolding entry is_prefix same
  entry-delete_node i j f db h =
      rw
        (
          get_cascade st _ _ [] db h,
          prefix_below name _ _ _ _ (node_path name j) (entry_path name i f),
        )
        (ground (arith, same_itoa j i))

  pub entry-delete_client :
      (i : ℕ) (f : Field) (client : Text) (db : Db)
      → Sound db
      → entry st name f i (delete_value (client_key name client) true db) ≡ entry st name f i db
  unfolding entry is_prefix same
  entry-delete_client i f client db h =
      rw
        (
          get_cascade st _ _ [] db h,
          prefix_below name _ _ _ _ (client_key_path name client) (entry_path name i f),
        )
        refl

  pub count-set_count :
      (n : ℕ) (db : Db) → n ≤ max_int → count st name (set (count_key name) (itoa_nat n) db) ≡ pos n
  unfolding count
  count-set_count n db h = rw get_set (get_int64-itoa_nat n h)

  pub count-set_entry :
      (i : ℕ) (f : Field) (v : Text) (db : Db)
      → count st name (set (entry_key name (itoa_nat i) f) v db) ≡ count st name db
  unfolding count is_prefix same
  count-set_entry i f v db = ap get_int64 (
      get_other st _ _ v (codes "0") db (
        rw (prefix_below name _ _ _ _ (count_path name) (entry_path name i f))
          (ground (arith, count_word i))))

  pub count-set_by_id :
      (client meta v : Text) (db : Db)
      → count st name (set (by_id_key name client meta) v db) ≡ count st name db
  unfolding count is_prefix same
  count-set_by_id client meta v db = ap get_int64 (
      get_other st _ _ v (codes "0") db
        (rw (prefix_below name _ _ _ _ (count_path name) (by_id_key_path name client meta)) refl))

  pub count-delete_client :
      (client : Text) (db : Db)
      → Sound db
      → count st name (delete_value (client_key name client) true db) ≡ count st name db
  unfolding count is_prefix same
  count-delete_client client db h =
      rw
        (
          get_cascade st _ _ (codes "0") db h,
          prefix_below name _ _ _ _ (client_key_path name client) (count_path name),
        )
        refl
