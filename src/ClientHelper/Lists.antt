-- ===== src/ClientHelper/Lists.antt =====
-- A numbered list of names under one node of the database, beside its count: the loops of the client
-- helper that search it and close a gap in it, and its entries under each change.
use variables_and_streams_se.Base.{
  ℕ, zero, suc, List, [], ◌∷◌, ◌++◌, false, ◌&&◌, ◌==◌, ◌≡◌, refl, arith, if◌then◌else◌, ◌<◌, ◌+◌,
  ◌-◌, ltb, leb, ap, ◌∙◌, Bool-cases, inl, inr, Option, some, none,
}
use variables_and_streams_se.Base.Text.{Text, codes, same}
use variables_and_streams_se.Base.Decimal.{ℤ, pos, rounds, decrement, itoa, itoa_nat}
use variables_and_streams_se.Storage.Path.{
  scroll_path, is_prefix, same_path, same_path-append, is_prefix-append,
}
use variables_and_streams_se.Storage.Interface.{IStorage}
use variables_and_streams_se.Storage.Gets.{same_itoa, count_word, get_set, get_other, get_deleted}

module _ (st : IStorage) (slot : Text → Text) where
  open st use {Db, set, get, delete_value, Sound, set_sound, delete_sound}

  -- The entry of number i.
  unfoldable pub item : ℕ → Db → Text
  item i db = get (slot (itoa_nat i)) [] db

  -- The loops that move the entries from c + 1 on one number down, n rounds.
  unfoldable pub shift_down : ℕ → ℕ → Db → Db
  shift_down zero c db = db
  shift_down (suc n) c db =
      let next = get (slot (itoa_nat (suc c))) [] db in
      shift_down n (suc c) (set (slot (itoa_nat c)) next db)

  -- The loop of a search from number i on, n rounds; none stands for -1.
  unfoldable pub find_from : ℕ → ℕ → Text → Db → Option ℕ
  find_from zero i x db = none
  find_from (suc n) i x db =
      let more = find_from n (suc i) x db in
      if same (get (slot (itoa_nat i)) [] db) x then some i else more

  -- The removal of entry i, for a count of n.
  unfoldable pub close_gap : Text → ℕ → ℤ → Db → Db
  close_gap count_key i n db =
      let db₁ = shift_down (rounds n - 1 - i) i db in
      let db₂ = delete_value (slot (itoa (decrement n))) false db₁ in
      set count_key (itoa (decrement n)) db₂

  pub shift_down_sound : (n j : ℕ) (db : Db) → Sound db → Sound (shift_down n j db)
  unfolding shift_down
  shift_down_sound zero j db h = h
  shift_down_sound (suc n) j db h = shift_down_sound n (suc j) _ (set_sound _ _ _ h)

  pub close_gap_sound :
      (count_key : Text) (i : ℕ) (n : ℤ) (db : Db) → Sound db → Sound (close_gap count_key i n db)
  unfolding close_gap
  close_gap_sound count_key i n db h =
      set_sound _ _ _ (delete_sound _ _ _ (shift_down_sound (rounds n - 1 - i) i db h))

  pub close_gap_pos :
      (count_key : Text) (i n : ℕ) (db : Db)
      → 0 < n
      → close_gap count_key i (pos n) db
        ≡ set count_key
            (itoa_nat (n - 1))
            (delete_value (slot (itoa_nat (n - 1))) false (shift_down (n - 1 - i) i db))
  unfolding close_gap itoa
  close_gap_pos count_key i zero db lt = absurd (omega arith)
  close_gap_pos count_key i (suc n) db lt =
      let last : n ≡ suc n - 1 = omega arith in
      ap
        (λ (m : ℕ).
          set count_key (itoa_nat m)
            (delete_value (slot (itoa_nat m)) false (shift_down (suc n - 1 - i) i db)))
        last

-- Where the entries and the count stand.
module _ (st : IStorage) (slot : Text → Text) (count_key : Text) (base : List Text)
    (slot_path : (i : ℕ) → scroll_path (slot (itoa_nat i)) ≡ base ++ itoa_nat i ∷ [])
    (count_path : scroll_path count_key ≡ base ++ codes "count" ∷ []) where
  open st use {Db, set, get, delete_value, Sound, set_sound, delete_sound}

  slot_prefix :
      (i j : ℕ)
      → is_prefix (scroll_path (slot (itoa_nat i))) (scroll_path (slot (itoa_nat j))) ≡ (i == j)
  unfolding is_prefix
  slot_prefix i j = rw (slot_path i, slot_path j, is_prefix-append) (ground (arith, same_itoa i j))

  pub item-set_slot :
      (i j : ℕ) (v : Text) (db : Db)
      → item st slot i (set (slot (itoa_nat j)) v db) ≡ (if i == j then v else item st slot i db)
  unfolding item
  item-set_slot i j v db = elim (Bool-cases (i == j)) [
    | inr e ↦ get_other st _ _ v [] db (slot_prefix i j ∙ e) ∙ rw e refl
    | inl e ↦ rw (e) (
        ap (λ (k : ℕ). get (slot (itoa_nat k)) [] (set (slot (itoa_nat j)) v db)) (ground arith)
        ∙ get_set st _ v [] db)
  ]

  pub item-set_count :
      (i : ℕ) (v : Text) (db : Db) → item st slot i (set count_key v db) ≡ item st slot i db
  unfolding item is_prefix
  item-set_count i v db =
      get_other st _ _ v [] db
        (rw (slot_path i, count_path, is_prefix-append) (ground (arith, count_word i)))

  pub item-delete :
      (i j : ℕ) (db : Db)
      → Sound db
      → item st slot i (delete_value (slot (itoa_nat j)) false db)
        ≡ (if i == j then [] else item st slot i db)
  unfolding item same_path
  item-delete i j db h =
      rw (get_deleted st _ _ db h, slot_path, slot_path, same_path-append)
        (ground (arith, same_itoa j i))

  shift_step :
      (n j : ℕ) (db : Db)
      → shift_down st slot (suc n) j db
        ≡ shift_down st slot n (suc j) (set (slot (itoa_nat j)) (item st slot (suc j) db) db)
  unfolding shift_down item
  shift_step n j db = refl

  -- Entries j to j + n - 1 become those one further on; the others stay.
  pub item-shift_down :
      (n j i : ℕ) (db : Db)
      → item st slot i (shift_down st slot n j db)
        ≡ (if leb j i && ltb i (j + n) then item st slot (suc i) db else item st slot i db)
  item-shift_down zero j i db = unfold shift_down in ground arith
  item-shift_down (suc n) j i db =
      rw
        (shift_step n j db, item-shift_down n (suc j) i, item-set_slot (suc i) j, item-set_slot i j)
        (ground arith)

  -- Below the last entry, those from i on are the ones that were one further on.
  pub item-close_gap :
      (i n k : ℕ) (db : Db)
      → Sound db
      → i < n
      → k + 1 < n
      → item st slot k (close_gap st slot count_key i (pos n) db)
        ≡ (if ltb k i then item st slot k db else item st slot (suc k) db)
  item-close_gap i n k db h lt le = rw (close_gap_pos st slot count_key i n db (omega arith)) (
      item-set_count k (itoa_nat (n - 1)) _
      ∙ item-delete k (n - 1) _ (shift_down_sound st slot (n - 1 - i) i db h)
      ∙ rw (item-shift_down (n - 1 - i) i k) (ground arith))
