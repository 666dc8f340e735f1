-- ===== src/ClientHelper/Listed.antt =====
-- What it means that the database holds a list of names under a node, and what the changes of the
-- client helper make of it.
use variables_and_streams_se.Base.{
  ℕ, suc, List, [], ◌∷◌, ◌++◌, true, false, ◌==◌, ◌≡◌, refl, arith, if◌then◌else◌, ◌≤◌, ◌<◌, ◌+◌,
  ◌-◌, length, ap, ◌∙◌, sym, length-append, some, none, Option, Bool-cases, inl, inr,
}
use variables_and_streams_se.Base.Text.{Text, codes, same}
use variables_and_streams_se.Base.Decimal.{
  ℤ, pos, itoa_nat, get_int64, get_int64-itoa_nat, max_int, increment, itoa,
}
use variables_and_streams_se.Base.Reads.{
  Reads, remove_at, length-remove_at, frame-Reads, Reads-append, Reads-remove_at,
}
use variables_and_streams_se.Storage.Path.{scroll_path, is_prefix, is_prefix-append}
use variables_and_streams_se.Storage.Interface.{IStorage}
use variables_and_streams_se.Storage.Gets.{get_set, get_other, get_cascade, count_word}
use variables_and_streams_se.ClientHelper.Lists.{
  item, find_from, close_gap, close_gap_sound, close_gap_pos, item-set_slot, item-set_count,
  item-close_gap,
}

-- The number of the first entry that is this one.
unfoldable pub index_of : ℕ → Text → List Text → Option ℕ
index_of i x [] = none
index_of i x (y ∷ ys) = let more = index_of (suc i) x ys in if same y x then some i else more

-- The list without the first entry that is this one.
unfoldable pub remove_first : Text → List Text → List Text
remove_first x [] = []
remove_first x (y ∷ ys) = let rest = remove_first x ys in if same y x then ys else y ∷ rest

module _ (st : IStorage) (slot : Text → Text) (count_key : Text) where
  open st use {Db, set, get, Sound, set_sound, delete_value}

  -- The database holds this list.
  pub record Listed (xs : List Text) (db : Db) : Type 0 where
    pub sound : Sound db
    pub counted : get_int64 (get count_key (codes "0") db) ≡ pos (length xs)
    pub reads : Reads (item st slot) 0 xs db

  -- The count and the new entry, as the helper writes them.
  unfoldable pub append_item : Text → ℤ → Db → Db
  append_item x n db = set (slot (itoa n)) x (set count_key (itoa (increment n)) db)

  pub find_from-Reads :
      (xs : List Text) (i : ℕ) (x : Text) (db : Db)
      → Reads (item st slot) i xs db
      → find_from st slot (length xs) i x db ≡ index_of i x xs
  unfolding find_from index_of item
  find_from-Reads [] i x db r = refl
  find_from-Reads (y ∷ xs) i x db (h, r) = rw (h, find_from-Reads xs (suc i) x db r) refl

  -- Whatever leaves the database sound, the count and the entries as they are keeps the list.
  pub frame-Listed :
      (xs : List Text) (db db' : Db)
      → Sound db'
      → get count_key (codes "0") db' ≡ get count_key (codes "0") db
      → ((k : ℕ) → item st slot k db' ≡ item st slot k db)
      → Listed xs db
      → Listed xs db'
  frame-Listed xs db db' s c e r = record {
    sound = s;
    counted = ap get_int64 c ∙ r.counted;
    reads = frame-Reads (item st slot) 0 xs db db' (λ k lt. e k) r.reads;
  }

module _ (st : IStorage) (slot : Text → Text) (count_key : Text) (base : List Text)
    (slot_path : (i : ℕ) → scroll_path (slot (itoa_nat i)) ≡ base ++ itoa_nat i ∷ [])
    (count_path : scroll_path count_key ≡ base ++ codes "count" ∷ []) where
  open st use {Db, set, get, delete_value, Sound, set_sound, delete_sound}

  abbrev Holds : List Text → Db → Type 0
  Holds = Listed st slot count_key

  count-set_slot :
      (i : ℕ) (v : Text) (db : Db)
      → get count_key (codes "0") (set (slot (itoa_nat i)) v db) ≡ get count_key (codes "0") db
  unfolding is_prefix same
  count-set_slot i v db =
      get_other st _ _ v (codes "0") db
        (rw (count_path, slot_path i, is_prefix-append) (ground (arith, count_word i)))

  item-append_item :
      (x : Text) (n k : ℕ) (db : Db)
      → item st slot k (append_item st slot count_key x (pos n) db)
        ≡ (if k == n then x else item st slot k db)
  unfolding append_item itoa
  item-append_item x n k db =
      item-set_slot st slot count_key base slot_path count_path k n x _
      ∙ rw (item-set_count st slot count_key base slot_path count_path k) refl

  pub append-Listed :
      (x : Text) (xs : List Text) (db : Db)
      → length xs < max_int
      → Holds xs db
      → Holds (xs ++ x ∷ []) (append_item st slot count_key x (pos (length xs)) db)
  append-Listed x xs db lt r = record {
    sound = unfold append_item in set_sound _ _ _ (set_sound _ _ _ r.sound);
    counted =
        unfold append_item itoa in
        ap get_int64
          (count-set_slot (length xs) x _ ∙ get_set st count_key (itoa_nat (suc (length xs))) _ db)
        ∙ get_int64-itoa_nat (suc (length xs)) (omega arith)
        ∙ ap pos (omega (arith, length-append xs (x ∷ [])));
    reads =
        Reads-append (item st slot) 0 xs x _
          (frame-Reads (item st slot) 0 xs db _
            (λ k below. item-append_item x (length xs) k db ∙ ground arith) r.reads)
          (item-append_item x (length xs) (0 + length xs) db ∙ ground arith);
  }

  pub close_gap-Listed :
      (i : ℕ) (xs : List Text) (db : Db)
      → length xs ≤ max_int
      → i < length xs
      → Holds xs db
      → Holds (remove_at i xs) (close_gap st slot count_key i (pos (length xs)) db)
  close_gap-Listed i xs db le lt r = record {
    sound = close_gap_sound st slot count_key i (pos (length xs)) db r.sound;
    counted =
        rw (close_gap_pos st slot count_key i (length xs) db (omega arith), get_set)
          (get_int64-itoa_nat (length xs - 1) (omega arith)
            ∙ ap pos (sym (length-remove_at xs i lt)));
    reads =
        Reads-remove_at (item st slot) 0 xs i db _
          (λ k below.
            item-close_gap st slot count_key base slot_path count_path i (length xs) k db r.sound lt
              (omega arith)
            ∙ ground arith)
          lt r.reads;
  }

  -- A write to a node that is not below this one.
  pub set-Listed :
      (key v : Text) (xs : List Text) (db : Db)
      → ((s : Text) → is_prefix (base ++ s ∷ []) (scroll_path key) ≡ false)
      → Holds xs db
      → Holds xs (set key v db)
  set-Listed key v xs db apart r =
      frame-Listed st slot count_key xs db _ (set_sound _ _ _ r.sound)
        (get_other st _ _ v (codes "0") db (rw count_path (apart (codes "count"))))
        (λ k. unfold item in get_other st _ _ v [] db (rw (slot_path k) (apart (itoa_nat k)))) r

  -- The deletion of a node that is not on the way to this one, with all that is below it.
  pub delete-Listed :
      (key : Text) (xs : List Text) (db : Db)
      → ((s : Text) → is_prefix (scroll_path key) (base ++ s ∷ []) ≡ false)
      → Holds xs db
      → Holds xs (delete_value key true db)
  delete-Listed key xs db apart r =
      frame-Listed st slot count_key xs db _ (delete_sound _ _ _ r.sound)
        (rw (get_cascade st key count_key (codes "0") db r.sound, count_path, apart (codes "count"))
          refl)
        (λ k.
          unfold item in
          rw (get_cascade st key _ [] db r.sound, slot_path k, apart (itoa_nat k)) refl)
        r

pub index_of_find :
    (x : Text) (xs : List Text) (i j : ℕ)
    → index_of i x xs ≡ some j
    → (k : ℕ) × (j ≡ i + k) × (k < length xs) × (remove_at k xs ≡ remove_first x xs)
unfolding index_of remove_first
index_of_find x [] i j e = cc
index_of_find x (y ∷ xs) i j e = elim (Bool-cases (same y x)) [
  | inl m ↦ (0, ground arith, omega arith, rw m refl)
  | inr m ↦
      let (k, at, lt, less) = index_of_find x xs (suc i) j (ground arith) in
      (suc k, omega arith, omega arith, rw m (ap (λ (ys : List Text). y ∷ ys) less))
]

pub remove_first-none :
    (x : Text) (xs : List Text) (i : ℕ) → index_of i x xs ≡ none → remove_first x xs ≡ xs
unfolding index_of remove_first
remove_first-none x [] i e = refl
remove_first-none x (y ∷ xs) i e = ground (arith, remove_first-none x xs (suc i))
