-- ===== src/Storage/Gets.antt =====
-- What is read of one key after a change under another, and the names of numbered nodes.
use variables_and_streams_se.Base.{
  ℕ, List, [], ◌∷◌, true, false, ◌==◌, ◌≡◌, refl, arith, if◌then◌else◌,
}
use variables_and_streams_se.Base.Text.{Text, codes, same, eq_of_same, same_refl}
use variables_and_streams_se.Base.Decimal.{itoa_nat, itoa_nat-injective, itoa_nat-ne-word}
use variables_and_streams_se.Storage.Path.{
  scroll_path, is_prefix, same_path, same_path_refl, eq_of_same_path,
}
use variables_and_streams_se.Storage.Interface.{IStorage}

pub same_itoa : (i j : ℕ) → same (itoa_nat i) (itoa_nat j) ≡ (i == j)
same_itoa i j =
    ground
      (arith, eq_of_same (itoa_nat i) (itoa_nat j), same_refl (itoa_nat i), itoa_nat-injective i j)

pub count_word : (i : ℕ) → same (itoa_nat i) (codes "count") ≡ false
count_word i =
    ground (arith, eq_of_same (itoa_nat i) (codes "count"), itoa_nat-ne-word b'c' (codes "ount") i)

pub prefix_self : (p : List Text) → is_prefix p p ≡ true
unfolding is_prefix
prefix_self [] = refl
prefix_self (a ∷ p) = ground (arith, same_refl a, prefix_self p)

module _ (st : IStorage) where
  open st use {
    Db, set, get, delete_value, held, Sound, get_held, held_set, held_cascade, held_delete,
  }

  pub get_of_held :
      (key d : Text) (db db' : Db) → held key db ≡ held key db' → get key d db ≡ get key d db'
  get_of_held key d db db' e = rw (get_held, get_held, e) refl

  pub get_set : (key v d : Text) (db : Db) → get key d (set key v db) ≡ v
  get_set key v d db =
      rw get_held (ground (arith, held_set key key v db, same_path_refl (scroll_path key)))

  -- A write is not seen at a key that is not on the way to the one written.
  pub get_other :
      (key other v d : Text) (db : Db)
      → is_prefix (scroll_path other) (scroll_path key) ≡ false
      → get other d (set key v db) ≡ get other d db
  get_other key other v d db h = get_of_held other d (set key v db) db (
      ground (
        arith,
        held_set key other v db,
        eq_of_same_path (scroll_path key) (scroll_path other),
        same_path_refl (scroll_path key),
        prefix_self (scroll_path key),
      ))

  pub get_cascade :
      (key other d : Text) (db : Db)
      → Sound db
      → get other d (delete_value key true db)
        ≡ (if is_prefix (scroll_path key) (scroll_path other) then d else get other d db)
  get_cascade key other d db h =
      rw (get_held, get_held) (ground (arith, held_cascade key other db h))

  -- A deletion of one key, read with the empty default.
  pub get_deleted :
      (key other : Text) (db : Db)
      → Sound db
      → get other [] (delete_value key false db)
        ≡ (if same_path (scroll_path key) (scroll_path other) then [] else get other [] db)
  get_deleted key other db h = rw (get_held, get_held) (held_delete key other db h)
