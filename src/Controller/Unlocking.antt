-- ===== src/Controller/Unlocking.antt =====
-- DelVar on the flag of a lock, an internal name.
use variables_and_streams_se.Base.{
  ℕ, suc, [], ◌∷◌, ◌++◌, Bool, true, false, not, ◌&&◌, Option, none, some, is_empty, ◌≡◌, refl,
  arith, get_or, ◌∙◌,
}
use variables_and_streams_se.Base.Text.{Text, codes, same, has_byte, has_prefix}
use variables_and_streams_se.Storage.Path.{dot, same_path_refl}
use variables_and_streams_se.Storage.Interface.{IStorage}
use variables_and_streams_se.VarHelper.{
  star, starts_with, flag_name, controlled_name, is_locked, get_flag, delete_variable,
}
use variables_and_streams_se.VarHelper.Internal.{lock_key}
use variables_and_streams_se.Controller.Reading.{del_var}
use variables_and_streams_se.Controller.ReadBack.{del_var_plain}

has_prefix-append : (p s t : Text) → has_prefix p s ≡ true → has_prefix p (s ++ t) ≡ true
unfolding has_prefix
has_prefix-append [] s t h = refl
has_prefix-append (a ∷ p) [] t h = cc
has_prefix-append (a ∷ p) (b ∷ s) t h = ground (arith, has_prefix-append p s t)

lock_key-plain : (name : Text) → has_byte star name ≡ false → has_byte star (lock_key name) ≡ false
unfolding has_byte flag_name starts_with
lock_key-plain [] h = refl
lock_key-plain (c ∷ name) h = ground (arith, lock_key-plain name)

lock_key_filled : (name : Text) → is_empty (lock_key name) ≡ false
lock_key_filled [] = refl
lock_key_filled (c ∷ name) = refl

controlled-lock_key :
    (raw : Bool) (name : Text)
    → has_prefix (codes "vars.") name ≡ true
    → controlled_name raw (lock_key name) ≡ lock_key name
unfolding controlled_name
controlled-lock_key raw name h =
    ground (arith, has_prefix-append (codes "vars.") name (dot ∷ flag_name (codes "lock")))

-- No lock is held where the flag has the empty value or none.
flag_clear :
    (o : Option Text)
    → get_or o [] ≡ []
    → (not (same (get_or o (codes "0")) (codes "0")) && not (is_empty (get_or o (codes "0"))))
      ≡ false
unfolding same
flag_clear none h = refl
flag_clear (some []) h = refl
flag_clear (some (c ∷ s)) h = cc

module _ (st : IStorage) (raw : Bool) where
  open st use {Db, Sound, held, get_held, held_delete}

  -- In a sound database, DelVar of the lock flag's name unlocks a variable, whoever has locked it, and
  -- also with raw access off. The name has its "vars." in front and no wildcard.
  pub del_var_unlocks :
      (fuel : ℕ) (name : Text) (db : Db)
      → Sound db
      → has_prefix (codes "vars.") name ≡ true
      → has_byte star name ≡ false
      → is_locked st name (del_var st raw (suc fuel) (lock_key name) db).0.0 ≡ false
  unfolding is_locked get_flag delete_variable
  del_var_unlocks fuel name db h pre plain =
      rw
        (
          del_var_plain st raw fuel (lock_key name) db (lock_key_filled name)
              (lock_key-plain name plain),
          controlled-lock_key raw name pre,
          get_held,
        )
        (flag_clear (held (lock_key name) (delete_variable st (lock_key name) db))
          (held_delete (lock_key name) (lock_key name) db h ∙ rw same_path_refl refl))
