-- ===== src/VarHelper/Observers/Apart.antt =====
-- The observations of a variable below "vars", and the keys below "internal".
use variables_and_streams_se.Base.{
  ℕ, List, [], ◌∷◌, ◌++◌, true, false, ◌≡◌, ◌≢◌, refl, arith, ◌∙◌, ap, sym, Option, some, none,
  get_or, Bool-cases, inl, inr,
}
use variables_and_streams_se.Base.Text.{Text, codes, same, split, split-append, has_prefix}
use variables_and_streams_se.Base.Decimal.{get_int64, atoi, scan, magnitude, from_magnitude}
use variables_and_streams_se.Base.Reads.{frame-Reads}
use variables_and_streams_se.Storage.Path.{dot, scroll_path, scroll_path-dot, is_prefix, same_path}
use variables_and_streams_se.Storage.Interface.{IStorage}
use variables_and_streams_se.Storage.Gets.{get_other, get_deleted}
use variables_and_streams_se.VarHelper.{controlled_name}
use variables_and_streams_se.VarHelper.Observers.{count, entry}
use variables_and_streams_se.VarHelper.Observers.Keys.{Field, entry_path, count_key, count_path}
use variables_and_streams_se.VarHelper.Observers.Spec.{Observation}
use variables_and_streams_se.VarHelper.Observers.Shifting.{at, at_lem}
use variables_and_streams_se.VarHelper.Observers.Refinement.{Represents}

abbrev internal_key : Text → Text
internal_key rest = codes "internal." ++ rest

internal_path :
    (rest : Text)
    → rest ≢ []
    → scroll_path (internal_key rest) ≡ codes "internal" ∷ scroll_path rest
internal_path rest ne = scroll_path-dot (codes "internal") rest (omega arith) ne

prefix_rest : (p s : Text) → has_prefix p s ≡ true → (t : Text) × (s ≡ p ++ t)
unfolding has_prefix
prefix_rest [] s h = (s, refl)
prefix_rest (a ∷ p) [] h = cc
prefix_rest (a ∷ p) (b ∷ s) h = let (t, e) = prefix_rest p s (ground arith) in (t, ground arith)

behind_vars : (t : Text) → split dot (codes "vars." ++ t) ≡ codes "vars" ∷ split dot t
behind_vars t = split-append dot (codes "vars") t (omega arith)

-- The name of a variable begins with "vars", if raw access is off.
pub vars_split :
    (name : Text) → (ps : List Text) × (split dot (controlled_name false name) ≡ codes "vars" ∷ ps)
unfolding controlled_name
vars_split name = elim (Bool-cases (has_prefix (codes "vars.") name)) [
  | inl e ↦
      let (t, f) = prefix_rest (codes "vars.") name e in
      (split dot t, rw e (ap (split dot) f ∙ behind_vars t))
  | inr e ↦ (split dot name, rw e (behind_vars name))
]

number_or_zero : (v : Option Text) → get_int64 (get_or v (codes "0")) ≡ get_int64 (get_or v [])
unfolding get_int64 atoi scan magnitude from_magnitude
number_or_zero none = refl
number_or_zero (some s) = refl

-- A number is the same with "0" as with nothing as the default.
count_default :
    (st : IStorage) (key : Text) (db : st.Db)
    → get_int64 (st.get key (codes "0") db) ≡ get_int64 (st.get key [] db)
count_default st key db = rw (st.get_held, st.get_held) (number_or_zero (st.held key db))

module _ (st : IStorage) (name : Text) (ps : List Text)
    (e : split dot name ≡ codes "vars" ∷ ps) where
  open st use {Db, set, get, delete_value, Sound, set_sound, delete_sound}

  apart :
      (key rest : Text) (q : List Text)
      → scroll_path key ≡ split dot name ++ q
      → rest ≢ []
      → is_prefix (scroll_path key) (scroll_path (internal_key rest)) ≡ false
  unfolding is_prefix same
  apart key rest q f ne = rw (f, e, internal_path rest ne) refl

  apart_same :
      (key rest : Text) (q : List Text)
      → scroll_path key ≡ split dot name ++ q
      → rest ≢ []
      → same_path (scroll_path (internal_key rest)) (scroll_path key) ≡ false
  unfolding same_path same
  apart_same key rest q f ne = rw (f, e, internal_path rest ne) refl

  frame-Represents :
      (xs : List Observation) (db db' : Db)
      → Sound db'
      → count st name db' ≡ count st name db
      → ((i : ℕ) (f : Field) → entry st name f i db' ≡ entry st name f i db)
      → Represents st name xs db
      → Represents st name xs db'
  frame-Represents xs db db' s c g r = record {
    sound = s;
    counted = c ∙ r.counted;
    reads = frame-Reads (at st name) 0 xs db db' (λ k lt. at_lem st name k db' db (g k)) r.reads;
  }

  pub set_internal :
      (xs : List Observation) (rest v : Text) (db : Db)
      → rest ≢ []
      → Represents st name xs db
      → Represents st name xs (set (internal_key rest) v db)
  set_internal xs rest v db ne r =
      frame-Represents xs db _ (set_sound _ _ _ r.sound)
        (unfold count in
          ap get_int64 (
            get_other st (internal_key rest) _ v (codes "0") db
              (apart _ rest _ (count_path name) ne)))
        (λ i f.
          unfold entry in
          get_other st (internal_key rest) _ v [] db (apart _ rest _ (entry_path name i f) ne))
        r

  pub delete_internal :
      (xs : List Observation) (rest : Text) (db : Db)
      → rest ≢ []
      → Represents st name xs db
      → Represents st name xs (delete_value (internal_key rest) false db)
  delete_internal xs rest db ne r =
      frame-Represents xs db _ (delete_sound _ _ _ r.sound)
        (unfold count in
          (count_default st (count_key name) _
            ∙ ap get_int64 (
                get_deleted st (internal_key rest) (count_key name) db r.sound
                ∙ rw (apart_same _ rest _ (count_path name) ne) refl)
            ∙ sym (count_default st (count_key name) db)))
        (λ i f.
          unfold entry in
          (get_deleted st (internal_key rest) _ db r.sound
            ∙ rw (apart_same _ rest _ (entry_path name i f) ne) refl))
        r
