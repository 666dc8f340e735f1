-- ===== src/VarHelper/Observers/Refinement.antt =====
-- What it means that the database holds a list of observations, and RegisterObservation.
use variables_and_streams_se.Base.{
  ℕ, suc, List, [], ◌∷◌, ◌++◌, ◌==◌, ◌≡◌, refl, arith, if◌then◌else◌, ◌<◌, ◌+◌, length, ◌∙◌, ap,
  length-append,
}
use variables_and_streams_se.Base.Text.{Text}
use variables_and_streams_se.Base.Decimal.{pos, itoa, itoa_nat, max_int}
use variables_and_streams_se.Storage.Interface.{IStorage}
use variables_and_streams_se.VarHelper.Observers.{count, register_observation}
use variables_and_streams_se.VarHelper.Observers.Keys.{by_id_key, count_key}
use variables_and_streams_se.VarHelper.Observers.Laws.{count-set_count}
use variables_and_streams_se.VarHelper.Observers.Spec.{Observation}
use variables_and_streams_se.VarHelper.Observers.Shifting.{
  at, put_entry, at-put_entry, at-set_by_id, at-set_count,
}
use variables_and_streams_se.Base.Reads.{Reads, frame-Reads, Reads-append}

module _ (st : IStorage) (name : Text) where
  open st use {Db, set, Sound, set_sound, delete_sound}

  -- The database holds this list of observations of the variable.
  pub record Represents (xs : List Observation) (db : Db) : Type 0 where
    pub sound : Sound db
    pub counted : count st name db ≡ pos (length xs)
    pub reads : Reads (at st name) 0 xs db

  pub registered :
      (client meta : Text) (n : ℕ) (db : Db)
      → count st name db ≡ pos n
      → register_observation st name client meta db ≡ (
        set
            (count_key name)
            (itoa_nat (suc n))
            (set (by_id_key name client meta) (itoa_nat n) (put_entry st name n (client, meta) db)),
        itoa_nat n,
      )
  unfolding register_observation put_entry itoa
  registered client meta n db e = rw (e) refl

  -- What RegisterObservation leaves, if the count is n.
  abbrev after_register : Text → Text → ℕ → Db → Db
  after_register client meta n db =
      set (count_key name) (itoa_nat (suc n))
        (set (by_id_key name client meta) (itoa_nat n) (put_entry st name n (client, meta) db))

  at-after_register :
      (client meta : Text) (n k : ℕ) (db : Db)
      → at st name k (after_register client meta n db)
        ≡ (if k == n then (client, meta) else at st name k db)
  at-after_register client meta n k db =
      at-set_count st name k (itoa_nat (suc n)) _
      ∙ at-set_by_id st name k client meta (itoa_nat n) _
      ∙ at-put_entry st name k n (client, meta) db

  after_register-sound :
      (client meta : Text) (n : ℕ) (db : Db) → Sound db → Sound (after_register client meta n db)
  unfolding put_entry
  after_register-sound client meta n db h =
      set_sound _ _ _ (set_sound _ _ _ (set_sound _ _ _ (set_sound _ _ _ h)))

  -- RegisterObservation appends, and its id is the number of the new entry.
  pub register-Represents :
      (client meta : Text) (xs : List Observation) (db : Db)
      → length xs < max_int
      → Represents xs db
      → Represents (xs ++ (client, meta) ∷ []) (register_observation st name client meta db).0
        × ((register_observation st name client meta db).1 ≡ itoa_nat (length xs))
  register-Represents client meta xs db lt r =
      rw (registered client meta (length xs) db r.counted) (
        record {
          sound = after_register-sound client meta (length xs) db r.sound;
          counted =
              count-set_count st name (suc (length xs)) _ (omega arith)
              ∙ ap pos (omega (arith, length-append xs ((client, meta) ∷ [])));
          reads =
              Reads-append (at st name) 0 xs (client, meta) _
                (frame-Reads (at st name) 0 xs db _
                  (λ k below. at-after_register client meta (length xs) k db ∙ ground arith)
                  r.reads)
                (at-after_register client meta (length xs) (0 + length xs) db ∙ ground arith);
        },
        refl,
      )
