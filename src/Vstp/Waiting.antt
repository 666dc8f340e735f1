-- ===== src/Vstp/Waiting.antt =====
-- The deadline of a lock command.
use variables_and_streams_se.Base.{ℕ, [], ◌∷◌, true, false, ◌≡◌, refl, some}
use variables_and_streams_se.Base.Text.{Text, codes}
use variables_and_streams_se.Base.Decimal.{negsuc}
use variables_and_streams_se.Storage.Interface.{IStorage}
use variables_and_streams_se.VarHelper.{
  controlled_name, is_locked, lock, try_lock, lock_until, enough_rounds, passed, max_timeout,
  from_bits, or_default, Nap,
}
use variables_and_streams_se.VarHelper.Locking.{try_lock_lem}
use native.Mathlib.Omega.{arith}
use variables_and_streams_se.Controller.Reading.{lock_var}
use variables_and_streams_se.Vstp.{separate_key_and_value}
use variables_and_streams_se.Vstp.Clients.{ClientMaps}
use variables_and_streams_se.Vstp.Commands
use variables_and_streams_se.Vstp.Commands.{framed, to_cli, result_line, lock_timeout, lock_error}
use variables_and_streams_se.Vstp.Processing.{Setting, process_lock, answered}

-- The greatest timeout overflows the nanoseconds of a duration.
no_timeout : max_timeout (lock_timeout []) ≡ negsuc 999999
unfolding max_timeout lock_timeout from_bits or_default
no_timeout = refl

module _ (st : IStorage) (s : Setting st) (cli : ℕ) where
  open st use {Db}

  -- A deadline that is not positive has passed at the first look.
  expired :
      (name : Text) (n since : ℕ) (naps : ℕ → Nap Db) (db : Db)
      → is_locked st name db ≡ true
      → lock_until st 1 name (negsuc n) since naps db ≡ (db, false)
  unfolding lock_until passed try_lock
  expired name n since naps db h = ground (arith, try_lock_lem st name db)

  locked_at_once :
      (name : Text) (db : Db)
      → is_locked st (controlled_name s.limits.allow_raw_db_access name) db ≡ true
      → lock_var st s.limits.allow_raw_db_access name (lock_timeout []) s.naps db ≡ (db, false)
  unfolding lock_var lock enough_rounds
  locked_at_once name db h = rw no_timeout (expired _ 999999 0 s.naps db h)

  -- A lock command with no timeout on a locked variable fails at once, with the database as it is, whatever
  -- others would do while it waits.
  pub process_lock_gives_up :
      (name payload : Text) (v : ClientMaps) (db : Db)
      → separate_key_and_value payload ≡ (name, [])
      → is_locked st (controlled_name s.limits.allow_raw_db_access name) db ≡ true
      → ((process_lock st s cli payload v db).db ≡ db)
        × ((process_lock st s cli payload v db).written
            ≡ to_cli cli (
                framed Commands.lock_var payload
                  (result_line (codes "lockresult") name (some (codes "timeout reached")) ∷ [])))
  unfolding process_lock answered lock_error
  process_lock_gives_up name payload v db e h = rw (e, locked_at_once name db h) (refl, refl)
