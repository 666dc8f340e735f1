-- ===== src/VarHelper/Observers/Runs.antt =====
-- Any sequence of the methods on a variable's observations, each inside the variable's named lock.
use variables_and_streams_se.Base.{
  ℕ, suc, List, [], ◌∷◌, ◌++◌, ◌≡◌, refl, arith, ◌≤◌, ◌+◌, length, length-append,
}
use variables_and_streams_se.Base.Text.{Text}
use variables_and_streams_se.Base.Decimal.{max_int}
use variables_and_streams_se.Storage.Interface.{IStorage}
use variables_and_streams_se.VarHelper.Observers.{
  register_observation, observing_from, get_all_observing_clients, internal_remove_observing,
  remove_all_client_observations, remove_all_observations,
}
use variables_and_streams_se.VarHelper.Observers.Spec.{
  Observation, remove_last, drop_client, numbered,
}
use variables_and_streams_se.VarHelper.Observers.Shifting.{at}
use variables_and_streams_se.Base.Reads.{Reads}
use variables_and_streams_se.VarHelper.Observers.Refinement.{Represents, register-Represents}
use variables_and_streams_se.VarHelper.Observers.Removal.{
  remove-Represents, remove_client-Represents, remove_all-Represents,
}

pub data Request : Type 0 where
  register : (client meta : Text) → Request
  remove : (client meta : Text) → Request
  remove_client : (client : Text) → Request
  remove_all : Request

-- What a request means for the list.
unfoldable pub on_list : Request → List Observation → List Observation
on_list (register client meta) xs = xs ++ (client, meta) ∷ []
on_list (remove client meta) xs = remove_last client meta xs
on_list (remove_client client) xs = drop_client client xs
on_list remove_all xs = []

unfoldable pub on_list_all : List Request → List Observation → List Observation
on_list_all [] xs = xs
on_list_all (r ∷ rs) xs = on_list_all rs (on_list r xs)

remove_last_short :
    (client meta : Text) (xs : List Observation) → length (remove_last client meta xs) ≤ length xs
unfolding remove_last
remove_last_short client meta [] = omega arith
remove_last_short client meta (x ∷ xs) = ground (arith, remove_last_short client meta xs)

drop_client_short :
    (client : Text) (xs : List Observation) → length (drop_client client xs) ≤ length xs
unfolding drop_client
drop_client_short client [] = omega arith
drop_client_short client (x ∷ xs) = ground (arith, drop_client_short client xs)

on_list_short : (r : Request) (xs : List Observation) → length (on_list r xs) ≤ suc (length xs)
unfolding on_list
on_list_short (register client meta) xs = omega (arith, length-append xs ((client, meta) ∷ []))
on_list_short (remove client meta) xs = omega (arith, remove_last_short client meta xs)
on_list_short (remove_client client) xs = omega (arith, drop_client_short client xs)
on_list_short remove_all xs = omega arith

module _ (st : IStorage) (name : Text) where
  open st use {Db}

  unfoldable pub perform : Request → Db → Db
  perform (register client meta) db = (register_observation st name client meta db).0
  perform (remove client meta) db = internal_remove_observing st name client meta db
  perform (remove_client client) db = remove_all_client_observations st name client db
  perform remove_all db = remove_all_observations st name db

  unfoldable pub perform_all : List Request → Db → Db
  perform_all [] db = db
  perform_all (r ∷ rs) db = perform_all rs (perform r db)

  perform-Represents :
      (r : Request) (xs : List Observation) (db : Db)
      → length xs + 1 ≤ max_int
      → Represents st name xs db
      → Represents st name (on_list r xs) (perform r db)
  unfolding perform on_list
  perform-Represents (register client meta) xs db le h =
      (register-Represents st name client meta xs db (omega arith) h).0
  perform-Represents (remove client meta) xs db le h =
      remove-Represents st name client meta xs db h (omega arith)
  perform-Represents (remove_client client) xs db le h =
      remove_client-Represents st name client xs db h (omega arith)
  perform-Represents remove_all xs db le h = remove_all-Represents st name xs db h

  -- The database holds what the requests make of the list.
  pub perform_all-Represents :
      (rs : List Request) (xs : List Observation) (db : Db)
      → length xs + length rs ≤ max_int
      → Represents st name xs db
      → Represents st name (on_list_all rs xs) (perform_all rs db)
  unfolding perform_all on_list_all
  perform_all-Represents [] xs db le h = h
  perform_all-Represents (r ∷ rs) xs db le h =
      perform_all-Represents rs (on_list r xs) (perform r db) (omega (arith, on_list_short r xs))
        (perform-Represents r xs db (omega arith) h)

  observing-Reads :
      (i : ℕ) (xs : List Observation) (db : Db)
      → Reads (at st name) i xs db
      → observing_from st name i (length xs) db ≡ numbered i xs
  unfolding observing_from numbered at
  observing-Reads i [] db r = refl
  observing-Reads i (x ∷ xs) db (h, r) = ground (arith, observing-Reads (suc i) xs db r)

  -- GetAllObservingClients lists what is held, numbered, but for the observations of an empty client.
  pub observing-Represents :
      (xs : List Observation) (db : Db)
      → Represents st name xs db
      → get_all_observing_clients st name db ≡ numbered 0 xs
  unfolding get_all_observing_clients
  observing-Represents xs db h = rw (h.counted) (observing-Reads 0 xs db h.reads)

  -- From a database that holds a list of observations of the variable, after any sequence of
  -- registrations and removals that cannot overflow the count, GetAllObservingClients returns the
  -- numbered entries of the list that the requests make: a registration appends, a removal takes the
  -- last entry with the client and metadata, and the order of the others is kept. Entries of an empty
  -- client are left out.
  pub observers_refine :
      (rs : List Request) (xs : List Observation) (db : Db)
      → length xs + length rs ≤ max_int
      → Represents st name xs db
      → get_all_observing_clients st name (perform_all rs db) ≡ numbered 0 (on_list_all rs xs)
  observers_refine rs xs db le h =
      observing-Represents (on_list_all rs xs) (perform_all rs db)
        (perform_all-Represents rs xs db le h)
