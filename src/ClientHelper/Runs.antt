-- ===== src/ClientHelper/Runs.antt =====
-- The calls that a client helper gets, one after the other, in the database and on the list of the
-- variables that the client observes.
use variables_and_streams_se.Base.{
  ℕ, List, [], ◌∷◌, ◌++◌, Bool, true, false, arith, ◌≤◌, ◌<◌, ◌+◌, length, Option, some, none,
  length-append,
}
use variables_and_streams_se.Base.Text.{Text}
use variables_and_streams_se.Base.Decimal.{max_int}
use variables_and_streams_se.Storage.Interface.{IStorage}
use variables_and_streams_se.ClientHelper.{
  register_new_observation, unregister_observation, notify, is_connected,
}
use variables_and_streams_se.ClientHelper.Listed.{remove_first}
use variables_and_streams_se.ClientHelper.Observing.{
  Observing, var_of, live_time-Observing, register-Observing, unregister-Observing,
}

-- A call, with the time at which it comes, and what the client's API answers to it.
pub data Call : Type 0 where
  observe forget : Text → ℕ → Call
  notify_client check_alive : Option Text → Bool → ℕ → Call

-- What a call makes of the list.
unfoldable pub on_vars : Call → List Text → List Text
on_vars (observe v now) xs = xs ++ var_of v ∷ []
on_vars (forget v now) xs = remove_first (var_of v) xs
on_vars (notify_client api sent now) xs = xs
on_vars (check_alive api alive now) xs = xs

unfoldable pub on_vars_all : List Call → List Text → List Text
on_vars_all [] xs = xs
on_vars_all (c ∷ cs) xs = on_vars_all cs (on_vars c xs)

length-remove_first : (x : Text) (xs : List Text) → length (remove_first x xs) ≤ length xs
unfolding remove_first
length-remove_first x [] = omega arith
length-remove_first x (y ∷ xs) = ground (arith, length-remove_first x xs)

length-on_vars : (c : Call) (xs : List Text) → length (on_vars c xs) ≤ length xs + 1
unfolding on_vars
length-on_vars (observe v now) xs = omega (arith, length-append xs (var_of v ∷ []))
length-on_vars (forget v now) xs = omega (arith, length-remove_first (var_of v) xs)
length-on_vars (notify_client api sent now) xs = omega arith
length-on_vars (check_alive api alive now) xs = omega arith

module _ (st : IStorage) (client : Text) where
  open st use {Db}

  unfoldable pub perform_call : Call → Db → Db
  perform_call (observe v now) db = register_new_observation st client v now db
  perform_call (forget v now) db = unregister_observation st client v now db
  perform_call (notify_client api sent now) db = (notify st client api sent now db).0
  perform_call (check_alive api alive now) db = (is_connected st client api alive now db).0

  unfoldable pub perform_calls : List Call → Db → Db
  perform_calls [] db = db
  perform_calls (c ∷ cs) db = perform_calls cs (perform_call c db)

  call-Observing :
      (c : Call) (xs : List Text) (db : Db)
      → length xs < max_int
      → Observing st client xs db
      → Observing st client (on_vars c xs) (perform_call c db)
  unfolding perform_call on_vars notify is_connected
  call-Observing (observe v now) xs db lt r = register-Observing st client v now xs db lt r
  call-Observing (forget v now) xs db lt r =
      unregister-Observing st client v now xs db (omega arith) r
  call-Observing (notify_client none sent now) xs db lt r = r
  call-Observing (notify_client (some api) true now) xs db lt r =
      live_time-Observing st client now xs db r
  call-Observing (notify_client (some api) false now) xs db lt r = r
  call-Observing (check_alive none alive now) xs db lt r = r
  call-Observing (check_alive (some api) true now) xs db lt r =
      live_time-Observing st client now xs db r
  call-Observing (check_alive (some api) false now) xs db lt r = r

  pub client_refines :
      (cs : List Call) (xs : List Text) (db : Db)
      → length xs + length cs ≤ max_int
      → Observing st client xs db
      → Observing st client (on_vars_all cs xs) (perform_calls cs db)
  unfolding perform_calls on_vars_all
  client_refines [] xs db le r = r
  client_refines (c ∷ cs) xs db le r =
      client_refines cs (on_vars c xs) _ (omega (arith, length-on_vars c xs))
        (call-Observing c xs db (omega arith) r)
