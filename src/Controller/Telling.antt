-- ===== src/Controller/Telling.antt =====
-- A client that has just made a call is not given up by the message that answers it.
use variables_and_streams_se.Base.{
  ℕ, List, [], ◌∷◌, ◌++◌, true, false, ◌≡◌, arith, Option, some, none, Bool-cases, inl, inr, ◌≤◌,
  ◌<◌, length,
}
use variables_and_streams_se.Base.Text.{Text}
use variables_and_streams_se.Base.Decimal.{ℤ, pos, negsuc, max_int, minus}
use variables_and_streams_se.Storage.Interface.{IStorage}
use variables_and_streams_se.VarHelper.{controlled_name, is_client_observing}
use variables_and_streams_se.VarHelper.Observers.Spec.{Observation, remove_last}
use variables_and_streams_se.VarHelper.Observers.Refinement.{Represents}
use variables_and_streams_se.ClientHelper.{
  update_live_time, notify, is_connected, time_since_last_live_time, get_last_live_time,
}
use variables_and_streams_se.ClientHelper.Frames.{live_time-keeps}
use variables_and_streams_se.ClientHelper.Apart.{register_live_time}
use variables_and_streams_se.ClientHelper.Observing.{Observing, var_of, live_time-Observing}
use variables_and_streams_se.ClientHelper.Listed.{remove_first}
use variables_and_streams_se.Controller.Clients.{
  World, at_least, answer, register_both, observe_var, tell, after_notify, after_check,
  check_client_live_time, stop_observing_var,
}
use variables_and_streams_se.Controller.Observing.{
  Watched, register_both-Watched, register_both-Observing, keep_set, keep_delete, stop-Watched,
  stop-Observing,
}

no_time_passed : (n : ℕ) (m : ℤ) → at_least m (pos 1) ≡ true → at_least (minus n (pos n)) m ≡ false
unfolding at_least
no_time_passed n (pos m) h = ground arith
no_time_passed n (negsuc m) h = cc

module _ (st : IStorage) (w : World) (waits : at_least w.max_time_waiting_client (pos 1) ≡ true)
    (client : Text) where
  open st use {Db}

  in_time :
      (db : Db)
      → get_last_live_time st client db ≡ pos w.now
      → at_least (time_since_last_live_time st client w.now db) w.max_time_waiting_client ≡ false
  unfolding time_since_last_live_time
  in_time db fresh = rw fresh (no_time_passed w.now w.max_time_waiting_client waits)

  -- Notify and the check behind it write nothing but the time.
  fresh_tell :
      (P : Db → Type 0) (api : Option Text) (payload : List (Text × Text × Text)) (db : Db)
      → ((db' : Db) → P db' → P (update_live_time st client w.now db'))
      → get_last_live_time st client db ≡ pos w.now
      → P db
      → P (tell st w api client payload db)
  unfolding tell after_notify notify answer check_client_live_time after_check is_connected
  fresh_tell P none payload db keep fresh h = rw (in_time db fresh) h
  fresh_tell P (some api) payload db keep fresh h =
      elim (Bool-cases (w.notify_client api client payload)) [
        | inl e ↦ rw (e) (keep db h)
        | inr e ↦ elim (Bool-cases (w.check_alive api client)) [
          | inl e' ↦ rw (e, e') (keep db h)
          | inr e' ↦ rw (e, e', in_time db fresh) h
        ]
      ]

-- What ObserveVar and StopObservingVar are about: the observations of the variable, and the variables of
-- the client.
abbrev pub Linked :
    (st : IStorage) → World → Text → Text → List Observation → List Text → st.Db → Type 0
Linked st w name client xs ys db =
    Represents st (controlled_name w.allow_raw_db_access name) xs db × Observing st client ys db

module _ (st : IStorage) (w : World) (off : w.allow_raw_db_access ≡ false) (name client meta : Text)
    (api : Option Text) where
  open st use {Db}

  live_time-Linked :
      (xs : List Observation) (ys : List Text) (db : Db)
      → Linked st w name client xs ys db
      → Linked st w name client xs ys (update_live_time st client w.now db)
  live_time-Linked xs ys db (h, r) = (
    live_time-keeps st (Watched st w off name xs) (keep_set st w off name xs)
        (keep_delete st w off name xs) client w.now db h,
    live_time-Observing st client w.now ys db r,
  )

  register_both_fresh :
      (db : Db)
      → w.now ≤ max_int
      → get_last_live_time st client (register_both st w name client meta api db) ≡ pos w.now
  unfolding register_both
  register_both_fresh db le = register_live_time st client name w.now _ le

  pub observe_var_links :
      (xs : List Observation) (ys : List Text) (db : Db)
      → at_least w.max_time_waiting_client (pos 1) ≡ true
      → w.now ≤ max_int
      → length xs < max_int
      → length ys < max_int
      → is_client_observing st (controlled_name w.allow_raw_db_access name) client meta db ≡ false
      → Linked st w name client xs ys db
      → Linked st w name client
          (xs ++ (client, meta) ∷ [])
          (ys ++ var_of name ∷ [])
          (observe_var st w name client meta api db).0
  unfolding observe_var
  observe_var_links xs ys db waits le below below' new (h, r) = rw (new) (
      fresh_tell st w waits client
        (Linked st w name client (xs ++ (client, meta) ∷ []) (ys ++ var_of name ∷ [])) api _ _
        (live_time-Linked _ _) (register_both_fresh db le)
        (
          register_both-Watched st w off name client meta api xs db below h,
          register_both-Observing st w off name client meta api xs ys db below' h r,
        ))

  -- With raw access off, StopObservingVar takes the last observation of the client with the metadata
  -- from those of the variable, and the first entry of the variable from those that the client observes.
  pub stop_observing_var_unlinks :
      (xs : List Observation) (ys : List Text) (db : Db)
      → length xs ≤ max_int
      → length ys ≤ max_int
      → Linked st w name client xs ys db
      → Linked st w name client
          (remove_last client meta xs)
          (remove_first (var_of name) ys)
          (stop_observing_var st w name client meta api db)
  stop_observing_var_unlinks xs ys db le le' (h, r) = (
    stop-Watched st w off name client meta api xs db le h,
    stop-Observing st w off name client meta api ys db le' r,
  )
