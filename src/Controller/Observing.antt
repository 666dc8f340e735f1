-- ===== src/Controller/Observing.antt =====
-- What `ObserveVar` and `StopObservingVar` leave at the variable and at the client.
use variables_and_streams_se.Base.{
  List, [], ◌∷◌, ◌++◌, true, false, ◌≡◌, ◌≢◌, refl, Option, ◌≤◌, ◌<◌, length,
}
use variables_and_streams_se.Base.Text.{Text, codes, same, split}
use variables_and_streams_se.Base.Decimal.{max_int}
use variables_and_streams_se.Storage.Path.{dot, scroll_path, is_prefix}
use variables_and_streams_se.Storage.Interface.{IStorage}
use variables_and_streams_se.VarHelper.{controlled_name}
use variables_and_streams_se.VarHelper.Observers.Spec.{Observation, remove_last}
use variables_and_streams_se.VarHelper.Observers.Refinement.{Represents, register-Represents}
use variables_and_streams_se.VarHelper.Observers.Removal.{remove-Represents}
use variables_and_streams_se.VarHelper.Observers.Apart.{vars_split, set_internal, delete_internal}
use variables_and_streams_se.ClientHelper.Frames.{
  initialize-keeps, register-keeps, unregister-keeps,
}
use variables_and_streams_se.ClientHelper.Listed.{remove_first}
use variables_and_streams_se.ClientHelper.Observing.{
  Observing, var_of, register-Observing, unregister-Observing,
}
use variables_and_streams_se.ClientHelper.Apart.{set_beside, delete_beside, initialize-Observing}
use variables_and_streams_se.VarHelper.Observers.Frames
use variables_and_streams_se.Controller.Clients.{World, register_both, stop_observing_var}

module _ (st : IStorage) (w : World) (off : w.allow_raw_db_access ≡ false) (name : Text) where
  open st use {Db, set, get, delete_value}

  abbrev pub Watched : List Observation → Db → Type 0
  Watched = Represents st (controlled_name w.allow_raw_db_access name)

  watched_split :
      (ps : List Text) × (split dot (controlled_name w.allow_raw_db_access name)
        ≡ codes "vars" ∷ ps)
  watched_split = rw off (vars_split name)

  pub keep_set :
      (xs : List Observation) (rest v : Text) (db : Db)
      → rest ≢ []
      → Watched xs db
      → Watched xs (set (codes "internal." ++ rest) v db)
  keep_set xs rest v db ne r = set_internal st _ _ watched_split.1 xs rest v db ne r

  pub keep_delete :
      (xs : List Observation) (rest : Text) (db : Db)
      → rest ≢ []
      → Watched xs db
      → Watched xs (delete_value (codes "internal." ++ rest) false db)
  keep_delete xs rest db ne r = delete_internal st _ _ watched_split.1 xs rest db ne r

  module _ (client meta : Text) (api : Option Text) where
    pub register_both-Watched :
        (xs : List Observation) (db : Db)
        → length xs < max_int
        → Watched xs db
        → Watched (xs ++ (client, meta) ∷ []) (register_both st w name client meta api db)
    unfolding register_both
    register_both-Watched xs db lt r =
        let known =
          initialize-keeps st (Watched xs) (keep_set xs) (keep_delete xs) client api w.now db r in
        let added = register-Represents st _ client meta xs _ lt known in
        let ys = xs ++ (client, meta) ∷ [] in
        register-keeps st (Watched ys) (keep_set ys) (keep_delete ys) client name w.now _ added.0

    pub stop-Watched :
        (xs : List Observation) (db : Db)
        → length xs ≤ max_int
        → Watched xs db
        → Watched (remove_last client meta xs) (stop_observing_var st w name client meta api db)
    unfolding stop_observing_var
    stop-Watched xs db le r =
        let ys = remove_last client meta xs in
        let less = remove-Represents st _ client meta xs db r le in
        let known =
          initialize-keeps st (Watched ys) (keep_set ys) (keep_delete ys) client api w.now _ less in
        unregister-keeps st (Watched ys) (keep_set ys) (keep_delete ys) client name w.now _ known

    -- The changes of the variable's observations pass by the client's list.
    var_set_keeps :
        (ys : List Text) (key v : Text) (q : List Text) (db : Db)
        → scroll_path key ≡ split dot (controlled_name w.allow_raw_db_access name) ++ q
        → Observing st client ys db
        → Observing st client ys (set key v db)
    unfolding is_prefix same
    var_set_keeps ys key v q db e r =
        set_beside st client key v ys db (λ s. rw (e, watched_split.1) refl) r

    var_delete_keeps :
        (ys : List Text) (key : Text) (q : List Text) (db : Db)
        → scroll_path key ≡ split dot (controlled_name w.allow_raw_db_access name) ++ q
        → Observing st client ys db
        → Observing st client ys (delete_value key true db)
    unfolding is_prefix same
    var_delete_keeps ys key q db e r =
        delete_beside st client key ys db (λ s. rw (e, watched_split.1) refl) r

    pub register_both-Observing :
        (xs : List Observation) (ys : List Text) (db : Db)
        → length ys < max_int
        → Watched xs db
        → Observing st client ys db
        → Observing st client (ys ++ var_of name ∷ []) (register_both st w name client meta api db)
    unfolding register_both
    register_both-Observing xs ys db lt h r =
        let known =
          initialize-keeps st (Watched xs) (keep_set xs) (keep_delete xs) client api w.now db h in
        register-Observing st client name w.now ys _ lt (
          Frames.register-keeps st _ (Observing st client ys) (var_set_keeps ys)
            (var_delete_keeps ys) client meta (length xs) _ known.counted
            (initialize-Observing st client api w.now ys db r))

    pub stop-Observing :
        (ys : List Text) (db : Db)
        → length ys ≤ max_int
        → Observing st client ys db
        → Observing st client
            (remove_first (var_of name) ys)
            (stop_observing_var st w name client meta api db)
    unfolding stop_observing_var
    stop-Observing ys db le r = unregister-Observing st client name w.now ys _ le (
        initialize-Observing st client api w.now ys _ (
          Frames.remove-keeps st _ (Observing st client ys) (var_set_keeps ys) (var_delete_keeps ys)
            client meta db r))
