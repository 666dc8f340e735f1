-- ===== src/ClientHelper/Observing.antt =====
-- The list of the variables that a client observes: RegisterNewObservation and UnregisterObservation.
use variables_and_streams_se.Base.{
  ℕ, List, [], ◌∷◌, ◌++◌, false, ◌≡◌, refl, arith, ◌≤◌, ◌<◌, length, ap, some, none, Option,
  append_assoc, sym,
}
use variables_and_streams_se.Base.Text.{Text, codes, same}
use variables_and_streams_se.Base.Decimal.{ℤ, pos, itoa_nat, max_int}
use variables_and_streams_se.Storage.Path.{is_prefix, is_prefix-append}
use variables_and_streams_se.Storage.Interface.{IStorage}
use variables_and_streams_se.ClientHelper.{
  update_live_time, get_observing_vars_count, register_new_observation, unregister_observation,
  find_var_index_on_observing_vars, forget_at,
}
use variables_and_streams_se.ClientHelper.Keys.{
  observing_key, observing_count_key, last_live_time_key,
}
use variables_and_streams_se.ClientHelper.Listed.{
  Listed, append_item, append-Listed, close_gap-Listed, set-Listed, find_from-Reads, index_of,
  remove_first, index_of_find, remove_first-none,
}
use variables_and_streams_se.ClientHelper.Paths.{
  client_path, observing_base, observing_key_path, observing_count_path, live_time_path,
}

abbrev pub var_of : Text → Text
var_of var_name = codes "vars." ++ var_name

-- A node of the client beside "observing" is not below it.
pub beside_observing :
    (client s word : Text)
    → same (codes "observing") word ≡ false
    → is_prefix (observing_base client ++ s ∷ []) (client_path client ++ word ∷ []) ≡ false
beside_observing client s word h =
    rw (append_assoc (client_path client) (codes "observing" ∷ []) (s ∷ []), is_prefix-append)
      (unfold is_prefix in rw h refl)

module _ (st : IStorage) (client : Text) where
  open st use {Db, set, get}

  -- The database holds this list of the variables that the client observes.
  abbrev pub Observing : List Text → Db → Type 0
  Observing = Listed st (observing_key client) (observing_count_key client)

  pub live_time-Observing :
      (now : ℕ) (xs : List Text) (db : Db)
      → Observing xs db
      → Observing xs (update_live_time st client now db)
  unfolding update_live_time
  live_time-Observing now xs db r =
      set-Listed st (observing_key client) (observing_count_key client) (observing_base client)
        (observing_key_path client) (observing_count_path client) (last_live_time_key client)
        (itoa_nat now) xs db
        (λ s.
          rw live_time_path
            (beside_observing client s (codes "lastLiveTime") (unfold same in refl)))
        r

  registered :
      (var_name : Text) (now n : ℕ) (db : Db)
      → get_observing_vars_count st client (update_live_time st client now db) ≡ pos n
      → register_new_observation st client var_name now db
        ≡ append_item st
            (observing_key client)
            (observing_count_key client)
            (var_of var_name)
            (pos n)
            (update_live_time st client now db)
  unfolding register_new_observation append_item
  registered var_name now n db e =
      ap
        (λ (m : ℤ).
          append_item st (observing_key client) (observing_count_key client) (var_of var_name) m
            (update_live_time st client now db))
        e

  -- RegisterNewObservation appends the variable.
  pub register-Observing :
      (var_name : Text) (now : ℕ) (xs : List Text) (db : Db)
      → length xs < max_int
      → Observing xs db
      → Observing (xs ++ var_of var_name ∷ []) (register_new_observation st client var_name now db)
  unfolding get_observing_vars_count
  register-Observing var_name now xs db lt r =
      let alive = live_time-Observing now xs db r in
      rw (registered var_name now (length xs) db alive.counted) (
        append-Listed st (observing_key client) (observing_count_key client) (observing_base client)
          (observing_key_path client) (observing_count_path client) (var_of var_name) xs _ lt alive)

  found :
      (x : Text) (xs : List Text) (db : Db)
      → Observing xs db
      → find_var_index_on_observing_vars st client x db ≡ index_of 0 x xs
  unfolding find_var_index_on_observing_vars get_observing_vars_count
  found x xs db r =
      rw r.counted
        (find_from-Reads st (observing_key client) (observing_count_key client) xs 0 x db r.reads)

  forget_at-Observing :
      (x : Text) (i : Option ℕ) (xs : List Text) (db : Db)
      → index_of 0 x xs ≡ i
      → length xs ≤ max_int
      → Observing xs db
      → Observing (remove_first x xs) (forget_at st client i db)
  unfolding get_observing_vars_count forget_at
  forget_at-Observing x none xs db e le r = rw (remove_first-none x xs 0 e) r
  forget_at-Observing x (some i) xs db e le r =
      let (k, at, lt, less) = index_of_find x xs 0 i e in
      let here : i ≡ k = omega arith in
      rw (r.counted, here, sym less)
        (close_gap-Listed st (observing_key client) (observing_count_key client)
          (observing_base client) (observing_key_path client) (observing_count_path client) k xs db
          le lt r)

  -- UnregisterObservation removes the first that is the variable.
  pub unregister-Observing :
      (var_name : Text) (now : ℕ) (xs : List Text) (db : Db)
      → length xs ≤ max_int
      → Observing xs db
      → Observing
          (remove_first (var_of var_name) xs)
          (unregister_observation st client var_name now db)
  unfolding unregister_observation
  unregister-Observing var_name now xs db le r =
      let alive = live_time-Observing now xs db r in
      rw (found (var_of var_name) xs _ alive)
        (forget_at-Observing (var_of var_name) _ xs _ refl le alive)
