-- ===== src/ClientHelper/Apart.antt =====
-- The list of the variables that a client observes under the changes that are not meant for it.
use variables_and_streams_se.Base.{
  ℕ, List, [], ◌∷◌, ◌++◌, true, false, ◌≡◌, ◌≢◌, refl, arith, ◌∙◌, ap, Option, some, none,
  Bool-cases, inl, inr, length, ◌≤◌, ◌<◌, append_assoc, length-append,
}
use variables_and_streams_se.Base.Text.{Text, codes, same, split, onto_first}
use variables_and_streams_se.Base.Decimal.{
  ℤ, pos, negsuc, itoa, itoa_nat, itoa_nat-ne-nil, get_int64, get_int64-itoa_nat, max_int,
}
use variables_and_streams_se.Storage.Path.{dot, scroll, scroll_path, is_prefix, is_prefix-append}
use variables_and_streams_se.Storage.Interface.{IStorage}
use variables_and_streams_se.Storage.Gets.{get_set, get_other}
use variables_and_streams_se.VarHelper.Observers.Keys.{client_nodes}
use variables_and_streams_se.ClientHelper.{
  update_live_time, enlist, set_api, initialize, register_new_observation, get_last_live_time,
}
use variables_and_streams_se.ClientHelper.Keys.{
  client_key, api_id_key, last_live_time_key, list_key, list_count_key,
}
use variables_and_streams_se.ClientHelper.Listed.{set-Listed, delete-Listed}
use variables_and_streams_se.ClientHelper.Paths.{
  observing_nodes, client_path, client_key_path, observing_base, observing_key_path,
  observing_count_path, live_time_path, api_id_path, list_count_path, list_key_nodes,
}
use variables_and_streams_se.ClientHelper.Observing.{
  Observing, beside_observing, live_time-Observing,
}

is_prefix_longer : (p q : List Text) → length q < length p → is_prefix p q ≡ false
unfolding is_prefix
is_prefix_longer [] q h = absurd (omega arith)
is_prefix_longer (a ∷ p) [] h = refl
is_prefix_longer (a ∷ p) (b ∷ q) h = ground (arith, is_prefix_longer p q)

length-onto_first : (c : ℕ) (ps : List Text) → length ps ≤ length (onto_first c ps)
unfolding onto_first
length-onto_first c [] = omega arith
length-onto_first c (p ∷ ps) = omega arith

scroll_short : (curr s : Text) → length (scroll curr s) ≤ length (split dot s)
unfolding scroll split
scroll_short curr [] = omega arith
scroll_short curr (c ∷ s) =
    ground
      (arith, scroll_short [] s, scroll_short (curr ++ c ∷ []) s, length-onto_first c (split dot s))

nodes_short : (client : Text) → length (client_nodes client) ≤ length (split dot client)
unfolding scroll_path
nodes_short [] = omega arith
nodes_short (c ∷ client) = scroll_short [] (c ∷ client)

above_observing :
    (client s : Text)
    → is_prefix (observing_base client ++ s ∷ []) (scroll_path (client_key client)) ≡ false
above_observing client s = is_prefix_longer _ _ (
    rw
      (
        client_key_path,
        length-append (observing_base client) (s ∷ []),
        length-append (client_path client) (codes "observing" ∷ []),
      )
      (omega (arith, nodes_short client)))

beside_live_time :
    (client key : Text) (q : List Text)
    → scroll_path key ≡ observing_base client ++ q
    → is_prefix (client_path client ++ codes "lastLiveTime" ∷ []) (scroll_path key) ≡ false
beside_live_time client key q e =
    rw (e, append_assoc (client_path client) (codes "observing" ∷ []) q, is_prefix-append)
      (unfold is_prefix same in refl)

itoa-ne-nil : (n : ℤ) → itoa n ≢ []
unfolding itoa
itoa-ne-nil (pos n) = itoa_nat-ne-nil n
itoa-ne-nil (negsuc n) = cc

module _ (st : IStorage) (client : Text) where
  open st use {Db, set, get, has_value, delete_value}

  -- A write to a key that is not below the list.
  pub set_beside :
      (key v : Text) (xs : List Text) (db : Db)
      → ((s : Text) → is_prefix (observing_base client ++ s ∷ []) (scroll_path key) ≡ false)
      → Observing st client xs db
      → Observing st client xs (set key v db)
  set_beside key v xs db apart r =
      set-Listed st _ _ (observing_base client) (observing_key_path client)
        (observing_count_path client) key v xs db apart r

  pub delete_beside :
      (key : Text) (xs : List Text) (db : Db)
      → ((s : Text) → is_prefix (scroll_path key) (observing_base client ++ s ∷ []) ≡ false)
      → Observing st client xs db
      → Observing st client xs (delete_value key true db)
  delete_beside key xs db apart r =
      delete-Listed st _ _ (observing_base client) (observing_key_path client)
        (observing_count_path client) key xs db apart r

  enlist-Observing :
      (xs : List Text) (db : Db)
      → Observing st client xs db
      → Observing st client xs (enlist st client db)
  unfolding enlist is_prefix same
  enlist-Observing xs db r =
      let cnt = get_int64 (get list_count_key (codes "0") db) in
      set_beside (client_key client) _ xs _ (above_observing client) (
        set_beside (list_key (itoa cnt)) _ xs _
          (λ s. rw (list_key_nodes (itoa cnt) (itoa-ne-nil cnt)) refl)
          (set_beside list_count_key _ xs _ (λ s. rw list_count_path refl) r))

  api-Observing :
      (api : Option Text) (xs : List Text) (db : Db)
      → Observing st client xs db
      → Observing st client xs (set_api st client api db)
  unfolding set_api
  api-Observing none xs db r = r
  api-Observing (some api_id) xs db r =
      set_beside (api_id_key client) _ xs _
        (λ s. rw api_id_path (beside_observing client s (codes "apiId") (unfold same in refl))) r

  pub initialize-Observing :
      (api : Option Text) (now : ℕ) (xs : List Text) (db : Db)
      → Observing st client xs db
      → Observing st client xs (initialize st client api now db)
  unfolding initialize
  initialize-Observing api now xs db r = elim (Bool-cases (has_value (client_key client) db)) [
    | inl e ↦ rw (e) (live_time-Observing st client now xs _ (api-Observing api xs _ r))
    | inr e ↦
        rw (e) (
          live_time-Observing st client now xs _
            (api-Observing api xs _ (enlist-Observing xs db r)))
  ]

  -- A registration of the client's leaves the time at which it comes.
  pub register_live_time :
      (name : Text) (now : ℕ) (db : Db)
      → now ≤ max_int
      → get_last_live_time st client (register_new_observation st client name now db) ≡ pos now
  unfolding get_last_live_time register_new_observation update_live_time
  register_live_time name now db le =
      ap get_int64 (
        get_other st _ (last_live_time_key client) _ (codes "0") _ (
          rw live_time_path
            (beside_live_time client _ _ (observing_nodes client _ (itoa-ne-nil _))))
        ∙ get_other st _ (last_live_time_key client) _ (codes "0") _
            (rw live_time_path (beside_live_time client _ _ (observing_count_path client)))
        ∙ get_set st (last_live_time_key client) (itoa_nat now) (codes "0") db)
      ∙ get_int64-itoa_nat now le
