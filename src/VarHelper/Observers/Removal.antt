-- ===== src/VarHelper/Observers/Removal.antt =====
-- The methods that remove observations of a variable, as operations on the list of them.
use variables_and_streams_se.Base.{
  ℕ, zero, suc, List, [], ◌∷◌, false, ◌≡◌, refl, arith, if◌then◌else◌, ◌≤◌, ◌<◌, length, ◌∙◌, ap,
  get_elem?, some, Bool-cases, inl, inr, sym,
}
use variables_and_streams_se.Base.Text.{Text, codes, same, same_refl, eq_of_same}
use variables_and_streams_se.Base.Decimal.{pos, max_int, get_int64, atoi}
use variables_and_streams_se.Storage.Interface.{IStorage}
use variables_and_streams_se.VarHelper.Observers.{
  count, remove_entry, remove_below, internal_remove_observing, remove_client_below,
  remove_all_client_observations, remove_all_observations,
}
use variables_and_streams_se.VarHelper.Observers.Keys.{count_key}
use variables_and_streams_se.Storage.Gets.{get_set}
use variables_and_streams_se.VarHelper.Observers.Spec.{
  Observation, matches, contains, has_client, contains_elem, length-remove_last, remove_last,
  drop_client, drop_first, contains-drop_first, has_client-drop_first, remove_last_at,
  remove_last_none, drop_client-remove_last, drop_client_none, has_client-remove_last,
}
use variables_and_streams_se.VarHelper.Observers.Shifting.{
  at, remove_entry_sound, count-remove_entry, at-remove_entry,
}
use variables_and_streams_se.Base.Reads.{
  remove_at, length-remove_at, elem_below, Reads-remove_at, Reads-get_elem?,
}
use variables_and_streams_se.VarHelper.Observers.Refinement.{Represents}

drop_first_all : (xs : List Observation) → drop_first (length xs) xs ≡ []
drop_first_all [] = refl
drop_first_all (x ∷ xs) = drop_first_all xs

module _ (st : IStorage) (name : Text) where
  open st use {Db, Sound, set, delete_sound, set_sound}

  abbrev Rep : List Observation → Db → Type 0
  Rep = Represents st name

  at_elem :
      (xs : List Observation) (i : ℕ) (x : Observation) (db : Db)
      → Rep xs db
      → get_elem? xs i ≡ some x
      → at st name i db ≡ x
  at_elem xs i x db r e =
      ap (λ (k : ℕ). at st name k db) (omega arith)
      ∙ Reads-get_elem? (at st name) 0 xs i x db r.reads e

  remove_entry-Represents :
      (client : Text) (xs : List Observation) (i : ℕ) (db : Db)
      → Rep xs db
      → length xs ≤ max_int
      → i < length xs
      → Rep (remove_at i xs) (remove_entry st name client i (length xs) db)
  remove_entry-Represents client xs i db r le lt = record {
    sound = remove_entry_sound st name client i (length xs) db r.sound;
    counted =
        count-remove_entry st name client i (length xs) db r.sound le
        ∙ ap pos (sym (length-remove_at xs i lt));
    reads =
        Reads-remove_at (at st name) 0 xs i db _
          (λ k below.
            at-remove_entry st name client i (length xs) k db r.sound lt (omega arith)
            ∙ ground arith)
          lt r.reads;
  }

  remove_below_step :
      (client meta : Text) (i n : ℕ) (x : Observation) (db : Db)
      → at st name i db ≡ x
      → remove_below st name client meta (suc i) n db ≡ (
          if matches client meta x
          then remove_entry st name client i n db
          else remove_below st name client meta i n db)
  unfolding remove_below at
  remove_below_step client meta i n x db e =
      ap
        (λ (y : Observation).
          if matches client meta y
          then remove_entry st name client i n db
          else remove_below st name client meta i n db)
        e

  -- The search from entry i - 1 down, if no entry from i on matches.
  remove_below-Represents :
      (client meta : Text) (i : ℕ) (xs : List Observation) (db : Db)
      → Rep xs db
      → length xs ≤ max_int
      → i ≤ length xs
      → contains client meta (drop_first i xs) ≡ false
      → Rep (remove_last client meta xs) (remove_below st name client meta i (length xs) db)
  remove_below-Represents client meta zero xs db r le lt none_left =
      unfold remove_below in rw (remove_last_none client meta xs none_left) r
  remove_below-Represents client meta (suc i) xs db r le lt none_left =
      let (x, e) = elem_below xs i (omega arith) in
      let found = remove_below_step client meta i (length xs) x db (at_elem xs i x db r e) in
      elim (Bool-cases (matches client meta x)) [
        | inl m ↦
            rw (found, m, remove_last_at client meta xs i x e m none_left)
              (remove_entry-Represents client xs i db r le (omega arith))
        | inr m ↦
            rw (found, m)
              (remove_below-Represents client meta i xs db r le (omega arith)
                (contains-drop_first client meta xs i x e ∙ rw (m, none_left) refl))
      ]

  -- RemoveObservationByClientAndMetadata removes the last entry with this client and metadata.
  pub remove-Represents :
      (client meta : Text) (xs : List Observation) (db : Db)
      → Rep xs db
      → length xs ≤ max_int
      → Rep (remove_last client meta xs) (internal_remove_observing st name client meta db)
  unfolding internal_remove_observing
  remove-Represents client meta xs db r le = rw (r.counted) (
      remove_below-Represents client meta (length xs) xs db r le (omega arith)
        (rw (drop_first_all xs) (unfold contains in refl)))

  client_below_step :
      (client : Text) (i : ℕ) (x : Observation) (db : Db)
      → at st name i db ≡ x
      → remove_client_below st name client (suc i) db
        ≡ remove_client_below st name client i
            (if same x.0 client then internal_remove_observing st name x.0 x.1 db else db)
  unfolding remove_client_below at
  client_below_step client i x db e =
      ap
        (λ (y : Observation).
          remove_client_below st name client i
            (if same y.0 client then internal_remove_observing st name y.0 y.1 db else db))
        e

  -- The loop from entry i - 1 down, if no entry from i on is one of the client's.
  client_below-Represents :
      (client : Text) (i : ℕ) (xs : List Observation) (db : Db)
      → Rep xs db
      → length xs ≤ max_int
      → i ≤ length xs
      → has_client client (drop_first i xs) ≡ false
      → Rep (drop_client client xs) (remove_client_below st name client i db)
  client_below-Represents client zero xs db r le lt none_left =
      unfold remove_client_below in rw (drop_client_none client xs none_left) r
  client_below-Represents client (suc i) xs db r le lt none_left =
      let (x, e) = elem_below xs i (omega arith) in
      let found = client_below_step client i x db (at_elem xs i x db r e) in
      elim (Bool-cases (same x.0 client)) [
        | inl m ↦
            let all_but = remove_last client x.1 xs in
            let shorter =
              length-remove_last client x.1 xs
                (contains_elem client x.1 xs i x e (ground (arith, same_refl x.1))) in
            rw (found, m, eq_of_same x.0 client m, sym (drop_client-remove_last client x.1 xs))
              (client_below-Represents client i all_but _ (remove-Represents client x.1 xs db r le)
                (omega arith) (omega arith)
                (has_client-remove_last client x.1 xs i x e (ground (arith, same_refl x.1))
                  none_left))
        | inr m ↦
            rw (found, m)
              (client_below-Represents client i xs db r le (omega arith)
                (has_client-drop_first client xs i x e ∙ rw (m, none_left) refl))
      ]

  -- RemoveAllClientObservations leaves the entries of the other clients, in their order.
  pub remove_client-Represents :
      (client : Text) (xs : List Observation) (db : Db)
      → Rep xs db
      → length xs ≤ max_int
      → Rep (drop_client client xs) (remove_all_client_observations st name client db)
  unfolding remove_all_client_observations
  remove_client-Represents client xs db r le = rw (r.counted) (
      client_below-Represents client (length xs) xs db r le (omega arith)
        (rw (drop_first_all xs) (unfold has_client in refl)))

  count_zero : (db : Db) → count st name (set (count_key name) (codes "0") db) ≡ pos 0
  unfolding count get_int64 atoi
  count_zero db = rw get_set refl

  pub remove_all-Represents :
      (xs : List Observation) (db : Db) → Rep xs db → Rep [] (remove_all_observations st name db)
  unfolding remove_all_observations
  remove_all-Represents xs db r = record {
    sound = set_sound _ _ _ (delete_sound _ _ _ r.sound);
    counted = count_zero _;
    reads = tt;
  }
