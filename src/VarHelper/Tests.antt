-- ===== src/VarHelper/Tests.antt =====
-- Runs of the variable helper over the tree in memory.
use variables_and_streams_se.Base.{
  ℕ, zero, suc, ◌<◌, List, [], ◌∷◌, true, false, ◌≡◌, refl, arith, ◌≤◌, ◌+◌, ◌∙◌,
}
use variables_and_streams_se.Base.Text.{Text, codes, has_prefix}
use variables_and_streams_se.Storage.{RamCacheDb, empty_db, set}
use variables_and_streams_se.Storage.Tests.{storage_runs}
use variables_and_streams_se.Storage.Path.{scroll_path}
use variables_and_streams_se.Storage.Interface.{ram_storage}
use variables_and_streams_se.VarHelper.{
  controlled_name, set_flag, get_flag, flag_name, starts_with, is_locked, try_lock, lock, unlock,
  get_parent_name, Nap, is_client_observing,
}
use variables_and_streams_se.VarHelper.Internal.{is_internal}
use variables_and_streams_se.VarHelper.Locking.{
  Turn, try, release, write, turns, exclusion, is_locked-unlock,
}
use variables_and_streams_se.VarHelper.Deadline.{
  lock_gets_turn, lock_times_out, check_time, after_naps, deadline,
}
use variables_and_streams_se.Base.Decimal.{get_int64, atoi, itoa_nat}
use variables_and_streams_se.Storage.Laws.{empty_db-IsSound, set-IsSound}
use variables_and_streams_se.VarHelper.Observers.{
  count, get_all_observing_clients, get_metadatas_of_a_client,
}
use variables_and_streams_se.VarHelper.Observers.Keys.{count_key}
use variables_and_streams_se.VarHelper.Observers.Spec.{numbered, drop_client, remove_last, contains}
use variables_and_streams_se.VarHelper.Observers.Refinement.{Represents}
use variables_and_streams_se.VarHelper.Observers.Runs.{
  Request, register, remove, remove_client, perform_all, on_list, on_list_all, observers_refine,
}
use variables_and_streams_se.VarHelper.Observers.Metadata.{get_metadatas_none}

-- Opens all that a run of the helper computes with.
unfoldable pub helper_runs : Unit {0}
unfolding storage_runs controlled_name set_flag get_flag flag_name starts_with is_locked try_lock
    lock unlock is_internal turns get_parent_name has_prefix
helper_runs = tt

abbrev lamp : Text
lamp = codes "vars.home.lamp"

abbrev locked_db : RamCacheDb
locked_db = (try_lock ram_storage lamp empty_db).0

parents : (get_parent_name lamp ≡ codes "vars.home") × (get_parent_name (codes "vars") ≡ [])
unfolding helper_runs
parents = (refl, refl)

abbrev order : List Turn
order = try ∷ write (codes "vars.home.lamp") (codes "on") ∷ try ∷ release ∷ try ∷ []

order_counts :
    ((turns ram_storage lamp order empty_db 0 0).1 ≡ 2)
    × ((turns ram_storage lamp order empty_db 0 0).2 ≡ 1)
unfolding helper_runs
order_counts = (refl, refl)

order_clean : is_internal (scroll_path (codes "vars.home.lamp")) ≡ false
unfolding helper_runs
order_clean = refl

free_at_first : is_locked ram_storage lamp empty_db ≡ false
unfolding helper_runs
free_at_first = refl

then_locked : is_locked ram_storage lamp locked_db ≡ true
unfolding helper_runs
then_locked = refl

exclusion_example :
    (turns ram_storage lamp order empty_db 0 0).1
    ≤ (turns ram_storage lamp order empty_db 0 0).2 + 1
exclusion_example =
    exclusion ram_storage lamp order empty_db (tt, (order_clean, (tt, (tt, (tt, tt)))))
      free_at_first

-- Each round takes a tenth of a second, in which others do this.
abbrev rounds_with : (RamCacheDb → RamCacheDb) → ℕ → Nap RamCacheDb
rounds_with others i = record { try_ns = 1000; beyond_ns = 99000000; others = others }

-- The others wait, and unlock in the round of this number.
abbrev unlocking : ℕ → RamCacheDb → RamCacheDb
unlocking zero db = db
unlocking (suc zero) db = unlock ram_storage lamp db
unlocking (suc (suc i)) db = db

abbrev freeing_rounds : ℕ → Nap RamCacheDb
freeing_rounds i = rounds_with (unlocking i) i

abbrev timeout : ℕ
timeout = 150

second_early : check_time ram_storage lamp freeing_rounds 1 < deadline timeout
unfolding check_time
second_early = omega arith

lock_gets_turn_example :
    ((lock ram_storage lamp timeout freeing_rounds locked_db).1 ≡ true)
    × (is_locked ram_storage lamp (lock ram_storage lamp timeout freeing_rounds locked_db).0 ≡ true)
lock_gets_turn_example =
    lock_gets_turn ram_storage lamp 1 timeout freeing_rounds locked_db (omega arith) second_early
      (is_locked-unlock ram_storage lamp)

lock_times_out_example :
    (n : ℕ) × (deadline timeout ≤ check_time ram_storage lamp (rounds_with (λ db. db)) n)
    × ((i : ℕ) → i < n → check_time ram_storage lamp (rounds_with (λ db. db)) i < deadline timeout)
    × (lock ram_storage lamp timeout (rounds_with (λ db. db)) locked_db
        ≡ (after_naps ram_storage lamp (rounds_with (λ db. db)) n locked_db, false))
lock_times_out_example =
    lock_times_out ram_storage lamp timeout (rounds_with (λ db. db)) locked_db (omega arith)
      (λ i d h. h) then_locked

abbrev two_registered : List Request
two_registered =
    register (codes "a") (codes "x")
    ∷ register (codes "b") (codes "y")
    ∷ register (codes "a") (codes "z")
    ∷ remove_client (codes "a")
    ∷ register (codes "b") (codes "y")
    ∷ remove (codes "b") (codes "y")
    ∷ []

nothing_observed : Represents ram_storage lamp [] empty_db
unfolding helper_runs count get_int64 atoi count_key
nothing_observed = record { sound = empty_db-IsSound; counted = refl; reads = tt }

spec_one : numbered 0 (on_list_all two_registered []) ≡ (codes "0", codes "b", codes "y") ∷ []
unfolding helper_runs on_list_all on_list drop_client remove_last contains numbered itoa_nat
spec_one = refl

one_left :
    get_all_observing_clients ram_storage lamp
      (perform_all ram_storage lamp two_registered empty_db)
    ≡ (codes "0", codes "b", codes "y") ∷ []
one_left =
    observers_refine ram_storage lamp two_registered [] empty_db (omega arith) nothing_observed
    ∙ spec_one

observers_refine_example :
    get_all_observing_clients ram_storage lamp
      (perform_all ram_storage lamp two_registered empty_db)
    ≡ numbered 0 (on_list_all two_registered [])
observers_refine_example =
    observers_refine ram_storage lamp two_registered [] empty_db (omega arith) nothing_observed

-- The client observes with some metadata, which a lookup of that metadata finds.
abbrev observed : RamCacheDb
observed = set (codes "vars.home.lamp._observers.byId.a.byMetadata.x") (codes "0") empty_db

observed_found : is_client_observing ram_storage lamp (codes "a") (codes "x") observed ≡ true
unfolding helper_runs is_client_observing
observed_found = refl

get_metadatas_none_example : get_metadatas_of_a_client ram_storage lamp (codes "a") observed ≡ []
get_metadatas_none_example = get_metadatas_none ram_storage lamp (codes "a") observed (
    set-IsSound (codes "vars.home.lamp._observers.byId.a.byMetadata.x") (codes "0") empty_db
      empty_db-IsSound)
