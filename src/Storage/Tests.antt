-- ===== src/Storage/Tests.antt =====
-- Runs of the storage on small trees, and the storage theorems at inputs that meet their hypotheses.
use variables_and_streams_se.Base.{
  List, [], ◌∷◌, ◌++◌, true, false, none, some, if◌then◌else◌, get_or, map, ◌≢◌, ◌≡◌, refl, arith,
  All,
}
use variables_and_streams_se.Base.Text.{
  Text, codes, same, split, onto_first, is_blank, has_byte, before, after,
}
use variables_and_streams_se.Storage.{
  RamCacheDb, empty_db, set, get, get_childs, has_value, delete_value,
}
use variables_and_streams_se.Storage.Path.{scroll_path, same_path, is_prefix}
use variables_and_streams_se.Storage.Dump.{
  dump_to_string, dump_line, dump_prefix, load, load_line, load_lines, complete, broken, newline,
}
use variables_and_streams_se.Storage.Tree.{
  find, get_child, alter, put_child, keys, delete_at, drop_or_keep, cleared, delete_child,
}
use variables_and_streams_se.Storage.Laws.{
  Change, set_name, delete_name, run, holds, kept, holds-set, holds-delete_value, IsSound,
  set-IsSound, empty_db-IsSound, run-IsSound,
}
use variables_and_streams_se.Storage.Plain.{IsPlainKey}
use variables_and_streams_se.Storage.Each.{full_name, calls, for_each_childs, for_each_childs-get}
use variables_and_streams_se.Storage.Durability.{
  Event, change, round, step, steps, fresh, reload, durable, failed_dump_forgotten, dump_rounds,
  get-load, IsStorable, set-IsStorable, empty_db-IsStorable,
}

-- Opens all that a run of the storage computes with.
unfoldable pub storage_runs : Unit {0}
unfolding set get get_childs has_value delete_value find scroll_path get_child alter put_child same
    keys delete_at drop_or_keep cleared delete_child dump_to_string dump_line dump_prefix load
    load_lines split onto_first load_line is_blank has_byte before after
storage_runs = tt

abbrev lamp : Text
lamp = codes "vars.home.lamp"

abbrev home : Text
home = codes "vars.home"

abbrev on : Text
on = codes "on"

abbrev lit : RamCacheDb
lit = set lamp on empty_db

trailing_dot : scroll_path (codes "a..b.") ≡ codes "a" ∷ [] ∷ codes "b" ∷ []
unfolding scroll_path
trailing_dot = refl

lit_reads :
    (get lamp [] lit ≡ on)
    × (get home (codes "?") lit ≡ [])
    × (get_childs home lit ≡ codes "lamp" ∷ [])
    × (has_value (codes "vars.garden") lit ≡ false)
unfolding storage_runs
lit_reads = (refl, refl, refl, refl)

deleted_leaf : get_childs home (delete_value lamp false lit) ≡ []
unfolding storage_runs
deleted_leaf = refl

lit_dump : dump_to_string lit.root [] ≡ codes "vars.home.lamp=on" ++ newline ∷ []
unfolding storage_runs
lit_dump = refl

-- A line break in a value makes a line of its own in the file, which a restart reads as a variable.
injected :
    get (codes "vars.x._lock") [] (
      load
        (some (
          dump_to_string
            (set lamp (codes "on" ++ newline ∷ codes "vars.x._lock=1") empty_db).root
            []))
        empty_db)
    ≡ codes "1"
unfolding storage_runs
injected = refl

holds-set_example : holds home (set lamp on empty_db) ≡ (
    if same_path (scroll_path lamp) (scroll_path home)
    then some on
    else if is_prefix (scroll_path home) (scroll_path lamp)
    then some (get_or (holds home empty_db) [])
    else holds home empty_db)
holds-set_example = holds-set lamp home on empty_db

lit-IsSound : IsSound lit
lit-IsSound = set-IsSound lamp on empty_db empty_db-IsSound

holds-delete_value_example : holds home (delete_value lamp true lit) ≡ (
    if has_value lamp lit
    then (if is_prefix (scroll_path lamp) (scroll_path home)
        then (if same_path (scroll_path lamp) (scroll_path home)
            then kept lamp true lit
            else if true
            then none
            else holds home lit)
        else holds home lit)
    else holds home lit)
holds-delete_value_example = holds-delete_value lamp home true lit lit-IsSound

abbrev changes : List Change
changes = set_name lamp on ∷ delete_name home false ∷ delete_name lamp true ∷ []

run-IsSound_example : IsSound (run changes empty_db)
run-IsSound_example = run-IsSound changes empty_db empty_db-IsSound

lamp_keys : All IsPlainKey (scroll_path lamp)
unfolding scroll_path
lamp_keys = (
  (cc, omega arith, omega arith),
  ((cc, omega arith, omega arith), ((cc, omega arith, omega arith), tt)),
)

lit-IsStorable : IsStorable lit
lit-IsStorable = set-IsStorable lamp on empty_db lamp_keys (omega arith) empty_db-IsStorable

loaded_again : get lamp [] (load (some (dump_to_string lit.root [])) empty_db) ≡ get lamp [] lit
loaded_again = get-load lamp lit lit-IsSound lit-IsStorable

abbrev events : List Event
events = change (set_name lamp on) ∷ round ∷ change (delete_name lamp false) ∷ []

durable_example :
    reload lamp (step round (steps events fresh)) ≡ get lamp [] (step round (steps events fresh)).db
durable_example = durable events lamp ((lamp_keys, omega arith), (tt, (tt, tt)))

lit_pending : lit.pending_changes ≡ true
unfolding storage_runs
lit_pending = refl

-- Half of the line is written, and the next round, which could write, does nothing.
failed_dump_forgotten_example :
    ((dump_rounds
        (broken (some (codes "vars.ho")) ∷ complete ∷ [])
        (record { db = lit; file = none })).file
      ≡ some (codes "vars.ho"))
    × ((dump_rounds
          (broken (some (codes "vars.ho")) ∷ complete ∷ [])
          (record { db = lit; file = none })).db.root
        ≡ lit.root)
failed_dump_forgotten_example =
    failed_dump_forgotten (record { db = lit; file = none }) (some (codes "vars.ho"))
      (complete ∷ []) lit_pending

root_not_visited : (get_childs [] lit ≡ codes "vars" ∷ []) × (for_each_childs [] lit ≡ [])
unfolding storage_runs for_each_childs calls full_name
root_not_visited = (refl, refl)

home_plain : scroll_path home ≡ split b'.' home
unfolding storage_runs
home_plain = refl

home_childs : All (λ k. k ≢ []) (get_childs home lit)
unfolding storage_runs
home_childs = ((λ e. cc), tt)

for_each_childs-get_example :
    for_each_childs home lit
    ≡ map (λ k. (full_name home k, get (full_name home k) [] lit)) (get_childs home lit)
for_each_childs-get_example =
    for_each_childs-get home [] lit lit-IsSound home_plain (λ e. cc) home_childs
