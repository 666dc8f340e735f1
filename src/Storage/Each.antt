-- ===== src/Storage/Each.antt =====
-- ForEachChilds (sources/services/storage/ramcachedb.go) against GetChilds and Get.
use variables_and_streams_se.Base.{
  List, [], ◌∷◌, ◌++◌, none, some, ◌≡◌, ◌≢◌, refl, ◌∙◌, ap, sym, arith, if◌then◌else◌, is_empty,
  map, All, Option, Option-cases, inl, inr,
}
use variables_and_streams_se.Base.Text.{Text, Lacks, split, eq_of_same, same_refl}
use variables_and_streams_se.Storage.Path.{
  dot, scroll_path, scroll_path-under, scroll_path_of_Lacks,
}
use variables_and_streams_se.Storage.Tree.{
  RamNode, Childs, no_childs, child, find, value, childs, keys, get_child,
}
use variables_and_streams_se.Storage.Wf.{AreWf, AreWf-of_IsWf, IsWf-find}
use variables_and_streams_se.Storage.Laws.{IsSound}
use variables_and_streams_se.Storage.{RamCacheDb, get, get_childs}

-- The name that the callback is given for the key k.
unfoldable pub full_name : Text → Text → Text
full_name parent_name k = if is_empty parent_name then k else parent_name ++ dot ∷ k

-- The arguments of the callback, one call for each child.
unfoldable pub calls : Text → Childs → List (Text × Text)
unfolding full_name
calls parent_name no_childs = []
calls parent_name (child k n cs) = (full_name parent_name k, value n) ∷ calls parent_name cs

unfoldable pub for_each_childs : Text → RamCacheDb → List (Text × Text)
unfolding calls
for_each_childs parent_name r = elim (find (scroll_path parent_name) r.root) [
  | none ↦ []
  | some item ↦ calls parent_name (childs item)
]

-- A descent behind another.
onward : List Text → Option RamNode → Option RamNode
onward q none = none
onward q (some m) = find q m

find-append : (p q : List Text) (n : RamNode) → find (p ++ q) n ≡ onward q (find p n)
unfolding find onward
find-append [] q n = refl
find-append (k ∷ p) q n = elim (Option-cases (get_child k (childs n))) [
  | inl e ↦ rw (e, find) refl
  | inr (m, e) ↦ rw (e, find) (find-append p q m)
]

-- What Get finds for a child of a node that its parent's name leads to.
find_child :
    (parent k : Text) (root item n : RamNode)
    → scroll_path parent ≡ split dot parent
    → parent ≢ []
    → Lacks dot k
    → k ≢ []
    → find (scroll_path parent) root ≡ some item
    → get_child k (childs item) ≡ some n
    → find (scroll_path (full_name parent k)) root ≡ some n
unfolding full_name find onward
find_child [] k root item n plain ne nodot nek found here = absurd (ne refl)
find_child (c ∷ parent) k root item n plain ne nodot nek found here =
    let step : onward (k ∷ []) (some item) ≡ some n = rw (here, find) refl in
    ap (λ p. find p root) (scroll_path-under (c ∷ parent) k nek)
    ∙ ap (λ p. find (p ++ scroll_path k) root) (sym plain)
    ∙ ap (λ q. find (scroll_path (c ∷ parent) ++ q) root) (scroll_path_of_Lacks k nodot)
    ∙ find-append (scroll_path (c ∷ parent)) (k ∷ []) root
    ∙ ap (onward (k ∷ [])) found
    ∙ step

get_of_find :
    (name d : Text) (r : RamCacheDb) (n : RamNode)
    → find (scroll_path name) r.root ≡ some n
    → get name d r ≡ value n
unfolding get
get_of_find name d r n h = rw (h, get) refl

-- A key of a list of children has its node in a map that answers as the list does.
calls-gets :
    (parent d : Text) (r : RamCacheDb) (item : RamNode) (cs : Childs)
    → scroll_path parent ≡ split dot parent
    → parent ≢ []
    → find (scroll_path parent) r.root ≡ some item
    → AreWf cs
    → All (λ k. k ≢ []) (keys cs)
    → ((k : Text) (n : RamNode) → get_child k cs ≡ some n → get_child k (childs item) ≡ some n)
    → calls parent cs ≡ map (λ k. (full_name parent k, get (full_name parent k) d r)) (keys cs)
unfolding calls keys AreWf get_child
calls-gets parent d r item no_childs plain ne found w nek held = refl
calls-gets parent d r item (child k n cs) plain ne found (name, nodot, once, wn, wcs) (nk, nks)
      held =
    let here = held k n (rw (same_refl k) refl) in
    let there = find_child parent k r.root item n plain ne nodot nk found here in
    let rest =
      calls-gets parent d r item cs plain ne found wcs nks
        (λ j m e. held j m (ground (arith, eq_of_same k j))) in
    rw (rest, get_of_find (full_name parent k) d r n there) refl

-- In a sound tree, below a name that does not end with a dot and whose children have names that are
-- not empty, ForEachChilds calls its function with the full name of each of the names of GetChilds
-- and with what Get finds for it.
pub for_each_childs-get :
    (parent d : Text) (r : RamCacheDb)
    → IsSound r
    → scroll_path parent ≡ split dot parent
    → parent ≢ []
    → All (λ k. k ≢ []) (get_childs parent r)
    → for_each_childs parent r
      ≡ map (λ k. (full_name parent k, get (full_name parent k) d r)) (get_childs parent r)
unfolding for_each_childs get_childs IsSound
for_each_childs-get [] d r sound plain ne nek = absurd (ne refl)
for_each_childs-get (c ∷ s) d r sound plain ne nek =
    elim (Option-cases (find (scroll_path (c ∷ s)) r.root)) [
      | inl e ↦ rw (e, for_each_childs, get_childs) refl
      | inr (item, e) ↦
          let names = rw e at nek in
          rw (e, for_each_childs, get_childs)
            (calls-gets (c ∷ s) d r item (childs item) plain ne e
              (AreWf-of_IsWf item (IsWf-find (scroll_path (c ∷ s)) r.root sound e)) names
              (λ k n h. h))
    ]
