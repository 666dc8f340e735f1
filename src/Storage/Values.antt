-- ===== src/Storage/Values.antt =====
-- What the nodes of the tree hold after a change, in terms of what they held before.
use variables_and_streams_se.Base.{
  Option-cases, inl, inr, true, List, [], ◌∷◌, Bool, Option, none, some, if◌then◌else◌, is_empty,
  get_or, ◌≡◌, refl, arith,
}
use variables_and_streams_se.Base.Text.{Text, same, same_refl, eq_of_same, same_iff}
use variables_and_streams_se.Storage.Path.{same_path, is_prefix}
use variables_and_streams_se.Storage.Tree.{
  RamNode, Childs, node, no_childs, child, value, childs, set_value, set_childs, get_child,
  put_child, delete_child, is_leaf, find, alter, new_node, cleared, drop_or_keep, delete_at,
}

pub get_child-put_child :
    (k j : Text) (n : RamNode) (cs : Childs)
    → get_child j (put_child k n cs) ≡ (if same k j then some n else get_child j cs)
unfolding get_child put_child
get_child-put_child k j n no_childs = refl
get_child-put_child k j n (child i m cs) = ground (
  arith,
  get_child-put_child k j n cs,
  eq_of_same i k,
  eq_of_same i j,
  eq_of_same k j,
  same_refl i,
  same_refl k,
)

pub get_child-delete_child :
    (k j : Text) (cs : Childs)
    → get_child j (delete_child k cs) ≡ (if same k j then none else get_child j cs)
unfolding get_child delete_child
get_child-delete_child k j no_childs = ground arith
get_child-delete_child k j (child i m cs) = ground (
  arith,
  get_child-delete_child k j cs,
  eq_of_same i k,
  eq_of_same i j,
  eq_of_same k j,
  same_refl k,
  same_refl i,
)

-- The value of the node at the end of a descent.
unfoldable pub value_at : List Text → RamNode → Option Text
value_at q n = elim (find q n) [ none ↦ none | some m ↦ some (value m) ]

pub value_at-nil : (n : RamNode) → value_at [] n ≡ some (value n)
unfolding value_at find
value_at-nil n = refl

pub value_at-cons :
    (k : Text) (ks : List Text) (n : RamNode)
    → value_at (k ∷ ks) n ≡ elim (get_child k (childs n)) [ none ↦ none | some m ↦ value_at ks m ]
unfolding value_at find
value_at-cons k ks n = ground arith

pub value_at-new_node :
    (k : Text) (q : List Text) → value_at q (new_node k) ≡ (if is_empty q then some [] else none)
unfolding value_at find get_child
value_at-new_node k [] = refl
value_at-new_node k (j ∷ q) = refl

pub value_at-alter :
    (p q : List Text) (v : Text) (n : RamNode)
    → value_at q (alter p (set_value v) n) ≡ (
        if same_path p q
        then some v
        else if is_prefix q p
        then some (get_or (value_at q n) [])
        else value_at q n)
unfolding alter same_path is_prefix
value_at-alter [] [] v (node i w cs) = unfold value_at find in refl
value_at-alter [] (j ∷ q) v (node i w cs) = unfold value_at find in refl
value_at-alter (k ∷ p) [] v (node i w cs) = unfold value_at find in refl
value_at-alter (k ∷ p) (j ∷ q) v (node i w cs) =
    let m = get_or (get_child k cs) (new_node k) in
    ground (
      arith,
      value_at-cons j q (node i w (put_child k (alter p (set_value v) m) cs)),
      value_at-cons j q (node i w cs),
      get_child-put_child k j (alter p (set_value v) m) cs,
      value_at-alter p q v m,
      value_at-new_node k q,
      same_iff k j,
      same_iff j k,
    )

-- What DeleteValue leaves at the node that it names.
unfoldable pub left_at : Bool → RamNode → Option Text
left_at cascade n = if cascade then none else if is_leaf (childs n) then none else some []

-- The branches of DeleteValue along a descent.
pub delete_at_missing :
    (k : Text) (p : List Text) (c : Bool) (n : RamNode)
    → get_child k (childs n) ≡ none
    → delete_at (k ∷ p) c n ≡ n
unfolding delete_at
delete_at_missing k p c n e = rw (e, delete_at)

pub delete_at_last :
    (k : Text) (c : Bool) (n : RamNode) {m : RamNode}
    → get_child k (childs n) ≡ some m
    → delete_at (k ∷ []) c n ≡ set_childs (drop_or_keep k (cleared c m) (childs n)) n
unfolding delete_at
delete_at_last k c n e = rw (e, delete_at)

pub delete_at_more :
    (k j : Text) (p : List Text) (c : Bool) (n : RamNode) {m : RamNode}
    → get_child k (childs n) ≡ some m
    → delete_at (k ∷ j ∷ p) c n ≡ set_childs (put_child k (delete_at (j ∷ p) c m) (childs n)) n
unfolding delete_at
delete_at_more k j p c n e = rw (e, delete_at)

-- Below a node that is not there nothing is there.
pub value_at_missing :
    (p q : List Text) (n : RamNode) → find p n ≡ none → is_prefix p q ≡ true → value_at q n ≡ none
unfolding find is_prefix
value_at_missing [] q n e h = cc
value_at_missing (k ∷ p) [] n e h = cc
value_at_missing (k ∷ p) (j ∷ q) n e h = elim (Option-cases (get_child k (childs n))) [
  | inl none_k ↦ ground (arith, value_at-cons j q n, eq_of_same k j)
  | inr (m, some_k) ↦ ground (arith, value_at-cons j q n, eq_of_same k j, value_at_missing p q m)
]
