-- ===== src/Storage/Deletion.antt =====
-- What `DeleteValue` leaves in the tree, for every other name.
use variables_and_streams_se.Base.{
  List, [], ◌∷◌, Bool, true, false, Option, none, some, if◌then◌else◌, is_empty, ◌≡◌, ◌≢◌, refl,
  sym, arith, Option-cases, inl, inr,
}
use variables_and_streams_se.Base.Text.{Text, same, same_iff}
use variables_and_streams_se.Storage.Path.{same_path, is_prefix}
use variables_and_streams_se.Storage.Tree.{
  RamNode, Childs, node, no_childs, child, value, childs, imediate_name, set_childs, get_child,
  is_leaf, find, cleared, drop_or_keep, delete_at,
}
use variables_and_streams_se.Storage.Values.{
  value_at, value_at-nil, value_at-cons, left_at, get_child-put_child, get_child-delete_child,
  delete_at_last, delete_at_more,
}
use variables_and_streams_se.Storage.Wf.{IsWf, AreWf-of_IsWf, IsWf-get_child}

value_at-cleared :
    (c : Bool) (q : List Text) (m : RamNode)
    → value_at q (cleared c m) ≡ (if is_empty q then some [] else if c then none else value_at q m)
unfolding value_at find cleared get_child
value_at-cleared c [] (node i v cs) = refl
value_at-cleared true (j ∷ q) (node i v cs) = refl
value_at-cleared false (j ∷ q) (node i v cs) = refl

value_at_leaf :
    (j : Text) (q : List Text) (m : RamNode) → is_leaf (childs m) ≡ true → value_at (j ∷ q) m ≡ none
unfolding value_at find get_child
value_at_leaf j q (node i v no_childs) h = refl
value_at_leaf j q (node i v (child k n cs)) h = cc

is_leaf-cleared :
    (c : Bool) (m : RamNode)
    → is_leaf (childs (cleared c m)) ≡ (if c then true else is_leaf (childs m))
unfolding cleared
is_leaf-cleared true (node i v cs) = refl
is_leaf-cleared false (node i v cs) = refl

value_at-set_childs :
    (j : Text) (q : List Text) (n : RamNode) (cs : Childs)
    → value_at (j ∷ q) (set_childs cs n)
      ≡ elim (get_child j cs) [ none ↦ none | some m ↦ value_at q m ]
value_at-set_childs j q (node i v ds) cs = value_at-cons j q (node i v cs)

value-set_childs : (n : RamNode) (cs : Childs) → value (set_childs cs n) ≡ value n
value-set_childs (node i v ds) cs = refl

get_child-drop_or_keep :
    (k j : Text) (m : RamNode) (cs : Childs)
    → imediate_name m ≡ k
    → get_child j (drop_or_keep k m cs)
      ≡ (if same k j then (if is_leaf (childs m) then none else some m) else get_child j cs)
unfolding drop_or_keep
get_child-drop_or_keep k j m cs e =
    ground (arith, get_child-put_child k j m cs, get_child-delete_child k j cs)

imediate_name-cleared : (c : Bool) (n : RamNode) → imediate_name (cleared c n) ≡ imediate_name n
unfolding cleared
imediate_name-cleared c (node i v cs) = refl

find_last :
    (k : Text) (n : RamNode) {m : RamNode}
    → find (k ∷ []) n ≡ some m
    → get_child k (childs n) ≡ some m
unfolding find
find_last k n f = ground arith

find-none :
    (k : Text) (p : List Text) (n : RamNode) {m : RamNode}
    → get_child k (childs n) ≡ none
    → find (k ∷ p) n ≢ some m
unfolding find
find-none k p n e f = ground arith

find-some :
    (k : Text) (p : List Text) (n : RamNode) {m t : RamNode}
    → get_child k (childs n) ≡ some t
    → find (k ∷ p) n ≡ some m
    → find p t ≡ some m
unfolding find
find-some k p n e f = ground arith

-- What the tree holds after a deletion at a node m that is there.
abbrev after_deletion : List Text → Bool → RamNode → RamNode → List Text → Option Text
after_deletion p c n m q =
    if is_prefix p q
    then if same_path p q then left_at c m else (if c then none else value_at q n)
    else value_at q n

-- The names below the parent, for what its map answers after the deletion.
delete_last_below :
    (k : Text) (c : Bool) (j : Text) (q : List Text) (n m : RamNode)
    → get_child k (childs n) ≡ some m
    → get_child j (drop_or_keep k (cleared c m) (childs n)) ≡ (
        if same k j
        then (if is_leaf (childs (cleared c m)) then none else some (cleared c m))
        else get_child j (childs n))
    → elim (get_child j (drop_or_keep k (cleared c m) (childs n))) [
      | none ↦ none
      | some t ↦ value_at q t
    ]
      ≡ after_deletion (k ∷ []) c n m (j ∷ q)
unfolding same_path is_prefix left_at
delete_last_below k c j [] n m e g =
    ground (arith, value_at-cons j [] n, is_leaf-cleared c m, value_at-cleared c [] m, same_iff k j)
delete_last_below k c j (x ∷ q) n m e g = ground (
  arith,
  value_at-cons j (x ∷ q) n,
  is_leaf-cleared c m,
  value_at-cleared c (x ∷ q) m,
  value_at_leaf x q m,
  same_iff k j,
)

delete_last :
    (k : Text) (c : Bool) (q : List Text) (n m : RamNode)
    → IsWf n
    → get_child k (childs n) ≡ some m
    → value_at q (delete_at (k ∷ []) c n) ≡ after_deletion (k ∷ []) c n m q
unfolding same_path is_prefix left_at
delete_last k c [] n m w e =
    rw (delete_at_last k c n e, value_at-nil, value-set_childs, value_at-nil)
delete_last k c (j ∷ q) n m w e =
    let (name, nodot, wm) = IsWf-get_child k (childs n) (AreWf-of_IsWf n w) e in
    let same_name : imediate_name (cleared c m) ≡ k = cc (imediate_name-cleared c m) in
    rw (delete_at_last k c n e, value_at-set_childs j q n)
      (delete_last_below k c j q n m e
        (get_child-drop_or_keep k j (cleared c m) (childs n) same_name))

delete_more :
    (k i : Text) (p : List Text) (c : Bool) (q : List Text) (n m t : RamNode)
    → get_child k (childs n) ≡ some m
    → ((r : List Text) → value_at r (delete_at (i ∷ p) c m) ≡ after_deletion (i ∷ p) c m t r)
    → value_at q (delete_at (k ∷ i ∷ p) c n) ≡ after_deletion (k ∷ i ∷ p) c n t q
unfolding same_path is_prefix
delete_more k i p c [] n m t e rest =
    rw (delete_at_more k i p c n e, value_at-nil, value-set_childs) (sym (value_at-nil n))
delete_more k i p c (j ∷ q) n m t e rest =
    rw (delete_at_more k i p c n e, value_at-set_childs j q n)
      (ground (
        arith,
        rest q,
        value_at-cons j q n,
        get_child-put_child k j (delete_at (i ∷ p) c m) (childs n),
        same_iff k j,
      ))

-- A deletion at a node that is there: what every name holds afterwards.
pub value_at-delete_at :
    (p : List Text) (c : Bool) (n m : RamNode) (q : List Text)
    → IsWf n
    → find p n ≡ some m
    → p ≢ []
    → value_at q (delete_at p c n) ≡ after_deletion p c n m q
value_at-delete_at [] c n m q w f ne = absurd (ne refl)
value_at-delete_at (k ∷ []) c n m q w f ne = delete_last k c q n m w (find_last k n f)
value_at-delete_at (k ∷ i ∷ p) c n m q w f ne = elim (Option-cases (get_child k (childs n))) [
  | inl e ↦ absurd (find-none k (i ∷ p) n e f)
  | inr (t, e) ↦
      let wt = (IsWf-get_child k (childs n) (AreWf-of_IsWf n w) e).2 in
      delete_more k i p c q n t m e
        (λ r. value_at-delete_at (i ∷ p) c t m r wt (find-some k (i ∷ p) n e f) cc)
]
