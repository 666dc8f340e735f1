-- ===== src/Storage/Wf.antt =====
-- The invariant of the tree: every node goes by the key that it stands under, no key stands twice in
-- a map, and no key has a dot. Every change of the tree keeps it.
use variables_and_streams_se.Base.{
  List, [], ◌∷◌, Bool, true, false, none, some, get_or, ◌≡◌, refl, arith, Bool-cases, Option-cases,
  inl, inr, All,
}
use mathlib.Core.Path.{subst}
use variables_and_streams_se.Base.Text.{Text, Lacks, same, eq_of_same, same_iff}
use variables_and_streams_se.Storage.Path.{dot}
use variables_and_streams_se.Storage.Tree.{
  find, keys, RamNode, Childs, node, no_childs, child, childs, imediate_name, set_value, set_childs,
  get_child, put_child, delete_child, is_leaf, alter, new_node, cleared, drop_or_keep, delete_at,
}
use variables_and_streams_se.Storage.Values.{
  get_child-put_child, get_child-delete_child, delete_at_missing, delete_at_last, delete_at_more,
}

unfoldable mutual
  pub IsWf : RamNode → Type 0
  IsWf (node i v cs) = AreWf cs

  pub AreWf : Childs → Type 0
  AreWf no_childs = Unit
  AreWf (child k n cs) =
      (imediate_name n ≡ k) × Lacks dot k × (get_child k cs ≡ none) × IsWf n × AreWf cs

pub IsWf-get_child :
    (k : Text) (cs : Childs) {m : RamNode}
    → AreWf cs
    → get_child k cs ≡ some m
    → (imediate_name m ≡ k) × Lacks dot k × IsWf m
unfolding IsWf AreWf get_child
IsWf-get_child k no_childs h e = cc
IsWf-get_child k (child j n cs) {m} (name, nodot, once, wn, wcs) e = elim (Bool-cases (same j k)) [
  | inl s ↦
      let jk = eq_of_same j k s in
      let nm : n ≡ m = ground arith in (ground arith, rw jk at nodot, rw nm at wn)
  | inr d ↦ IsWf-get_child k cs wcs (ground arith)
]

AreWf-put_child :
    (k : Text) (n : RamNode) (cs : Childs)
    → imediate_name n ≡ k
    → Lacks dot k
    → IsWf n
    → AreWf cs
    → AreWf (put_child k n cs)
unfolding IsWf AreWf put_child get_child
AreWf-put_child k n no_childs name nodot wn h = (name, nodot, refl, wn, tt)
AreWf-put_child k n (child j m cs) name nodot wn (name', nodot', once, wm, wcs) =
    elim (Bool-cases (same j k)) [
      | inl s ↦ rw (s) (let jk = eq_of_same j k s in (ground arith, nodot', once, wn, wcs))
      | inr d ↦ rw (d) (
        name',
        nodot',
        ground (arith, get_child-put_child k j n cs, same_iff k j, same_iff j k),
        wm,
        AreWf-put_child k n cs name nodot wn wcs,
      )
    ]

AreWf-delete_child : (k : Text) (cs : Childs) → AreWf cs → AreWf (delete_child k cs)
unfolding IsWf AreWf delete_child get_child
AreWf-delete_child k no_childs h = tt
AreWf-delete_child k (child j m cs) (name', nodot', once, wm, wcs) = elim (Bool-cases (same j k)) [
  | inl s ↦ rw (s) (AreWf-delete_child k cs wcs)
  | inr d ↦ rw (d) (
    name',
    nodot',
    ground (arith, get_child-delete_child k j cs),
    wm,
    AreWf-delete_child k cs wcs,
  )
]

pub AreWf-of_IsWf : (n : RamNode) → IsWf n → AreWf (childs n)
unfolding IsWf AreWf
AreWf-of_IsWf (node i v cs) h = h

IsWf-set_childs : (n : RamNode) (cs : Childs) → AreWf cs → IsWf (set_childs cs n)
unfolding IsWf AreWf
IsWf-set_childs (node i v ds) cs h = h

pub IsWf-set_value : (v : Text) (n : RamNode) → IsWf n → IsWf (set_value v n)
unfolding IsWf AreWf
IsWf-set_value v (node i w cs) h = h

IsWf-new_node : (k : Text) → IsWf (new_node k)
unfolding IsWf AreWf
IsWf-new_node k = tt

-- The child that a creating descent goes to.
IsWf-next :
    (k : Text) (cs : Childs)
    → AreWf cs
    → (imediate_name (get_or (get_child k cs) (new_node k)) ≡ k)
      × IsWf (get_or (get_child k cs) (new_node k))
IsWf-next k cs h = elim (Option-cases (get_child k cs)) [
  | inl e ↦ rw e (refl, IsWf-new_node k)
  | inr (m, e) ↦ let f = IsWf-get_child k cs h e in rw e (f.0, f.2)
]

imediate_name-set_childs :
    (n : RamNode) (cs : Childs) → imediate_name (set_childs cs n) ≡ imediate_name n
imediate_name-set_childs (node i v ds) cs = refl

imediate_name-alter :
    (p : List Text) (v : Text) (n : RamNode)
    → imediate_name (alter p (set_value v) n) ≡ imediate_name n
unfolding alter
imediate_name-alter [] v (node i w cs) = refl
imediate_name-alter (k ∷ p) v n = imediate_name-set_childs n _

-- Set keeps the invariant, along names with no dot.
pub IsWf-alter :
    (p : List Text) (v : Text) (n : RamNode)
    → All (Lacks dot) p
    → IsWf n
    → IsWf (alter p (set_value v) n)
unfolding alter
IsWf-alter [] v n h w = IsWf-set_value v n w
IsWf-alter (k ∷ p) v n (hk, hp) w =
    let cs = childs n in
    let m = get_or (get_child k cs) (new_node k) in
    let wcs = AreWf-of_IsWf n w in
    let next = IsWf-next k cs wcs in
    IsWf-set_childs n _ (
      AreWf-put_child k (alter p (set_value v) m) cs (cc (imediate_name-alter p v m, next.0)) hk
        (IsWf-alter p v m hp next.1) wcs)

imediate_name-delete_at :
    (p : List Text) (c : Bool) (n : RamNode) → imediate_name (delete_at p c n) ≡ imediate_name n
unfolding delete_at
imediate_name-delete_at [] c n = refl
imediate_name-delete_at (k ∷ p) c (node i v cs) = ground arith

imediate_name-cleared : (c : Bool) (n : RamNode) → imediate_name (cleared c n) ≡ imediate_name n
unfolding cleared
imediate_name-cleared c (node i v cs) = refl

IsWf-cleared : (c : Bool) (n : RamNode) → IsWf n → IsWf (cleared c n)
unfolding cleared IsWf AreWf
IsWf-cleared true (node i v cs) w = tt
IsWf-cleared false (node i v cs) w = w

AreWf-drop_or_keep :
    (k : Text) (m : RamNode) (cs : Childs)
    → imediate_name m ≡ k
    → Lacks dot k
    → IsWf m
    → AreWf cs
    → AreWf (drop_or_keep k m cs)
unfolding drop_or_keep
AreWf-drop_or_keep k m cs name nodot wm wcs = elim (Bool-cases (is_leaf (childs m))) [
  | inl e ↦ rw e (AreWf-delete_child _ cs wcs)
  | inr e ↦ rw e (AreWf-put_child k m cs name nodot wm wcs)
]

-- One step of a deletion, with what the rest of the descent keeps.
IsWf-delete_at_step :
    (k : Text) (p : List Text) (c : Bool) (n m : RamNode)
    → get_child k (childs n) ≡ some m
    → IsWf n
    → (IsWf m → IsWf (delete_at p c m))
    → IsWf (delete_at (k ∷ p) c n)
IsWf-delete_at_step k [] c n m e w rest =
    let wcs = AreWf-of_IsWf n w in
    let (name, nodot, wm) = IsWf-get_child k (childs n) wcs e in
    rw (delete_at_last k c n e) (
      IsWf-set_childs n _ (
        AreWf-drop_or_keep k (cleared c m) (childs n) (cc (imediate_name-cleared c m)) nodot
          (IsWf-cleared c m wm) wcs))
IsWf-delete_at_step k (j ∷ p) c n m e w rest =
    let wcs = AreWf-of_IsWf n w in
    let (name, nodot, wm) = IsWf-get_child k (childs n) wcs e in
    rw (delete_at_more k j p c n e) (
      IsWf-set_childs n _ (
        AreWf-put_child k (delete_at (j ∷ p) c m) (childs n)
          (cc (imediate_name-delete_at (j ∷ p) c m)) nodot (rest wm) wcs))

-- DeleteValue keeps the invariant.
pub IsWf-delete_at : (p : List Text) (c : Bool) (n : RamNode) → IsWf n → IsWf (delete_at p c n)
unfolding delete_at
IsWf-delete_at [] c n w = w
IsWf-delete_at (k ∷ p) c n w = elim (Option-cases (get_child k (childs n))) [
  | inl e ↦ rw (delete_at_missing k p c n e) w
  | inr (m, e) ↦ IsWf-delete_at_step k p c n m e w (IsWf-delete_at p c m)
]

pub IsWf-empty : IsWf (node [] [] no_childs)
unfolding IsWf AreWf
IsWf-empty = tt

pub IsWf-find : (p : List Text) (n : RamNode) {m : RamNode} → IsWf n → find p n ≡ some m → IsWf m
unfolding find
IsWf-find [] n {m} w e = let same_node : n ≡ m = cc in subst IsWf same_node w
IsWf-find (k ∷ p) n w e = elim (Option-cases (get_child k (childs n))) [
  | inl none_k ↦ absurd (ground arith)
  | inr (m, some_k) ↦
      IsWf-find p m (IsWf-get_child k (childs n) (AreWf-of_IsWf n w) some_k).2 (ground arith)
]

pub keys-Lacks : (cs : Childs) → AreWf cs → All (Lacks dot) (keys cs)
unfolding AreWf keys
keys-Lacks no_childs w = tt
keys-Lacks (child k n cs) (name, nodot, once, wn, wcs) = (nodot, keys-Lacks cs wcs)
