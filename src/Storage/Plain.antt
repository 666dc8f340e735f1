-- ===== src/Storage/Plain.antt =====
-- Which changes keep the tree within the format of the dump file.
use variables_and_streams_se.Base.{
  List, [], ◌∷◌, Bool, true, false, some, get_or, ◌≡◌, ◌≢◌, arith, Bool-cases, Option-cases, inl,
  inr, All,
}
use variables_and_streams_se.Base.Text.{Text, Lacks, same, eq_of_same}
use variables_and_streams_se.Storage.Tree.{
  RamNode, Childs, node, no_childs, child, value, childs, set_value, set_childs, get_child,
  put_child, delete_child, is_leaf, alter, new_node, cleared, drop_or_keep, delete_at,
}
use variables_and_streams_se.Storage.Values.{delete_at_missing, delete_at_last, delete_at_more}
use variables_and_streams_se.Storage.Dump.{equals, newline}
use variables_and_streams_se.Storage.Replay.{IsPlain, ArePlain}

-- A key that a line of the file can hold.
abbrev pub IsPlainKey : Text → Type 0
IsPlainKey k = (k ≢ []) × Lacks equals k × Lacks newline k

-- A node whose own value fits a line, and all below it.
abbrev pub FitsBelow : RamNode → Type 0
FitsBelow n = Lacks newline (value n) × IsPlain n

IsPlain-get_child :
    (k : Text) (cs : Childs) {m : RamNode}
    → ArePlain cs
    → get_child k cs ≡ some m
    → IsPlainKey k × FitsBelow m
unfolding ArePlain get_child
IsPlain-get_child k no_childs h e = cc
IsPlain-get_child k (child j n cs) {m} (ne, noeq, nonl, fits, plain, plains) e =
    elim (Bool-cases (same j k)) [
      | inl s ↦
          let jk = eq_of_same j k s in
          let nm : n ≡ m = ground arith in rw (← jk, ← nm) ((ne, noeq, nonl), (fits, plain))
      | inr d ↦ IsPlain-get_child k cs plains (ground arith)
    ]

ArePlain-put_child :
    (k : Text) (n : RamNode) (cs : Childs)
    → IsPlainKey k
    → FitsBelow n
    → ArePlain cs
    → ArePlain (put_child k n cs)
unfolding ArePlain put_child
ArePlain-put_child k n no_childs (ne, noeq, nonl) (fits, plain) h =
    (ne, noeq, nonl, fits, plain, tt)
ArePlain-put_child k n (child j m cs) key (fits, plain) (ne, noeq, nonl, fits', plain', plains) =
    elim (Bool-cases (same j k)) [
      | inl s ↦ rw (s) (ne, noeq, nonl, fits, plain, plains)
      | inr d ↦
          rw (d) (ne, noeq, nonl, fits', plain', ArePlain-put_child k n cs key (fits, plain) plains)
    ]

ArePlain-delete_child : (k : Text) (cs : Childs) → ArePlain cs → ArePlain (delete_child k cs)
unfolding ArePlain delete_child
ArePlain-delete_child k no_childs h = tt
ArePlain-delete_child k (child j m cs) (ne, noeq, nonl, fits', plain', plains) =
    elim (Bool-cases (same j k)) [
      | inl s ↦ rw (s) (ArePlain-delete_child k cs plains)
      | inr d ↦ rw (d) (ne, noeq, nonl, fits', plain', ArePlain-delete_child k cs plains)
    ]

ArePlain-of_IsPlain : (n : RamNode) → IsPlain n → ArePlain (childs n)
unfolding IsPlain
ArePlain-of_IsPlain (node i v cs) h = h

FitsBelow-set_childs :
    (n : RamNode) (cs : Childs)
    → Lacks newline (value n)
    → ArePlain cs
    → FitsBelow (set_childs cs n)
unfolding IsPlain
FitsBelow-set_childs (node i v ds) cs f h = (f, h)

FitsBelow-set_value :
    (v : Text) (n : RamNode) → Lacks newline v → IsPlain n → FitsBelow (set_value v n)
unfolding IsPlain
FitsBelow-set_value v (node i w cs) f h = (f, h)

FitsBelow-next :
    (k : Text) (cs : Childs) → ArePlain cs → FitsBelow (get_or (get_child k cs) (new_node k))
unfolding IsPlain ArePlain
FitsBelow-next k cs h = elim (Option-cases (get_child k cs)) [
  | inl e ↦ rw e (tt, tt)
  | inr (m, e) ↦ rw e (IsPlain-get_child k cs h e).1
]

pub FitsBelow-alter :
    (p : List Text) (v : Text) (n : RamNode)
    → All IsPlainKey p
    → Lacks newline v
    → FitsBelow n
    → FitsBelow (alter p (set_value v) n)
unfolding alter
FitsBelow-alter [] v n h f (fits, plain) = FitsBelow-set_value v n f plain
FitsBelow-alter (k ∷ p) v n (key, keys) f (fits, plain) =
    let cs = ArePlain-of_IsPlain n plain in
    FitsBelow-set_childs n _ fits (
      ArePlain-put_child k _ (childs n) key
        (FitsBelow-alter p v (get_or (get_child k (childs n)) (new_node k)) keys f
          (FitsBelow-next k (childs n) cs))
        cs)

FitsBelow-cleared : (c : Bool) (n : RamNode) → IsPlain n → FitsBelow (cleared c n)
unfolding cleared IsPlain ArePlain
FitsBelow-cleared true (node i v cs) w = (tt, tt)
FitsBelow-cleared false (node i v cs) w = (tt, w)

ArePlain-drop_or_keep :
    (k : Text) (m : RamNode) (cs : Childs)
    → IsPlainKey k
    → FitsBelow m
    → ArePlain cs
    → ArePlain (drop_or_keep k m cs)
unfolding drop_or_keep
ArePlain-drop_or_keep k m cs key fits h = elim (Bool-cases (is_leaf (childs m))) [
  | inl e ↦ rw e (ArePlain-delete_child _ cs h)
  | inr e ↦ rw e (ArePlain-put_child k m cs key fits h)
]

FitsBelow-delete_at_step :
    (k : Text) (p : List Text) (c : Bool) (n m : RamNode)
    → get_child k (childs n) ≡ some m
    → FitsBelow n
    → (FitsBelow m → FitsBelow (delete_at p c m))
    → FitsBelow (delete_at (k ∷ p) c n)
FitsBelow-delete_at_step k [] c n m e (fits, plain) rest =
    let cs = ArePlain-of_IsPlain n plain in
    let (key, below) = IsPlain-get_child k (childs n) cs e in
    rw (delete_at_last k c n e) (
      FitsBelow-set_childs n _ fits
        (ArePlain-drop_or_keep k (cleared c m) (childs n) key (FitsBelow-cleared c m below.1) cs))
FitsBelow-delete_at_step k (j ∷ p) c n m e (fits, plain) rest =
    let cs = ArePlain-of_IsPlain n plain in
    let (key, below) = IsPlain-get_child k (childs n) cs e in
    rw (delete_at_more k j p c n e)
      (FitsBelow-set_childs n _ fits (ArePlain-put_child k _ (childs n) key (rest below) cs))

pub FitsBelow-delete_at :
    (p : List Text) (c : Bool) (n : RamNode) → FitsBelow n → FitsBelow (delete_at p c n)
FitsBelow-delete_at [] c n w = unfold delete_at in w
FitsBelow-delete_at (k ∷ p) c n w = elim (Option-cases (get_child k (childs n))) [
  | inl e ↦ rw (delete_at_missing k p c n e) w
  | inr (m, e) ↦ FitsBelow-delete_at_step k p c n m e w (FitsBelow-delete_at p c m)
]

pub FitsBelow-empty : FitsBelow (node [] [] no_childs)
unfolding IsPlain ArePlain
FitsBelow-empty = (tt, tt)
