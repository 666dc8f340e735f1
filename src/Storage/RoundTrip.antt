-- ===== src/Storage/RoundTrip.antt =====
-- What a dump file brings back: the values of the tree that it was written from.
use variables_and_streams_se.Base.{
  List, [], ◌∷◌, ◌++◌, false, none, some, if◌then◌else◌, is_empty, get_or, ◌≡◌, ◌≢◌, refl, arith,
  append_assoc, ◌∙◌,
}
use variables_and_streams_se.Base.Text.{Text, same, eq_of_same}
use variables_and_streams_se.Storage.Path.{
  same_path, is_prefix, same_path-append, is_prefix-append, is_prefix-longer,
  same_path_of_not_prefix,
}
use variables_and_streams_se.Storage.Tree.{
  RamNode, Childs, node, no_childs, child, value, childs, set_value, alter, get_child,
}
use variables_and_streams_se.Storage.Values.{value_at, value_at-nil, value_at-cons, value_at-alter}
use variables_and_streams_se.Storage.Wf.{IsWf, AreWf}
use variables_and_streams_se.Storage.Replay.{own, entries, entries_childs, replay, replay-append}

-- What a read of a node gives with the empty text for its default.
unfoldable pub text_at : List Text → RamNode → Text
text_at q n = get_or (value_at q n) []

abbrev pick : Text → Text → Text
pick a b = if is_empty a then b else a

text_at-alter :
    (p q : List Text) (v : Text) (n : RamNode)
    → text_at q (alter p (set_value v) n) ≡ (if same_path p q then v else text_at q n)
unfolding text_at
text_at-alter p q v n = ground (arith, value_at-alter p q v n)

text_at-own :
    (p q : List Text) (v : Text) (n : RamNode)
    → text_at q (replay (own p v) n) ≡ (if same_path p q then pick v (text_at q n) else text_at q n)
unfolding own replay
text_at-own p q [] n = ground arith
text_at-own p q (x ∷ v) n = ground (arith, text_at-alter p q (x ∷ v) n)

-- Entries below p leave the other names alone.
mutual
  unfolding entries entries_childs replay

  text_at-elsewhere :
      (m : RamNode) (p q : List Text) (n : RamNode)
      → is_prefix p q ≡ false
      → text_at q (replay (entries m p) n) ≡ text_at q n
  text_at-elsewhere (node i v cs) p q n h = text_at-elsewhere_childs cs p q n h

  text_at-elsewhere_childs :
      (cs : Childs) (p q : List Text) (n : RamNode)
      → is_prefix p q ≡ false
      → text_at q (replay (entries_childs cs p) n) ≡ text_at q n
  text_at-elsewhere_childs no_childs p q n h = refl
  text_at-elsewhere_childs (child k c cs) p q n h =
      let off = is_prefix-longer p q (k ∷ []) h in
      let n₁ = replay (own (p ++ k ∷ []) (value c)) n in
      rw (replay-append, replay-append)
        (text_at-elsewhere_childs cs p q (replay (entries c (p ++ k ∷ [])) n₁) h
          ∙ text_at-elsewhere c (p ++ k ∷ []) q n₁ off
          ∙ ground (
            arith,
            text_at-own (p ++ k ∷ []) q (value c) n,
            same_path_of_not_prefix (p ++ k ∷ []) q off,
          ))

-- What the children hold at the end of a descent.
unfoldable text_in : List Text → Childs → Text
text_in [] cs = []
text_in (j ∷ r) cs = elim (get_child j cs) [ none ↦ [] | some m ↦ text_at r m ]

text_at_lem :
    (r : List Text) (m : RamNode)
    → text_at r m ≡ (if is_empty r then value m else text_in r (childs m))
unfolding text_at text_in
text_at_lem [] m = rw (value_at-nil m)
text_at_lem (j ∷ r) m = ground (arith, value_at-cons j r m)

text_in-no_childs : (r : List Text) → text_in r no_childs ≡ []
unfolding text_in get_child
text_in-no_childs [] = refl
text_in-no_childs (j ∷ r) = refl

text_in-nil : (cs : Childs) → text_in [] cs ≡ []
unfolding text_in
text_in-nil cs = refl

text_in-child :
    (j : Text) (r : List Text) (k : Text) (c : RamNode) (cs : Childs)
    → text_in (j ∷ r) (child k c cs) ≡ (if same k j then text_at r c else text_in (j ∷ r) cs)
unfolding text_in get_child
text_in-child j r k c cs = ground arith

text_in_missing :
    (j : Text) (r : List Text) (cs : Childs) → get_child j cs ≡ none → text_in (j ∷ r) cs ≡ []
unfolding text_in
text_in_missing j r cs e = ground arith

same_path_nil : (r : List Text) → same_path [] r ≡ is_empty r
unfolding same_path
same_path_nil [] = refl
same_path_nil (j ∷ r) = refl

-- The step for the first child k: n₁ and n₂ are the trees behind its own line and the lines below it.
module _ (k : Text) (c : RamNode) (cs : Childs) (p : List Text) (n n₁ n₂ end : RamNode)
    (once : get_child k cs ≡ none)
    (own_line : (q : List Text)
      → text_at q n₁
        ≡ (if same_path (p ++ k ∷ []) q then pick (value c) (text_at q n) else text_at q n))
    (off : (q : List Text) → is_prefix (p ++ k ∷ []) q ≡ false → text_at q n₂ ≡ text_at q n₁)
    (below : (r : List Text)
      → text_at ((p ++ k ∷ []) ++ r) n₂
        ≡ pick (text_in r (childs c)) (text_at ((p ++ k ∷ []) ++ r) n₁))
    (others : (r : List Text)
      → text_at (p ++ r) end ≡ pick (text_in r cs) (text_at (p ++ r) n₂)) where
  text_at-first_child :
      (r : List Text) → text_at (p ++ r) end ≡ pick (text_in r (child k c cs)) (text_at (p ++ r) n)
  unfolding same_path is_prefix
  text_at-first_child [] = ground (
    arith,
    others [],
    off (p ++ []),
    own_line (p ++ []),
    same_path-append p (k ∷ []) [],
    is_prefix-append p (k ∷ []) [],
    text_in-nil cs,
    text_in-nil (child k c cs),
  )
  text_at-first_child (j ∷ r) = ground (
    arith,
    others (j ∷ r),
    off (p ++ j ∷ r),
    own_line (p ++ j ∷ r),
    below r,
    same_path-append p (k ∷ []) (j ∷ r),
    is_prefix-append p (k ∷ []) (j ∷ r),
    text_at_lem r c,
    append_assoc p (k ∷ []) r,
    text_in-child j r k c cs,
    text_in_missing j r cs,
    eq_of_same k j,
    same_path_nil r,
    text_in-nil (childs c),
  )

mutual
  unfolding entries entries_childs replay IsWf AreWf text_in

  text_at-entries :
      (m : RamNode) (p r : List Text) (n : RamNode)
      → IsWf m
      → text_at (p ++ r) (replay (entries m p) n) ≡ pick (text_in r (childs m)) (text_at (p ++ r) n)
  text_at-entries (node i v cs) p r n w = text_at-entries_childs cs p r n w

  text_at-entries_childs :
      (cs : Childs) (p r : List Text) (n : RamNode)
      → AreWf cs
      → text_at (p ++ r) (replay (entries_childs cs p) n) ≡ pick (text_in r cs) (text_at (p ++ r) n)
  text_at-entries_childs no_childs p [] n w = refl
  text_at-entries_childs no_childs p (j ∷ r) n w = ground (arith, text_in-no_childs (j ∷ r))
  text_at-entries_childs (child k c cs) p r n (name, nodot, once, wc, wcs) =
      let n₁ = replay (own (p ++ k ∷ []) (value c)) n in
      let n₂ = replay (entries c (p ++ k ∷ [])) n₁ in
      rw (replay-append, replay-append)
        (text_at-first_child k c cs p n n₁ n₂ (replay (entries_childs cs p) n₂) once
          (λ q. text_at-own (p ++ k ∷ []) q (value c) n)
          (λ q h. text_at-elsewhere c (p ++ k ∷ []) q n₁ h)
          (λ t. text_at-entries c (p ++ k ∷ []) t n₁ wc) (λ t. text_at-entries_childs cs p t n₂ wcs)
          r)

-- The values that the entries of a tree bring into an empty one.
pub text_at-replay :
    (q : List Text) (m : RamNode)
    → q ≢ []
    → IsWf m
    → text_at q (replay (entries m []) (node [] [] no_childs)) ≡ text_at q m
text_at-replay [] m ne w = absurd (ne refl)
text_at-replay (j ∷ q) m ne w = ground (
  arith,
  text_at-entries m [] (j ∷ q) (node [] [] no_childs) w,
  text_at_lem (j ∷ q) m,
  text_at_lem (j ∷ q) (node [] [] no_childs),
  text_in-no_childs (j ∷ q),
)
