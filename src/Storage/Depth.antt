-- ===== src/Storage/Depth.antt =====
-- How deep the tree is, which bounds every descent by children.
use variables_and_streams_se.Base.{
  ℕ, suc, List, [], ◌∷◌, false, some, if◌then◌else◌, is_empty, length, ltb, ◌≤◌, ◌+◌, ◌≡◌, refl,
  arith, Option-cases, inl, inr,
}
use variables_and_streams_se.Base.Text.{Text}
use variables_and_streams_se.Storage.{RamCacheDb, get_childs}
use variables_and_streams_se.Storage.Path.{scroll_path}
use variables_and_streams_se.Storage.Tree.{
  RamNode, Childs, node, no_childs, child, childs, get_child, find, keys,
}

abbrev larger : ℕ → ℕ → ℕ
larger a b = if ltb a b then b else a

unfoldable mutual
  pub height : RamNode → ℕ
  height (node i v cs) = heights cs

  heights : Childs → ℕ
  heights no_childs = 0
  heights (child k n cs) = larger (suc (height n)) (heights cs)

height-get_child :
    (k : Text) (cs : Childs) (m : RamNode) → get_child k cs ≡ some m → suc (height m) ≤ heights cs
unfolding get_child heights
height-get_child k no_childs m e = cc
height-get_child k (child j n cs) m e = ground (arith, height-get_child k cs m)

height-find :
    (ks : List Text) (n m : RamNode) → find ks n ≡ some m → length ks + height m ≤ height n
unfolding find height
height-find [] n m e = ground arith
height-find (k ∷ ks) (node i v cs) m e = elim (Option-cases (get_child k cs)) [
  | inl o ↦ absurd (ground arith)
  | inr (c, o) ↦ ground (arith, height-find ks c m, height-get_child k cs c)
]

no_height : (n : RamNode) → height n ≡ 0 → keys (childs n) ≡ []
unfolding height heights keys
no_height (node i v no_childs) h = refl
no_height (node i v (child k n cs)) h = absurd (ground arith)

unfoldable pub depth : RamCacheDb → ℕ
depth r = height r.root

-- A name that goes through at least as many nodes as the tree is deep has no children.
pub get_childs_deep :
    (name : Text) (r : RamCacheDb)
    → is_empty name ≡ false
    → depth r ≤ length (scroll_path name)
    → get_childs name r ≡ []
unfolding get_childs depth
get_childs_deep [] r ne h = cc
get_childs_deep (c ∷ name) r ne h = elim (Option-cases (find (scroll_path (c ∷ name)) r.root)) [
  | inl e ↦ rw (e, get_childs) refl
  | inr (m, e) ↦
      rw (e, get_childs)
        (no_height m (omega (arith, height-find (scroll_path (c ∷ name)) r.root m e)))
]
