-- ===== src/Controller/Parts.antt =====
-- The parts of a name, which count the steps of GetVars down from it.
use variables_and_streams_se.Base.{
  ℕ, suc, List, [], ◌∷◌, ◌++◌, Bool, true, false, if◌then◌else◌, is_empty, length, ◌≤◌, ◌≡◌, ◌≢◌,
  refl, arith, All, not, ◌&&◌, Bool-cases, inl, inr, length-append, append_assoc,
}
use variables_and_streams_se.Base.Text.{
  Text, codes, split, onto_first, has_prefix, Lacks, split_of_Lacks,
}
use variables_and_streams_se.Storage.Path.{dot, scroll, scroll_path}
use variables_and_streams_se.VarHelper.{controlled_name, visible_childs, starts_with, underscore}
use variables_and_streams_se.Controller.Reading.{collect, child_prefix}

split-ne-nil : (s : Text) → split dot s ≢ []
unfolding split onto_first
split-ne-nil [] = cc
split-ne-nil (c ∷ s) = elim (split dot s) [ [] ↦ ground arith | p ∷ ps ↦ ground arith ]

onto_first-append :
    (c : ℕ) (ps qs : List Text) → ps ≢ [] → onto_first c (ps ++ qs) ≡ onto_first c ps ++ qs
unfolding onto_first
onto_first-append c [] qs h = absurd (h refl)
onto_first-append c (p ∷ ps) qs h = refl

length-onto_first : (c : ℕ) (ps : List Text) → ps ≢ [] → length (onto_first c ps) ≡ length ps
unfolding onto_first
length-onto_first c [] h = absurd (h refl)
length-onto_first c (p ∷ ps) h = refl

pub split-under : (s t : Text) → split dot (s ++ dot ∷ t) ≡ split dot s ++ split dot t
unfolding split onto_first
split-under [] t = ground arith
split-under (c ∷ s) t =
    ground
      (arith, split-under s t, onto_first-append c (split dot s) (split dot t) (split-ne-nil s))

-- The parts of a name; none for the empty one.
unfoldable pub parts : Text → ℕ
parts name = if is_empty name then 0 else length (split dot name)

unfoldable pub IsChildName : Text → Type 0
IsChildName curr = (is_empty curr ≡ false) × Lacks dot curr

pub parts-child :
    (name curr : Text) → IsChildName curr → parts (child_prefix name ++ curr) ≡ suc (parts name)
unfolding parts child_prefix IsChildName
parts-child [] curr (ne, h) = ground (arith, split_of_Lacks dot curr h)
parts-child (c ∷ name) curr (ne, h) =
    rw
      (
        append_assoc (c ∷ name) (dot ∷ []) curr,
        split-under (c ∷ name) curr,
        split_of_Lacks dot curr h,
        length-append (split dot (c ∷ name)) (curr ∷ []),
      )
      (omega arith)

split_of_empty : (s : Text) → is_empty s ≡ true → length (split dot s) ≡ 1
unfolding split
split_of_empty [] h = refl
split_of_empty (c ∷ s) h = cc

split-scroll : (curr s : Text) → length (split dot s) ≤ suc (length (scroll curr s))
unfolding split scroll
split-scroll curr [] = ground arith
split-scroll curr (c ∷ s) = ground (
  arith,
  split-scroll [] s,
  split-scroll (curr ++ c ∷ []) s,
  length-onto_first c (split dot s) (split-ne-nil s),
  split_of_empty s,
)

vars_longer :
    (c : ℕ) (name : Text)
    → scroll [] (codes "vars." ++ c ∷ name) ≡ codes "vars" ∷ scroll [] (c ∷ name)
unfolding scroll
vars_longer c name = refl

vars_bound :
    (c : ℕ) (name : Text)
    → length (split dot (c ∷ name)) ≤ suc (length (scroll [] (codes "vars." ++ c ∷ name)))
vars_bound c name = rw (vars_longer c name) (omega (arith, split-scroll [] (c ∷ name)))

pub parts-path :
    (raw : Bool) (name : Text)
    → is_empty (controlled_name raw name) ≡ false
    → parts name ≤ suc (length (scroll_path (controlled_name raw name)))
unfolding parts controlled_name scroll_path
parts-path raw [] ne = omega arith
parts-path true (c ∷ name) ne = split-scroll [] (c ∷ name)
parts-path false (c ∷ name) ne = elim (Bool-cases (has_prefix (codes "vars.") (c ∷ name))) [
  | inl e ↦ rw e (split-scroll [] (c ∷ name))
  | inr e ↦ rw e (vars_bound c name)
]

pub visible-All :
    (raw : Bool) (childs : List Text)
    → All (Lacks dot) childs
    → All IsChildName (visible_childs raw childs)
unfolding visible_childs IsChildName
visible-All raw [] h = tt
visible-All raw (ch ∷ childs) (h, hs) = elim (Bool-cases (is_empty ch)) [
  | inl e ↦ rw (e) (visible-All raw childs hs)
  | inr e ↦ elim (Bool-cases (not raw && starts_with underscore ch)) [
    | inl e' ↦ rw (e, e') (visible-All raw childs hs)
    | inr e' ↦ rw (e, e') ((e, h), visible-All raw childs hs)
  ]
]

pub collect_same :
    (read read' : Text → List (Text × Text)) (prefix : Text) (childs : List Text)
    (res : List (Text × Text))
    → All (λ (curr : Text). read (prefix ++ curr) ≡ read' (prefix ++ curr)) childs
    → collect read prefix childs res ≡ collect read' prefix childs res
unfolding collect
collect_same read read' prefix [] res h = refl
collect_same read read' prefix (curr ∷ childs) res (h, hs) =
    rw (h) (collect_same read read' prefix childs (read' (prefix ++ curr) ++ res) hs)

pub no_parts :
    (raw : Bool) (name : Text) → is_empty (controlled_name raw name) ≡ true → parts name ≡ 0
unfolding controlled_name parts
no_parts raw [] e = refl
no_parts true (c ∷ name) e = cc
no_parts false (c ∷ name) e = ground arith

pub All-map :
    {A : Type 0} (P Q : A → Type 0) (xs : List A) → ((x : A) → P x → Q x) → All P xs → All Q xs
All-map P Q [] f h = tt
All-map P Q (x ∷ xs) f (h, hs) = (f x h, All-map P Q xs f hs)
