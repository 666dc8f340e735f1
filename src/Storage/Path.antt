-- ===== src/Storage/Path.antt =====
-- The descent of `scrollTree` (sources/services/storage/ramcachedb.go): the immediate names that a
-- dotted name goes through.
use variables_and_streams_se.Base.{
  ℕ, List, [], ◌∷◌, ◌++◌, Bool, true, false, ◌&&◌, ◌≡◌, ◌≢◌, refl, arith, ◌==◌, if◌then◌else◌,
  is_empty, append-nil, append_assoc, Bool-cases, inl, inr, All, All-append, ◌∙◌,
}
use variables_and_streams_se.Base.Text.{
  Text, Lacks, same, same_refl, eq_of_same, has_byte, before, after, split, onto_first,
}

abbrev pub dot : ℕ
dot = b'.'

-- `currName` of each call of scrollTree, in order. `curr` is what is read of the current name. A dot
-- at the very end of a name opens no further call.
unfoldable pub scroll : Text → Text → List Text
scroll curr [] = curr ∷ []
scroll curr (c ∷ s) = elim (c == dot) [
  | true ↦ if is_empty s then curr ∷ [] else curr ∷ scroll [] s
  | false ↦ scroll (curr ++ c ∷ []) s
]

unfoldable pub scroll_path : Text → List Text
unfolding scroll
scroll_path name = scroll [] name

scroll_cut :
    (curr s : Text)
    → scroll curr s ≡ (
        if has_byte dot s
        then (if is_empty (after dot s)
            then (curr ++ before dot s) ∷ []
            else (curr ++ before dot s) ∷ scroll [] (after dot s))
        else (curr ++ s) ∷ [])
unfolding scroll has_byte before after
scroll_cut curr [] = rw append-nil
scroll_cut curr (c ∷ s) = ground (
  arith,
  scroll_cut (curr ++ c ∷ []) s,
  append-nil curr,
  append_assoc curr (c ∷ []) s,
  append_assoc curr (c ∷ []) (before dot s),
)

-- The names are those of the recursion in the source: a name with no dot is the only one; else the
-- text before the first dot is the first, and the rest of the name gives the others unless it is
-- empty.
pub scroll_path_step :
    (name : Text)
    → scroll_path name ≡ (
        if has_byte dot name
        then (if is_empty (after dot name)
            then before dot name ∷ []
            else before dot name ∷ scroll_path (after dot name))
        else name ∷ [])
unfolding scroll_path
scroll_path_step name = scroll_cut [] name

-- Two names go through the same nodes.
unfoldable pub same_path : List Text → List Text → Bool
same_path [] [] = true
same_path (a ∷ p) (b ∷ q) = same a b && same_path p q
same_path _ _ = false

-- The nodes of p are on the way to q, or are all of it.
unfoldable pub is_prefix : List Text → List Text → Bool
is_prefix [] q = true
is_prefix (a ∷ p) [] = false
is_prefix (a ∷ p) (b ∷ q) = same a b && is_prefix p q

pub same_path_refl : (p : List Text) → same_path p p ≡ true
unfolding same_path
same_path_refl [] = refl
same_path_refl (a ∷ p) = ground (arith, same_refl a, same_path_refl p)

pub eq_of_same_path : (p q : List Text) → same_path p q ≡ true → p ≡ q
unfolding same_path
eq_of_same_path [] [] h = refl
eq_of_same_path [] (b ∷ q) h = cc
eq_of_same_path (a ∷ p) [] h = cc
eq_of_same_path (a ∷ p) (b ∷ q) h = ground (arith, eq_of_same a b, eq_of_same_path p q)

pub same_path_of_ne : (p q : List Text) → p ≢ q → same_path p q ≡ false
same_path_of_ne p q h = ground (arith, eq_of_same_path p q)

-- A name with no dot is one step of the descent.
scroll_of_Lacks : (curr s : Text) → Lacks dot s → scroll curr s ≡ (curr ++ s) ∷ []
unfolding scroll
scroll_of_Lacks curr [] h = rw append-nil
scroll_of_Lacks curr (c ∷ s) h =
    ground (arith, scroll_of_Lacks (curr ++ c ∷ []) s, append_assoc curr (c ∷ []) s)

-- In front of a dot and more text, a name with no dot is the first step.
scroll-dot :
    (curr s rest : Text)
    → Lacks dot s
    → rest ≢ []
    → scroll curr (s ++ dot ∷ rest) ≡ (curr ++ s) ∷ scroll [] rest
unfolding scroll
scroll-dot curr [] [] h ne = absurd (ne refl)
scroll-dot curr [] (r ∷ rest) h ne = ground (arith, append-nil curr)
scroll-dot curr (c ∷ s) rest h ne =
    ground (arith, scroll-dot (curr ++ c ∷ []) s rest, append_assoc curr (c ∷ []) s)

pub scroll_path_of_Lacks : (s : Text) → Lacks dot s → scroll_path s ≡ s ∷ []
unfolding scroll_path
scroll_path_of_Lacks s h = scroll_of_Lacks [] s h

pub scroll_path-dot :
    (s rest : Text) → Lacks dot s → rest ≢ [] → scroll_path (s ++ dot ∷ rest) ≡ s ∷ scroll_path rest
unfolding scroll_path
scroll_path-dot s rest h ne = scroll-dot [] s rest h ne

scroll-All-Lacks : (curr s : Text) → Lacks dot curr → All (Lacks dot) (scroll curr s)
unfolding scroll
scroll-All-Lacks curr [] h = (h, tt)
scroll-All-Lacks curr (c ∷ s) h = elim (Bool-cases (c == dot)) [
  | inl e ↦ ground (arith, scroll-All-Lacks [] s)
  | inr e ↦
      ground
        (arith, scroll-All-Lacks (curr ++ c ∷ []) s, All-append (λ (x : ℕ). x ≢ dot) curr (c ∷ []))
]

-- No step of a descent has a dot.
pub scroll_path-All-Lacks : (name : Text) → All (Lacks dot) (scroll_path name)
unfolding scroll_path
scroll_path-All-Lacks name = scroll-All-Lacks [] name tt

scroll-ne-nil : (curr s : Text) → scroll curr s ≢ []
unfolding scroll
scroll-ne-nil curr [] = cc
scroll-ne-nil curr (c ∷ s) = ground (arith, scroll-ne-nil (curr ++ c ∷ []) s)

pub scroll_path-ne-nil : (name : Text) → scroll_path name ≢ []
unfolding scroll_path
scroll_path-ne-nil name = scroll-ne-nil [] name

pub same_path-append : (p q r : List Text) → same_path (p ++ q) (p ++ r) ≡ same_path q r
unfolding same_path
same_path-append [] q r = refl
same_path-append (a ∷ p) q r = ground (arith, same_refl a, same_path-append p q r)

pub is_prefix-append : (p q r : List Text) → is_prefix (p ++ q) (p ++ r) ≡ is_prefix q r
unfolding is_prefix
is_prefix-append [] q r = refl
is_prefix-append (a ∷ p) q r = ground (arith, same_refl a, is_prefix-append p q r)

pub is_prefix-longer : (p q r : List Text) → is_prefix p q ≡ false → is_prefix (p ++ r) q ≡ false
unfolding is_prefix
is_prefix-longer [] q r h = cc
is_prefix-longer (a ∷ p) [] r h = refl
is_prefix-longer (a ∷ p) (b ∷ q) r h = ground (arith, is_prefix-longer p q r)

pub same_path_of_not_prefix : (p q : List Text) → is_prefix p q ≡ false → same_path p q ≡ false
unfolding is_prefix same_path
same_path_of_not_prefix [] q h = cc
same_path_of_not_prefix (a ∷ p) [] h = refl
same_path_of_not_prefix (a ∷ p) (b ∷ q) h = ground (arith, same_path_of_not_prefix p q)

-- What is read of the current name, in front of the first of the parts.
unfoldable pub prepend : Text → List Text → List Text
prepend curr [] = curr ∷ []
prepend curr (p ∷ ps) = (curr ++ p) ∷ ps

pub prepend-nil : (b : ℕ) (s : Text) → prepend [] (split b s) ≡ split b s
unfolding split onto_first prepend
prepend-nil b [] = refl
prepend-nil b (c ∷ s) = ground (arith, prepend-nil b s)

pub prepend-onto_first :
    (curr : Text) (c : ℕ) (ps : List Text)
    → prepend curr (onto_first c ps) ≡ prepend (curr ++ c ∷ []) ps
unfolding prepend onto_first
prepend-onto_first curr c [] = refl
prepend-onto_first curr c (p ∷ ps) = rw append_assoc

not_empty : (s : Text) (b : ℕ) (t : Text) → is_empty (s ++ b ∷ t) ≡ false
not_empty [] b t = refl
not_empty (c ∷ s) b t = refl

scroll-split :
    (curr s rest : Text)
    → rest ≢ []
    → scroll curr (s ++ dot ∷ rest) ≡ prepend curr (split dot s) ++ scroll [] rest
unfolding scroll split onto_first prepend
scroll-split curr [] [] ne = absurd (ne refl)
scroll-split curr [] (r ∷ rest) ne = ground (arith, append-nil curr)
scroll-split curr (c ∷ s) rest ne = ground (
  arith,
  scroll-split [] s rest,
  scroll-split (curr ++ c ∷ []) s rest,
  prepend-nil dot s,
  prepend-onto_first curr c (split dot s),
  not_empty s dot rest,
  append-nil curr,
)

-- Below a name go the parts of the name, an empty last one included, and then the rest.
pub scroll_path-under :
    (name rest : Text)
    → rest ≢ []
    → scroll_path (name ++ dot ∷ rest) ≡ split dot name ++ scroll_path rest
unfolding scroll_path
scroll_path-under name rest ne = scroll-split [] name rest ne ∙ rw (prepend-nil dot name)
