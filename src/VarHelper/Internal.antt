-- ===== src/VarHelper/Internal.antt =====
-- Which names reach the internal nodes of a variable: those with a part that starts with an
-- underscore, such as its lock flag.
use variables_and_streams_se.Base.{
  List, [], ◌∷◌, ◌++◌, Bool, true, false, ◌||◌, ◌≡◌, ◌≢◌, refl, arith, is_empty, append-nil,
  Bool-cases, inl, inr,
}
use variables_and_streams_se.Base.Text.{Text, codes, eq_of_same, split, onto_first}
use variables_and_streams_se.Storage.Path.{
  scroll, prepend, prepend-nil, prepend-onto_first, dot, scroll_path, is_prefix, same_path,
  eq_of_same_path, scroll_path-under,
}
use variables_and_streams_se.Storage.Interface.{IStorage}
use variables_and_streams_se.VarHelper.{underscore, starts_with, flag_name}

-- A part of the name starts with an underscore.
unfoldable pub is_internal : List Text → Bool
is_internal [] = false
is_internal (k ∷ ks) = starts_with underscore k || is_internal ks

is_internal-append : (p q : List Text) → is_internal q ≡ true → is_internal (p ++ q) ≡ true
unfolding is_internal
is_internal-append [] q h = h
is_internal-append (k ∷ p) q h = ground (arith, is_internal-append p q h)

-- What is on the way to a name that is not internal is not internal.
pub not_prefix :
    (p q : List Text) → is_internal p ≡ true → is_internal q ≡ false → is_prefix p q ≡ false
unfolding is_internal is_prefix
not_prefix [] q i c = cc
not_prefix (k ∷ p) [] i c = refl
not_prefix (k ∷ p) (j ∷ q) i c = ground (arith, not_prefix p q, eq_of_same k j)

pub not_same_path :
    (p q : List Text) → is_internal p ≡ true → is_internal q ≡ false → same_path q p ≡ false
not_same_path p q i c = elim (Bool-cases (same_path q p)) [
  | inl e ↦ absurd (ground (arith, eq_of_same_path q p e))
  | inr e ↦ e
]

flag_name_starts : (flag : Text) → starts_with underscore (flag_name flag) ≡ true
unfolding flag_name starts_with
flag_name_starts [] = ground arith
flag_name_starts (c ∷ flag) = ground arith

flag_name-ne-nil : (flag : Text) → flag_name flag ≢ []
unfolding flag_name starts_with
flag_name-ne-nil [] = ground arith
flag_name-ne-nil (c ∷ flag) = ground arith

-- The key of the lock flag.
abbrev pub lock_key : Text → Text
lock_key name = name ++ dot ∷ flag_name (codes "lock")

lock_part : is_internal (scroll_path (flag_name (codes "lock"))) ≡ true
unfolding flag_name starts_with scroll_path is_internal
lock_part = refl

pub lock_key-internal : (name : Text) → is_internal (scroll_path (lock_key name)) ≡ true
lock_key-internal name =
    rw (scroll_path-under name (flag_name (codes "lock")) (flag_name-ne-nil (codes "lock")))
      (is_internal-append (split dot name) _ lock_part)

module _ (st : IStorage) where
  open st use {Db, set, held, held_set}

  -- A write at a name that is not internal leaves what the internal names hold.
  pub held_internal :
      (name other v : Text) (db : Db)
      → is_internal (scroll_path name) ≡ false
      → is_internal (scroll_path other) ≡ true
      → held other (set name v db) ≡ held other db
  held_internal name other v db clean internal = ground (
    arith,
    held_set name other v db,
    not_prefix (scroll_path other) (scroll_path name) internal clean,
    not_same_path (scroll_path other) (scroll_path name) internal clean,
  )

internal_not_empty : (s : Text) → is_empty s ≡ true → s ≡ []
internal_not_empty [] h = refl
internal_not_empty (c ∷ s) h = cc

is_internal-scroll :
    (curr s : Text) → is_internal (scroll curr s) ≡ is_internal (prepend curr (split dot s))
unfolding scroll split prepend is_internal
is_internal-scroll curr [] = rw append-nil
is_internal-scroll curr (c ∷ s) = elim (Bool-cases (is_empty s)) [
  | inl e ↦
      rw (internal_not_empty s e) (unfold onto_first starts_with in ground (arith, append-nil curr))
  | inr e ↦ ground (
    arith,
    is_internal-scroll [] s,
    is_internal-scroll (curr ++ c ∷ []) s,
    append-nil curr,
    prepend-nil dot s,
    prepend-onto_first curr c (split dot s),
  )
]

-- The parts between dots and the nodes that a name goes through agree on whether it is internal.
pub is_internal-scroll_path :
    (name : Text) → is_internal (scroll_path name) ≡ is_internal (split dot name)
unfolding scroll_path
is_internal-scroll_path name = rw (is_internal-scroll [] name, prepend-nil dot name)
