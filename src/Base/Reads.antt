-- ===== src/Base/Reads.antt =====
-- Lists of numbered entries, as they are read one by one from a state.
use Prim.Native.Nat.{ℕ, zero, suc, ◌+◌, ◌-◌, ◌≤◌, ◌<◌}
use mathlib.Core.Path.{◌≡◌, refl, ◌∙◌}
use mathlib.Core.Option.{some}
use mathlib.Core.List.{List, [], ◌∷◌, ◌++◌}
use native.Mathlib.Omega.{arith}
use variables_and_streams_se.Base.Tests.{if◌then◌else◌, ltb}
use variables_and_streams_se.Base.Lists.{length, get_elem?}

-- The list without its entry i.
abbrev pub remove_at : {A : Type 0} → ℕ → List A → List A
remove_at i [] = []
remove_at zero (x ∷ xs) = xs
remove_at (suc i) (x ∷ xs) = x ∷ remove_at i xs

pub length-remove_at :
    {A : Type 0} (xs : List A) (i : ℕ) → i < length xs → length (remove_at i xs) ≡ length xs - 1
length-remove_at [] i h = absurd (omega arith)
length-remove_at (x ∷ xs) zero h = omega arith
length-remove_at (x ∷ xs) (suc i) h = omega (arith, length-remove_at xs i (omega arith))

pub elem_below :
    {A : Type 0} (xs : List A) (i : ℕ) → i < length xs → (x : A) × (get_elem? xs i ≡ some x)
elem_below [] i h = absurd (omega arith)
elem_below (x ∷ xs) zero h = (x, refl)
elem_below (x ∷ xs) (suc i) h = elem_below xs i (omega arith)

module _ {A Db : Type 0} (at : ℕ → Db → A) where
  -- The entries from number i on begin with these.
  abbrev pub Reads : ℕ → List A → Db → Type 0
  Reads i [] db = Unit
  Reads i (x ∷ xs) db = (at i db ≡ x) × Reads (suc i) xs db

  pub frame-Reads :
      (s : ℕ) (xs : List A) (db db' : Db)
      → ((k : ℕ) → k < s + length xs → at k db' ≡ at k db)
      → Reads s xs db
      → Reads s xs db'
  frame-Reads s [] db db' e r = tt
  frame-Reads s (x ∷ xs) db db' e (h, r) =
      (e s (omega arith) ∙ h, frame-Reads (suc s) xs db db' (λ k lt. e k (omega arith)) r)

  shift-Reads :
      (s : ℕ) (xs : List A) (db db' : Db)
      → ((k : ℕ) → s ≤ k → k < s + length xs → at k db' ≡ at (suc k) db)
      → Reads (suc s) xs db
      → Reads s xs db'
  shift-Reads s [] db db' e r = tt
  shift-Reads s (x ∷ xs) db db' e (h, r) = (
    e s (omega arith) (omega arith) ∙ h,
    shift-Reads (suc s) xs db db' (λ k le lt. e k (omega arith) (omega arith)) r,
  )

  pub Reads-remove_at :
      (s : ℕ) (xs : List A) (i : ℕ) (db db' : Db)
      → ((k : ℕ)
          → k + 1 < s + length xs
          → at k db' ≡ (if ltb k (s + i) then at k db else at (suc k) db))
      → i < length xs
      → Reads s xs db
      → Reads s (remove_at i xs) db'
  Reads-remove_at s [] i db db' e lt r = tt
  Reads-remove_at s (x ∷ xs) zero db db' e lt (h, r) =
      shift-Reads s xs db db' (λ k le lt'. e k (omega arith) ∙ ground arith) r
  Reads-remove_at s (x ∷ xs) (suc i) db db' e lt (h, r) = (
    e s (omega arith) ∙ ground arith,
    Reads-remove_at (suc s) xs i db db' (λ k lt'. e k (omega arith) ∙ ground arith) (omega arith) r,
  )

  pub Reads-append :
      (s : ℕ) (xs : List A) (x : A) (db : Db)
      → Reads s xs db
      → at (s + length xs) db ≡ x
      → Reads s (xs ++ x ∷ []) db
  Reads-append s [] x db r e = (ground arith, tt)
  Reads-append s (y ∷ xs) x db (h, r) e = (h, Reads-append (suc s) xs x db r (ground arith))

  pub Reads-get_elem? :
      (s : ℕ) (xs : List A) (i : ℕ) (x : A) (db : Db)
      → Reads s xs db
      → get_elem? xs i ≡ some x
      → at (s + i) db ≡ x
  Reads-get_elem? s [] i x db r e = cc
  Reads-get_elem? s (y ∷ xs) zero x db (h, r) e = ground arith
  Reads-get_elem? s (y ∷ xs) (suc i) x db (h, r) e =
      ground (arith, Reads-get_elem? (suc s) xs i x db r e)
