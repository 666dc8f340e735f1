-- ===== src/Controller/Names.antt =====
-- The names that `SetVar` lets through, and the guards that it applies to them.
use variables_and_streams_se.Base.{
  ℕ, List, [], ◌∷◌, Bool, true, false, ◌||◌, ◌&&◌, ◌==◌, ◌≡◌, refl, arith, if◌then◌else◌, length,
  ltb,
}
use variables_and_streams_se.Base.Text.{Text, codes, has_byte, split, onto_first}
use variables_and_streams_se.Base.Decimal.{ℤ, pos, negsuc}
use variables_and_streams_se.Storage.Path.{dot}
use variables_and_streams_se.VarHelper.{underscore, starts_with}
use variables_and_streams_se.VarHelper.Internal.{is_internal}

abbrev pub valid_chars : Text
valid_chars = codes "abcdefghijklmnopqrstuvwxyzABCDEFGHIJKLMNOPQRSTUVWXYZ0123456789._/\\,.-*"

-- misc.GetOnly. The valid characters are all ASCII, so that it can be read byte by byte.
unfoldable pub get_only : Text → Text → Text
get_only [] valid = []
get_only (c ∷ source) valid =
    let rest = get_only source valid in if has_byte c valid then c ∷ rest else rest

unfoldable pub contains_underscore_dot : Text → Bool
contains_underscore_dot [] = false
contains_underscore_dot (a ∷ []) = false
contains_underscore_dot (a ∷ b ∷ s) =
    if a == dot && b == underscore then true else contains_underscore_dot (b ∷ s)

-- len(name) > limit, for a limit that may be negative.
abbrev pub exceeds : ℕ → ℤ → Bool
exceeds n (pos limit) = ltb limit n
exceeds n (negsuc limit) = true

abbrev pub is_positive : ℤ → Bool
is_positive (pos n) = ltb 0 n
is_positive (negsuc n) = false

unfoldable pub any_exceeds : List Text → ℤ → Bool
any_exceeds [] limit = false
any_exceeds (p ∷ parts) limit = if exceeds (length p) limit then true else any_exceeds parts limit

-- The parts whose lengths are checked.
unfoldable pub name_parts : Text → List Text
name_parts name = if has_byte dot name then split dot name else name ∷ []

abbrev first_part : List Text → Text
first_part [] = []
first_part (p ∷ ps) = p

abbrev pub other_parts : List Text → List Text
other_parts [] = []
other_parts (p ∷ ps) = ps

is_internal_parts :
    (ps : List Text)
    → is_internal ps ≡ (starts_with underscore (first_part ps) || is_internal (other_parts ps))
unfolding is_internal starts_with
is_internal_parts [] = refl
is_internal_parts (p ∷ ps) = refl

parts-onto_first :
    (c : ℕ) (ps : List Text)
    → (first_part (onto_first c ps) ≡ c ∷ first_part ps)
      × (other_parts (onto_first c ps) ≡ other_parts ps)
unfolding onto_first
parts-onto_first c [] = (refl, refl)
parts-onto_first c (p ∷ ps) = (refl, refl)

starts_with-split :
    (s : Text) → starts_with underscore (first_part (split dot s)) ≡ starts_with underscore s
unfolding split starts_with
starts_with-split [] = refl
starts_with-split (c ∷ s) = ground (arith, parts-onto_first c (split dot s))

unfold_starts : (b : ℕ) (s : Text) → starts_with underscore (b ∷ s) ≡ (b == underscore)
unfolding starts_with
unfold_starts b s = refl

pub is_internal-other_parts :
    (s : Text) → is_internal (other_parts (split dot s)) ≡ contains_underscore_dot s
unfolding split contains_underscore_dot
is_internal-other_parts [] = unfold is_internal in refl
is_internal-other_parts (c ∷ []) = unfold is_internal onto_first starts_with in ground arith
is_internal-other_parts (c ∷ b ∷ s) = ground (
  arith,
  is_internal-other_parts (b ∷ s),
  parts-onto_first c (split dot (b ∷ s)),
  is_internal_parts (split dot (b ∷ s)),
  starts_with-split (b ∷ s),
  unfold_starts b s,
)

-- The first byte and the scan for "._" together find a part that starts with an underscore.
pub internal_guard :
    (s : Text) → (starts_with underscore s || contains_underscore_dot s) ≡ is_internal (split dot s)
internal_guard s = rw (is_internal_parts (split dot s), starts_with-split, is_internal-other_parts)
