-- ===== src/Base/Text.antt =====
-- Go strings as lists of bytes, and what the program uses of Go's package strings.
use Prim.Native.Nat.{ℕ, zero, suc}
use Prim.Native.Char.{code}
use Prim.Native.String.{String}
use mathlib.Core.Path.{◌≡◌, refl}
use mathlib.Core.Logic.{◌≢◌, ◌↔◌}
use mathlib.Core.Bool.{Bool, true, false, ◌&&◌, ◌||◌}
use mathlib.Core.List.{List, [], ◌∷◌, ◌++◌}
use native.Mathlib.Omega.{arith}
use variables_and_streams_se.Base.Tests.{◌==◌, if◌then◌else◌, leb}
use variables_and_streams_se.Base.Lists.{All, All-append, is_empty}

abbrev pub Text : Type 0
Text = List ℕ

-- The bytes of a literal, which is ASCII wherever it is used.
abbrev pub codes : String → Text
codes String.[] = []
codes (String.◌∷◌ c s) = code c ∷ codes s

-- s == t
unfoldable pub same : Text → Text → Bool
same [] [] = true
same (a ∷ s) (b ∷ t) = a == b && same s t
same _ _ = false

pub same_refl : (s : Text) → same s s ≡ true
unfolding same
same_refl [] = refl
same_refl (a ∷ s) = ground (arith, same_refl s)

pub eq_of_same : (s t : Text) → same s t ≡ true → s ≡ t
unfolding same
eq_of_same [] [] h = refl
eq_of_same [] (b ∷ t) h = cc
eq_of_same (a ∷ s) [] h = cc
eq_of_same (a ∷ s) (b ∷ t) h = ground (arith, eq_of_same s t)

pub same_iff : (s t : Text) → (same s t ≡ true) ↔ (s ≡ t)
same_iff s t = (eq_of_same s t, λ e. rw e (same_refl t))

pub same_of_ne : (s t : Text) → s ≢ t → same s t ≡ false
same_of_ne s t h = ground (arith, eq_of_same s t)

-- b is not a byte of the text.
abbrev pub Lacks : ℕ → Text → Type 0
Lacks b = All (λ c. c ≢ b)

-- strings.Index(s, b): the text before and behind the first byte b, and whether there is one.
unfoldable pub before : ℕ → Text → Text
before b [] = []
before b (c ∷ s) = if c == b then [] else c ∷ before b s

unfoldable pub after : ℕ → Text → Text
after b [] = []
after b (c ∷ s) = if c == b then s else after b s

unfoldable pub has_byte : ℕ → Text → Bool
has_byte b [] = false
has_byte b (c ∷ s) = if c == b then true else has_byte b s

-- One more byte in front of the first part.
unfoldable pub onto_first : ℕ → List Text → List Text
onto_first c [] = (c ∷ []) ∷ []
onto_first c (p ∷ ps) = (c ∷ p) ∷ ps

-- strings.Split(s, b) for a separator of one byte.
unfoldable pub split : ℕ → Text → List Text
split b [] = [] ∷ []
split b (c ∷ s) = if c == b then [] ∷ split b s else onto_first c (split b s)

-- strings.Join(parts, b) for a separator of one byte.
unfoldable pub join : ℕ → List Text → Text
join b [] = []
join b (p ∷ []) = p
join b (p ∷ q ∷ ps) = p ++ b ∷ join b (q ∷ ps)

-- The white space of strings.TrimSpace, as far as it is ASCII.
unfoldable pub is_space : ℕ → Bool
is_space c = (leb 9 c && leb c 13) || c == 32

-- strings.TrimSpace(s) == ""
unfoldable pub is_blank : Text → Bool
unfolding is_space
is_blank [] = true
is_blank (c ∷ s) = is_space c && is_blank s

pub before-append : (b : ℕ) (s t : Text) → Lacks b s → before b (s ++ b ∷ t) ≡ s
unfolding before
before-append b [] t h = ground arith
before-append b (c ∷ s) t h = ground (arith, before-append b s t)

pub after-append : (b : ℕ) (s t : Text) → Lacks b s → after b (s ++ b ∷ t) ≡ t
unfolding after
after-append b [] t h = ground arith
after-append b (c ∷ s) t h = ground (arith, after-append b s t)

pub has_byte-append : (b : ℕ) (s t : Text) → has_byte b (s ++ b ∷ t) ≡ true
unfolding has_byte
has_byte-append b [] t = ground arith
has_byte-append b (c ∷ s) t = ground (arith, has_byte-append b s t)

pub split_of_Lacks : (b : ℕ) (s : Text) → Lacks b s → split b s ≡ s ∷ []
unfolding split onto_first
split_of_Lacks b [] h = refl
split_of_Lacks b (c ∷ s) h = ground (arith, split_of_Lacks b s)

-- A piece with no separator in front of a separator is the first part.
pub split-append : (b : ℕ) (s t : Text) → Lacks b s → split b (s ++ b ∷ t) ≡ s ∷ split b t
unfolding split onto_first
split-append b [] t h = ground arith
split-append b (c ∷ s) t h = ground (arith, split-append b s t)

pub Lacks-append : (b : ℕ) (s t : Text) → Lacks b s → Lacks b t → Lacks b (s ++ t)
Lacks-append b s t hs ht = All-append (λ (c : ℕ). c ≢ b) s t hs ht

-- strings.HasPrefix(s, p)
unfoldable pub has_prefix : Text → Text → Bool
has_prefix [] s = true
has_prefix (a ∷ p) [] = false
has_prefix (a ∷ p) (b ∷ s) = a == b && has_prefix p s

-- strings.Contains(s, w)
unfoldable pub contains_text : Text → Text → Bool
unfolding has_prefix
contains_text w [] = is_empty w
contains_text w (c ∷ s) = has_prefix w (c ∷ s) || contains_text w s

-- s[n:], for n at most the length of s.
unfoldable pub drop_bytes : ℕ → Text → Text
drop_bytes zero s = s
drop_bytes (suc n) [] = []
drop_bytes (suc n) (c ∷ s) = drop_bytes n s
