-- ===== src/Base/Decimal.antt =====
-- Go's int as the library's strconv prints and reads it: strconv.Itoa, and strconv.Atoi as
-- `DynamicVar.GetInt64` (sources/misc/dynamicvar.go) uses it.
use Prim.Native.Nat.{ℕ, zero, suc, ◌+◌, ◌-◌, ◌*◌, ◌/◌, ◌%◌, ◌^◌, ◌≤◌, ◌<◌}
use mathlib.Core.Path.{◌≡◌, refl, ◌∙◌}
use mathlib.Core.Logic.{◌≢◌}
use mathlib.Core.Bool.{Bool, true, false, ◌||◌}
use mathlib.Core.Option.{Option, none, some}
use mathlib.Core.List.{[], ◌∷◌}
use native.Mathlib.Omega.{arith}
use variables_and_streams_se.Base.Tests.{◌==◌, ltb, if◌then◌else◌}
use variables_and_streams_se.Base.Lists.{All}
use variables_and_streams_se.Base.Text.{Text, Lacks}

-- `negsuc n` is -(n + 1).
pub data ℤ : Type 0 where
  pos : ℕ → ℤ
  negsuc : ℕ → ℤ

-- The rounds of a loop `for i := 0; i < n; i++`.
abbrev pub rounds : ℤ → ℕ
rounds (pos n) = n
rounds (negsuc n) = 0

-- n + 1 and n - 1, within the range of the machine's integers.
abbrev pub increment : ℤ → ℤ
increment (pos n) = pos (suc n)
increment (negsuc zero) = pos 0
increment (negsuc (suc n)) = negsuc n

abbrev pub decrement : ℤ → ℤ
decrement (pos zero) = negsuc 0
decrement (pos (suc n)) = pos n
decrement (negsuc n) = negsuc (suc n)

-- n - m, within the range of the machine's integers.
abbrev pub minus : ℕ → ℤ → ℤ
minus n (negsuc m) = pos (n + m + 1)
minus n (pos m) = if ltb n m then negsuc (m - n - 1) else pos (n - m)

-- The digits of n in front of a text. The fuel is at least the number of digits.
unfoldable pub digits : ℕ → ℕ → Text → Text
digits zero n out = out
digits (suc f) n out =
    let more = digits f (n / 10) ((b'0' + n % 10) ∷ out) in
    if ltb n 10 then (b'0' + n) ∷ out else more

unfoldable pub itoa_nat : ℕ → Text
unfolding digits
itoa_nat n = digits (suc n) n []

-- strconv.Itoa(n)
unfoldable pub itoa : ℤ → Text
unfolding itoa_nat
itoa (pos n) = itoa_nat n
itoa (negsuc n) = b'-' ∷ itoa_nat (suc n)

-- The number that decimal digits spell behind n.
unfoldable pub scan : Text → ℕ → Option ℕ
scan [] n = some n
scan (c ∷ s) n =
    let more = scan s (n * 10 + (c - b'0')) in if ltb c b'0' || ltb b'9' c then none else more

abbrev pub max_int : ℕ
max_int = 2 ^ 63 - 1

-- The digits behind a sign, if there is one at least.
unfoldable pub magnitude : Text → Option ℕ
unfolding scan
magnitude [] = none
magnitude (c ∷ s) = scan (c ∷ s) 0

unfoldable pub from_magnitude : Bool → Option ℕ → Option ℤ
from_magnitude negative none = none
from_magnitude true (some zero) = some (pos 0)
from_magnitude true (some (suc n)) = if ltb max_int n then none else some (negsuc n)
from_magnitude false (some n) = if ltb max_int n then none else some (pos n)

-- strconv.Atoi(s); none stands for its error.
unfoldable pub atoi : Text → Option ℤ
unfolding magnitude from_magnitude
atoi [] = none
atoi (c ∷ s) =
    if c == b'-'
    then from_magnitude true (magnitude s)
    else if c == b'+'
    then from_magnitude false (magnitude s)
    else from_magnitude false (magnitude (c ∷ s))

-- DynamicVar.GetInt64: 0 where Atoi gives an error.
unfoldable pub get_int64 : Text → ℤ
get_int64 s = elim (atoi s) [ none ↦ pos 0 | some n ↦ n ]

abbrev IsDigit : ℕ → Type 0
IsDigit c = (b'0' ≤ c) × (c ≤ b'9')

digits-All : (f n : ℕ) (out : Text) → All IsDigit out → All IsDigit (digits f n out)
unfolding digits
digits-All zero n out h = h
digits-All (suc f) n out h = ground (arith, digits-All f (n / 10) ((b'0' + n % 10) ∷ out))

pub itoa_nat-All : (n : ℕ) → All IsDigit (itoa_nat n)
unfolding itoa_nat
itoa_nat-All n = digits-All (suc n) n [] tt

scan_digit : (n : ℕ) (out : Text) → scan ((b'0' + n % 10) ∷ out) (n / 10) ≡ scan out n
unfolding scan
scan_digit n out = ground arith

scan-digits : (f n : ℕ) (out : Text) → n < f → scan (digits f n out) 0 ≡ scan out n
unfolding digits
scan-digits zero n out h = absurd (omega arith)
scan-digits (suc f) n out h =
    ground (arith, scan-digits f (n / 10) ((b'0' + n % 10) ∷ out), scan_digit n out)

pub scan-itoa_nat : (n : ℕ) → scan (itoa_nat n) 0 ≡ some n
unfolding itoa_nat
scan-itoa_nat n = scan-digits (suc n) n [] (omega arith) ∙ unfold scan in refl

pub itoa_nat-injective : (n m : ℕ) → itoa_nat n ≡ itoa_nat m → n ≡ m
itoa_nat-injective n m e = cc (scan-itoa_nat n, scan-itoa_nat m)

digits-ne-nil : (f n : ℕ) (out : Text) → out ≢ [] → digits f n out ≢ []
unfolding digits
digits-ne-nil zero n out h = h
digits-ne-nil (suc f) n out h = ground (arith, digits-ne-nil f (n / 10) ((b'0' + n % 10) ∷ out))

pub itoa_nat-ne-nil : (n : ℕ) → itoa_nat n ≢ []
unfolding itoa_nat digits
itoa_nat-ne-nil n = ground (arith, digits-ne-nil n (n / 10) ((b'0' + n % 10) ∷ []))

atoi_of_digits : (s : Text) → All IsDigit s → atoi s ≡ from_magnitude false (magnitude s)
unfolding atoi
atoi_of_digits [] h = unfold magnitude from_magnitude in refl
atoi_of_digits (c ∷ s) h = ground arith

magnitude_of_ne : (s : Text) → s ≢ [] → magnitude s ≡ scan s 0
unfolding magnitude
magnitude_of_ne [] h = absurd (h refl)
magnitude_of_ne (c ∷ s) h = refl

-- An index that fits a Go int is read back as it was written.
pub get_int64-itoa_nat : (n : ℕ) → n ≤ max_int → get_int64 (itoa_nat n) ≡ pos n
unfolding get_int64 from_magnitude
get_int64-itoa_nat n h =
    rw
      (
        atoi_of_digits _ (itoa_nat-All n),
        magnitude_of_ne _ (itoa_nat-ne-nil n),
        scan-itoa_nat,
        get_int64,
      )
      (ground arith)

digits-Lacks : (b : ℕ) (s : Text) → b < b'0' → All IsDigit s → Lacks b s
digits-Lacks b [] h d = tt
digits-Lacks b (c ∷ s) h (dc, ds) = (omega arith, digits-Lacks b s h ds)

-- An index has no byte below the digits, so no dot.
pub itoa_nat-Lacks : (b n : ℕ) → b < b'0' → Lacks b (itoa_nat n)
itoa_nat-Lacks b n h = digits-Lacks b (itoa_nat n) h (itoa_nat-All n)

-- An index is no word.
pub itoa_nat-ne-word : (c : ℕ) (s : Text) (n : ℕ) → b'9' < c → c ∷ s ≢ itoa_nat n
itoa_nat-ne-word c s n h e = absurd (not_digit (itoa_nat n) e (itoa_nat-All n))
  where
    not_digit : (t : Text) → c ∷ s ≡ t → All IsDigit t → ⊥
    not_digit [] e' d = cc
    not_digit (x ∷ t) e' d = ground arith
