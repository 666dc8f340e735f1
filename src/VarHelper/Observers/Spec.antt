-- ===== src/VarHelper/Observers/Spec.antt =====
-- The observations of a variable as a list of pairs of client and metadata, the oldest first.
use variables_and_streams_se.Base.{
  ℕ, zero, suc, List, [], ◌∷◌, Bool, true, false, ◌&&◌, ◌||◌, ◌≡◌, refl, arith, if◌then◌else◌, some,
  length, get_elem?, is_empty, Bool-cases, inl, inr, ap,
}
use variables_and_streams_se.Base.Text.{Text, same}
use variables_and_streams_se.Base.Decimal.{itoa_nat}
use variables_and_streams_se.Base.Reads.{remove_at}

abbrev pub Observation : Type 0
Observation = Text × Text

abbrev pub matches : Text → Text → Observation → Bool
matches client meta x = same x.0 client && same x.1 meta

unfoldable pub contains : Text → Text → List Observation → Bool
contains client meta [] = false
contains client meta (x ∷ xs) = matches client meta x || contains client meta xs

unfoldable pub has_client : Text → List Observation → Bool
has_client client [] = false
has_client client (x ∷ xs) = same x.0 client || has_client client xs

-- Without the last of those of the client that have the metadata.
unfoldable pub remove_last : Text → Text → List Observation → List Observation
remove_last client meta [] = []
remove_last client meta (x ∷ xs) =
    let rest = remove_last client meta xs in
    if contains client meta xs then x ∷ rest else if matches client meta x then xs else x ∷ xs

-- Without those of the client.
unfoldable pub drop_client : Text → List Observation → List Observation
drop_client client [] = []
drop_client client (x ∷ xs) =
    let rest = drop_client client xs in if same x.0 client then rest else x ∷ rest

-- Those that name a client, with their numbers from i on.
unfoldable pub numbered : ℕ → List Observation → List (Text × Text × Text)
numbered i [] = []
numbered i (x ∷ xs) =
    let rest = numbered (suc i) xs in if is_empty x.0 then rest else (itoa_nat i, x.0, x.1) ∷ rest

abbrev pub drop_first : ℕ → List Observation → List Observation
drop_first zero xs = xs
drop_first (suc i) [] = []
drop_first (suc i) (x ∷ xs) = drop_first i xs

pub contains-drop_first :
    (client meta : Text) (xs : List Observation) (i : ℕ) (x : Observation)
    → get_elem? xs i ≡ some x
    → contains client meta (drop_first i xs)
      ≡ (matches client meta x || contains client meta (drop_first (suc i) xs))
unfolding contains
contains-drop_first client meta [] i x h = cc
contains-drop_first client meta (y ∷ xs) zero x h = ground arith
contains-drop_first client meta (y ∷ xs) (suc i) x h = contains-drop_first client meta xs i x h

pub has_client-drop_first :
    (client : Text) (xs : List Observation) (i : ℕ) (x : Observation)
    → get_elem? xs i ≡ some x
    → has_client client (drop_first i xs)
      ≡ (same x.0 client || has_client client (drop_first (suc i) xs))
unfolding has_client
has_client-drop_first client [] i x h = cc
has_client-drop_first client (y ∷ xs) zero x h = ground arith
has_client-drop_first client (y ∷ xs) (suc i) x h = has_client-drop_first client xs i x h

pub contains_elem :
    (client meta : Text) (xs : List Observation) (i : ℕ) (x : Observation)
    → get_elem? xs i ≡ some x
    → matches client meta x ≡ true
    → contains client meta xs ≡ true
unfolding contains
contains_elem client meta [] i x h m = cc
contains_elem client meta (y ∷ xs) zero x h m = ground arith
contains_elem client meta (y ∷ xs) (suc i) x h m = ground (arith, contains_elem client meta xs i x)

-- If nothing behind a match matches, it is the one that goes.
pub remove_last_at :
    (client meta : Text) (xs : List Observation) (i : ℕ) (x : Observation)
    → get_elem? xs i ≡ some x
    → matches client meta x ≡ true
    → contains client meta (drop_first (suc i) xs) ≡ false
    → remove_last client meta xs ≡ remove_at i xs
unfolding remove_last
remove_last_at client meta [] i x h m c = cc
remove_last_at client meta (y ∷ xs) zero x h m c = ground arith
remove_last_at client meta (y ∷ xs) (suc i) x h m c =
    ground (arith, remove_last_at client meta xs i x, contains_elem client meta xs i x)

pub remove_last_none :
    (client meta : Text) (xs : List Observation)
    → contains client meta xs ≡ false
    → remove_last client meta xs ≡ xs
unfolding remove_last contains
remove_last_none client meta [] h = refl
remove_last_none client meta (x ∷ xs) h = ground arith

pub drop_client-remove_last :
    (client meta : Text) (xs : List Observation)
    → drop_client client (remove_last client meta xs) ≡ drop_client client xs
unfolding drop_client remove_last
drop_client-remove_last client meta [] = refl
drop_client-remove_last client meta (x ∷ xs) =
    ground (arith, drop_client-remove_last client meta xs)

pub drop_client_none :
    (client : Text) (xs : List Observation)
    → has_client client xs ≡ false
    → drop_client client xs ≡ xs
unfolding drop_client has_client
drop_client_none client [] h = refl
drop_client_none client (x ∷ xs) h = ground (arith, drop_client_none client xs)

contains_of_client :
    (client meta : Text) (xs : List Observation)
    → has_client client xs ≡ false
    → contains client meta xs ≡ false
unfolding contains has_client
contains_of_client client meta [] h = refl
contains_of_client client meta (x ∷ xs) h = ground (arith, contains_of_client client meta xs)

-- Where a client's last observation goes, none of the client is left from there on.
pub has_client-remove_last :
    (client meta : Text) (xs : List Observation) (i : ℕ) (x : Observation)
    → get_elem? xs i ≡ some x
    → matches client meta x ≡ true
    → has_client client (drop_first (suc i) xs) ≡ false
    → has_client client (drop_first i (remove_last client meta xs)) ≡ false
unfolding remove_last
has_client-remove_last client meta [] i x h m c = cc
has_client-remove_last client meta (y ∷ xs) zero x h m c =
    ground (arith, contains_of_client client meta xs)
has_client-remove_last client meta (y ∷ xs) (suc i) x h m c =
    ground (arith, contains_elem client meta xs i x, has_client-remove_last client meta xs i x)

pub length-remove_last :
    (client meta : Text) (xs : List Observation)
    → contains client meta xs ≡ true
    → suc (length (remove_last client meta xs)) ≡ length xs
unfolding remove_last contains
length-remove_last client meta [] h = cc
length-remove_last client meta (x ∷ xs) h = elim (Bool-cases (contains client meta xs)) [
  | inl c ↦ rw c (ap suc (length-remove_last client meta xs c))
  | inr c ↦ ground arith
]
