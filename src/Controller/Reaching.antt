-- ===== src/Controller/Reaching.antt =====
-- Which observations a change reaches.
use mathlib.Core.List.{Memᴰ}
use mathlib.Core.Path.{subst}
use mathlib.Core.List.Memᴰ.{append_left, append_right, append_cases, not-nil}
use variables_and_streams_se.Base.{
  ℕ, zero, suc, List, [], ◌∷◌, ◌++◌, Bool, true, false, length, ◌≡◌, refl, arith, ◌≤◌, ◌⊎◌, inl,
  inr, ap, ◌∙◌, Bool-cases, append_assoc,
}
use variables_and_streams_se.Base.Text.{Text, codes, has_byte, has_byte-append}
use variables_and_streams_se.Storage.Path.{dot}
use variables_and_streams_se.Storage.Interface.{IStorage}
use variables_and_streams_se.VarHelper.{get_parent_name}
use variables_and_streams_se.Controller.Notifying.{
  Notification, notify_clients, observations, notify_parents, notify_var_modification,
}

-- name = q ++ "." ++ rest: q is above name.
abbrev pub Above : Text → Text → Type 0
Above q name = (rest : Text) × (name ≡ q ++ dot ∷ rest)

-- The observed names that a change of a name concerns.
abbrev pub Concerns : Text → Text → Type 0
Concerns name p =
    (p ≡ name) ⊎ ((p ≡ name ++ codes ".*") ⊎ ((q : Text) × Above q name × (p ≡ q ++ codes ".*")))

get_parent_name_last :
    (q rest : Text) → has_byte dot rest ≡ false → get_parent_name (q ++ dot ∷ rest) ≡ q
unfolding get_parent_name
get_parent_name_last [] rest h = ground arith
get_parent_name_last (c ∷ q) rest h =
    ground (arith, get_parent_name_last q rest, has_byte-append dot q rest)

get_parent_name_above :
    (q rest : Text)
    → has_byte dot rest ≡ true
    → get_parent_name (q ++ dot ∷ rest) ≡ q ++ dot ∷ get_parent_name rest
unfolding get_parent_name
get_parent_name_above [] rest h = ground arith
get_parent_name_above (c ∷ q) rest h =
    ground (arith, get_parent_name_above q rest, has_byte-append dot q rest)

pub get_parent_name_shorter :
    (name : Text) → has_byte dot name ≡ true → suc (length (get_parent_name name)) ≤ length name
unfolding get_parent_name has_byte
get_parent_name_shorter [] h = cc
get_parent_name_shorter (c ∷ s) h = ground (arith, get_parent_name_shorter s)

-- A name with a dot has its parent above it.
parent-Above : (name : Text) → has_byte dot name ≡ true → Above (get_parent_name name) name
unfolding get_parent_name has_byte
parent-Above [] h = cc
parent-Above (c ∷ s) h = elim (Bool-cases (has_byte dot s)) [
  | inl e ↦ let (rest, e') = parent-Above s e in (rest, rw e (ap (λ (t : Text). c ∷ t) e'))
  | inr e ↦ (s, rw e (ground arith))
]

Above-Above : (p q name : Text) → Above q p → Above p name → Above q name
Above-Above p q name (r, e) (r', e') =
    (r ++ dot ∷ r', e' ∙ rw e (append_assoc q (dot ∷ r) (dot ∷ r')))

module _ (st : IStorage) (raw : Bool) (changed v : Text) where
  open st use {Db}

  -- The notifications for the observations of a name.
  abbrev To : Text → Db → List Notification
  To p db = notify_clients (observations st raw p db) changed v

  parents_step :
      (fuel : ℕ) (name : Text) (db : Db)
      → has_byte dot name ≡ true
      → notify_parents st raw (suc fuel) name changed v db
        ≡ To (get_parent_name name ++ codes ".*") db
          ++ notify_parents st raw fuel (get_parent_name name) changed v db
  unfolding notify_parents
  parents_step fuel name db h = rw h refl

  parents_stop :
      (fuel : ℕ) (name : Text) (db : Db)
      → has_byte dot name ≡ false
      → notify_parents st raw (suc fuel) name changed v db ≡ []
  unfolding notify_parents
  parents_stop fuel name db h = rw h refl

  -- Every name above is reached.
  reach_above :
      (fuel : ℕ) (name q rest : Text) (n : Notification) (db : Db)
      → length name ≤ fuel
      → name ≡ q ++ dot ∷ rest
      → Memᴰ n (To (q ++ codes ".*") db)
      → Memᴰ n (notify_parents st raw fuel name changed v db)
  reach_above zero name q rest n db le e m =
      let shorter = get_parent_name_shorter (q ++ dot ∷ rest) (has_byte-append dot q rest) in
      absurd (omega (arith, shorter, ap length e))
  reach_above (suc fuel) name q rest n db le e m =
      let dotted = has_byte-append dot q rest in
      let shorter = get_parent_name_shorter (q ++ dot ∷ rest) dotted in
      rw (e, parents_step fuel (q ++ dot ∷ rest) db dotted)
        (elim (Bool-cases (has_byte dot rest)) [
          | inr last ↦
              append_left {s = To (get_parent_name (q ++ dot ∷ rest) ++ codes ".*") db} _
                (rw (get_parent_name_last q rest last) m)
          | inl more ↦ append_right _ (
              reach_above fuel (get_parent_name (q ++ dot ∷ rest)) q (get_parent_name rest) n db
                (omega (arith, shorter, ap length e)) (get_parent_name_above q rest more) m)
        ])

  some_parents :
      (fuel : ℕ) (name : Text) (n : Notification) (db : Db)
      → has_byte dot name ≡ true
      → Memᴰ n (notify_parents st raw (suc fuel) name changed v db)
      → Memᴰ n (
          To (get_parent_name name ++ codes ".*") db
          ++ notify_parents st raw fuel (get_parent_name name) changed v db)
  some_parents fuel name n db h m =
      subst (λ (l : List Notification). Memᴰ n l) (parents_step fuel name db h) m

  no_parents :
      (fuel : ℕ) (name : Text) (n : Notification) (db : Db)
      → has_byte dot name ≡ false
      → Memᴰ n (notify_parents st raw (suc fuel) name changed v db)
      → Memᴰ n []
  no_parents fuel name n db h m =
      subst (λ (l : List Notification). Memᴰ n l) (parents_stop fuel name db h) m

  -- Nothing else is reached.
  reached-Above :
      (fuel : ℕ) (name : Text) (n : Notification) (db : Db)
      → Memᴰ n (notify_parents st raw fuel name changed v db)
      → (q : Text) × Above q name × Memᴰ n (To (q ++ codes ".*") db)
  unfolding notify_parents
  reached-Above zero name n db m = absurd (not-nil m)
  reached-Above (suc fuel) name n db m = elim (Bool-cases (has_byte dot name)) [
    | inr e ↦ absurd (not-nil (no_parents fuel name n db e m))
    | inl e ↦
        elim (append_cases (To (get_parent_name name ++ codes ".*") db)
          (some_parents fuel name n db e m)) [
            | inl here ↦ (get_parent_name name, parent-Above name e, here)
            | inr higher ↦
                let (q, above, m') = reached-Above fuel (get_parent_name name) n db higher in
                (q, Above-Above (get_parent_name name) q name above (parent-Above name e), m')
          ]
  ]

module _ (st : IStorage) (raw : Bool) where
  open st use {Db}

  told :
      (name v p p' : Text) (n : Notification) (db : Db)
      → p ≡ p'
      → Memᴰ n (notify_clients (observations st raw p db) name v)
      → Memᴰ n (notify_clients (observations st raw p' db) name v)
  told name v p p' n db e m =
      subst (λ (q : Text). Memᴰ n (notify_clients (observations st raw q db) name v)) e m

  -- A notification that a change of a variable starts is one for an observation of a name that the
  -- change concerns: the name itself, the wildcard right below it, or a wildcard below a name above it.
  pub notified-Concerns :
      (name v : Text) (n : Notification) (db : Db)
      → Memᴰ n (notify_var_modification st raw name v db)
      → (p : Text) × Concerns name p × Memᴰ n (notify_clients (observations st raw p db) name v)
  unfolding notify_var_modification
  notified-Concerns name v n db m =
      elim (append_cases (notify_clients (observations st raw name db) name v) m) [
        | inl own ↦ (name, inl refl, own)
        | inr others ↦
            elim (append_cases (notify_parents st raw (length name) name name v db) others) [
              | inr below ↦ (name ++ codes ".*", inr (inl refl), below)
              | inl above ↦
                  let (q, is_above, m') =
                    reached-Above st raw name v (length name) name n db above in
                  (q ++ codes ".*", inr (inr (q, is_above, refl)), m')
            ]
      ]

  -- Every observation of a name that the change concerns is notified.
  pub Concerns-notified :
      (name v p : Text) (n : Notification) (db : Db)
      → Concerns name p
      → Memᴰ n (notify_clients (observations st raw p db) name v)
      → Memᴰ n (notify_var_modification st raw name v db)
  unfolding notify_var_modification
  Concerns-notified name v p n db (inl e) m = append_left _ (told name v p _ n db e m)
  Concerns-notified name v p n db (inr (inl e)) m =
      append_right (notify_clients (observations st raw name db) name v) (
        append_right (notify_parents st raw (length name) name name v db)
          (told name v p _ n db e m))
  Concerns-notified name v p n db (inr (inr (q, (rest, e), e'))) m =
      append_right (notify_clients (observations st raw name db) name v) (
        append_left {s = notify_parents st raw (length name) name name v db} _ (
          reach_above st raw name v (length name) name q rest n db (omega arith) e
            (told name v p _ n db e' m)))
