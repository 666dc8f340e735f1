-- ===== src/Storage/Replay.antt =====
-- The dump file line by line: what `load` does with the lines that `dumpToStringLocked` writes.
use variables_and_streams_se.Base.{
  ℕ, List, [], ◌∷◌, ◌++◌, false, if◌then◌else◌, is_empty, ◌≡◌, ◌≢◌, refl, arith, append_assoc,
  append-nil, ◌∙◌, ap, sym,
}
use variables_and_streams_se.Base.Text.{
  Text, Lacks, split, is_blank, before-append, after-append, has_byte-append, split-append,
  Lacks-append,
}
use variables_and_streams_se.Storage.Path.{dot, scroll_path, scroll_path_of_Lacks, scroll_path-dot}
use variables_and_streams_se.Storage.Tree.{
  RamNode, Childs, node, no_childs, child, value, set_value, alter,
}
use variables_and_streams_se.Storage.Wf.{IsWf, AreWf}
use variables_and_streams_se.Storage.Dump.{
  newline, equals, dump_prefix, dump_line, dump_to_string, dump_childs, load_line, load_lines,
}

-- The trees that the format of the file can hold: no key is empty or has an equals sign or a line
-- break, and no value has a line break.
unfoldable mutual
  pub IsPlain : RamNode → Type 0
  IsPlain (node i v cs) = ArePlain cs

  pub ArePlain : Childs → Type 0
  ArePlain no_childs = Unit
  ArePlain (child k c cs) =
      (k ≢ [])
      × Lacks equals k
      × Lacks newline k
      × Lacks newline (value c)
      × IsPlain c
      × ArePlain cs

-- A written value: the descent to its node, and the value.
abbrev pub Entry : Type 0
Entry = List Text × Text

unfoldable pub own : List Text → Text → List Entry
own p v = if is_empty v then [] else (p, v) ∷ []

unfoldable mutual
  pub entries : RamNode → List Text → List Entry
  entries (node i v cs) p = entries_childs cs p

  pub entries_childs : Childs → List Text → List Entry
  entries_childs no_childs p = []
  entries_childs (child k c cs) p =
      own (p ++ k ∷ []) (value c) ++ entries c (p ++ k ∷ []) ++ entries_childs cs p

unfoldable pub replay : List Entry → RamNode → RamNode
replay [] n = n
replay ((p, v) ∷ es) n = replay es (alter p (set_value v) n)

pub replay-append :
    (es fs : List Entry) (n : RamNode) → replay (es ++ fs) n ≡ replay fs (replay es n)
unfolding replay
replay-append [] fs n = refl
replay-append ((p, v) ∷ es) fs n = replay-append es fs (alter p (set_value v) n)

-- Text in front of a key that stands for the nodes p.
record Spells (prefix : Text) (p : List Text) : Type 0 where
  at : (rest : Text) → rest ≢ [] → scroll_path (prefix ++ rest) ≡ p ++ scroll_path rest
  no_equals : Lacks equals prefix
  no_newline : Lacks newline prefix

Spells-nil : Spells [] []
Spells-nil = record { at = λ rest h. refl; no_equals = tt; no_newline = tt }

append-ne-nil : (s : Text) (b : ℕ) (t : Text) → s ++ b ∷ t ≢ []
append-ne-nil [] b t = cc
append-ne-nil (c ∷ s) b t = cc

dump_prefix_of_ne : (key : Text) → key ≢ [] → dump_prefix key ≡ key ++ dot ∷ []
unfolding dump_prefix
dump_prefix_of_ne [] h = absurd (h refl)
dump_prefix_of_ne (c ∷ key) h = refl

append-ne-nil_right : (s t : Text) → t ≢ [] → s ++ t ≢ []
append-ne-nil_right [] t h = h
append-ne-nil_right (c ∷ s) t h = cc

Spells-key :
    {prefix : Text} {p : List Text} (k : Text)
    → Spells prefix p
    → k ≢ []
    → Lacks dot k
    → Lacks equals k
    → Lacks newline k
    → Spells (dump_prefix (prefix ++ k)) (p ++ k ∷ [])
Spells-key {prefix} {p} k s ne nodot noeq nonl =
    rw (dump_prefix_of_ne _ (append-ne-nil_right prefix k ne)) (record {
      at = λ rest h.
          ap scroll_path
            (append_assoc (prefix ++ k) (dot ∷ []) rest ∙ append_assoc prefix k (dot ∷ rest))
          ∙ s.at (k ++ dot ∷ rest) (append-ne-nil k dot rest)
          ∙ ap (λ (q : List Text). p ++ q) (scroll_path-dot k rest nodot h)
          ∙ sym (append_assoc p (k ∷ []) (scroll_path rest));
      no_equals =
          Lacks-append equals (prefix ++ k) (dot ∷ [])
            (Lacks-append equals prefix k s.no_equals noeq) (omega arith);
      no_newline =
          Lacks-append newline (prefix ++ k) (dot ∷ [])
            (Lacks-append newline prefix k s.no_newline nonl) (omega arith);
    })

is_blank-append : (s t : Text) → is_blank (s ++ equals ∷ t) ≡ false
unfolding is_blank
is_blank-append [] t = ground arith
is_blank-append (c ∷ s) t = ground (arith, is_blank-append s t)

load_line-entry :
    (key v : Text) (n : RamNode)
    → Lacks equals key
    → load_line (key ++ equals ∷ v) n ≡ alter (scroll_path key) (set_value v) n
unfolding load_line
load_line-entry key v n h =
    rw (is_blank-append, has_byte-append, before-append equals key v h, after-append equals key v h)

load_lines-cons :
    (line : Text) (lines : List Text) (n : RamNode)
    → load_lines (line ∷ lines) n ≡ load_lines lines (load_line line n)
unfolding load_lines
load_lines-cons line lines n = refl

load-dump_line :
    {prefix : Text} {p : List Text} (k v rest : Text) (n : RamNode)
    → Spells prefix p
    → k ≢ []
    → Lacks dot k
    → Lacks equals k
    → Lacks newline k
    → Lacks newline v
    → load_lines (split newline (dump_line (prefix ++ k) v ++ rest)) n
      ≡ load_lines (split newline rest) (replay (own (p ++ k ∷ []) v) n)
unfolding dump_line own replay
load-dump_line k [] rest n s ne nodot noeq nonl nonlv = refl
load-dump_line {prefix} {p} k (x ∷ v) rest n s ne nodot noeq nonl nonlv =
    let key = prefix ++ k in
    let line = key ++ equals ∷ x ∷ v in
    let clean : Lacks newline line =
      Lacks-append newline key _ (Lacks-append newline prefix k s.no_newline nonl)
        (omega arith, nonlv) in
    let path : scroll_path key ≡ p ++ k ∷ [] =
      s.at k ne ∙ ap (λ (q : List Text). p ++ q) (scroll_path_of_Lacks k nodot) in
    rw (
      append_assoc line (newline ∷ []) rest,
      split-append newline line rest clean,
      load_lines-cons,
      load_line-entry key (x ∷ v) n (Lacks-append equals prefix k s.no_equals noeq),
      path,
    )

mutual
  unfolding dump_to_string dump_childs entries entries_childs IsPlain ArePlain IsWf AreWf replay

  load-dump :
      (m : RamNode) (parent : Text) (p : List Text) (rest : Text) (n : RamNode)
      → Spells (dump_prefix parent) p
      → IsPlain m
      → IsWf m
      → load_lines (split newline (dump_to_string m parent ++ rest)) n
        ≡ load_lines (split newline rest) (replay (entries m p) n)
  load-dump (node i v cs) parent p rest n s plain wf =
      load-dump_childs cs (dump_prefix parent) p rest n s plain wf

  load-dump_childs :
      (cs : Childs) (prefix : Text) (p : List Text) (rest : Text) (n : RamNode)
      → Spells prefix p
      → ArePlain cs
      → AreWf cs
      → load_lines (split newline (dump_childs cs prefix ++ rest)) n
        ≡ load_lines (split newline rest) (replay (entries_childs cs p) n)
  load-dump_childs no_childs prefix p rest n s plain wf = refl
  load-dump_childs (child k c cs) prefix p rest n s (ne, noeq, nonl, nonlv, plain, plains)
        (name, nodot, once, wf, wfs) =
      let key = prefix ++ k in
      let below = dump_childs cs prefix in
      let n₁ = replay (own (p ++ k ∷ []) (value c)) n in
      let n₂ = replay (entries c (p ++ k ∷ [])) n₁ in
      rw
        (
          append_assoc,
          append_assoc,
          load-dump_line k (value c) (dump_to_string c key ++ (below ++ rest)) n s ne nodot noeq
              nonl nonlv,
        )
        (rw (
          load-dump c key (p ++ k ∷ []) (below ++ rest) n₁ (Spells-key k s ne nodot noeq nonl) plain
              wf,
          load-dump_childs cs prefix p rest n₂ s plains wfs,
          replay-append,
          replay-append,
        ))

-- The empty text behind the last line break changes nothing.
load_lines-last : (n : RamNode) → load_lines (split newline []) n ≡ n
unfolding load_lines load_line split is_blank
load_lines-last n = refl

-- Loading a whole dump replays the entries of the tree.
pub load-dump_text :
    (m n : RamNode)
    → IsPlain m
    → IsWf m
    → load_lines (split newline (dump_to_string m [])) n ≡ replay (entries m []) n
unfolding dump_prefix
load-dump_text m n plain wf =
    rw (← append-nil (dump_to_string m []))
      (load-dump m [] [] [] n Spells-nil plain wf ∙ load_lines-last (replay (entries m []) n))
