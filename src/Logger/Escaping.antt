-- ===== src/Logger/Escaping.antt =====
-- EscapeString (sources/misc/logger/loggerutils/common.go) byte by byte, and a reader that undoes it.
use variables_and_streams_se.Base.{
  ℕ, [], ◌∷◌, ◌++◌, ◌==◌, ◌≡◌, refl, ◌∙◌, ap, append_assoc, if◌then◌else◌, arith,
}
use variables_and_streams_se.Base.Text.{Text, Lacks, Lacks-append}
use variables_and_streams_se.Logger.{replace_all, escape_string}

-- What one byte becomes.
abbrev escape_byte : ℕ → Text
escape_byte c =
    if c == b'\\'
    then b'\\' ∷ b'\\' ∷ []
    else if c == b'"'
    then b'\\' ∷ b'"' ∷ []
    else if c == 10
    then b'\\' ∷ b'n' ∷ []
    else if c == 13
    then b'\\' ∷ b'r' ∷ []
    else if c == 9
    then b'\\' ∷ b't' ∷ []
    else c ∷ []

unfoldable pub escape_bytes : Text → Text
escape_bytes [] = []
escape_bytes (c ∷ s) = escape_byte c ++ escape_bytes s

-- The byte that a backslash and c stand for.
abbrev meaning : ℕ → ℕ
meaning c = if c == b'n' then 10 else if c == b'r' then 13 else if c == b't' then 9 else c

unfoldable pub unescape : Text → Text
unescape [] = []
unescape (c ∷ []) = c ∷ []
unescape (c ∷ d ∷ s) =
    let behind = unescape s in
    let next = unescape (d ∷ s) in if c == b'\\' then meaning d ∷ behind else c ∷ next

replace_all-append :
    (b : ℕ) (w s t : Text) → replace_all b w (s ++ t) ≡ replace_all b w s ++ replace_all b w t
unfolding replace_all
replace_all-append b w [] t = refl
replace_all-append b w (c ∷ s) t = grind (arith, replace_all-append b w s t, append_assoc)

escape_string-append : (s t : Text) → escape_string (s ++ t) ≡ escape_string s ++ escape_string t
unfolding escape_string
escape_string-append s t = simp replace_all-append

escape_string_byte : (c : ℕ) → escape_string (c ∷ []) ≡ escape_byte c
unfolding escape_string replace_all
escape_string_byte c = ground arith

-- The five passes over the text are one pass over its bytes.
escape_string-bytes : (s : Text) → escape_string s ≡ escape_bytes s
unfolding escape_bytes escape_string replace_all
escape_string-bytes [] = refl
escape_string-bytes (c ∷ s) =
    escape_string-append (c ∷ []) s ∙ rw (escape_string_byte c, escape_string-bytes s)

unescape_byte : (c : ℕ) (s : Text) → unescape (escape_byte c ++ s) ≡ c ∷ unescape s
unfolding unescape
unescape_byte c [] = ground arith
unescape_byte c (d ∷ s) = ground arith

unescape-bytes : (s : Text) → unescape (escape_bytes s) ≡ s
unfolding escape_bytes unescape
unescape-bytes [] = refl
unescape-bytes (c ∷ s) = unescape_byte c (escape_bytes s) ∙ ap (λ t. c ∷ t) (unescape-bytes s)

Lacks-byte : (c : ℕ) → Lacks 10 (escape_byte c)
Lacks-byte c = ground arith

Lacks-bytes : (s : Text) → Lacks 10 (escape_bytes s)
unfolding escape_bytes
Lacks-bytes [] = tt
Lacks-bytes (c ∷ s) =
    Lacks-append 10 (escape_byte c) (escape_bytes s) (Lacks-byte c) (Lacks-bytes s)

-- What EscapeString gives has no line break, and reading its escapes gives the text back.
pub unescape-escape_string :
    (s : Text) → (unescape (escape_string s) ≡ s) × Lacks 10 (escape_string s)
unescape-escape_string s = rw (escape_string-bytes s) (unescape-bytes s, Lacks-bytes s)
