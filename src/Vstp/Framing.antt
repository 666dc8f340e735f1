-- ===== src/Vstp/Framing.antt =====
-- The lines of a connection whose bytes arrive in chunks.
use variables_and_streams_se.Base.{
  ℕ, List, [], ◌∷◌, ◌++◌, ◌≡◌, refl, arith, map, append_assoc, append-nil, ap, sym,
}
use variables_and_streams_se.Base.Text.{Text, Lacks}
use variables_and_streams_se.Vstp.{newline, onto_line, take_lines, on_client_data}

-- strings of a chunked transfer, put together
abbrev pub concat : List Text → Text
concat [] = []
concat (d ∷ ds) = d ++ concat ds

-- The data callback for one chunk after another: all the messages, and the last buffer.
unfoldable pub feed : List Text → Text → List Text × Text
feed [] buf = ([], buf)
feed (d ∷ ds) buf =
    let (messages, left) = on_client_data buf d in
    let (more, last) = feed ds left in (messages ++ more, last)

take_lines_of_Lacks : (buf : Text) → Lacks newline buf → take_lines buf ≡ ([], buf)
unfolding take_lines onto_line
take_lines_of_Lacks [] h = refl
take_lines_of_Lacks (c ∷ buf) h = ground (arith, take_lines_of_Lacks buf)

onto_line-append :
    (c : ℕ) (ls : List Text) (l : Text) (ms : List Text) (r : Text)
    → onto_line c ((l ∷ ls) ++ ms, r) ≡ ((onto_line c (l ∷ ls, r)).0 ++ ms, r)
unfolding onto_line
onto_line-append c ls l ms r = refl

take_lines-append :
    (s t : Text)
    → take_lines (s ++ t) ≡ (
      (take_lines s).0 ++ (take_lines ((take_lines s).1 ++ t)).0,
      (take_lines ((take_lines s).1 ++ t)).1,
    )
unfolding take_lines onto_line
take_lines-append [] t = refl
take_lines-append (c ∷ s) t = ground (arith, take_lines-append s t)

left-Lacks : (s : Text) → Lacks newline (take_lines s).1
unfolding take_lines onto_line
left-Lacks [] = tt
left-Lacks (c ∷ s) = ground (arith, left-Lacks s)

map-append : (f : Text → Text) (ls ms : List Text) → map f (ls ++ ms) ≡ map f ls ++ map f ms
map-append f [] ms = refl
map-append f (l ∷ ls) ms = ap (λ (rest : List Text). f l ∷ rest) (map-append f ls ms)

on_client_data-append :
    (buf d e : Text)
    → on_client_data buf (d ++ e) ≡ (
      (on_client_data buf d).0 ++ (on_client_data (on_client_data buf d).1 e).0,
      (on_client_data (on_client_data buf d).1 e).1,
    )
unfolding on_client_data
on_client_data-append buf d e =
    rw (sym (append_assoc buf d e), take_lines-append (buf ++ d) e, map-append) refl

nothing_new : (buf : Text) → Lacks newline buf → on_client_data buf [] ≡ ([], buf)
unfolding on_client_data
nothing_new buf h = rw (append-nil buf, take_lines_of_Lacks buf h) refl

buffer-Lacks : (buf d : Text) → Lacks newline (on_client_data buf d).1
unfolding on_client_data
buffer-Lacks buf d = left-Lacks (buf ++ d)

-- The callbacks for the chunks of a transfer, one after another, start the same messages in the same
-- order and leave the same buffer as one callback for all the bytes, if no line end is buffered.
pub feed-on_client_data :
    (ds : List Text) (buf : Text) → Lacks newline buf → feed ds buf ≡ on_client_data buf (concat ds)
unfolding feed
feed-on_client_data [] buf h = sym (nothing_new buf h)
feed-on_client_data (d ∷ ds) buf h =
    rw
      (
        on_client_data-append buf d (concat ds),
        feed-on_client_data ds (on_client_data buf d).1 (buffer-Lacks buf d),
      )
      refl
