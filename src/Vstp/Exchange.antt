-- ===== src/Vstp/Exchange.antt =====
-- Whole messages of the text protocol, and what they get as an answer.
use mathlib.Core.Path.{subst}
use variables_and_streams_se.Controller.Reading.{get_vars}
use variables_and_streams_se.Base.{
  sym, ℕ, suc, [], ◌∷◌, ◌++◌, true, false, ◌≡◌, refl, arith, none, some, is_empty, ◌∙◌, ap,
}
use variables_and_streams_se.Base.Text.{Text, codes, has_byte, is_space, same}
use variables_and_streams_se.Storage.Interface.{IStorage}
use variables_and_streams_se.VarHelper.{star}
use variables_and_streams_se.Controller
use variables_and_streams_se.Controller.Names.{get_only, valid_chars}
use variables_and_streams_se.Controller.ReadBack.{get_vars-set_var}
use variables_and_streams_se.Controller.Setting.{checked, set_var_accepted}
use variables_and_streams_se.Vstp.{
  protocol_write, separate_key_and_value, command_of, is_separator, trim_space, trim_left_space,
  trim_right_space,
}
use variables_and_streams_se.Vstp.Parsing.{IsWord, trim_left_word, trim_right_word, separate_word}
use variables_and_streams_se.Vstp.Clients.{ClientMaps}
use variables_and_streams_se.Vstp.Commands.{
  Command, set_var, get_var, command_word, command_named, first_named, framed, to_cli, set_lines,
  get_lines, value_lines,
}
use variables_and_streams_se.Vstp.Processing.{
  Setting, process_set, process_get, process_command, process_received_message, answered,
}

-- The line of a command.
abbrev pub message_of : Command → Text → Text
message_of cmd payload = command_word cmd ++ b':' ∷ payload

separate_at :
    (sep : ℕ) (key val : Text)
    → is_separator sep ≡ true
    → IsWord key
    → separate_key_and_value (key ++ sep ∷ val) ≡ (key, val)
unfolding separate_key_and_value
separate_at sep [] val h w = rw h refl
separate_at sep (c ∷ key) val h (wc, w) = ground (arith, separate_at sep key val h w)

separate_alone : (key : Text) → IsWord key → separate_key_and_value key ≡ (key, [])
unfolding separate_key_and_value
separate_alone [] w = refl
separate_alone (c ∷ key) (wc, w) = ground (arith, separate_alone key w)

assigned_left :
    (name v : Text) → IsWord name → trim_left_space (name ++ b'=' ∷ v) ≡ name ++ b'=' ∷ v
unfolding trim_left_space is_space
assigned_left [] v w = refl
assigned_left (c ∷ name) v (wc, w) = ground arith

not_empty : (s t : Text) → is_empty (s ++ b'=' ∷ t) ≡ false
not_empty [] t = refl
not_empty (c ∷ s) t = refl

assigned_right :
    (name v : Text)
    → trim_right_space v ≡ v
    → trim_right_space (name ++ b'=' ∷ v) ≡ name ++ b'=' ∷ v
unfolding trim_right_space is_space
assigned_right [] v t = ground arith
assigned_right (c ∷ name) v t = ground (arith, assigned_right name v t, not_empty name v)

assignment_trimmed :
    (name v : Text)
    → IsWord name
    → trim_right_space v ≡ v
    → trim_space (name ++ b'=' ∷ v) ≡ name ++ b'=' ∷ v
unfolding trim_space
assignment_trimmed name v w t =
    ap trim_right_space (assigned_left name v w) ∙ assigned_right name v t

word_trimmed : (s : Text) → IsWord s → trim_space s ≡ s
unfolding trim_space
word_trimmed s w = ap trim_right_space (trim_left_word s w) ∙ trim_right_word s w

set-IsWord : IsWord (command_word set_var)
unfolding command_word is_separator is_space
set-IsWord = ((refl, refl), ((refl, refl), ((refl, refl), tt)))

get-IsWord : IsWord (command_word get_var)
unfolding command_word is_separator is_space
get-IsWord = ((refl, refl), ((refl, refl), ((refl, refl), tt)))

command_of_message :
    (cmd payload : Text)
    → IsWord cmd
    → trim_space payload ≡ payload
    → command_of (cmd ++ b':' ∷ payload) ≡ (cmd, payload)
unfolding command_of
command_of_message cmd payload w t = rw (separate_word cmd payload w, word_trimmed cmd w, t) refl

set_named : command_named (command_word set_var) ≡ some set_var
unfolding command_named first_named command_word same
set_named = refl

get_named : command_named (command_word get_var) ≡ some get_var
unfolding command_named first_named command_word same
get_named = refl

module _ (st : IStorage) (s : Setting st) where
  open st use {Db}

  set_message :
      (cli : ℕ) (name value : Text) (v : ClientMaps) (db : Db)
      → IsWord name
      → trim_right_space value ≡ value
      → process_received_message st s cli (message_of set_var (name ++ b'=' ∷ value)) v db
        ≡ process_set st s cli (name ++ b'=' ∷ value) v db
  unfolding process_received_message process_command
  set_message cli name value v db w t =
      rw
        (
          command_of_message (command_word set_var) (name ++ b'=' ∷ value) set-IsWord
              (assignment_trimmed name value w t),
          set_named,
        )
        refl

  get_message :
      (cli : ℕ) (name : Text) (v : ClientMaps) (db : Db)
      → IsWord name
      → process_received_message st s cli (message_of get_var name) v db
        ≡ process_get st s cli name v db
  unfolding process_received_message process_command
  get_message cli name v db w =
      rw
        (command_of_message (command_word get_var) name get-IsWord (word_trimmed name w), get_named)
        refl

  accepted_set :
      (cli : ℕ) (name value : Text) (v : ClientMaps) (db : Db)
      → IsWord name
      → is_empty name ≡ false
      → (Controller.set_var st s.limits name value db).error ≡ none
      → ((process_set st s cli (name ++ b'=' ∷ value) v db).db
          ≡ (Controller.set_var st s.limits name value db).db)
        × ((process_set st s cli (name ++ b'=' ∷ value) v db).maps ≡ v)
        × ((process_set st s cli (name ++ b'=' ∷ value) v db).written
            ≡ to_cli cli (framed set_var (name ++ b'=' ∷ value) []))
  unfolding process_set is_separator set_lines
  accepted_set cli name value v db w ne ok =
      rw (separate_at b'=' name value refl w, ne, ok) (refl, refl, refl)

  read_back :
      (name value : Text) (fuel : ℕ) (db : Db)
      → s.fuel ≡ suc fuel
      → get_only name valid_chars ≡ name
      → has_byte star name ≡ false
      → is_empty value ≡ false
      → (Controller.set_var st s.limits name value db).error ≡ none
      → get_vars st s.limits.allow_raw_db_access s.fuel name []
          (Controller.set_var st s.limits name value db).db
        ≡ ((name, value) ∷ [], none)
  read_back name value fuel db enough valid plain ne ok = rw enough (
      subst
        (λ (n : Text).
          get_vars st s.limits.allow_raw_db_access (suc fuel) n []
            (Controller.set_var st s.limits name value db).db
          ≡ ((n, value) ∷ [], none))
        valid
        (get_vars-set_var st s.limits fuel name value [] db ok (ap (has_byte star) valid ∙ plain)
          ne))

  name_given :
      (name value : Text) (db : Db)
      → get_only name valid_chars ≡ name
      → (Controller.set_var st s.limits name value db).error ≡ none
      → is_empty name ≡ false
  name_given name value db valid ok =
      ap is_empty (sym valid)
      ∙ (checked s.limits _ value (set_var_accepted st s.limits name value db ok).0).0

  answered_get :
      (cli : ℕ) (name value : Text) (v : ClientMaps) (db : Db)
      → IsWord name
      → get_vars st s.limits.allow_raw_db_access s.fuel name [] db ≡ ((name, value) ∷ [], none)
      → (process_get st s cli name v db).written
        ≡ to_cli cli
            (framed get_var name (protocol_write (codes "varvalue") (name ++ b'=' ∷ value) ∷ []))
  unfolding process_get answered get_lines value_lines
  answered_get cli name value v db w e = rw (separate_alone name w, e) refl

  -- If SetVar accepts a name and a value, the name a single word of the characters that SetVar lets through
  -- with no separator and no wildcard, the value not empty and with no white space at its end, then the
  -- message that sets them is answered with an empty answer, and a later message that gets the name, from
  -- any connection, is answered with that one value. GetVars has some fuel.
  pub get_after_set :
      (cli other : ℕ) (name value : Text) (fuel : ℕ) (v : ClientMaps) (db : Db)
      → s.fuel ≡ suc fuel
      → IsWord name
      → get_only name valid_chars ≡ name
      → has_byte star name ≡ false
      → is_empty value ≡ false
      → trim_right_space value ≡ value
      → (Controller.set_var st s.limits name value db).error ≡ none
      → let done =
          process_received_message st s cli (message_of set_var (name ++ b'=' ∷ value)) v db in
        (done.written ≡ to_cli cli (framed set_var (name ++ b'=' ∷ value) []))
        × ((process_received_message st s other (message_of get_var name) done.maps done.db).written
            ≡ to_cli other (
                framed get_var name
                  (protocol_write (codes "varvalue") (name ++ b'=' ∷ value) ∷ [])))
  get_after_set cli other name value fuel v db enough w valid plain ne t ok =
      let (stored, same_maps, lines) =
        accepted_set cli name value v db w (name_given name value db valid ok) ok in
      rw (set_message cli name value v db w t) (
        lines,
        rw (get_message other name _ _ w, stored)
            (answered_get other name value _ _ w
              (read_back name value fuel db enough valid plain ne ok)),
      )
