-- ===== src/Vstp/Answers.antt =====
-- What the messages of one connection are answered with, and on which connection.
use variables_and_streams_se.Base.{
  ℕ, List, [], ◌∷◌, false, ◌≡◌, refl, Option, none, some, is_empty, All, All-append, Bool-cases,
  Option-cases, inl, inr, ◌⊎◌, arith,
}
use variables_and_streams_se.Base.Text.{Text, same_refl}
use variables_and_streams_se.Storage.Interface.{IStorage}
use variables_and_streams_se.Controller.Clients.{Payload}
use variables_and_streams_se.Vstp.{separate_key_and_value, command_of}
use variables_and_streams_se.Vstp.Clients.{ClientMaps, change_id}
use variables_and_streams_se.Vstp.Sessions.{id_of, cli_of, put_text}
use variables_and_streams_se.Vstp.Owning.{Reachable, Reachable-IsOwned, IsOwned}
use variables_and_streams_se.Vstp.Commands.{
  Command, set_var, delete_var, get_var, subscribe_var, unsubscribe_var, lock_var, unlock_var, ping,
  change_or_confirm_cli_id, get_childs, check_var_lock_status, command_named, to_cli, notify_lines,
  lines_to, with_id, assign_id, changed_lines,
}
use variables_and_streams_se.Vstp.Processing.{
  Setting, Outcome, process_set, process_delete, process_get, process_subscribe, subscribe_as,
  sent_lines, unsubscribe_as, process_unsubscribe, process_lock, process_unlock, process_set_id,
  process_get_childs, process_lock_status, process_command, process_received_message, answered,
}

-- The connection itself, or one that has the same id, which is not empty.
abbrev pub SameClient : ℕ → ClientMaps → ℕ → Type 0
SameClient cli v c =
    (c ≡ cli)
    ⊎ ((id : Text) × (is_empty id ≡ false) × (id_of c v ≡ some id) × (id_of cli v ≡ some id))

-- A line that goes there.
abbrev pub Own : ℕ → ClientMaps → ℕ × Text → Type 0
Own cli v line = SameClient cli v line.0

SameClient-All :
    (cli c : ℕ) (v : ClientMaps) (lines : List Text)
    → SameClient cli v c
    → All (Own cli v) (to_cli c lines)
unfolding to_cli
SameClient-All cli c v [] h = tt
SameClient-All cli c v (line ∷ lines) h = (h, SameClient-All cli c v lines h)

to_cli-All : (cli : ℕ) (v : ClientMaps) (lines : List Text) → All (Own cli v) (to_cli cli lines)
to_cli-All cli v lines = SameClient-All cli cli v lines (inl refl)

-- An id of a connection leads to it, or nowhere, or to another connection that has it.
abbrev pub LeadsBack : ℕ → Text → ClientMaps → Type 0
LeadsBack cli id v = (c : ℕ) → cli_of id v ≡ some c → SameClient cli v c

sent_back :
    (v : ClientMaps) (cli : ℕ) (id : Text) (payload : Option Payload)
    → LeadsBack cli id v
    → All (Own cli v) (sent_lines id payload v)
unfolding sent_lines notify_lines lines_to
sent_back v cli id none back = tt
sent_back v cli id (some payload) back = elim (Option-cases (cli_of id v)) [
  | inl e ↦ rw (e, lines_to) tt
  | inr (c, e) ↦ rw (e, lines_to) (SameClient-All cli c v (changed_lines payload) (back c e))
]

-- The id of a subscription leads back to the connection that asks for it.
with_id-LeadsBack :
    (cli : ℕ) (clock_id : Text) (v : ClientMaps) → LeadsBack cli clock_id (with_id cli clock_id v).1
unfolding with_id
with_id-LeadsBack cli clock_id v c e =
    inl (ground (arith, put_text clock_id clock_id cli v.clients_by_id, same_refl clock_id))

assign_id-LeadsBack :
    (cli : ℕ) (clock_id : Text) (v : ClientMaps)
    → IsOwned v
    → let (cid, v') = assign_id cli clock_id (id_of cli v) v in LeadsBack cli cid v'
unfolding assign_id with_id
assign_id-LeadsBack cli clock_id v own = elim (Option-cases (id_of cli v)) [
  | inl e ↦ rw (e, assign_id) (with_id-LeadsBack cli clock_id v)
  | inr (id, e) ↦ elim (Bool-cases (is_empty id)) [
    | inl unnamed ↦ rw (e, assign_id, unnamed) (with_id-LeadsBack cli clock_id v)
    | inr named ↦ rw (e, assign_id, named) (λ c found. inr (id, named, own c id named found, e))
  ]
]

module _ (st : IStorage) (s : Setting st) (cli : ℕ) where
  open st use {Db}

  -- The outcome of a message writes to the connection alone, or to others that have its id.
  abbrev IsOwn : Outcome st → Type 0
  IsOwn o = All (Own cli o.maps) o.written

  subscribe-IsOwn :
      (v : ClientMaps) (id payload : Text) (db : Db)
      → LeadsBack cli id v
      → IsOwn (subscribe_as st s cli id payload v db)
  unfolding subscribe_as answered
  subscribe-IsOwn v id payload db back =
      (inl refl, All-append (Own cli v) _ _ (sent_back v cli id _ back) (inl refl, tt))

  unsubscribe-IsOwn :
      (v : ClientMaps) (cid payload : Text) (db : Db)
      → IsOwn (unsubscribe_as st s cli cid payload v db)
  unfolding unsubscribe_as answered
  unsubscribe-IsOwn v cid payload db = elim (Bool-cases (is_empty cid)) [
    | inl e ↦ rw (e) tt
    | inr e ↦ rw (e) (to_cli-All cli v _)
  ]

  set-IsOwn :
      (v : ClientMaps) (payload : Text) (db : Db) → IsOwn (process_set st s cli payload v db)
  unfolding process_set answered
  set-IsOwn v payload db = elim (Bool-cases (is_empty (separate_key_and_value payload).0)) [
    | inl e ↦ rw (e) (to_cli-All cli v _)
    | inr e ↦ rw (e) (to_cli-All cli v _)
  ]

  command-IsOwn :
      (c : Option Command) (v : ClientMaps) (payload : Text) (db : Db)
      → IsOwned v
      → IsOwn (process_command st s cli c payload v db)
  unfolding process_command process_subscribe process_unsubscribe answered process_delete
      process_get process_lock process_unlock process_set_id process_get_childs process_lock_status
  command-IsOwn none v payload db own = tt
  command-IsOwn (some set_var) v payload db own = set-IsOwn v payload db
  command-IsOwn (some delete_var) v payload db own = to_cli-All cli v _
  command-IsOwn (some get_var) v payload db own = to_cli-All cli v _
  command-IsOwn (some subscribe_var) v payload db own =
      subscribe-IsOwn _ _ payload db (assign_id-LeadsBack cli s.clock_id v own)
  command-IsOwn (some unsubscribe_var) v payload db own = unsubscribe-IsOwn v _ payload db
  command-IsOwn (some lock_var) v payload db own = to_cli-All cli v _
  command-IsOwn (some unlock_var) v payload db own = to_cli-All cli v _
  command-IsOwn (some ping) v payload db own = to_cli-All cli v _
  command-IsOwn (some change_or_confirm_cli_id) v payload db own =
      to_cli-All cli (change_id cli payload v) _
  command-IsOwn (some get_childs) v payload db own = to_cli-All cli v _
  command-IsOwn (some check_var_lock_status) v payload db own = to_cli-All cli v _

  -- In every reachable state of the maps, all that the processing of a message writes goes to the connection
  -- that it came from or to one that afterwards has the same id, not empty: one that has taken the id over.
  pub process_received_message-Own :
      (v : ClientMaps) (message : Text) (db : Db)
      → Reachable v
      → let done = process_received_message st s cli message v db in
        All (Own cli done.maps) done.written
  unfolding process_received_message
  process_received_message-Own v message db r =
      command-IsOwn (command_named (command_of message).0) v (command_of message).1 db
        (Reachable-IsOwned v r)
