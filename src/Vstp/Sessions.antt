-- ===== src/Vstp/Sessions.antt =====
-- How ids and connections are paired while clients come, go and change their ids.
use variables_and_streams_se.Base.{
  ℕ, List, [], ◌∷◌, Bool, true, false, Option, none, some, if◌then◌else◌, is_empty, get_or, ◌≡◌,
  ◌≢◌, refl, arith,
}
use variables_and_streams_se.Base.Text.{Text, same, eq_of_same, same_refl}
use variables_and_streams_se.Vstp.Clients.{
  lookup, put, delete, number_eq, ClientMaps, on_disconnect, change_id, check_alive,
}

module _ {K V : Type 0} (eq : K → K → Bool) (eq_true : (j k : K) → eq j k ≡ true → j ≡ k)
    (eq_refl : (k : K) → eq k k ≡ true) where
  lookup-put :
      (k j : K) (v : V) (m : List (K × V))
      → lookup eq j (put eq k v m) ≡ (if eq k j then some v else lookup eq j m)
  unfolding lookup put
  lookup-put k j v [] = refl
  lookup-put k j v ((i, w) ∷ m) =
      ground
        (arith, lookup-put k j v m, eq_true i k, eq_true i j, eq_true k j, eq_refl i, eq_refl k)

  lookup-delete :
      (k j : K) (m : List (K × V))
      → lookup eq j (delete eq k m) ≡ (if eq k j then none else lookup eq j m)
  unfolding lookup delete
  lookup-delete k j [] = ground arith
  lookup-delete k j ((i, w) ∷ m) =
      ground
        (arith, lookup-delete k j m, eq_true i k, eq_true i j, eq_true k j, eq_refl i, eq_refl k)

number_true : (j k : ℕ) → number_eq j k ≡ true → j ≡ k
number_true j k h = ground arith

number_refl : (k : ℕ) → number_eq k k ≡ true
number_refl k = ground arith

-- The connection of an id, and the id of a connection.
abbrev pub cli_of : Text → ClientMaps → Option ℕ
cli_of id v = lookup same id v.clients_by_id

abbrev pub id_of : ℕ → ClientMaps → Option Text
id_of cli v = lookup number_eq cli v.clients_by_tcp_cli

pub put_text :
    (k j : Text) (v : ℕ) (m : List (Text × ℕ))
    → lookup same j (put same k v m) ≡ (if same k j then some v else lookup same j m)
put_text = lookup-put same eq_of_same same_refl

pub delete_text :
    (k j : Text) (m : List (Text × ℕ))
    → lookup same j (delete same k m) ≡ (if same k j then none else lookup same j m)
delete_text = lookup-delete same eq_of_same same_refl

pub put_number :
    (k j : ℕ) (v : Text) (m : List (ℕ × Text))
    → lookup number_eq j (put number_eq k v m)
      ≡ (if number_eq k j then some v else lookup number_eq j m)
put_number = lookup-put number_eq number_true number_refl

delete_number :
    (k j : ℕ) (m : List (ℕ × Text))
    → lookup number_eq j (delete number_eq k m)
      ≡ (if number_eq k j then none else lookup number_eq j m)
delete_number = lookup-delete number_eq number_true number_refl

pub disconnected :
    (cli : ℕ) (id : Text) (v : ClientMaps)
    → id_of cli v ≡ some id
    → (cli_of' : Text)
    → (cli_of cli_of' (on_disconnect cli v) ≡ (if same id cli_of' then none else cli_of cli_of' v))
unfolding on_disconnect
disconnected cli id v e other = rw (e, on_disconnect) (delete_text id other v.clients_by_id)

pub disconnected_id :
    (cli : ℕ) (id : Text) (v : ClientMaps)
    → id_of cli v ≡ some id
    → (c : ℕ) → id_of c (on_disconnect cli v) ≡ (if number_eq cli c then none else id_of c v)
unfolding on_disconnect
disconnected_id cli id v e c = rw (e, on_disconnect) (delete_number cli c v.clients_by_tcp_cli)

pub changed_id :
    (cli : ℕ) (new_id : Text) (v : ClientMaps) (c : ℕ)
    → id_of c (change_id cli new_id v) ≡ (if number_eq cli c then some new_id else id_of c v)
unfolding change_id
changed_id cli new_id v c = put_number cli c new_id v.clients_by_tcp_cli

pub changed :
    (cli : ℕ) (new_id : Text) (v : ClientMaps) (other : Text)
    → cli_of other (change_id cli new_id v) ≡ (
        if same new_id other
        then some cli
        else if is_empty (get_or (id_of cli v) [])
        then cli_of other v
        else if same (get_or (id_of cli v) []) other
        then none
        else cli_of other v)
unfolding change_id
changed cli new_id v other =
    rw (put_text) (ground (arith, delete_text (get_or (id_of cli v) []) other v.clients_by_id))

abbrev pub no_clients : ClientMaps
no_clients = record { clients_by_id = []; clients_by_tcp_cli = []; incoming_data_buffer = [] }

-- If a client takes up its id on a new connection before its old connection is closed, closing the old
-- one leaves the client out of reach: its new connection has the id, and the id has no connection.
pub taken_over :
    (old_cli new_cli : ℕ) (id : Text) (v : ClientMaps)
    → old_cli ≢ new_cli
    → id_of old_cli v ≡ some id
    → (id_of new_cli (on_disconnect old_cli (change_id new_cli id v)) ≡ some id)
      × (check_alive id (on_disconnect old_cli (change_id new_cli id v)) ≡ false)
unfolding check_alive
taken_over old_cli new_cli id v ne known =
    let w = change_id new_cli id v in
    let known' : id_of old_cli w ≡ some id = ground (arith, changed_id new_cli id v old_cli) in
    ground (
      arith,
      disconnected old_cli id w known' id,
      disconnected_id old_cli id w known' new_cli,
      changed_id new_cli id v new_cli,
      same_refl id,
    )
