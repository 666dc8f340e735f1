-- ===== src/Vstp/Owning.antt =====
-- Which connection an id leads to, in every state that the client maps can get into.
use variables_and_streams_se.Base.{
  ℕ, List, [], true, false, none, some, is_empty, get_or, ◌≡◌, ◌≢◌, ◌⊎◌, refl, arith, Bool-cases,
  Option-cases, inl, inr, ◌∙◌,
}
use variables_and_streams_se.Base.Text.{Text, same, eq_of_same, same_refl}
use variables_and_streams_se.Vstp.Clients.{
  lookup, number_eq, ClientMaps, on_connect, on_disconnect, change_id, scan_for, on_data,
}
use variables_and_streams_se.Vstp.Commands.{with_id, assign_id}
use variables_and_streams_se.Vstp.Sessions.{
  cli_of, id_of, no_clients, put_text, put_number, delete_text, disconnected, disconnected_id,
  changed_id, changed,
}

-- An id that is not empty leads only to a connection that has it.
abbrev pub IsOwned : ClientMaps → Type 0
IsOwned v =
    (cli : ℕ) (id : Text) → is_empty id ≡ false → cli_of id v ≡ some cli → id_of cli v ≡ some id

-- A new connection has no id yet.
on_connect-IsOwned :
    (cli : ℕ) (uid : Text) (v : ClientMaps)
    → IsOwned v
    → id_of cli v ≡ none
    → IsOwned (on_connect cli uid v)
unfolding on_connect
on_connect-IsOwned cli uid v own new c id ne e = ground (
  arith,
  own c id ne,
  put_number cli c uid v.clients_by_tcp_cli,
  put_text uid id cli v.clients_by_id,
  eq_of_same uid id,
)

-- For a connection with no id, an id that leads to it goes.
disconnected_unknown :
    (cli : ℕ) (v : ClientMaps)
    → id_of cli v ≡ none
    → (other : Text) (c : ℕ) → cli_of other (on_disconnect cli v) ≡ some c
    → (cli_of other v ≡ some c) × (id_of c (on_disconnect cli v) ≡ id_of c v)
unfolding on_disconnect
disconnected_unknown cli v e other c =
    rw (e, on_disconnect)
      (λ h. elim (Option-cases (scan_for cli v.clients_by_id)) [
        | inl f ↦ let h' = rw f at h in (h', refl)
        | inr (id, f) ↦
            let h' = rw (f, delete_text id other v.clients_by_id) at h in (ground arith, refl)
      ])

on_disconnect-IsOwned : (cli : ℕ) (v : ClientMaps) → IsOwned v → IsOwned (on_disconnect cli v)
on_disconnect-IsOwned cli v own c other ne e = elim (Option-cases (id_of cli v)) [
  | inl unknown ↦
      let (before, same_id) = disconnected_unknown cli v unknown other c e in
      same_id ∙ own c other ne before
  | inr (id, known) ↦ ground (
    arith,
    own c other ne,
    own cli other ne,
    disconnected cli id v known other,
    disconnected_id cli id v known c,
    same_refl id,
  )
]

-- A client may ask for any id.
change_id-IsOwned :
    (cli : ℕ) (new_id : Text) (v : ClientMaps) → IsOwned v → IsOwned (change_id cli new_id v)
change_id-IsOwned cli new_id v own c id ne e = ground (
  arith,
  own c id ne,
  own cli id ne,
  changed cli new_id v id,
  changed_id cli new_id v c,
  eq_of_same new_id id,
  same_refl id,
)

with_id-IsOwned :
    (cli : ℕ) (clock_id : Text) (v : ClientMaps)
    → IsOwned v
    → is_empty (get_or (id_of cli v) []) ≡ true
    → IsOwned (with_id cli clock_id v).1
unfolding with_id
with_id-IsOwned cli clock_id v own unnamed c id ne e = ground (
  arith,
  own c id ne,
  put_number cli c clock_id v.clients_by_tcp_cli,
  put_text clock_id id cli v.clients_by_id,
  eq_of_same clock_id id,
)

assign_id-IsOwned :
    (cli : ℕ) (clock_id : Text) (v : ClientMaps)
    → IsOwned v
    → IsOwned (assign_id cli clock_id (id_of cli v) v).1
unfolding assign_id
assign_id-IsOwned cli clock_id v own = elim (Option-cases (id_of cli v)) [
  | inl e ↦ rw (e, assign_id) (with_id-IsOwned cli clock_id v own (rw e refl))
  | inr (id, e) ↦ elim (Bool-cases (is_empty id)) [
    | inl unnamed ↦ rw (e, assign_id, unnamed) (with_id-IsOwned cli clock_id v own (rw e unnamed))
    | inr named ↦ rw (e, assign_id, named) own
  ]
]

-- Bytes of a connection change its buffer alone.
on_data-maps :
    (cli : ℕ) (bytes : Text) (messages : List Text) (v v' : ClientMaps)
    → on_data cli bytes v ≡ some (messages, v')
    → (v.clients_by_id ≡ v'.clients_by_id) × (v.clients_by_tcp_cli ≡ v'.clients_by_tcp_cli)
unfolding on_data
on_data-maps cli bytes messages v v' e =
    elim (Option-cases (lookup number_eq cli v.incoming_data_buffer)) [
      | inl f ↦ absurd (ground arith)
      | inr (buf, f) ↦ (ground arith, ground arith)
    ]

on_data-IsOwned :
    (cli : ℕ) (bytes : Text) (messages : List Text) (v v' : ClientMaps)
    → IsOwned v
    → on_data cli bytes v ≡ some (messages, v')
    → IsOwned v'
on_data-IsOwned cli bytes messages v v' own e =
    let (by_id, by_cli) = on_data-maps cli bytes messages v v' e in rw (← by_id, ← by_cli) own

-- The maps after connections, disconnections, data, changes of ids and subscriptions, in any order. A new
-- connection is one that has no id; any connection may ask for any id at any time.
pub data Reachable : ClientMaps → Type 0 where
  start : Reachable no_clients
  connect :
      (cli : ℕ) (uid : Text) (v : ClientMaps)
      → Reachable v
      → id_of cli v ≡ none
      → Reachable (on_connect cli uid v)
  close : (cli : ℕ) (v : ClientMaps) → Reachable v → Reachable (on_disconnect cli v)
  receive :
      (cli : ℕ) (bytes : Text) (messages : List Text) (v v' : ClientMaps)
      → Reachable v
      → on_data cli bytes v ≡ some (messages, v')
      → Reachable v'
  take_id :
      (cli : ℕ) (new_id : Text) (v : ClientMaps) → Reachable v → Reachable (change_id cli new_id v)
  subscribe :
      (cli : ℕ) (clock_id : Text) (v : ClientMaps)
      → Reachable v
      → Reachable (assign_id cli clock_id (id_of cli v) v).1

no_clients-IsOwned : IsOwned no_clients
unfolding lookup
no_clients-IsOwned c id ne e = cc

pub Reachable-IsOwned : (v : ClientMaps) → Reachable v → IsOwned v
Reachable-IsOwned _ start = no_clients-IsOwned
Reachable-IsOwned _ (connect cli uid v r new) =
    on_connect-IsOwned cli uid v (Reachable-IsOwned v r) new
Reachable-IsOwned _ (close cli v r) = on_disconnect-IsOwned cli v (Reachable-IsOwned v r)
Reachable-IsOwned _ (receive cli bytes messages v v' r e) =
    on_data-IsOwned cli bytes messages v v' (Reachable-IsOwned v r) e
Reachable-IsOwned _ (take_id cli new_id v r) =
    change_id-IsOwned cli new_id v (Reachable-IsOwned v r)
Reachable-IsOwned _ (subscribe cli clock_id v r) =
    assign_id-IsOwned cli clock_id v (Reachable-IsOwned v r)

-- In every reachable state, if an id that is not empty leads to a connection, this connection has that id,
-- and no other id that is not empty leads to it.
pub Reachable-id_of :
    (v : ClientMaps) (cli : ℕ) (id other : Text)
    → Reachable v
    → is_empty id ≡ false
    → is_empty other ≡ false
    → cli_of id v ≡ some cli
    → (id_of cli v ≡ some id) × ((cli_of other v ≢ some cli) ⊎ (other ≡ id))
Reachable-id_of v cli id other r ne ne' e =
    let own = Reachable-IsOwned v r in
    let has = own cli id ne e in
    (
      has,
      elim (Bool-cases (same other id)) [
        | inl s ↦ inr (eq_of_same other id s)
        | inr d ↦ inl (λ e'. absurd (ground (arith, has, own cli other ne' e', same_refl id)))
      ],
    )
