-- ===== src/VarHelper/Observers/Keys.antt =====
-- The keys of a variable's observations, and the nodes that they go through.
use variables_and_streams_se.Base.{
  ℕ, List, [], ◌∷◌, ◌++◌, ◌≡◌, ◌≢◌, refl, arith, ◌∙◌, ap, append_assoc, append-nil,
}
use variables_and_streams_se.Base.Text.{Text, codes, split, Lacks}
use variables_and_streams_se.Base.Decimal.{itoa_nat, itoa_nat-Lacks, itoa_nat-ne-nil}
use variables_and_streams_se.Storage.Path.{
  dot, scroll_path, scroll_path-under, scroll_path-dot, scroll_path_of_Lacks,
}

pub data Field : Type 0 where
  client_id metadata : Field

abbrev pub field_name : Field → Text
field_name client_id = codes "clientId"
field_name metadata = codes "metadata"

-- c.name + "._observers.list.count"
unfoldable pub count_key : Text → Text
count_key name = name ++ codes "._observers.list.count"

-- c.name + "._observers.list." + i
unfoldable pub node_key : Text → Text → Text
node_key name i = name ++ codes "._observers.list." ++ i

-- c.name + "._observers.list." + i + ".clientId", or ".metadata"
unfoldable pub entry_key : Text → Text → Field → Text
entry_key name i f = name ++ (codes "._observers.list." ++ (i ++ dot ∷ field_name f))

-- c.name + "._observers.byId." + clientID
unfoldable pub client_key : Text → Text → Text
client_key name client = name ++ codes "._observers.byId." ++ client

-- c.name + "._observers.byId." + clientID + ".byMetadata." + metadata
unfoldable pub by_id_key : Text → Text → Text → Text
by_id_key name client meta =
    name ++ (codes "._observers.byId." ++ (client ++ codes ".byMetadata." ++ meta))

abbrev pub observers : Text
observers = codes "_observers"

-- Below the list of entries.
list_path :
    (name rest : Text)
    → rest ≢ []
    → scroll_path (name ++ (codes "._observers.list." ++ rest))
      ≡ split dot name ++ observers ∷ codes "list" ∷ scroll_path rest
list_path name rest ne =
    scroll_path-under name (codes "_observers.list." ++ rest) (cc)
    ∙ ap (λ (q : List Text). split dot name ++ q)
        (scroll_path-dot observers (codes "list." ++ rest) (omega arith) (cc)
          ∙ ap (λ (q : List Text). observers ∷ q)
              (scroll_path-dot (codes "list") rest (omega arith) ne))

by_id_path :
    (name rest : Text)
    → rest ≢ []
    → scroll_path (name ++ (codes "._observers.byId." ++ rest))
      ≡ split dot name ++ observers ∷ codes "byId" ∷ scroll_path rest
by_id_path name rest ne =
    scroll_path-under name (codes "_observers.byId." ++ rest) (cc)
    ∙ ap (λ (q : List Text). split dot name ++ q)
        (scroll_path-dot observers (codes "byId." ++ rest) (omega arith) (cc)
          ∙ ap (λ (q : List Text). observers ∷ q)
              (scroll_path-dot (codes "byId") rest (omega arith) ne))

field-Lacks : (f : Field) → Lacks dot (field_name f)
field-Lacks client_id = omega arith
field-Lacks metadata = omega arith

field-ne-nil : (f : Field) → field_name f ≢ []
field-ne-nil client_id = cc
field-ne-nil metadata = cc

pub append_dot-ne-nil : (s t : Text) → s ++ dot ∷ t ≢ []
append_dot-ne-nil [] t = cc
append_dot-ne-nil (c ∷ s) t = cc

pub entry_path :
    (name : Text) (i : ℕ) (f : Field)
    → scroll_path (entry_key name (itoa_nat i) f)
      ≡ split dot name ++ observers ∷ codes "list" ∷ itoa_nat i ∷ field_name f ∷ []
unfolding entry_key
entry_path name i f =
    list_path name (itoa_nat i ++ dot ∷ field_name f)
      (append_dot-ne-nil (itoa_nat i) (field_name f))
    ∙ ap (λ (q : List Text). split dot name ++ observers ∷ codes "list" ∷ q)
        (scroll_path-dot (itoa_nat i) (field_name f) (itoa_nat-Lacks dot i (omega arith))
            (field-ne-nil f)
          ∙ ap (λ (q : List Text). itoa_nat i ∷ q)
              (scroll_path_of_Lacks (field_name f) (field-Lacks f)))

pub node_path :
    (name : Text) (i : ℕ)
    → scroll_path (node_key name (itoa_nat i))
      ≡ split dot name ++ observers ∷ codes "list" ∷ itoa_nat i ∷ []
unfolding node_key
node_path name i =
    ap scroll_path (append_assoc name (codes "._observers.list.") (itoa_nat i))
    ∙ list_path name (itoa_nat i) (itoa_nat-ne-nil i)
    ∙ ap (λ (q : List Text). split dot name ++ observers ∷ codes "list" ∷ q)
        (scroll_path_of_Lacks (itoa_nat i) (itoa_nat-Lacks dot i (omega arith)))

pub count_path :
    (name : Text)
    → scroll_path (count_key name) ≡ split dot name ++ observers ∷ codes "list" ∷ codes "count" ∷ []
unfolding count_key
count_path name =
    list_path name (codes "count") (cc)
    ∙ ap (λ (q : List Text). split dot name ++ observers ∷ codes "list" ∷ q)
        (scroll_path_of_Lacks (codes "count") (omega arith))

-- The nodes below "byId" on the way to a client; none for an empty id.
abbrev pub client_nodes : Text → List Text
client_nodes [] = []
client_nodes (c ∷ s) = scroll_path (c ∷ s)

by_id_alone :
    (name : Text)
    → scroll_path (name ++ codes "._observers.byId.")
      ≡ split dot name ++ observers ∷ codes "byId" ∷ []
by_id_alone name =
    scroll_path-under name (codes "_observers.byId.") (cc)
    ∙ ap (λ (q : List Text). split dot name ++ q) (unfold scroll_path in refl)

pub client_key_path :
    (name client : Text)
    → scroll_path (client_key name client)
      ≡ split dot name ++ observers ∷ codes "byId" ∷ client_nodes client
unfolding client_key
client_key_path name [] =
    ap scroll_path (append-nil (name ++ codes "._observers.byId.")) ∙ by_id_alone name
client_key_path name (c ∷ client) =
    ap scroll_path (append_assoc name (codes "._observers.byId.") (c ∷ client))
    ∙ by_id_path name (c ∷ client) (cc)

by_id-ne-nil : (client meta : Text) → client ++ codes ".byMetadata." ++ meta ≢ []
by_id-ne-nil [] meta = cc
by_id-ne-nil (c ∷ client) meta = cc

pub by_id_key_path :
    (name client meta : Text)
    → scroll_path (by_id_key name client meta)
      ≡ split dot name
        ++ observers ∷ codes "byId" ∷ scroll_path (client ++ codes ".byMetadata." ++ meta)
unfolding by_id_key
by_id_key_path name client meta =
    by_id_path name (client ++ codes ".byMetadata." ++ meta) (by_id-ne-nil client meta)
