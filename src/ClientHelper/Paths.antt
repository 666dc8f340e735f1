-- ===== src/ClientHelper/Paths.antt =====
-- Where the keys of the client helper lead.
use variables_and_streams_se.Base.{
  ℕ, List, [], ◌∷◌, ◌++◌, ◌≡◌, ◌≢◌, refl, arith, ◌∙◌, ap, append_assoc, sym,
}
use variables_and_streams_se.Base.Text.{Text, codes, split, Lacks}
use variables_and_streams_se.Base.Decimal.{itoa_nat, itoa_nat-Lacks, itoa_nat-ne-nil}
use variables_and_streams_se.Storage.Path.{
  dot, scroll_path, scroll_path-under, scroll_path-dot, scroll_path_of_Lacks,
}
use variables_and_streams_se.VarHelper.Observers.Keys.{client_nodes, append_dot-ne-nil}
use variables_and_streams_se.ClientHelper.Keys.{
  client_key, api_id_key, last_live_time_key, observing_count_key, observing_key, list_count_key,
  list_key,
}

-- "internal.clients." and a word behind it, and what stands below.
under_clients :
    (word rest : Text)
    → Lacks dot word
    → rest ≢ []
    → scroll_path (codes "internal.clients." ++ (word ++ dot ∷ rest))
      ≡ codes "internal" ∷ codes "clients" ∷ word ∷ scroll_path rest
under_clients word rest h ne =
    scroll_path-dot (codes "internal") (codes "clients." ++ (word ++ dot ∷ rest)) (omega arith) (cc)
    ∙ ap (λ (q : List Text). codes "internal" ∷ q)
        (scroll_path-dot (codes "clients") (word ++ dot ∷ rest) (omega arith)
            (append_dot-ne-nil word rest)
          ∙ ap (λ (q : List Text). codes "clients" ∷ q) (scroll_path-dot word rest h ne))

-- The node of a client, with what is written below it.
abbrev pub client_path : Text → List Text
client_path client = codes "internal" ∷ codes "clients" ∷ codes "byId" ∷ split dot client

below_client :
    (client rest : Text)
    → rest ≢ []
    → scroll_path (client_key client ++ dot ∷ rest) ≡ client_path client ++ scroll_path rest
unfolding client_key
below_client client rest ne =
    under_clients (codes "byId") (client ++ dot ∷ rest) (omega arith)
      (append_dot-ne-nil client rest)
    ∙ ap (λ (q : List Text). codes "internal" ∷ codes "clients" ∷ codes "byId" ∷ q)
        (scroll_path-under client rest ne)

pub client_key_path :
    (client : Text)
    → scroll_path (client_key client)
      ≡ codes "internal" ∷ codes "clients" ∷ codes "byId" ∷ client_nodes client
unfolding client_key
client_key_path [] = unfold scroll_path in refl
client_key_path (c ∷ client) = under_clients (codes "byId") (c ∷ client) (omega arith) (cc)

abbrev pub observing_base : Text → List Text
observing_base client = client_path client ++ codes "observing" ∷ []

pub observing_nodes :
    (client c : Text)
    → c ≢ []
    → scroll_path (observing_key client c) ≡ observing_base client ++ scroll_path c
unfolding observing_key
observing_nodes client c ne =
    below_client client (codes "observing." ++ c) (cc)
    ∙ ap (λ (q : List Text). client_path client ++ q)
        (scroll_path-dot (codes "observing") c (omega arith) ne)
    ∙ sym (append_assoc (client_path client) (codes "observing" ∷ []) (scroll_path c))

pub observing_key_path :
    (client : Text) (i : ℕ)
    → scroll_path (observing_key client (itoa_nat i)) ≡ observing_base client ++ itoa_nat i ∷ []
observing_key_path client i =
    observing_nodes client (itoa_nat i) (itoa_nat-ne-nil i)
    ∙ ap (λ (q : List Text). observing_base client ++ q)
        (scroll_path_of_Lacks (itoa_nat i) (itoa_nat-Lacks dot i (omega arith)))

pub observing_count_path :
    (client : Text)
    → scroll_path (observing_count_key client) ≡ observing_base client ++ codes "count" ∷ []
unfolding observing_count_key scroll_path
observing_count_path client =
    below_client client (codes "observing.count") (cc)
    ∙ sym (append_assoc (client_path client) (codes "observing" ∷ []) (codes "count" ∷ []))

pub live_time_path :
    (client : Text)
    → scroll_path (last_live_time_key client) ≡ client_path client ++ codes "lastLiveTime" ∷ []
unfolding last_live_time_key scroll_path
live_time_path client = below_client client (codes "lastLiveTime") (cc)

pub api_id_path :
    (client : Text) → scroll_path (api_id_key client) ≡ client_path client ++ codes "apiId" ∷ []
unfolding api_id_key scroll_path
api_id_path client = below_client client (codes "apiId") (cc)

abbrev pub list_base : List Text
list_base = codes "internal" ∷ codes "clients" ∷ codes "list" ∷ []

pub list_key_nodes :
    (i : Text)
    → i ≢ []
    → scroll_path (list_key i) ≡ codes "internal" ∷ codes "clients" ∷ codes "list" ∷ scroll_path i
unfolding list_key
list_key_nodes i ne = under_clients (codes "list") i (omega arith) ne

pub list_key_path : (i : ℕ) → scroll_path (list_key (itoa_nat i)) ≡ list_base ++ itoa_nat i ∷ []
list_key_path i =
    list_key_nodes (itoa_nat i) (itoa_nat-ne-nil i)
    ∙ ap (λ (q : List Text). list_base ++ q)
        (scroll_path_of_Lacks (itoa_nat i) (itoa_nat-Lacks dot i (omega arith)))

pub list_count_path : scroll_path list_count_key ≡ list_base ++ codes "count" ∷ []
unfolding list_count_key scroll_path
list_count_path = refl
