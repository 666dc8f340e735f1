-- ===== src/VarHelper/Observers/Metadata.antt =====
-- `GetMetadatasOfAClient`, which looks for a dot in the names of children.
use variables_and_streams_se.Base.{ℕ, false, List, [], ◌∷◌, ◌≡◌, refl, arith, All}
use variables_and_streams_se.Base.Text.{Text, has_byte, Lacks}
use variables_and_streams_se.Storage.Path.{dot}
use variables_and_streams_se.Storage.Interface.{IStorage}
use variables_and_streams_se.VarHelper.Observers.{behind_dots, get_metadatas_of_a_client}

no_byte : (b : ℕ) (s : Text) → Lacks b s → has_byte b s ≡ false
unfolding has_byte
no_byte b [] h = refl
no_byte b (c ∷ s) h = ground (arith, no_byte b s)

behind_no_dots : (childs : List Text) → All (Lacks dot) childs → behind_dots childs ≡ []
unfolding behind_dots
behind_no_dots [] h = refl
behind_no_dots (curr ∷ childs) (h, hs) = rw (no_byte dot curr h) (behind_no_dots childs hs)

module _ (st : IStorage) (name : Text) where
  open st use {Db, Sound, childs_lack_dots}

  -- In a sound database GetMetadatasOfAClient finds nothing, for any client: the children that it is
  -- given are immediate names, which have no dot.
  pub get_metadatas_none :
      (client : Text) (db : Db) → Sound db → get_metadatas_of_a_client st name client db ≡ []
  unfolding get_metadatas_of_a_client
  get_metadatas_none client db h = behind_no_dots _ (childs_lack_dots _ db h)
