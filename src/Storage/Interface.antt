-- ===== src/Storage/Interface.antt =====
-- The contract of sources/services/storage/istorage.go: the operations, and what a name holds after
-- each of them. The controller's helpers are clients of this record; the tree in memory fills it.
use variables_and_streams_se.Base.{
  ℕ, is_empty, length, ◌≤◌, List, [], ◌∷◌, Bool, true, false, Option, none, some, if◌then◌else◌,
  get_or, is_some, ◌≡◌, arith, All, Option-cases, inl, inr,
}
use variables_and_streams_se.Base.Text.{Text, Lacks}
use variables_and_streams_se.Storage
use variables_and_streams_se.Storage.{RamCacheDb}
use variables_and_streams_se.Storage.Path.{
  dot, scroll_path, same_path, is_prefix, same_path_of_not_prefix,
}
use variables_and_streams_se.Storage.Tree.{find, childs}
use variables_and_streams_se.Storage.Values.{left_at, value_at_missing}
use variables_and_streams_se.Storage.Depth.{depth, get_childs_deep}
use variables_and_streams_se.Storage.Wf.{IsWf-find, keys-Lacks, AreWf-of_IsWf}
use variables_and_streams_se.Storage.Laws.{
  holds, get_lem, has_value_lem, holds-set, holds-delete_value, kept, IsSound, set-IsSound,
  delete_value-IsSound,
}

pub record IStorage : Type 1 where
  pub Db : Type 0
  pub set : Text → Text → Db → Db
  pub get : Text → Text → Db → Text
  pub get_childs : Text → Db → List Text
  pub has_value : Text → Db → Bool
  pub delete_value : Text → Bool → Db → Db
  -- what a name holds, and the databases that the operations keep sound
  pub held : Text → Db → Option Text
  pub Sound : Db → Type 0
  pub get_held :
      (name default : Text) (db : Db) → get name default db ≡ get_or (held name db) default
  pub has_value_held : (name : Text) (db : Db) → has_value name db ≡ is_some (held name db)
  pub held_set :
      (name other v : Text) (db : Db)
      → held other (set name v db) ≡ (
          if same_path (scroll_path name) (scroll_path other)
          then some v
          else if is_prefix (scroll_path other) (scroll_path name)
          then some (get_or (held other db) [])
          else held other db)
  pub held_cascade :
      (name other : Text) (db : Db)
      → Sound db
      → held other (delete_value name true db)
        ≡ (if is_prefix (scroll_path name) (scroll_path other) then none else held other db)
  pub held_delete :
      (name other : Text) (db : Db)
      → Sound db
      → get_or (held other (delete_value name false db)) [] ≡ (
          if same_path (scroll_path name) (scroll_path other)
          then []
          else get_or (held other db) [])
  pub set_sound : (name v : Text) (db : Db) → Sound db → Sound (set name v db)
  pub delete_sound :
      (name : Text) (cascade : Bool) (db : Db) → Sound db → Sound (delete_value name cascade db)
  -- a bound on the depth of the names that have children
  pub depth : Db → ℕ
  pub childs_deep :
      (name : Text) (db : Db)
      → is_empty name ≡ false
      → depth db ≤ length (scroll_path name)
      → get_childs name db ≡ []
  pub childs_lack_dots : (name : Text) (db : Db) → Sound db → All (Lacks dot) (get_childs name db)

missing_below :
    (name other : Text) (r : RamCacheDb)
    → Storage.has_value name r ≡ false
    → is_prefix (scroll_path name) (scroll_path other) ≡ true
    → holds other r ≡ none
unfolding Storage.has_value holds
missing_below name other r h p =
    value_at_missing (scroll_path name) (scroll_path other) r.root (ground arith) p

kept_cascade : (name : Text) (r : RamCacheDb) → kept name true r ≡ none
unfolding kept left_at
kept_cascade name r = ground arith

kept_alone : (name : Text) (r : RamCacheDb) → get_or (kept name false r) [] ≡ []
unfolding kept left_at
kept_alone name r = ground arith

pub holds-cascade :
    (name other : Text) (r : RamCacheDb)
    → IsSound r
    → holds other (Storage.delete_value name true r)
      ≡ (if is_prefix (scroll_path name) (scroll_path other) then none else holds other r)
holds-cascade name other r w =
    ground (
      arith,
      holds-delete_value name other true r w,
      kept_cascade name r,
      missing_below name other r,
    )

pub holds-delete :
    (name other : Text) (r : RamCacheDb)
    → IsSound r
    → get_or (holds other (Storage.delete_value name false r)) []
      ≡ (if same_path (scroll_path name) (scroll_path other) then [] else get_or (holds other r) [])
holds-delete name other r w = ground (
  arith,
  holds-delete_value name other false r w,
  kept_alone name r,
  missing_below name other r,
  same_path_of_not_prefix (scroll_path name) (scroll_path other),
)

pub childs-Lacks :
    (name : Text) (r : RamCacheDb) → IsSound r → All (Lacks dot) (Storage.get_childs name r)
unfolding Storage.get_childs IsSound
childs-Lacks [] r w = keys-Lacks (childs r.root) (AreWf-of_IsWf r.root w)
childs-Lacks (c ∷ name) r w = elim (Option-cases (find (scroll_path (c ∷ name)) r.root)) [
  | inl e ↦ rw (e, Storage.get_childs) tt
  | inr (m, e) ↦
      rw (e, Storage.get_childs) (keys-Lacks (childs m) (AreWf-of_IsWf m (IsWf-find _ r.root w e)))
]

abbrev pub ram_storage : IStorage
ram_storage = record {
  Db = RamCacheDb;
  set = Storage.set;
  get = Storage.get;
  get_childs = Storage.get_childs;
  has_value = Storage.has_value;
  delete_value = Storage.delete_value;
  held = holds;
  Sound = IsSound;
  get_held = get_lem;
  has_value_held = has_value_lem;
  held_set = holds-set;
  held_cascade = holds-cascade;
  held_delete = holds-delete;
  set_sound = set-IsSound;
  delete_sound = delete_value-IsSound;
  depth = depth;
  childs_deep = get_childs_deep;
  childs_lack_dots = childs-Lacks;
}
