-- ===== src/Storage/Durability.antt =====
-- The dump file against the tree, over changes, dumps and a restart.
use variables_and_streams_se.Base.{
  List, [], ◌∷◌, Option, Bool, true, false, none, some, ◌≡◌, refl, arith, Bool-cases, Option-cases,
  ◌⊎◌, inl, inr, ◌∙◌, sym, ap, All,
}
use variables_and_streams_se.Base.Text.{Text, Lacks}
use variables_and_streams_se.Storage.{RamCacheDb, empty_db, set, get, delete_value}
use variables_and_streams_se.Storage.Path.{scroll_path, scroll_path-ne-nil}
use variables_and_streams_se.Storage.Tree.{node, no_childs, find}
use variables_and_streams_se.Storage.Laws.{
  holds, get_lem, IsSound, Change, set_name, delete_name, apply, apply-IsSound, empty_db-IsSound,
}
use variables_and_streams_se.Storage.Dump.{
  newline, dump_to_string, load, Service, dump_round, Write, complete, broken, file_after,
}
use variables_and_streams_se.Storage.Replay.{load-dump_text}
use variables_and_streams_se.Storage.Plain.{
  IsPlainKey, FitsBelow, FitsBelow-alter, FitsBelow-delete_at, FitsBelow-empty,
}
use variables_and_streams_se.Storage.RoundTrip.{text_at, text_at-replay}

get-text_at : (name : Text) (r : RamCacheDb) → get name [] r ≡ text_at (scroll_path name) r.root
unfolding text_at holds
get-text_at name r = get_lem name [] r

-- A database that the format of the file can hold.
unfoldable pub IsStorable : RamCacheDb → Type 0
IsStorable r = FitsBelow r.root

-- A new service that loads a dump of the tree reads the same value as the tree for every name, a
-- missing value counted as empty, if the tree is sound and holds only keys and values that the format
-- of the file can hold.
pub get-load :
    (name : Text) (r : RamCacheDb)
    → IsSound r
    → IsStorable r
    → get name [] (load (some (dump_to_string r.root [])) empty_db) ≡ get name [] r
unfolding load IsSound IsStorable
get-load name r w plain =
    get-text_at name _
    ∙ ap (text_at (scroll_path name)) (load-dump_text r.root (node [] [] no_childs) plain.1 w)
    ∙ text_at-replay (scroll_path name) r.root (scroll_path-ne-nil name) w
    ∙ sym (get-text_at name r)

-- What happens to a running service: a change by a client, or a round of the dumper.
pub data Event : Type 0 where
  change : Change → Event
  round : Event

-- One event, where every write of the file succeeds.
unfoldable pub step : Event → Service → Service
unfolding apply dump_round
step (change c) s = record s { db = apply c s.db }
step round s = dump_round complete s

unfoldable pub steps : List Event → Service → Service
unfolding step
steps [] s = s
steps (e ∷ es) s = steps es (step e s)

-- Names and values that the format of the file can hold.
abbrev pub IsCleanChange : Change → Type 0
IsCleanChange (set_name name v) = All IsPlainKey (scroll_path name) × Lacks newline v
IsCleanChange (delete_name name cascade) = Unit

abbrev pub IsCleanEvent : Event → Type 0
IsCleanEvent (change c) = IsCleanChange c
IsCleanEvent round = Unit

-- What a new service reads for a name from the file.
abbrev pub reload : Text → Service → Text
reload name s = get name [] (load s.file empty_db)

abbrev pub fresh : Service
fresh = record { db = empty_db; file = none }

-- The tree is sound and storable, and what is not pending is in the file.
record IsKept (s : Service) : Type 0 where
  sound : IsSound s.db
  storable : IsStorable s.db
  in_file : s.db.pending_changes ≡ false → (name : Text) → reload name s ≡ get name [] s.db

pub set-IsStorable :
    (name v : Text) (r : RamCacheDb)
    → All IsPlainKey (scroll_path name)
    → Lacks newline v
    → IsStorable r
    → IsStorable (set name v r)
unfolding IsStorable set
set-IsStorable name v r keys nonl h = FitsBelow-alter (scroll_path name) v r.root keys nonl h

delete_value-IsStorable :
    (name : Text) (c : Bool) (r : RamCacheDb) → IsStorable r → IsStorable (delete_value name c r)
unfolding IsStorable delete_value
delete_value-IsStorable name c r h = elim (Option-cases (find (scroll_path name) r.root)) [
  | inl e ↦ rw (e, delete_value) h
  | inr (m, e) ↦ rw (e, delete_value) (FitsBelow-delete_at (scroll_path name) c r.root h)
]

-- A change is pending, or it changed nothing.
apply_pending :
    (c : Change) (r : RamCacheDb) → (apply c r ≡ r) ⊎ ((apply c r).pending_changes ≡ true)
unfolding apply set delete_value
apply_pending (set_name name v) r = inr refl
apply_pending (delete_name name c) r = elim (Option-cases (find (scroll_path name) r.root)) [
  | inl e ↦ inl (rw (e, delete_value))
  | inr (m, e) ↦ inr (rw (e, delete_value))
]

apply-IsStorable :
    (c : Change) (r : RamCacheDb) → IsCleanChange c → IsStorable r → IsStorable (apply c r)
unfolding apply
apply-IsStorable (set_name name v) r (keys, nonl) h = set-IsStorable name v r keys nonl h
apply-IsStorable (delete_name name c) r clean h = delete_value-IsStorable name c r h

change-IsKept : (c : Change) (s : Service) → IsCleanChange c → IsKept s → IsKept (step (change c) s)
unfolding step
change-IsKept c s clean k = record {
  sound = apply-IsSound c s.db k.sound;
  storable = apply-IsStorable c s.db clean k.storable;
  in_file = λ idle name. elim (apply_pending c s.db) [
    | inl same ↦ rw same (k.in_file (cc) name)
    | inr pending ↦ cc
  ];
}

dump_round_idle : (w : Write) (s : Service) → s.db.pending_changes ≡ false → dump_round w s ≡ s
unfolding dump_round
dump_round_idle w s e = ground arith

dump_round_pending :
    (s : Service)
    → s.db.pending_changes ≡ true
    → dump_round complete s ≡ record {
      db = record { root = s.db.root; pending_changes = false };
      file = some (dump_to_string s.db.root []);
    }
unfolding dump_round
dump_round_pending s e = ground arith

round-IsKept : (s : Service) → IsKept s → IsKept (step round s)
unfolding step IsSound IsStorable
round-IsKept s k = elim (Bool-cases s.db.pending_changes) [
  | inl p ↦ rw (dump_round_pending s p) (record {
    sound = k.sound;
    storable = k.storable;
    in_file = λ idle name.
        get-load name (record { root = s.db.root; pending_changes = false }) k.sound k.storable;
  })
  | inr p ↦ rw (dump_round_idle complete s p) k
]

step-IsKept : (e : Event) (s : Service) → IsCleanEvent e → IsKept s → IsKept (step e s)
step-IsKept (change c) s clean k = change-IsKept c s clean k
step-IsKept round s clean k = round-IsKept s k

steps-IsKept :
    (es : List Event) (s : Service) → All IsCleanEvent es → IsKept s → IsKept (steps es s)
unfolding steps
steps-IsKept [] s h k = k
steps-IsKept (e ∷ es) s (clean, cleans) k =
    steps-IsKept es (step e s) cleans (step-IsKept e s clean k)

fresh-IsKept : IsKept fresh
unfolding IsStorable load
fresh-IsKept = record {
  sound = empty_db-IsSound;
  storable = FitsBelow-empty;
  in_file = λ idle name. refl;
}

not_pending_after_round : (w : Write) (s : Service) → (dump_round w s).db.pending_changes ≡ false
unfolding dump_round
not_pending_after_round w s = ground arith

-- Whatever clean changes and dumps a new service has seen, after one more dump, the file, read by a
-- new service, gives for every name the value that the running one gives (a missing value counted as
-- empty), if every write of the file succeeds.
pub durable :
    (es : List Event) (name : Text)
    → All IsCleanEvent es
    → reload name (step round (steps es fresh)) ≡ get name [] (step round (steps es fresh)).db
durable es name clean =
    (round-IsKept (steps es fresh) (steps-IsKept es fresh clean fresh-IsKept)).in_file
      (unfold step in not_pending_after_round complete (steps es fresh)) name

-- Rounds of the dumper with no change between them.
unfoldable pub dump_rounds : List Write → Service → Service
unfolding dump_round
dump_rounds [] s = s
dump_rounds (w ∷ ws) s = dump_rounds ws (dump_round w s)

dump_rounds_idle :
    (ws : List Write) (s : Service) → s.db.pending_changes ≡ false → dump_rounds ws s ≡ s
unfolding dump_rounds
dump_rounds_idle [] s e = refl
dump_rounds_idle (w ∷ ws) s e = rw (dump_round_idle w s e) (dump_rounds_idle ws s e)

-- If changes are pending and the write of the dump fails, the file stays as the failure leaves it, whatever
-- that is, through all later rounds up to the next change, although the tree still has the changes.
pub failed_dump_forgotten :
    (s : Service) (left : Option Text) (ws : List Write)
    → s.db.pending_changes ≡ true
    → ((dump_rounds (broken left ∷ ws) s).file ≡ left)
      × ((dump_rounds (broken left ∷ ws) s).db.root ≡ s.db.root)
unfolding dump_rounds
failed_dump_forgotten s left ws pending =
    let once = dump_round (broken left) s in
    rw (dump_rounds_idle ws once (not_pending_after_round (broken left) s))
      (unfold dump_round file_after in ground arith)

pub empty_db-IsStorable : IsStorable empty_db
unfolding IsStorable
empty_db-IsStorable = FitsBelow-empty
