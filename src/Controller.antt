-- ===== src/Controller.antt =====
-- sources/controller/controller.go: the operations on variables. Each runs in a goroutine of its own;
-- its model takes the database that it finds and returns the one that it leaves.
pub mod Names
pub mod Clients
pub mod Delivery
pub mod ClientTests
pub mod Telling
pub mod Observing
pub mod Setting
pub mod Reading
pub mod ReadBack
pub mod Unlocking
pub mod Parts
pub mod Fuel
pub mod Hiding
pub mod Notifying
pub mod Reaching
pub mod Tests
pub mod ReadTests
use variables_and_streams_se.Base.{
  ℕ, List, [], ◌∷◌, ◌++◌, Bool, true, false, not, ◌||◌, ◌&&◌, Option, none, some, if◌then◌else◌,
  is_empty, length,
}
use variables_and_streams_se.Base.Text.{Text}
use variables_and_streams_se.Base.Decimal.{ℤ}
use variables_and_streams_se.Storage.Interface.{IStorage}
use variables_and_streams_se.VarHelper.{
  underscore, starts_with, controlled_name, set_value, is_locked,
}
use Names.{
  valid_chars, get_only, contains_underscore_dot, exceeds, is_positive, any_exceeds, name_parts,
}

-- The limits of a `TheController`.
pub record Limits : Type 0 where
  pub max_key_length : ℤ
  pub max_key_word_length : ℤ
  pub max_value_size : ℤ
  pub allow_raw_db_access : Bool

pub data SetError : Type 0 where
  empty_name internal_name name_too_long value_too_long word_too_long locked : SetError

-- The checks of SetVar on the name, which GetOnly has filtered, and on the value.
unfoldable pub check_name : Limits → Text → Text → Option SetError
check_name c name v =
    if is_empty name
    then some empty_name
    else if (not c.allow_raw_db_access && starts_with underscore name)
        || contains_underscore_dot name
    then some internal_name
    else if exceeds (length name) c.max_key_length
    then some name_too_long
    else if exceeds (length v) c.max_value_size
    then some value_too_long
    else if is_positive c.max_key_word_length && any_exceeds (name_parts name) c.max_key_word_length
    then some word_too_long
    else none

module _ (st : IStorage) where
  open st use {Db}

  -- What SetVar sends on its channel, the database that it leaves, and the notifications that it starts.
  pub record SetOutcome : Type 0 where
    pub error : Option SetError
    pub db : Db
    pub notified : List (Text × Text)

  unfoldable pub refused : SetError → Db → SetOutcome
  refused e d = record { error = some e; db = d; notified = [] }

  unfoldable pub accepted : Limits → Text → Text → Db → SetOutcome
  accepted c name v d =
      let vname = controlled_name c.allow_raw_db_access name in
      if is_locked st vname d
      then refused locked d
      else record { error = none; db = set_value st vname v d; notified = (name, v) ∷ [] }

  unfoldable pub set_var : Limits → Text → Text → Db → SetOutcome
  set_var c raw_name v d =
      let name = get_only raw_name valid_chars in
      elim (check_name c name v) [ some e ↦ refused e d | none ↦ accepted c name v d ]
