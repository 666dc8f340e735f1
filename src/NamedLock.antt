-- ===== src/NamedLock.antt =====
-- sources/misc/namedlock.go: locks with names, each a channel that holds one token or none.
pub mod Steps
pub mod Tests
pub mod Exclusion
use variables_and_streams_se.Base.{ℕ, Bool, true, false, Option, none, some, if◌then◌else◌}
use variables_and_streams_se.Base.Text.{Text, same}

-- namedLocks.locks: no channel, or whether there is a token in it.
abbrev pub Locks : Type 0
Locks = Text → Option Bool

-- m[k] = v
unfoldable pub put_channel : Text → Bool → Locks → Locks
put_channel name token locks = λ other. if same name other then some token else locks other

-- The part of acquireNamedLock that runs under the mutex: it makes a channel that there is not.
unfoldable pub find_in : Text → Option Bool → Locks → Locks
find_in name none locks = put_channel name true locks
find_in name (some token) locks = locks

unfoldable pub find_channel : Text → Locks → Locks
find_channel name locks = find_in name (locks name) locks

-- The receipt of a token: none while there is nothing to receive.
unfoldable pub take_from : Text → Option Bool → Locks → Option Locks
take_from name none locks = none
take_from name (some false) locks = none
take_from name (some true) locks = some (put_channel name false locks)

unfoldable pub take_token : Text → Locks → Option Locks
take_token name locks = take_from name (locks name) locks

-- releaseNamedLock: the token goes back unless there is one in the channel already.
unfoldable pub release_to : Text → Option Bool → Locks → Locks
release_to name none locks = locks
release_to name (some token) locks = put_channel name true locks

unfoldable pub release_named_lock : Text → Locks → Locks
release_named_lock name locks = release_to name (locks name) locks
