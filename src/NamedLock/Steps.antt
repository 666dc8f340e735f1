-- ===== src/NamedLock/Steps.antt =====
-- The goroutines that are in NamedLockRun, and their steps in any order.
use variables_and_streams_se.Base.{ℕ, Bool, true, none, some, if◌then◌else◌, ◌==◌, ◌≡◌}
use variables_and_streams_se.Base.Text.{Text}
use variables_and_streams_se.NamedLock.{Locks, find_channel, take_token, release_named_lock}

-- Where a goroutine is: outside, at the channel of a name (with a timeout or without one), or in `f`.
pub data Phase : Type 0 where
  outside : Phase
  waiting : Bool → Text → Phase
  inside : Text → Phase

pub record System : Type 0 where
  pub locks : Locks
  pub phase : ℕ → Phase

unfoldable pub moved : ℕ → Phase → (ℕ → Phase) → ℕ → Phase
moved t p phase = λ u. if t == u then p else phase u

abbrev pub at_phase : ℕ → Phase → Locks → System → System
at_phase t p locks s = record { locks = locks; phase = moved t p s.phase }

-- NamedLockRun: the search for the channel, the receipt of the token or the timeout, and the release
-- behind `f`.
pub data Step : System → System → Type 0 where
  arrive :
      (t : ℕ) (limited : Bool) (name : Text) (s : System)
      → s.phase t ≡ outside
      → Step s (at_phase t (waiting limited name) (find_channel name s.locks) s)
  acquire :
      (t : ℕ) (limited : Bool) (name : Text) (locks : Locks) (s : System)
      → s.phase t ≡ waiting limited name
      → take_token name s.locks ≡ some locks
      → Step s (at_phase t (inside name) locks s)
  time_out :
      (t : ℕ) (name : Text) (s : System)
      → s.phase t ≡ waiting true name
      → Step s (at_phase t outside s.locks s)
  leave :
      (t : ℕ) (name : Text) (s : System)
      → s.phase t ≡ inside name
      → Step s (at_phase t outside (release_named_lock name s.locks) s)

abbrev pub at_rest : System
at_rest = record { locks = λ name. none; phase = λ t. outside }

pub data Reachable : System → Type 0 where
  start : Reachable at_rest
  next : (s s' : System) → Reachable s → Step s s' → Reachable s'
