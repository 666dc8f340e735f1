-- ===== src/NamedLock/Tests.antt =====
-- A run of two goroutines at one named lock.
use variables_and_streams_se.Base.{ℕ, true, false, some, ◌≡◌, ◌⊎◌, refl}
use variables_and_streams_se.Base.Text.{Text, codes, same}
use variables_and_streams_se.NamedLock.{
  Locks, put_channel, find_in, find_channel, take_from, take_token,
}
use variables_and_streams_se.NamedLock.Steps.{
  waiting, inside, outside, System, moved, at_phase, arrive, acquire, at_rest, Reachable, start,
  next,
}
use variables_and_streams_se.NamedLock.Exclusion.{Reachable-exclusive, no_token_lost}

abbrev name : Text
name = codes "varLockerSystem"

abbrev one_waits : System
one_waits = at_phase 1 (waiting false name) (find_channel name at_rest.locks) at_rest

abbrev both_wait : System
both_wait = at_phase 2 (waiting true name) (find_channel name one_waits.locks) one_waits

abbrev taken : Locks
taken = put_channel name false both_wait.locks

abbrev one_inside : System
one_inside = at_phase 1 (inside name) taken both_wait

two_outside : one_waits.phase 2 ≡ outside
unfolding moved
two_outside = refl

one_waiting : both_wait.phase 1 ≡ waiting false name
unfolding moved
one_waiting = refl

token_there : take_token name both_wait.locks ≡ some taken
unfolding take_token take_from find_channel find_in put_channel same
token_there = refl

in_run : Reachable one_inside
in_run =
    next both_wait one_inside
      (next one_waits both_wait (next at_rest one_waits start (arrive 1 false name at_rest refl))
        (arrive 2 true name one_waits two_outside))
      (acquire 1 false name taken both_wait one_waiting token_there)

one_in : one_inside.phase 1 ≡ inside name
unfolding moved
one_in = refl

two_waits : one_inside.phase 2 ≡ waiting true name
unfolding moved
two_waits = refl

abbrev first : ℕ
first = 1

Reachable-exclusive_example : first ≡ 1
Reachable-exclusive_example = Reachable-exclusive one_inside 1 1 name in_run one_in one_in

no_token_lost_example :
    ((locks : Locks) × (take_token name one_inside.locks ≡ some locks))
    ⊎ ((u : ℕ) × (one_inside.phase u ≡ inside name))
no_token_lost_example = no_token_lost one_inside 2 true name in_run two_waits
