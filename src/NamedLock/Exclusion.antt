-- ===== src/NamedLock/Exclusion.antt =====
-- The named locks exclude each other, and lose no token.
use variables_and_streams_se.Base.{
  ℕ, Bool, true, false, some, ◌==◌, ◌≡◌, refl, arith, Bool-cases, Option-cases, inl, inr, ◌⊎◌, sym,
}
use variables_and_streams_se.Base.Text.{Text, same, same_refl, eq_of_same}
use variables_and_streams_se.NamedLock.{
  Locks, put_channel, find_in, find_channel, take_from, take_token, release_to, release_named_lock,
}
use variables_and_streams_se.NamedLock.Steps.{
  outside, waiting, inside, System, moved, at_phase, Step, arrive, acquire, time_out, leave,
  at_rest, Reachable, start, next,
}

-- A token is out exactly while one goroutine is inside, and who waits has a channel to wait at.
record IsKept (s : System) : Type 0 where
  taken : (t : ℕ) (name : Text) → s.phase t ≡ inside name → s.locks name ≡ some false
  one : (t u : ℕ) (name : Text) → s.phase t ≡ inside name → s.phase u ≡ inside name → t ≡ u
  holder : (name : Text) → s.locks name ≡ some false → (t : ℕ) × (s.phase t ≡ inside name)
  channel :
      (t : ℕ) (limited : Bool) (name : Text)
      → s.phase t ≡ waiting limited name
      → (token : Bool) × (s.locks name ≡ some token)

at_rest-IsKept : IsKept at_rest
at_rest-IsKept = record {
  taken = λ t name e. cc;
  one = λ t u name e f. cc;
  holder = λ name e. cc;
  channel = λ t limited name e. cc;
}

put_same : (name : Text) (b : Bool) (locks : Locks) → put_channel name b locks name ≡ some b
unfolding put_channel
put_same name b locks = rw (same_refl name) refl

put_other :
    (name other : Text) (b : Bool) (locks : Locks)
    → same name other ≡ false
    → put_channel name b locks other ≡ locks other
unfolding put_channel
put_other name other b locks h = rw h refl

find_keeps :
    (name other : Text) (b : Bool) (locks : Locks)
    → locks other ≡ some b
    → find_channel name locks other ≡ some b
unfolding find_channel find_in put_channel
find_keeps name other b locks h = ground (arith, eq_of_same name other)

find_taken :
    (name other : Text) (locks : Locks)
    → find_channel name locks other ≡ some false
    → locks other ≡ some false
unfolding find_channel find_in put_channel
find_taken name other locks h = ground arith

find_some : (name : Text) (locks : Locks) → (b : Bool) × (find_channel name locks name ≡ some b)
unfolding find_channel find_in put_channel
find_some name locks = elim (Option-cases (locks name)) [
  | inl e ↦ (true, ground (arith, same_refl name))
  | inr (b, e) ↦ (b, ground arith)
]

waits_at : (b l : Bool) (m n : Text) → waiting b m ≡ waiting l n → m ≡ n
waits_at b l m n e = cc

arrive-IsKept :
    (t : ℕ) (limited : Bool) (name : Text) (s : System)
    → s.phase t ≡ outside
    → IsKept s
    → IsKept (at_phase t (waiting limited name) (find_channel name s.locks) s)
unfolding moved
arrive-IsKept t limited name s out k = record {
  taken = λ u n e. find_keeps name n false s.locks (k.taken u n (ground arith));
  one = λ u w n e f. k.one u w n (ground arith) (ground arith);
  holder = λ n e. let (u, inside_u) = k.holder n (find_taken name n s.locks e) in (u, ground arith);
  channel = λ u l n e. elim (Bool-cases (t == u)) [
    | inl here ↦
        let at_name : waiting limited name ≡ waiting l n = ground arith in
        rw (sym (waits_at limited l name n at_name)) (find_some name s.locks)
    | inr there ↦
        let (b, at_b) = k.channel u l n (ground arith) in (b, find_keeps name n b s.locks at_b)
  ];
}

time_out-IsKept :
    (t : ℕ) (name : Text) (s : System)
    → s.phase t ≡ waiting true name
    → IsKept s
    → IsKept (at_phase t outside s.locks s)
unfolding moved
time_out-IsKept t name s at k = record {
  taken = λ u n e. k.taken u n (ground arith);
  one = λ u w n e f. k.one u w n (ground arith) (ground arith);
  holder = λ n e. let (u, inside_u) = k.holder n e in (u, ground arith);
  channel = λ u l n e. k.channel u l n (ground arith);
}

take_lem :
    (name : Text) (locks locks' : Locks)
    → take_token name locks ≡ some locks'
    → (locks name ≡ some true) × (locks' ≡ put_channel name false locks)
unfolding take_token take_from
take_lem name locks locks' h = ground arith

acquire-IsKept :
    (t : ℕ) (limited : Bool) (name : Text) (s : System)
    → s.phase t ≡ waiting limited name
    → s.locks name ≡ some true
    → IsKept s
    → IsKept (at_phase t (inside name) (put_channel name false s.locks) s)
unfolding moved put_channel
acquire-IsKept t limited name s at free k = record {
  taken = λ u n e. ground (arith, k.taken u n, same_refl name);
  one = λ u w n e f. ground (arith, k.taken u n, k.taken w n, k.one u w n);
  holder = λ n e. elim (Bool-cases (same name n)) [
    | inl here ↦ (t, ground (arith, eq_of_same name n))
    | inr there ↦ let (u, inside_u) = k.holder n (ground arith) in (u, ground arith)
  ];
  channel = λ u l n e. elim (Bool-cases (same name n)) [
    | inl here ↦ (false, ground arith)
    | inr there ↦ let (b, at_b) = k.channel u l n (ground arith) in (b, ground arith)
  ];
}

release_lem :
    (name : Text) (locks : Locks)
    → locks name ≡ some false
    → release_named_lock name locks ≡ put_channel name true locks
unfolding release_named_lock release_to
release_lem name locks h = rw h refl

leave-IsKept :
    (t : ℕ) (name : Text) (s : System)
    → s.phase t ≡ inside name
    → IsKept s
    → IsKept (at_phase t outside (put_channel name true s.locks) s)
unfolding moved put_channel
leave-IsKept t name s at k = record {
  taken = λ u n e. ground (arith, k.taken u n, k.one t u name, eq_of_same name n);
  one = λ u w n e f. k.one u w n (ground arith) (ground arith);
  holder =
      λ n e. let (u, inside_u) = k.holder n (ground arith) in (u, ground (arith, same_refl name));
  channel = λ u l n e. elim (Bool-cases (same name n)) [
    | inl here ↦ (true, ground arith)
    | inr there ↦ let (b, at_b) = k.channel u l n (ground arith) in (b, ground arith)
  ];
}

Step-IsKept : (s s' : System) → Step s s' → IsKept s → IsKept s'
Step-IsKept _ _ (arrive t limited name s out) k = arrive-IsKept t limited name s out k
Step-IsKept _ _ (acquire t limited name locks s at took) k =
    let (free, new) = take_lem name s.locks locks took in
    rw new (acquire-IsKept t limited name s at free k)
Step-IsKept _ _ (time_out t name s at) k = time_out-IsKept t name s at k
Step-IsKept _ _ (leave t name s at) k =
    rw (release_lem name s.locks (k.taken t name at)) (leave-IsKept t name s at k)

Reachable-IsKept : (s : System) → Reachable s → IsKept s
Reachable-IsKept _ start = at_rest-IsKept
Reachable-IsKept _ (next s s' r step) = Step-IsKept s s' step (Reachable-IsKept s r)

-- In every reachable state at most one goroutine is inside a named lock.
pub Reachable-exclusive :
    (s : System) (t u : ℕ) (name : Text)
    → Reachable s
    → s.phase t ≡ inside name
    → s.phase u ≡ inside name
    → t ≡ u
Reachable-exclusive s t u name r e f = (Reachable-IsKept s r).one t u name e f

-- In every reachable state a goroutine that waits for a named lock can have its token at once, or another
-- one is inside: no timeout and no release loses it.
pub no_token_lost :
    (s : System) (t : ℕ) (limited : Bool) (name : Text)
    → Reachable s
    → s.phase t ≡ waiting limited name
    → ((locks : Locks) × (take_token name s.locks ≡ some locks))
      ⊎ ((u : ℕ) × (s.phase u ≡ inside name))
unfolding take_token take_from
no_token_lost s t limited name r e =
    let kept = Reachable-IsKept s r in
    let (b, at_b) = kept.channel t limited name e in
    elim (Bool-cases b) [
      | inl free ↦ inl (put_channel name false s.locks, rw (at_b, free) refl)
      | inr out ↦ inr (kept.holder name (ground arith))
    ]
