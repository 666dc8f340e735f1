-- ===== src/VarHelper/Deadline.antt =====
-- When Lock of a variable ends: its rounds, what they find, and its deadline.
use variables_and_streams_se.Base.{
  ℕ, true, false, ◌≡◌, arith, if◌then◌else◌, zero, suc, leb, ◌<◌, ◌*◌, ◌/◌, ◌^◌, ◌==◌, refl, ◌+◌,
  ◌≤◌, Bool-cases, inl, inr, ◌∙◌,
}
use variables_and_streams_se.Base.Text.{Text}
use variables_and_streams_se.Storage.Interface.{IStorage}
use variables_and_streams_se.Base.Decimal.{ℤ, pos}
use variables_and_streams_se.VarHelper.{
  Nap, millisecond, passed, lock_until, max_timeout, enough_rounds, from_bits, or_default,
  is_locked, lock,
}
use variables_and_streams_se.VarHelper.Locking.{try_lock_lem}

-- What holds at 0 and behind it holds below n + 1.
below_suc :
    (P : ℕ → Type 0) (n : ℕ) → P 0 → ((i : ℕ) → i < n → P (suc i)) → (i : ℕ) → i < suc n → P i
below_suc P n first rest zero less = first
below_suc P n first rest (suc i) less = rest i (omega (arith, less))

module _ (st : IStorage) (name : Text) where
  open st use {Db}

  -- The rounds behind the first.
  abbrev later : (ℕ → Nap Db) → ℕ → Nap Db
  later naps i = naps (suc i)

  -- The time at which the loop looks at its deadline for the n-th time, counted from 0.
  unfoldable pub check_time : (ℕ → Nap Db) → ℕ → ℕ
  check_time naps zero = (naps 0).try_ns
  check_time naps (suc n) =
      (naps 0).try_ns + millisecond + (naps 0).beyond_ns + check_time (later naps) n

  -- What others make of the database in n rounds.
  unfoldable pub after_naps : (ℕ → Nap Db) → ℕ → Db → Db
  after_naps naps zero db = db
  after_naps naps (suc n) db = after_naps (later naps) n ((naps 0).others db)

  until_free :
      (fuel : ℕ) (max : ℤ) (since : ℕ) (naps : ℕ → Nap Db) (db : Db)
      → is_locked st name db ≡ false
      → ((lock_until st (suc fuel) name max since naps db).1 ≡ true)
        × (is_locked st name (lock_until st (suc fuel) name max since naps db).0 ≡ true)
  unfolding lock_until
  until_free fuel max since naps db free = ground (arith, try_lock_lem st name db)

  until_locked :
      (fuel max since : ℕ) (naps : ℕ → Nap Db) (db : Db)
      → is_locked st name db ≡ true
      → lock_until st (suc fuel) name (pos max) since naps db ≡ (
          if leb max (since + (naps 0).try_ns)
          then (db, false)
          else lock_until st fuel name
              (pos max)
              (since + (naps 0).try_ns + millisecond + (naps 0).beyond_ns)
              (later naps)
              ((naps 0).others db))
  unfolding lock_until passed
  until_locked fuel max since naps db locked =
      let (won_if, still, same_db) = try_lock_lem st name db in
      ground (arith, won_if, same_db locked)

  -- Nobody unlocks in a round.
  abbrev pub KeepLocked : (ℕ → Nap Db) → Type 0
  KeepLocked naps =
      (i : ℕ) (d : Db) → is_locked st name d ≡ true → is_locked st name ((naps i).others d) ≡ true

  until_times_out :
      (fuel max since : ℕ) (naps : ℕ → Nap Db) (db : Db)
      → max ≤ since + millisecond * fuel
      → KeepLocked naps
      → is_locked st name db ≡ true
      → (n : ℕ) × (max ≤ since + check_time naps n)
        × ((i : ℕ) → i < n → since + check_time naps i < max)
        × (lock_until st (suc fuel) name (pos max) since naps db ≡ (after_naps naps n db, false))
  unfolding check_time after_naps
  until_times_out zero max since naps db enough keeps locked = (
    0,
    omega (arith, enough),
    λ i less. absurd (omega (arith, less)),
    until_locked 0 max since naps db locked ∙ ground (arith, enough),
  )
  until_times_out (suc fuel) max since naps db enough keeps locked =
      elim (Bool-cases (leb max (since + (naps 0).try_ns))) [
        | inl now ↦ (
          0,
          ground arith,
          λ i less. absurd (omega (arith, less)),
          until_locked (suc fuel) max since naps db locked ∙ rw now refl,
        )
        | inr early ↦
            let since' = since + (naps 0).try_ns + millisecond + (naps 0).beyond_ns in
            let db' = (naps 0).others db in
            let (n, late, before_n, ends) =
              until_times_out fuel max since' (later naps) db' (ground arith) (λ i. keeps (suc i))
                (keeps 0 db locked) in
            (
              suc n,
              omega (arith, late),
              below_suc (λ i. since + check_time naps i < max) n (ground arith)
                  (λ i less. omega (arith, before_n i less)),
              until_locked (suc fuel) max since naps db locked ∙ rw early ends,
            )
      ]

  until_gets_turn :
      (n fuel max since : ℕ) (naps : ℕ → Nap Db) (db : Db)
      → max ≤ since + millisecond * fuel
      → since + check_time naps n < max
      → ((d : Db) → is_locked st name ((naps n).others d) ≡ false)
      → ((lock_until st (suc fuel) name (pos max) since naps db).1 ≡ true)
        × (is_locked st name (lock_until st (suc fuel) name (pos max) since naps db).0 ≡ true)
  unfolding check_time
  until_gets_turn n zero max since naps db enough early frees =
      absurd (omega (arith, enough, early))
  until_gets_turn zero (suc fuel) max since naps db enough early frees =
      elim (Bool-cases (is_locked st name db)) [
        | inr free ↦ until_free (suc fuel) (pos max) since naps db free
        | inl locked ↦
            let now : leb max (since + (naps 0).try_ns) ≡ false = ground arith in
            rw (until_locked (suc fuel) max since naps db locked, now)
              (until_free fuel (pos max) _ (later naps) ((naps 0).others db) (frees db))
      ]
  until_gets_turn (suc n) (suc fuel) max since naps db enough early frees =
      elim (Bool-cases (is_locked st name db)) [
        | inr free ↦ until_free (suc fuel) (pos max) since naps db free
        | inl locked ↦
            let now : leb max (since + (naps 0).try_ns) ≡ false = ground arith in
            rw (until_locked (suc fuel) max since naps db locked, now)
              (until_gets_turn n fuel max _ (later naps) ((naps 0).others db)
                (omega (arith, enough)) (omega (arith, early)) frees)
      ]

-- The deadline of Lock in nanoseconds: the timeout, and 30 seconds for 0.
abbrev pub deadline : ℕ → ℕ
deadline ms = if ms == 0 then 30000000000 else ms * 1000000

max_timeout-deadline : (ms : ℕ) → ms * 1000000 < 2 ^ 63 → max_timeout ms ≡ pos (deadline ms)
unfolding max_timeout from_bits or_default
max_timeout-deadline ms fits = ground arith

enough_rounds-deadline : (n : ℕ) → n ≤ 0 + millisecond * (n / millisecond + 1)
enough_rounds-deadline n = omega arith

module _ (st : IStorage) (name : Text) where
  open st use {Db}

  lock-until :
      (ms : ℕ) (naps : ℕ → Nap Db) (db : Db)
      → ms * 1000000 < 2 ^ 63
      → lock st name ms naps db
        ≡ lock_until st (suc (deadline ms / millisecond + 1)) name (pos (deadline ms)) 0 naps db
  unfolding lock enough_rounds
  lock-until ms naps db fits = rw (max_timeout-deadline ms fits) refl

  -- Lock succeeds, and the variable is then locked, if in a round that looks at the clock before the deadline
  -- others leave the variable unlocked whatever they start from. The timeout fits a duration.
  pub lock_gets_turn :
      (n ms : ℕ) (naps : ℕ → Nap Db) (db : Db)
      → ms * 1000000 < 2 ^ 63
      → check_time st name naps n < deadline ms
      → ((d : Db) → is_locked st name ((naps n).others d) ≡ false)
      → ((lock st name ms naps db).1 ≡ true)
        × (is_locked st name (lock st name ms naps db).0 ≡ true)
  lock_gets_turn n ms naps db fits early frees = rw (lock-until ms naps db fits) (
      until_gets_turn st name n (deadline ms / millisecond + 1) (deadline ms) 0 naps db
        (enough_rounds-deadline (deadline ms)) (omega (arith, early)) frees)

  -- While nobody unlocks, Lock on a locked variable ends: there is a round n that looks at the clock at or
  -- behind the deadline, as no earlier one does, and Lock fails there, with the database as others have
  -- made it in n rounds. The timeout fits a duration, and 0 stands for 30 seconds.
  pub lock_times_out :
      (ms : ℕ) (naps : ℕ → Nap Db) (db : Db)
      → ms * 1000000 < 2 ^ 63
      → KeepLocked st name naps
      → is_locked st name db ≡ true
      → (n : ℕ) × (deadline ms ≤ check_time st name naps n)
        × ((i : ℕ) → i < n → check_time st name naps i < deadline ms)
        × (lock st name ms naps db ≡ (after_naps st name naps n db, false))
  lock_times_out ms naps db fits keeps locked =
      let (n, late, early, ends) =
        until_times_out st name (deadline ms / millisecond + 1) (deadline ms) 0 naps db
          (enough_rounds-deadline (deadline ms)) keeps locked in
      (
        n,
        omega (arith, late),
        λ i less. omega (arith, early i less),
        lock-until ms naps db fits ∙ ends,
      )
