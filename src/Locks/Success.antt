-- ===== src/Locks/Success.antt =====
-- An acquisition that waits gets the lock once it is free (lib/services/resource_lock.py).
use wifi_validation_framewor.Prelude.{
  ℕ, zero, suc, ◌+◌, ◌-◌, ◌*◌, ◌/◌, ◌≤◌, ◌<◌, min, String, ◌≡◌, refl, Bool, true, false, none,
  arith, leb, Result, ok, raised, reads, writes, ◌>>=◌, Succeeds, Ensures, Ensures-reads,
  Ensures-handling, Ensures-bind, Ensures-weaken, is_blank, strip,
}
use wifi_validation_framewor.Domain.Entities.{Time}
use wifi_validation_framewor.Locks.{
  LockError, microseconds, Machine, Action, validate_duration, validate_identity,
}
use wifi_validation_framewor.Locks.Requests.{pause, sleep, poll_locked, poll, acquire}
use wifi_validation_framewor.Locks.Quiet.{
  IsForeign, IsQuiet, lift-passes, open_file-IsQuiet, take_lease-IsQuiet, try_lock-IsQuiet,
  try_lock-free, validate_duration-lifetime, validate_duration-wait, validate_identity-valid,
}

module _ (me : ℕ) (others : ℕ → Machine → Machine) (id owner path : String) (lifetime h : ℕ) where
  module _ (wait k : ℕ) (within : pause * k < wait)
      (frees : (t : Machine) → IsForeign me path t → (others k t).holder path ≡ none)
      (keeps : (n : ℕ) (t : Machine) → IsForeign me path t → IsForeign me path (others n t))
      (calls : (n : ℕ) (t : Machine) → IsQuiet t → IsQuiet (others n t))
      (instant : (n : ℕ) (t : Machine) → (others n t).now ≡ t.now) where
    abbrev polls : Time → ℕ → ℕ → Action ℕ
    polls start fuel round = poll me others id owner path lifetime h (start + wait) fuel round

    poll-free :
        (start : Time) (fuel round : ℕ)
        → Ensures
            (λ s. IsQuiet s × (s.holder path ≡ none))
            (polls start (suc fuel) round)
            (λ _ _. Unit)
    unfolding poll
    poll-free start fuel round =
        Ensures-bind _ _ _ (Ensures-handling _ _ (try_lock-free h path)) taken
      where
        taken :
            (b : Bool)
            → Ensures
                (λ s. (b ≡ true) × IsQuiet s)
                (poll_locked me others id owner path lifetime h
                  (start + wait)
                  (polls start fuel (round + 1))
                  round
                  b)
                (λ _ _. Unit)
        taken true =
            Ensures-weaken IsQuiet _ (λ s k. k.1)
              (take_lease-IsQuiet me others id owner path lifetime h (start + wait))
        taken false = record { at = λ s k. cc k.0 }

    -- The state before a round: the pauses so far took no more than their length.
    abbrev IsOnTime : Time → ℕ → Machine → Type 0
    IsOnTime start round s = (s.now ≤ start + pause * round) × IsForeign me path s

    abbrev IsBefore : Time → ℕ → Machine → Type 0
    IsBefore start round s = IsQuiet s × IsOnTime start round s

    paused-IsQuiet :
        (start : Time) (round : ℕ) (again : Action ℕ) (Q : Machine → Type 0)
        → round ≤ k
        → ((s : Machine)
            → IsBefore start round s
            → Q (others round (record s { now = s.now + min pause ((start + wait) - s.now) })))
        → Ensures Q again (λ _ _. Unit)
        → Ensures
            (IsBefore start round)
            (poll_locked me others id owner path lifetime h (start + wait) again round false)
            (λ _ _. Unit)
    unfolding ◌>>=◌ reads sleep writes
    paused-IsQuiet start round again Q early woken go = record {
      at = λ s b.
          let le = b.1.0 in
          let open_ : leb (start + wait) s.now ≡ false = ground (arith, early, within, le) in
          rw open_ (go.at _ (woken s b));
    }

    round-IsQuiet :
        (start : Time) (fuel round : ℕ) (Q : Machine → Type 0)
        → round ≤ k
        → ((s : Machine)
            → IsBefore start round s
            → Q (others round (record s { now = s.now + min pause ((start + wait) - s.now) })))
        → Ensures Q (polls start fuel (round + 1)) (λ _ _. Unit)
        → Ensures (IsBefore start round) (polls start (suc fuel) round) (λ _ _. Unit)
    unfolding poll
    round-IsQuiet start fuel round Q early woken go =
        Ensures-bind (λ b s. IsQuiet s × ((b ≡ false) → IsOnTime start round s)) _ _
          (Ensures-handling _ _ (try_lock-IsQuiet h path (IsOnTime start round) (λ s t. t))) locked
      where
        locked :
            (b : Bool)
            → Ensures
                (λ s. IsQuiet s × ((b ≡ false) → IsOnTime start round s))
                (poll_locked me others id owner path lifetime h
                  (start + wait)
                  (polls start fuel (round + 1))
                  round
                  b)
                (λ _ _. Unit)
        locked true =
            Ensures-weaken IsQuiet _ (λ s b. b.0)
              (take_lease-IsQuiet me others id owner path lifetime h (start + wait))
        locked false =
            Ensures-weaken (IsBefore start round) _ (λ s b. (b.0, b.1 refl))
              (paused-IsQuiet start round _ Q early woken go)

    -- Two rounds more than those that are left, and what is over.
    rounds : ℕ → ℕ → ℕ
    rounds zero more = suc (suc more)
    rounds (suc left) more = suc (rounds left more)

    rounds_lem : (left more : ℕ) → rounds left more ≡ left + 2 + more
    unfolding rounds
    rounds_lem zero more = omega arith
    rounds_lem (suc left) more = let e = rounds_lem left more in omega arith

    -- The rounds up to the pause in which the others let the lock go, and the one after it.
    poll-IsQuiet :
        (start : Time) (left fuel round : ℕ)
        → round + left ≡ k
        → Ensures (IsBefore start round) (polls start (rounds left fuel) round) (λ _ _. Unit)
    unfolding rounds
    poll-IsQuiet start zero fuel round e =
        let same : round ≡ k = omega arith in
        round-IsQuiet start (suc fuel) round (λ s. IsQuiet s × (s.holder path ≡ none)) (omega arith)
          (λ s b. (calls round _ b.0, rw same (frees _ b.1.1))) (poll-free start fuel (round + 1))
    poll-IsQuiet start (suc left) fuel round e =
        round-IsQuiet start (rounds left fuel) round (IsBefore start (round + 1)) (omega arith)
          (λ s b.
            let le = b.1.0 in
            let same =
              instant round (record s { now = s.now + min pause ((start + wait) - s.now) }) in
            (calls round _ b.0, (omega arith, keeps round _ b.1.1)))
          (poll-IsQuiet start left fuel (round + 1) (omega arith))

    -- A file that is opened now, with the rounds that the wait allows.
    polling-IsQuiet :
        Ensures
          (λ s. IsQuiet s × IsForeign me path s)
          (do
            now ← reads λ (t : Machine). t.now
            poll me others id owner path lifetime h (now + wait) (wait / pause + 2) 0)
          (λ _ _. Unit)
    polling-IsQuiet =
        Ensures-bind (λ now s. IsBefore now 0 s) _ _
          (Ensures-reads _ (λ s q. (q.0, (omega arith, q.1))))
          λ now.
            let enough : rounds k (wait / pause - k) ≡ wait / pause + 2 =
              let e = rounds_lem k (wait / pause - k) in omega arith in
            rw (← enough) (poll-IsQuiet now k (wait / pause - k) 0 (omega arith))

module _ (me : ℕ) (others : ℕ → Machine → Machine) (lock_path : String → String) where
  -- Where no call of the system fails, the pauses take as long as they are asked to, and the others let
  -- the lock go in the (k+1)-th pause, one that begins within the wait, if a file of theirs has it: an
  -- acquisition with a valid resource, owner and lifetime, of a lock that no file of this process has,
  -- returns a lease.
  pub acquire-returns :
      (id owner : String) (wait lifetime k : ℕ) (s : Machine)
      → is_blank id ≡ false
      → is_blank owner ≡ false
      → 0 < lifetime
      → IsQuiet s
      → IsForeign me (lock_path (strip id)) s
      → pause * k < wait
      → ((t : Machine)
          → IsForeign me (lock_path (strip id)) t
          → (others k t).holder (lock_path (strip id)) ≡ none)
      → ((n : ℕ) (t : Machine)
          → IsForeign me (lock_path (strip id)) t
          → IsForeign me (lock_path (strip id)) (others n t))
      → ((n : ℕ) (t : Machine) → IsQuiet t → IsQuiet (others n t))
      → ((n : ℕ) (t : Machine) → (others n t).now ≡ t.now)
      → (h : ℕ) × ((acquire me others lock_path id owner
            (microseconds wait)
            (microseconds lifetime)
            s).0
          ≡ ok h)
  unfolding acquire
  acquire-returns id owner wait lifetime k s named owned lasts quiet foreign within frees keeps
        calls instant =
      by_end (acquire me others lock_path id owner (microseconds wait) (microseconds lifetime) s)
        (whole.at s (quiet, foreign))
    where
      whole :
          Ensures
            (λ s. IsQuiet s × IsForeign me (lock_path (strip id)) s)
            (acquire me others lock_path id owner (microseconds wait) (microseconds lifetime))
            (λ _ _. Unit)
      whole = lift-passes (validate_identity id) (strip id) _ (validate_identity-valid id named) (
          lift-passes (validate_identity owner) (strip owner) _
            (validate_identity-valid owner owned)
            (lift-passes (validate_duration true (microseconds wait)) wait _
              (validate_duration-wait wait)
              (lift-passes (validate_duration false (microseconds lifetime)) lifetime _
                (validate_duration-lifetime lifetime lasts)
                (Ensures-bind (λ _ s. IsQuiet s × IsForeign me (lock_path (strip id)) s) _ _
                  (open_file-IsQuiet me others _)
                  λ h.
                    polling-IsQuiet me others (strip id) (strip owner) (lock_path (strip id))
                      lifetime h wait k within frees keeps calls instant))))

      by_end :
          (q : Result LockError ℕ × Machine) → Succeeds (λ _ _. Unit) q → (h : ℕ) × (q.0 ≡ ok h)
      by_end (ok h, t) _ = (h, refl)
      by_end (raised e, t) k = absurd k
