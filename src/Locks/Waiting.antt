-- ===== src/Locks/Waiting.antt =====
-- The wait for a lock ends (lib/services/resource_lock.py): the rounds that `acquire` gives the loop
-- are never used up.
use wifi_validation_framewor.Prelude.{
  ℕ, zero, suc, ◌+◌, ◌-◌, ◌*◌, ◌/◌, ◌≤◌, min, String, ◌≡◌, refl, inl, inr, Bool, true, false, arith,
  Bool-cases, leb, Result, ok, raised, raise, Option, none, some, reads, writes, handling, ◌>>=◌,
  ◌>>◌, continue_with, is_blank, IsPreorder, Respects, respects_rules,
}
use wifi_validation_framewor.Domain.Entities.{Time}
use wifi_validation_framewor.Locks.{
  LockError, Duration, microseconds, negative, not_finite, not_a_number, Machine, Action,
  system_call, close, grant, try_lock, validate_identity, validate_duration,
}
use wifi_validation_framewor.Locks.Requests.{
  open_file, sleep, take_lease, give_up, poll_again, poll_locked, poll, acquire, pause,
}
use wifi_validation_framewor.Locks.Acquired.{Raised, raised_at, then_raise}
use wifi_validation_framewor.Locks.Finishes.{
  ran_out, is_unfinished, Finishes, finishes_rules, system_call-Finishes, write-Finishes,
  close-Finishes, release-Finishes, try_lock-Finishes,
}

record NotBefore (s t : Machine) : Type 0 where
  le : s.now ≤ t.now

NotBefore-preorder : IsPreorder NotBefore
NotBefore-preorder = record {
  refl_at = λ s. record { le = omega arith };
  trans_at = λ s t u a b. record { le = let x = a.le in let y = b.le in omega arith };
}

system_call-NotBefore : Respects NotBefore system_call
unfolding system_call
system_call-NotBefore = record { at = λ s. record { le = omega arith } }

grant-NotBefore :
    (h : ℕ) (path : String)
    → Respects {E = LockError} NotBefore (writes λ s. grant h path (s.holder path) s)
unfolding writes
grant-NotBefore h path = record { at = λ s. granted s (s.holder path) }
  where
    granted : (s : Machine) (o : Option ℕ) → NotBefore s (grant h path o s).1
    granted s none = record { le = omega arith }
    granted s (some g) = record { le = omega arith }

try_lock-NotBefore : (h : ℕ) (path : String) → Respects NotBefore (try_lock h path)
unfolding try_lock
try_lock-NotBefore h path =
    search (NotBefore-preorder, respects_rules, system_call-NotBefore, grant-NotBefore) depth 6

module _ (me : ℕ) (others : ℕ → Machine → Machine)
    (clock : (n : ℕ) (t : Machine) → t.now ≤ (others n t).now) (id owner path : String)
    (lifetime h : ℕ) (end : Time) where
  take_lease-Finishes : Finishes (take_lease me others id owner path lifetime h end)
  unfolding take_lease
  take_lease-Finishes =
      search (finishes_rules, write-Finishes, release-Finishes, system_call-Finishes) depth 12

  give_up-Finishes : Finishes (give_up me others id owner path lifetime h end)
  unfolding give_up
  give_up-Finishes = search (finishes_rules, close-Finishes) depth 8

  module _ (again : Action ℕ) (round : ℕ) (t : Machine)
      (ends : (u w : Machine)
        → t.now ≤ u.now
        → leb end u.now ≡ false
        → u.now + min pause (end - u.now) ≤ w.now
        → ran_out (again w).0 ≡ false) where
    waited_ends :
        (b : Bool) (u : Machine)
        → t.now ≤ u.now
        → leb end u.now ≡ b
        → ran_out (poll_again me others id owner path lifetime h end again round b u).0 ≡ false
    unfolding ◌>>=◌ sleep writes
    waited_ends true u le e = give_up-Finishes.at u
    waited_ends false u le e =
        ends u _ le e (clock round (record u { now = u.now + min pause (end - u.now) }))

    abbrev next_poll : Bool → Action ℕ
    next_poll = poll_locked me others id owner path lifetime h end again round

    locked_ends : (b : Bool) (u : Machine) → t.now ≤ u.now → ran_out (next_poll b u).0 ≡ false
    unfolding ◌>>=◌ reads
    locked_ends true u le = take_lease-Finishes.at u
    locked_ends false u le = waited_ends (leb end u.now) u le refl

    abbrev on_error : LockError → Action Bool
    on_error e = close h >> raise e

    on_error-Finishes : (e : LockError) → is_unfinished e ≡ false → Finishes (on_error e)
    on_error-Finishes e k = search (finishes_rules, close-Finishes) depth 6

    round_ends : ran_out ((handling (try_lock h path) on_error >>= next_poll) t).0 ≡ false
    unfolding ◌>>=◌ handling
    round_ends =
        by_end (try_lock h path t) ((try_lock-NotBefore h path).at t)
          ((try_lock-Finishes h path).at t)
      where
        raised_so :
            {q : Result LockError Bool × Machine} {v : Machine}
            → Raised q v
            → ran_out q.0 ≡ false
            → ran_out (continue_with next_poll q).0 ≡ false
        raised_so (raised_at x eq) f = rw eq (rw eq at f)

        by_end :
            (q : Result LockError Bool × Machine)
            → NotBefore t q.1
            → ran_out q.0 ≡ false
            → ran_out (continue_with next_poll (handling (λ _. q) on_error t)).0 ≡ false
        by_end (ok b, u) le f = locked_ends b u le.le
        by_end (raised e, u) le f =
            raised_so (then_raise (close h) e u) ((on_error-Finishes e f).at u)

  -- One round more than the pauses that fit before the end.
  poll_ends :
      (fuel round : ℕ) (t : Machine)
      → end ≤ t.now + pause * fuel
      → ran_out (poll me others id owner path lifetime h end (suc fuel) round t).0 ≡ false
  unfolding poll
  poll_ends zero round t le =
      round_ends (poll me others id owner path lifetime h end zero (round + 1)) round t
        λ u w ge early woken. absurd (ground (arith, early, ge, le))
  poll_ends (suc fuel) round t le =
      round_ends (poll me others id owner path lifetime h end (suc fuel) (round + 1)) round t
        λ u w ge early woken. poll_ends fuel (round + 1) w (omega arith)

validate_identity-ran_out : (x : String) → ran_out (validate_identity x) ≡ false
unfolding validate_identity
validate_identity-ran_out x = elim (Bool-cases (is_blank x)) [ inl e ↦ rw e | inr e ↦ rw e ]

validate_duration-ran_out :
    (allow_zero : Bool) (d : Duration) → ran_out (validate_duration allow_zero d) ≡ false
unfolding validate_duration
validate_duration-ran_out true (microseconds zero) = refl
validate_duration-ran_out false (microseconds zero) = refl
validate_duration-ran_out allow_zero (microseconds (suc n)) = refl
validate_duration-ran_out allow_zero negative = refl
validate_duration-ran_out allow_zero not_finite = refl
validate_duration-ran_out allow_zero not_a_number = refl

module _ (me : ℕ) (others : ℕ → Machine → Machine) (lock_path : String → String)
    (clock : (n : ℕ) (t : Machine) → t.now ≤ (others n t).now) where
  open_file-Finishes : Finishes (open_file me others)
  unfolding open_file
  open_file-Finishes = search (finishes_rules, system_call-Finishes) depth 9

  polling-Finishes :
      (id owner path : String) (wait lifetime h : ℕ)
      → Finishes (do
        now ← reads λ (t : Machine). t.now
        poll me others id owner path lifetime h (now + wait) (wait / pause + 2) 0)
  unfolding ◌>>=◌ reads
  polling-Finishes id owner path wait lifetime h = record {
    at = λ s.
        let e : wait / pause + 2 ≡ suc (wait / pause + 1) = omega arith in
        rw e (
          poll_ends me others clock id owner path lifetime h (s.now + wait) (wait / pause + 1) 0 s
            (omega arith));
  }

  -- Where the clock does not fall while the others run, an acquisition does not use up its rounds: the
  -- pauses of fifty milliseconds that fit into the wait, and two more rounds, are enough for the loop to
  -- return or to raise.
  pub acquire_ends :
      (id owner : String) (timeout lease_seconds : Duration) (s : Machine)
      → ran_out (acquire me others lock_path id owner timeout lease_seconds s).0 ≡ false
  unfolding acquire
  acquire_ends id owner timeout lease_seconds s =
      let whole : Finishes (acquire me others lock_path id owner timeout lease_seconds) =
        search
          (
            finishes_rules, validate_identity-ran_out, validate_duration-ran_out,
            open_file-Finishes, polling-Finishes,
          )
          depth 14 in
      whole.at s
