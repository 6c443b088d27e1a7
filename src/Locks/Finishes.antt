-- ===== src/Locks/Finishes.antt =====
-- Methods of lib/services/resource_lock.py that do not run out of rounds.
use wifi_validation_framewor.Prelude.{
  ℕ, String, ◌≡◌, refl, Bool, true, false, Option, none, some, List, [], ◌∷◌, Result, ok, raised,
  pure, raise, reads, writes, lift, require, handling, reject_if, finally, after, ◌>>=◌,
  continue_with,
}
use wifi_validation_framewor.Locks.{
  LockError, unfinished, ResourceLease, Machine, Action, system_call, next_outcome, lease_on, write,
  close, unlock, retire, release_if, release, try_lock,
}

abbrev pub is_unfinished : LockError → Bool
is_unfinished unfinished = true
is_unfinished _ = false

abbrev pub ran_out : {A : Type 0} → Result LockError A → Bool
ran_out (ok a) = false
ran_out (raised e) = is_unfinished e

-- A method that does not run out of rounds.
pub record Finishes {A : Type 0} (m : Action A) : Type 0 where
  pub at : (s : Machine) → ran_out (m s).0 ≡ false

module _ {A : Type 0} where
  pub Finishes-pure : (a : A) → Finishes (pure a)
  unfolding pure
  Finishes-pure a = record { at = λ s. refl }

  pub Finishes-raise : (e : LockError) → is_unfinished e ≡ false → Finishes {A = A} (raise e)
  unfolding raise
  Finishes-raise e h = record { at = λ s. h }

  pub Finishes-reads : (f : Machine → A) → Finishes (reads f)
  unfolding reads
  Finishes-reads f = record { at = λ s. refl }

  pub Finishes-writes : (f : Machine → A × Machine) → Finishes (writes f)
  unfolding writes
  Finishes-writes f = record { at = λ s. refl }

  pub Finishes-lift : (r : Result LockError A) → ran_out r ≡ false → Finishes (lift r)
  unfolding lift
  Finishes-lift r h = record { at = λ s. h }

  pub Finishes-require :
      (e : LockError) (o : Option A) → is_unfinished e ≡ false → Finishes (require e o)
  unfolding require raise pure
  Finishes-require e none h = record { at = λ s. h }
  Finishes-require e (some a) h = record { at = λ s. refl }

  handled :
      (handler : LockError → Action A) (s : Machine) (q : Result LockError A × Machine)
      → ((e : LockError) → is_unfinished e ≡ false → Finishes (handler e))
      → ran_out q.0 ≡ false
      → ran_out (handling (λ _. q) handler s).0 ≡ false
  unfolding handling
  handled handler s (ok a, t) k h = refl
  handled handler s (raised e, t) k h = (k e h).at t

  -- A handler is called with what the method raised.
  pub Finishes-handling :
      (m : Action A) (handler : LockError → Action A)
      → Finishes m
      → ((e : LockError) → is_unfinished e ≡ false → Finishes (handler e))
      → Finishes (handling m handler)
  unfolding handling
  Finishes-handling m handler h k = record { at = λ s. handled handler s (m s) k (h.at s) }

  pub Finishes-finally :
      (m : Action A) (n : Action (Unit {0})) → Finishes m → Finishes n → Finishes (finally m n)
  unfolding finally
  Finishes-finally m n h k = record { at = λ s. ending (m s).0 (n (m s).1) (h.at s) (k.at (m s).1) }
    where
      ending :
          (r : Result LockError A) (q : Result LockError (Unit {0}) × Machine)
          → ran_out r ≡ false
          → ran_out q.0 ≡ false
          → ran_out (after r q).0 ≡ false
      ending r (ok _, t) h k = h
      ending r (raised e, t) h k = k

pub Finishes-reject_if :
    (b : Bool) (e : LockError) → is_unfinished e ≡ false → Finishes (reject_if b e)
unfolding reject_if raise pure
Finishes-reject_if true e h = record { at = λ s. h }
Finishes-reject_if false e h = record { at = λ s. refl }

module _ {A B : Type 0} where
  pub continued :
      (f : A → Action B) (q : Result LockError A × Machine)
      → ran_out q.0 ≡ false
      → ((a : A) → ran_out (f a q.1).0 ≡ false)
      → ran_out (continue_with f q).0 ≡ false
  continued f (ok a, t) h k = k a
  continued f (raised e, t) h k = h

  pub Finishes-bind :
      (m : Action A) (f : A → Action B)
      → Finishes m
      → ((a : A) → Finishes (f a))
      → Finishes (m >>= f)
  unfolding ◌>>=◌
  Finishes-bind m f h k = record { at = λ s. continued f (m s) (h.at s) (λ a. (k a).at (m s).1) }

pub ruleset finishes_rules = (
  Finishes-pure, Finishes-raise, Finishes-reads, Finishes-writes, Finishes-lift, Finishes-require,
  Finishes-handling, Finishes-finally, Finishes-reject_if, Finishes-bind,
)

next-ran_out : (failures : List Bool) → ran_out (next_outcome failures) ≡ false
next-ran_out [] = refl
next-ran_out (true ∷ rest) = refl
next-ran_out (false ∷ rest) = refl

pub system_call-Finishes : Finishes system_call
unfolding system_call
system_call-Finishes = record { at = λ s. next-ran_out s.failures }

lease_on-Finishes : (h : ℕ) → Finishes (lease_on h)
unfolding lease_on
lease_on-Finishes h = search (finishes_rules) depth 8

pub write-Finishes : (h : ℕ) (state : String) → Finishes (write h state)
unfolding write
write-Finishes h state = search (finishes_rules, lease_on-Finishes, system_call-Finishes) depth 14

pub close-Finishes : (h : ℕ) → Finishes (close h)
unfolding close
close-Finishes h = search (finishes_rules, system_call-Finishes) depth 8

unlock-Finishes : (h : ℕ) → Finishes (unlock h)
unfolding unlock
unlock-Finishes h = search (finishes_rules, system_call-Finishes) depth 8

retire-Finishes : (h : ℕ) (l : ResourceLease) → Finishes (retire h l)
unfolding retire
retire-Finishes h l = search (finishes_rules, close-Finishes, unlock-Finishes) depth 8

release_if-Finishes : (b : Bool) (h : ℕ) (l : ResourceLease) → Finishes (release_if b h l)
unfolding release_if
release_if-Finishes true h l = Finishes-pure tt
release_if-Finishes false h l =
    Finishes-finally _ _ (write-Finishes h "RELEASED") (retire-Finishes h l)

pub release-Finishes : (h : ℕ) → Finishes (release h)
unfolding release
release-Finishes h = search (finishes_rules, lease_on-Finishes, release_if-Finishes) depth 8

pub try_lock-Finishes : (h : ℕ) (path : String) → Finishes (try_lock h path)
unfolding try_lock
try_lock-Finishes h path = search (finishes_rules, system_call-Finishes) depth 8
