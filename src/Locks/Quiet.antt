-- ===== src/Locks/Quiet.antt =====
-- The steps of an acquisition where no call of the system fails (lib/services/resource_lock.py).
use wifi_validation_framewor.Prelude.{
  ℕ, zero, suc, ◌<◌, String, ◌≡◌, refl, Bool, true, false, Option, none, some, [], arith, ◌==◌,
  Result, ok, pure, reads, lift, require, reject_if, ◌>>=◌, Ensures, Ensures-pure, Ensures-reads,
  Ensures-writes, Ensures-handling, Ensures-bind, is_blank, strip,
}
use wifi_validation_framewor.Domain.Entities.{Time}
use wifi_validation_framewor.Locks.{
  LockError, microseconds, ResourceLease, Machine, Action, validate_duration, validate_identity,
  system_call, lease_on, write, grant, try_lock,
}
use wifi_validation_framewor.Locks.Requests.{open_file, new_lease, take_lease}

-- No call of the system is to fail.
abbrev pub IsQuiet : Machine → Type 0
IsQuiet s = s.failures ≡ []

system_call-IsQuiet :
    (P : Machine → Type 0)
    → ((s : Machine) → P s → P (record s { failures = [] }))
    → Ensures (λ s. IsQuiet s × P s) system_call (λ _ s. IsQuiet s × P s)
unfolding system_call
system_call-IsQuiet P frame = record { at = λ s h. rw h.0 (refl, frame s h.1) }

-- The open file has an active lease.
abbrev IsLeased : ℕ → Machine → Type 0
IsLeased h s = (l : ResourceLease) × (s.leases h ≡ some l) × (l.released ≡ false)

lease_on-IsQuiet :
    (h : ℕ)
    → Ensures
        (λ s. IsQuiet s × IsLeased h s)
        (lease_on h)
        (λ l s. (IsQuiet s × IsLeased h s) × (l.released ≡ false))
unfolding lease_on ◌>>=◌ reads require pure
lease_on-IsQuiet h = record { at = λ s k. let (l, stored, active) = k.1 in rw stored (k, active) }

reject_if-passes :
    (P : Machine → Type 0) (failing : Bool) (e : LockError)
    → Ensures (λ s. P s × (failing ≡ false)) (reject_if failing e) (λ _ s. P s)
unfolding reject_if pure
reject_if-passes P true e = record { at = λ s k. cc k.1 }
reject_if-passes P false e = record { at = λ s k. k.0 }

write-IsQuiet :
    (h : ℕ) (state : String)
    → Ensures (λ s. IsQuiet s × IsLeased h s) (write h state) (λ _ s. IsQuiet s × IsLeased h s)
unfolding write
write-IsQuiet h state =
    let P : Machine → Type 0 = λ s. IsQuiet s × IsLeased h s in
    Ensures-bind _ _ _ (lease_on-IsQuiet h) λ l.
      Ensures-bind (λ _. P) _ _ (reject_if-passes P l.released _)
        λ _.
          Ensures-bind (λ _. P) _ _ (Ensures-reads _ (λ s k. k))
            λ now.
              Ensures-bind (λ _. P) _ _
                (Ensures-handling _ _ (system_call-IsQuiet (IsLeased h) (λ s k. k)))
                λ _. Ensures-writes _ (λ s k. k)

-- The lock of the path is free, or an open file of another process has it.
abbrev pub IsForeign : ℕ → String → Machine → Type 0
IsForeign me path s =
    (g : ℕ) → s.holder path ≡ some g → (g < s.next_handle) × ((s.opened_by g == me) ≡ false)

module _ (me : ℕ) (others : ℕ → Machine → Machine) (id owner path : String) (lifetime h : ℕ) where
  -- Once the file is locked, nothing keeps the lease from being returned.
  pub take_lease-IsQuiet :
      (end : Time)
      → Ensures IsQuiet (take_lease me others id owner path lifetime h end) (λ _ _. Unit)
  unfolding take_lease
  take_lease-IsQuiet end =
      let P : Machine → Type 0 = λ s. IsQuiet s × IsLeased h s in
      Ensures-bind (λ _. IsQuiet) _ _ (Ensures-reads _ (λ s k. k))
        λ now.
          Ensures-bind (λ _. P) _ _
            (Ensures-writes _ (λ s k.
              (k, (new_lease me others id owner path lifetime h end now, ground arith, refl))))
            λ _.
              Ensures-bind (λ _. P) _ _
                (Ensures-handling _ _ (
                  Ensures-bind (λ _. P) _ _ (write-IsQuiet h "HELD")
                    λ _. system_call-IsQuiet (IsLeased h) (λ s k. k)))
                λ _. Ensures-pure h (λ s k. tt)

module _ (h : ℕ) (path : String) where
  -- A lock that no file holds is got.
  pub try_lock-free :
      Ensures
        (λ s. IsQuiet s × (s.holder path ≡ none))
        (try_lock h path)
        (λ b s. (b ≡ true) × IsQuiet s)
  unfolding try_lock
  try_lock-free =
      Ensures-bind (λ _ s. IsQuiet s × (s.holder path ≡ none)) _ _
        (system_call-IsQuiet (λ s. s.holder path ≡ none) (λ s k. k))
        λ _. Ensures-writes _ (λ s k. rw k.1 (refl, k.0))

  pub try_lock-IsQuiet :
      (P : Machine → Type 0)
      → ((s : Machine) → P s → P (record s { failures = [] }))
      → Ensures (λ s. IsQuiet s × P s) (try_lock h path) (λ b s. IsQuiet s × ((b ≡ false) → P s))
  unfolding try_lock
  try_lock-IsQuiet P frame =
      Ensures-bind (λ _ s. IsQuiet s × P s) _ _ (system_call-IsQuiet P frame)
        λ _. Ensures-writes _ λ s k. granted s (s.holder path) k
    where
      granted :
          (s : Machine) (o : Option ℕ)
          → IsQuiet s × P s
          → IsQuiet (grant h path o s).1 × (((grant h path o s).0 ≡ false) → P (grant h path o s).1)
      granted s none k = (k.0, λ e. cc e)
      granted s (some g) k = (k.0, λ e. k.1)

pub lift-passes :
    {A B : Type 0} {P : Machine → Type 0} {Q : B → Machine → Type 0} (r : Result LockError A)
    (a : A) (f : A → Action B)
    → r ≡ ok a
    → Ensures P (f a) Q
    → Ensures P (lift r >>= f) Q
unfolding ◌>>=◌ lift
lift-passes r a f e h = record { at = λ s p. rw e (h.at s p) }

pub validate_identity-valid :
    (text : String) → is_blank text ≡ false → validate_identity text ≡ ok (strip text)
unfolding validate_identity
validate_identity-valid text h = rw h

pub validate_duration-wait : (n : ℕ) → validate_duration true (microseconds n) ≡ ok n
unfolding validate_duration
validate_duration-wait zero = refl
validate_duration-wait (suc n) = refl

pub validate_duration-lifetime : (n : ℕ) → 0 < n → validate_duration false (microseconds n) ≡ ok n
unfolding validate_duration
validate_duration-lifetime zero lt = absurd (omega arith)
validate_duration-lifetime (suc n) lt = refl

module _ (me : ℕ) (others : ℕ → Machine → Machine) where
  pub open_file-IsQuiet :
      (path : String)
      → Ensures
          (λ s. IsQuiet s × IsForeign me path s)
          (open_file me others)
          (λ h s. IsQuiet s × IsForeign me path s)
  unfolding open_file
  open_file-IsQuiet path =
      Ensures-bind (λ _ s. IsQuiet s × IsForeign me path s) _ _
        (Ensures-handling _ _ (system_call-IsQuiet (IsForeign me path) (λ s f. f)))
        λ _. Ensures-writes _ λ s q. (
          q.0,
          λ g e.
              let (lt, not_mine) = q.1 g e in
              let other : (g == s.next_handle) ≡ false = ground arith in
              (omega arith, rw other not_mine),
        )
