-- ===== src/Prelude/Total.antt =====
-- What a method ensures: from a state of which something is known it returns, and something is known of
-- its value and of the state that it leaves.
use wifi_validation_framewor.Prelude.Exec.{
  Result, ok, raised, Method, pure, reads, writes, handling, ◌>>=◌, continue_with,
}

abbrev pub Succeeds : {S E A : Type 0} → (A → S → Type 0) → Result E A × S → Type 0
Succeeds Q (ok a, t) = Q a t
Succeeds Q (raised e, t) = ⊥

pub record Ensures {S E A : Type 0} (P : S → Type 0) (m : Method S E A) (Q : A → S → Type 0)
    : Type 0 where
  pub at : (s : S) → P s → Succeeds Q (m s)

module _ {S E A : Type 0} {P : S → Type 0} {Q : A → S → Type 0} where
  pub Ensures-pure : (a : A) → ((s : S) → P s → Q a s) → Ensures {E = E} P (pure a) Q
  unfolding pure
  Ensures-pure a h = record { at = h }

  pub Ensures-reads : (f : S → A) → ((s : S) → P s → Q (f s) s) → Ensures {E = E} P (reads f) Q
  unfolding reads
  Ensures-reads f h = record { at = h }

  pub Ensures-writes :
      (f : S → A × S) → ((s : S) → P s → Q (f s).0 (f s).1) → Ensures {E = E} P (writes f) Q
  unfolding writes
  Ensures-writes f h = record { at = h }

  -- A handler is not reached.
  pub Ensures-handling :
      (m : Method S E A) (handler : E → Method S E A)
      → Ensures P m Q
      → Ensures P (handling m handler) Q
  unfolding handling
  Ensures-handling m handler h = record { at = λ s p. unhandled (m s) (h.at s p) }
    where
      unhandled : (q : Result E A × S) → Succeeds Q q → Succeeds Q (handling (λ _. q) handler q.1)
      unhandled (ok a, t) k = k
      unhandled (raised e, t) k = absurd k

  pub Ensures-bind :
      {B : Type 0} (R : B → S → Type 0) (m : Method S E B) (f : B → Method S E A)
      → Ensures P m R
      → ((b : B) → Ensures (R b) (f b) Q)
      → Ensures P (m >>= f) Q
  unfolding ◌>>=◌
  Ensures-bind {B} R m f h k = record { at = λ s p. continued (m s) (h.at s p) }
    where
      continued : (q : Result E B × S) → Succeeds R q → Succeeds Q (continue_with f q)
      continued (ok b, t) r = (k b).at t r
      continued (raised e, t) r = absurd r

  pub Ensures-weaken :
      (R : S → Type 0) (m : Method S E A) → ((s : S) → P s → R s) → Ensures R m Q → Ensures P m Q
  Ensures-weaken R m w h = record { at = λ s p. h.at s (w s p) }
