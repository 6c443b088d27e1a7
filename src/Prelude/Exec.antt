-- ===== src/Prelude/Exec.antt =====
-- Methods that change the state of an object and may raise. What was written before the exception
-- stays written, so a method gives back its state on both ways out. A preorder on states that every
-- part of a method respects is respected by the method.
use mathlib.Core.Path.{◌≡◌, refl, sym, ◌∙◌, ap, subst}
use mathlib.Core.Bool.{Bool, true, false}
use mathlib.Core.Option.{Option, none, some}
use mathlib.Core.List.{List, [], ◌∷◌}
use wifi_validation_framewor.Prelude.Tests.{if◌then◌else◌}

-- `return` and `raise`.
pub data Result (E A : Type 0) : Type 0 where
  ok : A → Result E A
  raised : E → Result E A

pub ok-eq : {E A : Type 0} {a b : A} → ◌≡◌ {A = Result E A} (ok a) (ok b) → a ≡ b
ok-eq {a = a} h = ap (λ r. elim r [ ok x ↦ x | raised e ↦ a ]) h

abbrev pub Method : Type 0 → Type 0 → Type 0 → Type 0
Method S E A = S → Result E A × S

module _ {S E A : Type 0} where
  unfoldable pub pure : A → Method S E A
  pure a s = (ok a, s)

  unfoldable pub raise : E → Method S E A
  raise e s = (raised e, s)

  -- Read the state.
  unfoldable pub reads : (S → A) → Method S E A
  reads f s = (ok (f s), s)

  -- Change the state, and give a value back.
  unfoldable pub writes : (S → A × S) → Method S E A
  writes f s = let (a, t) = f s in (ok a, t)

  -- A computation that may raise and changes nothing.
  unfoldable pub lift : Result E A → Method S E A
  lift r s = (r, s)

  -- The value of an `Option`, or the exception of a missing one.
  unfoldable pub require : E → Option A → Method S E A
  unfolding pure raise
  require e none = raise e
  require e (some a) = pure a

  -- `try: m except: handler`.
  unfoldable pub handling : Method S E A → (E → Method S E A) → Method S E A
  handling m handler s = let (r, t) = m s in elim r [ ok a ↦ (ok a, t) | raised e ↦ handler e t ]

-- `try: m finally: n`.
abbrev pub after : {S E A : Type 0} → Result E A → Result E (Unit {0}) × S → Result E A × S
after r (ok _, t) = (r, t)
after r (raised e, t) = (raised e, t)

unfoldable pub finally : {S E A : Type 0} → Method S E A → Method S E (Unit {0}) → Method S E A
finally m n s = let (r, t) = m s in after r (n t)

pub after-state :
    {S E A : Type 0} (P : S → Type 0) (r : Result E A) (q : Result E (Unit {0}) × S)
    → P q.1
    → P (after r q).1
after-state P r (ok _, t) h = h
after-state P r (raised e, t) h = h

-- `if failing: raise e`.
unfoldable pub reject_if : {S E : Type 0} → Bool → E → Method S E (Unit {0})
unfolding pure raise
reject_if true e = raise e
reject_if false e = pure tt

module _ {S E A B : Type 0} where
  abbrev pub continue_with : (A → Method S E B) → Result E A × S → Result E B × S
  continue_with f (ok a, s) = f a s
  continue_with f (raised e, s) = (raised e, s)

  infixl 10 ◌>>=◌ ◌>>◌
  unfoldable pub ◌>>=◌ : Method S E A → (A → Method S E B) → Method S E B
  unfolding pure raise reads writes lift require reject_if
  ◌>>=◌ m f s = continue_with f (m s)

  abbrev pub ◌>>◌ : Method S E A → Method S E B → Method S E B
  m >> n = m >>= λ _. n

  -- How a sequence of two methods returned.
  pub >>=-ok :
      (m : Method S E A) (f : A → Method S E B) (s : S) {b : B}
      → ((m >>= f) s).0 ≡ ok b
      → (a : A) × ((m s).0 ≡ ok a) × ((m >>= f) s ≡ f a (m s).1)
  unfolding ◌>>=◌
  >>=-ok m f s h = inspect (m s) h
    where
      inspect :
          (r : Result E A × S) {b : B}
          → (continue_with f r).0 ≡ ok b
          → (a : A) × (r.0 ≡ ok a) × (continue_with f r ≡ f a r.1)
      inspect (ok a, t) e = (a, refl, refl)
      inspect (raised x, t) e = cc

-- What a method gives back, where it returns.
pub record Gives {S E A : Type 0} (P : A → Type 0) (m : Method S E A) : Type 0 where
  pub at : (s : S) (a : A) → (m s).0 ≡ ok a → P a

module _ {S E A : Type 0} (P : A → Type 0) where
  pub Gives-pure : (a : A) → P a → Gives P (pure {S = S} {E = E} a)
  unfolding pure
  Gives-pure a h = record { at = λ s b e. subst P (ok-eq e) h }

  pub Gives-raise : (e : E) → Gives P (raise {S = S} {E = E} e)
  unfolding raise
  Gives-raise e = record { at = λ s b h. cc h }

  -- After a step of which something is known.
  pub Gives-bind :
      {B : Type 0} (Q : B → Type 0) (m : Method S E B) (f : B → Method S E A)
      → Gives Q m
      → ((b : B) → Q b → Gives P (f b))
      → Gives P (m >>= f)
  Gives-bind Q m f g h = record {
    at = λ s b e.
        let (a, returned, eq) = >>=-ok m f s e in
        (h a (g.at s a returned)).at (m s).1 b (ap (λ q. q.0) (sym eq) ∙ e);
  }

  pub Gives-then :
      {B : Type 0} (m : Method S E B) (f : B → Method S E A)
      → ((b : B) → Gives P (f b))
      → Gives P (m >>= f)
  Gives-then m f h = Gives-bind (λ _. Unit) m f (record { at = λ s a e. tt }) (λ b _. h b)

-- What a return tells of a test, of a required value and of a checked one.
module _ {S E B : Type 0} (s : S) {b : B} where
  pub reject_if-ok :
      (failing : Bool) (e : E) (m : Method S E B)
      → ((reject_if failing e >> m) s).0 ≡ ok b
      → (failing ≡ false) × ((m s).0 ≡ ok b)
  unfolding ◌>>=◌
  reject_if-ok true e m h = cc h
  reject_if-ok false e m h = (refl, h)

module _ {S E A B : Type 0} (s : S) {b : B} where
  pub reads-ok :
      (g : S → A) (f : A → Method S E B) → ((reads g >>= f) s).0 ≡ ok b → (f (g s) s).0 ≡ ok b
  unfolding ◌>>=◌
  reads-ok g f h = h

  pub require-ok :
      (e : E) (v : Option A) (f : A → Method S E B)
      → ((require e v >>= f) s).0 ≡ ok b
      → (a : A) × (v ≡ some a) × ((f a s).0 ≡ ok b)
  unfolding ◌>>=◌
  require-ok e none f h = cc h
  require-ok e (some a) f h = (a, refl, h)

  pub lift-ok :
      (r : Result E A) (f : A → Method S E B)
      → ((lift r >>= f) s).0 ≡ ok b
      → (a : A) × (r ≡ ok a) × ((f a s).0 ≡ ok b)
  unfolding ◌>>=◌
  lift-ok (raised e) f h = cc h
  lift-ok (ok a) f h = (a, refl, h)

-- `for x in xs: body(x)`.
unfoldable pub for_each :
    {S E A : Type 0} → (A → Method S E (Unit {0})) → List A → Method S E (Unit {0})
unfolding ◌>>=◌
for_each body [] = pure tt
for_each body (x ∷ xs) = body x >> for_each body xs

pub record IsPreorder {S : Type 0} (R : S → S → Type 0) : Type 0 where
  pub refl_at : (s : S) → R s s
  pub trans_at : (s t u : S) → R s t → R t u → R s u

-- Whether it returns or raises, `m` takes a state to one that `R` allows.
pub record Respects {S E A : Type 0} (R : S → S → Type 0) (m : Method S E A) : Type 0 where
  pub at : (s : S) → R s (m s).1

-- The rules, one for each way to build a method.
module _ {S E A : Type 0} {R : S → S → Type 0} (o : IsPreorder R) where
  pub Respects-pure : (a : A) → Respects {E = E} R (pure a)
  unfolding pure
  Respects-pure a = record { at = λ s. o.refl_at s }

  pub Respects-raise : (e : E) → Respects {A = A} R (raise e)
  unfolding raise
  Respects-raise e = record { at = λ s. o.refl_at s }

  pub Respects-reads : (f : S → A) → Respects {E = E} R (reads f)
  unfolding reads
  Respects-reads f = record { at = λ s. o.refl_at s }

  pub Respects-lift : (r : Result E A) → Respects R (lift r)
  unfolding lift
  Respects-lift r = record { at = λ s. o.refl_at s }

  pub Respects-require : (e : E) (v : Option A) → Respects R (require e v)
  unfolding require
  Respects-require e none = record { at = λ s. o.refl_at s }
  Respects-require e (some a) = record { at = λ s. o.refl_at s }

module _ {S E A : Type 0} {R : S → S → Type 0} where
  pub Respects-if :
      (b : Bool) (m n : Method S E A)
      → Respects R m
      → Respects R n
      → Respects R (if b then m else n)
  Respects-if true m n h k = h
  Respects-if false m n h k = k

module _ {S E : Type 0} {R : S → S → Type 0} (o : IsPreorder R) where
  pub Respects-reject_if : (b : Bool) (e : E) → Respects R (reject_if b e)
  unfolding reject_if
  Respects-reject_if true e = record { at = λ s. o.refl_at s }
  Respects-reject_if false e = record { at = λ s. o.refl_at s }

module _ {S E A B : Type 0} {R : S → S → Type 0} (o : IsPreorder R) where
  Respects-continue :
      (f : A → Method S E B) (s : S) (r : Result E A × S)
      → ((a : A) → r.0 ≡ ok a → R r.1 (f a r.1).1)
      → R s r.1
      → R s (continue_with f r).1
  Respects-continue f s (ok a, t) k h = o.trans_at s t (f a t).1 h (k a refl)
  Respects-continue f s (raised e, t) k h = h

  -- The rest may use how the first part returned.
  pub Respects-bind_at :
      (m : Method S E A) (f : A → Method S E B) (s : S)
      → R s (m s).1
      → ((a : A) → (m s).0 ≡ ok a → R (m s).1 (f a (m s).1).1)
      → R s ((m >>= f) s).1
  unfolding ◌>>=◌
  Respects-bind_at m f s h k = Respects-continue f s (m s) k h

  pub Respects-bind :
      (m : Method S E A) (f : A → Method S E B)
      → Respects R m
      → ((a : A) → Respects R (f a))
      → Respects R (m >>= f)
  Respects-bind m f h k = record {
    at = λ s. Respects-bind_at m f s (h.at s) (λ a _. (k a).at (m s).1);
  }

module _ {S E A : Type 0} {R : S → S → Type 0} (o : IsPreorder R) where
  pub Respects-for_each :
      (body : A → Method S E (Unit {0})) (xs : List A)
      → ((x : A) → Respects R (body x))
      → Respects R (for_each body xs)
  unfolding for_each
  Respects-for_each body [] h = Respects-pure o tt
  Respects-for_each body (x ∷ xs) h =
      Respects-bind o (body x) (λ _. for_each body xs) (h x) (λ _. Respects-for_each body xs h)

  Respects-recover :
      (handler : E → Method S E A) (s : S) (r : Result E A × S)
      → ((e : E) → Respects R (handler e))
      → R s r.1
      → R s (handling (λ _. r) handler s).1
  unfolding handling
  Respects-recover handler s (ok a, t) k h = h
  Respects-recover handler s (raised e, t) k h = o.trans_at s t (handler e t).1 h ((k e).at t)

  pub Respects-handling :
      (m : Method S E A) (handler : E → Method S E A)
      → Respects R m
      → ((e : E) → Respects R (handler e))
      → Respects R (handling m handler)
  unfolding handling
  Respects-handling m handler h k = record { at = λ s. Respects-recover handler s (m s) k (h.at s) }

module _ {S E A : Type 0} (m : Method S E A) (handler : E → Method S E A) (s t : S) where
  pub handling-ok : (a : A) → m s ≡ (ok a, t) → handling m handler s ≡ (ok a, t)
  unfolding handling
  handling-ok a h = ap (λ q. handling (λ _. q) handler s) h

  pub handling-raised : (e : E) → m s ≡ (raised e, t) → handling m handler s ≡ handler e t
  unfolding handling
  handling-raised e h = ap (λ q. handling (λ _. q) handler s) h

module _ {S E A : Type 0} (R : S → S → Type 0) (handler : E → Method S E A) (s : S) where
  handle_result :
      (r : Result E A × S)
      → R s r.1
      → ((e : E) → r.0 ≡ raised e → R s (handler e r.1).1)
      → R s (handling (λ _. r) handler s).1
  unfolding handling
  handle_result (ok a, t) h k = h
  handle_result (raised e, t) h k = k e refl

  -- The handler starts from the state in which the exception was raised.
  pub Respects-handling_at :
      (m : Method S E A)
      → R s (m s).1
      → ((e : E) → (m s).0 ≡ raised e → R s (handler e (m s).1).1)
      → R s (handling m handler s).1
  unfolding handling
  Respects-handling_at m h k = handle_result (m s) h k

pub ruleset respects_rules = (
  Respects-pure, Respects-raise, Respects-reads, Respects-lift, Respects-require, Respects-if,
  Respects-reject_if, Respects-bind, Respects-for_each, Respects-handling,
)
