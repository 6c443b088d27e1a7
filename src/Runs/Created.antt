-- ===== src/Runs/Created.antt =====
-- What `create_run` (lib/services/run_service.py) gives, and that it stores all of a new Run or nothing.
use wifi_validation_framewor.Prelude.{
  ◌≡◌, ◌∙◌, refl, String, Option, none, some, arith, Result, ok, raised, pure, writes, ◌>>=◌,
  IsPreorder, Respects, respects_rules,
}
use wifi_validation_framewor.Domain.Entities.{Run, Attempt, LifecycleEvent}
use wifi_validation_framewor.Domain.Validation.{Error, check_run, check_attempt}
use wifi_validation_framewor.Runs.Store.{RunService, Action, clock, id_generator}
use wifi_validation_framewor.Runs.Repositories.{transaction, get_run, save_initial_bundle}
use wifi_validation_framewor.Runs.Creation.{RunRequest, check_retry_source, create_run}

pub record SameTables (s t : RunService) : Type 0 where
  pub runs : t.runs ≡ s.runs
  pub attempts : t.attempts ≡ s.attempts
  pub events : t.events ≡ s.events
  pub test_results : t.test_results ≡ s.test_results
  pub baselines : t.baselines ≡ s.baselines

SameTables-preorder : IsPreorder SameTables
SameTables-preorder = record {
  refl_at = λ s. record {
    runs = refl;
    attempts = refl;
    events = refl;
    test_results = refl;
    baselines = refl;
  };
  trans_at = λ s t u p q. record {
    runs = q.runs ∙ p.runs;
    attempts = q.attempts ∙ p.attempts;
    events = q.events ∙ p.events;
    test_results = q.test_results ∙ p.test_results;
    baselines = q.baselines ∙ p.baselines;
  };
}

clock-SameTables : Respects SameTables clock
unfolding clock writes
clock-SameTables = record {
  at = λ s. record {
    runs = refl;
    attempts = refl;
    events = refl;
    test_results = refl;
    baselines = refl;
  };
}

id_generator-SameTables : Respects SameTables id_generator
unfolding id_generator writes
id_generator-SameTables = record {
  at = λ s. record {
    runs = refl;
    attempts = refl;
    events = refl;
    test_results = refl;
    baselines = refl;
  };
}

get_run-SameTables : (k : String) → Respects SameTables (get_run k)
unfolding get_run
get_run-SameTables k = search (respects_rules, SameTables-preorder)

check_retry_source-SameTables : (k : Option String) → Respects SameTables (check_retry_source k)
unfolding check_retry_source
check_retry_source-SameTables none = search (respects_rules, SameTables-preorder)
check_retry_source-SameTables (some k) =
    search (respects_rules, SameTables-preorder, get_run-SameTables)

-- A method that leaves the tables as they were where it raises.
pub record IsAtomic {A : Type 0} (m : Action A) : Type 0 where
  pub undone : (s : RunService) (e : Error) → (m s).0 ≡ raised e → SameTables s (m s).1

bind_raised :
    {A B : Type 0} (f : A → Action B) (s : RunService) (r : Result Error A × RunService) (e : Error)
    → SameTables s r.1
    → ((a : A) → IsAtomic (f a))
    → (((λ (t : RunService). r) >>= f) s).0 ≡ raised e
    → SameTables s (((λ (t : RunService). r) >>= f) s).1
unfolding ◌>>=◌
bind_raised f s (ok a, t) e h k p =
    SameTables-preorder.trans_at s t (f a t).1 h ((k a).undone t e p)
bind_raised f s (raised x, t) e h k p = h

IsAtomic-bind :
    {A B : Type 0} (m : Action A) (f : A → Action B)
    → Respects SameTables m
    → ((a : A) → IsAtomic (f a))
    → IsAtomic (m >>= f)
unfolding ◌>>=◌
IsAtomic-bind m f h k = record { undone = λ s e p. bind_raised f s (m s) e (h.at s) k p }

returned :
    {A B : Type 0} (b : B) (s : RunService) (r : Result Error A × RunService) (e : Error)
    → ((x : Error) → r.0 ≡ raised x → SameTables s r.1)
    → (((λ (t : RunService). r) >>= λ _. pure b) s).0 ≡ raised e
    → SameTables s (((λ (t : RunService). r) >>= λ _. pure b) s).1
unfolding ◌>>=◌
returned b s (ok a, t) e h p = cc p
returned b s (raised x, t) e h p = h x refl

IsAtomic-return : {A B : Type 0} (b : B) (m : Action A) → IsAtomic m → IsAtomic (m >>= λ _. pure b)
unfolding ◌>>=◌
IsAtomic-return b m h = record { undone = λ s e p. returned b s (m s) e (h.undone s) p }

undone_at :
    {A : Type 0} (s : RunService) (r : Result Error A × RunService) (e : Error)
    → (transaction (λ _. r) s).0 ≡ raised e
    → SameTables s (transaction (λ _. r) s).1
unfolding transaction
undone_at s (ok a, t) e p = cc p
undone_at s (raised x, t) e p = SameTables-preorder.refl_at s

IsAtomic-transaction : {A : Type 0} (m : Action A) → IsAtomic (transaction m)
unfolding transaction
IsAtomic-transaction m = record { undone = λ s e p. undone_at s (m s) e p }

save_initial_bundle-IsAtomic :
    (r : Run) (a : Attempt) (e f : LifecycleEvent) → IsAtomic (save_initial_bundle r a e f)
unfolding save_initial_bundle
save_initial_bundle-IsAtomic r a e f = IsAtomic-transaction _

create_run-IsAtomic : (q : RunRequest) → IsAtomic (create_run q)
unfolding create_run
create_run-IsAtomic q =
    search
      (
        respects_rules, SameTables-preorder, clock-SameTables, id_generator-SameTables,
        check_retry_source-SameTables, IsAtomic-bind, IsAtomic-return, save_initial_bundle-IsAtomic,
      )
      depth 24

-- Where `create_run` raises, from whichever check or insertion, no table has changed: no part of a new
-- Run is stored.
pub create_run-raised :
    (q : RunRequest) (s : RunService) (e : Error)
    → (create_run q s).0 ≡ raised e
    → SameTables s (create_run q s).1
create_run-raised q s e h = (create_run-IsAtomic q).undone s e h

check_run-ok : (r x : Run) → check_run r ≡ ok x → x ≡ r
unfolding check_run
check_run-ok r x h = ground arith

check_attempt-ok : (a x : Attempt) → check_attempt a ≡ ok x → x ≡ a
unfolding check_attempt
check_attempt-ok a x h = ground arith
