-- ===== src/Runs/Advance/Quiet.antt =====
-- The methods that do not write the table of Runs, and what a successful `transition` leaves stored.
use wifi_validation_framewor.Prelude.{
  String, ◌≡◌, ◌∙◌, refl, sym, Bool, false, Option, none, some, List, inl, inr, ap, Bool-cases,
  Option-cases, find_row, find_row-update_self, has_row-find_row, ok, raised, pure, writes,
  reject_if, ◌>>=◌, ◌>>◌, >>=-ok, IsPreorder, Respects, respects_rules,
}
use wifi_validation_framewor.Domain.Entities.{Run, Attempt, LifecycleEvent, Time}
use wifi_validation_framewor.Domain.Validation.{Error, domain}
use wifi_validation_framewor.Runs.Store.{RunService, Action, clock, id_generator}
use wifi_validation_framewor.Runs.Repositories.{
  run_key, updated_columns, get_run, update_run, list_attempts, update_attempt, append_event,
}
use wifi_validation_framewor.Runs.Lifecycle.{require_run, event}

pub record SameRuns (s t : RunService) : Type 0 where
  pub same : t.runs ≡ s.runs

pub SameRuns-preorder : IsPreorder SameRuns
SameRuns-preorder = record {
  refl_at = λ s. record { same = refl };
  trans_at = λ s t u p q. record { same = q.same ∙ p.same };
}

pub writes-SameRuns :
    {A : Type 0} (f : RunService → A × RunService)
    → ((s : RunService) → (f s).1.runs ≡ s.runs)
    → Respects {E = Error} SameRuns (writes f)
unfolding writes
writes-SameRuns f h = record { at = λ s. record { same = h s } }

pub clock-SameRuns : Respects SameRuns clock
unfolding clock
clock-SameRuns = search writes-SameRuns

pub id_generator-SameRuns : Respects SameRuns id_generator
unfolding id_generator
id_generator-SameRuns = search writes-SameRuns

pub list_attempts-SameRuns : (k : String) → Respects SameRuns (list_attempts k)
unfolding list_attempts
list_attempts-SameRuns k = search (respects_rules, SameRuns-preorder)

pub update_attempt-SameRuns : (a : Attempt) → Respects SameRuns (update_attempt a)
unfolding update_attempt
update_attempt-SameRuns a = search (respects_rules, SameRuns-preorder, writes-SameRuns)

pub append_event-SameRuns : (e : LifecycleEvent) → Respects SameRuns (append_event e)
unfolding append_event
append_event-SameRuns e = search (respects_rules, SameRuns-preorder, writes-SameRuns)

pub event-SameRuns :
    (k t : String) (at : Time) (a : Option String) (d : List (String × Option String))
    → Respects SameRuns (event k t at a d)
unfolding event
event-SameRuns k t at a d =
    search (respects_rules, SameRuns-preorder, id_generator-SameRuns, append_event-SameRuns) depth 9

-- A method that gives back `x` whenever it returns.
pub record Returns {A : Type 0} (x : A) (m : Action A) : Type 0 where
  pub value : (s : RunService) (y : A) → (m s).0 ≡ ok y → y ≡ x

pub Returns-pure : {A : Type 0} (x : A) → Returns x (pure x)
unfolding pure
Returns-pure x = record { value = λ s y h. cc }

pub Returns-bind :
    {A B : Type 0} (x : B) (m : Action A) (f : A → Action B)
    → ((a : A) → Returns x (f a))
    → Returns x (m >>= f)
Returns-bind x m f h = record {
  value =
      λ s y e. let (a, _, p) = >>=-ok m f s e in (h a).value (m s).1 y (ap (λ r. r.0) (sym p) ∙ e);
}

-- Reading a Run that is stored.
pub require_run_lem :
    (k : String) (s : RunService) {r : Run}
    → find_row run_key k s.runs ≡ some r
    → require_run k s ≡ (ok r, s)
unfolding require_run get_run ◌>>=◌
require_run_lem k s h = rw h

pub require_run_missing :
    (k : String) (s : RunService)
    → find_row run_key k s.runs ≡ none
    → require_run k s ≡ (raised (domain "Run not found"), s)
unfolding require_run get_run ◌>>=◌
require_run_missing k s h = rw h

pub clock_keeps_runs : (s : RunService) → (clock s).1.runs ≡ s.runs
clock_keeps_runs s = (clock-SameRuns.at s).same

-- An update of a stored Run returns, and the row has the new columns.
pub update_run_lem :
    (r old : Run) (s : RunService)
    → find_row run_key r.run_id s.runs ≡ some old
    → find_row run_key r.run_id (update_run r s).1.runs ≡ some (updated_columns r old)
unfolding update_run ◌>>=◌
update_run_lem r old s h =
    rw (has_row-find_row run_key r.run_id s.runs h)
      (find_row-update_self run_key r.run_id (updated_columns r) s.runs refl h)

-- A method that begins by reading a Run need only be looked at where the Run is stored, and one that
-- begins by a test where the test passes.
module _ {A : Type 0} {R : RunService → RunService → Type 0} (o : IsPreorder R) where
  pub require_run-Respects_at :
      (k : String) (f : Run → Action A) (s : RunService)
      → ((r : Run) → find_row run_key k s.runs ≡ some r → R s (f r s).1)
      → R s ((require_run k >>= f) s).1
  unfolding require_run get_run ◌>>=◌
  require_run-Respects_at k f s h = elim (Option-cases (find_row run_key k s.runs)) [
    | inl missing ↦ rw missing (o.refl_at s)
    | inr (r, stored) ↦ rw stored (h r stored)
  ]

  pub reject_if-Respects_at :
      (b : Bool) (e : Error) (m : Action A) (s : RunService)
      → (b ≡ false → R s (m s).1)
      → R s ((reject_if b e >> m) s).1
  unfolding ◌>>=◌
  reject_if-Respects_at b e m s h = elim (Bool-cases b) [
    | inl failing ↦ rw failing (o.refl_at s)
    | inr passing ↦ rw passing (h passing)
  ]
