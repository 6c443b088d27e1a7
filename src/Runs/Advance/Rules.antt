-- ===== src/Runs/Advance/Rules.antt =====
-- The repository methods of lib/repositories/sqlite.py, each with what it does to the stored Runs.
use mathlib.Core.Path.{subst}
use wifi_validation_framewor.Prelude.{
  String, ◌≡◌, refl, some, [], ◌∷◌, ◌++◌, eq_iff, inl, inr, ◌is◌, Bool-cases, find_row, update_rows,
  find_row-append, find_row-update_self, find_row-update_ne, has_row-find_row, Result, ok, raised,
  writes, ◌>>=◌, Respects, respects_rules, some-eq,
}
use wifi_validation_framewor.Domain.Entities.{Run, Attempt, TestResult, LifecycleEvent}
use wifi_validation_framewor.Domain.Validation.{Error}
use wifi_validation_framewor.Runs.Store.{RunService, Action, clock, id_generator}
use wifi_validation_framewor.Runs.Repositories.{
  run_key, run_row, updated_columns, transaction, get_run, insert_run, update_run, get_attempt,
  list_attempts, insert_attempt, update_attempt, append_event, list_events, insert_result,
}
use wifi_validation_framewor.Runs.Advance.{
  Advanced, Advanced-refl, Advances, Advances-same, Advances-preorder,
}

-- A write that leaves the table of Runs alone.
pub writes-Advances :
    {A : Type 0} (f : RunService → A × RunService)
    → ((s : RunService) → (f s).1.runs ≡ s.runs)
    → Respects {E = Error} Advances (writes f)
unfolding writes
writes-Advances f h = record { at = λ s. Advances-same s (f s).1 (h s) }

pub clock-Advances : Respects Advances clock
unfolding clock
clock-Advances = writes-Advances _ (λ s. refl)

pub id_generator-Advances : Respects Advances id_generator
unfolding id_generator
id_generator-Advances = writes-Advances _ (λ s. refl)

pub get_run-Advances : (k : String) → Respects Advances (get_run k)
unfolding get_run
get_run-Advances k = search (respects_rules, Advances-preorder)

pub get_attempt-Advances : (k : String) → Respects Advances (get_attempt k)
unfolding get_attempt
get_attempt-Advances k = search (respects_rules, Advances-preorder)

pub list_attempts-Advances : (k : String) → Respects Advances (list_attempts k)
unfolding list_attempts
list_attempts-Advances k = search (respects_rules, Advances-preorder)

pub list_events-Advances : (k : String) → Respects Advances (list_events k)
unfolding list_events
list_events-Advances k = search (respects_rules, Advances-preorder)

rolled_back :
    {A : Type 0} (m : Action A) (s : RunService) (r : Result Error A × RunService)
    → Advances s r.1
    → Advances s (transaction (λ _. r) s).1
unfolding transaction
rolled_back m s (ok a, t) h = h
rolled_back m s (raised e, t) h = Advances-preorder.refl_at s

pub transaction-Advances :
    {A : Type 0} (m : Action A) → Respects Advances m → Respects Advances (transaction m)
unfolding transaction
transaction-Advances m h = record { at = λ s. rolled_back m s (m s) (h.at s) }

-- INSERT INTO runs: the rows that were there stay the first ones with their key.
inserted-Advances :
    (r : Run)
    → Respects {E = Error} Advances
        (writes (λ s. (tt, record s { runs = s.runs ++ run_row r ∷ [] })))
unfolding writes
inserted-Advances r = record {
  at = λ s. record {
    at_run =
        λ k old h. (old, find_row-append run_key k s.runs (run_row r ∷ []) h, Advanced-refl old);
  };
}

pub insert_run-Advances : (r : Run) → Respects Advances (insert_run r)
unfolding insert_run
insert_run-Advances r = search (respects_rules, Advances-preorder, inserted-Advances)

pub insert_attempt-Advances : (a : Attempt) → Respects Advances (insert_attempt a)
unfolding insert_attempt
insert_attempt-Advances a = search (respects_rules, Advances-preorder, writes-Advances) depth 9

pub update_attempt-Advances : (a : Attempt) → Respects Advances (update_attempt a)
unfolding update_attempt
update_attempt-Advances a = search (respects_rules, Advances-preorder, writes-Advances)

pub append_event-Advances : (e : LifecycleEvent) → Respects Advances (append_event e)
unfolding append_event
append_event-Advances e = search (respects_rules, Advances-preorder, writes-Advances)

pub insert_result-Advances : (r : TestResult) → Respects Advances (insert_result r)
unfolding insert_result
insert_result-Advances r = search (respects_rules, Advances-preorder, writes-Advances) depth 9

-- UPDATE runs, on a Run that is stored as `old`.
module _ (r old : Run) (s : RunService) (stored : find_row run_key r.run_id s.runs ≡ some old)
    (adv : Advanced old (updated_columns r old)) where
  row_after_update :
      (k : String) (x : Run)
      → find_row run_key k s.runs ≡ some x
      → (x' : Run) × (find_row run_key k (update_rows run_key r.run_id (updated_columns r) s.runs)
          ≡ some x')
        × Advanced x x'
  row_after_update k x e = elim (Bool-cases (r.run_id is k)) [
    | inl same ↦
        let p : r.run_id ≡ k = (eq_iff r.run_id k).0 same in
        let q : old ≡ x = some-eq (cc (stored, p, e)) in
        (
          updated_columns r old,
          rw (← p) (find_row-update_self run_key r.run_id (updated_columns r) s.runs refl stored),
          subst (λ y. Advanced y (updated_columns r old)) q adv,
        )
    | inr differ ↦ (
      x,
      cc (find_row-update_ne run_key r.run_id k (updated_columns r) s.runs (λ _. refl) differ, e),
      Advanced-refl x,
    )
  ]

  pub update_run-Advances : Advances s (update_run r s).1
  unfolding update_run ◌>>=◌
  update_run-Advances =
      rw (has_row-find_row run_key r.run_id s.runs stored) (record { at_run = row_after_update })
