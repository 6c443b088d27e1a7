-- ===== src/Runs/Advance.antt =====
-- How the stored Runs of lib/services/run_service.py may change: a relation between the state before
-- and after a method, with a rule for each repository method.
pub mod Rules
pub mod Quiet
pub mod Transition
pub mod Methods
pub mod Others
use mathlib.Core.Option.{some-injective}
use wifi_validation_framewor.Prelude.{
  ℕ, ◌+◌, ◌≤◌, String, ◌≡◌, refl, sym, Bool, true, false, not, Option, none, some, List, [], ◌∷◌,
  ◌++◌, arith, eq_iff, inl, inr, ◌is◌, Bool-cases, Option-cases, find_row, has_row, update_rows,
  find_row-append, find_row-update_self, find_row-update_ne, find_row-key, has_row-find_row, Result,
  ok, raised, Method, pure, raise, reads, writes, reject_if, require, ◌>>=◌, ◌>>◌, IsPreorder,
  Respects, respects_rules, Respects-bind_at,
}
use wifi_validation_framewor.Domain.Status.{RunLifecycle, EnvironmentHealthStatus}
use wifi_validation_framewor.Domain.Entities.{Run, Attempt, TestResult, LifecycleEvent}
use wifi_validation_framewor.Domain.Validation.{Error}
use wifi_validation_framewor.Runs.Store.{RunService, Action, clock, id_generator}
use wifi_validation_framewor.Runs.Repositories.{
  run_key, updated_columns, transaction, get_run, insert_run, update_run, get_attempt,
  list_attempts, insert_attempt, update_attempt, append_event, list_events, insert_result,
}
use wifi_validation_framewor.Runs.Lifecycle.{allowed, is_terminal, require_run, event}
use wifi_validation_framewor.Runs.Health.{severity}

infix 40 ◌⟶*◌
-- A chain of allowed transitions.
pub data ◌⟶*◌ : RunLifecycle → RunLifecycle → Type 0 where
  here : {l : RunLifecycle} → l ⟶* l
  via : {l m n : RunLifecycle} → allowed l m ≡ true → m ⟶* n → l ⟶* n

pub ⟶*-trans : {l m n : RunLifecycle} → l ⟶* m → m ⟶* n → l ⟶* n
⟶*-trans here q = q
⟶*-trans (via e p) q = via e (⟶*-trans p q)

-- 0 where no health is recorded.
abbrev pub health_rank : Option EnvironmentHealthStatus → ℕ
health_rank none = 0
health_rank (some h) = severity h + 1

-- What one stored Run may become: its inputs stay, its life cycle follows the table, its recorded
-- health never gets better, and a terminal Run keeps how it ended.
pub record Advanced (old new : Run) : Type 0 where
  pub run_id : new.run_id ≡ old.run_id
  pub selected_tests : new.selected_tests ≡ old.selected_tests
  pub test_definition_versions : new.test_definition_versions ≡ old.test_definition_versions
  pub firmware_version : new.firmware_version ≡ old.firmware_version
  pub lab_id : new.lab_id ≡ old.lab_id
  pub source_run_id : new.source_run_id ≡ old.source_run_id
  pub path : old.lifecycle ⟶* new.lifecycle
  pub health : health_rank old.environment_health ≤ health_rank new.environment_health
  pub lifecycle_kept : is_terminal old.lifecycle ≡ true → new.lifecycle ≡ old.lifecycle
  pub outcome_kept : is_terminal old.lifecycle ≡ true → new.outcome ≡ old.outcome
  pub failure_kept : is_terminal old.lifecycle ≡ true → new.failure_class ≡ old.failure_class
  pub end_kept : is_terminal old.lifecycle ≡ true → new.completed_at ≡ old.completed_at

pub Advanced-refl : (r : Run) → Advanced r r
Advanced-refl r = record {
  run_id = refl;
  selected_tests = refl;
  test_definition_versions = refl;
  firmware_version = refl;
  lab_id = refl;
  source_run_id = refl;
  path = here;
  health = omega arith;
  lifecycle_kept = λ _. refl;
  outcome_kept = λ _. refl;
  failure_kept = λ _. refl;
  end_kept = λ _. refl;
}

pub Advanced-trans : (a b c : Run) → Advanced a b → Advanced b c → Advanced a c
Advanced-trans a b c p q = record {
  run_id = cc (p.run_id, q.run_id);
  selected_tests = cc (p.selected_tests, q.selected_tests);
  test_definition_versions = cc (p.test_definition_versions, q.test_definition_versions);
  firmware_version = cc (p.firmware_version, q.firmware_version);
  lab_id = cc (p.lab_id, q.lab_id);
  source_run_id = cc (p.source_run_id, q.source_run_id);
  path = ⟶*-trans p.path q.path;
  health = omega (arith, p.health, q.health);
  lifecycle_kept = λ h. cc (p.lifecycle_kept h, q.lifecycle_kept (rw (p.lifecycle_kept h) h));
  outcome_kept = λ h. cc (p.outcome_kept h, q.outcome_kept (rw (p.lifecycle_kept h) h));
  failure_kept = λ h. cc (p.failure_kept h, q.failure_kept (rw (p.lifecycle_kept h) h));
  end_kept = λ h. cc (p.end_kept h, q.end_kept (rw (p.lifecycle_kept h) h));
}

-- Every stored Run is still stored, as something it may have become.
pub record Advances (s t : RunService) : Type 0 where
  pub at_run :
      (k : String) (r : Run)
      → find_row run_key k s.runs ≡ some r
      → (r' : Run) × (find_row run_key k t.runs ≡ some r') × Advanced r r'

pub Advances-same : (s t : RunService) → t.runs ≡ s.runs → Advances s t
Advances-same s t e = record { at_run = λ k r h. (r, rw e h, Advanced-refl r) }

pub Advances-preorder : IsPreorder Advances
Advances-preorder = record {
  refl_at = λ s. Advances-same s s refl;
  trans_at = λ s t u p q. record {
    at_run = λ k r h.
        let (r', h', a) = p.at_run k r h in
        let (r'', h'', b) = q.at_run k r' h' in (r'', h'', Advanced-trans r r' r'' a b);
  };
}
