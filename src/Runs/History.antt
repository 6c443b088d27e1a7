-- ===== src/Runs/History.antt =====
-- The events and the test results that lib/services/run_service.py has stored are never changed or
-- taken back: its methods only append to them.
pub mod Methods
use mathlib.Core.Path.{subst}
use mathlib.Core.List.{append-nil, append_assoc}
use mathlib.Core.Option
use wifi_validation_framewor.Prelude.{
  ◌≡◌, ◌∙◌, sym, refl, ap, String, Bool, true, false, Option, none, some, List, [], ◌∷◌, ◌++◌,
  Result, ok, raised, pure, reads, writes, ◌>>=◌, ◌>>◌, IsPreorder, Respects, respects_rules,
}
use wifi_validation_framewor.Domain.Entities.{Run, Attempt, TestResult, LifecycleEvent}
use wifi_validation_framewor.Domain.Validation.{Error}
use wifi_validation_framewor.Runs.Store.{RunService, Action, clock, id_generator}
use wifi_validation_framewor.Runs.Repositories.{
  transaction, get_run, insert_run, update_run, get_attempt, list_attempts, insert_attempt,
  update_attempt, append_event, list_events, insert_result,
}

-- `new` begins with `old`.
pub record Extends {A : Type 0} (old new : List A) : Type 0 where
  pub later : List A
  pub whole : new ≡ old ++ later

Extends-refl : {A : Type 0} (xs : List A) → Extends xs xs
Extends-refl xs = record { later = []; whole = sym (append-nil xs) }

Extends-trans : {A : Type 0} (xs ys zs : List A) → Extends xs ys → Extends ys zs → Extends xs zs
Extends-trans xs ys zs p q = record {
  later = p.later ++ q.later;
  whole = q.whole ∙ ap (λ l. l ++ q.later) p.whole ∙ append_assoc xs p.later q.later;
}

-- The same for a table that may not be configured, which then stays so.
abbrev pub TableExtends : {A : Type 0} → Option (List A) → Option (List A) → Type 0
TableExtends none new = new ≡ none
TableExtends {A} (some xs) new = (ys : List A) × (new ≡ some ys) × Extends xs ys

TableExtends-refl : {A : Type 0} (t : Option (List A)) → TableExtends t t
TableExtends-refl none = refl
TableExtends-refl (some xs) = (xs, refl, Extends-refl xs)

TableExtends-trans :
    {A : Type 0} (a b c : Option (List A)) → TableExtends a b → TableExtends b c → TableExtends a c
TableExtends-trans none b c p q = subst (λ t. TableExtends t c) p q
TableExtends-trans (some xs) b c (ys, e, p) q =
    let (zs, e', p') = subst (λ t. TableExtends t c) e q in (zs, e', Extends-trans xs ys zs p p')

pub record Grows (s t : RunService) : Type 0 where
  pub events : Extends s.events t.events
  pub results : TableExtends s.test_results t.test_results

pub Grows-preorder : IsPreorder Grows
Grows-preorder = record {
  refl_at =
      λ s. record { events = Extends-refl s.events; results = TableExtends-refl s.test_results };
  trans_at = λ s t u p q. record {
    events = Extends-trans s.events t.events u.events p.events q.events;
    results = TableExtends-trans s.test_results t.test_results u.test_results p.results q.results;
  };
}

-- A write that touches neither table.
pub writes-Grows :
    {A : Type 0} (f : RunService → A × RunService)
    → ((s : RunService) → (f s).1.events ≡ s.events)
    → ((s : RunService) → (f s).1.test_results ≡ s.test_results)
    → Respects {E = Error} Grows (writes f)
unfolding writes
writes-Grows f h k = record {
  at = λ s. record {
    events = subst (Extends s.events) (sym (h s)) (Extends-refl s.events);
    results = subst (TableExtends s.test_results) (sym (k s)) (TableExtends-refl s.test_results);
  };
}

pub logged-Grows :
    (e : LifecycleEvent)
    → Respects {E = Error} Grows (writes λ s. (tt, record s { events = s.events ++ e ∷ [] }))
unfolding writes
logged-Grows e = record {
  at = λ s. record {
    events = record { later = e ∷ []; whole = refl };
    results = TableExtends-refl s.test_results;
  };
}

appended :
    (t : Option (List TestResult)) (r : TestResult)
    → TableExtends t (Option.map (λ xs. xs ++ r ∷ []) t)
appended none r = refl
appended (some xs) r = (xs ++ r ∷ [], refl, record { later = r ∷ []; whole = refl })

pub recorded-Grows :
    (r : TestResult)
    → Respects {E = Error} Grows (
        writes
          λ s. (tt, record s { test_results = Option.map (λ xs. xs ++ r ∷ []) s.test_results }))
unfolding writes
recorded-Grows r = record {
  at = λ s. record { events = Extends-refl s.events; results = appended s.test_results r };
}

rolled_back :
    {A : Type 0} (s : RunService) (r : Result Error A × RunService)
    → Grows s r.1
    → Grows s (transaction (λ _. r) s).1
unfolding transaction
rolled_back s (ok a, t) h = h
rolled_back s (raised e, t) h = Grows-preorder.refl_at s

pub transaction-Grows :
    {A : Type 0} (m : Action A) → Respects Grows m → Respects Grows (transaction m)
unfolding transaction
transaction-Grows m h = record { at = λ s. rolled_back s (m s) (h.at s) }

pub clock-Grows : Respects Grows clock
unfolding clock
clock-Grows = search writes-Grows

pub id_generator-Grows : Respects Grows id_generator
unfolding id_generator
id_generator-Grows = search writes-Grows

pub ruleset table_rules =
    (respects_rules, Grows-preorder, writes-Grows, logged-Grows, recorded-Grows, transaction-Grows)

pub get_run-Grows : (k : String) → Respects Grows (get_run k)
unfolding get_run
get_run-Grows k = search table_rules depth 24

pub get_attempt-Grows : (k : String) → Respects Grows (get_attempt k)
unfolding get_attempt
get_attempt-Grows k = search table_rules depth 24

pub list_attempts-Grows : (k : String) → Respects Grows (list_attempts k)
unfolding list_attempts
list_attempts-Grows k = search table_rules depth 24

pub list_events-Grows : (k : String) → Respects Grows (list_events k)
unfolding list_events
list_events-Grows k = search table_rules depth 24

pub insert_run-Grows : (r : Run) → Respects Grows (insert_run r)
unfolding insert_run
insert_run-Grows r = search table_rules depth 24

pub update_run-Grows : (r : Run) → Respects Grows (update_run r)
unfolding update_run
update_run-Grows r = search table_rules depth 24

pub insert_attempt-Grows : (a : Attempt) → Respects Grows (insert_attempt a)
unfolding insert_attempt
insert_attempt-Grows a = search table_rules depth 24

pub update_attempt-Grows : (a : Attempt) → Respects Grows (update_attempt a)
unfolding update_attempt
update_attempt-Grows a = search table_rules depth 24

pub append_event-Grows : (e : LifecycleEvent) → Respects Grows (append_event e)
unfolding append_event
append_event-Grows e = search table_rules depth 24

pub insert_result-Grows : (r : TestResult) → Respects Grows (insert_result r)
unfolding insert_result
insert_result-Grows r = search table_rules depth 24

pub ruleset growth_rules = (
  respects_rules, Grows-preorder, clock-Grows, id_generator-Grows, transaction-Grows, get_run-Grows,
  get_attempt-Grows, list_attempts-Grows, list_events-Grows, insert_run-Grows, update_run-Grows,
  insert_attempt-Grows, update_attempt-Grows, append_event-Grows, insert_result-Grows,
)
