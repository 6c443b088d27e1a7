-- ===== src/Runs/Advance/Transition.antt =====
-- What a successful `transition` of lib/services/run_service.py has done.
use mathlib.Core.Path.{subst}
use wifi_validation_framewor.Prelude.{
  String, ◌≡◌, ◌∙◌, sym, true, false, not, none, some, [], inl, inr, ap, Bool-cases, Option-cases,
  find_row, find_row-key, ok, raised, pure, reject_if, ◌>>=◌, ◌>>◌, >>=-ok, Respects,
  respects_rules,
}
use wifi_validation_framewor.Domain.Status.{RunLifecycle}
use wifi_validation_framewor.Domain.Entities.{Run}
use wifi_validation_framewor.Domain.Validation.{domain}
use wifi_validation_framewor.Runs.Store.{RunService, Action, clock}
use wifi_validation_framewor.Runs.Repositories.{run_key, update_run}
use wifi_validation_framewor.Runs.Lifecycle.{event, transition, allowed, entered_event}
use wifi_validation_framewor.Runs.Advance.Quiet.{
  SameRuns, SameRuns-preorder, clock-SameRuns, event-SameRuns, Returns, Returns-pure, Returns-bind,
  require_run_lem, require_run_missing, update_run_lem,
}

module _ (k : String) (target : RunLifecycle) where
  -- The parts of the method after the Run is read, and after it is updated.
  log_entry : Run → Action Run
  log_entry r = do now ← clock; event k (entered_event target) now none []; pure r

  move : Run → Action Run
  unfolding log_entry
  move run = do
    reject_if (not (allowed run.lifecycle target)) (domain "invalid Run lifecycle transition")
    update_run (record run { lifecycle = target })
    log_entry (record run { lifecycle = target })

  log_entry-SameRuns : (r : Run) → Respects SameRuns (log_entry r)
  unfolding log_entry
  log_entry-SameRuns r = search (respects_rules, SameRuns-preorder, clock-SameRuns, event-SameRuns)

  log_entry-Returns : (r : Run) → Returns r (log_entry r)
  unfolding log_entry
  log_entry-Returns r = search (Returns-pure, Returns-bind)

  move-allowed :
      (run : Run) (s : RunService)
      → allowed run.lifecycle target ≡ true
      → move run s
        ≡ (update_run (record run { lifecycle = target })
              >> log_entry (record run { lifecycle = target }))
            s
  unfolding move ◌>>=◌
  move-allowed run s h = rw h

  move-refused :
      (run : Run) (s : RunService)
      → allowed run.lifecycle target ≡ false
      → move run s ≡ (raised (domain "invalid Run lifecycle transition"), s)
  unfolding move ◌>>=◌
  move-refused run s h = rw h

  transition-stored :
      (run : Run) (s : RunService)
      → find_row run_key k s.runs ≡ some run
      → transition k target s ≡ move run s
  unfolding transition ◌>>=◌ move
  transition-stored run s h = rw (require_run_lem k s h)

  transition-missing :
      (s : RunService)
      → find_row run_key k s.runs ≡ none
      → transition k target s ≡ (raised (domain "Run not found"), s)
  unfolding transition ◌>>=◌
  transition-missing s h = rw (require_run_missing k s h)

  moved_row :
      (run m : Run) (s : RunService)
      → find_row run_key k s.runs ≡ some run
      → ((update_run (record run { lifecycle = target })
            >> log_entry (record run { lifecycle = target }))
          s).0
        ≡ ok m
      → (m ≡ record run { lifecycle = target })
        × (find_row run_key k
              ((update_run (record run { lifecycle = target })
                  >> log_entry (record run { lifecycle = target }))
                s).1.runs
            ≡ some m)
  moved_row run m s stored h =
      let r : Run = record run { lifecycle = target } in
      let (u, _, p) = >>=-ok (update_run r) (λ _. log_entry r) s h in
      let s1 : RunService = (update_run r s).1 in
      let same : m ≡ r = (log_entry-Returns r).value s1 m (ap (λ q. q.0) (sym p) ∙ h) in
      let key : run.run_id ≡ k = find_row-key run_key k s.runs stored in
      let row : find_row run_key k s1.runs ≡ some r =
        subst (λ j. find_row run_key j s1.runs ≡ some r) key
          (update_run_lem r run s
            (subst (λ j. find_row run_key j s.runs ≡ some run) (sym key) stored)) in
      (
        same,
        subst (λ q. find_row run_key k q ≡ some m)
            (sym ((log_entry-SameRuns r).at s1).same ∙ ap (λ q. q.1.runs) (sym p))
            (row ∙ ap some (sym same)),
      )

  -- A successful transition found the Run in a state that allows it, and stored and returned it with
  -- only the life cycle changed.
  pub transition-ok :
      (s : RunService) (m : Run)
      → (transition k target s).0 ≡ ok m
      → (run : Run) × (find_row run_key k s.runs ≡ some run)
        × (allowed run.lifecycle target ≡ true)
        × (m ≡ record run { lifecycle = target })
        × (find_row run_key k (transition k target s).1.runs ≡ some m)
  transition-ok s m h = elim (Option-cases (find_row run_key k s.runs)) [
    | inl missing ↦ cc (ap (λ q. q.0) (transition-missing s missing), h)
    | inr (run, stored) ↦ elim (Bool-cases (allowed run.lifecycle target)) [
      | inr refused ↦
          cc (ap (λ q. q.0) (transition-stored run s stored ∙ move-refused run s refused), h)
      | inl pass ↦
          let p : transition k target s
              ≡ (update_run (record run { lifecycle = target })
                    >> log_entry (record run { lifecycle = target }))
                  s =
            transition-stored run s stored ∙ move-allowed run s pass in
          let (same, row) = moved_row run m s stored (ap (λ q. q.0) (sym p) ∙ h) in
          (run, stored, pass, same, subst (λ q. find_row run_key k q.1.runs ≡ some m) (sym p) row)
    ]
  ]
