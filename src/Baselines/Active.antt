-- ===== src/Baselines/Active.antt =====
-- At most one baseline of a name is current, and a promotion replaces it (lib/repositories/sqlite.py).
use mathlib.Core.Path.{subst}
use mathlib.Core.List.{append-nil}
use wifi_validation_framewor.Prelude.{
  ◌≤◌, String, ◌≡◌, ◌∙◌, refl, Bool, true, false, none, List, [], ◌∷◌, ◌++◌, arith, eq_iff, eq_refl,
  inl, inr, ◌is◌, Result, ok, raised, any, filter, length, has_row, Bool-cases, filter-append,
}
use wifi_validation_framewor.Domain.Entities.{Baseline}
use wifi_validation_framewor.Domain.Validation.{Error}
use wifi_validation_framewor.Baselines.{
  baseline_key, is_current, holds_name, insert_row, save, supersede_name, save_replacing_active,
  supersede, supersede_row,
}

-- The current baselines of a name.
abbrev pub current : String → List Baseline → List Baseline
current name rows = filter (holds_name name) rows

-- The partial unique index.
pub record OneCurrent (rows : List Baseline) : Type 0 where
  pub at_most : (name : String) → length (current name rows) ≤ 1

-- No row is current under the name once the name is superseded, if the new identifier is fresh.
current-supersede_self :
    (b : Baseline) (rows : List Baseline)
    → has_row baseline_key b.baseline_id rows ≡ false
    → current b.name (supersede_name b rows) ≡ []
unfolding supersede_name has_row
current-supersede_self b [] h = refl
current-supersede_self b (r ∷ rows) h = ground (arith, current-supersede_self b rows)

current-supersede_ne :
    (b : Baseline) (name : String) (rows : List Baseline)
    → (b.name is name) ≡ false
    → current name (supersede_name b rows) ≡ current name rows
unfolding supersede_name
current-supersede_ne b name [] h = refl
current-supersede_ne b name (r ∷ rows) h = ground (
  arith,
  current-supersede_ne b name rows,
  eq_iff r.name b.name,
  eq_iff r.name name,
  eq_iff b.name name,
)

no_holder :
    (name : String) (rows : List Baseline)
    → current name rows ≡ []
    → any (holds_name name) rows ≡ false
no_holder name [] h = refl
no_holder name (r ∷ rows) h = ground (arith, no_holder name rows)

-- The row as it is stored; a baseline that is saved is current.
abbrev pub stored_row : Baseline → Baseline
stored_row b = record b { superseded_by = none }

current-inserted_self :
    (b : Baseline) (rows : List Baseline)
    → current b.name rows ≡ []
    → current b.name (rows ++ stored_row b ∷ []) ≡ stored_row b ∷ []
current-inserted_self b rows h =
    filter-append (holds_name b.name) rows (stored_row b ∷ []) ∙ rw (h, eq_refl b.name)

current-inserted_ne :
    (b : Baseline) (name : String) (rows : List Baseline)
    → (b.name is name) ≡ false
    → current name (rows ++ stored_row b ∷ []) ≡ current name rows
current-inserted_ne b name rows h =
    filter-append (holds_name name) rows (stored_row b ∷ []) ∙ rw h (append-nil (current name rows))

-- What a successful promotion leaves, name by name.
pub record Replaces (b : Baseline) (rows new : List Baseline) : Type 0 where
  pub promoted : current b.name new ≡ stored_row b ∷ []
  pub others : (name : String) → (b.name is name) ≡ false → current name new ≡ current name rows

replaced :
    (b : Baseline) (rows : List Baseline)
    → has_row baseline_key b.baseline_id rows ≡ false
    → Replaces b rows (supersede_name b rows ++ stored_row b ∷ [])
replaced b rows fresh = record {
  promoted = current-inserted_self b (supersede_name b rows) (current-supersede_self b rows fresh);
  others = λ name h.
      current-inserted_ne b name (supersede_name b rows) h ∙ current-supersede_ne b name rows h;
}

-- A promotion with a fresh identifier, of a stored Run, always succeeds: the unique index on active
-- names never refuses it. Afterwards the promoted baseline is the only current one of its name, and
-- every other name has the current baselines that it had.
pub save_replacing_active_lem :
    (run_exists : String → Bool) (b : Baseline) (rows : List Baseline)
    → is_current b.superseded_by ≡ true
    → has_row baseline_key b.baseline_id rows ≡ false
    → run_exists b.baseline_run_id ≡ true
    → (save_replacing_active run_exists b rows ≡ ok (supersede_name b rows ++ stored_row b ∷ []))
      × Replaces b rows (supersede_name b rows ++ stored_row b ∷ [])
unfolding save_replacing_active insert_row
save_replacing_active_lem run_exists b rows new fresh known = (
  rw (
    new,
    fresh,
    no_holder b.name (supersede_name b rows) (current-supersede_self b rows fresh),
    known,
  ),
  replaced b rows fresh,
)

OneCurrent-of_Replaces :
    (b : Baseline) (rows new : List Baseline)
    → OneCurrent rows
    → Replaces b rows new
    → OneCurrent new
OneCurrent-of_Replaces b rows new h r = record {
  at_most = λ name. elim (Bool-cases (b.name is name)) [
    | inl same ↦
        let p : b.name ≡ name = (eq_iff b.name name).0 same in rw (← p, r.promoted) (omega arith)
    | inr differ ↦ rw (r.others name differ) (h.at_most name)
  ];
}

no_current :
    (name : String) (rows : List Baseline)
    → any (holds_name name) rows ≡ false
    → current name rows ≡ []
no_current name [] h = refl
no_current name (r ∷ rows) h = ground (arith, no_current name rows)

inserted :
    (run_exists : String → Bool) (b : Baseline) (rows new : List Baseline)
    → insert_row run_exists b rows ≡ ok new
    → (any (holds_name b.name) rows ≡ false) × (rows ++ stored_row b ∷ [] ≡ new)
unfolding insert_row
inserted run_exists b rows new e = ground arith

insert_row-OneCurrent :
    (run_exists : String → Bool) (b : Baseline) (rows new : List Baseline)
    → OneCurrent rows
    → insert_row run_exists b rows ≡ ok new
    → OneCurrent new
insert_row-OneCurrent run_exists b rows new h e =
    let (free, p) = inserted run_exists b rows new e in
    subst OneCurrent p (
      OneCurrent-of_Replaces b rows (rows ++ stored_row b ∷ []) h (record {
        promoted = current-inserted_self b rows (no_current b.name rows free);
        others = λ name d. current-inserted_ne b name rows d;
      }))

supersede_row-current :
    (k replacement name : String) (rows : List Baseline)
    → length (current name (supersede_row k replacement rows)) ≤ length (current name rows)
unfolding supersede_row
supersede_row-current k replacement name [] = omega arith
supersede_row-current k replacement name (r ∷ rows) =
    ground (arith, supersede_row-current k replacement name rows)

supersede_name-current :
    (b : Baseline) (name : String) (rows : List Baseline)
    → length (current name (supersede_name b rows)) ≤ length (current name rows)
unfolding supersede_name
supersede_name-current b name [] = omega arith
supersede_name-current b name (r ∷ rows) = ground (arith, supersede_name-current b name rows)

save-inserts :
    (run_exists : String → Bool) (b : Baseline) (rows new : List Baseline)
    → save run_exists b rows ≡ ok new
    → insert_row run_exists b rows ≡ ok new
unfolding save
save-inserts run_exists b rows new e = ground arith

replace-inserts :
    (run_exists : String → Bool) (b : Baseline) (rows new : List Baseline)
    → save_replacing_active run_exists b rows ≡ ok new
    → insert_row run_exists b (supersede_name b rows) ≡ ok new
unfolding save_replacing_active
replace-inserts run_exists b rows new e = ground arith

supersede-row :
    (k replacement : String) (rows new : List Baseline)
    → supersede k replacement rows ≡ ok new
    → supersede_row k replacement rows ≡ new
unfolding supersede
supersede-row k replacement rows new e = ground arith

-- A call of a method of the repository that writes.
pub data Write : Type 0 where
  save_new : Baseline → Write
  promote : Baseline → Write
  retire : String → String → Write

attempted : (String → Bool) → Write → List Baseline → Result Error (List Baseline)
attempted run_exists (save_new b) rows = save run_exists b rows
attempted run_exists (promote b) rows = save_replacing_active run_exists b rows
attempted run_exists (retire k replacement) rows = supersede k replacement rows

abbrev committed : Result Error (List Baseline) → List Baseline → List Baseline
committed (ok new) rows = new
committed (raised e) rows = rows

-- The table after the calls, where one that raises changes nothing.
pub write_all : (String → Bool) → List Write → List Baseline → List Baseline
unfolding attempted
write_all run_exists [] rows = rows
write_all run_exists (w ∷ ws) rows =
    write_all run_exists ws (committed (attempted run_exists w rows) rows)

attempted-OneCurrent :
    (run_exists : String → Bool) (w : Write) (rows new : List Baseline)
    → OneCurrent rows
    → attempted run_exists w rows ≡ ok new
    → OneCurrent new
unfolding attempted
attempted-OneCurrent run_exists (save_new b) rows new h e =
    insert_row-OneCurrent run_exists b rows new h (save-inserts run_exists b rows new e)
attempted-OneCurrent run_exists (promote b) rows new h e =
    insert_row-OneCurrent run_exists b (supersede_name b rows) new
      (record {
        at_most = λ name. omega (arith, supersede_name-current b name rows, h.at_most name);
      })
      (replace-inserts run_exists b rows new e)
attempted-OneCurrent run_exists (retire k replacement) rows new h e =
    subst OneCurrent (supersede-row k replacement rows new e) (record {
      at_most =
          λ name. omega (arith, supersede_row-current k replacement name rows, h.at_most name);
    })

committed-OneCurrent :
    (r : Result Error (List Baseline)) (rows : List Baseline)
    → OneCurrent rows
    → ((new : List Baseline) → r ≡ ok new → OneCurrent new)
    → OneCurrent (committed r rows)
committed-OneCurrent (ok new) rows h k = k new refl
committed-OneCurrent (raised e) rows h k = h

-- Whatever baselines are saved, promoted and superseded, and whichever calls raise, at most one
-- baseline of each name is current, if that held at the start.
pub write_all-OneCurrent :
    (run_exists : String → Bool) (ws : List Write) (rows : List Baseline)
    → OneCurrent rows
    → OneCurrent (write_all run_exists ws rows)
unfolding write_all
write_all-OneCurrent run_exists [] rows h = h
write_all-OneCurrent run_exists (w ∷ ws) rows h =
    write_all-OneCurrent run_exists ws (committed (attempted run_exists w rows) rows) (
      committed-OneCurrent (attempted run_exists w rows) rows h
        (λ new e. attempted-OneCurrent run_exists w rows new h e))
