-- ===== src/Baselines.antt =====
-- SQLiteBaselineRepository of lib/repositories/sqlite.py: the table `run_baselines`, its primary key,
-- its foreign key to `runs` and the partial unique index on active names
-- (alembic/versions/20261105_00_schema_base.py). Each method is one transaction: where it raises, the
-- table is as it was.
pub mod Active
use wifi_validation_framewor.Prelude.{
  String, Bool, true, false, not, ◌&&◌, ◌||◌, Option, none, some, List, [], ◌∷◌, ◌++◌, ◌is◌,
  if◌then◌else◌, Result, ok, raised, any, filter, find_row, has_row, ℕ, length, ◌==◌, leb,
}
use wifi_validation_framewor.Domain.Entities.{Baseline}
use wifi_validation_framewor.Domain.Validation.{Error, conflict, integrity}

abbrev pub baseline_key : Baseline → String
baseline_key b = b.baseline_id

-- `superseded_by IS NULL`.
abbrev pub is_current : Option String → Bool
is_current none = true
is_current (some _) = false

-- A row of the partial index: current, under the name.
abbrev pub holds_name : String → Baseline → Bool
holds_name name b = is_current b.superseded_by && b.name is name

abbrev pub superseded : String → Baseline → Baseline
superseded replacement b = record b { superseded_by = some replacement; status = "SUPERSEDED" }

-- `INSERT INTO run_baselines`; superseded_by is written as NULL.
unfoldable pub insert_row :
    (String → Bool) → Baseline → List Baseline → Result Error (List Baseline)
insert_row run_exists b rows =
    if any (holds_name b.name) rows || not (run_exists b.baseline_run_id)
    then raised integrity
    else ok (rows ++ (record b { superseded_by = none }) ∷ [])

unfoldable pub save : (String → Bool) → Baseline → List Baseline → Result Error (List Baseline)
save run_exists b rows =
    if not (is_current b.superseded_by)
    then raised (conflict "a newly persisted baseline cannot already be superseded")
    else if has_row baseline_key b.baseline_id rows
    then raised (conflict "baseline already exists")
    else insert_row run_exists b rows

-- `UPDATE run_baselines ... WHERE name = ? AND baseline_id <> ? AND superseded_by IS NULL`.
unfoldable pub supersede_name : Baseline → List Baseline → List Baseline
supersede_name b [] = []
supersede_name b (r ∷ rows) =
    (if holds_name b.name r && not (r.baseline_id is b.baseline_id)
      then superseded b.baseline_id r
      else r)
    ∷ supersede_name b rows

unfoldable pub save_replacing_active :
    (String → Bool) → Baseline → List Baseline → Result Error (List Baseline)
save_replacing_active run_exists b rows =
    if not (is_current b.superseded_by)
    then raised (conflict "a newly persisted baseline cannot already be superseded")
    else if has_row baseline_key b.baseline_id rows
    then raised (conflict "baseline already exists")
    else insert_row run_exists b (supersede_name b rows)

unfoldable pub get : String → List Baseline → Option Baseline
get baseline_id rows = find_row baseline_key baseline_id rows

abbrev is_listed : Baseline → Bool
is_listed b = is_current b.superseded_by && b.status is "ACTIVE" && b.provenance is "NATIVE"

-- The order, by the time of promotion, is left out.
unfoldable pub list_active : List Baseline → List Baseline
list_active rows = filter is_listed rows

abbrev matches_current : String → Baseline → Bool
matches_current baseline_id b = b.baseline_id is baseline_id && is_current b.superseded_by

unfoldable pub supersede_row : String → String → List Baseline → List Baseline
supersede_row baseline_id replacement [] = []
supersede_row baseline_id replacement (r ∷ rows) =
    (if matches_current baseline_id r then superseded replacement r else r)
    ∷ supersede_row baseline_id replacement rows

unfoldable pub supersede : String → String → List Baseline → Result Error (List Baseline)
supersede baseline_id replacement rows =
    if length (filter (matches_current baseline_id) rows) == 1
    then ok (supersede_row baseline_id replacement rows)
    else raised (conflict "baseline is not active")
