-- ===== src/Examples/BaselineExamples.antt =====
-- The theorems on the table of baselines at a small table.
use wifi_validation_framewor.Prelude.{
  String, ◌≡◌, refl, Bool, true, none, [], ◌∷◌, ◌++◌, arith, ok, has_row,
}
use wifi_validation_framewor.Domain.Entities.{Baseline}
use wifi_validation_framewor.Baselines.{supersede_name, save_replacing_active}
use wifi_validation_framewor.Baselines.Active.{
  OneCurrent, Replaces, stored_row, save_replacing_active_lem, save_new, promote, retire, write_all,
  write_all-OneCurrent,
}

abbrev old_baseline : Baseline
old_baseline = record {
  baseline_id = "b1";
  name = "golden";
  baseline_run_id = "r1";
  status = "ACTIVE";
  promoted_by = "lead";
  promoted_at = 1;
  device_scope = "";
  firmware_major_scope = "2";
  test_suite_version = "digest";
  lab_class = "lab";
  superseded_by = none;
  provenance = "NATIVE";
}

abbrev new_baseline : Baseline
new_baseline = record old_baseline { baseline_id = "b2"; promoted_at = 2 }

abbrev any_run : String → Bool
any_run k = true

save_replacing_active_lem_example :
    (save_replacing_active any_run new_baseline (old_baseline ∷ [])
      ≡ ok (supersede_name new_baseline (old_baseline ∷ []) ++ stored_row new_baseline ∷ []))
    × Replaces new_baseline
        (old_baseline ∷ [])
        (supersede_name new_baseline (old_baseline ∷ []) ++ stored_row new_baseline ∷ [])
unfolding has_row
save_replacing_active_lem_example =
    save_replacing_active_lem any_run new_baseline (old_baseline ∷ []) refl refl refl

one_row : OneCurrent (old_baseline ∷ [])
one_row = record { at_most = λ name. ground arith }

write_all-OneCurrent_example : OneCurrent (
    write_all any_run
      (promote new_baseline ∷ retire "b2" "b3" ∷ save_new old_baseline ∷ [])
      (old_baseline ∷ []))
write_all-OneCurrent_example =
    write_all-OneCurrent any_run
      (promote new_baseline ∷ retire "b2" "b3" ∷ save_new old_baseline ∷ []) (old_baseline ∷ [])
      one_row
