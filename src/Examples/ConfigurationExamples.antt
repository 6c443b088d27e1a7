-- ===== src/Examples/ConfigurationExamples.antt =====
-- Layers of configuration: a value that hides a mapping, and a mapping that opens a value's path.
use wifi_validation_framewor.Prelude.{
  String, ◌≡◌, refl, some, List, [], ◌∷◌, ok, pure, raise, writes, lift, reject_if, ◌>>=◌, is_blank,
  is_space, Bool-cases, inl, inr, ◌is◌,
}
use wifi_validation_framewor.Domain.Json.{Json, int, str, obj, pos, no_fields, field, entry}
use wifi_validation_framewor.Configuration.{
  ResolvedConfiguration, resolve, precedence, merge_all, merge_source, merge_layer, copy_config,
  set_entry, put_value, note_layer, append_layer, forget, forget_if, note_if,
}
use wifi_validation_framewor.Configuration.Paths.{absent, view, has_distinct_keys, are_distinct}
use wifi_validation_framewor.Configuration.Layers.{settled, AreMappings, resolve-settled}

abbrev defaults : Json
defaults = obj (
    field "wifi" (obj (field "ssid" (str "lab") (field "channel" (int (pos 6)) no_fields)))
      (field "timeout" (int (pos 30)) no_fields))

abbrev run_layer : Json
run_layer = obj (
    field "wifi" (obj (field "ssid" (str "guest") no_fields))
      (field "timeout" (obj (field "dhcp" (int (pos 5)) no_fields)) no_fields))

abbrev two_layers : List (String × Json)
two_layers = ("run", run_layer) ∷ ("defaults", defaults) ∷ []

abbrev resolved_two : ResolvedConfiguration
resolved_two = record {
  values =
      field "wifi" (obj (field "ssid" (str "guest") (field "channel" (int (pos 6)) no_fields)))
        (field "timeout" (obj (field "dhcp" (int (pos 5)) no_fields)) no_fields);
  configuration_hash = "hash";
  provenance =
      ("wifi.ssid", "defaults" ∷ "run" ∷ [])
      ∷ ("wifi.channel", "defaults" ∷ [])
      ∷ ("timeout.dhcp", "run" ∷ [])
      ∷ [];
}

resolved_two-ok : resolve (λ fs. "hash") two_layers ≡ ok resolved_two
unfolding resolve merge_all merge_source merge_layer copy_config set_entry put_value note_layer
    append_layer forget forget_if note_if entry is_blank is_space ◌>>=◌ pure raise writes lift
    reject_if
resolved_two-ok = refl

two_layers-AreMappings : AreMappings two_layers
unfolding has_distinct_keys are_distinct entry
two_layers-AreMappings layer = elim (Bool-cases ("run" is layer)) [
  | inl e ↦ rw e
  | inr e ↦ elim (Bool-cases ("defaults" is layer)) [ inl d ↦ rw (e, d) | inr d ↦ rw (e, d) ]
]

resolve-settled_example :
    view ("wifi" ∷ "channel" ∷ []) (some (obj resolved_two.values))
    ≡ settled precedence two_layers ("wifi" ∷ "channel" ∷ []) absent
resolve-settled_example =
    resolve-settled (λ fs. "hash") two_layers resolved_two "wifi" ("channel" ∷ [])
      two_layers-AreMappings resolved_two-ok
