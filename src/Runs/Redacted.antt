-- ===== src/Runs/Redacted.antt =====
-- What `redact_configuration` (lib/services/run_service.py) leaves of a configuration.
use wifi_validation_framewor.Prelude.{
  String, ◌≡◌, refl, ap, Bool, true, false, ◌&&◌, inl, inr, Bool-cases, ◌is◌, if◌then◌else◌,
}
use wifi_validation_framewor.Domain.Json.{
  Json, Items, Fields, null, bool, int, float, str, arr, obj, no_items, item, no_fields, field,
}
use wifi_validation_framewor.Runs.Redaction.{
  is_sensitive, redacted, redact, redact_items, redact_fields, redact_configuration,
}

abbrev pub is_placeholder : Json → Bool
is_placeholder (str s) = s is "<redacted>"
is_placeholder _ = false

-- Nothing but the placeholder stands under a sensitive key, at any depth; the items of a list stand
-- under the list's key.
unfoldable mutual
  pub hides : Json → String → Bool
  hides null key = if is_sensitive key then false else true
  hides (bool b) key = if is_sensitive key then false else true
  hides (int n) key = if is_sensitive key then false else true
  hides (float x) key = if is_sensitive key then false else true
  hides (str s) key = if is_sensitive key then s is "<redacted>" else true
  hides (arr xs) key = let rest = hides_items xs key in if is_sensitive key then false else rest
  hides (obj fs) key = let rest = hides_fields fs in if is_sensitive key then false else rest

  pub hides_items : Items → String → Bool
  hides_items no_items key = true
  hides_items (item x xs) key = hides x key && hides_items xs key

  pub hides_fields : Fields → Bool
  hides_fields no_fields = true
  hides_fields (field k v fs) = hides v k && hides_fields fs

-- A value under a key that is sensitive, or not.
redact-sensitive : (v : Json) (key : String) → is_sensitive key ≡ true → redact v key ≡ redacted
unfolding redact
redact-sensitive null key h = rw h
redact-sensitive (bool b) key h = rw h
redact-sensitive (int n) key h = rw h
redact-sensitive (float x) key h = rw h
redact-sensitive (str s) key h = rw h
redact-sensitive (arr xs) key h = rw h
redact-sensitive (obj fs) key h = rw h

mutual
  unfolding redact redact_items redact_fields

  redact-again :
      (v : Json) (key : String)
      → is_sensitive key ≡ false
      → redact (redact v key) key ≡ redact v key
  redact-again null key h = rw (h, h)
  redact-again (bool b) key h = rw (h, h)
  redact-again (int n) key h = rw (h, h)
  redact-again (float x) key h = rw (h, h)
  redact-again (str s) key h = rw (h, h)
  redact-again (arr xs) key h = rw (h, h) (ap arr (redact_items-again xs key h))
  redact-again (obj fs) key h = rw (h, h) (ap obj (redact_fields-again fs))

  redact_items-again :
      (xs : Items) (key : String)
      → is_sensitive key ≡ false
      → redact_items (redact_items xs key) key ≡ redact_items xs key
  redact_items-again no_items key h = refl
  redact_items-again (item x xs) key h = rw (redact-again x key h, redact_items-again xs key h)

  redact_fields-again : (fs : Fields) → redact_fields (redact_fields fs) ≡ redact_fields fs
  redact_fields-again no_fields = refl
  redact_fields-again (field k v fs) = elim (Bool-cases (is_sensitive k)) [
    | inl e ↦ rw (redact-sensitive v k e, redact-sensitive redacted k e, redact_fields-again fs)
    | inr e ↦ rw (redact-again v k e, redact_fields-again fs)
  ]

mutual
  unfolding redact redact_items redact_fields hides hides_items hides_fields

  redact-hides :
      (v : Json) (key : String) → is_sensitive key ≡ false → hides (redact v key) key ≡ true
  redact-hides null key h = rw (h, h)
  redact-hides (bool b) key h = rw (h, h)
  redact-hides (int n) key h = rw (h, h)
  redact-hides (float x) key h = rw (h, h)
  redact-hides (str s) key h = rw (h, h)
  redact-hides (arr xs) key h = rw (h, h) (redact_items-hides xs key h)
  redact-hides (obj fs) key h = rw (h, h) (redact_fields-hides fs)

  redact_items-hides :
      (xs : Items) (key : String)
      → is_sensitive key ≡ false
      → hides_items (redact_items xs key) key ≡ true
  redact_items-hides no_items key h = refl
  redact_items-hides (item x xs) key h = rw (redact-hides x key h, redact_items-hides xs key h)

  redact_fields-hides : (fs : Fields) → hides_fields (redact_fields fs) ≡ true
  redact_fields-hides no_fields = refl
  redact_fields-hides (field k v fs) = elim (Bool-cases (is_sensitive k)) [
    | inl e ↦ rw (redact-sensitive v k e, e, redact_fields-hides fs)
    | inr e ↦ rw (redact-hides v k e, redact_fields-hides fs)
  ]

-- After redaction no value but the placeholder stands under a key that names a credential, at any
-- depth of the configuration, and a second redaction changes nothing.
pub redact_configuration-hides :
    (config : Fields)
    → (hides_fields (redact_configuration config) ≡ true)
      × (redact_configuration (redact_configuration config) ≡ redact_configuration config)
unfolding redact_configuration
redact_configuration-hides config = (redact_fields-hides config, redact_fields-again config)
