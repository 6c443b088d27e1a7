-- ===== src/Runs/Redaction.antt =====
-- `redact_configuration` of lib/services/run_service.py. `str.lower` is modelled as far as a search
-- for an ASCII text can tell: the capital letters, and the two other characters whose lower case
-- begins with an ASCII letter.
use Prim.Native.Char.{code}
use wifi_validation_framewor.Prelude.{
  ℕ, ◌+◌, String, Bool, true, false, ◌&&◌, ◌||◌, List, [], ◌∷◌, ◌++◌, ◌==◌, leb, if◌then◌else◌, any,
}
use wifi_validation_framewor.Domain.Json.{
  Json, Items, Fields, null, bool, int, float, str, arr, obj, no_items, item, no_fields, field,
}

abbrev pub codes : String → List ℕ
codes String.[] = []
codes (String.◌∷◌ c s) = code c ∷ codes s

-- 0x130 becomes `i` and a combining dot, and 0x212A, the Kelvin sign, becomes `k`.
abbrev pub lower_code : ℕ → List ℕ
lower_code c =
    if leb b'A' c && leb c b'Z'
    then (c + 32) ∷ []
    else if c == 0x130
    then 105 ∷ 0x307 ∷ []
    else if c == 0x212A
    then 107 ∷ []
    else c ∷ []

unfoldable pub lower : String → List ℕ
lower String.[] = []
lower (String.◌∷◌ c s) = lower_code (code c) ++ lower s

abbrev pub begins : List ℕ → List ℕ → Bool
begins [] text = true
begins (c ∷ cs) [] = false
begins (c ∷ cs) (d ∷ ds) = c == d && begins cs ds

-- `token in text`.
unfoldable pub occurs : List ℕ → List ℕ → Bool
occurs token [] = begins token []
occurs token (d ∷ ds) = begins token (d ∷ ds) || occurs token ds

abbrev pub sensitive : List String
sensitive = "password" ∷ "passwd" ∷ "secret" ∷ "token" ∷ "private_key" ∷ "api_key" ∷ "psk" ∷ []

unfoldable pub is_sensitive : String → Bool
unfolding lower occurs
is_sensitive key = any (λ token. occurs (codes token) (lower key)) sensitive

abbrev pub redacted : Json
redacted = str "<redacted>"

-- A list's items are redacted under the key of the list.
unfoldable mutual
  unfolding is_sensitive

  pub redact : Json → String → Json
  redact null key = if is_sensitive key then redacted else null
  redact (bool b) key = if is_sensitive key then redacted else bool b
  redact (int n) key = if is_sensitive key then redacted else int n
  redact (float x) key = if is_sensitive key then redacted else float x
  redact (str s) key = if is_sensitive key then redacted else str s
  redact (arr xs) key =
      let ys = redact_items xs key in if is_sensitive key then redacted else arr ys
  redact (obj fs) key = let gs = redact_fields fs in if is_sensitive key then redacted else obj gs

  pub redact_items : Items → String → Items
  redact_items no_items key = no_items
  redact_items (item x xs) key = item (redact x key) (redact_items xs key)

  pub redact_fields : Fields → Fields
  redact_fields no_fields = no_fields
  redact_fields (field k v fs) = field k (redact v k) (redact_fields fs)

-- The call on a whole configuration, with the empty key.
unfoldable pub redact_configuration : Fields → Fields
unfolding redact_fields
redact_configuration config = redact_fields config
