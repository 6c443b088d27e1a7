-- ===== src/Configuration.antt =====
-- ConfigurationResolver of lib/services/configuration.py. A layer is a value of JSON; tuples are lists,
-- and values of other types are not in the model. The freezing of the result is left out, and the
-- digest of its text (json and hashlib) is a parameter.
pub mod Paths
pub mod Layers
use Prim.Native.String.{◌++◌ as text_append}
use text.Mathlib.Text.{starts_with}
use wifi_validation_framewor.Prelude.{
  String, Bool, true, false, not, ◌&&◌, Option, none, some, List, [], ◌∷◌, ◌++◌, ◌is◌,
  if◌then◌else◌, Result, ok, raised, Method, pure, raise, reads, writes, lift, reject_if, ◌>>=◌,
  ◌>>◌, all, any, map, filter, contains, is_blank,
}
use wifi_validation_framewor.Domain.Json.{
  Json, Items, Fields, null, bool, int, float, str, arr, obj, no_items, item, no_fields, field,
  entry, is_finite,
}

-- Which layers gave the value at a path, in order.
abbrev pub Provenance : Type 0
Provenance = List (String × List String)

pub record ResolvedConfiguration : Type 0 where
  pub values : Fields
  pub configuration_hash : String
  pub provenance : Provenance

abbrev pub Action : Type 0 → Type 0
Action = Method Provenance String

abbrev pub both : Result String (Unit {0}) → Result String (Unit {0}) → Result String (Unit {0})
both (ok _) r = r
both (raised e) r = raised e

-- `_copy_config`, whose copy is equal to its argument: what is left is what it raises.
unfoldable mutual
  unfolding is_finite is_blank

  pub copy_config : Json → Result String (Unit {0})
  copy_config null = ok tt
  copy_config (bool b) = ok tt
  copy_config (int n) = ok tt
  copy_config (float x) = if is_finite x then ok tt else raised "must not contain NaN or infinity"
  copy_config (str s) = ok tt
  copy_config (arr xs) = copy_items xs
  copy_config (obj fs) = copy_fields fs

  pub copy_items : Items → Result String (Unit {0})
  copy_items no_items = ok tt
  copy_items (item x xs) = both (copy_config x) (copy_items xs)

  pub copy_fields : Fields → Result String (Unit {0})
  copy_fields no_fields = ok tt
  copy_fields (field k v fs) =
      let first = copy_config v in
      let rest = copy_fields fs in
      if is_blank k then raised "keys must be non-empty strings" else both first rest

-- `destination[key] = value`.
unfoldable pub set_entry : String → Json → Fields → Fields
set_entry key value no_fields = field key value no_fields
set_entry key value (field k v rest) =
    if k is key then field k value rest else field k v (set_entry key value rest)

-- `f"{prefix}.{key}" if prefix else key`.
abbrev pub path_of : String → String → String
path_of prefix key = if prefix is "" then key else text_append prefix (text_append "." key)

-- `provenance.setdefault(path, []).append(layer)`.
unfoldable pub append_layer : String → String → Provenance → Provenance
append_layer path layer [] = (path, layer ∷ []) ∷ []
append_layer path layer ((p, layers) ∷ rest) =
    if p is path
    then (p, layers ++ layer ∷ []) ∷ rest
    else (p, layers) ∷ append_layer path layer rest

unfoldable pub note_layer : String → String → Action (Unit {0})
unfolding append_layer
note_layer path layer = writes λ s. (tt, append_layer path layer s)

-- `clear_descendants(path)` and `provenance.pop(path, None)`.
unfoldable pub forget : String → Action (Unit {0})
forget path = writes λ s. (
  tt,
  filter
      (λ (e : String × List String).
        not (starts_with e.0 (text_append path ".")) && not (e.0 is path))
      s,
)

abbrev pub is_object : Option Json → Bool
is_object (some (obj _)) = true
is_object _ = false

-- The dictionary that a nested mapping is merged into.
abbrev pub current_of : Option Json → Fields
current_of (some (obj fs)) = fs
current_of _ = no_fields

abbrev pub is_empty : Fields → Bool
is_empty no_fields = true
is_empty (field _ _ _) = false

unfoldable pub forget_if : Bool → String → Action (Unit {0})
unfolding forget
forget_if true path = forget path
forget_if false path = pure tt

unfoldable pub note_if : Bool → String → String → Action (Unit {0})
unfolding note_layer
note_if true path layer = note_layer path layer
note_if false path layer = pure tt

-- A value that is no mapping.
unfoldable pub put_value : String → String → Option Json → Json → Action Json
unfolding forget_if note_layer
put_value layer path current value = do
  forget_if (is_object current) path
  note_layer path layer
  pure value

-- The loop of `merge_layer`, and its body from the look at the value's type; both give back what they
-- write into the destination.
unfoldable mutual
  unfolding forget_if note_if put_value

  pub merge_layer : String → String → Fields → Fields → Action Fields
  merge_layer layer prefix destination no_fields = pure destination
  merge_layer layer prefix destination (field key value source) = do
    reject_if (is_blank key) "configuration keys must be non-empty strings"
    lift (copy_config value)
    new ← merge_value layer (path_of prefix key) (entry key destination) value
    merge_layer layer prefix (set_entry key new destination) source

  pub merge_value : String → String → Option Json → Json → Action Json
  merge_value layer path current null = put_value layer path current null
  merge_value layer path current (bool b) = put_value layer path current (bool b)
  merge_value layer path current (int n) = put_value layer path current (int n)
  merge_value layer path current (float x) = put_value layer path current (float x)
  merge_value layer path current (str s) = put_value layer path current (str s)
  merge_value layer path current (arr xs) = put_value layer path current (arr xs)
  merge_value layer path current (obj source) = do
    forget_if (not (is_object current)) path
    merged ← merge_layer layer path (current_of current) source
    note_if (is_empty source && is_empty (current_of current)) path layer
    pure (obj merged)

abbrev pub precedence : List String
precedence = "defaults" ∷ "environment" ∷ "lab" ∷ "device" ∷ "run" ∷ "test_override" ∷ []

-- The keyword arguments of `resolve`; null for one that is missing or None.
abbrev pub source_of : String → List (String × Json) → Json
source_of layer [] = null
source_of layer ((name, source) ∷ rest) =
    let others = source_of layer rest in if name is layer then source else others

unfoldable pub merge_source : String → Json → Fields → Action Fields
unfolding merge_layer
merge_source layer null merged = pure merged
merge_source layer (obj source) merged = merge_layer layer "" merged source
merge_source layer _ merged = raise "configuration must be an object"

unfoldable pub merge_all : List String → List (String × Json) → Fields → Action Fields
unfolding merge_source ◌>>=◌
merge_all [] sources merged = pure merged
merge_all (layer ∷ layers) sources merged =
    merge_source layer (source_of layer sources) merged >>= merge_all layers sources

abbrev pub resolved :
    (Fields → String) → Result String Fields × Provenance → Result String ResolvedConfiguration
resolved digest (raised e, s) = raised e
resolved digest (ok values, s) =
    ok (record { values = values; configuration_hash = digest values; provenance = s })

unfoldable pub resolve :
    (Fields → String) → List (String × Json) → Result String ResolvedConfiguration
unfolding merge_all
resolve digest sources =
    if all (λ (e : String × Json). contains precedence e.0) sources
    then resolved digest (merge_all precedence sources no_fields [])
    else raised "unknown configuration layer(s)"
