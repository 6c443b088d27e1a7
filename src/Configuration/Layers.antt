-- ===== src/Configuration/Layers.antt =====
-- The configuration that the layers give, path by path (lib/services/configuration.py).
use wifi_validation_framewor.Prelude.{
  String, ◌≡◌, refl, ◌∙◌, ap, inl, inr, true, false, ◌&&◌, Option, none, some, List, [], ◌∷◌, arith,
  Bool-cases, ◌is◌, eq_iff, eq_refl, Result, ok, raised, Gives, Gives-pure, Gives-raise, Gives-bind,
  Gives-then, all, contains, ok-eq,
}
use wifi_validation_framewor.Domain.Json.{
  Json, Fields, null, bool, int, float, str, arr, obj, no_fields, field, entry,
}
use wifi_validation_framewor.Configuration.{
  ResolvedConfiguration, Provenance, set_entry, path_of, put_value, current_of, is_object,
  merge_layer, merge_value, precedence, source_of, merge_source, merge_all, resolved, resolve,
}
use wifi_validation_framewor.Configuration.Paths.{
  View, absent, are_distinct, entry-set_other, entry-set_same, has_distinct_keys, react, says,
  silent, view,
}

-- The destination after a layer, against the destination before.
record Merges (source old new : Fields) : Type 0 where
  at :
      (k : String) (p : List String)
      → view (k ∷ p) (some (obj new))
        ≡ react (says (k ∷ p) (some (obj source))) (view (k ∷ p) (some (obj old)))

record MergesValue (value : Json) (old : Option Json) (new : Json) : Type 0 where
  at : (p : List String) → view p (some new) ≡ react (says p (some value)) (view p old)

says-none : (p : List String) → says p none ≡ silent
unfolding says
says-none [] = refl
says-none (k ∷ p) = refl

view-none : (p : List String) → view p none ≡ absent
unfolding view
view-none [] = refl
view-none (k ∷ p) = refl

Merges-nothing : (old : Fields) → Merges no_fields old old
unfolding says entry
Merges-nothing old = record { at = λ k p. rw (says-none p) }

-- A pair of a new key, then the rest.
Merges-field :
    (key : String) (value new : Json) (source old final : Fields)
    → entry key source ≡ none
    → MergesValue value (entry key old) new
    → Merges source (set_entry key new old) final
    → Merges (field key value source) old final
unfolding says view entry
Merges-field key value new source old final fresh m rest = record {
  at = λ k p. elim (Bool-cases (key is k)) [
    | inl e ↦
        let same : key ≡ k = (eq_iff key k).0 e in
        rest.at k p
        ∙ rw (← same, fresh, says-none p, entry-set_same key new old, eq_refl key) (m.at p)
    | inr e ↦ rest.at k p ∙ rw (entry-set_other k key new old e, e) refl
  ];
}

-- What a value leaves in the place of one that was a mapping, or of none.
value-Merges :
    (value : Json) (old : Option Json)
    → is_object (some value) ≡ false
    → MergesValue value old value
unfolding says view
value-Merges value old h = record { at = λ p. at value p h }
  where
    at :
        (value : Json) (p : List String)
        → is_object (some value) ≡ false
        → view p (some value) ≡ react (says p (some value)) (view p old)
    at (obj fs) p h = cc h
    at null [] h = refl
    at (bool b) [] h = refl
    at (int n) [] h = refl
    at (float x) [] h = refl
    at (str s) [] h = refl
    at (arr xs) [] h = refl
    at null (k ∷ p) h = refl
    at (bool b) (k ∷ p) h = refl
    at (int n) (k ∷ p) h = refl
    at (float x) (k ∷ p) h = refl
    at (str s) (k ∷ p) h = refl
    at (arr xs) (k ∷ p) h = refl

-- Below a value that is no mapping there is nothing, as in an empty mapping.
view-current :
    (old : Option Json) (k : String) (p : List String)
    → view (k ∷ p) (some (obj (current_of old))) ≡ view (k ∷ p) old
unfolding view entry
view-current none k p = view-none p
view-current (some null) k p = view-none p
view-current (some (bool b)) k p = view-none p
view-current (some (int n)) k p = view-none p
view-current (some (float x)) k p = view-none p
view-current (some (str s)) k p = view-none p
view-current (some (arr xs)) k p = view-none p
view-current (some (obj fs)) k p = refl

object-Merges :
    (source new : Fields) (old : Option Json)
    → Merges source (current_of old) new
    → MergesValue (obj source) old (obj new)
unfolding says view
object-Merges source new old m = record { at = at }
  where
    at :
        (p : List String)
        → view p (some (obj new)) ≡ react (says p (some (obj source))) (view p old)
    at [] = refl
    at (k ∷ p) = rw (← view-current old k p) (m.at k p)

put_value-Merges :
    (layer path : String) (old : Option Json) (value : Json)
    → is_object (some value) ≡ false
    → Gives (MergesValue value old) (put_value layer path old value)
unfolding put_value
put_value-Merges layer path old value h =
    Gives-then _ _ _ λ _. Gives-then _ _ _ λ _. Gives-pure _ value (value-Merges value old h)

are_distinct-field :
    (k : String) (v : Json) (fs : Fields)
    → are_distinct (field k v fs) ≡ true
    → (entry k fs ≡ none) × (has_distinct_keys v ≡ true) × (are_distinct fs ≡ true)
unfolding are_distinct
are_distinct-field k v fs h = by_cases (entry k fs) h
  where
    by_cases :
        (o : Option Json)
        → elim o [ none ↦ has_distinct_keys v && are_distinct fs | some j ↦ false ] ≡ true
        → (o ≡ none) × (has_distinct_keys v ≡ true) × (are_distinct fs ≡ true)
    by_cases none e = (refl, ground arith, ground arith)
    by_cases (some j) e = cc e

mutual
  unfolding merge_layer merge_value has_distinct_keys are_distinct

  merge_layer-Merges :
      (layer prefix : String) (old source : Fields)
      → are_distinct source ≡ true
      → Gives (Merges source old) (merge_layer layer prefix old source)
  merge_layer-Merges layer prefix old no_fields d = Gives-pure _ old (Merges-nothing old)
  merge_layer-Merges layer prefix old (field key value source) d =
      let (fresh, inner, rest) = are_distinct-field key value source d in
      Gives-then _ _ _ λ _. Gives-then _ _ _ λ _.
        Gives-bind _ (MergesValue value (entry key old)) _ _
          (merge_value-Merges layer (path_of prefix key) (entry key old) value inner)
          λ new m.
            let go = merge_layer-Merges layer prefix (set_entry key new old) source rest in
            record {
              at = λ s final e.
                  Merges-field key value new source old final fresh m (go.at s final e);
            }

  merge_value-Merges :
      (layer path : String) (old : Option Json) (value : Json)
      → has_distinct_keys value ≡ true
      → Gives (MergesValue value old) (merge_value layer path old value)
  merge_value-Merges layer path old (obj source) d = Gives-then _ _ _ λ _.
      Gives-bind _ (Merges source (current_of old)) _ _
        (merge_layer-Merges layer path (current_of old) source d)
        λ new m. Gives-then _ _ _ λ _. Gives-pure _ (obj new) (object-Merges source new old m)
  merge_value-Merges layer path old null d = put_value-Merges layer path old null refl
  merge_value-Merges layer path old (bool b) d = put_value-Merges layer path old (bool b) refl
  merge_value-Merges layer path old (int n) d = put_value-Merges layer path old (int n) refl
  merge_value-Merges layer path old (float x) d = put_value-Merges layer path old (float x) refl
  merge_value-Merges layer path old (str s) d = put_value-Merges layer path old (str s) refl
  merge_value-Merges layer path old (arr xs) d = put_value-Merges layer path old (arr xs) refl

-- None stands for a layer that is not given.
abbrev pub given : Json → Option Json
given null = none
given (obj fs) = some (obj fs)
given (bool b) = some (bool b)
given (int n) = some (int n)
given (float x) = some (float x)
given (str s) = some (str s)
given (arr xs) = some (arr xs)

-- What the layers make of a path, the first layer first.
abbrev pub settled : List String → List (String × Json) → List String → View → View
settled [] sources p v = v
settled (layer ∷ layers) sources p v =
    settled layers sources p (react (says p (given (source_of layer sources))) v)

merge_source-Merges :
    (layer : String) (source : Json) (old : Fields)
    → has_distinct_keys source ≡ true
    → Gives
        (λ new.
          (k : String) (p : List String)
          → view (k ∷ p) (some (obj new))
            ≡ react (says (k ∷ p) (given source)) (view (k ∷ p) (some (obj old))))
        (merge_source layer source old)
unfolding merge_source has_distinct_keys says
merge_source-Merges layer null old d = Gives-pure _ old (λ k p. refl)
merge_source-Merges layer (obj source) old d = record {
  at = λ s new e k p. ((merge_layer-Merges layer "" old source d).at s new e).at k p;
}
merge_source-Merges layer (bool b) old d = Gives-raise _ _
merge_source-Merges layer (int n) old d = Gives-raise _ _
merge_source-Merges layer (float x) old d = Gives-raise _ _
merge_source-Merges layer (str s) old d = Gives-raise _ _
merge_source-Merges layer (arr xs) old d = Gives-raise _ _

-- Every mapping that a layer gives is one of Python.
abbrev pub AreMappings : List (String × Json) → Type 0
AreMappings sources = (layer : String) → has_distinct_keys (source_of layer sources) ≡ true

merge_all-settled :
    (layers : List String) (sources : List (String × Json)) (old : Fields)
    → AreMappings sources
    → Gives
        (λ new.
          (k : String) (p : List String)
          → view (k ∷ p) (some (obj new))
            ≡ settled layers sources (k ∷ p) (view (k ∷ p) (some (obj old))))
        (merge_all layers sources old)
unfolding merge_all
merge_all-settled [] sources old d = Gives-pure _ old (λ k p. refl)
merge_all-settled (layer ∷ layers) sources old d =
    Gives-bind _ _ _ _ (merge_source-Merges layer (source_of layer sources) old (d layer)) λ new m.
      let go = merge_all-settled layers sources new d in
      record { at = λ s final e k p. rw (← m k p) ((go.at s final e) k p) }

-- Where the resolver returns, and no mapping of its layers has a key twice, then at every path stands
-- what the layers make of it in their order: a later layer wins over an earlier one, a mapping opens
-- the path, a value that is no mapping hides what was below it, and a layer that does not reach the
-- path changes nothing.
pub resolve-settled :
    (digest : Fields → String) (sources : List (String × Json)) (r : ResolvedConfiguration)
    (k : String) (p : List String)
    → AreMappings sources
    → resolve digest sources ≡ ok r
    → view (k ∷ p) (some (obj r.values)) ≡ settled precedence sources (k ∷ p) absent
unfolding resolve
resolve-settled digest sources r k p d e =
    elim (Bool-cases (all (λ (e : String × Json). contains precedence e.0) sources)) [
      | inr unknown ↦ cc (rw unknown at e)
      | inl known ↦ by_result (merge_all precedence sources no_fields []) refl (rw known at e)
    ]
  where
    by_result :
        (q : Result String Fields × Provenance)
        → merge_all precedence sources no_fields [] ≡ q
        → resolved digest q ≡ ok r
        → view (k ∷ p) (some (obj r.values)) ≡ settled precedence sources (k ∷ p) absent
    by_result (raised x, s) eq h = cc h
    by_result (ok values, s) eq h =
        let same = ok-eq h in
        unfold view entry in
        rw (← same) (
          (merge_all-settled precedence sources no_fields d).at [] values (ap (λ t. t.0) eq) k p
          ∙ rw (view-none p) refl)
