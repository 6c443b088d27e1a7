-- ===== src/Configuration/Paths.antt =====
-- What stands at a path of a configuration, and what a layer says of it: the rule for one path that
-- the merging of lib/services/configuration.py stands for.
use wifi_validation_framewor.Prelude.{
  String, ◌≡◌, inl, inr, Bool, true, false, ◌&&◌, Option, none, some, List, [], ◌∷◌, arith,
  Bool-cases, ◌is◌, eq_iff, eq_refl,
}
use wifi_validation_framewor.Domain.Json.{
  Json, Fields, null, bool, int, float, str, arr, obj, no_fields, field, entry,
}
use wifi_validation_framewor.Configuration.{set_entry}

-- What stands at a path: nothing, a value that is no mapping, or a mapping.
pub data View : Type 0 where
  absent mapping : View
  leaf : Json → View

-- What a layer says of a path: it does not reach it, it has a value on the way to it that is no
-- mapping, it has a mapping there, or a value.
pub data Says : Type 0 where
  silent hides opens : Says
  gives : Json → Says

unfoldable pub view : List String → Option Json → View
unfolding entry
view [] none = absent
view [] (some null) = leaf null
view [] (some (bool b)) = leaf (bool b)
view [] (some (int n)) = leaf (int n)
view [] (some (float x)) = leaf (float x)
view [] (some (str s)) = leaf (str s)
view [] (some (arr xs)) = leaf (arr xs)
view [] (some (obj fs)) = mapping
view (k ∷ p) (some (obj fs)) = view p (entry k fs)
view (k ∷ p) _ = absent

unfoldable pub says : List String → Option Json → Says
unfolding entry
says [] none = silent
says [] (some null) = gives null
says [] (some (bool b)) = gives (bool b)
says [] (some (int n)) = gives (int n)
says [] (some (float x)) = gives (float x)
says [] (some (str s)) = gives (str s)
says [] (some (arr xs)) = gives (arr xs)
says [] (some (obj fs)) = opens
says (k ∷ p) none = silent
says (k ∷ p) (some (obj fs)) = says p (entry k fs)
says (k ∷ p) (some _) = hides

-- The rule: a later layer wins, and one that is silent changes nothing.
abbrev pub react : Says → View → View
react silent v = v
react hides v = absent
react opens v = mapping
react (gives j) v = leaf j

-- No mapping has a key twice, but those within arrays, which are not merged.
unfoldable mutual
  unfolding entry

  pub has_distinct_keys : Json → Bool
  has_distinct_keys (obj fs) = are_distinct fs
  has_distinct_keys null = true
  has_distinct_keys (bool b) = true
  has_distinct_keys (int n) = true
  has_distinct_keys (float x) = true
  has_distinct_keys (str s) = true
  has_distinct_keys (arr xs) = true

  pub are_distinct : Fields → Bool
  are_distinct no_fields = true
  are_distinct (field k v fs) =
      let first = has_distinct_keys v in
      let rest = are_distinct fs in elim (entry k fs) [ none ↦ first && rest | some j ↦ false ]

pub entry-set_same : (k : String) (v : Json) (fs : Fields) → entry k (set_entry k v fs) ≡ some v
unfolding entry set_entry
entry-set_same k v no_fields = rw (eq_refl k)
entry-set_same k v (field j w fs) = elim (Bool-cases (j is k)) [
  | inl e ↦ rw (e, e)
  | inr e ↦ rw (e, e) (entry-set_same k v fs)
]

pub entry-set_other :
    (j k : String) (v : Json) (fs : Fields)
    → (k is j) ≡ false
    → entry j (set_entry k v fs) ≡ entry j fs
unfolding entry set_entry
entry-set_other j k v no_fields ne = rw ne
entry-set_other j k v (field i w fs) ne = elim (Bool-cases (i is k)) [
  | inl e ↦ let same : i ≡ k = (eq_iff i k).0 e in rw (e, same, ne)
  | inr e ↦ rw e (ground (arith, entry-set_other j k v fs ne))
]
