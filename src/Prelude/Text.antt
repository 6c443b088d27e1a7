-- ===== src/Prelude/Text.antt =====
-- Python's `str` operations that the code uses: `strip`, the test for blank text, and the order of
-- texts by code points.
use Prim.Native.Nat.{ℕ, compare, Ordering}
use Prim.Native.Char.{code}
use Prim.Native.String.{String}
use mathlib.Core.Bool.{Bool, true, false, ◌&&◌, ◌||◌}
use mathlib.Core.List.{List, [], ◌∷◌}
use wifi_validation_framewor.Prelude.Lists.{contains}
use wifi_validation_framewor.Prelude.Tests.{leb, ◌==◌, if◌then◌else◌}

-- The characters that `str.strip` removes.
unfoldable pub is_space : ℕ → Bool
is_space c =
    (leb 9 c && leb c 13)
    || (leb 28 c && leb c 32)
    || c == 133
    || c == 160
    || c == 5760
    || (leb 8192 c && leb c 8202)
    || c == 8232
    || c == 8233
    || c == 8239
    || c == 8287
    || c == 12288

-- `not value.strip()`.
unfoldable pub is_blank : String → Bool
unfolding is_space
is_blank String.[] = true
is_blank (String.◌∷◌ c s) = is_space (code c) && is_blank s

unfoldable pub lstrip : String → String
unfolding is_space
lstrip String.[] = String.[]
lstrip (String.◌∷◌ c s) = let rest = lstrip s in if is_space (code c) then rest else String.◌∷◌ c s

unfoldable pub rstrip : String → String
unfolding is_space is_blank
rstrip String.[] = String.[]
rstrip (String.◌∷◌ c s) =
    if is_space (code c) && is_blank s then String.[] else String.◌∷◌ c (rstrip s)

unfoldable pub strip : String → String
unfolding lstrip rstrip
strip s = rstrip (lstrip s)

-- `a <= b`, on texts.
unfoldable pub text_le : String → String → Bool
text_le String.[] b = true
text_le (String.◌∷◌ c a) String.[] = false
text_le (String.◌∷◌ c a) (String.◌∷◌ d b) =
    let rest = text_le a b in
    elim (compare (code c) (code d)) [
      | Ordering.lt ↦ true
      | Ordering.eq ↦ rest
      | Ordering.gt ↦ false
    ]

module _ {ℓ} {A : Type ℓ} (key : A → String) where
  unfoldable pub insert_by : A → List A → List A
  insert_by x [] = x ∷ []
  insert_by x (y ∷ ys) =
      let rest = insert_by x ys in if text_le (key x) (key y) then x ∷ y ∷ ys else y ∷ rest

  -- `sorted(xs, key=key)`: a stable sort by a text key.
  unfoldable pub sort_by : List A → List A
  unfolding insert_by text_le
  sort_by [] = []
  sort_by (x ∷ xs) = insert_by x (sort_by xs)

unfoldable pub without_repeats : List String → List String
without_repeats [] = []
without_repeats (x ∷ xs) =
    let rest = without_repeats xs in if contains rest x then rest else x ∷ rest

-- `sorted(set(xs))`.
abbrev pub sorted_set : List String → List String
sorted_set xs = sort_by (λ x. x) (without_repeats xs)
