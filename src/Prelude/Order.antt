-- ===== src/Prelude/Order.antt =====
-- The order of texts by code points is a total order.
use Prim.Native.Nat.{compare, Ordering, ◌<◌}
use Prim.Native.Char.{Char, code}
use Prim.Native.String.{String}
use mathlib.Core.Path.{◌≡◌, refl, sym, ◌∙◌, ap}
use mathlib.Core.Bool.{true, false, not}
use mathlib.Core.Logic.{◌⊎◌, inl, inr}
use native.Mathlib.Omega.{arith, compare-lt, compare-eq, compare-gt}
use text.Mathlib.TextEquality.{eq_iff, codes_equal}
use wifi_validation_framewor.Prelude.Tests.{◌is◌, Bool-cases}
use wifi_validation_framewor.Prelude.Text.{text_le}

Ordering-cases : (o : Ordering) → (o ≡ Ordering.lt) ⊎ ((o ≡ Ordering.eq) ⊎ (o ≡ Ordering.gt))
Ordering-cases Ordering.lt = inl refl
Ordering-cases Ordering.eq = inr (inl refl)
Ordering-cases Ordering.gt = inr (inr refl)

module _ (c d : Char) (a b : String) where
  below : code c < code d → text_le (String.◌∷◌ c a) (String.◌∷◌ d b) ≡ true
  unfolding text_le
  below h = elim (Ordering-cases (compare (code c) (code d))) [
    | inl e ↦ rw (text_le, e) refl
    | inr (inl e) ↦ absurd (omega (arith, compare-eq (code c) (code d) e, h))
    | inr (inr e) ↦ absurd (omega (arith, compare-gt (code c) (code d) e, h))
  ]

  level : code c ≡ code d → text_le (String.◌∷◌ c a) (String.◌∷◌ d b) ≡ text_le a b
  unfolding text_le
  level h = elim (Ordering-cases (compare (code c) (code d))) [
    | inl e ↦ absurd (omega (arith, compare-lt (code c) (code d) e, h))
    | inr (inl e) ↦ rw (text_le, e) refl
    | inr (inr e) ↦ absurd (omega (arith, compare-gt (code c) (code d) e, h))
  ]

  text_le-inv :
      text_le (String.◌∷◌ c a) (String.◌∷◌ d b) ≡ true
      → (code c < code d) ⊎ ((code c ≡ code d) × (text_le a b ≡ true))
  unfolding text_le
  text_le-inv h = elim (Ordering-cases (compare (code c) (code d))) [
    | inl e ↦ inl (compare-lt (code c) (code d) e)
    | inr (inl e) ↦ inr (compare-eq (code c) (code d) e, rw (text_le, e) at h)
    | inr (inr e) ↦ let no : false ≡ true = rw (text_le, e) at h in cc no
  ]

  same_char : code c ≡ code d → c ≡ d
  same_char h = elim (Ordering-cases (compare (code c) (code d))) [
    | inl e ↦ absurd (omega (arith, compare-lt (code c) (code d) e, h))
    | inr (inl e) ↦ codes_equal c d e
    | inr (inr e) ↦ absurd (omega (arith, compare-gt (code c) (code d) e, h))
  ]

  text_le-apart :
      text_le (String.◌∷◌ c a) (String.◌∷◌ d b) ≡ false
      → (code d < code c) ⊎ ((code d ≡ code c) × (text_le a b ≡ false))
  unfolding text_le
  text_le-apart h = elim (Ordering-cases (compare (code c) (code d))) [
    | inl e ↦ let no : true ≡ false = rw (text_le, e) at h in cc no
    | inr (inl e) ↦ inr (sym (compare-eq (code c) (code d) e), rw (text_le, e) at h)
    | inr (inr e) ↦ inl (compare-gt (code c) (code d) e)
  ]

text_le_total : (a b : String) → text_le a b ≡ false → text_le b a ≡ true
unfolding text_le
text_le_total String.[] b h = cc h
text_le_total (String.◌∷◌ c a) String.[] h = refl
text_le_total (String.◌∷◌ c a) (String.◌∷◌ d b) h = elim (text_le-apart c d a b h) [
  | inl less ↦ below d c b a less
  | inr (same, rest) ↦ level d c b a same ∙ text_le_total a b rest
]

text_le_antisym : (a b : String) → text_le a b ≡ true → text_le b a ≡ true → a ≡ b
unfolding text_le
text_le_antisym String.[] String.[] h k = refl
text_le_antisym String.[] (String.◌∷◌ d b) h k = cc k
text_le_antisym (String.◌∷◌ c a) String.[] h k = cc h
text_le_antisym (String.◌∷◌ c a) (String.◌∷◌ d b) h k = elim (text_le-inv c d a b h) [
  | inl less ↦ elim (text_le-inv d c b a k) [
    | inl more ↦ absurd (omega (arith, less, more))
    | inr (same, _) ↦ absurd (omega (arith, less, same))
  ]
  | inr (same, rest) ↦ elim (text_le-inv d c b a k) [
    | inl more ↦ absurd (omega (arith, same, more))
    | inr (_, back) ↦ rw (same_char c d a b same, text_le_antisym a b rest back) refl
  ]
]

pub text_le_trans : (a b c : String) → text_le a b ≡ true → text_le b c ≡ true → text_le a c ≡ true
unfolding text_le
text_le_trans String.[] b c h k = refl
text_le_trans (String.◌∷◌ x a) String.[] c h k = cc h
text_le_trans (String.◌∷◌ x a) (String.◌∷◌ y b) String.[] h k = cc k
text_le_trans (String.◌∷◌ x a) (String.◌∷◌ y b) (String.◌∷◌ z c) h k =
    elim (text_le-inv x y a b h) [
      | inl less ↦ elim (text_le-inv y z b c k) [
        | inl more ↦ below x z a c (omega (arith, less, more))
        | inr (same, _) ↦ below x z a c (omega (arith, less, same))
      ]
      | inr (same, rest) ↦ elim (text_le-inv y z b c k) [
        | inl more ↦ below x z a c (omega (arith, same, more))
        | inr (level_too, back) ↦ level x z a c (same ∙ level_too) ∙ text_le_trans a b c rest back
      ]
    ]

-- Of two texts that differ, exactly one is at most the other.
pub text_le-not : (a b : String) → (a is b) ≡ false → text_le a b ≡ not (text_le b a)
text_le-not a b apart = elim (Bool-cases (text_le a b)) [
  | inr e ↦ e ∙ sym (ap not (text_le_total a b e))
  | inl e ↦ elim (Bool-cases (text_le b a)) [
    | inr back ↦ e ∙ sym (ap not back)
    | inl back ↦
        let same : (a is b) ≡ true = (eq_iff a b).1 (text_le_antisym a b e back) in cc (same, apart)
  ]
]
