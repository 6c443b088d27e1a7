-- ===== src/Prelude/Sets.antt =====
-- Which texts a sorted set has: membership in lists of texts, and `sorted(set(xs))`.
use mathlib.Core.Path.{◌≡◌, refl, sym, ◌∙◌, ap, subst}
use mathlib.Core.Bool.{true, false, ◌||◌}
use mathlib.Core.Logic.{inl, inr}
use mathlib.Core.List.{List, [], ◌∷◌}
use native.Mathlib.Omega.{arith}
use Prim.Native.String.{String}
use text.Mathlib.TextEquality.{eq_iff}
use wifi_validation_framewor.Prelude.Tests.{◌is◌, Bool-cases}
use wifi_validation_framewor.Prelude.Lists.{contains, distinct}
use wifi_validation_framewor.Prelude.Text.{insert_by, sort_by, without_repeats, sorted_set}

abbrev insert : String → List String → List String
insert = insert_by (λ x. x)

contains-insert :
    (x : String) (ys : List String) (t : String)
    → contains (insert x ys) t ≡ (x is t || contains ys t)
unfolding insert_by
contains-insert x [] t = refl
contains-insert x (y ∷ ys) t = ground (arith, contains-insert x ys t)

contains-sort : (xs : List String) (t : String) → contains (sort_by (λ x. x) xs) t ≡ contains xs t
unfolding sort_by
contains-sort [] t = refl
contains-sort (x ∷ xs) t =
    contains-insert x (sort_by (λ y. y) xs) t ∙ ap (λ b. x is t || b) (contains-sort xs t)

contains-without_repeats :
    (xs : List String) (t : String) → contains (without_repeats xs) t ≡ contains xs t
unfolding without_repeats
contains-without_repeats [] t = refl
contains-without_repeats (x ∷ xs) t = elim (Bool-cases (contains (without_repeats xs) x)) [
  | inr e ↦ rw e (ap (λ b. x is t || b) (contains-without_repeats xs t))
  | inl e ↦ rw e (elim (Bool-cases (x is t)) [
    | inr apart ↦ rw apart (contains-without_repeats xs t)
    | inl same ↦
        let held : contains (without_repeats xs) t ≡ true =
          subst (λ k. contains (without_repeats xs) k ≡ true) ((eq_iff x t).0 same) e in
        rw same held
  ])
]

pub contains-sorted_set :
    (xs : List String) (t : String) → contains (sorted_set xs) t ≡ contains xs t
contains-sorted_set xs t = contains-sort (without_repeats xs) t ∙ contains-without_repeats xs t

pub is-sym : (a b : String) → (a is b) ≡ false → (b is a) ≡ false
is-sym a b e = elim (Bool-cases (b is a)) [
  | inr f ↦ f
  | inl f ↦
      let same : b ≡ a = (eq_iff b a).0 f in
      let back : (a is b) ≡ true = (eq_iff a b).1 (sym same) in absurd (ground (arith, e, back))
]

distinct-insert :
    (x : String) (ys : List String)
    → contains ys x ≡ false
    → distinct ys ≡ true
    → distinct (insert x ys) ≡ true
unfolding insert_by
distinct-insert x [] h d = refl
distinct-insert x (y ∷ ys) h d =
    let fresh : (y is x) ≡ false = ground arith in
    let later : contains ys x ≡ false = ground arith in
    let turned : (x is y) ≡ false = is-sym y x fresh in
    let added : contains (insert x ys) y ≡ (x is y || contains ys y) = contains-insert x ys y in
    ground (arith, distinct-insert x ys later (ground arith), turned, added, later, fresh)

distinct-sort : (xs : List String) → distinct xs ≡ true → distinct (sort_by (λ x. x) xs) ≡ true
unfolding sort_by
distinct-sort [] d = refl
distinct-sort (x ∷ xs) d =
    distinct-insert x (sort_by (λ y. y) xs) (contains-sort xs x ∙ ground arith)
      (distinct-sort xs (ground arith))

distinct-without_repeats : (xs : List String) → distinct (without_repeats xs) ≡ true
unfolding without_repeats
distinct-without_repeats [] = refl
distinct-without_repeats (x ∷ xs) = ground (arith, distinct-without_repeats xs)

pub distinct-sorted_set : (xs : List String) → distinct (sorted_set xs) ≡ true
distinct-sorted_set xs = distinct-sort (without_repeats xs) (distinct-without_repeats xs)
