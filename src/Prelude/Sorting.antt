-- ===== src/Prelude/Sorting.antt =====
-- `sorted` by a text key: it permutes, and under distinct keys the order it starts from is forgotten.
use mathlib.Core.Path.{◌≡◌, refl, ◌∙◌, ap, subst}
use mathlib.Core.Bool.{true, false}
use mathlib.Core.Logic.{inl, inr}
use mathlib.Core.List.{List, [], ◌∷◌, map, Perm, Permᴰ}
use mathlib.Core.List.Perm
use native.Mathlib.Omega.{arith}
use Prim.Native.String.{String}
use wifi_validation_framewor.Prelude.Tests.{◌is◌, Bool-cases}
use wifi_validation_framewor.Prelude.Lists.{contains, distinct}
use wifi_validation_framewor.Prelude.Text.{insert_by, sort_by, text_le}
use wifi_validation_framewor.Prelude.Order.{text_le-not, text_le_trans}
use wifi_validation_framewor.Prelude.Sets.{is-sym}

module _ {ℓ} {A : Type ℓ} (key : A → String) where
  insert_by-Perm : (x : A) (l : List A) → Perm (insert_by key x l) (x ∷ l)
  unfolding insert_by
  insert_by-Perm x [] = Perm.rfl
  insert_by-Perm x (y ∷ l) = elim (Bool-cases (text_le (key x) (key y))) [
    | inl e ↦ rw (insert_by, e) Perm.rfl
    | inr e ↦ rw (insert_by, e) (Perm.trans (Perm.cons y (insert_by-Perm x l)) (Perm.swap x y l))
  ]

  pub sort_by-Perm : (l : List A) → Perm (sort_by key l) l
  unfolding sort_by
  sort_by-Perm [] = Perm.nil
  sort_by-Perm (x ∷ l) =
      Perm.trans (insert_by-Perm x (sort_by key l)) (Perm.cons x (sort_by-Perm l))

  insert_by-insert_by :
      (x y : A) (l : List A)
      → (key x is key y) ≡ false
      → insert_by key x (insert_by key y l) ≡ insert_by key y (insert_by key x l)
  unfolding insert_by
  insert_by-insert_by x y [] apart = ground (arith, text_le-not (key x) (key y) apart)
  insert_by-insert_by x y (z ∷ l) apart = ground (
    arith,
    text_le-not (key x) (key y) apart,
    text_le_trans (key x) (key y) (key z),
    text_le_trans (key y) (key x) (key z),
    insert_by-insert_by x y l apart,
  )

  contains-Permᴰ :
      {xs ys : List A} (k : String)
      → Permᴰ xs ys
      → contains (map key xs) k ≡ contains (map key ys) k
  contains-Permᴰ k Permᴰ.nil = refl
  contains-Permᴰ k (Permᴰ.cons e d) = rw (e, contains-Permᴰ k d) refl
  contains-Permᴰ k (Permᴰ.swap e f) = rw (e, f) (ground arith)
  contains-Permᴰ k (Permᴰ.trans d e) = contains-Permᴰ k d ∙ contains-Permᴰ k e

  distinct-Permᴰ :
      {xs ys : List A} → Permᴰ xs ys → distinct (map key xs) ≡ true → distinct (map key ys) ≡ true
  distinct-Permᴰ Permᴰ.nil h = refl
  distinct-Permᴰ (Permᴰ.cons {a = a} e d) h =
      rw (← e) (ground (arith, h, contains-Permᴰ (key a) d, distinct-Permᴰ d (ground (arith, h))))
  distinct-Permᴰ (Permᴰ.swap {a = a} {b = b} {a' = a'} {l = l} e f) h =
      let apart : (key b is key a) ≡ false = ground (arith, h) in
      let turned : distinct (map key (b ∷ a ∷ l)) ≡ true =
        ground (arith, h, is-sym (key b) (key a) apart) in
      subst (λ y. distinct (map key (a' ∷ y ∷ l)) ≡ true) e
        (subst (λ x. distinct (map key (x ∷ a ∷ l)) ≡ true) f turned)
  distinct-Permᴰ (Permᴰ.trans d e) h = distinct-Permᴰ e (distinct-Permᴰ d h)

  -- Under distinct keys, permuted rows are sorted into the same list.
  pub sort_by-Permᴰ :
      {xs ys : List A}
      → distinct (map key xs) ≡ true
      → Permᴰ xs ys
      → sort_by key xs ≡ sort_by key ys
  unfolding sort_by
  sort_by-Permᴰ h Permᴰ.nil = refl
  sort_by-Permᴰ h (Permᴰ.cons {a = a} e d) =
      rw (← e) (ap (insert_by key a) (sort_by-Permᴰ (ground (arith, h)) d))
  sort_by-Permᴰ h (Permᴰ.swap {a = a} {b = b} {l = l} e f) =
      let apart : (key b is key a) ≡ false = ground (arith, h) in
      rw (← e, ← f) (insert_by-insert_by a b (sort_by key l) (is-sym (key b) (key a) apart))
  sort_by-Permᴰ h (Permᴰ.trans d e) = sort_by-Permᴰ h d ∙ sort_by-Permᴰ (distinct-Permᴰ d h) e
