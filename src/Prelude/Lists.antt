-- ===== src/Prelude/Lists.antt =====
-- Lists measured by native numbers, Boolean quantifiers, and tables of rows with a text key.
use Prim.Native.Nat.{ℕ, suc, ◌+◌, ◌≤◌}
use Prim.Native.String.{String}
use mathlib.Core.Path.{◌≡◌, refl, subst}
use mathlib.Core.Bool.{Bool, true, false, ◌&&◌, ◌||◌}
use mathlib.Core.Logic.{inl, inr}
use mathlib.Core.List.{List, [], ◌∷◌, ◌++◌, map}
use mathlib.Core.Option
use mathlib.Core.Option.{Option, none, some}
use native.Mathlib.Omega.{arith}
use text.Mathlib.TextEquality.{eq_iff}
use wifi_validation_framewor.Prelude.Tests.{◌is◌, if◌then◌else◌, Bool-cases}

module _ {ℓ} {A : Type ℓ} where
  abbrev pub length : List A → ℕ
  length [] = 0
  length (x ∷ xs) = suc (length xs)

  abbrev pub any : (A → Bool) → List A → Bool
  any p [] = false
  any p (x ∷ xs) = p x || any p xs

  abbrev pub all : (A → Bool) → List A → Bool
  all p [] = true
  all p (x ∷ xs) = p x && all p xs

  abbrev pub filter : (A → Bool) → List A → List A
  filter p [] = []
  filter p (x ∷ xs) = let rest = filter p xs in if p x then x ∷ rest else rest

  abbrev pub head? : List A → Option A
  head? [] = none
  head? (x ∷ xs) = some x

  -- The last element, as `xs[-1]`.
  abbrev pub last? : List A → Option A
  last? [] = none
  last? (x ∷ []) = some x
  last? (x ∷ y ∷ xs) = last? (y ∷ xs)

  pub length-append : (xs ys : List A) → length (xs ++ ys) ≡ length xs + length ys
  length-append [] ys = omega arith
  length-append (x ∷ xs) ys = omega (arith, length-append xs ys)

  pub any-append : (p : A → Bool) (xs ys : List A) → any p (xs ++ ys) ≡ (any p xs || any p ys)
  any-append p [] ys = refl
  any-append p (x ∷ xs) ys = ground (arith, any-append p xs ys)

  pub all-append : (p : A → Bool) (xs ys : List A) → all p (xs ++ ys) ≡ (all p xs && all p ys)
  all-append p [] ys = refl
  all-append p (x ∷ xs) ys = ground (arith, all-append p xs ys)

  pub filter-append :
      (p : A → Bool) (xs ys : List A) → filter p (xs ++ ys) ≡ filter p xs ++ filter p ys
  filter-append p [] ys = refl
  filter-append p (x ∷ xs) ys = ground (arith, filter-append p xs ys)

  pub length-filter : (p : A → Bool) (xs : List A) → length (filter p xs) ≤ length xs
  length-filter p [] = omega arith
  length-filter p (x ∷ xs) = ground (arith, length-filter p xs)

abbrev pub All {ℓ κ} : {A : Type ℓ} → (A → Type κ) → List A → Type κ
All P [] = Unit
All P (x ∷ xs) = P x × All P xs

pub All-append {ℓ κ} :
    {A : Type ℓ} (P : A → Type κ) (xs ys : List A) → All P xs → All P ys → All P (xs ++ ys)
All-append P [] ys h k = k
All-append P (x ∷ xs) ys h k = (h.0, All-append P xs ys h.1 k)

pub All-map {ℓ κ ι} :
    {A : Type ℓ} (P : A → Type κ) (Q : A → Type ι)
    → ((x : A) → P x → Q x)
    → (xs : List A) → All P xs
    → All Q xs
All-map P Q f [] h = tt
All-map P Q f (x ∷ xs) h = (f x h.0, All-map P Q f xs h.1)

pub All-filter {ℓ κ} :
    {A : Type ℓ} (P : A → Type κ) (p : A → Bool) (xs : List A) → All P xs → All P (filter p xs)
All-filter P p [] h = h
All-filter P p (x ∷ xs) h = elim (Bool-cases (p x)) [
  | inl e ↦ rw e (h.0, All-filter P p xs h.1)
  | inr e ↦ rw e (All-filter P p xs h.1)
]

-- `x in xs`, on texts.
abbrev pub contains : List String → String → Bool
contains xs k = any (λ x. x is k) xs

-- `len(set(xs)) == len(xs)`, on texts.
abbrev pub distinct : List String → Bool
distinct [] = true
distinct (x ∷ xs) = (if contains xs x then false else true) && distinct xs

-- Rows under a text key: SELECT and UPDATE by primary key.
module _ {ℓ} {A : Type ℓ} (key : A → String) where
  unfoldable pub find_row : String → List A → Option A
  find_row k [] = none
  find_row k (r ∷ rows) = if key r is k then some r else find_row k rows

  unfoldable pub has_row : String → List A → Bool
  has_row k rows = any (λ r. key r is k) rows

  unfoldable pub update_rows : String → (A → A) → List A → List A
  update_rows k f [] = []
  update_rows k f (r ∷ rows) = (if key r is k then f r else r) ∷ update_rows k f rows

  pub find_row-key : (k : String) (rows : List A) {r : A} → find_row k rows ≡ some r → key r ≡ k
  unfolding find_row
  find_row-key k [] h = cc
  find_row-key k (x ∷ rows) {r} h = ground (arith, eq_iff (key x) k, find_row-key k rows {r = r})

  -- A row that is found is still the first one after rows are appended.
  pub find_row-append :
      (k : String) (rows new : List A) {r : A}
      → find_row k rows ≡ some r
      → find_row k (rows ++ new) ≡ some r
  unfolding find_row
  find_row-append k [] new h = cc
  find_row-append k (x ∷ rows) new {r} h = ground (arith, find_row-append k rows new {r = r})

  pub find_row-update_self :
      (k : String) (f : A → A) (rows : List A) {r : A}
      → key (f r) ≡ key r
      → find_row k rows ≡ some r
      → find_row k (update_rows k f rows) ≡ some (f r)
  unfolding find_row update_rows
  find_row-update_self k f [] e h = cc
  find_row-update_self k f (x ∷ rows) e h =
      ground (arith, eq_iff (key x) k, eq_iff (key (f x)) k, find_row-update_self k f rows e)

  -- An update that keeps the keys leaves every other row as it was.
  pub find_row-update_ne :
      (k j : String) (f : A → A) (rows : List A)
      → ((r : A) → key (f r) ≡ key r)
      → (k is j) ≡ false
      → find_row j (update_rows k f rows) ≡ find_row j rows
  unfolding find_row update_rows
  find_row-update_ne k j f [] e h = refl
  find_row-update_ne k j f (x ∷ rows) e h = ground (
    arith,
    e x,
    eq_iff (key x) k,
    eq_iff (key x) j,
    eq_iff (key (f x)) j,
    eq_iff k j,
    find_row-update_ne k j f rows e h,
  )

  pub has_row-find_row :
      (k : String) (rows : List A) {r : A} → find_row k rows ≡ some r → has_row k rows ≡ true
  unfolding find_row has_row
  has_row-find_row k [] h = cc
  has_row-find_row k (x ∷ rows) {r} h = ground (arith, has_row-find_row k rows {r = r})

  pub All-update_rows {κ} :
      (P : A → Type κ) (k : String) (f : A → A) (rows : List A)
      → ((r : A) → P r → P (f r))
      → All P rows
      → All P (update_rows k f rows)
  unfolding update_rows
  All-update_rows P k f [] step h = h
  All-update_rows P k f (x ∷ rows) step h = elim (Bool-cases (key x is k)) [
    | inl e ↦ rw e (step x h.0, All-update_rows P k f rows step h.1)
    | inr e ↦ rw e (h.0, All-update_rows P k f rows step h.1)
  ]

  pub All-find_row {κ} :
      (P : A → Type κ) (k : String) (rows : List A) {r : A}
      → All P rows
      → find_row k rows ≡ some r
      → P r
  unfolding find_row
  All-find_row P k [] h e = cc
  All-find_row P k (x ∷ rows) {r} h e = elim (Bool-cases (key x is k)) [
    | inl t ↦
        let found : some x ≡ some r = rw t at e in subst P (Option.some-injective x r found) h.0
    | inr t ↦ let later : find_row k rows ≡ some r = rw t at e in All-find_row P k rows h.1 later
  ]

  pub map-update_rows :
      (k : String) (f : A → A) (rows : List A)
      → ((r : A) → key (f r) ≡ key r)
      → map key (update_rows k f rows) ≡ map key rows
  unfolding update_rows
  map-update_rows k f [] h = refl
  map-update_rows k f (r ∷ rows) h = elim (Bool-cases (key r is k)) [
    | inl e ↦ rw (e, h r, map-update_rows k f rows h)
    | inr e ↦ rw (e, map-update_rows k f rows h)
  ]

  no_key :
      (k : String) (rows : List A)
      → contains (map key rows) k ≡ false
      → All (λ r. (key r is k) ≡ false) rows
  no_key k [] h = tt
  no_key k (r ∷ rows) h = (ground arith, no_key k rows (ground arith))

  -- Under distinct keys a row that is found is the only one with its key.
  pub found-only :
      (k : String) (rows : List A) {r : A}
      → distinct (map key rows) ≡ true
      → find_row k rows ≡ some r
      → All (λ x. (key x is k) ≡ true → x ≡ r) rows
  unfolding find_row
  found-only k [] d h = tt
  found-only k (x ∷ rows) {r} d h = elim (Bool-cases (key x is k)) [
    | inl t ↦
        let found : some x ≡ some r = rw t at h in
        let same : key x ≡ k = (eq_iff (key x) k).0 t in
        (
          λ _. Option.some-injective x r found,
          All-map _ _ (λ y p q. cc (p, q)) rows
              (no_key k rows (subst (λ j. contains (map key rows) j ≡ false) same (ground arith))),
        )
    | inr t ↦ (λ e. cc (t, e), found-only k rows (ground arith) (rw t at h))
  ]

  -- A row that is appended under a key that was missing is the one that is found.
  pub find_row-appended :
      (k : String) (rows : List A) (x : A)
      → find_row k rows ≡ none
      → key x ≡ k
      → find_row k (rows ++ x ∷ []) ≡ some x
  unfolding find_row
  find_row-appended k [] x h e = ground (arith, e, eq_iff (key x) k)
  find_row-appended k (r ∷ rows) x h e = ground (arith, find_row-appended k rows x)
