-- ===== src/Access/Attempts.antt =====
-- The dictionary of LoginRateLimiter (lib/services/api_security.py): what forgetting old attempts and
-- pruning leave of it.
use wifi_validation_framewor.Prelude.{
  ℕ, ◌≤◌, String, ◌≡◌, refl, sym, ◌∙◌, Bool, true, false, List, [], ◌∷◌, ◌++◌, arith, inl, inr,
  Bool-cases, ltb, ◌is◌, if◌then◌else◌, length, filter, last?, All, All-map, All-filter, eq_iff,
}
use wifi_validation_framewor.Access.LoginLimit.{
  attempts_of, set_attempts, is_recent, last_is_recent, prune, pruned_if_large,
}

abbrev pub Sorted : List ℕ → Type 0
Sorted [] = Unit
Sorted (x ∷ xs) = All (λ y. x ≤ y) xs × Sorted xs

pub Sorted-filter : (p : ℕ → Bool) (xs : List ℕ) → Sorted xs → Sorted (filter p xs)
Sorted-filter p [] h = h
Sorted-filter p (x ∷ xs) h = elim (Bool-cases (p x)) [
  | inl e ↦ rw e (All-filter (λ y. x ≤ y) p xs h.0, Sorted-filter p xs h.1)
  | inr e ↦ rw e (Sorted-filter p xs h.1)
]

pub All-snoc : (P : ℕ → Type 0) (xs : List ℕ) (x : ℕ) → All P xs → P x → All P (xs ++ x ∷ [])
All-snoc P [] x h k = (k, tt)
All-snoc P (y ∷ xs) x h k = (h.0, All-snoc P xs x h.1 k)

pub Sorted-snoc : (xs : List ℕ) (x : ℕ) → Sorted xs → All (λ y. y ≤ x) xs → Sorted (xs ++ x ∷ [])
Sorted-snoc [] x h k = (tt, tt)
Sorted-snoc (y ∷ xs) x h k = (All-snoc (λ z. y ≤ z) xs x h.0 k.0, Sorted-snoc xs x h.1 k.1)

module _ (window current now : ℕ) (later : current ≤ now) where
  -- What is dropped as old stays old.
  pub filter-recent :
      (xs : List ℕ)
      → filter (is_recent window now) (filter (is_recent window current) xs)
        ≡ filter (is_recent window now) xs
  filter-recent [] = refl
  filter-recent (x ∷ xs) = ground (arith, filter-recent xs)

  head_old :
      (x : ℕ) (xs : List ℕ)
      → Sorted (x ∷ xs)
      → last_is_recent window current (last? (x ∷ xs)) ≡ false
      → is_recent window current x ≡ false
  head_old x [] h e = e
  head_old x (y ∷ xs) h e =
      let old = head_old y xs h.1 e in let le : x ≤ y = h.0.0 in ground (arith, old, le)

  all_old :
      (xs : List ℕ)
      → Sorted xs
      → last_is_recent window current (last? xs) ≡ false
      → filter (is_recent window now) xs ≡ []
  all_old [] h e = refl
  all_old (x ∷ []) h e = ground arith
  all_old (x ∷ y ∷ xs) h e =
      let old = head_old x (y ∷ xs) h e in ground (arith, old, all_old (y ∷ xs) h.1 e)

abbrev pub Table : Type 0
Table = List (String × List ℕ)

-- A dictionary of lists that rise and do not pass the time.
abbrev pub IsTable : ℕ → Table → Type 0
IsTable now [] = Unit
IsTable now ((k, items) ∷ rest) =
    Sorted items × All (λ x. x ≤ now) items × All (λ p. (k is p.0) ≡ false) rest × IsTable now rest

absent :
    (k j : String) (t : Table)
    → (k is j) ≡ true
    → All (λ p. (k is p.0) ≡ false) t
    → attempts_of j t ≡ []
unfolding attempts_of
absent k j [] e h = refl
absent k j ((i, items) ∷ t) e h =
    ground (arith, h.0, eq_iff k i, eq_iff k j, eq_iff i j, absent k j t e h.1)

pub attempts_of-set :
    (k j : String) (v : List ℕ) (t : Table)
    → attempts_of j (set_attempts k v t) ≡ (if k is j then v else attempts_of j t)
unfolding attempts_of set_attempts
attempts_of-set k j v [] = refl
attempts_of-set k j v ((i, items) ∷ t) =
    ground (arith, eq_iff i k, eq_iff i j, eq_iff k j, attempts_of-set k j v t)

pub IsTable-later : (m n : ℕ) (t : Table) → m ≤ n → IsTable m t → IsTable n t
IsTable-later m n [] le h = tt
IsTable-later m n ((k, items) ∷ t) le h = (
  h.0,
  All-map (λ x. x ≤ m) (λ x. x ≤ n) (λ x p. omega arith) items h.1,
  h.2,
  IsTable-later m n t le h.3,
)

set-absent :
    (k j : String) (v : List ℕ) (t : Table)
    → (k is j) ≡ false
    → All (λ p. (k is p.0) ≡ false) t
    → All (λ p. (k is p.0) ≡ false) (set_attempts j v t)
unfolding set_attempts
set-absent k j v [] e h = (e, tt)
set-absent k j v ((i, items) ∷ t) e h = elim (Bool-cases (i is j)) [
  | inl same ↦ rw same h
  | inr other ↦ rw other (h.0, set-absent k j v t e h.1)
]

pub set-IsTable :
    (now : ℕ) (j : String) (v : List ℕ) (t : Table)
    → Sorted v
    → All (λ x. x ≤ now) v
    → IsTable now t
    → IsTable now (set_attempts j v t)
unfolding set_attempts
set-IsTable now j v [] sorted bound h = (sorted, bound, tt, tt)
set-IsTable now j v ((i, items) ∷ t) sorted bound h = elim (Bool-cases (i is j)) [
  | inl same ↦ rw same (sorted, bound, h.2, h.3)
  | inr other ↦
      rw other (h.0, h.1, set-absent i j v t other h.2, set-IsTable now j v t sorted bound h.3)
]

module _ (window current : ℕ) where
  prune-absent :
      (k : String) (t : Table)
      → All (λ p. (k is p.0) ≡ false) t
      → All (λ p. (k is p.0) ≡ false) (prune window current t)
  unfolding prune
  prune-absent k [] h = tt
  prune-absent k ((i, items) ∷ t) h =
      elim (Bool-cases (last_is_recent window current (last? items))) [
        | inl e ↦ rw e (h.0, prune-absent k t h.1)
        | inr e ↦ rw e (prune-absent k t h.1)
      ]

  prune-IsTable : (now : ℕ) (t : Table) → IsTable now t → IsTable now (prune window current t)
  unfolding prune
  prune-IsTable now [] h = tt
  prune-IsTable now ((i, items) ∷ t) h =
      elim (Bool-cases (last_is_recent window current (last? items))) [
        | inl e ↦ rw e (h.0, h.1, prune-absent i t h.2, prune-IsTable now t h.3)
        | inr e ↦ rw e (prune-IsTable now t h.3)
      ]

  -- What pruning takes away is too old to count.
  prune-recent :
      (now m : ℕ) (j : String) (t : Table)
      → current ≤ now
      → IsTable m t
      → filter (is_recent window now) (attempts_of j (prune window current t))
        ≡ filter (is_recent window now) (attempts_of j t)
  unfolding prune attempts_of
  prune-recent now m j [] le h = refl
  prune-recent now m j ((i, items) ∷ t) le h =
      let ih = prune-recent now m j t le h.3 in
      elim (Bool-cases (last_is_recent window current (last? items))) [
        | inl e ↦ rw e (elim (Bool-cases (i is j)) [ inl s ↦ rw s | inr s ↦ rw s ih ])
        | inr e ↦ rw e (elim (Bool-cases (i is j)) [
          | inl s ↦
              rw s (ih ∙ rw (absent i j t s h.2) (sym (all_old window current now le items h.0 e)))
          | inr s ↦ rw s ih
        ])
      ]

  pub pruned-IsTable :
      (now : ℕ) (t : Table) → IsTable now t → IsTable now (pruned_if_large window current t)
  unfolding pruned_if_large
  pruned-IsTable now t h = elim (Bool-cases (ltb 2048 (length t))) [
    | inl e ↦ rw e (prune-IsTable now t h)
    | inr e ↦ rw e h
  ]

  pub pruned-recent :
      (now m : ℕ) (j : String) (t : Table)
      → current ≤ now
      → IsTable m t
      → filter (is_recent window now) (attempts_of j (pruned_if_large window current t))
        ≡ filter (is_recent window now) (attempts_of j t)
  unfolding pruned_if_large
  pruned-recent now m j t le h = elim (Bool-cases (ltb 2048 (length t))) [
    | inl e ↦ rw e (prune-recent now m j t le h)
    | inr e ↦ rw e
  ]

pub attempts-IsTable :
    (now : ℕ) (j : String) (t : Table)
    → IsTable now t
    → Sorted (attempts_of j t) × All (λ x. x ≤ now) (attempts_of j t)
unfolding attempts_of
attempts-IsTable now j [] h = (tt, tt)
attempts-IsTable now j ((i, items) ∷ t) h = elim (Bool-cases (i is j)) [
  | inl e ↦ rw e (h.0, h.1)
  | inr e ↦ rw e (attempts-IsTable now j t h.3)
]
