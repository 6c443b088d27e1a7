-- ===== src/Runs/Selected.antt =====
-- What `_selected_result_map` (lib/services/run_service.py) accepts: every result is named by one
-- selected test, and every selected test names one result.
use mathlib.Core.Path.{subst}
use wifi_validation_framewor.Prelude.{
  String, ◌≡◌, refl, ap, ◌∙◌, sym, Bool, true, false, ◌||◌, Option, none, some, some-eq, List, [],
  ◌∷◌, map, ◌↔◌, inl, inr, Bool-cases, arith, eq_iff, eq_refl, ◌is◌, ◌==◌, length, filter, head?,
  contains, distinct, all, All, All-map,
}
use wifi_validation_framewor.Domain.Entities.{Run, TestResult}
use wifi_validation_framewor.Runs.Outcome.{
  owners, is_owned, owner_is, matches, only, keep_pair, pair_up, selected_result_map,
  health_unusable,
}
use wifi_validation_framewor.Runs.Judgement.{Mapped}

-- The identifier names the result: it is its node or its test.
abbrev pub names : String → TestResult → Bool
names i r = i is r.node_id || i is r.test_id

-- The identifier names one of the results, and that one passes.
abbrev pub HasOne : (TestResult → Type 0) → List TestResult → String → Type 0
HasOne P results i = (r : TestResult) × (filter (names i) results ≡ r ∷ []) × P r

-- What a validated Run shows: usable health, distinct selected tests, no result that is not named by
-- exactly one of them, and for each of them one result, which passes.
pub record Evidence (P : TestResult → Type 0) (run : Run) (results : List TestResult) : Type 0 where
  pub health : health_unusable run.environment_health ≡ false
  pub selects_some : (length run.selected_tests == 0) ≡ false
  pub no_repeats : distinct run.selected_tests ≡ true
  pub owned :
      All (λ (r : TestResult). length (filter (λ i. names i r) run.selected_tests) ≡ 1) results
  pub each : All (HasOne P results) run.selected_tests

module _ (p : String → Bool) (i : String) where
  none_left : (xs : List String) → filter p xs ≡ [] → contains xs i ≡ true → p i ≡ false
  none_left [] h k = cc k
  none_left (x ∷ xs) h k = elim (Bool-cases (p x)) [
    | inl e ↦ absurd (ground (arith, ap length h, e))
    | inr e ↦ elim (Bool-cases (x is i)) [
      | inl same ↦ subst (λ j. p j ≡ false) ((eq_iff x i).0 same) e
      | inr apart ↦ none_left xs (rw e at h) (ground (arith, k, apart))
    ]
  ]

  not_owner : (xs : List String) → p i ≡ false → owner_is (head? (filter p xs)) i ≡ false
  not_owner [] h = refl
  not_owner (x ∷ xs) h = elim (Bool-cases (p x)) [
    | inl e ↦ rw e (elim (Bool-cases (x is i)) [
      | inl same ↦
          let held : p i ≡ true = subst (λ j. p j ≡ true) ((eq_iff x i).0 same) e in cc (held, h)
      | inr apart ↦ apart
    ])
    | inr e ↦ rw e (not_owner xs h)
  ]

  no_length : (ys : List String) → length ys ≡ 0 → ys ≡ []
  no_length [] h = refl
  no_length (y ∷ ys) h = absurd (omega (arith, h))

  the_owner :
      (xs : List String)
      → p i ≡ true
      → length (filter p xs) ≡ 1
      → contains xs i ≡ true
      → owner_is (head? (filter p xs)) i ≡ true
  the_owner [] h one k = cc k
  the_owner (x ∷ xs) h one k = elim (Bool-cases (p x)) [
    | inl e ↦
        let rest : length (x ∷ filter p xs) ≡ 1 = rw e at one in
        let empty : filter p xs ≡ [] = no_length (filter p xs) (omega (arith, rest)) in
        rw e (elim (Bool-cases (x is i)) [
          | inl same ↦ same
          | inr apart ↦ cc (none_left xs empty (ground (arith, k, apart)), h)
        ])
    | inr e ↦ elim (Bool-cases (x is i)) [
      | inl same ↦
          let held : p i ≡ false = subst (λ j. p j ≡ false) ((eq_iff x i).0 same) e in cc (held, h)
      | inr apart ↦ rw e (the_owner xs h (rw e at one) (ground (arith, k, apart)))
    ]
  ]

  one_owner :
      (xs : List String)
      → length (filter p xs) ≡ 1
      → contains xs i ≡ true
      → owner_is (head? (filter p xs)) i ≡ p i
  one_owner xs one k = elim (Bool-cases (p i)) [
    | inl e ↦ the_owner xs e one k ∙ sym e
    | inr e ↦ not_owner xs e ∙ sym e
  ]

filter-same :
    (p q : TestResult → Bool) (xs : List TestResult)
    → All (λ r. p r ≡ q r) xs
    → filter p xs ≡ filter q xs
filter-same p q [] h = refl
filter-same p q (x ∷ xs) h = rw (h.0, filter-same p q xs h.1)

abbrev IsOwned : List String → TestResult → Type 0
IsOwned selected r = length (filter (λ i. names i r) selected) ≡ 1

all-IsOwned :
    (selected : List String) (results : List TestResult)
    → (all (is_owned selected) results ≡ true) ↔ All (IsOwned selected) results
unfolding owners
all-IsOwned selected [] = (λ _. tt, λ _. refl)
all-IsOwned selected (r ∷ results) = (
  λ h. (ground (arith, h), (all-IsOwned selected results).0 (ground (arith, h))),
  λ h. ground (arith, h.0, (all-IsOwned selected results).1 h.1),
)

only-some : (xs : List TestResult) (r : TestResult) → only xs ≡ some r → xs ≡ r ∷ []
only-some [] r h = cc h
only-some (x ∷ []) r h = ap (λ y. y ∷ []) (some-eq h)
only-some (x ∷ y ∷ xs) r h = cc h

All-contains : (xs : List String) → All (λ i. contains xs i ≡ true) xs
All-contains [] = tt
All-contains (x ∷ xs) =
    (ground (arith, eq_refl x), All-map _ _ (λ i h. ground (arith, h)) xs (All-contains xs))

abbrev results_of_pairs : List (String × TestResult) → List TestResult
results_of_pairs pairs = map (λ (p : String × TestResult). p.1) pairs

-- The results, each named by one of the selected tests.
module _ (P : TestResult → Type 0) (selected : List String) (results : List TestResult)
    (owned : All (IsOwned selected) results) where
  matches-names :
      (i : String)
      → contains selected i ≡ true
      → matches selected results i ≡ filter (names i) results
  unfolding matches owners
  matches-names i k =
      filter-same _ (names i) results
        (All-map _ _ (λ r one. one_owner (λ j. names j r) i selected one k) results owned)

  pair_up-HasOne :
      (ids : List String) (pairs : List (String × TestResult))
      → All (λ i. contains selected i ≡ true) ids
      → pair_up selected results ids ≡ some pairs
      → All P (results_of_pairs pairs)
      → All (HasOne P results) ids
  unfolding pair_up
  pair_up-HasOne [] pairs ks e h = tt
  pair_up-HasOne (i ∷ ids) pairs ks e h =
      by_result (λ ps e' h'. pair_up-HasOne ids ps ks.1 e' h') (only (matches selected results i))
        (pair_up selected results ids) refl refl e
    where
      by_result :
          ((ps : List (String × TestResult))
            → pair_up selected results ids ≡ some ps
            → All P (results_of_pairs ps)
            → All (HasOne P results) ids)
          → (o : Option TestResult) (later : Option (List (String × TestResult)))
          → only (matches selected results i) ≡ o
          → pair_up selected results ids ≡ later
          → keep_pair i o later ≡ some pairs
          → HasOne P results i × All (HasOne P results) ids
      by_result rest none later a b c = cc c
      by_result rest (some r) none a b c = cc c
      by_result rest (some r) (some ps) a b c =
          let shape : pairs ≡ (i, r) ∷ ps = sym (some-eq c) in
          let held : P r × All P (results_of_pairs ps) =
            subst (λ qs. All P (results_of_pairs qs)) shape h in
          ((r, sym (matches-names i ks.0) ∙ only-some _ r a, held.0), rest ps b held.1)

  HasOne-pair_up :
      (ids : List String)
      → All (λ i. contains selected i ≡ true) ids
      → All (HasOne P results) ids
      → (pairs : List (String × TestResult)) × (pair_up selected results ids ≡ some pairs)
        × All P (results_of_pairs pairs)
  unfolding pair_up
  HasOne-pair_up [] ks h = ([], refl, tt)
  HasOne-pair_up (i ∷ ids) ks h =
      let (r, alone, good) = h.0 in
      let (pairs, found, all_good) = HasOne-pair_up ids ks.1 h.1 in
      let one : matches selected results i ≡ r ∷ [] = matches-names i ks.0 ∙ alone in
      ((i, r) ∷ pairs, rw (one, found), (good, all_good))

pub Mapped-Evidence :
    (P : TestResult → Type 0) (run : Run) (results : List TestResult)
    → Mapped P run results ↔ Evidence P run results
unfolding selected_result_map
Mapped-Evidence P run results = (λ m. gives m, λ e. takes e)
  where
    selected : List String
    selected = run.selected_tests

    gives : Mapped P run results → Evidence P run results
    gives m =
        let is_some = m.mapped in
        elim (Bool-cases (all (is_owned selected) results)) [
          | inr e ↦ absurd (ground (arith, e, m.mapped))
          | inl e ↦
              let owned = (all-IsOwned selected results).0 e in
              let found : pair_up selected results selected ≡ some m.pairs =
                ground (arith, e, m.mapped) in
              record {
                health = m.health;
                selects_some = ground (arith, m.mapped);
                no_repeats = ground (arith, m.mapped);
                owned = owned;
                each =
                    pair_up-HasOne P selected results owned selected m.pairs (All-contains selected)
                      found m.each;
              }
        ]

    takes : Evidence P run results → Mapped P run results
    takes e =
        let (pairs, found, good) =
          HasOne-pair_up P selected results e.owned selected (All-contains selected) e.each in
        let fine : all (is_owned selected) results ≡ true =
          (all-IsOwned selected results).1 e.owned in
        record {
          health = e.health;
          pairs = pairs;
          mapped = rw (e.selects_some, e.no_repeats, fine, found);
          each = good;
        }
