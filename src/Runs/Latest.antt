-- ===== src/Runs/Latest.antt =====
-- Which results `_latest_attempt_results` reads (lib/services/run_service.py).
use wifi_validation_framewor.Prelude.{
  ◌≤◌, String, ◌≡◌, refl, ◌⊎◌, inl, inr, Bool, true, false, Option, none, some, List, [], ◌∷◌,
  arith, Bool-cases, ltb, leb, ◌is◌, filter, map, All, All-map, sort_by,
}
use wifi_validation_framewor.Domain.Entities.{Attempt, TestResult}
use wifi_validation_framewor.Runs.Store.{RunService}
use wifi_validation_framewor.Runs.Repositories.{
  insert_numbered, by_number, attempts_of, results_of, result_key, as_read,
}
use wifi_validation_framewor.Runs.Outcome.{latest_from, latest_attempt, results_in}

abbrev pub IsIn : Attempt → List Attempt → Type 0
IsIn a [] = ⊥
IsIn a (x ∷ xs) = (x ≡ a) ⊎ IsIn a xs

-- The results are those of an attempt of the Run that no other attempt of it outnumbers, or there are
-- none for want of an attempt or of a table of results.
pub data AreLatest (s : RunService) (run_id : String) (results : List TestResult) : Type 0 where
  no_table : s.test_results ≡ none → results ≡ [] → AreLatest s run_id results
  no_attempt :
      All (λ (a : Attempt). (a.run_id is run_id) ≡ false) s.attempts
      → results ≡ []
      → AreLatest s run_id results
  of_attempt :
      (rows : List TestResult) (a : Attempt)
      → s.test_results ≡ some rows
      → IsIn a s.attempts
      → (a.run_id is run_id) ≡ true
      → All (λ (b : Attempt). (b.run_id is run_id) ≡ true → b.number ≤ a.number) s.attempts
      → results
        ≡ map as_read
            (sort_by result_key (filter (λ (r : TestResult). r.attempt_id is a.attempt_id) rows))
      → AreLatest s run_id results

-- The attempt is one of the list, and none has a larger number.
record IsLargest (a : Attempt) (xs : List Attempt) : Type 0 where
  among : IsIn a xs
  bound : All (λ (b : Attempt). b.number ≤ a.number) xs

latest_from-IsLargest :
    (best : Attempt) (rest : List Attempt) → IsLargest (latest_from best rest) (best ∷ rest)
unfolding latest_from
latest_from-IsLargest best [] = record { among = inl refl; bound = (omega arith, tt) }
latest_from-IsLargest best (a ∷ rest) = elim (Bool-cases (ltb best.number a.number)) [
  | inl e ↦
      let l = latest_from-IsLargest a rest in
      let more : best.number ≤ a.number = ground arith in
      rw e (record { among = inr l.among; bound = (let le = l.bound.0 in omega arith, l.bound) })
  | inr e ↦
      let l = latest_from-IsLargest best rest in
      let less : a.number ≤ best.number = ground arith in
      rw e (record {
        among = elim l.among [ inl same ↦ inl same | inr later ↦ inr (inr later) ];
        bound = (l.bound.0, (let le = l.bound.0 in omega arith, l.bound.1));
      })
]

IsIn-insert : (a x : Attempt) (l : List Attempt) → IsIn a (insert_numbered x l) → IsIn a (x ∷ l)
unfolding insert_numbered
IsIn-insert a x [] h = h
IsIn-insert a x (y ∷ l) h = elim (Bool-cases (leb x.number y.number)) [
  | inl e ↦ rw e at h
  | inr e ↦ later (λ k. IsIn-insert a x l k) (rw e at h)
]
  where
    later :
        (IsIn a (insert_numbered x l) → IsIn a (x ∷ l))
        → IsIn a (y ∷ insert_numbered x l)
        → IsIn a (x ∷ y ∷ l)
    later rest (inl same) = inr (inl same)
    later rest (inr k) = elim (rest k) [ inl s ↦ inl s | inr m ↦ inr (inr m) ]

All-insert :
    (P : Attempt → Type 0) (x : Attempt) (l : List Attempt)
    → All P (insert_numbered x l)
    → P x × All P l
unfolding insert_numbered
All-insert P x [] h = h
All-insert P x (y ∷ l) h = elim (Bool-cases (leb x.number y.number)) [
  | inl e ↦ rw e at h
  | inr e ↦
      let k : P y × All P (insert_numbered x l) = rw e at h in
      let (px, rest) = All-insert P x l k.1 in (px, (k.0, rest))
]

IsIn-by_number : (a : Attempt) (l : List Attempt) → IsIn a (by_number l) → IsIn a l
unfolding by_number
IsIn-by_number a [] h = h
IsIn-by_number a (x ∷ l) h = elim (IsIn-insert a x (by_number l) h) [
  | inl same ↦ inl same
  | inr later ↦ inr (IsIn-by_number a l later)
]

All-by_number : (P : Attempt → Type 0) (l : List Attempt) → All P (by_number l) → All P l
unfolding by_number
All-by_number P [] h = tt
All-by_number P (x ∷ l) h =
    let (px, rest) = All-insert P x (by_number l) h in (px, All-by_number P l rest)

IsIn-filter :
    (p : Attempt → Bool) (a : Attempt) (l : List Attempt)
    → IsIn a (filter p l)
    → IsIn a l × (p a ≡ true)
IsIn-filter p a [] h = elim h [ ]
IsIn-filter p a (x ∷ l) h = elim (Bool-cases (p x)) [
  | inl e ↦ kept (λ k. IsIn-filter p a l k) e (rw e at h)
  | inr e ↦ let (m, t) = IsIn-filter p a l (rw e at h) in (inr m, t)
]
  where
    kept :
        (IsIn a (filter p l) → IsIn a l × (p a ≡ true))
        → p x ≡ true
        → IsIn a (x ∷ filter p l)
        → IsIn a (x ∷ l) × (p a ≡ true)
    kept rest e (inl same) = (inl same, rw (← same) e)
    kept rest e (inr k) = let (m, t) = rest k in (inr m, t)

All-filtered :
    (P : Attempt → Type 0) (p : Attempt → Bool) (l : List Attempt)
    → All P (filter p l)
    → All (λ x. p x ≡ true → P x) l
All-filtered P p [] h = tt
All-filtered P p (x ∷ l) h = elim (Bool-cases (p x)) [
  | inl e ↦ let k : P x × All P (filter p l) = rw e at h in (λ _. k.0, All-filtered P p l k.1)
  | inr e ↦ (λ t. cc (t, e), All-filtered P p l (rw e at h))
]

pub results_in-AreLatest :
    (s : RunService) (run_id : String)
    → AreLatest s run_id (results_in s.test_results (attempts_of run_id s.attempts))
unfolding results_in latest_attempt attempts_of results_of
results_in-AreLatest s run_id = by_table s.test_results refl
  where
    of_run : Attempt → Bool
    of_run a = a.run_id is run_id

    found : List Attempt
    found = by_number (filter of_run s.attempts)

    by_attempts :
        (rows : List TestResult) (l : List Attempt)
        → s.test_results ≡ some rows
        → found ≡ l
        → AreLatest s run_id (results_in (some rows) l)
    by_attempts rows [] t e =
        let empty : All (λ _. ⊥) found = rw e tt in
        let none_of_run =
          All-filtered (λ _. ⊥) of_run s.attempts
            (All-by_number (λ _. ⊥) (filter of_run s.attempts) empty) in
        no_attempt (All-map _ _ (λ a k. missing a k) s.attempts none_of_run) refl
      where
        missing : (a : Attempt) → (of_run a ≡ true → ⊥) → of_run a ≡ false
        missing a k = elim (Bool-cases (of_run a)) [ inl y ↦ absurd (k y) | inr n ↦ n ]
    by_attempts rows (x ∷ l) t e =
        let largest = latest_from-IsLargest x l in
        let a = latest_from x l in
        let among : IsIn a found = rw e largest.among in
        let bound : All (λ (b : Attempt). b.number ≤ a.number) found = rw e largest.bound in
        let (held, ours) =
          IsIn-filter of_run a s.attempts (IsIn-by_number a (filter of_run s.attempts) among) in
        of_attempt rows a t held ours
          (All-filtered _ of_run s.attempts (All-by_number _ (filter of_run s.attempts) bound)) refl

    by_table :
        (o : Option (List TestResult))
        → s.test_results ≡ o
        → AreLatest s run_id (results_in o found)
    by_table none e = no_table e refl
    by_table (some rows) e = by_attempts rows found e refl
