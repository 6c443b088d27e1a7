-- ===== src/Access/Window.antt =====
-- The limiter of login attempts (lib/services/api_security.py) against the rule that it stands for:
-- an attempt is allowed where fewer than `max_attempts` of the key's allowed attempts, of all times,
-- are younger than the window.
use mathlib.Core.Path.{ap₂}
use wifi_validation_framewor.Prelude.{
  ℕ, ◌≤◌, String, ◌≡◌, refl, ◌∙◌, Bool, true, false, List, [], ◌∷◌, ◌++◌, arith, inl, inr,
  Bool-cases, leb, ◌is◌, if◌then◌else◌, length, filter, All, All-map, All-filter, filter-append,
  eq_iff,
}
use wifi_validation_framewor.Access.LoginLimit.{
  LoginRateLimiter, attempts_of, set_attempts, is_recent, pruned_if_large, allow,
}
use wifi_validation_framewor.Access.Attempts.{
  Sorted, IsTable, Sorted-filter, All-snoc, Sorted-snoc, filter-recent, attempts_of-set,
  IsTable-later, set-IsTable, pruned-IsTable, pruned-recent, attempts-IsTable,
}

-- The answers to a sequence of attempts, each a key and a time.
pub decisions : List (String × ℕ) → LoginRateLimiter → List Bool
decisions [] s = []
decisions ((key, current) ∷ rest) s =
    (allow key current s).0 ∷ decisions rest (allow key current s).1

-- The rule: all that it keeps is when each key was allowed.
abbrev pub History : Type 0
History = String → List ℕ

pub permits : ℕ → ℕ → History → String → ℕ → Bool
permits window max_attempts h key current =
    if leb max_attempts (length (filter (is_recent window current) (h key))) then false else true

pub noted : History → String → ℕ → History
noted h key current j = if key is j then h j ++ current ∷ [] else h j

pub permitted : ℕ → ℕ → List (String × ℕ) → History → List Bool
permitted window max_attempts [] h = []
permitted window max_attempts ((key, current) ∷ rest) h =
    permits window max_attempts h key current
    ∷ permitted window max_attempts rest
        (if permits window max_attempts h key current then noted h key current else h)

-- The clock does not fall.
abbrev pub Rises : ℕ → List (String × ℕ) → Type 0
Rises now [] = Unit
Rises now ((key, current) ∷ rest) = (now ≤ current) × Rises current rest

-- The limiter and the rule agree on what still counts.
record Simulates (s : LoginRateLimiter) (now : ℕ) (h : History) : Type 0 where
  table : IsTable now s.attempts
  agree :
      (j : String) (at : ℕ)
      → now ≤ at
      → filter (is_recent s.window_seconds at) (attempts_of j s.attempts)
        ≡ filter (is_recent s.window_seconds at) (h j)

module _ (s : LoginRateLimiter) (now current : ℕ) (h : History) (key : String) where
  open s use {window_seconds, max_attempts, attempts}

  abbrev recent : List ℕ
  recent = filter (is_recent window_seconds current) (attempts_of key attempts)

  allow-permits :
      now ≤ current
      → Simulates s now h
      → (allow key current s).0 ≡ permits window_seconds max_attempts h key current
  unfolding allow permits
  allow-permits le sim = rw (← sim.agree key current le) (ground arith)

  module _ (le : now ≤ current) (sim : Simulates s now h) where
    kept : Sorted recent × All (λ x. x ≤ current) recent
    kept =
        let (sorted, bound) = attempts-IsTable now key attempts sim.table in
        (
          Sorted-filter _ _ sorted,
          All-filter _ _ _ (All-map (λ x. x ≤ now) (λ x. x ≤ current) (λ x p. omega arith) _ bound),
        )

    refused-Simulates :
        Simulates (record s { attempts = set_attempts key recent attempts }) current h
    refused-Simulates = record {
      table =
          set-IsTable current key recent attempts kept.0 kept.1
            (IsTable-later now current attempts le sim.table);
      agree = λ j at later.
          rw (attempts_of-set key j recent attempts) (elim (Bool-cases (key is j)) [
            | inl e ↦
                let same : key ≡ j = (eq_iff key j).0 e in
                rw e (
                  filter-recent window_seconds current at later (attempts_of key attempts)
                  ∙ rw same (sim.agree j at (omega arith)))
            | inr e ↦ rw e (sim.agree j at (omega arith))
          ]);
    }

    allowed-Simulates :
        Simulates
          (record s {
            attempts =
                pruned_if_large window_seconds current
                  (set_attempts key (recent ++ current ∷ []) attempts);
          })
          current
          (noted h key current)
    unfolding noted
    allowed-Simulates =
        let t = set_attempts key (recent ++ current ∷ []) attempts in
        let is_table : IsTable current t =
          set-IsTable current key (recent ++ current ∷ []) attempts
            (Sorted-snoc recent current kept.0 kept.1)
            (All-snoc (λ x. x ≤ current) recent current kept.1 (omega arith))
            (IsTable-later now current attempts le sim.table) in
        record {
          table = pruned-IsTable window_seconds current current t is_table;
          agree = λ j at later.
              pruned-recent window_seconds current at current j t later is_table
              ∙ rw (attempts_of-set key j (recent ++ current ∷ []) attempts)
                  (elim (Bool-cases (key is j)) [
                    | inl e ↦
                        let same : key ≡ j = (eq_iff key j).0 e in
                        rw (
                          e,
                          filter-append (is_recent window_seconds at) recent (current ∷ []),
                          filter-append (is_recent window_seconds at) (h j) (current ∷ []),
                          filter-recent window_seconds current at later (attempts_of key attempts),
                          same,
                          sim.agree j at (omega arith),
                        )
                    | inr e ↦ rw e (sim.agree j at (omega arith))
                  ]);
        }

    allow-Simulates :
        Simulates
          (allow key current s).1
          current
          (if permits window_seconds max_attempts h key current then noted h key current else h)
    unfolding allow permits
    allow-Simulates = elim (Bool-cases (leb max_attempts (length recent))) [
      | inl full ↦ rw (← sim.agree key current le, full) refused-Simulates
      | inr room ↦ rw (← sim.agree key current le, room) allowed-Simulates
    ]

    allow-settings :
        ((allow key current s).1.window_seconds ≡ window_seconds)
        × ((allow key current s).1.max_attempts ≡ max_attempts)
    unfolding allow
    allow-settings = (ground arith, ground arith)

simulation :
    (calls : List (String × ℕ)) (s : LoginRateLimiter) (now : ℕ) (h : History)
    → Rises now calls
    → Simulates s now h
    → decisions calls s ≡ permitted s.window_seconds s.max_attempts calls h
unfolding decisions permitted
simulation [] s now h rises sim = refl
simulation ((key, current) ∷ calls) s now h rises sim =
    let (same_window, same_max) = allow-settings s now current h key rises.0 sim in
    let next =
      simulation calls (allow key current s).1 current _ rises.1
        (allow-Simulates s now current h key rises.0 sim) in
    ap₂ ◌∷◌ (allow-permits s now current h key rises.0 sim) (rw (same_window, same_max) at next)

-- A new limiter answers any sequence of attempts, at times that do not fall, as the rule does that
-- keeps every allowed attempt for ever: neither forgetting the old attempts of a key nor pruning the
-- dictionary shows.
pub decisions-permitted :
    (calls : List (String × ℕ)) (window max_attempts : ℕ)
    → Rises 0 calls
    → decisions calls
        (record { window_seconds = window; max_attempts = max_attempts; attempts = [] })
      ≡ permitted window max_attempts calls (λ _. [])
unfolding attempts_of
decisions-permitted calls window max_attempts rises =
    simulation calls _ 0 (λ _. []) rises (record { table = tt; agree = λ j at le. refl })
