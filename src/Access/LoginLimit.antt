-- ===== src/Access/LoginLimit.antt =====
-- LoginRateLimiter of lib/services/api_security.py. `time.monotonic()` is a natural number that does
-- not fall, and the dictionary of attempts a list of pairs with distinct keys.
use wifi_validation_framewor.Prelude.{
  ℕ, ◌-◌, String, Bool, true, false, Option, none, some, List, [], ◌∷◌, ◌++◌, leb, ltb, ◌is◌,
  if◌then◌else◌, length, filter, last?,
}

pub record LoginRateLimiter : Type 0 where
  pub window_seconds : ℕ
  pub max_attempts : ℕ
  pub attempts : List (String × List ℕ)

-- `self._attempts.get(key, [])`.
unfoldable pub attempts_of : String → List (String × List ℕ) → List ℕ
attempts_of key [] = []
attempts_of key ((k, items) ∷ rest) = if k is key then items else attempts_of key rest

-- `self._attempts[key] = items`.
unfoldable pub set_attempts : String → List ℕ → List (String × List ℕ) → List (String × List ℕ)
set_attempts key items [] = (key, items) ∷ []
set_attempts key items ((k, old) ∷ rest) =
    if k is key then (k, items) ∷ rest else (k, old) ∷ set_attempts key items rest

abbrev pub is_recent : ℕ → ℕ → ℕ → Bool
is_recent window current item = ltb (current - item) window

-- `v and current - v[-1] < self.window_seconds`.
abbrev pub last_is_recent : ℕ → ℕ → Option ℕ → Bool
last_is_recent window current none = false
last_is_recent window current (some item) = is_recent window current item

unfoldable pub prune : ℕ → ℕ → List (String × List ℕ) → List (String × List ℕ)
prune window current [] = []
prune window current ((k, items) ∷ rest) =
    let others = prune window current rest in
    if last_is_recent window current (last? items) then (k, items) ∷ others else others

unfoldable pub pruned_if_large : ℕ → ℕ → List (String × List ℕ) → List (String × List ℕ)
unfolding prune
pruned_if_large window current table =
    if ltb 2048 (length table) then prune window current table else table

-- Whether the attempt is allowed, and the limiter after it.
unfoldable pub allow : String → ℕ → LoginRateLimiter → Bool × LoginRateLimiter
unfolding attempts_of set_attempts pruned_if_large
allow key current s =
    let recent = filter (is_recent s.window_seconds current) (attempts_of key s.attempts) in
    if leb s.max_attempts (length recent)
    then (false, record s { attempts = set_attempts key recent s.attempts })
    else (
      true,
      record s {
        attempts =
            pruned_if_large s.window_seconds current
              (set_attempts key (recent ++ current ∷ []) s.attempts);
      },
    )
