-- ===== src/Access/Replay.antt =====
-- What a client that repeats a request is answered (lib/services/api_security.py).
use wifi_validation_framewor.Prelude.{
  ℕ, String, ◌≡◌, refl, Bool, true, false, none, List, [], ◌∷◌, arith, any, filter, All, raised,
}
use wifi_validation_framewor.Domain.Entities.{Time}
use wifi_validation_framewor.Domain.Json.{Json}
use wifi_validation_framewor.Access.Idempotency.{
  assertion, IdempotencyStore, is_under, first_row, is_live, replay, get, insert_or_ignore,
  asserted, put,
}

-- A call of `put`, with its two readings of the clock.
pub record PutRequest : Type 0 where
  pub now : Time
  pub later : Time
  pub scope : String
  pub key : String
  pub request_sha256 : String
  pub response : Json
  pub status_code : ℕ

-- The store after a sequence of calls of `put`, whichever raise.
pub puts : List PutRequest → IdempotencyStore → IdempotencyStore
puts [] s = s
puts (q ∷ qs) s =
    puts qs (put q.now q.later q.scope q.key q.request_sha256 q.response q.status_code s).1

module _ {A : Type 0} (p : A → Bool) where
  first_row-none :
      (keep : A → Bool) (rows : List A)
      → All (λ r. p r ≡ true → keep r ≡ false) rows
      → first_row p (filter keep rows) ≡ none
  unfolding first_row
  first_row-none keep [] h = refl
  first_row-none keep (x ∷ rows) h = ground (arith, h.0, first_row-none keep rows h.1)

module _ (now later : Time) (scope key sha : String) (response : Json) (status : ℕ)
    (s : IdempotencyStore) where
  -- Once every row under a key has expired, `put` under that key raises an assertion and writes
  -- nothing, whatever the request: the expired row keeps the new one out and is not read.
  pub put-expired :
      any (is_under scope key) s.rows ≡ true
      → All (λ r. is_under scope key r ≡ true → is_live later r ≡ false) s.rows
      → put now later scope key sha response status s ≡ (raised assertion, s)
  unfolding put insert_or_ignore get replay asserted
  put-expired held expired =
      rw (held, first_row-none (is_under scope key) (is_live later) s.rows expired)
