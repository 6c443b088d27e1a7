-- ===== src/Access/Idempotency.antt =====
-- The table `api_idempotency`: IdempotencyStore of lib/services/api_security.py. Times are compared
-- as numbers: the ISO texts in UTC that the table holds sort as the times do.
use wifi_validation_framewor.Prelude.{
  ℕ, ◌+◌, ◌*◌, String, Bool, false, not, ◌&&◌, Option, none, some, List, [], ◌∷◌, ◌++◌, ltb, ◌is◌,
  if◌then◌else◌, any, filter, Result, ok, raised,
}
use wifi_validation_framewor.Domain.Entities.{Time}
use wifi_validation_framewor.Domain.Json.{Json}

pub data Error : Type 0 where
  request_security : String → Error
  assertion : Error

-- A row, which is also the IdempotencyRecord that is read from it.
pub record IdempotencyRecord : Type 0 where
  pub scope : String
  pub key : String
  pub request_sha256 : String
  pub response : Json
  pub status_code : ℕ
  pub expires_at : Time

pub record IdempotencyStore : Type 0 where
  pub ttl_seconds : ℕ
  pub rows : List IdempotencyRecord

-- `max(60, ttl_seconds)`, on an empty table.
unfoldable pub new_store : ℕ → IdempotencyStore
new_store ttl_seconds = record {
  ttl_seconds = if ltb 60 ttl_seconds then ttl_seconds else 60;
  rows = [];
}

abbrev pub is_under : String → String → IdempotencyRecord → Bool
is_under scope key r = (r.scope is scope) && (r.key is key)

-- `fetchone()` of a SELECT.
unfoldable pub first_row {ℓ} : {A : Type ℓ} → (A → Bool) → List A → Option A
first_row p [] = none
first_row p (r ∷ rows) = if p r then some r else first_row p rows

-- The rows that `DELETE ... WHERE expires_at <= ?` leaves.
abbrev pub is_live : Time → IdempotencyRecord → Bool
is_live now r = ltb now r.expires_at

-- `request_sha256 is not None and stored_hash and not compare_digest(...)`.
abbrev pub is_reused : Option String → String → Bool
is_reused none stored_hash = false
is_reused (some request_sha256) stored_hash =
    not (stored_hash is "") && not (stored_hash is request_sha256)

unfoldable pub replay :
    Option String → Option IdempotencyRecord → Result Error (Option IdempotencyRecord)
replay request_sha256 none = ok none
replay request_sha256 (some r) =
    if is_reused request_sha256 r.request_sha256
    then raised (request_security "Idempotency-Key was already used for a different request")
    else ok (some r)

-- The DELETE of `get` is not committed: closing the connection undoes it, so the table stays.
unfoldable pub get :
    Time
    → String
    → String
    → Option String
    → IdempotencyStore
    → Result Error (Option IdempotencyRecord)
unfolding first_row replay
get now scope key request_sha256 s =
    replay request_sha256 (first_row (is_under scope key) (filter (is_live now) s.rows))

-- INSERT OR IGNORE: a row under the primary key, an expired one too, is kept.
unfoldable pub insert_or_ignore :
    IdempotencyRecord → List IdempotencyRecord → List IdempotencyRecord
insert_or_ignore r rows = if any (is_under r.scope r.key) rows then rows else rows ++ r ∷ []

-- `assert stored is not None`.
unfoldable pub asserted : Result Error (Option IdempotencyRecord) → Result Error IdempotencyRecord
asserted (raised e) = raised e
asserted (ok none) = raised assertion
asserted (ok (some r)) = ok r

-- The columns that `put` inserts.
abbrev pub new_record :
    Time → String → String → String → Json → ℕ → IdempotencyStore → IdempotencyRecord
new_record now scope key request_sha256 response status_code s = record {
  scope = scope;
  key = key;
  request_sha256 = request_sha256;
  response = response;
  status_code = status_code;
  expires_at = now + s.ttl_seconds * 1000000;
}

-- `put` reads the clock at `now`, and its call of `get` at `later`.
unfoldable pub put :
    Time
    → Time
    → String
    → String
    → String
    → Json
    → ℕ
    → IdempotencyStore
    → Result Error IdempotencyRecord × IdempotencyStore
unfolding get insert_or_ignore asserted
put now later scope key request_sha256 response status_code s =
    let r = new_record now scope key request_sha256 response status_code s in
    let t : IdempotencyStore = record s { rows = insert_or_ignore r s.rows } in
    (asserted (get later scope key (some request_sha256) t), t)
