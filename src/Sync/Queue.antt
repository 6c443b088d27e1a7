-- ===== src/Sync/Queue.antt =====
-- The table `sync_queue`: lib/domain/sync.py and SQLiteSyncQueueRepository of
-- lib/repositories/sqlite.py. A method here is the function on the table's rows that its statements
-- make; a method that only reads gives its answer. `claim` reads and writes in one step.
use wifi_validation_framewor.Prelude.{
  ℕ, ◌+◌, ◌-◌, ◌/◌, String, Bool, true, false, not, ◌&&◌, ◌||◌, Option, none, some, List, [], ◌∷◌,
  ◌++◌, map, ◌==◌, leb, ltb, ◌is◌, if◌then◌else◌, Result, ok, raised, any, filter, find_row,
  has_row, update_rows, is_blank, text_le,
}
use wifi_validation_framewor.Domain.Entities.{Time}

pub data SyncState : Type 0 where
  queued in_flight acked failed blocked : SyncState

pub record SyncEnvelope : Type 0 where
  pub envelope_id : String
  pub runner_id : String
  pub run_id : String
  pub kind : String
  pub schema_version : String
  pub idempotency_key : String
  pub payload_json : String
  pub payload_sha256 : String
  pub created_at : Time

pub record SyncQueueItem : Type 0 where
  pub envelope : SyncEnvelope
  pub state : SyncState
  pub attempt_count : ℕ
  pub next_attempt_at : Option Time
  pub leased_at : Option Time
  pub last_error : Option String
  pub updated_at : Time

-- SyncEnvelope.__post_init__; `text_length` counts the characters of a text.
unfoldable pub check_envelope : (String → ℕ) → SyncEnvelope → Result String SyncEnvelope
unfolding is_blank
check_envelope text_length e =
    if any is_blank (
      e.envelope_id ∷ e.runner_id ∷ e.run_id ∷ e.kind ∷ e.schema_version ∷ e.idempotency_key
      ∷ e.payload_json ∷ e.payload_sha256 ∷ [])
    then raised "must not be empty"
    else if text_length e.payload_sha256 == 64
    then ok e
    else raised "payload_sha256 must be a SHA-256 digest"

abbrev pub item_key : SyncQueueItem → String
item_key i = i.envelope.envelope_id

abbrev pub idempotency_key_of : SyncQueueItem → String
idempotency_key_of i = i.envelope.idempotency_key

-- The columns that INSERT writes; `created_at` is the time of the insertion, not the envelope's.
abbrev pub queued_item : Time → SyncEnvelope → SyncQueueItem
queued_item now e = record {
  envelope = record e { created_at = now };
  state = queued;
  attempt_count = 0;
  next_attempt_at = some now;
  leased_at = none;
  last_error = none;
  updated_at = now;
}

-- The item that is answered, and the rows. The primary key and the foreign key to `runs` raise.
unfoldable pub enqueue :
    Time
    → (String → Bool)
    → SyncEnvelope
    → List SyncQueueItem
    → Result String (SyncQueueItem × List SyncQueueItem)
enqueue now run_exists e rows = elim (find_row idempotency_key_of e.idempotency_key rows) [
  | some existing ↦ ok (existing, rows)
  | none ↦
      if has_row item_key e.envelope_id rows || not (run_exists e.run_id)
      then raised "constraint failed"
      else ok (queued_item now e, rows ++ queued_item now e ∷ [])
]

unfoldable pub get : String → List SyncQueueItem → Option SyncQueueItem
get envelope_id rows = find_row item_key envelope_id rows

-- `datetime(a) <= datetime(b)` of SQLite, which reads whole seconds.
abbrev pub not_later : Time → Time → Bool
not_later a b = leb (a / 1000000) (b / 1000000)

-- `state IN ('QUEUED', 'FAILED')`.
abbrev pub is_waiting : SyncState → Bool
is_waiting queued = true
is_waiting failed = true
is_waiting _ = false

abbrev pub is_due : Time → Option Time → Bool
is_due now none = true
is_due now (some t) = not_later t now

abbrev pub is_ready : Time → SyncQueueItem → Bool
is_ready now i = is_waiting i.state && is_due now i.next_attempt_at

-- `ORDER BY created_at, envelope_id`.
abbrev comes_first : SyncQueueItem → SyncQueueItem → Bool
comes_first a b =
    ltb a.envelope.created_at b.envelope.created_at
    || (a.envelope.created_at == b.envelope.created_at
        && text_le a.envelope.envelope_id b.envelope.envelope_id)

unfoldable pub insert_item : SyncQueueItem → List SyncQueueItem → List SyncQueueItem
insert_item i [] = i ∷ []
insert_item i (j ∷ rest) =
    let later = insert_item i rest in if comes_first i j then i ∷ j ∷ rest else j ∷ later

unfoldable pub in_order : List SyncQueueItem → List SyncQueueItem
in_order [] = []
in_order (i ∷ rest) = insert_item i (in_order rest)

-- `LIMIT`.
unfoldable pub take {ℓ} : {A : Type ℓ} → ℕ → List A → List A
take n [] = []
take n (x ∷ xs) = if n == 0 then [] else x ∷ take (n - 1) xs

unfoldable pub list_ready : Time → ℕ → List SyncQueueItem → List SyncQueueItem
list_ready now limit rows = take limit (in_order (filter (is_ready now) rows))

abbrev pub leased : Time → SyncQueueItem → SyncQueueItem
leased until i = record i { state = in_flight; leased_at = some until; updated_at = until }

-- The item as it is claimed and the rows, or none where it is not waiting.
unfoldable pub claim :
    String → Time → List SyncQueueItem → Option (SyncQueueItem × List SyncQueueItem)
claim envelope_id until rows = elim (find_row item_key envelope_id rows) [
  | none ↦ none
  | some i ↦
      if is_waiting i.state
      then some (leased until i, update_rows item_key envelope_id (leased until) rows)
      else none
]

abbrev pub acked_item : Time → SyncQueueItem → SyncQueueItem
acked_item now i = record i {
  state = acked;
  leased_at = none;
  next_attempt_at = none;
  last_error = none;
  updated_at = now;
}

unfoldable pub ack : String → Time → List SyncQueueItem → List SyncQueueItem
ack envelope_id now rows = update_rows item_key envelope_id (acked_item now) rows

-- The error is kept whole; the source cuts it at 2000 characters.
abbrev pub failed_item : Time → String → Time → Bool → SyncQueueItem → SyncQueueItem
failed_item next_attempt_at error now is_blocked i = record i {
  state = if is_blocked then blocked else failed;
  attempt_count = i.attempt_count + 1;
  next_attempt_at = some next_attempt_at;
  leased_at = none;
  last_error = some error;
  updated_at = now;
}

unfoldable pub fail : String → Time → String → Time → Bool → List SyncQueueItem → List SyncQueueItem
fail envelope_id next_attempt_at error now is_blocked rows =
    update_rows item_key envelope_id (failed_item next_attempt_at error now is_blocked) rows

abbrev pub is_in_flight : SyncState → Bool
is_in_flight in_flight = true
is_in_flight _ = false

abbrev pub lease_is_over : Time → Option Time → Bool
lease_is_over now none = false
lease_is_over now (some t) = not_later t now

abbrev pub is_expired : Time → SyncQueueItem → Bool
is_expired now i = is_in_flight i.state && lease_is_over now i.leased_at

-- `COALESCE(last_error, 'lease expired')`.
abbrev pub or_expired : Option String → Option String
or_expired none = some "lease expired"
or_expired (some e) = some e

abbrev pub recovered : Time → SyncQueueItem → SyncQueueItem
recovered now i =
    if is_expired now i
    then record i {
      state = failed;
      leased_at = none;
      next_attempt_at = some now;
      last_error = or_expired i.last_error;
      updated_at = now;
    }
    else i

-- The rows; the number of them that changed is not read.
unfoldable pub recover_expired : Time → List SyncQueueItem → List SyncQueueItem
recover_expired now rows = map (recovered now) rows

unfoldable pub list_for_run : String → List SyncQueueItem → List SyncQueueItem
list_for_run run_id rows =
    in_order (filter (λ (i : SyncQueueItem). i.envelope.run_id is run_id) rows)
