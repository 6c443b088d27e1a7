-- ===== src/Sync/Service.antt =====
-- `HttpSyncTransport.publish` and `RunnerSyncService.sync_pending` of lib/services/sync_service.py.
-- The object's clock, the identifiers, the transport and the printing of numbers are a host's. The
-- counters, which are local variables of the source, are part of the state, since an exception
-- leaves them as they are.
use wifi_validation_framewor.Prelude.{
  ℕ, ◌+◌, ◌*◌, ◌^◌, String, Bool, true, false, not, ◌||◌, Option, none, some, List, [], ◌∷◌, ◌++◌,
  ◌==◌, leb, ◌is◌, if◌then◌else◌, Result, ok, raised, Method, pure, reads, writes, lift, reject_if,
  handling, ◌>>=◌, ◌>>◌, for_each, contains, has_row,
}
use wifi_validation_framewor.Domain.Entities.{Time, LifecycleEvent}
use wifi_validation_framewor.Sync.Queue.{
  SyncEnvelope, SyncQueueItem, list_ready, claim, ack, fail, recover_expired,
}

pub record SyncAck : Type 0 where
  pub accepted : Bool
  pub remote_id : Option String
  pub message : String

-- What `requests.post` gives: an exception, or a status, a text and the remote identifier in its body.
pub data Response : Type 0 where
  no_response : String → Response
  response : ℕ → String → Option String → Response

abbrev is_success : ℕ → Bool
is_success status = status == 200 || status == 201 || status == 202 || status == 204

-- Every failure is a SyncTransportError; its text is kept without the values that it reports.
unfoldable pub publish_http : Response → Result String SyncAck
publish_http (no_response error) = raised error
publish_http (response status text remote_id) =
    if is_success status
    then ok (record { accepted = true; remote_id = remote_id; message = "" })
    else if status == 408
        || status == 409
        || status == 429
        || status == 500
        || status == 502
        || status == 503
        || status == 504
    then raised "retryable sync response"
    else raised "non-retryable sync response"

-- The n-th call of each callable gives the n-th value.
pub record Host : Type 0 where
  pub clock : ℕ → Time
  pub uuid : ℕ → String
  pub publish : ℕ → SyncEnvelope → Result String SyncAck
  pub number_text : ℕ → String

pub record Counters : Type 0 where
  pub delivered : ℕ
  pub failed : ℕ
  pub blocked : ℕ

pub record RunnerSync : Type 0 where
  pub host : Host
  pub lease_seconds : ℕ
  pub max_attempts : ℕ
  pub clock_calls : ℕ
  pub uuid_calls : ℕ
  pub publish_calls : ℕ
  pub run_ids : List String
  pub queue : List SyncQueueItem
  pub events : List LifecycleEvent
  pub counters : Counters

abbrev pub Action : Type 0 → Type 0
Action = Method RunnerSync String

unfoldable pub clock : Action Time
clock = writes λ s. (s.host.clock s.clock_calls, record s { clock_calls = s.clock_calls + 1 })

unfoldable pub uuid : Action String
uuid = writes λ s. (s.host.uuid s.uuid_calls, record s { uuid_calls = s.uuid_calls + 1 })

-- `transport.publish(envelope)`.
unfoldable pub publish : SyncEnvelope → Action SyncAck
publish e = do
  answer ←
      writes
        λ s. (s.host.publish s.publish_calls e, record s { publish_calls = s.publish_calls + 1 })
  lift answer

abbrev pub event_key : LifecycleEvent → String
event_key e = e.event_id

-- EventRepository.append, with the primary key and the foreign key to `runs`.
unfoldable pub append_event : LifecycleEvent → Action (Unit {0})
append_event e = do
  s ← reads (λ s. s)
  reject_if (has_row event_key e.event_id s.events || not (contains s.run_ids e.run_id))
      "constraint failed"
  writes λ s. (tt, record s { events = s.events ++ e ∷ [] })

unfoldable pub log : String → String → List (String × Option String) → Action (Unit {0})
log run_id event_type details = do
  event_id ← uuid
  now ← clock
  append_event (record {
    event_id = event_id;
    run_id = run_id;
    event_type = event_type;
    occurred_at = now;
    attempt_id = none;
    test_result_id = none;
    details = details;
  })

-- `timedelta(seconds=n)`, in microseconds.
abbrev pub seconds : ℕ → ℕ
seconds n = n * 1000000

abbrev pub min_of : ℕ → ℕ → ℕ
min_of a b = if leb a b then a else b

-- `min(3600, 2 ** min(attempts, 10))`.
abbrev pub retry_delay : ℕ → ℕ
retry_delay attempts = min_of 3600 (2 ^ min_of attempts 10)

abbrev pub count_delivered : Counters → Counters
count_delivered c = record c { delivered = c.delivered + 1 }

abbrev pub count_failure : Bool → Counters → Counters
count_failure true c = record c { blocked = c.blocked + 1 }
count_failure false c = record c { failed = c.failed + 1 }

-- `ack.message or "transport rejected envelope"`.
abbrev pub rejection : String → String
rejection message = if message is "" then "transport rejected envelope" else message

-- The body of the `try`.
unfoldable pub deliver : SyncQueueItem → Action (Unit {0})
deliver i = do
  answer ← publish i.envelope
  reject_if (not answer.accepted) (rejection answer.message)
  now ← clock
  writes λ s. (tt, record s { queue = ack i.envelope.envelope_id now s.queue })
  writes λ s. (tt, record s { counters = count_delivered s.counters })
  log i.envelope.run_id "SYNC_DELIVERED"
      (("envelope_id", some i.envelope.envelope_id) ∷ ("remote_id", answer.remote_id) ∷ [])

abbrev pub failure_event : Bool → String
failure_event true = "SYNC_BLOCKED"
failure_event false = "SYNC_FAILED"

-- The body of `except Exception`, with the claimed item.
unfoldable pub handle_failure : SyncQueueItem → String → Action (Unit {0})
handle_failure i error = do
  s ← reads (λ s. s)
  let attempts = i.attempt_count + 1
  let blocked_now = leb s.max_attempts attempts
  from ← clock
  let next_attempt = from + seconds (retry_delay attempts)
  now ← clock
  writes λ t. (
    tt,
    record t { queue = fail i.envelope.envelope_id next_attempt error now blocked_now t.queue },
  )
  writes λ t. (tt, record t { counters = count_failure blocked_now t.counters })
  log i.envelope.run_id (failure_event blocked_now) (
      ("envelope_id", some i.envelope.envelope_id)
      ∷ ("attempt", some (s.host.number_text attempts))
      ∷ ("error", some error)
      ∷ [])

unfoldable pub process : Option SyncQueueItem → Action (Unit {0})
process none = pure tt
process (some i) = handling (deliver i) (handle_failure i)

abbrev pub claimed : Option (SyncQueueItem × List SyncQueueItem) → Action (Option SyncQueueItem)
claimed none s = (ok none, s)
claimed (some (i, rows)) s = (ok (some i), record s { queue = rows })

unfoldable pub claim_item : String → Time → Action (Option SyncQueueItem)
claim_item envelope_id until s = claimed (claim envelope_id until s.queue) s

-- One round of the loop.
unfoldable pub sync_item : Time → SyncQueueItem → Action (Unit {0})
sync_item now i = do
  s ← reads (λ s. s)
  got ← claim_item i.envelope.envelope_id (now + seconds s.lease_seconds)
  process got

abbrev pub no_counts : Counters
no_counts = record { delivered = 0; failed = 0; blocked = 0 }

unfoldable pub sync_pending : ℕ → Action Counters
sync_pending limit = do
  now ← clock
  writes λ s. (tt, record s { queue = recover_expired now s.queue; counters = no_counts })
  items ← reads (λ s. list_ready now limit s.queue)
  for_each (sync_item now) items
  reads (λ s. s.counters)
