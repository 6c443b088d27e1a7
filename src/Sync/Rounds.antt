-- ===== src/Sync/Rounds.antt =====
-- What a round of `sync_pending` (lib/services/sync_service.py) leaves of the row of its envelope and of
-- the other rows of the queue.
use wifi_validation_framewor.Prelude.{
  ℕ, ◌+◌, ◌^◌, String, ◌≡◌, refl, sym, ◌∙◌, ap, Bool, true, false, not, ◌&&◌, ◌||◌, none, some,
  List, arith, leb, ◌is◌, if◌then◌else◌, ok, raised, find_row, has_row, contains,
  find_row-update_self, find_row-update_ne, update_rows, ◌>>=◌,
}
use mathlib.Core.Path.{subst}
use wifi_validation_framewor.Domain.Entities.{Time}
use wifi_validation_framewor.Sync.Queue.{
  SyncQueueItem, acked, failed, blocked, item_key, ack, fail, acked_item,
}
use wifi_validation_framewor.Sync.Service.{
  RunnerSync, SyncAck, process, retry_delay, min_of, seconds, event_key, log, append_event, uuid,
  clock,
}
use wifi_validation_framewor.Sync.Delivery.{
  acknowledged, delivered_event, unlogged-queue, retry_delay_lem,
}

-- The row under the identifier changes as `P` says, and the rows under all other identifiers stay.
pub record Touches (id : String) (P : SyncQueueItem → SyncQueueItem → Type 0)
    (rows rows' : List SyncQueueItem) : Type 0 where
  pub one :
      (old : SyncQueueItem)
      → find_row item_key id rows ≡ some old
      → (new : SyncQueueItem) × (find_row item_key id rows' ≡ some new) × P old new
  pub others :
      (k : String) → (id is k) ≡ false → find_row item_key k rows' ≡ find_row item_key k rows

-- The row of an envelope that was taken by the cloud.
pub record IsDelivered (old new : SyncQueueItem) : Type 0 where
  pub envelope : new.envelope ≡ old.envelope
  pub attempts : new.attempt_count ≡ old.attempt_count
  pub state : new.state ≡ acked
  pub next : new.next_attempt_at ≡ none
  pub lease : new.leased_at ≡ none
  pub last_error : new.last_error ≡ none

-- The row of an envelope whose attempt of the given number, counted from 1, failed at the given time
-- under a bound on attempts.
pub record HasFailed (error : String) (at : Time) (attempt bound : ℕ) (old new : SyncQueueItem)
    : Type 0 where
  pub envelope : new.envelope ≡ old.envelope
  pub attempts : new.attempt_count ≡ old.attempt_count + 1
  pub state : new.state ≡ (if leb bound attempt then blocked else failed)
  pub next : new.next_attempt_at ≡ some (at + seconds (2 ^ min_of attempt 10))
  pub lease : new.leased_at ≡ none
  pub last_error : new.last_error ≡ some error

Touches-update :
    (id : String) (P : SyncQueueItem → SyncQueueItem → Type 0) (f : SyncQueueItem → SyncQueueItem)
    (rows : List SyncQueueItem)
    → ((i : SyncQueueItem) → item_key (f i) ≡ item_key i)
    → ((i : SyncQueueItem) → P i (f i))
    → Touches id P rows (update_rows item_key id f rows)
Touches-update id P f rows keys change = record {
  one = λ old found. (f old, find_row-update_self item_key id f rows (keys old) found, change old);
  others = λ k apart. find_row-update_ne item_key id k f rows keys apart;
}

ack-Touches :
    (id : String) (now : Time) (rows : List SyncQueueItem)
    → Touches id IsDelivered rows (ack id now rows)
unfolding ack
ack-Touches id now rows =
    Touches-update id IsDelivered (acked_item now) rows (λ i. refl)
      λ i. record {
        envelope = refl;
        attempts = refl;
        state = refl;
        next = refl;
        lease = refl;
        last_error = refl;
      }

fail-Touches :
    (id error : String) (at now : Time) (attempt bound : ℕ) (rows : List SyncQueueItem)
    → Touches id
        (HasFailed error at attempt bound)
        rows
        (fail id (at + seconds (retry_delay attempt)) error now (leb bound attempt) rows)
unfolding fail
fail-Touches id error at now attempt bound rows =
    Touches-update id (HasFailed error at attempt bound) _ rows (λ i. refl)
      λ i. record {
        envelope = refl;
        attempts = refl;
        state = refl;
        next = ap (λ d. some (at + seconds d)) (retry_delay_lem attempt).0;
        lease = refl;
        last_error = refl;
      }

Touches-failed :
    (id error : String) (at : Time) (attempt bound : ℕ) (rows mid rows' : List SyncQueueItem)
    → Touches id IsDelivered rows mid
    → Touches id (HasFailed error at attempt bound) mid rows'
    → Touches id (HasFailed error at attempt bound) rows rows'
Touches-failed id error at attempt bound rows mid rows' a b = record {
  one = λ old found.
      let (m, in_mid, d) = a.one old found in
      let (new, last, f) = b.one m in_mid in
      let count = ap (λ n. n + 1) d.attempts in
      (
        new,
        last,
        record {
          envelope = f.envelope ∙ d.envelope;
          attempts = f.attempts ∙ count;
          state = f.state;
          next = f.next;
          lease = f.lease;
          last_error = f.last_error;
        },
      );
  others = λ k apart. b.others k apart ∙ a.others k apart;
}

-- The event of a delivery can be stored: its identifier is new and its Run is there.
abbrev pub is_stored : RunnerSync → SyncQueueItem → Bool
is_stored s i =
    not (has_row event_key (s.host.uuid s.uuid_calls) s.events)
    && contains s.run_ids i.envelope.run_id

-- The clock is read for the acknowledgement and for the event.
abbrev unlogged : SyncQueueItem → RunnerSync → RunnerSync
unlogged i s =
    let t = acknowledged i s in
    record t { uuid_calls = s.uuid_calls + 1; clock_calls = s.clock_calls + 1 + 1 }

delivered_event-raised :
    (i : SyncQueueItem) (s : RunnerSync) (answer : SyncAck)
    → is_stored s i ≡ false
    → delivered_event i answer (acknowledged i s) ≡ (raised "constraint failed", unlogged i s)
unfolding log append_event uuid clock ◌>>=◌
delivered_event-raised i s answer h =
    let lost : (has_row event_key (s.host.uuid s.uuid_calls) s.events
          || not (contains s.run_ids i.envelope.run_id))
        ≡ true =
      ground arith in
    rw lost

-- Where the transport accepts the envelope but the event of the delivery cannot be stored, the envelope's
-- row, though delivered, ends as one whose attempt failed: it is counted, and the row waits for its next
-- attempt or is blocked; no other row changes.
pub process-unlogged :
    (i : SyncQueueItem) (s : RunnerSync) (answer : SyncAck)
    → s.host.publish s.publish_calls i.envelope ≡ ok answer
    → answer.accepted ≡ true
    → is_stored s i ≡ false
    → Touches i.envelope.envelope_id
        (HasFailed "constraint failed"
          (s.host.clock (s.clock_calls + 1 + 1))
          (i.attempt_count + 1)
          s.max_attempts)
        s.queue
        (process (some i) s).1.queue
process-unlogged i s answer h accepted lost =
    let id = i.envelope.envelope_id in
    let mid = ack id (s.host.clock s.clock_calls) s.queue in
    let at = s.host.clock (s.clock_calls + 1 + 1) in
    let n = i.attempt_count + 1 in
    subst (λ q. Touches id (HasFailed "constraint failed" at n s.max_attempts) s.queue q)
      (sym (
        unlogged-queue i s (unlogged i s) answer "constraint failed" h accepted
          (delivered_event-raised i s answer lost)))
      (Touches-failed id "constraint failed" at n s.max_attempts s.queue mid _
        (ack-Touches id (s.host.clock s.clock_calls) s.queue)
        (fail-Touches id "constraint failed" at _ n s.max_attempts mid))
