-- ===== src/Sync/Delivery.antt =====
-- What one envelope meets: its insertion into the queue and the branches of a round of
-- `sync_pending` (lib/repositories/sqlite.py, lib/services/sync_service.py).
use wifi_validation_framewor.Prelude.{
  ℕ, zero, suc, ◌+◌, ◌^◌, ◌≤◌, String, ◌≡◌, ◌∙◌, refl, sym, ap, Bool, true, false, not, ◌||◌, none,
  some, List, [], ◌∷◌, ◌++◌, arith, inl, inr, leb, Result, ok, raised, Bool, Bool-cases, some-eq,
  Option, ◌is◌, handling-ok, handling-raised, ◌>>=◌, if◌then◌else◌, find_row, find_row-appended,
  has_row, Option-cases,
}
use wifi_validation_framewor.Domain.Entities.{Time}
use wifi_validation_framewor.Sync.Queue.{
  SyncEnvelope, SyncQueueItem, item_key, idempotency_key_of, queued_item, enqueue, ack, fail,
}
use wifi_validation_framewor.Sync.Service.{
  Action, RunnerSync, SyncAck, clock, publish, log, deliver, handle_failure, retry_delay, min_of,
  process, count_delivered, seconds,
}
use wifi_validation_framewor.Sync.Keys.{log-SameQueue}

enqueue-found :
    (now : Time) (run_exists : String → Bool) (e : SyncEnvelope) (rows : List SyncQueueItem)
    (i : SyncQueueItem)
    → find_row idempotency_key_of e.idempotency_key rows ≡ some i
    → enqueue now run_exists e rows ≡ ok (i, rows)
unfolding enqueue
enqueue-found now run_exists e rows i h = rw (enqueue, h)

enqueue-new :
    (now : Time) (run_exists : String → Bool) (e : SyncEnvelope) (rows : List SyncQueueItem)
    → find_row idempotency_key_of e.idempotency_key rows ≡ none
    → enqueue now run_exists e rows ≡ (
        if has_row item_key e.envelope_id rows || not (run_exists e.run_id)
        then raised "constraint failed"
        else ok (queued_item now e, rows ++ queued_item now e ∷ []))
unfolding enqueue
enqueue-new now run_exists e rows h = rw (enqueue, h)

abbrev answer :
    Bool → SyncQueueItem × List SyncQueueItem → Result String (SyncQueueItem × List SyncQueueItem)
answer refused a = if refused then raised "constraint failed" else ok a

-- The item that was inserted is found under its key afterwards.
module _ (now later : Time) (run_exists : String → Bool) (e e' : SyncEnvelope)
    (rows rows' : List SyncQueueItem) (i : SyncQueueItem)
    (same : e'.idempotency_key ≡ e.idempotency_key) where
  stored_first :
      (refused : Bool)
      → find_row idempotency_key_of e.idempotency_key rows ≡ none
      → answer refused (queued_item now e, rows ++ queued_item now e ∷ []) ≡ ok (i, rows')
      → enqueue later run_exists e' rows' ≡ ok (i, rows')
  stored_first true missing h = cc h
  stored_first false missing h =
      let found : find_row idempotency_key_of e.idempotency_key (rows ++ queued_item now e ∷ [])
          ≡ some (queued_item now e) =
        find_row-appended idempotency_key_of e.idempotency_key rows (queued_item now e) missing
          refl in
      let item : queued_item now e ≡ i = cc h in
      let all : rows ++ queued_item now e ∷ [] ≡ rows' = cc h in
      enqueue-found later run_exists e' rows' i (cc (found, item, all, same))

-- Once an envelope is queued, queueing one with the same idempotency key, at any time and whatever
-- else it holds, answers the item that is there and writes nothing.
pub enqueue-again :
    (now later : Time) (run_exists : String → Bool) (e e' : SyncEnvelope)
    (rows rows' : List SyncQueueItem) (i : SyncQueueItem)
    → enqueue now run_exists e rows ≡ ok (i, rows')
    → e'.idempotency_key ≡ e.idempotency_key
    → enqueue later run_exists e' rows' ≡ ok (i, rows')
enqueue-again now later run_exists e e' rows rows' i h same =
    elim (Option-cases (find_row idempotency_key_of e.idempotency_key rows)) [
      | inr (old, found) ↦
          let p : ok (old, rows) ≡ ok (i, rows') =
            sym (enqueue-found now run_exists e rows old found) ∙ h in
          let same_item : old ≡ i = cc p in
          let same_rows : rows ≡ rows' = cc p in
          enqueue-found later run_exists e' rows' i (cc (found, same, same_item, same_rows))
      | inl missing ↦
          stored_first now later run_exists e e' rows rows' i same
            (has_row item_key e.envelope_id rows || not (run_exists e.run_id)) missing
            (sym (enqueue-new now run_exists e rows missing) ∙ h)
    ]

power_bound : (m : ℕ) → m ≤ 10 → 2 ^ m ≤ 1024
power_bound zero h = omega arith
power_bound (suc zero) h = omega arith
power_bound (suc (suc zero)) h = omega arith
power_bound (suc (suc (suc zero))) h = omega arith
power_bound (suc (suc (suc (suc zero)))) h = omega arith
power_bound (suc (suc (suc (suc (suc zero))))) h = omega arith
power_bound (suc (suc (suc (suc (suc (suc zero)))))) h = omega arith
power_bound (suc (suc (suc (suc (suc (suc (suc zero))))))) h = omega arith
power_bound (suc (suc (suc (suc (suc (suc (suc (suc zero)))))))) h = omega arith
power_bound (suc (suc (suc (suc (suc (suc (suc (suc (suc zero))))))))) h = omega arith
power_bound (suc (suc (suc (suc (suc (suc (suc (suc (suc (suc zero)))))))))) h = omega arith
power_bound (suc (suc (suc (suc (suc (suc (suc (suc (suc (suc (suc m))))))))))) h = omega (arith, h)

-- The delay before the next attempt is the power of two of the number of attempts up to the tenth, so it
-- is at most 1024 seconds and its cap of 3600 is never reached.
pub retry_delay_lem : (n : ℕ) → (retry_delay n ≡ 2 ^ min_of n 10) × (retry_delay n ≤ 1024)
retry_delay_lem n =
    (ground (arith, power_bound (min_of n 10)), ground (arith, power_bound (min_of n 10)))

-- What the handler makes of the queue.
handle_failure-queue :
    (i : SyncQueueItem) (error : String) (s : RunnerSync)
    → (handle_failure i error s).1.queue
      ≡ fail i.envelope.envelope_id
          (s.host.clock s.clock_calls + seconds (retry_delay (i.attempt_count + 1)))
          error
          (s.host.clock (s.clock_calls + 1))
          (leb s.max_attempts (i.attempt_count + 1))
          s.queue
unfolding handle_failure clock ◌>>=◌
handle_failure-queue i error s = ((log-SameQueue _ _ _).at _).queue

handled :
    (i : SyncQueueItem) (s t : RunnerSync) (error : String)
    → deliver i s ≡ (raised error, t)
    → process (some i) s ≡ handle_failure i error t
unfolding process
handled i s t error h = handling-raised (deliver i) (handle_failure i) s t error h

-- The exception that an answer of the transport leads to.
abbrev pub refusal : Result String SyncAck → Option String
refusal (raised error) = some error
refusal (ok answer) =
    if answer.accepted
    then none
    else some (if answer.message is "" then "transport rejected envelope" else answer.message)

abbrev published : RunnerSync → RunnerSync
published s = record s { publish_calls = s.publish_calls + 1 }

deliver-refused :
    (i : SyncQueueItem) (s : RunnerSync) (error : String)
    → refusal (s.host.publish s.publish_calls i.envelope) ≡ some error
    → deliver i s ≡ (raised error, published s)
unfolding deliver publish ◌>>=◌
deliver-refused i s error h = by_answer (s.host.publish s.publish_calls i.envelope) refl h
  where
    by_answer :
        (r : Result String SyncAck)
        → s.host.publish s.publish_calls i.envelope ≡ r
        → refusal r ≡ some error
        → deliver i s ≡ (raised error, published s)
    by_answer (raised e) eq k = rw eq (ap (λ x. (raised x, published s)) (some-eq k))
    by_answer (ok answer) eq k = elim (Bool-cases answer.accepted) [
      | inl taken ↦ cc (rw taken at k)
      | inr left ↦ rw (eq, left) (ap (λ x. (raised x, published s)) (some-eq (rw left at k)))
    ]

pub refused-queue :
    (i : SyncQueueItem) (s : RunnerSync) (error : String)
    → refusal (s.host.publish s.publish_calls i.envelope) ≡ some error
    → (process (some i) s).1.queue
      ≡ fail i.envelope.envelope_id
          (s.host.clock s.clock_calls + seconds (retry_delay (i.attempt_count + 1)))
          error
          (s.host.clock (s.clock_calls + 1))
          (leb s.max_attempts (i.attempt_count + 1))
          s.queue
refused-queue i s error h =
    ap (λ r. r.1.queue) (handled i s (published s) error (deliver-refused i s error h))
    ∙ handle_failure-queue i error (published s)

-- The state in which the event of a delivery is to be stored.
abbrev pub acknowledged : SyncQueueItem → RunnerSync → RunnerSync
acknowledged i s = record s {
  publish_calls = s.publish_calls + 1;
  clock_calls = s.clock_calls + 1;
  queue = ack i.envelope.envelope_id (s.host.clock s.clock_calls) s.queue;
  counters = count_delivered s.counters;
}

abbrev pub delivered_event : SyncQueueItem → SyncAck → Action (Unit {0})
delivered_event i answer =
    log i.envelope.run_id "SYNC_DELIVERED"
      (("envelope_id", some i.envelope.envelope_id) ∷ ("remote_id", answer.remote_id) ∷ [])

deliver-accepted :
    (i : SyncQueueItem) (s : RunnerSync) (answer : SyncAck)
    → s.host.publish s.publish_calls i.envelope ≡ ok answer
    → answer.accepted ≡ true
    → deliver i s ≡ delivered_event i answer (acknowledged i s)
unfolding deliver publish clock ◌>>=◌
deliver-accepted i s answer h accepted = rw (h, accepted)

pub delivered-queue :
    (i : SyncQueueItem) (s : RunnerSync) (answer : SyncAck)
    → s.host.publish s.publish_calls i.envelope ≡ ok answer
    → answer.accepted ≡ true
    → (delivered_event i answer (acknowledged i s)).0 ≡ ok tt
    → (process (some i) s).1.queue ≡ ack i.envelope.envelope_id (s.host.clock s.clock_calls) s.queue
unfolding process
delivered-queue i s answer h accepted stored =
    ap (λ r. r.1.queue)
      (handling-ok (deliver i) (handle_failure i) s (delivered_event i answer (acknowledged i s)).1
        tt
        (deliver-accepted i s answer h accepted
          ∙ ap (λ r. (r, (delivered_event i answer (acknowledged i s)).1)) stored))
    ∙ ((log-SameQueue _ _ _).at (acknowledged i s)).queue

pub unlogged-queue :
    (i : SyncQueueItem) (s t : RunnerSync) (answer : SyncAck) (error : String)
    → s.host.publish s.publish_calls i.envelope ≡ ok answer
    → answer.accepted ≡ true
    → delivered_event i answer (acknowledged i s) ≡ (raised error, t)
    → (process (some i) s).1.queue
      ≡ fail i.envelope.envelope_id
          (t.host.clock t.clock_calls + seconds (retry_delay (i.attempt_count + 1)))
          error
          (t.host.clock (t.clock_calls + 1))
          (leb t.max_attempts (i.attempt_count + 1))
          (ack i.envelope.envelope_id (s.host.clock s.clock_calls) s.queue)
unfolding process
unlogged-queue i s t answer error h accepted lost =
    let queue : (delivered_event i answer (acknowledged i s)).1.queue ≡ (acknowledged i s).queue =
      ((log-SameQueue _ _ _).at (acknowledged i s)).queue in
    ap (λ r. r.1.queue) (handled i s t error (deliver-accepted i s answer h accepted ∙ lost))
    ∙ handle_failure-queue i error t
    ∙ ap
        (λ q.
          fail i.envelope.envelope_id
            (t.host.clock t.clock_calls + seconds (retry_delay (i.attempt_count + 1))) error
            (t.host.clock (t.clock_calls + 1)) (leb t.max_attempts (i.attempt_count + 1)) q)
        (sym (ap (λ r. r.1.queue) lost) ∙ queue)
