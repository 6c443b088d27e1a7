-- ===== src/Examples/SyncExamples.antt =====
-- The theorems on the delivery queue at one envelope.
use wifi_validation_framewor.Prelude.{
  ◌+◌, ◌≤◌, ◌^◌, ◌≡◌, refl, true, some, [], ◌∷◌, arith, ok, raised, find_row, has_row,
}
use wifi_validation_framewor.Sync.Queue.{SyncEnvelope, SyncQueueItem, queued_item, enqueue}
use wifi_validation_framewor.Sync.Service.{
  Host, RunnerSync, SyncAck, process, retry_delay, sync_pending, no_counts,
}
use wifi_validation_framewor.Sync.Keys.{IsSound}
use wifi_validation_framewor.Sync.Attempts.{sync_pending-IsSound}
use wifi_validation_framewor.Sync.Delivery.{enqueue-again, retry_delay_lem}
use wifi_validation_framewor.Sync.Rounds.{Touches, HasFailed, process-unlogged}
use wifi_validation_framewor.Examples.Data.{nth_id}

abbrev envelope : SyncEnvelope
envelope = record {
  envelope_id = "e1";
  runner_id = "runner";
  run_id = "r1";
  kind = "RUN_SNAPSHOT";
  schema_version = "runner-sync.v1";
  idempotency_key = "r1:abc";
  payload_json = "{}";
  payload_sha256 = "abc";
  created_at = 1;
}

abbrev agreed : SyncAck
agreed = record { accepted = true; remote_id = some "remote"; message = "" }

abbrev accepting : Host
accepting = record {
  clock = λ n. n + 1000000;
  uuid = nth_id;
  publish = λ n e. ok agreed;
  number_text = λ n. "n";
}

abbrev refusing : Host
refusing = record {
  clock = λ n. n + 1000000;
  uuid = nth_id;
  publish = λ n e. raised "timeout";
  number_text = λ n. "n";
}

abbrev waiting_item : SyncQueueItem
waiting_item = queued_item 5 envelope

abbrev accepting_sync : RunnerSync
accepting_sync = record {
  host = accepting;
  lease_seconds = 120;
  max_attempts = 2;
  clock_calls = 0;
  uuid_calls = 0;
  publish_calls = 0;
  run_ids = "r1" ∷ [];
  queue = waiting_item ∷ [];
  events = [];
  counters = no_counts;
}

abbrev refusing_sync : RunnerSync
refusing_sync = record accepting_sync { host = refusing }

waiting-IsSound : IsSound refusing_sync
waiting-IsSound = record {
  positive = omega arith;
  keys = refl;
  items = (record { at_most = omega arith; live = λ p q. omega arith; stuck = λ p. cc p }, tt);
}

sync_pending-IsSound_example : IsSound (sync_pending 20 refusing_sync).1
sync_pending-IsSound_example = sync_pending-IsSound 20 refusing_sync waiting-IsSound

enqueue-again_example :
    enqueue 9 (λ k. true) (record envelope { kind = "OTHER" }) (waiting_item ∷ [])
    ≡ ok (waiting_item, waiting_item ∷ [])
unfolding enqueue find_row has_row
enqueue-again_example =
    enqueue-again 5 9 (λ k. true) envelope (record envelope { kind = "OTHER" }) []
      (waiting_item ∷ []) waiting_item refl refl

retry_delay_lem_example : (retry_delay 12 ≡ 2 ^ 10) × (retry_delay 12 ≤ 1024)
retry_delay_lem_example = retry_delay_lem 12

-- The Run is gone by the time its envelope is delivered.
abbrev orphaned_sync : RunnerSync
orphaned_sync = record accepting_sync { run_ids = [] }

process-unlogged_example :
    Touches "e1"
      (HasFailed "constraint failed" 1000002 1 2)
      (waiting_item ∷ [])
      (process (some waiting_item) orphaned_sync).1.queue
unfolding has_row
process-unlogged_example = process-unlogged waiting_item orphaned_sync agreed refl refl refl
