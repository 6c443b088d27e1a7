-- ===== src/Sync/Failures.antt =====
-- A failure counted by the handler of `sync_pending` (lib/services/sync_service.py).
use wifi_validation_framewor.Prelude.{
  ℕ, ◌+◌, ◌<◌, String, ◌≡◌, ◌∙◌, refl, ap, List, [], ◌∷◌, arith, inl, inr, Bool-cases, leb, ◌is◌,
  ◌>>=◌, update_rows, map-update_rows, distinct, All,
}
use wifi_validation_framewor.Domain.Entities.{Time}
use wifi_validation_framewor.Sync.Queue.{SyncQueueItem, item_key, fail, failed_item}
use wifi_validation_framewor.Sync.Service.{RunnerSync, clock, handle_failure, retry_delay, seconds}
use wifi_validation_framewor.Sync.Keys.{log-SameQueue, IsBounded, IsSound, HasFailed, IsSound-again}

failed-IsBounded :
    (max n : ℕ) (next now : Time) (error : String) (i : SyncQueueItem)
    → i.attempt_count ≡ n
    → n < max
    → IsBounded max (failed_item next error now (leb max (n + 1)) i)
failed-IsBounded max n next now error i e h = record {
  at_most = omega (arith, e, h);
  live = λ p q. ground (arith, e, h);
  stuck = λ p. ground (arith, e, h);
}

-- UPDATE on the items with one identifier, which have all failed `n` times.
pub updated-IsBounded :
    (max n : ℕ) (k : String) (f : SyncQueueItem → SyncQueueItem) (rows : List SyncQueueItem)
    → ((i : SyncQueueItem) → i.attempt_count ≡ n → IsBounded max i → IsBounded max (f i))
    → HasFailed k n rows
    → All (IsBounded max) rows
    → All (IsBounded max) (update_rows item_key k f rows)
unfolding update_rows
updated-IsBounded max n k f [] h c all = tt
updated-IsBounded max n k f (i ∷ rows) h c all = elim (Bool-cases (item_key i is k)) [
  | inl e ↦ rw e (h i (c.0 e) all.0, updated-IsBounded max n k f rows h c.1 all.1)
  | inr e ↦ rw e (all.0, updated-IsBounded max n k f rows h c.1 all.1)
]

failed-IsSound :
    (s : RunnerSync) (n : ℕ) (k : String) (next now : Time) (error : String)
    → IsSound s
    → HasFailed k n s.queue
    → n < s.max_attempts
    → IsSound (record s { queue = fail k next error now (leb s.max_attempts (n + 1)) s.queue })
unfolding fail
failed-IsSound s n k next now error h c lt = record {
  positive = h.positive;
  keys =
      ap distinct (
        map-update_rows item_key k (failed_item next error now (leb s.max_attempts (n + 1))) s.queue
          (λ _. refl))
      ∙ h.keys;
  items =
      updated-IsBounded s.max_attempts n k _ s.queue
        (λ i e _. failed-IsBounded s.max_attempts n next now error i e lt) c h.items;
}

-- The handler of a failure counts it on the item and on the row alike.
pub handle_failure-IsSound :
    (i : SyncQueueItem) (error : String) (s : RunnerSync)
    → IsSound s
    → HasFailed (item_key i) i.attempt_count s.queue
    → i.attempt_count < s.max_attempts
    → IsSound (handle_failure i error s).1
unfolding handle_failure clock ◌>>=◌
handle_failure-IsSound i error s h c lt = IsSound-again _ _ ((log-SameQueue _ _ _).at _) (
    let after : IsSound _ =
      failed-IsSound s i.attempt_count (item_key i)
        (s.host.clock s.clock_calls + seconds (retry_delay (i.attempt_count + 1)))
        (s.host.clock (s.clock_calls + 1)) error h c lt in
    record { positive = after.positive; keys = after.keys; items = after.items })
