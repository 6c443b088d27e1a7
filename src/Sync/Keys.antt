-- ===== src/Sync/Keys.antt =====
-- The parts of lib/services/sync_service.py that leave the queue alone, and what the rest keeps of it.
use mathlib.Core.Path.{subst}
use wifi_validation_framewor.Prelude.{
  ℕ, ◌≤◌, ◌<◌, String, ◌≡◌, ◌∙◌, refl, sym, ap, Bool, true, false, Option, List, map, ◌is◌, writes,
  IsPreorder, Respects, respects_rules, map-update_rows, distinct, All, All-update_rows,
}
use wifi_validation_framewor.Domain.Entities.{LifecycleEvent, Time}
use wifi_validation_framewor.Sync.Queue.{
  SyncState, acked, blocked, SyncEnvelope, SyncQueueItem, item_key, ack, acked_item,
}
use wifi_validation_framewor.Sync.Service.{
  RunnerSync, Action, clock, uuid, publish, append_event, log, deliver, count_delivered,
}

-- The queue and the bound on attempts are as they were.
pub record SameQueue (s t : RunnerSync) : Type 0 where
  pub queue : t.queue ≡ s.queue
  pub bound : t.max_attempts ≡ s.max_attempts

pub SameQueue-preorder : IsPreorder SameQueue
SameQueue-preorder = record {
  refl_at = λ s. record { queue = refl; bound = refl };
  trans_at = λ s t u p q. record { queue = q.queue ∙ p.queue; bound = q.bound ∙ p.bound };
}

pub writes-SameQueue :
    {A : Type 0} (f : RunnerSync → A × RunnerSync)
    → ((s : RunnerSync) → (f s).1.queue ≡ s.queue)
    → ((s : RunnerSync) → (f s).1.max_attempts ≡ s.max_attempts)
    → Respects {E = String} SameQueue (writes f)
unfolding writes
writes-SameQueue f h k = record { at = λ s. record { queue = h s; bound = k s } }

pub clock-SameQueue : Respects SameQueue clock
unfolding clock
clock-SameQueue = search writes-SameQueue

pub uuid-SameQueue : Respects SameQueue uuid
unfolding uuid
uuid-SameQueue = search writes-SameQueue

pub publish-SameQueue : (e : SyncEnvelope) → Respects SameQueue (publish e)
unfolding publish
publish-SameQueue e = search (respects_rules, SameQueue-preorder, writes-SameQueue)

append_event-SameQueue : (e : LifecycleEvent) → Respects SameQueue (append_event e)
unfolding append_event
append_event-SameQueue e = search (respects_rules, SameQueue-preorder, writes-SameQueue)

pub log-SameQueue :
    (k t : String) (d : List (String × Option String)) → Respects SameQueue (log k t d)
unfolding log
log-SameQueue k t d =
    search
      (respects_rules, SameQueue-preorder, clock-SameQueue, uuid-SameQueue, append_event-SameQueue)
      depth 9

abbrev pub is_acked : SyncState → Bool
is_acked acked = true
is_acked _ = false

abbrev pub is_blocked : SyncState → Bool
is_blocked blocked = true
is_blocked _ = false

-- How often an item has failed: never more than the bound, less than it while the item can be tried
-- again, and exactly the bound once it is blocked.
pub record IsBounded (max : ℕ) (i : SyncQueueItem) : Type 0 where
  pub at_most : i.attempt_count ≤ max
  pub live : is_blocked i.state ≡ false → is_acked i.state ≡ false → i.attempt_count < max
  pub stuck : is_blocked i.state ≡ true → i.attempt_count ≡ max

pub record IsSound (s : RunnerSync) : Type 0 where
  pub positive : 1 ≤ s.max_attempts
  pub keys : distinct (map item_key s.queue) ≡ true
  pub items : All (IsBounded s.max_attempts) s.queue

-- Every item with the identifier has failed `n` times.
abbrev pub HasFailed : String → ℕ → List SyncQueueItem → Type 0
HasFailed k n rows = All (λ i. (item_key i is k) ≡ true → i.attempt_count ≡ n) rows

-- A delivery keeps the queue sound and the counts of failures.
pub record Delivers (s t : RunnerSync) : Type 0 where
  pub bound : t.max_attempts ≡ s.max_attempts
  pub sound : IsSound s → IsSound t
  pub counts : (k : String) (n : ℕ) → HasFailed k n s.queue → HasFailed k n t.queue

pub Delivers-preorder : IsPreorder Delivers
Delivers-preorder = record {
  refl_at = λ s. record { bound = refl; sound = λ h. h; counts = λ k n h. h };
  trans_at = λ s t u p q. record {
    bound = q.bound ∙ p.bound;
    sound = λ h. q.sound (p.sound h);
    counts = λ k n h. q.counts k n (p.counts k n h);
  };
}

pub IsSound-again : (s t : RunnerSync) → SameQueue s t → IsSound s → IsSound t
IsSound-again s t e h = record {
  positive = subst (λ m. 1 ≤ m) (sym e.bound) h.positive;
  keys = ap (λ q. distinct (map item_key q)) e.queue ∙ h.keys;
  items =
      subst (λ q. All (IsBounded t.max_attempts) q) (sym e.queue)
        (subst (λ m. All (IsBounded m) s.queue) (sym e.bound) h.items);
}

pub Delivers-of_SameQueue : {A : Type 0} (m : Action A) → Respects SameQueue m → Respects Delivers m
Delivers-of_SameQueue m h = record {
  at = λ s. record {
    bound = (h.at s).bound;
    sound = IsSound-again s (m s).1 (h.at s);
    counts = λ k n c. subst (HasFailed k n) (sym (h.at s).queue) c;
  };
}

acked-IsBounded :
    (max : ℕ) (now : Time) (i : SyncQueueItem) → IsBounded max i → IsBounded max (acked_item now i)
acked-IsBounded max now i h = record { at_most = h.at_most; live = λ p q. cc q; stuck = λ p. cc p }

acked-Delivers :
    (k : String) (now : Time)
    → Respects {E = String} Delivers (writes λ s. (tt, record s { queue = ack k now s.queue }))
unfolding writes ack
acked-Delivers k now = record {
  at = λ s. record {
    bound = refl;
    sound = λ h. record {
      positive = h.positive;
      keys = ap distinct (map-update_rows item_key k (acked_item now) s.queue (λ _. refl)) ∙ h.keys;
      items =
          All-update_rows item_key (IsBounded s.max_attempts) k (acked_item now) s.queue
            (acked-IsBounded s.max_attempts now) h.items;
    };
    counts = λ j n c.
        All-update_rows item_key (λ i. (item_key i is j) ≡ true → i.attempt_count ≡ n) k
          (acked_item now) s.queue (λ i p. p) c;
  };
}

counted-Delivers :
    Respects {E = String} Delivers
      (writes λ s. (tt, record s { counters = count_delivered s.counters }))
unfolding writes
counted-Delivers = Delivers-of_SameQueue _ (writes-SameQueue _ (λ _. refl) (λ _. refl))

clock-Delivers : Respects Delivers clock
clock-Delivers = Delivers-of_SameQueue clock clock-SameQueue

publish-Delivers : (e : SyncEnvelope) → Respects Delivers (publish e)
publish-Delivers e = Delivers-of_SameQueue (publish e) (publish-SameQueue e)

log-Delivers : (k t : String) (d : List (String × Option String)) → Respects Delivers (log k t d)
log-Delivers k t d = Delivers-of_SameQueue (log k t d) (log-SameQueue k t d)

pub deliver-Delivers : (i : SyncQueueItem) → Respects Delivers (deliver i)
unfolding deliver
deliver-Delivers i =
    search
      (
        respects_rules, Delivers-preorder, clock-Delivers, publish-Delivers, log-Delivers,
        acked-Delivers, counted-Delivers,
      )
      depth 16
