-- ===== src/Sync/Attempts.antt =====
-- How often an envelope is tried by `sync_pending` (lib/services/sync_service.py).
use mathlib.Core.Path.{subst}
use wifi_validation_framewor.Prelude.{
  ℕ, ◌+◌, ◌<◌, String, ◌≡◌, ◌∙◌, refl, sym, ap, true, false, Option, none, some, List, [], ◌∷◌, map,
  arith, inl, inr, Bool-cases, ◌is◌, writes, ◌>>=◌, IsPreorder, Respects, respects_rules,
  if◌then◌else◌, Respects-handling_at, find_row, find_row-key, update_rows, map-update_rows,
  distinct, All, All-map, All-update_rows, All-find_row, found-only, Option-cases,
}
use wifi_validation_framewor.Domain.Entities.{Time}
use wifi_validation_framewor.Sync.Queue.{
  SyncState, SyncQueueItem, item_key, is_waiting, claim, leased, recover_expired, recovered,
  is_expired,
}
use wifi_validation_framewor.Sync.Service.{
  RunnerSync, Counters, clock, deliver, handle_failure, process, claimed, claim_item, sync_item,
  sync_pending, seconds,
}
use wifi_validation_framewor.Sync.Keys.{
  clock-SameQueue, IsBounded, IsSound, HasFailed, is_acked, is_blocked, Delivers, IsSound-again,
  deliver-Delivers,
}
use wifi_validation_framewor.Sync.Failures.{updated-IsBounded, handle_failure-IsSound}

-- The round's body on a claimed item that can be tried again.
process-IsSound :
    (i : SyncQueueItem) (s : RunnerSync)
    → IsSound s
    → HasFailed (item_key i) i.attempt_count s.queue
    → i.attempt_count < s.max_attempts
    → IsSound (process (some i) s).1
unfolding process
process-IsSound i s h c lt =
    let d : Delivers s (deliver i s).1 = (deliver-Delivers i).at s in
    Respects-handling_at (λ _ t. IsSound t) (handle_failure i) s (deliver i) (d.sound h)
      λ error _.
        handle_failure-IsSound i error (deliver i s).1 (d.sound h)
          (d.counts (item_key i) i.attempt_count c)
          (subst (λ m. i.attempt_count < m) (sym d.bound) lt)

leased-IsBounded :
    (max : ℕ) (until : Time) (i : SyncQueueItem)
    → i.attempt_count < max
    → IsBounded max i
    → IsBounded max (leased until i)
leased-IsBounded max until i lt h = record {
  at_most = h.at_most;
  live = λ _ _. lt;
  stuck = λ p. cc p;
}

waiting-live :
    (st : SyncState) → is_waiting st ≡ true → (is_blocked st ≡ false) × (is_acked st ≡ false)
waiting-live st h = (ground arith, ground arith)

-- A claim of a stored item that waits.
module _ (s : RunnerSync) (k : String) (until : Time) (old : SyncQueueItem) (h : IsSound s)
    (stored : find_row item_key k s.queue ≡ some old) (waits : is_waiting old.state ≡ true) where
  claimed_below : old.attempt_count < s.max_attempts
  claimed_below =
      let (p, q) = waiting-live old.state waits in
      (All-find_row item_key (IsBounded s.max_attempts) k s.queue h.items stored).live p q

  claimed_counts : HasFailed k old.attempt_count s.queue
  claimed_counts =
      All-map _ _ (λ x same e. ap (λ (i : SyncQueueItem). i.attempt_count) (same e)) s.queue
        (found-only item_key k s.queue h.keys stored)

  claim-IsSound : IsSound (record s { queue = update_rows item_key k (leased until) s.queue })
  claim-IsSound = record {
    positive = h.positive;
    keys = ap distinct (map-update_rows item_key k (leased until) s.queue (λ _. refl)) ∙ h.keys;
    items =
        updated-IsBounded s.max_attempts old.attempt_count k (leased until) s.queue
          (λ i e b.
            leased-IsBounded s.max_attempts until i
              (subst (λ n. n < s.max_attempts) (sym e) claimed_below) b)
          claimed_counts h.items;
  }

  claimed-processed :
      IsSound
        (process
          (some (leased until old))
          (record s { queue = update_rows item_key k (leased until) s.queue })).1
  claimed-processed =
      process-IsSound (leased until old)
        (record s { queue = update_rows item_key k (leased until) s.queue }) claim-IsSound
        (subst (λ j. HasFailed j old.attempt_count (update_rows item_key k (leased until) s.queue))
          (sym (find_row-key item_key k s.queue stored))
          (All-update_rows item_key
            (λ i. (item_key i is k) ≡ true → i.attempt_count ≡ old.attempt_count) k (leased until)
            s.queue (λ i p. p) claimed_counts))
        claimed_below

pub record Sounds (s t : RunnerSync) : Type 0 where
  pub sound : IsSound s → IsSound t

Sounds-preorder : IsPreorder Sounds
Sounds-preorder = record {
  refl_at = λ s. record { sound = λ h. h };
  trans_at = λ s t u p q. record { sound = λ h. q.sound (p.sound h) };
}

claim-missing :
    (k : String) (until : Time) (rows : List SyncQueueItem)
    → find_row item_key k rows ≡ none
    → claim k until rows ≡ none
unfolding claim
claim-missing k until rows h = rw (claim, h)

claim-stored :
    (k : String) (until : Time) (rows : List SyncQueueItem) (old : SyncQueueItem)
    → find_row item_key k rows ≡ some old
    → claim k until rows ≡ (
        if is_waiting old.state
        then some (leased until old, update_rows item_key k (leased until) rows)
        else none)
unfolding claim
claim-stored k until rows old h = rw (claim, h)

claim_process-IsSound :
    (k : String) (until : Time) (s : RunnerSync)
    → IsSound s
    → IsSound ((claim_item k until >>= process) s).1
unfolding claim_item process ◌>>=◌
claim_process-IsSound k until s h =
    let rest : Option (SyncQueueItem × List SyncQueueItem) → RunnerSync =
      λ r. (((λ t. claimed r t) >>= process) s).1 in
    elim (Option-cases (find_row item_key k s.queue)) [
      | inl missing ↦ subst (λ r. IsSound (rest r)) (sym (claim-missing k until s.queue missing)) h
      | inr (old, stored) ↦ elim (Bool-cases (is_waiting old.state)) [
        | inl waits ↦
            let p : claim k until s.queue
                ≡ some (leased until old, update_rows item_key k (leased until) s.queue) =
              rw waits at (claim-stored k until s.queue old stored) in
            subst (λ r. IsSound (rest r)) (sym p) (claimed-processed s k until old h stored waits)
        | inr busy ↦
            let p : claim k until s.queue ≡ none =
              rw busy at (claim-stored k until s.queue old stored) in
            subst (λ r. IsSound (rest r)) (sym p) h
      ]
    ]

sync_item-Sounds : (now : Time) (i : SyncQueueItem) → Respects Sounds (sync_item now i)
unfolding sync_item ◌>>=◌
sync_item-Sounds now i = record {
  at = λ s. record {
    sound = claim_process-IsSound i.envelope.envelope_id (now + seconds s.lease_seconds) s;
  };
}

recovered-IsBounded :
    (max : ℕ) (now : Time) (i : SyncQueueItem) → IsBounded max i → IsBounded max (recovered now i)
recovered-IsBounded max now i h = elim (Bool-cases (is_expired now i)) [
  | inl e ↦ rw e (record {
    at_most = h.at_most;
    live = λ _ _. h.live (ground arith) (ground arith);
    stuck = λ p. cc p;
  })
  | inr e ↦ rw e h
]

recovered-keys :
    (now : Time) (rows : List SyncQueueItem)
    → map item_key (recover_expired now rows) ≡ map item_key rows
unfolding recover_expired
recovered-keys now [] = refl
recovered-keys now (i ∷ rows) = ground (arith, recovered-keys now rows)

recovered-all :
    (max : ℕ) (now : Time) (rows : List SyncQueueItem)
    → All (IsBounded max) rows
    → All (IsBounded max) (recover_expired now rows)
unfolding recover_expired
recovered-all max now [] h = tt
recovered-all max now (i ∷ rows) h =
    (recovered-IsBounded max now i h.0, recovered-all max now rows h.1)

recover-Sounds :
    (now : Time) (c : Counters)
    → Respects {E = String} Sounds
        (writes λ s. (tt, record s { queue = recover_expired now s.queue; counters = c }))
unfolding writes
recover-Sounds now c = record {
  at = λ s. record {
    sound = λ h. record {
      positive = h.positive;
      keys = ap distinct (recovered-keys now s.queue) ∙ h.keys;
      items = recovered-all s.max_attempts now s.queue h.items;
    };
  };
}

clock-Sounds : Respects Sounds clock
clock-Sounds = record {
  at = λ s. record { sound = IsSound-again s (clock s).1 (clock-SameQueue.at s) };
}

sync_pending-Sounds : (limit : ℕ) → Respects Sounds (sync_pending limit)
unfolding sync_pending
sync_pending-Sounds limit =
    search (respects_rules, Sounds-preorder, clock-Sounds, recover-Sounds, sync_item-Sounds) depth 9

-- A run over the queue, whatever the transport and the event table do in it and whether it returns or
-- raises, keeps the queue sound: identifiers stay distinct, no envelope has failed more often than
-- the bound allows, one that can be tried again has failed less often, and a blocked one exactly that
-- often.
pub sync_pending-IsSound :
    (limit : ℕ) (s : RunnerSync) → IsSound s → IsSound (sync_pending limit s).1
sync_pending-IsSound limit s = ((sync_pending-Sounds limit).at s).sound
