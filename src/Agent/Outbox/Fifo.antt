-- ===== src/Agent/Outbox/Fifo.antt =====
-- In what order the outbox of agent/outbox.py delivers, and what it keeps.
use hackaton_open_ai.Prelude.{
  ◌∙◌, ℕ, suc, ◌+◌, ◌≤◌, ◌<◌, ◌≡◌, ◌⊎◌, refl, ap, String, Bool, true, false, List, [], ◌∷◌, ◌++◌,
  length, length-append, Option, none, some, arith, All, ok, err, Result,
}
use hackaton_open_ai.Agent.Outbox.{
  OutboxItem, OutboxKind, OutboxError, capacity_reached, Credential, enqueue, retried, flush_queue,
  flush, deliver, identity_matches, flush_offline_outbox,
}

-- The queue is those that were delivered, in order, followed by the rest. The rest is kept as it is
-- where the limit was reached or nothing is left, and otherwise with one attempt more on its head,
-- which was refused.
pub record Flushed (deliver : OutboxItem → Bool) (limit : ℕ) (queued : List OutboxItem)
    (result : ℕ × List OutboxItem) : Type 0 where
  pub sent : List OutboxItem
  pub rest : List OutboxItem
  pub in_order : queued ≡ sent ++ rest
  pub counted : result.0 ≡ length sent
  pub accepted : All (λ item. deliver item ≡ true) sent
  pub stopped :
      ((result.1 ≡ rest) × ((length sent ≡ limit) ⊎ (rest ≡ [])))
      ⊎ ((item : OutboxItem) × (later : List OutboxItem) × (rest ≡ item ∷ later)
          × (result.1 ≡ retried item ∷ later)
          × (deliver item ≡ false)
          × (length sent < limit))

abbrev flushed : Result OutboxError (ℕ × List OutboxItem) → List OutboxItem → List OutboxItem
flushed (ok (n, remaining)) queued = remaining
flushed (err e) queued = queued

-- Several flushes by one client, with what the API answers in each.
unfoldable pub flushes :
    Option Credential → List (OutboxItem → Bool) → List OutboxItem → List OutboxItem
flushes credential [] queued = queued
flushes credential (send ∷ sends) queued =
    flushes credential sends (flushed (flush_offline_outbox credential send queued) queued)

identity_matches-retried :
    (credential : Option Credential) (item : OutboxItem)
    → identity_matches credential (retried item) ≡ identity_matches credential item
unfolding identity_matches
identity_matches-retried none item = refl
identity_matches-retried (some c) item = refl

undelivered :
    (credential : Option Credential) (send : OutboxItem → Bool) (item : OutboxItem)
    → identity_matches credential item ≡ false
    → deliver credential send item ≡ false
unfolding deliver
undelivered credential send item h = rw h refl

flush_queue-held :
    (deliver : OutboxItem → Bool) (left : ℕ) (item : OutboxItem) (later : List OutboxItem)
    → deliver item ≡ false
    → flush_queue deliver (suc left) (item ∷ later) ≡ (0, retried item ∷ later)
unfolding flush_queue
flush_queue-held deliver left item later h = rw h refl

held_once :
    (credential : Option Credential) (send : OutboxItem → Bool) (item : OutboxItem)
    (later : List OutboxItem)
    → identity_matches credential item ≡ false
    → flushed (flush_offline_outbox credential send (item ∷ later)) (item ∷ later)
      ≡ retried item ∷ later
unfolding flush_offline_outbox flush
held_once credential send item later h =
    ap (λ r. r.1)
      (flush_queue-held (deliver credential send) 49 item later
        (undelivered credential send item h))

-- An item at the front that was queued under another credential stays there, and holds back all that
-- is behind it, through any number of flushes and whatever the API would answer.
flush_offline_held :
    (credential : Option Credential) (sends : List (OutboxItem → Bool)) (item : OutboxItem)
    (later : List OutboxItem)
    → identity_matches credential item ≡ false
    → flushes credential sends (item ∷ later)
      ≡ record item { attempts = item.attempts + length sends } ∷ later
unfolding flushes
flush_offline_held credential [] item later h = ground arith
flush_offline_held credential (send ∷ sends) item later h =
    rw (held_once credential send item later h) (
      flush_offline_held credential sends (retried item) later
        (identity_matches-retried credential item ∙ h)
      ∙ ground arith)

-- An item is refused if the queue has reached its capacity. Otherwise it goes to the back with its
-- payload and no attempts, and the queue stays within the capacity.
enqueue_bounded :
    (maximum : ℕ) (kind : OutboxKind) (device payload : String) (credential : Option String)
    (id now : String) (queued : List OutboxItem)
    → (maximum ≤ length queued
        → enqueue maximum kind device payload credential id now queued ≡ err capacity_reached)
      × (length queued < maximum
          → (item : OutboxItem) × (enqueue maximum kind device payload credential id now queued
              ≡ ok (item, queued ++ item ∷ []))
            × (length (queued ++ item ∷ []) ≤ maximum)
            × (item.attempts ≡ 0)
            × (item.payload ≡ payload))
unfolding enqueue
enqueue_bounded maximum kind device payload credential id now queued = (
  λ h. ground arith,
  λ h. (
    record {
      id = id;
      kind = kind;
      device_id = device;
      payload = payload;
      created_at = now;
      credential_id = credential;
      attempts = 0;
    },
    ground arith,
    omega (
      arith,
      length-append queued (
          record {
            id = id;
            kind = kind;
            device_id = device;
            payload = payload;
            created_at = now;
            credential_id = credential;
            attempts = 0;
          }
          ∷ []),
    ),
    refl,
    refl,
  ),
)
