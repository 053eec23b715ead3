-- ===== src/Agent/Outbox.antt =====
-- `PersistentOutbox` of agent/outbox.py and the delivery of agent/main.py. The queue is what the file
-- holds; a payload is its JSON text. What the API answers to an item is a parameter.
pub mod Fifo
use hackaton_open_ai.Prelude.{
  ℕ, zero, suc, ◌+◌, leb, String, Bool, true, false, not, ◌&&◌, ◌||◌, List, [], ◌∷◌, ◌++◌, length,
  Option, none, some, ◌==◌, string_eq, nat_eq, if◌then◌else◌, Result, ok, err, ◌>>=◌, ◌>>◌,
  raise_if,
}

pub data OutboxKind : Type 0 where
  incident telemetry pilot_telemetry : OutboxKind

pub record OutboxItem : Type 0 where
  pub id : String
  pub kind : OutboxKind
  pub device_id : String
  pub payload : String
  pub created_at : String
  pub credential_id : Option String
  pub attempts : ℕ

pub data OutboxError : Type 0 where
  value_error : String → OutboxError
  capacity_reached : OutboxError

-- `enqueue`, after the payload's validation, with the id and the time that it would read.
unfoldable pub enqueue :
    ℕ
    → OutboxKind
    → String
    → String
    → Option String
    → String
    → String
    → List OutboxItem
    → Result OutboxError (OutboxItem × List OutboxItem)
enqueue maximum kind device payload credential id now queued = do
  raise_if (leb maximum (length queued)) capacity_reached
  let item : OutboxItem = record {
    id = id;
    kind = kind;
    device_id = device;
    payload = payload;
    created_at = now;
    credential_id = credential;
    attempts = 0;
  }
  ok (item, queued ++ item ∷ [])

abbrev pub retried : OutboxItem → OutboxItem
retried item = record item { attempts = suc item.attempts }

-- The loop of `flush`, with the deliveries that the limit still permits.
unfoldable pub flush_queue : (OutboxItem → Bool) → ℕ → List OutboxItem → ℕ × List OutboxItem
flush_queue deliver zero queued = (0, queued)
flush_queue deliver (suc left) [] = (0, [])
flush_queue deliver (suc left) (item ∷ queued) =
    let (delivered, remaining) = flush_queue deliver left queued in
    if not (deliver item) then (0, retried item ∷ queued) else (suc delivered, remaining)

unfoldable pub flush :
    (OutboxItem → Bool) → ℕ → List OutboxItem → Result OutboxError (ℕ × List OutboxItem)
unfolding flush_queue
flush deliver limit queued = do
  raise_if (leb limit 0) (value_error "limit must be positive")
  ok (flush_queue deliver limit queued)

-- The client's credential.
pub record Credential : Type 0 where
  pub credential_id : String
  pub device_id : String

abbrev same_credential : Option String → String → Bool
same_credential none id = false
same_credential (some c) id = c == id

-- The test at the head of `deliver`, negated: the item was queued for this credential.
unfoldable pub identity_matches : Option Credential → OutboxItem → Bool
identity_matches none item = false
identity_matches (some c) item =
    (item.device_id == c.device_id) && same_credential item.credential_id c.credential_id

-- `deliver` of `flush_offline_outbox`: `send` is whether the API takes the item.
unfoldable pub deliver : Option Credential → (OutboxItem → Bool) → OutboxItem → Bool
unfolding identity_matches
deliver credential send item = identity_matches credential item && send item

-- `flush_offline_outbox`, with the default limit.
unfoldable pub flush_offline_outbox :
    Option Credential
    → (OutboxItem → Bool)
    → List OutboxItem
    → Result OutboxError (ℕ × List OutboxItem)
unfolding flush deliver
flush_offline_outbox credential send queued = flush (deliver credential send) 50 queued
