-- ===== src/Device/Commands.antt =====
-- The delivery of commands in api/device_identity.py: `pending_commands` and `acknowledge_command`. The
-- table device_commands is the list of its rows in the order of their ids; times are microseconds.
use hackaton_open_ai.Prelude.{
  ℕ, zero, suc, ◌+◌, ◌*◌, ◌^◌, min, leb, ltb, String, Bool, true, false, not, ◌&&◌, ◌||◌, Option,
  none, some, List, [], ◌∷◌, keep, find, contains, map, ◌==◌, string_eq, nat_eq, if◌then◌else◌,
  Result, ok, err,
}
use hackaton_open_ai.Store.Tables.{CommandStatus, pending, delivered, acknowledged, expired, failed}
use hackaton_open_ai.Store.Where.{update_where}
use hackaton_open_ai.Device.{DevicePrincipal, second}

-- The columns that the operations read or write, less the constants that `_prepare_commands` stores;
-- there is one type of commands.
pub record Command : Type 0 where
  pub id : ℕ
  pub family_id : String
  pub device_id : String
  pub status : CommandStatus
  pub created_at : ℕ
  pub expires_at : Option ℕ
  pub next_attempt_at : Option ℕ
  pub attempt_count : ℕ
  pub delivered_at : Option ℕ
  pub acknowledged_at : Option ℕ
  pub terminal_error : Option String

abbrev pub command_ttl : ℕ
command_ttl = 10 * 60 * second

abbrev pub max_command_attempts : ℕ
max_command_attempts = 8

-- status IN ('PENDING', 'DELIVERED')
abbrev pub is_open : CommandStatus → Bool
is_open pending = true
is_open delivered = true
is_open acknowledged = false
is_open expired = false
is_open failed = false

abbrev pub is_delivered : CommandStatus → Bool
is_delivered pending = false
is_delivered delivered = true
is_delivered acknowledged = false
is_delivered expired = false
is_delivered failed = false

-- column <= ?, which NULL does not satisfy
abbrev pub at_most : Option ℕ → ℕ → Bool
at_most none t = false
at_most (some a) t = leb a t

abbrev pub is_missing : Option ℕ → Bool
is_missing none = true
is_missing (some a) = false

abbrev pub prepared : Command → Command
prepared c = record c {
  expires_at = some (c.created_at + command_ttl);
  next_attempt_at = some c.created_at;
}

-- `_prepare_commands`
unfoldable pub prepare_commands : List Command → List Command
prepare_commands rows = update_where (λ c. is_missing c.expires_at) prepared rows

abbrev pub expire : Command → Command
expire c = record c { status = expired; terminal_error = some "COMMAND_EXPIRED" }

abbrev pub exhaust : Command → Command
exhaust c = record c { status = failed; terminal_error = some "RETRY_EXHAUSTED" }

abbrev pub deliver_command : ℕ → Command → Command
deliver_command now c = record c {
  status = delivered;
  attempt_count = c.attempt_count + 1;
  delivered_at = some now;
  next_attempt_at = some (now + min (2 ^ c.attempt_count) 30 * second);
}

-- The two UPDATEs before the selection.
unfoldable pub close_commands : String → ℕ → List Command → List Command
close_commands device now rows =
    update_where
      (λ c.
        (c.device_id == device)
        && is_delivered c.status
        && leb max_command_attempts c.attempt_count)
      exhaust
      (update_where (λ c. (c.device_id == device) && is_open c.status && at_most c.expires_at now)
        expire rows)

-- The WHERE of the selection.
abbrev pub is_due : DevicePrincipal → ℕ → ℕ → Command → Bool
is_due p after now c =
    (c.family_id == p.family_id)
    && (c.device_id == p.device_id)
    && is_open c.status
    && (ltb after c.id || is_delivered c.status)
    && (is_missing c.next_attempt_at || at_most c.next_attempt_at now)

-- LIMIT
abbrev pub first_of {ℓ} : {A : Type ℓ} → ℕ → List A → List A
first_of zero xs = []
first_of (suc n) [] = []
first_of (suc n) (x ∷ xs) = x ∷ first_of n xs

-- The rows that are selected are updated by their ids, which are the primary key.
unfoldable pub pending_commands :
    DevicePrincipal → ℕ → ℕ → List Command → List Command × List Command
unfolding prepare_commands close_commands
pending_commands p after now rows =
    let closed = close_commands p.device_id now (prepare_commands rows) in
    let ids = map (λ (c : Command). c.id) (first_of 20 (keep (is_due p after now) closed)) in
    let served =
      update_where (λ c. contains c.id ids && is_due p after now c) (deliver_command now) closed in
    (keep (λ c. contains c.id ids) served, served)

pub data AckError : Type 0 where
  missing command_expired command_not_delivered : AckError

-- status in {ACKNOWLEDGED, FAILED}
abbrev pub is_answered : CommandStatus → Bool
is_answered pending = false
is_answered delivered = false
is_answered acknowledged = true
is_answered expired = false
is_answered failed = true

abbrev pub is_expired : CommandStatus → Bool
is_expired pending = false
is_expired delivered = false
is_expired acknowledged = false
is_expired expired = true
is_expired failed = false

-- What the device reports: the result EXECUTED, or FAILED with a code.
pub record CommandAcknowledgement : Type 0 where
  pub executed : Bool
  pub error_code : Option String

abbrev pub finish : CommandAcknowledgement → ℕ → Command → Command
finish a now c = record c {
  status = if a.executed then acknowledged else failed;
  terminal_error = if a.executed then none else a.error_code;
  acknowledged_at = some now;
}

-- What follows the look-up of the row. The id is the primary key, so the row with the id is the one
-- that was read, and its status is the one that was tested.
unfoldable pub acknowledge_row :
    CommandAcknowledgement → ℕ → Command → List Command → Result AckError Command × List Command
acknowledge_row a now c rows =
    if is_answered c.status
    then (ok c, rows)
    else if is_expired c.status || at_most c.expires_at now
    then (
      err command_expired,
      update_where (λ r. (r.id == c.id) && not (is_answered r.status)) expire rows,
    )
    else if not (is_delivered c.status)
    then (err command_not_delivered, rows)
    else (
      ok (finish a now c),
      update_where (λ r. (r.id == c.id) && is_delivered r.status) (finish a now) rows,
    )

-- WHERE family_id = ? AND device_id = ? AND id = ?
abbrev pub names : DevicePrincipal → ℕ → Command → Bool
names p id c = (c.family_id == p.family_id) && (c.device_id == p.device_id) && (c.id == id)

-- `acknowledge_command`: a missing command rolls the preparation back.
unfoldable pub acknowledge_command :
    DevicePrincipal
    → ℕ
    → CommandAcknowledgement
    → ℕ
    → List Command
    → Result AckError Command × List Command
unfolding prepare_commands acknowledge_row
acknowledge_command p id a now rows =
    let ready = prepare_commands rows in
    elim (find (names p id) ready) [
      | none ↦ (err missing, rows)
      | some c ↦ acknowledge_row a now c ready
    ]
