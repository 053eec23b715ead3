-- ===== src/Device/Delivery.antt =====
-- How a command of api/device_identity.py moves through its statuses.
use hackaton_open_ai.Prelude.{
  ℕ, ◌≤◌, ◌≡◌, Bool, true, ◌&&◌, List, [], ◌∷◌, arith, Bool-cases, inl, inr, string_eq, nat_eq,
}
use hackaton_open_ai.Store.Tables.{CommandStatus, pending, delivered, acknowledged, expired, failed}
use hackaton_open_ai.Device.{DevicePrincipal}
use hackaton_open_ai.Device.Commands.{
  Command, CommandAcknowledgement, pending_commands, acknowledge_command, is_open, is_due,
}

-- PENDING, then DELIVERED, then one of the three final statuses.
abbrev pub stage : CommandStatus → ℕ
stage pending = 0
stage delivered = 1
stage acknowledged = 2
stage expired = 2
stage failed = 2

-- What a command may become: it keeps its id and never goes back a stage, and a final status stays.
pub record Advances (c d : Command) : Type 0 where
  pub same_id : d.id ≡ c.id
  pub forward : stage c.status ≤ stage d.status
  pub final : stage c.status ≡ 2 → d.status ≡ c.status

-- Related row by row.
abbrev pub Each {ℓ κ} : {A : Type ℓ} → (A → A → Type κ) → List A → List A → Type κ
Each R [] [] = Unit
Each R [] (y ∷ ys) = Unit → ⊥
Each R (x ∷ xs) [] = Unit → ⊥
Each R (x ∷ xs) (y ∷ ys) = R x y × Each R xs ys

pub due_open :
    (p : DevicePrincipal) (after now : ℕ) (c : Command) (chosen : Bool)
    → (chosen && is_due p after now c) ≡ true
    → is_open c.status ≡ true
due_open p after now c chosen h = elim (Bool-cases (is_open c.status)) [
  | inl t ↦ t
  | inr t ↦ ground arith
]

-- A poll or an acknowledgement of a device, at some time.
pub data Call : Type 0 where
  poll : DevicePrincipal → ℕ → ℕ → Call
  acknowledge : DevicePrincipal → ℕ → CommandAcknowledgement → ℕ → Call

unfoldable pub step : Call → List Command → List Command
step (poll p after now) rows = (pending_commands p after now rows).1
step (acknowledge p id a now) rows = (acknowledge_command p id a now rows).1

unfoldable pub run : List Call → List Command → List Command
run [] rows = rows
run (c ∷ calls) rows = run calls (step c rows)
