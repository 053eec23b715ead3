-- ===== src/Device/Attempts.antt =====
-- How often a command of api/device_identity.py is delivered.
use hackaton_open_ai.Prelude.{
  true≢false, sym, ◌∙◌, ℕ, ◌≤◌, ◌<◌, ◌≡◌, String, Bool, true, false, not, ◌&&◌, ◌||◌, List, [], ◌∷◌,
  arith, All, Bool-cases, Option-cases, inl, inr, eq_iff, find, keep, contains, map, ◌==◌,
  string_eq, nat_eq, leb,
}
use hackaton_open_ai.Store.Tables.{CommandStatus, pending}
use hackaton_open_ai.Store.Where.{update_where, All-update_where, All-updated}
use hackaton_open_ai.Device.{DevicePrincipal}
use hackaton_open_ai.Device.Commands.{
  Command, CommandAcknowledgement, prepare_commands, close_commands, pending_commands,
  acknowledge_row, acknowledge_command, prepared, expire, exhaust, deliver_command, finish, is_open,
  is_delivered, is_answered, is_expired, is_missing, is_due, at_most, max_command_attempts,
  first_of, names,
}
use hackaton_open_ai.Device.Delivery.{due_open, Call, poll, acknowledge, step, run}

-- At most eight deliveries, and none of a command that is PENDING.
pub record IsServed (c : Command) : Type 0 where
  pub bounded : c.attempt_count ≤ max_command_attempts
  pub untried : c.status ≡ pending → c.attempt_count ≡ 0

-- And room for one more, for a command of the device that is DELIVERED.
abbrev HasRoom : String → Command → Type 0
HasRoom device c =
    IsServed c
    × (c.device_id ≡ device → is_delivered c.status ≡ true → c.attempt_count < max_command_attempts)

expire-IsServed : (c : Command) → IsServed c → IsServed (expire c)
expire-IsServed c s = record { bounded = s.bounded; untried = λ h. cc h }

finish-IsServed :
    (a : CommandAcknowledgement) (now : ℕ) (c : Command) → IsServed c → IsServed (finish a now c)
finish-IsServed a now c s = record { bounded = s.bounded; untried = λ h. ground arith }

prepare-IsServed : (rows : List Command) → All IsServed rows → All IsServed (prepare_commands rows)
unfolding prepare_commands
prepare-IsServed rows all =
    All-update_where IsServed (λ c. is_missing c.expires_at) prepared rows
      (λ c t s. record { bounded = s.bounded; untried = s.untried }) all

close-HasRoom :
    (device : String) (now : ℕ) (rows : List Command)
    → All IsServed rows
    → All (HasRoom device) (close_commands device now rows)
unfolding close_commands
close-HasRoom device now rows all =
    let due =
      λ (c : Command). (c.device_id == device) && is_open c.status && at_most c.expires_at now in
    All-updated IsServed (HasRoom device)
      (λ c.
        (c.device_id == device)
        && is_delivered c.status
        && leb max_command_attempts c.attempt_count)
      exhaust (update_where due expire rows)
      (λ c t s. (record { bounded = s.bounded; untried = λ h. cc h }, λ d h. cc h))
      (λ c t s. (s, λ d h. ground (arith, t, d, h, eq_iff c.device_id device)))
      (All-update_where IsServed due expire rows (λ c t s. expire-IsServed c s) all)

due_device :
    (p : DevicePrincipal) (after now : ℕ) (c : Command) (chosen : Bool)
    → (chosen && is_due p after now c) ≡ true
    → c.device_id ≡ p.device_id
due_device p after now c chosen h = elim (Bool-cases (c.device_id == p.device_id)) [
  | inl t ↦ (eq_iff c.device_id p.device_id).0 t
  | inr t ↦ absurd (true≢false (sym h ∙ ground arith))
]

open_pending : (s : CommandStatus) → is_open s ≡ true → is_delivered s ≡ false → s ≡ pending
open_pending s o d = ground arith

deliver-IsServed :
    (p : DevicePrincipal) (after now : ℕ) (c : Command) (chosen : Bool)
    → (chosen && is_due p after now c) ≡ true
    → HasRoom p.device_id c
    → IsServed (deliver_command now c)
deliver-IsServed p after now c chosen t (s, room) = record {
  bounded = elim (Bool-cases (is_delivered c.status)) [
    | inl d ↦ omega (arith, room (due_device p after now c chosen t) d)
    | inr d ↦ omega (arith, s.untried (open_pending c.status (due_open p after now c chosen t) d))
  ];
  untried = λ h. cc h;
}

pending-IsServed :
    (p : DevicePrincipal) (after now : ℕ) (rows : List Command)
    → All IsServed rows
    → All IsServed (pending_commands p after now rows).1
unfolding pending_commands
pending-IsServed p after now rows all =
    let closed = close_commands p.device_id now (prepare_commands rows) in
    let ids = map (λ (c : Command). c.id) (first_of 20 (keep (is_due p after now) closed)) in
    All-updated (HasRoom p.device_id) IsServed (λ c. contains c.id ids && is_due p after now c)
      (deliver_command now) closed (λ c t r. deliver-IsServed p after now c (contains c.id ids) t r)
      (λ c t r. r.0)
      (close-HasRoom p.device_id now (prepare_commands rows) (prepare-IsServed rows all))

acknowledge_row-IsServed :
    (a : CommandAcknowledgement) (now : ℕ) (c : Command) (rows : List Command)
    → All IsServed rows
    → All IsServed (acknowledge_row a now c rows).1
unfolding acknowledge_row
acknowledge_row-IsServed a now c rows all = elim (Bool-cases (is_answered c.status)) [
  | inl t ↦ rw t all
  | inr t ↦ elim (Bool-cases (is_expired c.status || at_most c.expires_at now)) [
    | inl u ↦
        rw (t, u)
          (All-update_where IsServed (λ r. (r.id == c.id) && not (is_answered r.status)) expire rows
            (λ r h s. expire-IsServed r s) all)
    | inr u ↦ elim (Bool-cases (is_delivered c.status)) [
      | inl v ↦
          rw (t, u, v)
            (All-update_where IsServed (λ r. (r.id == c.id) && is_delivered r.status) (finish a now)
              rows (λ r h s. finish-IsServed a now r s) all)
      | inr v ↦ rw (t, u, v) all
    ]
  ]
]

acknowledge-IsServed :
    (p : DevicePrincipal) (id : ℕ) (a : CommandAcknowledgement) (now : ℕ) (rows : List Command)
    → All IsServed rows
    → All IsServed (acknowledge_command p id a now rows).1
unfolding acknowledge_command
acknowledge-IsServed p id a now rows all =
    elim (Option-cases (find (names p id) (prepare_commands rows))) [
      | inl e ↦ rw (e, acknowledge_command) all
      | inr (c, e) ↦
          rw (e, acknowledge_command)
            (acknowledge_row-IsServed a now c (prepare_commands rows) (prepare-IsServed rows all))
    ]

-- Where each command has at most eight deliveries, and none while it is PENDING, this stays so through
-- any sequence of polls and acknowledgements.
run-IsServed :
    (calls : List Call) (rows : List Command) → All IsServed rows → All IsServed (run calls rows)
unfolding run step
run-IsServed [] rows all = all
run-IsServed (poll p after now ∷ calls) rows all =
    run-IsServed calls (pending_commands p after now rows).1 (pending-IsServed p after now rows all)
run-IsServed (acknowledge p id a now ∷ calls) rows all =
    run-IsServed calls (acknowledge_command p id a now rows).1
      (acknowledge-IsServed p id a now rows all)
