-- ===== src/Store/Lifecycle.antt =====
-- What each incident operation of api/storage.py returns and writes, on every branch.
use hackaton_open_ai.Prelude.{
  ℕ, ◌≡◌, refl, String, not, Option, some, ok, err, arith, if◌then◌else◌, ◌==◌,
}
use hackaton_open_ai.Store.Tables.{
  Store, value_error, IncidentRow, unlocked, kept_blocked, status_eq,
}
use hackaton_open_ai.Store.Where.{find-update_where}
use hackaton_open_ai.Store.Incidents.{
  find_incident, get_incident, returning, request_unlock, unlock_incident, unlock_open, unlock_row,
  keep_blocked, set_incident, is_open, request_row, status_row, Moment, moment_or, is_naive, names,
}

module _ (family id : String) (s : Store) (row : IncidentRow)
    (found : find_incident family id s ≡ some row) where
  returning-set_incident :
      (change : IncidentRow → IncidentRow)
      → ((r : IncidentRow) → names family id (change r) ≡ names family id r)
      → returning family id (set_incident family id change s)
        ≡ ok (change row, set_incident family id change s)
  unfolding returning get_incident
  returning-set_incident change keeps =
      rw (find-update_where (names family id) change s.incidents row keeps found)

  -- The incident is there. An unlock request is answered with the incident, now UNLOCK_REQUESTED
  -- with the explanation, if it was BLOCKED or UNLOCK_REQUESTED, and refused otherwise.
  pub request_unlock_lem :
      (explanation : String) (now : ℕ)
      → request_unlock family id explanation now s ≡ (
          if is_open row.status
          then ok (
            request_row explanation now row,
            set_incident family id (request_row explanation now) s,
          )
          else err (value_error "Cannot request unlock from status"))
  unfolding request_unlock
  request_unlock_lem explanation now =
      ground (arith, found, returning-set_incident (request_row explanation now) (λ r. refl))

  -- The incident is there. A parent's refusal is answered with the incident, now KEPT_BLOCKED, if it
  -- was BLOCKED or UNLOCK_REQUESTED, and refused otherwise.
  pub keep_blocked_lem :
      (now : ℕ)
      → keep_blocked family id now s ≡ (
          if is_open row.status
          then ok (
            status_row kept_blocked now row,
            set_incident family id (status_row kept_blocked now) s,
          )
          else err (value_error "Cannot keep blocked from status"))
  unfolding keep_blocked
  keep_blocked_lem now =
      ground (arith, found, returning-set_incident (status_row kept_blocked now) (λ r. refl))

  returning-unlock_row :
      (now : ℕ)
      → returning family id (unlock_row row family id now s)
        ≡ ok (status_row unlocked now row, unlock_row row family id now s)
  unfolding returning get_incident unlock_row
  returning-unlock_row now = rw (
      find-update_where (names family id) (status_row unlocked now) s.incidents row (λ r. refl)
        found)

  -- The incident is there. Unlocking it returns it and writes nothing if it is UNLOCKED; if it is
  -- BLOCKED or UNLOCK_REQUESTED it becomes UNLOCKED and a command is queued, unless the moment given
  -- has no time zone; any other status is refused.
  pub unlock_incident_lem :
      (at : Option Moment) (clock : ℕ)
      → unlock_incident family id at clock s ≡ (
          if row.status == unlocked
          then ok (row, s)
          else if not (is_open row.status)
          then err (value_error "Cannot unlock incident from status")
          else if is_naive at
          then err (value_error "Command timestamp must be timezone-aware")
          else ok (
            status_row unlocked (moment_or at clock) row,
            unlock_row row family id (moment_or at clock) s,
          ))
  unfolding unlock_incident unlock_open
  unlock_incident_lem at clock = ground (arith, found, returning-unlock_row (moment_or at clock))
