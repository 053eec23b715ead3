-- ===== src/Store/Run.antt =====
-- Sequences of calls of the incident operations of api/storage.py.
use hackaton_open_ai.Prelude.{
  ℕ, Result-cases, ◌==◌, subst, sym, ◌≡◌, refl, String, Bool, List, [], ◌∷◌, Option, none, ok, err,
  arith, Result, Option-cases, inl, inr, Bool-cases,
}
use hackaton_open_ai.Store.Tables.{
  Store, StoreError, IncidentRow, unlocked, kept_blocked, status_eq,
}
use hackaton_open_ai.Store.Incidents.{
  IncidentCreate, create_incident, request_unlock, unlock_incident, keep_blocked, find_incident,
  Moment, moment_or, is_naive, is_open, request_row, status_row,
}
use hackaton_open_ai.Store.Lifecycle.{request_unlock_lem, keep_blocked_lem, unlock_incident_lem}
use hackaton_open_ai.Store.Commands.{IsAccounted, set_incident-IsAccounted, unlock_row-IsAccounted}
use hackaton_open_ai.Store.Create.{create_incident-IsAccounted}

-- One call, with the ids and the time that it would read.
pub data Call : Type 0 where
  create : String → IncidentCreate → String → String → String → ℕ → Call
  request : String → String → String → ℕ → Call
  unlock : String → String → Option Moment → ℕ → Call
  keep_it : String → String → ℕ → Call

-- A transaction that fails is rolled back.
abbrev pub committed {ℓ} : {A : Type ℓ} → Result StoreError (A × Store) → Store → Store
committed (ok (a, s')) s = s'
committed (err e) s = s

abbrev created_store : Result StoreError (IncidentRow × Bool × Store) → Store → Store
created_store (ok (row, created, s')) s = s'
created_store (err e) s = s

unfoldable pub step : Call → Store → Store
step (create family event id second_id suffix now) s =
    created_store (create_incident family event id second_id suffix now s) s
step (request family id explanation now) s =
    committed (request_unlock family id explanation now s) s
step (unlock family id at clock) s = committed (unlock_incident family id at clock s) s
step (keep_it family id now) s = committed (keep_blocked family id now s) s

unfoldable pub run : List Call → Store → Store
run [] s = s
run (call ∷ calls) s = run calls (step call s)

module _ (family id : String) (s : Store) where
  -- A call on a missing incident leaves the tables.
  pub request_unlock_missing :
      (explanation : String) (now : ℕ)
      → find_incident family id s ≡ none
      → committed (request_unlock family id explanation now s) s ≡ s
  unfolding request_unlock
  request_unlock_missing explanation now e = ground (arith, e)

  pub keep_blocked_missing :
      (now : ℕ) → find_incident family id s ≡ none → committed (keep_blocked family id now s) s ≡ s
  unfolding keep_blocked
  keep_blocked_missing now e = ground (arith, e)

  pub unlock_incident_missing :
      (at : Option Moment) (clock : ℕ)
      → find_incident family id s ≡ none
      → committed (unlock_incident family id at clock s) s ≡ s
  unfolding unlock_incident
  unlock_incident_missing at clock e = ground (arith, e)

module _ (family id : String) (s : Store) (a : IsAccounted s) where
  request_unlock-IsAccounted :
      (explanation : String) (now : ℕ)
      → IsAccounted (committed (request_unlock family id explanation now s) s)
  request_unlock-IsAccounted explanation now = elim (Option-cases (find_incident family id s)) [
    | inl e ↦ subst IsAccounted (sym (request_unlock_missing family id s explanation now e)) a
    | inr (row, e) ↦
        rw (request_unlock_lem family id s row e explanation now)
          (elim (Bool-cases (is_open row.status)) [
            | inl t ↦ rw t (
                set_incident-IsAccounted family id s row e a (request_row explanation now)
                  (λ r. refl) (λ r. refl) t)
            | inr t ↦ rw t a
          ])
  ]

  keep_blocked-IsAccounted : (now : ℕ) → IsAccounted (committed (keep_blocked family id now s) s)
  keep_blocked-IsAccounted now = elim (Option-cases (find_incident family id s)) [
    | inl e ↦ subst IsAccounted (sym (keep_blocked_missing family id s now e)) a
    | inr (row, e) ↦
        rw (keep_blocked_lem family id s row e now) (elim (Bool-cases (is_open row.status)) [
          | inl t ↦ rw t (
              set_incident-IsAccounted family id s row e a (status_row kept_blocked now) (λ r. refl)
                (λ r. refl) t)
          | inr t ↦ rw t a
        ])
  ]

  unlock_incident-IsAccounted :
      (at : Option Moment) (clock : ℕ)
      → IsAccounted (committed (unlock_incident family id at clock s) s)
  unlock_incident-IsAccounted at clock = elim (Option-cases (find_incident family id s)) [
    | inl e ↦ subst IsAccounted (sym (unlock_incident_missing family id s at clock e)) a
    | inr (row, e) ↦
        rw (unlock_incident_lem family id s row e at clock)
          (elim (Bool-cases (row.status == unlocked)) [
            | inl t ↦ rw t a
            | inr u ↦ elim (Bool-cases (is_open row.status)) [
              | inl t ↦ elim (Bool-cases (is_naive at)) [
                | inl n ↦ rw (u, t, n) a
                | inr n ↦
                    rw (u, t, n) (unlock_row-IsAccounted family id s row e a (moment_or at clock) t)
              ]
              | inr t ↦ rw (u, t) a
            ]
          ])
  ]

step-IsAccounted : (call : Call) (s : Store) → IsAccounted s → IsAccounted (step call s)
unfolding step
step-IsAccounted (create family event id second_id suffix now) s a =
    elim (Result-cases (create_incident family event id second_id suffix now s)) [
      | inl (x, e) ↦ rw e a
      | inr ((row, created, s'), e) ↦
          rw e
            (create_incident-IsAccounted family id second_id suffix event now created row s s' e a)
    ]
step-IsAccounted (request family id explanation now) s a =
    request_unlock-IsAccounted family id s a explanation now
step-IsAccounted (unlock family id at clock) s a =
    unlock_incident-IsAccounted family id s a at clock
step-IsAccounted (keep_it family id now) s a = keep_blocked-IsAccounted family id s a now

-- Where the tables are accounted for, meaning that no two incidents share an id, that each UNLOCKED
-- incident has exactly one unlock command and each other has none, and that each command names an
-- incident, they are so after any sequence of calls, by any families and at any times.
pub run-IsAccounted : (calls : List Call) (s : Store) → IsAccounted s → IsAccounted (run calls s)
unfolding run
run-IsAccounted [] s a = a
run-IsAccounted (call ∷ calls) s a = run-IsAccounted calls (step call s) (step-IsAccounted call s a)
