-- ===== src/Store/Isolation.antt =====
-- No family touches another one's incidents or commands in api/storage.py.
use hackaton_open_ai.Prelude.{
  ℕ, ◌≡◌, ◌≢◌, refl, sym, ◌∙◌, String, List, [], ◌∷◌, ◌++◌, Option, some, arith, All, keep, subst,
  find-some, Bool-cases, Option-cases, Result-cases, inl, inr, ◌==◌, string_eq, eq_iff,
}
use hackaton_open_ai.Store.Tables.{
  Store, IncidentRow, CommandRow, unlocked, kept_blocked, status_eq,
}
use hackaton_open_ai.Store.Where.{update_where}
use hackaton_open_ai.Store.Incidents.{
  find_incident, names, set_incident, unlock_row, insert_incident, incident_values, create_incident,
  request_unlock, unlock_incident, keep_blocked, is_open, is_naive, Moment, moment_or, request_row,
  status_row,
}
use hackaton_open_ai.Store.Lifecycle.{request_unlock_lem, keep_blocked_lem, unlock_incident_lem}
use hackaton_open_ai.Store.Commands.{names_parts}
use hackaton_open_ai.Store.Create.{Inserted, create_incident_inserts, insert_incident-some}
use hackaton_open_ai.Store.Run.{
  Call, create, request, unlock, keep_it, step, run, committed, request_unlock_missing,
  keep_blocked_missing, unlock_incident_missing,
}

-- What a family sees.
abbrev pub incidents_of : String → Store → List IncidentRow
incidents_of g s = keep (λ r. r.family_id == g) s.incidents

abbrev pub unlocks_of : String → Store → List CommandRow
unlocks_of g s = keep (λ c. c.family_id == g) s.commands

pub record Untouched (g : String) (s s' : Store) : Type 0 where
  pub incidents : incidents_of g s' ≡ incidents_of g s
  pub commands : unlocks_of g s' ≡ unlocks_of g s

abbrev pub family_of : Call → String
family_of (create family event id second_id suffix now) = family
family_of (request family id explanation now) = family
family_of (unlock family id at clock) = family
family_of (keep_it family id now) = family

module _ (family g : String) (differ : family ≢ g) where
  update_where-others :
      (id : String) (change : IncidentRow → IncidentRow) (rows : List IncidentRow)
      → ((r : IncidentRow) → (change r).family_id ≡ r.family_id)
      → keep (λ r. r.family_id == g) (update_where (names family id) change rows)
        ≡ keep (λ r. r.family_id == g) rows
  unfolding update_where
  update_where-others id change [] keeps = refl
  update_where-others id change (r ∷ rows) keeps =
      let rest = update_where-others id change rows keeps in
      elim (Bool-cases (names family id r)) [
        | inl t ↦
            let own = (names_parts family id r t).0 in
            ground
              (arith, t, rest, keeps r, own, eq_iff r.family_id g, eq_iff (change r).family_id g)
        | inr t ↦ ground (arith, t, rest)
      ]

  keep-snoc :
      (commands : List CommandRow) (c : CommandRow)
      → c.family_id ≡ family
      → keep (λ x. x.family_id == g) (commands ++ c ∷ []) ≡ keep (λ x. x.family_id == g) commands
  keep-snoc [] c own = ground (arith, own, eq_iff c.family_id g)
  keep-snoc (x ∷ commands) c own = ground (arith, keep-snoc commands c own)

  Untouched-refl : (s : Store) → Untouched g s s
  Untouched-refl s = record { incidents = refl; commands = refl }

  set_incident-Untouched :
      (id : String) (change : IncidentRow → IncidentRow) (s : Store)
      → ((r : IncidentRow) → (change r).family_id ≡ r.family_id)
      → Untouched g s (set_incident family id change s)
  set_incident-Untouched id change s keeps = record {
    incidents = update_where-others id change s.incidents keeps;
    commands = refl;
  }

  unlock_row-Untouched :
      (id : String) (row : IncidentRow) (now : ℕ) (s : Store)
      → row.family_id ≡ family
      → Untouched g s (unlock_row row family id now s)
  unfolding unlock_row
  unlock_row-Untouched id row now s own = record {
    incidents = update_where-others id (status_row unlocked now) s.incidents (λ r. refl);
    commands = keep-snoc s.commands _ own;
  }

  insert_incident-Untouched :
      (row : IncidentRow) (s s' : Store)
      → row.family_id ≡ family
      → insert_incident row s ≡ some s'
      → Untouched g s s'
  insert_incident-Untouched row s s' own h =
      let (new, e) = insert_incident-some row s s' h in
      subst (Untouched g s) e
        (record { incidents = ground (arith, own, eq_iff row.family_id g); commands = refl })

  Inserted-Untouched :
      (values : String → String → IncidentRow) (s s' : Store)
      → ((i k : String) → (values i k).family_id ≡ family)
      → Inserted values s s'
      → Untouched g s s'
  unfolding Inserted
  Inserted-Untouched values s s' own (inl e) = subst (Untouched g s) e (Untouched-refl s)
  Inserted-Untouched values s s' own (inr (i, k, e)) =
      insert_incident-Untouched (values i k) s s' (own i k) e

  module _ (id : String) (s : Store) where
    own_family : (row : IncidentRow) → find_incident family id s ≡ some row → row.family_id ≡ family
    unfolding find_incident
    own_family row h = (names_parts family id row (find-some (names family id) s.incidents row h)).0

    request_unlock-Untouched :
        (explanation : String) (now : ℕ)
        → Untouched g s (committed (request_unlock family id explanation now s) s)
    request_unlock-Untouched explanation now = elim (Option-cases (find_incident family id s)) [
      | inl e ↦
          subst (Untouched g s) (sym (request_unlock_missing family id s explanation now e))
            (Untouched-refl s)
      | inr (row, e) ↦
          rw (request_unlock_lem family id s row e explanation now)
            (elim (Bool-cases (is_open row.status)) [
              | inl t ↦ rw t (set_incident-Untouched id (request_row explanation now) s (λ r. refl))
              | inr t ↦ rw t (Untouched-refl s)
            ])
    ]

    keep_blocked-Untouched : (now : ℕ) → Untouched g s (committed (keep_blocked family id now s) s)
    keep_blocked-Untouched now = elim (Option-cases (find_incident family id s)) [
      | inl e ↦
          subst (Untouched g s) (sym (keep_blocked_missing family id s now e)) (Untouched-refl s)
      | inr (row, e) ↦
          rw (keep_blocked_lem family id s row e now) (elim (Bool-cases (is_open row.status)) [
            | inl t ↦ rw t (set_incident-Untouched id (status_row kept_blocked now) s (λ r. refl))
            | inr t ↦ rw t (Untouched-refl s)
          ])
    ]

    unlock_incident-Untouched :
        (at : Option Moment) (clock : ℕ)
        → Untouched g s (committed (unlock_incident family id at clock s) s)
    unlock_incident-Untouched at clock = elim (Option-cases (find_incident family id s)) [
      | inl e ↦
          subst (Untouched g s) (sym (unlock_incident_missing family id s at clock e))
            (Untouched-refl s)
      | inr (row, e) ↦
          rw (unlock_incident_lem family id s row e at clock)
            (elim (Bool-cases (row.status == unlocked)) [
              | inl t ↦ rw t (Untouched-refl s)
              | inr u ↦ elim (Bool-cases (is_open row.status)) [
                | inl t ↦ elim (Bool-cases (is_naive at)) [
                  | inl n ↦ rw (u, t, n) (Untouched-refl s)
                  | inr n ↦
                      rw (u, t, n)
                        (unlock_row-Untouched id row (moment_or at clock) s (own_family row e))
                ]
                | inr t ↦ rw (u, t) (Untouched-refl s)
              ]
            ])
    ]

step-Untouched :
    (g : String) (call : Call) (s : Store) → family_of call ≢ g → Untouched g s (step call s)
unfolding step
step-Untouched g (create family event id second_id suffix now) s differ =
    elim (Result-cases (create_incident family event id second_id suffix now s)) [
      | inl (x, e) ↦ rw e (Untouched-refl family g differ s)
      | inr ((row, created, s'), e) ↦ rw e (
          let (c, d, inserted) =
            create_incident_inserts family id second_id suffix event now created row s s' e in
          Inserted-Untouched family g differ (λ i k. incident_values family event c d i now k) s s'
            (λ i k. refl) inserted)
    ]
step-Untouched g (request family id explanation now) s differ =
    request_unlock-Untouched family g differ id s explanation now
step-Untouched g (unlock family id at clock) s differ =
    unlock_incident-Untouched family g differ id s at clock
step-Untouched g (keep_it family id now) s differ = keep_blocked-Untouched family g differ id s now

-- Any sequence of calls by other families leaves a family's incidents and unlock commands exactly as
-- they were.
pub run-Untouched :
    (g : String) (calls : List Call) (s : Store)
    → All (λ c. family_of c ≢ g) calls
    → Untouched g s (run calls s)
unfolding run
run-Untouched g [] s all = record { incidents = refl; commands = refl }
run-Untouched g (call ∷ calls) s all =
    let first = step-Untouched g call s all.0 in
    let rest = run-Untouched g calls (step call s) all.1 in
    record {
      incidents = rest.incidents ∙ first.incidents;
      commands = rest.commands ∙ first.commands;
    }
