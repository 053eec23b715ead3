-- ===== src/Store/Commands.antt =====
-- Every unlocked incident of api/storage.py has exactly one unlock command, and no other incident
-- has any.
use hackaton_open_ai.Prelude.{
  ℕ, ◌+◌, ◌≡◌, ◌≢◌, refl, String, Bool, true, List, [], ◌∷◌, some, arith, All, any, find, find-some,
  find_all, All-zip, All-map, All-snoc, Bool-cases, inl, inr, if◌then◌else◌, ◌==◌, string_eq,
  ==_refl, sym, ◌∙◌, ap, subst, eq_iff,
}
use hackaton_open_ai.Store.Tables.{Store, IncidentRow, CommandRow, unlocked, status_eq}
use hackaton_open_ai.Store.Where.{
  update_where, count_where, All-update_where, All-updated, count_where-append,
}
use hackaton_open_ai.Store.Incidents.{
  find_incident, names, unlock_row, set_incident, is_open, status_row,
}

abbrev pub commands_of : String → List CommandRow → ℕ
commands_of id = count_where (λ c. c.incident_id == id)

abbrev pub expected : IncidentRow → ℕ
expected row = if row.status == unlocked then 1 else 0

-- No two rows have one id.
abbrev pub Distinct : List IncidentRow → Type 0
Distinct [] = Unit
Distinct (row ∷ rows) = All (λ r. r.id ≢ row.id) rows × Distinct rows

pub record IsAccounted (s : Store) : Type 0 where
  pub distinct : Distinct s.incidents
  pub counted : All (λ r. commands_of r.id s.commands ≡ expected r) s.incidents
  pub referenced : All (λ c. any (λ r. r.id == c.incident_id) s.incidents ≡ true) s.commands

module _ (test : IncidentRow → Bool) (change : IncidentRow → IncidentRow)
    (keeps : (r : IncidentRow) → (change r).id ≡ r.id) where
  others_distinct :
      (id : String) (rows : List IncidentRow)
      → All (λ r. r.id ≢ id) rows
      → All (λ r. r.id ≢ id) (update_where test change rows)
  others_distinct id rows all =
      All-update_where (λ r. r.id ≢ id) test change rows (λ r t ne e. ne (sym (keeps r) ∙ e)) all

  Distinct-update_where :
      (rows : List IncidentRow) → Distinct rows → Distinct (update_where test change rows)
  unfolding update_where
  Distinct-update_where [] d = tt
  Distinct-update_where (r ∷ rows) d = elim (Bool-cases (test r)) [
    | inl t ↦ rw t (
      subst (λ x. All (λ y. y.id ≢ x) (update_where test change rows)) (sym (keeps r))
          (others_distinct r.id rows d.0),
      Distinct-update_where rows d.1,
    )
    | inr t ↦ rw t (others_distinct r.id rows d.0, Distinct-update_where rows d.1)
  ]

  any_id-update_where :
      (id : String) (rows : List IncidentRow)
      → any (λ r. r.id == id) (update_where test change rows) ≡ any (λ r. r.id == id) rows
  unfolding update_where
  any_id-update_where id [] = refl
  any_id-update_where id (r ∷ rows) = ground (arith, keeps r, any_id-update_where id rows)

-- The row that was found has the family and the id that were asked for.
pub names_parts :
    (family id : String) (r : IncidentRow)
    → names family id r ≡ true
    → (r.family_id ≡ family) × (r.id ≡ id)
names_parts family id r h = ground (arith, eq_iff r.family_id family, eq_iff r.id id)

-- In a table without repeated ids, a row with the id that was found is the row that was found.
same_row :
    (family id : String) (rows : List IncidentRow) (row : IncidentRow)
    → Distinct rows
    → find (names family id) rows ≡ some row
    → All (λ r. r.id ≡ id → names family id r ≡ true) rows
same_row family id [] row d found = tt
same_row family id (r ∷ rows) row d found = elim (Bool-cases (names family id r)) [
  | inl t ↦ (
    λ e. t,
    All-map (λ x. x.id ≢ r.id) (λ x. x.id ≡ id → names family id x ≡ true) rows
        (λ x ne e. absurd (ne (e ∙ sym (names_parts family id r t).1))) d.0,
  )
  | inr t ↦
      let later : find (names family id) rows ≡ some row = ground arith in
      (
        λ e. absurd (
            find_all (λ x. x.id ≢ r.id) (names family id) rows row d.0 later
              ((names_parts family id row (find-some (names family id) rows row later)).1 ∙ sym e)),
        same_row family id rows row d.1 later,
      )
]

module _ (family id : String) (s : Store) (row : IncidentRow)
    (found : find_incident family id s ≡ some row) (a : IsAccounted s) where
  pub row-names : names family id row ≡ true
  unfolding find_incident
  row-names = find-some (names family id) s.incidents row found

  open_uncounted : is_open row.status ≡ true → commands_of id s.commands ≡ 0
  unfolding find_incident
  open_uncounted opened =
      let counted =
        find_all (λ r. commands_of r.id s.commands ≡ expected r) (names family id) s.incidents row
          a.counted found in
      ap (λ x. commands_of x s.commands) (sym (names_parts family id row row-names).1)
      ∙ counted
      ∙ ground arith

  referenced_after :
      (change : IncidentRow → IncidentRow)
      → ((r : IncidentRow) → (change r).id ≡ r.id)
      → All
          (λ c. any (λ r. r.id == c.incident_id) (set_incident family id change s).incidents ≡ true)
          s.commands
  referenced_after change keeps =
      All-map (λ c. any (λ r. r.id == c.incident_id) s.incidents ≡ true)
        (λ c. any (λ r. r.id == c.incident_id) (set_incident family id change s).incidents ≡ true)
        s.commands
        (λ c h. any_id-update_where (names family id) change keeps c.incident_id s.incidents ∙ h)
        a.referenced

  -- A change of an open incident to a status that is not UNLOCKED.
  pub set_incident-IsAccounted :
      (change : IncidentRow → IncidentRow)
      → ((r : IncidentRow) → (change r).id ≡ r.id)
      → ((r : IncidentRow) → expected (change r) ≡ 0)
      → is_open row.status ≡ true
      → IsAccounted (set_incident family id change s)
  set_incident-IsAccounted change keeps closed opened = record {
    distinct = Distinct-update_where (names family id) change keeps s.incidents a.distinct;
    counted =
        All-update_where (λ r. commands_of r.id s.commands ≡ expected r) (names family id) change
          s.incidents
          (λ r t h.
            ap (λ x. commands_of x s.commands) (keeps r ∙ (names_parts family id r t).1)
            ∙ open_uncounted opened
            ∙ sym (closed r))
          a.counted;
    referenced = referenced_after change keeps;
  }

  abbrev unlocked_store : ℕ → Store
  unlocked_store now = unlock_row row family id now s

  -- The command that is queued counts for the incident, and for no other.
  commands_of-unlock_row :
      (x : String) (now : ℕ)
      → commands_of x (unlocked_store now).commands
        ≡ commands_of x s.commands + (if id == x then 1 else 0)
  unfolding unlock_row
  commands_of-unlock_row x now = count_where-append (λ c. c.incident_id == x) s.commands _

  unlocked_counted :
      (now : ℕ)
      → is_open row.status ≡ true
      → All
          (λ r. commands_of r.id (unlocked_store now).commands ≡ expected r)
          (update_where (names family id) (status_row unlocked now) s.incidents)
  unfolding find_incident
  unlocked_counted now opened =
      All-updated
        (λ r. (commands_of r.id s.commands ≡ expected r) × (r.id ≡ id → names family id r ≡ true))
        (λ r. commands_of r.id (unlocked_store now).commands ≡ expected r) (names family id)
        (status_row unlocked now) s.incidents
        (λ r t h.
          let e = (names_parts family id r t).1 in
          commands_of-unlock_row r.id now
          ∙ subst (λ x. commands_of x s.commands + (if id == x then 1 else 0) ≡ 1) (sym e)
              (ground (arith, open_uncounted opened, ==_refl id)))
        (λ r t h.
          commands_of-unlock_row r.id now
          ∙ ground (arith, h.0, eq_iff id r.id, λ (e : r.id ≡ id). h.1 e))
        (All-zip (λ r. commands_of r.id s.commands ≡ expected r)
          (λ r. r.id ≡ id → names family id r ≡ true) s.incidents a.counted
          (same_row family id s.incidents row a.distinct found))

  -- The incident of the queued command is in the table.
  found_referenced :
      (rows : List IncidentRow)
      → find (names family id) rows ≡ some row
      → any (λ r. r.id == id) rows ≡ true
  found_referenced [] h = cc
  found_referenced (r ∷ rows) h = elim (Bool-cases (names family id r)) [
    | inl t ↦ ground (arith, eq_iff r.id id, names_parts family id r t)
    | inr t ↦ ground (arith, found_referenced rows)
  ]

  pub unlock_row-IsAccounted :
      (now : ℕ) → is_open row.status ≡ true → IsAccounted (unlocked_store now)
  unfolding unlock_row find_incident
  unlock_row-IsAccounted now opened = record {
    distinct =
        Distinct-update_where (names family id) (status_row unlocked now) (λ r. refl) s.incidents
          a.distinct;
    counted = unlocked_counted now opened;
    referenced =
        All-snoc
          (λ c.
            any (λ r. r.id == c.incident_id)
              (update_where (names family id) (status_row unlocked now) s.incidents)
            ≡ true)
          s.commands _ (referenced_after (status_row unlocked now) (λ r. refl))
          (any_id-update_where (names family id) (status_row unlocked now) (λ r. refl) id
              s.incidents
            ∙ found_referenced s.incidents found);
  }
