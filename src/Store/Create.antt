-- ===== src/Store/Create.antt =====
-- A new incident of api/storage.py has no commands, and a duplicate is returned as it is.
use hackaton_open_ai.Prelude.{
  ℕ, ◌≡◌, ◌≢◌, refl, String, Bool, true, false, List, [], ◌∷◌, some, ok, arith, All, All-map, any,
  find, format, Bool-cases, Option-cases, inl, inr, ◌==◌, string_eq, Result-cases, ==_cases, sym,
  subst, ◌⊎◌, ◌∙◌, true≢false,
}
use hackaton_open_ai.Model.{RiskCategory, RiskDirection}
use hackaton_open_ai.Store.Tables.{Store, IncidentRow, CommandRow, unlocked, status_eq}
use hackaton_open_ai.Store.Incidents.{
  IncidentCreate, insert_incident, resolve_duplicate, insert_or_resolve, create_incident,
  incident_values, device_child, has_key,
}
use hackaton_open_ai.Store.Where.{count_where}
use hackaton_open_ai.Store.Commands.{IsAccounted, commands_of, expected}

absent :
    (id : String) (rows : List IncidentRow)
    → any (λ r. r.id == id) rows ≡ false
    → All (λ r. r.id ≢ id) rows
absent id [] h = tt
absent id (r ∷ rows) h = elim (==_cases r.id id) [
  | inl (t, e) ↦ absurd (true≢false (sym t ∙ ground arith))
  | inr (t, ne) ↦ (ne, absent id rows (ground arith))
]

uncounted :
    (id : String) (rows : List IncidentRow) (commands : List CommandRow)
    → any (λ r. r.id == id) rows ≡ false
    → All (λ c. any (λ r. r.id == c.incident_id) rows ≡ true) commands
    → commands_of id commands ≡ 0
unfolding count_where
uncounted id rows [] h all = refl
uncounted id rows (c ∷ commands) h all = elim (==_cases c.incident_id id) [
  | inl (t, e) ↦
      let listed : any (λ r. r.id == id) rows ≡ true =
        subst (λ x. any (λ r. r.id == x) rows ≡ true) e all.0 in
      absurd (true≢false (sym listed ∙ h))
  | inr (t, ne) ↦ rw t (uncounted id rows commands h all.1)
]

-- A row that the keys admit is a new one, and stands in front.
pub insert_incident-some :
    (row : IncidentRow) (s s' : Store)
    → insert_incident row s ≡ some s'
    → (any (λ r. r.id == row.id) s.incidents ≡ false)
      × (record s { incidents = row ∷ s.incidents } ≡ s')
unfolding insert_incident
insert_incident-some row s s' h = ground arith

-- A row that the keys admit, and that is not UNLOCKED, can be inserted.
pub insert_incident-IsAccounted :
    (row : IncidentRow) (s s' : Store)
    → insert_incident row s ≡ some s'
    → expected row ≡ 0
    → IsAccounted s
    → IsAccounted s'
insert_incident-IsAccounted row s s' h fresh a =
    let (new, e) = insert_incident-some row s s' h in
    subst IsAccounted e (record {
      distinct = (absent row.id s.incidents new, a.distinct);
      counted = (uncounted row.id s.incidents s.commands new a.referenced ∙ sym fresh, a.counted);
      referenced =
          All-map (λ c. any (λ r. r.id == c.incident_id) s.incidents ≡ true)
            (λ c. any (λ r. r.id == c.incident_id) (row ∷ s.incidents) ≡ true) s.commands
            (λ c t. ground arith) a.referenced;
    })

-- The tables after the handler: as before, or with one of the rows inserted.
unfoldable pub Inserted : (String → String → IncidentRow) → Store → Store → Type 0
Inserted values s s' =
    (s ≡ s') ⊎ ((i : String) × (k : String) × (insert_incident (values i k) s ≡ some s'))

module _ (values : String → String → IncidentRow) where
  abbrev retried : IncidentCreate → String → String
  retried request suffix = format (request.deduplication_key ∷ ":" ∷ suffix ∷ [])

  resolve_duplicate-Inserted :
      (family second_id suffix found : String) (request : IncidentCreate) (created : Bool)
      (s s' : Store)
      → resolve_duplicate values family request second_id suffix s ≡ ok (found, created, s')
      → Inserted values s s'
  unfolding resolve_duplicate Inserted
  resolve_duplicate-Inserted family second_id suffix found request created s s' h =
      elim (Option-cases
        (find (has_key family request.device_id request.deduplication_key) s.incidents)) [
          | inl e ↦ absurd (ground (arith, e))
          | inr (duplicate, e) ↦ elim (Bool-cases (duplicate.status == unlocked)) [
            | inl t ↦
                elim (Option-cases
                  (insert_incident (values second_id (retried request suffix)) s)) [
                    | inl n ↦ absurd (ground (arith, e, n))
                    | inr (inserted, y) ↦
                        inr (second_id, retried request suffix, ground (arith, e, y))
                  ]
            | inr t ↦ inl (ground (arith, e))
          ]
        ]

  insert_or_resolve-Inserted :
      (family id second_id suffix found : String) (request : IncidentCreate) (created : Bool)
      (s s' : Store)
      → insert_or_resolve values family request id second_id suffix s ≡ ok (found, created, s')
      → Inserted values s s'
  unfolding insert_or_resolve Inserted
  insert_or_resolve-Inserted family id second_id suffix found request created s s' h =
      elim (Option-cases (insert_incident (values id request.deduplication_key) s)) [
        | inl n ↦
            resolve_duplicate-Inserted family second_id suffix found request created s s'
              (rw (n, insert_or_resolve) at h)
        | inr (inserted, y) ↦ inr (id, request.deduplication_key, ground (arith, y))
      ]

  Inserted-IsAccounted :
      (s s' : Store)
      → ((i k : String) → expected (values i k) ≡ 0)
      → Inserted values s s'
      → IsAccounted s
      → IsAccounted s'
  unfolding Inserted
  Inserted-IsAccounted s s' fresh (inl e) a = subst IsAccounted e a
  Inserted-IsAccounted s s' fresh (inr (i, k, e)) a =
      insert_incident-IsAccounted (values i k) s s' e (fresh i k) a

-- A creation that succeeds went through the insertion.
pub create_incident_inserts :
    (family id second_id suffix : String) (request : IncidentCreate) (now : ℕ) (created : Bool)
    (row : IncidentRow) (s s' : Store)
    → create_incident family request id second_id suffix now s ≡ ok (row, created, s')
    → (c : RiskCategory) × (d : RiskDirection) × Inserted
        (λ i k. incident_values family request c d i now k)
        s
        s'
unfolding create_incident
create_incident_inserts family id second_id suffix request now created row s s' h =
    elim (Option-cases request.assessment.category) [
      | inl e ↦ absurd (ground (arith, e))
      | inr (c, e) ↦ elim (Option-cases request.assessment.direction) [
        | inl f ↦ absurd (ground (arith, e, f))
        | inr (d, f) ↦ elim (Result-cases (device_child family request.device_id s)) [
          | inl (x, g) ↦ absurd (ground (arith, e, f, g))
          | inr (child, g) ↦
              elim (Result-cases (
                insert_or_resolve (λ i k. incident_values family request c d i now k) family request
                  id second_id suffix s)) [
                    | inl (x, y) ↦ absurd (ground (arith, e, f, g, y))
                    | inr ((found, new, after), y) ↦ (
                      c,
                      d,
                      insert_or_resolve-Inserted (λ i k. incident_values family request c d i now k)
                          family id second_id suffix found request new s s'
                          (ground (arith, e, f, g, y)),
                    )
                  ]
        ]
      ]
    ]

pub create_incident-IsAccounted :
    (family id second_id suffix : String) (request : IncidentCreate) (now : ℕ) (created : Bool)
    (row : IncidentRow) (s s' : Store)
    → create_incident family request id second_id suffix now s ≡ ok (row, created, s')
    → IsAccounted s
    → IsAccounted s'
create_incident-IsAccounted family id second_id suffix request now created row s s' h =
    let (c, d, inserted) =
      create_incident_inserts family id second_id suffix request now created row s s' h in
    Inserted-IsAccounted (λ i k. incident_values family request c d i now k) s s'
      (λ i k. ground (arith)) inserted
