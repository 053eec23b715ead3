-- ===== src/Lifecycle/Deletion.antt =====
-- What `FamilyPrivacyService.delete` of api/data_security/lifecycle.py does to each family.
use hackaton_open_ai.Prelude.{
  ℕ, ◌≡◌, ◌∙◌, refl, sym, ap, String, Bool, true, false, not, ◌&&◌, ◌||◌, none, some, List, [], ◌∷◌,
  ◌++◌, keep, any, all, contains, map, ◌==◌, string_eq, eq_iff, ==_refl, arith, Bool-cases, inl,
  inr, if◌then◌else◌, any-keep, any-drop, append-nil, append_assoc,
}
use hackaton_open_ai.Lifecycle.{
  DeletionTarget, family_target, Family, EvidenceRecord, World, is_at, append, family_evidence,
  is_evidence_accessible, family_exists, mark_evidence_inaccessible, purge_evidence,
  mark_family_inaccessible, delete_family_rows,
}
use hackaton_open_ai.Lifecycle.Ledger.{tombstoned, same_key, tombstoned-append}
use hackaton_open_ai.Lifecycle.Services.{
  FamilyDeletionResult, delete, delete_one, delete_each, finish_deletion, revoke_family, is_empty,
}

abbrev pub failing : (String → Bool) → List EvidenceRecord → List String
failing deletes list =
    map (λ (e : EvidenceRecord). e.id)
      (keep (λ (e : EvidenceRecord). not (deletes e.object_key)) list)

module _ (deletes : String → Bool) (family : String) where
  -- The ids of the evidence whose object stays, in their order.
  delete_each_failed :
      (list : List EvidenceRecord) (s : List String × World)
      → (delete_each deletes family list s).0 ≡ s.0 ++ failing deletes list
  unfolding delete_each delete_one
  delete_each_failed [] s = sym (append-nil s.0)
  delete_each_failed (e ∷ list) s = elim (Bool-cases (deletes e.object_key)) [
    | inl d ↦ delete_each_failed list (delete_one deletes family e s) ∙ rw d refl
    | inr d ↦
        delete_each_failed list (delete_one deletes family e s)
        ∙ rw d (append_assoc s.0 (e.id ∷ []) (failing deletes list))
  ]

  -- What the loop leaves alone.
  delete_each_rest :
      (list : List EvidenceRecord) (s : List String × World)
      → ((delete_each deletes family list s).1.ledger ≡ s.1.ledger)
        × ((delete_each deletes family list s).1.repository.families ≡ s.1.repository.families)
        × ((delete_each deletes family list s).1.repository.inaccessible_families
            ≡ s.1.repository.inaccessible_families)
        × ((delete_each deletes family list s).1.revoked_families ≡ s.1.revoked_families)
  unfolding delete_each delete_one mark_evidence_inaccessible purge_evidence
  delete_each_rest [] s = (refl, refl, refl, refl)
  delete_each_rest (e ∷ list) s = elim (Bool-cases (deletes e.object_key)) [
    | inl d ↦
        let (a, b, c, r) = delete_each_rest list (delete_one deletes family e s) in
        (a ∙ rw d refl, b ∙ rw d refl, c ∙ rw d refl, r ∙ rw d refl)
    | inr d ↦
        let (a, b, c, r) = delete_each_rest list (delete_one deletes family e s) in
        (a ∙ rw d refl, b ∙ rw d refl, c ∙ rw d refl, r ∙ rw d refl)
  ]

module _ (deletes : String → Bool) (family g i : String) (other : (family == g) ≡ false) where
  delete_one_other :
      (e : EvidenceRecord) (s : List String × World)
      → is_evidence_accessible g i (delete_one deletes family e s).1.repository
        ≡ is_evidence_accessible g i s.1.repository
  unfolding delete_one mark_evidence_inaccessible purge_evidence is_evidence_accessible
  delete_one_other e s =
      let kept =
        any-keep (is_at g i) (λ x. not (is_at family e.id x)) s.1.repository.evidence
          (λ x k.
            ground (
              arith,
              k,
              other,
              eq_iff x.family_id g,
              eq_iff x.family_id family,
              eq_iff family g,
            )) in
      ground (arith, other, kept)

  delete_each_other :
      (list : List EvidenceRecord) (s : List String × World)
      → is_evidence_accessible g i (delete_each deletes family list s).1.repository
        ≡ is_evidence_accessible g i s.1.repository
  unfolding delete_each
  delete_each_other [] s = refl
  delete_each_other (e ∷ list) s =
      delete_each_other list (delete_one deletes family e s) ∙ delete_one_other e s

finish_lem :
    (family : String) (s : List String × World)
    → finish_deletion family s ≡ (
      record { completed = is_empty s.0; failed_objects = s.0 },
      if is_empty s.0
          then record s.1 { repository = delete_family_rows family s.1.repository }
          else s.1,
    )
finish_lem family ([], w) = refl
finish_lem family (e ∷ failed, w) = refl

empty-failing :
    (deletes : String → Bool) (list : List EvidenceRecord)
    → is_empty (failing deletes list) ≡ all (λ e. deletes e.object_key) list
empty-failing deletes [] = refl
empty-failing deletes (e ∷ list) = ground (arith, empty-failing deletes list)

contains-snoc : (f : String) (revoked : List String) → contains f (revoked ++ f ∷ []) ≡ true
contains-snoc f [] = ground (arith, ==_refl f)
contains-snoc f (g ∷ revoked) = ground (arith, contains-snoc f revoked)

revoked_once : (f : String) (revoked : List String) → contains f (revoke_family f revoked) ≡ true
unfolding revoke_family
revoked_once f revoked = ground (arith, contains-snoc f revoked)

kept_families :
    (f g : String) (families : List Family)
    → any (λ (x : Family). x.id == f) (keep (λ (x : Family). not (x.id == g)) families)
      ≡ (any (λ (x : Family). x.id == f) families && not (g == f))
kept_families f g [] = refl
kept_families f g (x ∷ families) =
    ground (arith, kept_families f g families, eq_iff x.id f, eq_iff x.id g, eq_iff g f)

-- What a deletion that found its family leaves. It is complete exactly if every object of the family's
-- evidence could be deleted, and names the evidence whose objects could not. In either case no evidence
-- of the family can be read, the revoker was told and the family has a tombstone. No other family is
-- touched, and the family's own row and evidence are gone if it is complete.
pub record IsDeleted (deletes : String → Bool) (family : String) (w : World)
    (result : FamilyDeletionResult) (w' : World) : Type 0 where
  pub completed :
      result.completed ≡ all (λ e. deletes e.object_key) (family_evidence family w.repository)
  pub failed : result.failed_objects ≡ failing deletes (family_evidence family w.repository)
  pub closed : (i : String) → is_evidence_accessible family i w'.repository ≡ false
  pub others :
      (g i : String)
      → (family == g) ≡ false
      → is_evidence_accessible g i w'.repository ≡ is_evidence_accessible g i w.repository
  pub families :
      (g : String)
      → family_exists g w'.repository
        ≡ (family_exists g w.repository && not (result.completed && (family == g)))
  pub evidence :
      (i : String) → result.completed ≡ true → any (is_at family i) w'.repository.evidence ≡ false
  pub tombstone :
      (g : String) (u : DeletionTarget) (j : String)
      → tombstoned g u j w'.ledger
        ≡ (tombstoned g u j w.ledger || same_key family family_target family g u j)
  pub told : contains family w'.revoked_families ≡ true

module _ (deletes : String → Bool) (family : String) (now : ℕ) (w : World) where
  abbrev closed_world : World
  closed_world = record w {
    ledger = (append family family_target family now "REQUESTED" w.ledger).1;
    repository = mark_family_inaccessible family w.repository;
    revoked_families = revoke_family family w.revoked_families;
  }

  abbrev looped : List String × World
  looped = delete_each deletes family (family_evidence family w.repository) ([], closed_world)

  finished-IsDeleted :
      IsDeleted deletes family w (finish_deletion family looped).0 (finish_deletion family looped).1
  unfolding is_evidence_accessible family_exists delete_family_rows mark_family_inaccessible
  finished-IsDeleted =
      let list = family_evidence family w.repository in
      let (ledger, families, closed, told) =
        delete_each_rest deletes family list ([], closed_world) in
      let failed = delete_each_failed deletes family list ([], closed_world) in
      let complete = ap is_empty failed ∙ empty-failing deletes list in
      rw (finish_lem family looped) (record {
        completed = complete;
        failed = failed;
        closed = λ i. ground (arith, closed, ==_refl family);
        others = λ g i other. ground (
          arith,
          other,
          eq_iff g family,
          eq_iff family g,
          delete_each_other deletes family g i other list ([], closed_world),
          any-keep (is_at g i) (λ e. not (e.family_id == family)) looped.1.repository.evidence
              (λ x k. ground (
                arith,
                k,
                other,
                eq_iff x.family_id g,
                eq_iff x.family_id family,
                eq_iff family g,
              )),
        );
        families = λ g. ground (arith, families, kept_families g family w.repository.families);
        evidence = λ i done. ground (
          arith,
          done,
          any-drop (is_at family i) (λ e. not (e.family_id == family)) looped.1.repository.evidence
              (λ x k. ground (arith, k)),
        );
        tombstone = λ g u j. ground (
          arith,
          ledger,
          tombstoned-append family g family_target u family j now "REQUESTED" w.ledger,
        );
        told = ground (arith, told, revoked_once family w.revoked_families);
      })

-- A deletion of a family that does not exist raises. Any other returns and leaves what follows. It is
-- complete exactly if every object of the family's evidence could be deleted, and it names, in their
-- order, the evidence whose objects could not. In either case no evidence of the family can be read, the
-- revoker was told, and the family has a tombstone, which is the only new one. What can be read of other
-- families is what could be, and they exist as before. If it is complete, the family and its evidence are
-- gone, and if not the family's row is kept.
pub delete_lem :
    (deletes : String → Bool) (family : String) (now : ℕ) (w : World)
    → (family_exists family w.repository ≡ false → delete deletes family now w ≡ none)
      × (family_exists family w.repository ≡ true
          → (result : FamilyDeletionResult) × (w' : World) × (delete deletes family now w
              ≡ some (result, w'))
            × IsDeleted deletes family w result w')
unfolding delete family_evidence mark_family_inaccessible
delete_lem deletes family now w = (
  λ e. rw (e, delete) refl,
  λ e. (
    (finish_deletion family (looped deletes family now w)).0,
    (finish_deletion family (looped deletes family now w)).1,
    rw (e, delete) refl,
    finished-IsDeleted deletes family now w,
  ),
)
