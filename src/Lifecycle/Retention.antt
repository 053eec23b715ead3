-- ===== src/Lifecycle/Retention.antt =====
-- What `RetentionCoordinator.expire` of api/data_security/lifecycle.py does to each evidence.
use hackaton_open_ai.Prelude.{
  ℕ, leb, ◌≡◌, ◌∙◌, refl, String, Bool, true, false, not, ◌&&◌, ◌||◌, List, [], ◌∷◌, any, contains,
  ◌==◌, string_eq, eq_iff, arith, Bool-cases, inl, inr, any-keep, any-drop, any-keep_both, and_true,
  and_not, or_false, or_assoc,
}
use hackaton_open_ai.Lifecycle.{
  evidence_target, EvidenceRecord, World, is_at, expired_evidence, mark_evidence_inaccessible,
  purge_evidence, is_evidence_accessible,
}
use hackaton_open_ai.Lifecycle.Ledger.{tombstoned, tombstoned-append}
use hackaton_open_ai.Lifecycle.Services.{
  RetentionResult, expire_one, expire_each, expire, remove_object,
}

contains-remove :
    (key f : String) (objects : List String)
    → contains f (remove_object key objects) ≡ (contains f objects && not (f == key))
unfolding remove_object
contains-remove key f [] = refl
contains-remove key f (k ∷ objects) =
    ground (arith, contains-remove key f objects, eq_iff k key, eq_iff f key, eq_iff f k)

-- An evidence with another key has another key than a row with the key.
apart :
    (f i : String) (e x : EvidenceRecord)
    → is_at f i e ≡ false
    → is_at f i x ≡ true
    → not (is_at e.family_id e.id x) ≡ true
apart f i e x h g = ground (
  arith,
  h,
  g,
  eq_iff x.family_id f,
  eq_iff x.id i,
  eq_iff x.family_id e.family_id,
  eq_iff x.id e.id,
  eq_iff e.family_id f,
  eq_iff e.id i,
)

together :
    (f i : String) (e x : EvidenceRecord)
    → is_at f i e ≡ true
    → is_at f i x ≡ true
    → not (is_at e.family_id e.id x) ≡ false
together f i e x h g = ground (
  arith,
  h,
  g,
  eq_iff x.family_id f,
  eq_iff x.id i,
  eq_iff x.family_id e.family_id,
  eq_iff x.id e.id,
  eq_iff e.family_id f,
  eq_iff e.id i,
)

-- One evidence closes its key and no other, and it goes where its object went.
module _ (deletes : String → Bool) (now : ℕ) (f i : String) (e : EvidenceRecord)
    (r : RetentionResult) (w : World) where
  expire_one_accessible :
      is_evidence_accessible f i (expire_one deletes now e (r, w)).1.repository
      ≡ (is_evidence_accessible f i w.repository && not (is_at f i e))
  unfolding expire_one mark_evidence_inaccessible purge_evidence is_evidence_accessible
  expire_one_accessible = elim (Bool-cases (is_at f i e)) [
    | inl h ↦ ground (arith, h)
    | inr h ↦
        let kept =
          any-keep (is_at f i) (λ x. not (is_at e.family_id e.id x)) w.repository.evidence
            (λ x g. apart f i e x h g) in
        ground (arith, h, kept)
  ]

  expire_one_present :
      any (is_at f i) (expire_one deletes now e (r, w)).1.repository.evidence
      ≡ (any (is_at f i) w.repository.evidence && not (is_at f i e && deletes e.object_key))
  unfolding expire_one mark_evidence_inaccessible purge_evidence
  expire_one_present = elim (Bool-cases (is_at f i e)) [
    | inl h ↦
        let dropped =
          any-drop (is_at f i) (λ x. not (is_at e.family_id e.id x)) w.repository.evidence
            (λ x g. together f i e x h g) in
        ground (arith, h, dropped)
    | inr h ↦
        let kept =
          any-keep (is_at f i) (λ x. not (is_at e.family_id e.id x)) w.repository.evidence
            (λ x g. apart f i e x h g) in
        ground (arith, h, kept)
  ]

  tombstoned-expire_one :
      tombstoned f evidence_target i (expire_one deletes now e (r, w)).1.ledger
      ≡ (tombstoned f evidence_target i w.ledger || is_at f i e)
  unfolding expire_one
  tombstoned-expire_one =
      let appended =
        tombstoned-append e.family_id f evidence_target evidence_target e.id i now "TTL_EXPIRED"
          w.ledger in
      elim (Bool-cases (deletes e.object_key)) [ inl d ↦ rw d appended | inr d ↦ rw d appended ]

  expire_one_object :
      contains f (expire_one deletes now e (r, w)).1.objects
      ≡ (contains f w.objects && not (deletes e.object_key && (f == e.object_key)))
  unfolding expire_one remove_object
  expire_one_object = ground (arith, contains-remove e.object_key f w.objects)

-- Each evidence of the list closes its key and no other, whether its object goes or not.
module _ (deletes : String → Bool) (now : ℕ) (f i : String) where
  expire_each_accessible :
      (list : List EvidenceRecord) (s : RetentionResult × World)
      → is_evidence_accessible f i (expire_each deletes now list s).1.repository
        ≡ (is_evidence_accessible f i s.1.repository && not (any (is_at f i) list))
  unfolding expire_each
  expire_each_accessible [] s = and_true _
  expire_each_accessible (e ∷ list) s =
      expire_each_accessible list (expire_one deletes now e s)
      ∙ rw (expire_one_accessible deletes now f i e s.0 s.1) (and_not _ (is_at f i e) _)

  expire_each_present :
      (list : List EvidenceRecord) (s : RetentionResult × World)
      → any (is_at f i) (expire_each deletes now list s).1.repository.evidence ≡ (
          any (is_at f i) s.1.repository.evidence
          && not (any (λ e. is_at f i e && deletes e.object_key) list))
  unfolding expire_each
  expire_each_present [] s = and_true _
  expire_each_present (e ∷ list) s =
      expire_each_present list (expire_one deletes now e s)
      ∙ rw (expire_one_present deletes now f i e s.0 s.1)
          (and_not _ (is_at f i e && deletes e.object_key) _)

  tombstoned-expire_each :
      (list : List EvidenceRecord) (s : RetentionResult × World)
      → tombstoned f evidence_target i (expire_each deletes now list s).1.ledger
        ≡ (tombstoned f evidence_target i s.1.ledger || any (is_at f i) list)
  unfolding expire_each
  tombstoned-expire_each [] s = or_false _
  tombstoned-expire_each (e ∷ list) s =
      tombstoned-expire_each list (expire_one deletes now e s)
      ∙ rw (tombstoned-expire_one deletes now f i e s.0 s.1) (or_assoc _ (is_at f i e) _)

  expire_each_object :
      (list : List EvidenceRecord) (s : RetentionResult × World)
      → contains f (expire_each deletes now list s).1.objects ≡ (
          contains f s.1.objects
          && not (any (λ e. deletes e.object_key && (f == e.object_key)) list))
  unfolding expire_each
  expire_each_object [] s = and_true _
  expire_each_object (e ∷ list) s =
      expire_each_object list (expire_one deletes now e s)
      ∙ rw (expire_one_object deletes now f i e s.0 s.1)
          (and_not _ (deletes e.object_key && (f == e.object_key)) _)

-- What a pass of the retention leaves, for each family and evidence id: it can be read if it could be
-- before and has not expired, whether the object store fails or not; it has a tombstone if it had one or
-- has expired; and its row is there still if it has not expired, or its object could not be deleted, so
-- that a later pass tries it again.
pub record IsExpired (deletes : String → Bool) (now : ℕ) (f i : String) (w w' : World)
    : Type 0 where
  pub accessible : is_evidence_accessible f i w'.repository ≡ (
      is_evidence_accessible f i w.repository
      && not (any (λ e. is_at f i e && leb e.expires_at now) w.repository.evidence))
  pub tombstone : tombstoned f evidence_target i w'.ledger ≡ (
      tombstoned f evidence_target i w.ledger
      || any (λ e. is_at f i e && leb e.expires_at now) w.repository.evidence)
  pub present : any (is_at f i) w'.repository.evidence ≡ (
      any (is_at f i) w.repository.evidence
      && not (
          any
            (λ e. (is_at f i e && deletes e.object_key) && leb e.expires_at now)
            w.repository.evidence))

-- After a pass of the retention, for each family and evidence id: the evidence can be read if it could
-- be before and no row with the key has expired, whether the object store fails or not; it has a
-- tombstone if it had one or a row with the key has expired; and a row with the key is there if one was
-- and no expired one had its object deleted, so that a later pass tries it again.
pub expire-IsExpired :
    (deletes : String → Bool) (now : ℕ) (f i : String) (w : World)
    → IsExpired deletes now f i w (expire deletes now w).1
unfolding expire expired_evidence
expire-IsExpired deletes now f i w =
    let start : RetentionResult × World = (record { deleted = 0; failed = 0 }, w) in
    let list = expired_evidence now w.repository in
    record {
      accessible =
          expire_each_accessible deletes now f i list start
          ∙ rw (any-keep_both (is_at f i) (λ e. leb e.expires_at now) w.repository.evidence) refl;
      tombstone =
          tombstoned-expire_each deletes now f i list start
          ∙ rw (any-keep_both (is_at f i) (λ e. leb e.expires_at now) w.repository.evidence) refl;
      present =
          expire_each_present deletes now f i list start
          ∙ rw
              (any-keep_both (λ e. is_at f i e && deletes e.object_key) (λ e. leb e.expires_at now)
                w.repository.evidence)
              refl;
    }

-- An object is gone after a pass of the retention exactly if it was, or it is that of an expired evidence
-- and could be deleted.
expire_objects :
    (deletes : String → Bool) (now : ℕ) (key : String) (w : World)
    → contains key (expire deletes now w).1.objects ≡ (
        contains key w.objects
        && not (
            any
              (λ e. (deletes e.object_key && (key == e.object_key)) && leb e.expires_at now)
              w.repository.evidence))
unfolding expire expired_evidence
expire_objects deletes now key w =
    expire_each_object deletes now key key (expired_evidence now w.repository)
      (record { deleted = 0; failed = 0 }, w)
    ∙ rw
        (any-keep_both (λ e. deletes e.object_key && (key == e.object_key))
          (λ e. leb e.expires_at now) w.repository.evidence)
        refl
