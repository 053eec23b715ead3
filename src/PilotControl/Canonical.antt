-- ===== src/PilotControl/Canonical.antt =====
-- `_canonical_payload` of guardian_core/pilot_control.py: the collections of a configuration in a fixed
-- order, so that the digest does not depend on how they were written.
use Prim.Native.String.{[] as empty, ◌∷◌ as after_char}
use Prim.Native.Char.{code}
use hackaton_open_ai.Prelude.{
  ◌≡◌, ◌∙◌, refl, ap, String, Bool, true, false, ◌&&◌, ◌||◌, List, [], ◌∷◌, map, ltb, nat_beq,
  if◌then◌else◌, arith, Bool-cases, inl, inr,
}
use hackaton_open_ai.Pilot.{PilotRolloutConfig, PilotKillSwitch, AlertApproval, BlockPilotApproval}

-- Python compares texts by their code points.
unfoldable pub text_le : String → String → Bool
text_le empty t = true
text_le (after_char c s) empty = false
text_le (after_char c s) (after_char d t) =
    let rest = text_le s t in ltb (code c) (code d) || (nat_beq (code c) (code d) && rest)

module _ {ℓ} {A : Type ℓ} (key : A → String) where
  unfoldable pub insert_by : A → List A → List A
  insert_by x [] = x ∷ []
  insert_by x (y ∷ ys) =
      let rest = insert_by x ys in if text_le (key x) (key y) then x ∷ y ∷ ys else y ∷ rest

  -- `sorted(items, key=key)`, which is stable.
  unfoldable pub sort_by : List A → List A
  unfolding insert_by
  sort_by [] = []
  sort_by (x ∷ xs) = insert_by x (sort_by xs)

abbrev pub sorted : List String → List String
sorted texts = sort_by (λ t. t) texts

abbrev pub alert_payload : AlertApproval → AlertApproval
alert_payload a = record a { cohort_ids = sorted a.cohort_ids }

abbrev pub block_payload : BlockPilotApproval → BlockPilotApproval
block_payload b = record b { cohort_ids = sorted b.cohort_ids }

unfoldable pub canonical_payload : PilotRolloutConfig → PilotRolloutConfig
unfolding sort_by
canonical_payload c = record c {
  cohort_ids = sorted c.cohort_ids;
  technical_telemetry_fields = sorted c.technical_telemetry_fields;
  alert_approvals =
      sort_by (λ (a : AlertApproval). a.approval_id) (map alert_payload c.alert_approvals);
  block_approvals =
      sort_by (λ (b : BlockPilotApproval). b.approval_id) (map block_payload c.block_approvals);
  kill_switches = sort_by (λ (s : PilotKillSwitch). s.switch_id) c.kill_switches;
}

text_le_total : (s t : String) → text_le s t ≡ false → text_le t s ≡ true
unfolding text_le
text_le_total empty t h = cc
text_le_total (after_char c s) empty h = refl
text_le_total (after_char c s) (after_char d t) h = ground (arith, h, text_le_total s t)

module _ {ℓ} {A : Type ℓ} (key : A → String) where
  abbrev IsBelow : A → List A → Type 0
  IsBelow x [] = Unit
  IsBelow x (y ∷ ys) = text_le (key x) (key y) ≡ true

  abbrev IsOrdered : List A → Type 0
  IsOrdered [] = Unit
  IsOrdered (x ∷ xs) = IsBelow x xs × IsOrdered xs

  insert_by-IsBelow :
      (x y : A) (ys : List A)
      → text_le (key y) (key x) ≡ true
      → IsBelow y ys
      → IsBelow y (insert_by key x ys)
  unfolding insert_by
  insert_by-IsBelow x y [] h v = h
  insert_by-IsBelow x y (z ∷ zs) h v = elim (Bool-cases (text_le (key x) (key z))) [
    | inl e ↦ rw e h
    | inr e ↦ rw e v
  ]

  insert_by-IsOrdered : (x : A) (ys : List A) → IsOrdered ys → IsOrdered (insert_by key x ys)
  unfolding insert_by
  insert_by-IsOrdered x [] v = (tt, tt)
  insert_by-IsOrdered x (y ∷ ys) v = elim (Bool-cases (text_le (key x) (key y))) [
    | inl e ↦ rw e (e, v)
    | inr e ↦ rw e (
      insert_by-IsBelow x y ys (text_le_total (key x) (key y) e) v.0,
      insert_by-IsOrdered x ys v.1,
    )
  ]

  sort_by-IsOrdered : (xs : List A) → IsOrdered (sort_by key xs)
  unfolding sort_by
  sort_by-IsOrdered [] = tt
  sort_by-IsOrdered (x ∷ xs) = insert_by-IsOrdered x (sort_by key xs) (sort_by-IsOrdered xs)

  sort_by_ordered : (xs : List A) → IsOrdered xs → sort_by key xs ≡ xs
  unfolding sort_by insert_by
  sort_by_ordered [] v = refl
  sort_by_ordered (x ∷ []) v = refl
  sort_by_ordered (x ∷ y ∷ ys) v = ap (insert_by key x) (sort_by_ordered (y ∷ ys) v.1) ∙ rw v.0 refl

  pub sort_by-sort_by : (xs : List A) → sort_by key (sort_by key xs) ≡ sort_by key xs
  sort_by-sort_by xs = sort_by_ordered (sort_by key xs) (sort_by-IsOrdered xs)

  -- A change of the elements that keeps their keys may come before or after.
  module _ (f : A → A) (same : (x : A) → key (f x) ≡ key x) where
    map-insert_by :
        (x : A) (ys : List A) → map f (insert_by key x ys) ≡ insert_by key (f x) (map f ys)
    unfolding insert_by
    map-insert_by x [] = refl
    map-insert_by x (y ∷ ys) = elim (Bool-cases (text_le (key x) (key y))) [
      | inl e ↦ rw (same x, same y, e) refl
      | inr e ↦ rw (same x, same y, e) (ap (λ l. f y ∷ l) (map-insert_by x ys))
    ]

    map-sort_by : (xs : List A) → map f (sort_by key xs) ≡ sort_by key (map f xs)
    unfolding sort_by
    map-sort_by [] = refl
    map-sort_by (x ∷ xs) =
        map-insert_by x (sort_by key xs) ∙ ap (insert_by key (f x)) (map-sort_by xs)

    map_again : ((x : A) → f (f x) ≡ f x) → (xs : List A) → map f (map f xs) ≡ map f xs
    map_again twice [] = refl
    map_again twice (x ∷ xs) = rw (twice x, map_again twice xs) refl

    pub payload_again :
        ((x : A) → f (f x) ≡ f x)
        → (xs : List A) → sort_by key (map f (sort_by key (map f xs))) ≡ sort_by key (map f xs)
    payload_again twice xs =
        ap (sort_by key) (map-sort_by (map f xs) ∙ ap (sort_by key) (map_again twice xs))
        ∙ sort_by-sort_by (map f xs)

-- A configuration that was written and read back is written as before.
pub canonical_payload-canonical_payload :
    (c : PilotRolloutConfig) → canonical_payload (canonical_payload c) ≡ canonical_payload c
unfolding canonical_payload
canonical_payload-canonical_payload c =
    rw
      (
        sort_by-sort_by (λ t. t) c.cohort_ids,
        sort_by-sort_by (λ t. t) c.technical_telemetry_fields,
        payload_again (λ (a : AlertApproval). a.approval_id) alert_payload (λ a. refl)
            (λ a. ap (λ l. record a { cohort_ids = l }) (sort_by-sort_by (λ t. t) a.cohort_ids))
            c.alert_approvals,
        payload_again (λ (b : BlockPilotApproval). b.approval_id) block_payload (λ b. refl)
            (λ b. ap (λ l. record b { cohort_ids = l }) (sort_by-sort_by (λ t. t) b.cohort_ids))
            c.block_approvals,
        sort_by-sort_by (λ (s : PilotKillSwitch). s.switch_id) c.kill_switches,
      )
      refl
