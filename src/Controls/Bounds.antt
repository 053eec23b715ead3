-- ===== src/Controls/Bounds.antt =====
-- The calibration curve covers every score, and its lowest value bounds the result from below.
use hackaton_open_ai.Prelude.{
  ℕ, ◌≤◌, ◌<◌, ◌≡◌, true, some, List, [], ◌∷◌, arith, last?, Bool-cases, inl, inr, leb, ltb, false,
  length,
}
use hackaton_open_ai.Controls.Calibrate.{
  CalibrationPoint, CategoryControls, FloatOps, validate_ordering, monotonic, segments, interpolate,
  calibrate_points, calibrate_confidence,
}

module _ (f : FloatOps) (raw : ℕ) where
  segments_total :
      (p : CalibrationPoint) (points : List CalibrationPoint) (end : CalibrationPoint)
      → last? (p ∷ points) ≡ some end
      → p.raw ≤ raw
      → raw < end.raw
      → (c : ℕ) × (segments f raw (p ∷ points) ≡ some c)
  unfolding segments
  segments_total p [] end last low high = absurd (ground arith)
  segments_total p (q ∷ points) end last low high = elim (Bool-cases (leb raw q.raw)) [
    | inl inside ↦ (interpolate f raw p q, ground arith)
    | inr above ↦
        let (c, e) = segments_total q points end last (ground arith) high in (c, ground arith)
  ]

  segments-ge :
      ((a d : ℕ) → a ≤ f.add a d)
      → (p : CalibrationPoint) (points : List CalibrationPoint) (c : ℕ)
      → monotonic (p ∷ points) ≡ true
      → segments f raw (p ∷ points) ≡ some c
      → p.calibrated ≤ c
  unfolding segments
  segments-ge grows p [] c mono h = cc
  segments-ge grows p (q ∷ points) c mono h = ground (
    arith,
    segments-ge grows q points c,
    grows p.calibrated
        (f.mul (f.div (f.sub raw p.raw) (f.sub q.raw p.raw)) (f.sub q.calibrated p.calibrated)),
  )

last?-cons :
    (p : CalibrationPoint) (points : List CalibrationPoint)
    → (end : CalibrationPoint) × (last? (p ∷ points) ≡ some end)
last?-cons p [] = (p, ground arith)
last?-cons p (q ∷ points) = last?-cons q points

last?-ge :
    (p : CalibrationPoint) (points : List CalibrationPoint) (end : CalibrationPoint)
    → monotonic (p ∷ points) ≡ true
    → last? (p ∷ points) ≡ some end
    → p.calibrated ≤ end.calibrated
last?-ge p [] end mono last = ground arith
last?-ge p (q ∷ points) end mono last = ground (arith, last?-ge q points end)

-- The value of the curve's first point, its lowest.
abbrev pub lowest : List CalibrationPoint → ℕ
lowest [] = 0
lowest (p ∷ points) = p.calibrated

module _ (f : FloatOps) (raw : ℕ) (grows : (a d : ℕ) → a ≤ f.add a d) where
  calibrate_points_bounded :
      (p : CalibrationPoint) (points : List CalibrationPoint) (end : CalibrationPoint)
      → monotonic (p ∷ points) ≡ true
      → last? (p ∷ points) ≡ some end
      → (c : ℕ) × (calibrate_points f raw (p ∷ points) (some end) ≡ some c) × (p.calibrated ≤ c)
  unfolding calibrate_points
  calibrate_points_bounded p points end mono last = elim (Bool-cases (leb raw p.raw)) [
    | inl low ↦ (p.calibrated, ground arith, ground arith)
    | inr above ↦ elim (Bool-cases (leb end.raw raw)) [
      | inl high ↦ (end.calibrated, ground arith, ground (arith, last?-ge p points end))
      | inr inside ↦
          let (c, e) = segments_total f raw p points end last (ground arith) (ground arith) in
          (c, ground arith, segments-ge f raw grows p points c mono e)
    ]
  ]

  curve_bounded :
      (points : List CalibrationPoint)
      → ltb (length points) 2 ≡ false
      → monotonic points ≡ true
      → (value : ℕ) × (calibrate_points f raw points (last? points) ≡ some value)
        × (lowest points ≤ value)
  curve_bounded [] long mono = absurd (ground arith)
  curve_bounded (p ∷ points) long mono =
      let (end, last) = last?-cons p points in
      rw last (calibrate_points_bounded p points end mono last)

  -- On controls that `validate_ordering` accepts, every score has a calibrated value, neither the
  -- `IndexError` nor the `AssertionError` is met, and the value is at least the curve's lowest. It is
  -- assumed that a rounded sum of non-negative doubles is not below its first summand.
  calibrate_confidence_bounded :
      (c : CategoryControls)
      → validate_ordering c ≡ true
      → (value : ℕ) × (calibrate_confidence f raw c ≡ some value) × (lowest c.calibration ≤ value)
  unfolding calibrate_confidence validate_ordering
  calibrate_confidence_bounded c valid = curve_bounded c.calibration (ground arith) (ground arith)
