-- ===== src/Controls/Calibrate.antt =====
-- The calibration curve of risk_engine/calibration.py: `CategoryControls` and
-- `calibrate_confidence`. The arithmetic of doubles is a parameter.
use hackaton_open_ai.Prelude.{
  ℕ, Bool, true, false, not, ◌&&◌, Option, none, some, List, [], ◌∷◌, length, last?, ltb, leb,
  if◌then◌else◌, nat_eq,
}

pub record CalibrationPoint : Type 0 where
  pub raw : ℕ
  pub calibrated : ℕ

pub record CategoryControls : Type 0 where
  pub calibration : List CalibrationPoint
  pub log_threshold : ℕ
  pub alert_threshold : ℕ
  pub block_threshold : ℕ

-- `raw_values == sorted(raw_values)` with no repeated value: each below the next.
abbrev pub strictly_increasing : List CalibrationPoint → Bool
strictly_increasing [] = true
strictly_increasing (p ∷ []) = true
strictly_increasing (p ∷ q ∷ points) = ltb p.raw q.raw && strictly_increasing (q ∷ points)

-- `calibrated_values == sorted(calibrated_values)`: none above the next.
abbrev pub monotonic : List CalibrationPoint → Bool
monotonic [] = true
monotonic (p ∷ []) = true
monotonic (p ∷ q ∷ points) = leb p.calibrated q.calibrated && monotonic (q ∷ points)

-- `CategoryControls.validate_ordering`: whether the validator returns.
unfoldable pub validate_ordering : CategoryControls → Bool
validate_ordering c =
    if not (ltb c.log_threshold c.alert_threshold && ltb c.alert_threshold c.block_threshold)
    then false
    else if ltb (length c.calibration) 2
    then false
    else if not (strictly_increasing c.calibration)
    then false
    else if not (monotonic c.calibration)
    then false
    else true

-- The four operations on non-negative doubles, in units of 2 ^ -1074. A ratio counts the same units.
pub record FloatOps : Type 0 where
  pub add : ℕ → ℕ → ℕ
  pub sub : ℕ → ℕ → ℕ
  pub mul : ℕ → ℕ → ℕ
  pub div : ℕ → ℕ → ℕ

module _ (f : FloatOps) where
  abbrev pub interpolate : ℕ → CalibrationPoint → CalibrationPoint → ℕ
  interpolate raw left right =
      let distance = f.div (f.sub raw left.raw) (f.sub right.raw left.raw) in
      f.add left.calibrated (f.mul distance (f.sub right.calibrated left.calibrated))

  -- The `for` loop over neighbouring points; past its end is the `AssertionError`, `none`.
  unfoldable pub segments : ℕ → List CalibrationPoint → Option ℕ
  segments raw [] = none
  segments raw (p ∷ []) = none
  segments raw (p ∷ q ∷ points) =
      if leb p.raw raw && leb raw q.raw
      then some (interpolate raw p q)
      else segments raw (q ∷ points)

  -- `points[0]` and `points[-1]` raise on an empty curve: `none`.
  unfoldable pub calibrate_points : ℕ → List CalibrationPoint → Option CalibrationPoint → Option ℕ
  unfolding segments
  calibrate_points raw [] end = none
  calibrate_points raw (p ∷ points) none = none
  calibrate_points raw (p ∷ points) (some end) =
      if leb raw p.raw
      then some p.calibrated
      else if leb end.raw raw
      then some end.calibrated
      else segments raw (p ∷ points)

  unfoldable pub calibrate_confidence : ℕ → CategoryControls → Option ℕ
  unfolding calibrate_points
  calibrate_confidence raw controls =
      calibrate_points raw controls.calibration (last? controls.calibration)
