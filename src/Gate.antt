-- ===== src/Gate.antt =====
-- guardian_core/gates.py and the settings of guardian_core/config.py that it reads.
pub mod Laws
use text.Mathlib.Text.{starts_with}
use hackaton_open_ai.Prelude.{
  String, Bool, true, false, not, ◌&&◌, ◌||◌, List, [], ◌∷◌, format, ◌==◌, if◌then◌else◌, Result,
  ok, err, ◌>>◌, raise_if,
}
use hackaton_open_ai.Model.{PolicyDecision, EnforcementAction, action_eq}

pub data Environment : Type 0 where
  development test staging production : Environment

-- `environment in {STAGING, PRODUCTION}`
abbrev pub is_managed : Environment → Bool
is_managed development = false
is_managed test = false
is_managed staging = true
is_managed production = true

-- `GuardianSettings`, less the paths and the log level, which neither `validate` nor the gate reads.
pub record GuardianSettings : Type 0 where
  pub environment : Environment
  pub api_url : String
  pub automatic_blocking_enabled : Bool
  pub real_enforcement_enabled : Bool
  pub release_gate_approved : Bool
  pub demo_mode : Bool

pub data SettingsError : Type 0 where
  api_url_scheme demo_mode_forbidden blocking_unapproved enforcement_unapproved : SettingsError

-- The checks under `if self.environment in {STAGING, PRODUCTION}`.
abbrev validate_managed : GuardianSettings → Result SettingsError (Unit {0})
validate_managed s = do
  raise_if s.demo_mode demo_mode_forbidden
  raise_if (s.automatic_blocking_enabled && not s.release_gate_approved) blocking_unapproved
  raise_if (s.real_enforcement_enabled && not s.release_gate_approved) enforcement_unapproved

unfoldable pub validate : GuardianSettings → Result SettingsError (Unit {0})
validate s = do
  raise_if (not (starts_with s.api_url "http://" || starts_with s.api_url "https://"))
      api_url_scheme
  if is_managed s.environment then validate_managed s else ok tt

unfoldable pub demo_block_allowed : GuardianSettings → Bool → Bool
demo_block_allowed s fixture_input =
    fixture_input && not (is_managed s.environment) && s.automatic_blocking_enabled

unfoldable pub released_block_allowed : GuardianSettings → Bool
released_block_allowed s = s.automatic_blocking_enabled && s.release_gate_approved

unfoldable pub apply_runtime_release_gate :
    PolicyDecision → GuardianSettings → Bool → PolicyDecision
unfolding demo_block_allowed released_block_allowed
apply_runtime_release_gate d s fixture_input =
    if not (d.action == EnforcementAction.block)
    then d
    else if demo_block_allowed s fixture_input || released_block_allowed s
    then d
    else record d {
      action = EnforcementAction.alert;
      reason = format (d.reason ∷ "; downgraded to ALERT by the runtime release gate" ∷ []);
    }
