-- ===== src/PilotControl/Safe.antt =====
-- What a rollback of `PilotConfigStore` leaves active can never block.
use hackaton_open_ai.Prelude.{◌≡◌, true, ◌||◌, any, string_eq}
use hackaton_open_ai.Model.{action_eq}
use hackaton_open_ai.Pilot.{PilotRolloutConfig}
use hackaton_open_ai.PilotControl.{is_global, is_shadow}

-- Technical shadow, or a switch over everything.
abbrev IsBraked : PilotRolloutConfig → Type 0
IsBraked c = (is_shadow c.mode || any is_global c.kill_switches) ≡ true
