-- ===== src/Lib.antt =====
-- Guardian watches the screen of a child's device, classifies what it sees, and lets the family's rules
-- decide what follows. The chain of decisions is: the risk pipeline gives an assessment, the parental
-- policy turns it into an action, the runtime release gate and the pilot rollout may lower the action,
-- and the agent reports an incident or blocks an application. The API keeps incidents and the commands
-- that unlock applications, limits requests, and keeps a signed audit trail.
--
-- Which file models what, with paths from the repository's root:
--   Model      guardian_core/models.py: assessments, rules, decisions
--   Policy     guardian_core/policy.py: apply_policy
--   Gate       guardian_core/gates.py, guardian_core/config.py: apply_runtime_release_gate, validate
--   Controls   risk_engine/calibration.py: calibrate_confidence, evaluate_risk_controls,
--              apply_risk_controls
--   Pilot      guardian_core/pilot.py: apply_pilot_rollout and the approvals and kill switches
--   PilotControl  guardian_core/pilot_control.py: PilotConfigStore; Canonical is _canonical_payload,
--              Transaction is _apply_transaction, Run runs sequences of calls, Brake and Safe join it with Pilot
--   Pipeline   risk_engine/pipeline.py, risk_engine/providers.py: assess, CircuitBreaker and the
--              conservative fallback
--   Agent      agent/main.py: the decision of run_observer; Agent.Enforcer is agent/enforcer.py and
--              Agent.Outbox is agent/outbox.py with flush_offline_outbox
--   Audit      api/data_security/audit.py: AuditKeyring, AuditTrail
--   RateLimit  api/data_security/rate_limit.py: RateLimiter over InMemoryRateLimitBackend
--   Device     guardian_core/device_protocol.py: DeviceRequestAuthenticator.authenticate, over the nonce
--              table of api/device_identity.py; Device.Commands is pending_commands and
--              acknowledge_command of that file
--   Device.Pairing  api/device_identity.py: pairing challenges, devices, credentials, installations and
--              rotations; Complete is complete_pairing, Rotate is rotate_credential, Run runs sequences of
--              calls
--   Auth       api/auth.py with the accounts, families, memberships, sessions, login attempts and reset
--              tokens of api/storage.py; Run runs sequences of calls
--   Lifecycle  api/data_security/lifecycle.py: tombstones, retention, deletion of a family, restore
--   Store      api/storage.py: the incident operations of GuardianStore
--   Prelude    shared tests, lists, results and f-strings; Samples holds the values of the tests
--
-- Stateful operations take the state and return the new one; exceptions are values of Result. The
-- clock, uuid4 and what a remote service answers are arguments. A confidence is a whole number of
-- units of 2 ^ -1074, which every finite non-negative double is; the sums and products of doubles in
-- the calibration are parameters. The HMAC is a parameter, assumed to be free of collisions where a
-- theorem says so. Loops are structural recursion over lists, or over the number of attempts or
-- deliveries that the source permits, so no fuel is needed.
--
-- A transaction of the store that raises leaves the tables as they were, except where the code commits
-- before it raises. Uniqueness and foreign keys of the tables are conditions under which an insert is an
-- integrity error. A text's NOCASE comparison is an equality, since every email is case-folded first.
-- Ids and tokens that the code draws at random are arguments, so that a theorem holds for each choice.
--
-- Not modelled: HTTP routes, SQL migrations, file formats, capture of the screen, the heuristic word
-- lists, and everything in other languages; nor, of the API, encrypted evidence, telemetry, heartbeats and
-- reports.
pub mod Prelude
pub mod Samples
pub mod Model
pub mod Policy
pub mod Gate
pub mod Controls
pub mod Pilot
pub mod PilotControl
pub mod Audit
pub mod RateLimit
pub mod Store
pub mod Pipeline
pub mod Agent
pub mod Device
pub mod Lifecycle
pub mod Auth
