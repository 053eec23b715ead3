-- ===== src/Agent/Enforcer.antt =====
-- `DemoEnforcer` and `MacOSEnforcer` of agent/enforcer.py. Whether an application is protected, and
-- whether it runs, are parameters; a set is a list without repetitions. The list `quits` is what was
-- told to quit, and `saved` the state file.
use hackaton_open_ai.Prelude.{
  ◌≡◌, String, Bool, false, not, List, [], ◌∷◌, ◌++◌, keep, contains, string_eq, ◌==◌,
  if◌then◌else◌, Result, ok, err, All,
}

pub data EnforcerError : Type 0 where
  protected_application : String → EnforcerError
  not_blockable : String → EnforcerError

pub record Enforcer : Type 0 where
  pub blocked_apps : List String
  pub saved : List String
  pub allowed_apps : List String
  pub quits : List String

-- What a call raises or returns, with the enforcer that it leaves.
abbrev pub Outcome : Type 0
Outcome = Result EnforcerError (Unit {0}) × Enforcer

-- One method followed by another, which an exception skips.
abbrev pub and_then : Outcome → (Enforcer → Outcome) → Outcome
and_then (ok _, e) next = next e
and_then (err x, e) next = (err x, e)

-- `set.add`
abbrev pub add : String → List String → List String
add app apps = if contains app apps then apps else app ∷ apps

-- No protected application is blocked or allowed, and each that was told to quit is unprotected.
pub record IsSafe (is_protected : String → Bool) (e : Enforcer) : Type 0 where
  pub blocked : All (λ a. is_protected a ≡ false) e.blocked_apps
  pub allowed : All (λ a. is_protected a ≡ false) e.allowed_apps
  pub quit_safe : All (λ a. is_protected a ≡ false) e.quits

pub data Call : Type 0 where
  do_block do_unblock : String → Call
  do_enforce : Call

module _ (is_protected is_running : String → Bool) where
  -- The constructor, with the list of the state file.
  unfoldable pub start : List String → List String → Enforcer
  start saved allowed = record {
    blocked_apps = keep (λ a. not (is_protected a)) saved;
    saved = saved;
    allowed_apps = keep (λ a. not (is_protected a)) allowed;
    quits = [];
  }

  unfoldable pub demo_block : String → Enforcer → Outcome
  demo_block app e = if is_protected app then (err (protected_application app), e) else (
    ok tt,
    record e { blocked_apps = add app e.blocked_apps; saved = add app e.blocked_apps },
  )

  unfoldable pub unblock : String → Enforcer → Outcome
  unblock app e =
      let left = keep (λ a. not (a == app)) e.blocked_apps in
      (ok tt, record e { blocked_apps = left; saved = left })

  -- `_quit`
  unfoldable pub quit : String → Enforcer → Outcome
  quit app e =
      if not (contains app e.allowed_apps)
      then (err (not_blockable app), e)
      else if not (is_running app)
      then (ok tt, e)
      else (ok tt, record e { quits = e.quits ++ app ∷ [] })

  unfoldable pub block : String → Enforcer → Outcome
  unfolding demo_block quit
  block app e = and_then (demo_block app e) (quit app)

  unfoldable pub enforce_each : List String → Enforcer → Outcome
  unfolding quit
  enforce_each [] e = (ok tt, e)
  enforce_each (app ∷ apps) e = and_then (quit app e) (enforce_each apps)

  unfoldable pub enforce : Enforcer → Outcome
  unfolding enforce_each
  enforce e = enforce_each e.blocked_apps e

  unfoldable pub step : Call → Enforcer → Enforcer
  step (do_block app) e = (block app e).1
  step (do_unblock app) e = (unblock app e).1
  step do_enforce e = (enforce e).1

  unfoldable pub run : List Call → Enforcer → Enforcer
  run [] e = e
  run (c ∷ cs) e = run cs (step c e)
