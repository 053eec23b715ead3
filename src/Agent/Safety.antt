-- ===== src/Agent/Safety.antt =====
-- What agent/enforcer.py never tells to quit, and what an application outside the list does to it.
use hackaton_open_ai.Prelude.{
  ◌≡◌, ◌≢◌, ◌⊎◌, refl, sym, subst, String, Bool, true, false, not, List, [], ◌∷◌, keep, contains,
  string_eq, ◌==◌, ok, err, All, All-keep, All-snoc, arith, Bool-cases, ==_cases, ==_refl, inl, inr,
  true≢false,
}
use hackaton_open_ai.Agent.Enforcer.{
  Enforcer, Outcome, not_blockable, add, start, and_then, demo_block, unblock, quit, block,
  enforce_each, enforce, IsSafe, Call, do_block, do_unblock, do_enforce, step, run,
}

module _ (is_protected is_running : String → Bool) where
  abbrev Unprotected : List String → Type 0
  Unprotected apps = All (λ a. is_protected a ≡ false) apps

  contains_all :
      (app : String) (apps : List String)
      → Unprotected apps
      → contains app apps ≡ true
      → is_protected app ≡ false
  contains_all app [] all h = absurd (true≢false (sym h))
  contains_all app (a ∷ apps) all h = elim (==_cases app a) [
    | inl (t, e) ↦ subst (λ x. is_protected x ≡ false) (sym e) all.0
    | inr (t, ne) ↦ contains_all app apps all.1 (ground arith)
  ]

  keep-Unprotected : (apps : List String) → Unprotected (keep (λ a. not (is_protected a)) apps)
  keep-Unprotected [] = tt
  keep-Unprotected (a ∷ apps) = elim (Bool-cases (is_protected a)) [
    | inl t ↦ rw t (keep-Unprotected apps)
    | inr t ↦ rw t (t, keep-Unprotected apps)
  ]

  add-Unprotected :
      (app : String) (apps : List String)
      → is_protected app ≡ false
      → Unprotected apps
      → Unprotected (add app apps)
  add-Unprotected app apps h all = elim (Bool-cases (contains app apps)) [
    | inl t ↦ rw t all
    | inr t ↦ rw t (h, all)
  ]

  quit-IsSafe :
      (app : String) (e : Enforcer)
      → IsSafe is_protected e
      → IsSafe is_protected (quit is_protected is_running app e).1
  unfolding quit
  quit-IsSafe app e s = elim (Bool-cases (contains app e.allowed_apps)) [
    | inr t ↦ rw t s
    | inl t ↦ elim (Bool-cases (is_running app)) [
      | inr r ↦ rw (t, r) s
      | inl r ↦
          rw (t, r)
            (record {
              blocked = s.blocked;
              allowed = s.allowed;
              quit_safe =
                  All-snoc (λ a. is_protected a ≡ false) e.quits app s.quit_safe
                    (contains_all app e.allowed_apps s.allowed t);
            })
    ]
  ]

  and_then-IsSafe :
      (m : Outcome) (next : Enforcer → Outcome)
      → IsSafe is_protected m.1
      → ((e : Enforcer) → IsSafe is_protected e → IsSafe is_protected (next e).1)
      → IsSafe is_protected (and_then m next).1
  and_then-IsSafe (ok u, e) next s step = step e s
  and_then-IsSafe (err x, e) next s step = s

  enforce_each-IsSafe :
      (apps : List String) (e : Enforcer)
      → IsSafe is_protected e
      → IsSafe is_protected (enforce_each is_protected is_running apps e).1
  unfolding enforce_each
  enforce_each-IsSafe [] e s = s
  enforce_each-IsSafe (a ∷ apps) e s =
      and_then-IsSafe (quit is_protected is_running a e) (enforce_each is_protected is_running apps)
        (quit-IsSafe a e s) (λ e' s'. enforce_each-IsSafe apps e' s')

  block-IsSafe :
      (app : String) (e : Enforcer)
      → IsSafe is_protected e
      → IsSafe is_protected (block is_protected is_running app e).1
  unfolding block demo_block
  block-IsSafe app e s = elim (Bool-cases (is_protected app)) [
    | inl t ↦ rw t s
    | inr t ↦ rw t (
        quit-IsSafe app _ (record {
          blocked = add-Unprotected app e.blocked_apps t s.blocked;
          allowed = s.allowed;
          quit_safe = s.quit_safe;
        }))
  ]

  step-IsSafe :
      (c : Call) (e : Enforcer)
      → IsSafe is_protected e
      → IsSafe is_protected (step is_protected is_running c e)
  unfolding step enforce unblock
  step-IsSafe (do_block app) e s = block-IsSafe app e s
  step-IsSafe (do_unblock app) e s = record {
    blocked = All-keep (λ a. is_protected a ≡ false) (λ a. not (a == app)) e.blocked_apps s.blocked;
    allowed = s.allowed;
    quit_safe = s.quit_safe;
  }
  step-IsSafe do_enforce e s = enforce_each-IsSafe e.blocked_apps e s

  run-IsSafe :
      (calls : List Call) (e : Enforcer)
      → IsSafe is_protected e
      → IsSafe is_protected (run is_protected is_running calls e)
  unfolding run
  run-IsSafe [] e s = s
  run-IsSafe (c ∷ cs) e s = run-IsSafe cs (step is_protected is_running c e) (step-IsSafe c e s)

  -- From any state file and any list of blockable applications, after any sequence of blocks, unblocks
  -- and enforcements, no protected application is blocked, is blockable, or has been told to quit.
  pub enforcer_spares_protected :
      (saved allowed : List String) (calls : List Call)
      → IsSafe is_protected
          (run is_protected is_running calls (start is_protected is_running saved allowed))
  unfolding start
  enforcer_spares_protected saved allowed calls =
      run-IsSafe calls (start is_protected is_running saved allowed) (record {
        blocked = keep-Unprotected saved;
        allowed = keep-Unprotected allowed;
        quit_safe = tt;
      })

  contains-add : (app : String) (apps : List String) → contains app (add app apps) ≡ true
  contains-add app apps = ground (arith, ==_refl app)

  quit-unlisted :
      (app : String) (e : Enforcer)
      → contains app e.allowed_apps ≡ false
      → quit is_protected is_running app e ≡ (err (not_blockable app), e)
  unfolding quit
  quit-unlisted app e h = ground arith

  unlisted_fails :
      (app : String) (e : Enforcer)
      → contains app e.allowed_apps ≡ false
      → (quit is_protected is_running app e).0 ≢ ok tt
  unlisted_fails app e h r = let q = quit-unlisted app e h in cc (q, r)

  quit-allowed :
      (app : String) (e : Enforcer)
      → (quit is_protected is_running app e).1.allowed_apps ≡ e.allowed_apps
  unfolding quit
  quit-allowed app e = ground arith

  and_then-fails :
      (m : Outcome) (next : Enforcer → Outcome)
      → (m.0 ≢ ok tt) ⊎ ((next m.1).0 ≢ ok tt)
      → (and_then m next).0 ≢ ok tt
  and_then-fails (ok u, e) next (inl h) r = h (ground arith)
  and_then-fails (ok u, e) next (inr h) r = h r
  and_then-fails (err x, e) next h r = cc r

  enforce_each-stuck :
      (app : String) (apps : List String) (e : Enforcer)
      → contains app e.allowed_apps ≡ false
      → contains app apps ≡ true
      → (enforce_each is_protected is_running apps e).0 ≢ ok tt
  unfolding enforce_each
  enforce_each-stuck app [] e out h = absurd (true≢false (sym h))
  enforce_each-stuck app (a ∷ apps) e out h =
      and_then-fails (quit is_protected is_running a e) (enforce_each is_protected is_running apps)
        (elim (==_cases app a) [
          | inl (t, same) ↦ inl (
              subst (λ x. (quit is_protected is_running x e).0 ≢ ok tt) same
                (unlisted_fails app e out))
          | inr (t, ne) ↦ inr (
              enforce_each-stuck app apps (quit is_protected is_running a e).1
                (rw (quit-allowed a e) out) (ground arith))
        ])

  -- Blocking an application that is neither protected nor blockable raises, but the application stays
  -- among the blocked and in the state file, and no later enforcement of that state returns.
  pub block_unlisted :
      (app : String) (e : Enforcer)
      → is_protected app ≡ false
      → contains app e.allowed_apps ≡ false
      → let (result, e') = block is_protected is_running app e in
        (result ≡ err (not_blockable app))
        × (contains app e'.saved ≡ true)
        × ((enforce is_protected is_running e').0 ≢ ok tt)
  unfolding block demo_block enforce
  block_unlisted app e p out =
      let e' : Enforcer = record e {
        blocked_apps = add app e.blocked_apps;
        saved = add app e.blocked_apps;
      } in
      rw (p, quit-unlisted app e' out)
        (
          refl,
          contains-add app e.blocked_apps,
          enforce_each-stuck app (add app e.blocked_apps) e' out (contains-add app e.blocked_apps),
        )
