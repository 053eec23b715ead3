-- ===== src/RateLimit/Limits.antt =====
-- How many requests `RateLimiter.check` of api/data_security/rate_limit.py lets through.
use hackaton_open_ai.Prelude.{
  ℕ, ◌+◌, ◌/◌, ◌%◌, ◌≤◌, ◌<◌, ◌≡◌, String, true, not, List, [], ◌∷◌, arith, All, All-keep,
  Bool-cases, inl, inr, if◌then◌else◌, leb, refl, ap, sym, ◌∙◌, ◌&&◌, string_eq,
}
use hackaton_open_ai.RateLimit.Windows.{
  RouteClass, Window, same_bucket, same_key, count_at, store, drop_stale, consume, route_eq,
}
use hackaton_open_ai.RateLimit.Backend.{
  consume_counts, consume_other, count_at-drop_stale, same_key_iff, same_bucket_iff,
}
use hackaton_open_ai.RateLimit.{
  RateLimitPolicy, RateLimitDecision, second, validate_policy, window_start, check_window, decide,
}

-- The moment of a request lies in its window: from the start, and before the expiry.
pub window_start_bounds :
    (p : RateLimitPolicy) (now : ℕ)
    → validate_policy p ≡ true
    → (window_start p now ≤ now) × (now < window_start p now + p.window)
unfolding window_start
window_start_bounds p now valid =
    let positive : 1 ≤ p.window / second = ground arith in
    let below : now / second % (p.window / second) < p.window / second = omega arith in
    (omega arith, omega arith)

All-store {ℓ} :
    (P : Window → Type ℓ) (v : Window) (windows : List Window)
    → P v
    → All P windows
    → All P (store v windows)
unfolding store
All-store P v [] pv all = (pv, tt)
All-store P v (w ∷ windows) pv all =
    elim (Bool-cases (same_key v.bucket_key v.route_class v.window_started_at w)) [
      | inl same ↦ rw same (pv, all.1)
      | inr other ↦ rw other (all.0, All-store P v windows pv all.1)
    ]

-- What holds of every window, and of the one that an accepted request stores, holds after `consume`.
consume-All {ℓ} :
    (P : Window → Type ℓ) (bucket : String) (route : RouteClass) (started expires limit now : ℕ)
    (windows : List Window)
    → ((count : ℕ)
        → count < limit
        → P (record {
          bucket_key = bucket;
          route_class = route;
          window_started_at = started;
          count = count + 1;
          expires_at = expires;
        }))
    → All P windows
    → All P (consume bucket route started expires limit now windows).1
unfolding consume
consume-All P bucket route started expires limit now windows new all =
    let alive = drop_stale bucket route now windows in
    let count = count_at bucket route started alive in
    let kept : All P alive =
      All-keep P (λ w. not (same_bucket bucket route w && leb w.expires_at now)) windows all in
    elim (Bool-cases (leb limit count)) [
      | inl full ↦ rw full kept
      | inr room ↦ rw room (All-store P _ alive (new count (ground arith)) kept)
    ]

module _ (policies : RouteClass → RateLimitPolicy) (hmac : String → String) where
  -- Each window expires by its route's policy, and has counted no more than its limit.
  abbrev pub IsValid : List Window → Type 0
  IsValid = All (λ w.
      (w.expires_at ≡ w.window_started_at + (policies w.route_class).window)
      × (w.count ≤ (policies w.route_class).limit))

  -- A request keeps the windows valid: each expires by its route's policy, and has counted no more
  -- than its limit.
  pub check_window-IsValid :
      (principal : String) (route : RouteClass) (now : ℕ) (windows : List Window)
      → IsValid windows
      → IsValid (check_window policies hmac principal route now windows).1
  unfolding check_window
  check_window-IsValid principal route now windows valid =
      let policy = policies route in
      let started = window_start policy now in
      consume-All
        (λ w.
          (w.expires_at ≡ w.window_started_at + (policies w.route_class).window)
          × (w.count ≤ (policies w.route_class).limit))
        (hmac principal) route started (started + policy.window) policy.limit now windows
        (λ count h. (refl, omega arith)) valid

  abbrev started_at : RouteClass → ℕ → ℕ
  started_at route now = window_start (policies route) now

  own_windows_fresh :
      (bucket : String) (route : RouteClass) (now : ℕ) (windows : List Window)
      → validate_policy (policies route) ≡ true
      → IsValid windows
      → All
          (λ w.
            same_key bucket route (started_at route now) w ≡ true
            → same_bucket bucket route w ≡ true
            → now < w.expires_at)
          windows
  own_windows_fresh bucket route now [] ok valid = tt
  own_windows_fresh bucket route now (w ∷ windows) ok valid = (
    λ same _.
        let (b, r, s) = (same_key_iff bucket route (started_at route now) w).0 same in
        let length : (policies w.route_class).window ≡ (policies route).window =
          ap (λ (x : RouteClass). (policies x).window) r in
        omega (arith, window_start_bounds (policies route) now ok, valid.0.0, length, s),
    own_windows_fresh bucket route now windows ok valid.1,
  )

  other_windows_fresh :
      (bucket other : String) (route other_route : RouteClass) (s now : ℕ) (windows : List Window)
      → ((other ≡ bucket) → (other_route ≡ route) → ⊥)
      → All
          (λ w.
            same_key bucket route s w ≡ true
            → same_bucket other other_route w ≡ true
            → now < w.expires_at)
          windows
  other_windows_fresh bucket other route other_route s now [] differ = tt
  other_windows_fresh bucket other route other_route s now (w ∷ windows) differ = (
    λ same mine.
        let (b, r, t) = (same_key_iff bucket route s w).0 same in
        let (b', r') = (same_bucket_iff other other_route w).0 mine in
        absurd (differ (sym b' ∙ b) (sym r' ∙ r)),
    other_windows_fresh bucket other route other_route s now windows differ,
  )

  module _ (principal : String) (route : RouteClass) (now : ℕ) (windows : List Window) where
    abbrev before : ℕ
    before = count_at (hmac principal) route (started_at route now) windows

    abbrev checked : RateLimitDecision × List Window
    checked = check_window policies hmac principal route now windows

    -- A request is allowed exactly while its window has counted fewer than the limit, and then it is
    -- counted; a refused one is not.
    pub check_window_counts :
        validate_policy (policies route) ≡ true
        → IsValid windows
        → (checked.0.allowed ≡ not (leb (policies route).limit before))
          × (count_at (hmac principal) route (started_at route now) checked.1
              ≡ (if leb (policies route).limit before then before else before + 1))
    unfolding check_window decide
    check_window_counts ok valid =
        let policy = policies route in
        let started = started_at route now in
        consume_counts (hmac principal) route started (started + policy.window) policy.limit now
          windows
          (count_at-drop_stale (hmac principal) route started (hmac principal) route now windows
            (own_windows_fresh (hmac principal) route now windows ok valid))

    -- A request changes no count of another principal's bucket or of another route.
    pub check_window_other :
        (bucket : String) (r : RouteClass) (s : ℕ)
        → (hmac principal ≡ bucket → route ≡ r → ⊥)
        → count_at bucket r s checked.1 ≡ count_at bucket r s windows
    unfolding check_window
    check_window_other bucket r s differ =
        let policy = policies route in
        let started = started_at route now in
        consume_other (hmac principal) route started (started + policy.window) policy.limit now
          windows bucket r s
          (elim (Bool-cases (same_key bucket r s _)) [
            | inl same ↦ absurd (let (b, q, t) = (same_key_iff bucket r s _).0 same in differ b q)
            | inr other ↦ other
          ])
          (count_at-drop_stale bucket r s (hmac principal) route now windows
            (other_windows_fresh bucket (hmac principal) r route s now windows differ))
