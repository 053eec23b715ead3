-- ===== src/RateLimit/Schedule.antt =====
-- Any schedule of requests through `RateLimiter.check` of api/data_security/rate_limit.py: however
-- the requests of other principals and routes fall between them, a window lets through its limit.
use hackaton_open_ai.Prelude.{
  ℕ, suc, ◌+◌, ◌-◌, ◌≤◌, ◌≡◌, ◌↔◌, sym, ◌∙◌, eq_iff, String, Bool, true, false, not, ◌&&◌, List, [],
  ◌∷◌, arith, All, Bool-cases, inl, inr, if◌then◌else◌, leb, min, ◌==◌, string_eq, subst, ap,
}
use hackaton_open_ai.RateLimit.Windows.{
  RouteClass, Window, count_at, route_eq, route_eq_iff, same_key,
}
use hackaton_open_ai.RateLimit.Backend.{same_key_iff, conj}
use hackaton_open_ai.RateLimit.{
  RateLimitPolicy, RateLimitDecision, validate_policy, window_start, check_window,
}
use hackaton_open_ai.RateLimit.Limits.{
  IsValid, check_window-IsValid, check_window_counts, check_window_other,
}

pub record Request : Type 0 where
  pub principal : String
  pub route : RouteClass
  pub at : ℕ

module _ (policies : RouteClass → RateLimitPolicy) (hmac : String → String) (bucket : String)
    (route : RouteClass) where
  unfoldable pub ours : Request → Bool
  ours q = (hmac q.principal == bucket) && (q.route == route)

  ours_iff : (q : Request) → (ours q ≡ true) ↔ ((hmac q.principal ≡ bucket) × (q.route ≡ route))
  unfolding ours
  ours_iff q =
      let x = hmac q.principal == bucket in
      let y = q.route == route in
      (
        λ h.
            let (hx, hy) = (conj x y).0 h in
            ((eq_iff (hmac q.principal) bucket).0 hx, (route_eq_iff q.route route).0 hy),
        λ (p, r).
            (conj x y).1 ((eq_iff (hmac q.principal) bucket).1 p, (route_eq_iff q.route route).1 r),
      )

  abbrev handle : Request → List Window → RateLimitDecision × List Window
  handle q windows = check_window policies hmac q.principal q.route q.at windows

  -- How many requests of the bucket and route are made, and how many are let through.
  unfoldable pub asked : List Request → ℕ
  asked [] = 0
  asked (q ∷ requests) = let rest = asked requests in if ours q then suc rest else rest

  unfoldable pub admitted : List Request → List Window → ℕ
  admitted [] windows = 0
  admitted (q ∷ requests) windows =
      let (d, next) = handle q windows in
      let rest = admitted requests next in if ours q && d.allowed then suc rest else rest

  count_at-le :
      (s : ℕ) (windows : List Window)
      → IsValid policies hmac windows
      → count_at bucket route s windows ≤ (policies route).limit
  unfolding count_at
  count_at-le s [] valid = omega arith
  count_at-le s (w ∷ windows) valid = elim (Bool-cases (same_key bucket route s w)) [
    | inl same ↦
        let (b, r, t) = (same_key_iff bucket route s w).0 same in
        rw same (subst (λ x. w.count ≤ (policies x).limit) r valid.0.1)
    | inr other ↦ rw other (count_at-le s windows valid.1)
  ]

  abbrev pub InWindow : ℕ → List Request → Type 0
  InWindow s = All (λ q. ours q ≡ true → window_start (policies route) q.at ≡ s)

  -- What an own request is answered, and what it does to a window's count.
  abbrev Counted : Request → List Window → String → RouteClass → ℕ → Type 0
  Counted q windows b r s =
      let count = count_at b r s windows in
      let (d, next) = handle q windows in
      (d.allowed ≡ not (leb (policies r).limit count))
      × (count_at b r s next ≡ (if leb (policies r).limit count then count else count + 1))

  own_step :
      (s : ℕ) (q : Request) (windows : List Window)
      → validate_policy (policies route) ≡ true
      → IsValid policies hmac windows
      → ours q ≡ true
      → window_start (policies route) q.at ≡ s
      → Counted q windows bucket route s
  own_step s q windows ok valid own placed =
      let (p, r) = (ours_iff q).0 own in
      let e : window_start (policies q.route) q.at ≡ s =
        ap (λ x. window_start (policies x) q.at) r ∙ placed in
      subst (λ x. Counted q windows x route s) p
        (subst (λ x. Counted q windows (hmac q.principal) x s) r
          (subst (λ x. Counted q windows (hmac q.principal) q.route x) e
            (check_window_counts policies hmac q.principal q.route q.at windows
              (subst (λ x. validate_policy (policies x) ≡ true) (sym r) ok) valid)))

  other_step :
      (s : ℕ) (q : Request) (windows : List Window)
      → ours q ≡ false
      → count_at bucket route s (handle q windows).1 ≡ count_at bucket route s windows
  other_step s q windows other =
      check_window_other policies hmac q.principal q.route q.at windows bucket route s
        (λ p r. cc (other, (ours_iff q).1 (p, r)))

  -- Of the requests of one bucket and route whose moments share a window, exactly as many are let
  -- through as the window had room for, or all of them if there are fewer, whatever other requests
  -- come between.
  pub admitted_exact :
      (s : ℕ) (requests : List Request) (windows : List Window)
      → validate_policy (policies route) ≡ true
      → IsValid policies hmac windows
      → InWindow s requests
      → admitted requests windows
        ≡ min ((policies route).limit - count_at bucket route s windows) (asked requests)
  unfolding admitted asked
  admitted_exact s [] windows ok valid placed = omega arith
  admitted_exact s (q ∷ requests) windows ok valid placed =
      let next = (handle q windows).1 in
      let valid' = check_window-IsValid policies hmac q.principal q.route q.at windows valid in
      let ih = admitted_exact s requests next ok valid' placed.1 in
      elim (Bool-cases (ours q)) [
        | inl own ↦
            let (answer, counted) = own_step s q windows ok valid own (placed.0 own) in
            ground (arith, own, answer, counted, ih, count_at-le s windows valid)
        | inr other ↦ ground (arith, other, other_step s q windows other, ih)
      ]
