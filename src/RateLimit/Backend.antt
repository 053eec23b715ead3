-- ===== src/RateLimit/Backend.antt =====
-- The backend of api/data_security/rate_limit.py as a map of counts.
use hackaton_open_ai.Prelude.{
  ℕ, ◌+◌, ◌<◌, ◌≡◌, ◌↔◌, String, Bool, true, false, not, List, [], ◌∷◌, arith, All, eq_iff,
  nat_beq_iff, if◌then◌else◌, leb, refl, nat_beq, str_eq, ◌&&◌,
}
use hackaton_open_ai.RateLimit.Windows.{
  RouteClass, Window, BackendConsumption, same_bucket, same_key, count_at, store, drop_stale,
  consume, route_eq_iff, route_index,
}

pub conj : (a b : Bool) → (a && b ≡ true) ↔ ((a ≡ true) × (b ≡ true))
conj a b = ground arith

pub same_key_iff :
    (b : String) (r : RouteClass) (s : ℕ) (w : Window)
    → (same_key b r s w ≡ true)
      ↔ ((w.bucket_key ≡ b) × (w.route_class ≡ r) × (w.window_started_at ≡ s))
unfolding same_key
same_key_iff b r s w =
    let x = str_eq w.bucket_key b in
    let y = nat_beq (route_index w.route_class) (route_index r) in
    let z = nat_beq w.window_started_at s in
    (
      λ h.
          let (xy, hz) = (conj (x && y) z).0 h in
          let (hx, hy) = (conj x y).0 xy in
          (
            (eq_iff w.bucket_key b).0 hx,
            (route_eq_iff w.route_class r).0 hy,
            (nat_beq_iff w.window_started_at s).0 hz,
          ),
      λ (p, q, t). (conj (x && y) z).1 (
        (conj x y).1 ((eq_iff w.bucket_key b).1 p, (route_eq_iff w.route_class r).1 q),
        (nat_beq_iff w.window_started_at s).1 t,
      ),
    )

pub same_bucket_iff :
    (b : String) (r : RouteClass) (w : Window)
    → (same_bucket b r w ≡ true) ↔ ((w.bucket_key ≡ b) × (w.route_class ≡ r))
unfolding same_bucket
same_bucket_iff b r w =
    let x = str_eq w.bucket_key b in
    let y = nat_beq (route_index w.route_class) (route_index r) in
    (
      λ h.
          let (hx, hy) = (conj x y).0 h in
          ((eq_iff w.bucket_key b).0 hx, (route_eq_iff w.route_class r).0 hy),
      λ (p, q). (conj x y).1 ((eq_iff w.bucket_key b).1 p, (route_eq_iff w.route_class r).1 q),
    )

abbrev has_key : Window → Window → Bool
has_key v w = same_key v.bucket_key v.route_class v.window_started_at w

module _ (b : String) (r : RouteClass) (s : ℕ) (v w : Window) where
  same_key_join : same_key b r s v ≡ true → same_key b r s w ≡ true → has_key v w ≡ true
  same_key_join h k =
      let (p, q, t) = (same_key_iff b r s v).0 h in
      let (p', q', t') = (same_key_iff b r s w).0 k in
      (same_key_iff v.bucket_key v.route_class v.window_started_at w).1 (cc, cc, cc)

  same_key_back : has_key v w ≡ true → same_key b r s w ≡ true → same_key b r s v ≡ true
  same_key_back h k =
      let (p, q, t) = (same_key_iff v.bucket_key v.route_class v.window_started_at w).0 h in
      let (p', q', t') = (same_key_iff b r s w).0 k in (same_key_iff b r s v).1 (cc, cc, cc)

  same_key_forth : has_key v w ≡ true → same_key b r s v ≡ true → same_key b r s w ≡ true
  same_key_forth h k =
      let (p, q, t) = (same_key_iff v.bucket_key v.route_class v.window_started_at w).0 h in
      let (p', q', t') = (same_key_iff b r s v).0 k in (same_key_iff b r s w).1 (cc, cc, cc)

-- A stored window is what its key reads, and no other key reads another count.
pub count_at-store :
    (b : String) (r : RouteClass) (s : ℕ) (v : Window) (windows : List Window)
    → count_at b r s (store v windows)
      ≡ (if same_key b r s v then v.count else count_at b r s windows)
unfolding count_at store
count_at-store b r s v [] = refl
count_at-store b r s v (w ∷ windows) = ground (
  arith,
  same_key_join b r s v w,
  same_key_back b r s v w,
  same_key_forth b r s v w,
  count_at-store b r s v windows,
)

-- Dropping stale windows leaves a count alone where the key's own windows are not stale.
pub count_at-drop_stale :
    (b : String) (r : RouteClass) (s : ℕ) (bucket : String) (route : RouteClass) (now : ℕ)
    (windows : List Window)
    → All
        (λ w. same_key b r s w ≡ true → same_bucket bucket route w ≡ true → now < w.expires_at)
        windows
    → count_at b r s (drop_stale bucket route now windows) ≡ count_at b r s windows
unfolding count_at drop_stale
count_at-drop_stale b r s bucket route now [] fresh = refl
count_at-drop_stale b r s bucket route now (w ∷ windows) fresh =
    ground (arith, count_at-drop_stale b r s bucket route now windows fresh.1, fresh.0)

same_key_refl :
    (b : String) (r : RouteClass) (s count expires : ℕ)
    → same_key b r s (record {
      bucket_key = b;
      route_class = r;
      window_started_at = s;
      count = count;
      expires_at = expires;
    })
      ≡ true
same_key_refl b r s count expires = (same_key_iff b r s _).1 (refl, refl, refl)

module _ (bucket : String) (route : RouteClass) (started expires limit now : ℕ)
    (windows : List Window) where
  abbrev alive : List Window
  alive = drop_stale bucket route now windows

  abbrev consumed : BackendConsumption × List Window
  consumed = consume bucket route started expires limit now windows

  -- The request is accepted while the count is below the limit, and then its count goes up by one.
  pub consume_counts :
      count_at bucket route started alive ≡ count_at bucket route started windows
      → let count = count_at bucket route started windows in
        (consumed.0.accepted ≡ not (leb limit count))
        × (count_at bucket route started consumed.1
            ≡ (if leb limit count then count else count + 1))
  unfolding consume
  consume_counts same =
      let count = count_at bucket route started alive in
      let next : Window = record {
        bucket_key = bucket;
        route_class = route;
        window_started_at = started;
        count = count + 1;
        expires_at = expires;
      } in
      (
        ground (arith, same),
        ground (
          arith,
          same,
          count_at-store bucket route started next alive,
          same_key_refl bucket route started (count + 1) expires,
        ),
      )

  -- A request of another bucket or route changes no count.
  pub consume_other :
      (b : String) (r : RouteClass) (s : ℕ)
      → same_key b r s (record {
        bucket_key = bucket;
        route_class = route;
        window_started_at = started;
        count = count_at bucket route started alive + 1;
        expires_at = expires;
      })
        ≡ false
      → count_at b r s alive ≡ count_at b r s windows
      → count_at b r s consumed.1 ≡ count_at b r s windows
  unfolding consume
  consume_other b r s differ same =
      let next : Window = record {
        bucket_key = bucket;
        route_class = route;
        window_started_at = started;
        count = count_at bucket route started alive + 1;
        expires_at = expires;
      } in
      ground (arith, same, count_at-store b r s next alive)
