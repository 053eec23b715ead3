-- ===== src/RateLimit/Windows.antt =====
-- `InMemoryRateLimitBackend` of api/data_security/rate_limit.py. Its dict from (bucket, route class,
-- start) to (count, expiry) is a list of entries.
use hackaton_open_ai.Prelude.{
  ℕ, ◌+◌, String, Bool, true, false, not, ◌&&◌, List, [], ◌∷◌, ◌==◌, string_eq, nat_eq, nat_beq,
  leb, keep, Equality, ◌≡◌, ◌↔◌, arith, if◌then◌else◌,
}

pub data RouteClass : Type 0 where
  login pairing evidence_read evidence_write general unlock command_ack heartbeat : RouteClass

abbrev pub route_index : RouteClass → ℕ
route_index login = 0
route_index pairing = 1
route_index evidence_read = 2
route_index evidence_write = 3
route_index general = 4
route_index unlock = 5
route_index command_ack = 6
route_index heartbeat = 7

pub route_eq_iff : (a b : RouteClass) → (nat_beq (route_index a) (route_index b) ≡ true) ↔ (a ≡ b)
route_eq_iff a b = ground arith

instance abbrev pub route_eq : Equality RouteClass
route_eq = record {
  equal = λ a b. nat_beq (route_index a) (route_index b);
  equal_iff = route_eq_iff;
}

pub record Window : Type 0 where
  pub bucket_key : String
  pub route_class : RouteClass
  pub window_started_at : ℕ
  pub count : ℕ
  pub expires_at : ℕ

pub record BackendConsumption : Type 0 where
  pub accepted : Bool
  pub count : ℕ

-- `stale_key[:2] == key[:2]`
unfoldable pub same_bucket : String → RouteClass → Window → Bool
same_bucket bucket route w = (w.bucket_key == bucket) && (w.route_class == route)

unfoldable pub same_key : String → RouteClass → ℕ → Window → Bool
unfolding same_bucket
same_key bucket route started w = same_bucket bucket route w && (w.window_started_at == started)

-- The count of `self.windows.get(key, (0, expires_at))`.
unfoldable pub count_at : String → RouteClass → ℕ → List Window → ℕ
count_at bucket route started [] = 0
count_at bucket route started (w ∷ windows) =
    if same_key bucket route started w then w.count else count_at bucket route started windows

-- `self.windows[key] = (count, expires_at)`
unfoldable pub store : Window → List Window → List Window
store v [] = v ∷ []
store v (w ∷ windows) =
    let rest = store v windows in
    if same_key v.bucket_key v.route_class v.window_started_at w then v ∷ windows else w ∷ rest

-- The loop that drops the bucket's windows that have expired.
unfoldable pub drop_stale : String → RouteClass → ℕ → List Window → List Window
drop_stale bucket route now windows =
    keep (λ w. not (same_bucket bucket route w && leb w.expires_at now)) windows

unfoldable pub consume :
    String → RouteClass → ℕ → ℕ → ℕ → ℕ → List Window → BackendConsumption × List Window
unfolding drop_stale
consume bucket route started expires limit now windows =
    let alive = drop_stale bucket route now windows in
    let count = count_at bucket route started alive in
    if leb limit count then (record { accepted = false; count = count }, alive) else (
      record { accepted = true; count = count + 1 },
      store
          (record {
            bucket_key = bucket;
            route_class = route;
            window_started_at = started;
            count = count + 1;
            expires_at = expires;
          })
          alive,
    )
