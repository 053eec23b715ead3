-- ===== src/RateLimit/Tests.antt =====
-- Logins of one principal within a minute.
use hackaton_open_ai.Prelude.{◌-◌, ◌≡◌, refl, String, true, List, [], ◌∷◌, min, arith}
use hackaton_open_ai.RateLimit.Windows.{Window, login, count_at}
use hackaton_open_ai.RateLimit.{default_rate_limits, validate_policy, window_start}
use hackaton_open_ai.RateLimit.Limits.{IsValid}
use hackaton_open_ai.RateLimit.Schedule.{Request, InWindow, asked, admitted, admitted_exact}

abbrev name_of : String → String
name_of principal = principal

login_valid : validate_policy (default_rate_limits login) ≡ true
unfolding default_rate_limits
login_valid = refl

abbrev window : Window
window = record {
  bucket_key = "parent";
  route_class = login;
  window_started_at = 60000000;
  count = 4;
  expires_at = 120000000;
}

abbrev windows : List Window
windows = window ∷ []

windows-IsValid : IsValid default_rate_limits name_of windows
unfolding default_rate_limits
windows-IsValid = ((refl, omega arith), tt)

abbrev requests : List Request
requests =
    record { principal = "parent"; route = login; at = 90000000 }
    ∷ record { principal = "child"; route = login; at = 90000001 }
    ∷ record { principal = "parent"; route = login; at = 90000002 }
    ∷ []

placed : InWindow default_rate_limits name_of "parent" login 60000000 requests
unfolding window_start default_rate_limits
placed = (λ o. refl, (λ o. refl, (λ o. refl, tt)))

admitted_exact_example :
    admitted default_rate_limits name_of "parent" login requests windows
    ≡ min
        ((default_rate_limits login).limit - count_at "parent" login 60000000 windows)
        (asked default_rate_limits name_of "parent" login requests)
admitted_exact_example =
    admitted_exact default_rate_limits name_of "parent" login 60000000 requests windows login_valid
      windows-IsValid placed
