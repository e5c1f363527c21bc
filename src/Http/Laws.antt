-- ===== src/Http/Laws.antt =====
-- Laws of the HTTP client (src/http.c).
use inadyn.Prelude.{ℕ, ◌≡◌, ◌↔◌, ◌⊎◌, ◌≤◌, ◌<◌, arith}
use inadyn.Prelude.Int.{ℤ, pos, negsuc}
use inadyn.Error.{rc_ddns_rsp_auth_fail, rc_ddns_rsp_retry_later}
use inadyn.Http.{http_status_valid}

-- The classes of a status: 200 alone is accepted, 401 and 403 alone are authentication failures, the
-- codes from 500 to 599 alone are worth a retry, and nothing has a fifth outcome.
pub http_status_valid_classes :
    (status : ℤ)
    → ((http_status_valid status ≡ 0) ↔ (status ≡ pos 200))
      × ((http_status_valid status ≡ rc_ddns_rsp_auth_fail)
          ↔ ((status ≡ pos 401) ⊎ (status ≡ pos 403)))
      × ((http_status_valid status ≡ rc_ddns_rsp_retry_later)
          ↔ ((n : ℕ) × (status ≡ pos n) × (500 ≤ n) × (n < 600)))
unfolding http_status_valid
http_status_valid_classes (pos n) = (
  (λ h. ground arith, λ h. ground arith),
  (λ h. ground arith, λ h. ground arith),
  (λ h. (n, ground arith, ground arith, ground arith), λ h. ground arith),
)
http_status_valid_classes (negsuc n) = (
  (λ h. ground arith, λ h. ground arith),
  (λ h. ground arith, λ h. ground arith),
  (λ h. ground arith, λ h. ground arith),
)
