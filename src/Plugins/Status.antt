-- ===== src/Plugins/Status.antt =====
-- What the answers of the providers have in common (plugins/*.c).
use inadyn.Prelude.{ℕ, ◌≡◌, ◌≢◌, ◌⊎◌, ◌↔◌, arith}
use inadyn.Prelude.Text.{contains-empty}
use inadyn.Prelude.Int.{pos}
use inadyn.Error.{rc_ok}
use inadyn.Http.{Trans}
use inadyn.Http.Laws.{http_status_valid_classes}
use inadyn.Ddns.State.{Alias, Info}
use inadyn.Plugins.Common.{checked, common_response}
use inadyn.Plugins.Generic
use inadyn.Plugins.Easydns
use inadyn.Plugins.Zoneedit
use inadyn.Plugins.Dnsexit
use inadyn.Plugins.Dhis
use inadyn.Plugins.Goip
use inadyn.Plugins.Desec
use inadyn.Plugins.Giradns
use inadyn.Plugins.Dnsmadeeasy
use inadyn.Plugins.Domeneshop

pub checked-refuses : (trans : Trans) (rc : ℕ) → trans.status ≢ pos 200 → checked trans rc ≢ rc_ok
checked-refuses trans rc h e = ground (arith, (http_status_valid_classes trans.status).0)

pub checked-always : (trans : Trans) → (checked trans 0 ≡ rc_ok) ↔ (trans.status ≡ pos 200)
checked-always trans = (
  λ h. ground (arith, (http_status_valid_classes trans.status).0),
  λ h. ground (arith, (http_status_valid_classes trans.status).0),
)

-- No answer of these nine counts as a success without status 200.
pub response_needs_200 :
    (trans : Trans) (info : Info) (alias : Alias)
    → trans.status ≢ pos 200
    → (common_response trans info alias ≢ rc_ok)
      × (Generic.response trans info alias ≢ rc_ok)
      × (Easydns.response trans info alias ≢ rc_ok)
      × (Zoneedit.response trans info alias ≢ rc_ok)
      × (Dnsexit.response trans info alias ≢ rc_ok)
      × (Dhis.response trans info alias ≢ rc_ok)
      × (Goip.response trans info alias ≢ rc_ok)
      × (Desec.response trans info alias ≢ rc_ok)
      × (Giradns.response trans info alias ≢ rc_ok)
unfolding common_response Generic.response Easydns.response Zoneedit.response Dnsexit.response
    Dhis.response Goip.response Desec.response Giradns.response
response_needs_200 trans info alias h =
    let refused : (rc : ℕ) → checked trans rc ≢ rc_ok = λ rc. checked-refuses trans rc h in
    (
      refused _,
      refused _,
      refused _,
      refused _,
      refused _,
      refused _,
      refused _,
      refused _,
      refused _,
    )

-- For DNS Made Easy an answer counts as a success exactly with status 200, and for Domeneshop exactly
-- with status 200 or 204: what the body says never matters.
pub response_by_status_alone :
    (trans : Trans) (info : Info) (alias : Alias)
    → ((Dnsmadeeasy.response trans info alias ≡ rc_ok) ↔ (trans.status ≡ pos 200))
      × ((Domeneshop.response trans info alias ≡ rc_ok)
          ↔ ((trans.status ≡ pos 200) ⊎ (trans.status ≡ pos 204)))
unfolding Dnsmadeeasy.response Domeneshop.response Domeneshop.check_response_code
response_by_status_alone trans info alias =
    let class = (http_status_valid_classes trans.status).0 in
    (
      (
        λ h. ground (arith, (checked-always trans).0),
        λ h. ground (arith, (checked-always trans).1),
      ),
      (
        λ h. ground (arith, class, contains-empty trans.rsp_body),
        λ h. ground (arith, class, contains-empty trans.rsp_body),
      ),
    )
