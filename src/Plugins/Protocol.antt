-- ===== src/Plugins/Protocol.antt =====
-- The plugins that query their provider in a setup (plugins/cloudflare.c, cloudxns.c, dnspod.c,
-- freedns.c, porkbun.c, yandex.c), and dnsmax.c: what their answers and their connections have in common.
mod Closes
pub use Closes.*
use inadyn.Prelude.{ℕ, ◌≡◌, ◌≢◌, ◌⊎◌, ◌↔◌, true, inl, inr, arith, ap, ℕ-cases}
use inadyn.Prelude.Int.{ℤ, pos, negsuc}
use inadyn.Error.{rc_ok}
use inadyn.Http.{Trans}
use inadyn.Ddns.State.{Alias, Info}
use inadyn.Json.{Jsmn}
use inadyn.Plugins.Common.{checked}
use inadyn.Plugins.Status.{checked-refuses}
use inadyn.Plugins.Cloudflare
use inadyn.Plugins.Cloudflare.{check_success_only}
use inadyn.Plugins.Cloudxns
use inadyn.Plugins.Dnsmax
use inadyn.Plugins.Dnspod
use inadyn.Plugins.Freedns
use inadyn.Plugins.Porkbun
use inadyn.Plugins.Yandex

ℤ-cases : (z : ℤ) (n : ℕ) → (z ≡ pos n) ⊎ (z ≢ pos n)
ℤ-cases (pos m) n = elim (ℕ-cases m n) [
  | inl e ↦ inl (ap pos e)
  | inr e ↦ inr (λ h. e (ground arith))
]
ℤ-cases (negsuc m) n = inr (λ h. cc)

cloudflare_code :
    (status : ℤ)
    → status ≢ pos 200
    → status ≢ pos 304
    → Cloudflare.check_response_code status ≢ rc_ok
unfolding Cloudflare.check_response_code
cloudflare_code status h k e = ground arith

cloudflare_accepts :
    (jsmn : Jsmn) (trans : Trans) (info : Info) (alias : Alias)
    → trans.status ≢ pos 200
    → (Cloudflare.response jsmn trans info alias ≡ rc_ok)
      ↔ ((trans.status ≡ pos 304) × (check_success_only jsmn trans.rsp_body ≡ true))
unfolding Cloudflare.response Cloudflare.check_response_code
cloudflare_accepts jsmn trans info alias h = elim (ℤ-cases trans.status 304) [
  | inl e ↦ (λ k. (e, ground arith), λ k. ground arith)
  | inr n ↦ (λ k. absurd (ground (arith, cloudflare_code trans.status h n)), λ k. absurd (n k.0))
]

porkbun_code : (status : ℤ) → status ≢ pos 200 → Porkbun.check_response_code status ≢ rc_ok
unfolding Porkbun.check_response_code
porkbun_code status h e = ground arith

-- Without status 200 no answer counts as a success but one of Cloudflare, which counts as one exactly with
-- status 304 and a body that says success.
pub protocol_needs_200 :
    (jsmn : Jsmn) (trans : Trans) (info : Info) (alias : Alias)
    → trans.status ≢ pos 200
    → (Cloudxns.response trans info alias ≢ rc_ok)
      × (Dnsmax.response trans info alias ≢ rc_ok)
      × (Dnspod.response trans info alias ≢ rc_ok)
      × (Freedns.response trans info alias ≢ rc_ok)
      × (Porkbun.response jsmn trans info alias ≢ rc_ok)
      × (Yandex.response jsmn trans info alias ≢ rc_ok)
      × ((Cloudflare.response jsmn trans info alias ≡ rc_ok)
          ↔ ((trans.status ≡ pos 304) × (check_success_only jsmn trans.rsp_body ≡ true)))
unfolding Cloudxns.response Dnsmax.response Dnspod.response Freedns.response Porkbun.response
    Yandex.response Cloudflare.response
protocol_needs_200 jsmn trans info alias h =
    let refused : (rc : ℕ) → checked trans rc ≢ rc_ok = λ rc. checked-refuses trans rc h in
    (
      refused _,
      refused _,
      refused _,
      refused _,
      λ e. ground (arith, porkbun_code trans.status h),
      refused _,
      cloudflare_accepts jsmn trans info alias h,
    )
