-- ===== src/Plugins/Answers.antt =====
-- What the answers of the simple providers need (plugins/*.c).
use inadyn.Prelude.{ℕ, ◌≡◌, ◌≢◌, ◌↔◌, arith}
use inadyn.Prelude.Int.{pos}
use inadyn.Error.{rc_ok}
use inadyn.Http.{Trans}
use inadyn.Ddns.State.{Alias, Info}
use inadyn.Plugins.Common.{checked, common_response}
use inadyn.Plugins.Status.{checked-refuses, checked-always}
use inadyn.Plugins.AllInkl
use inadyn.Plugins.Changeip
use inadyn.Plugins.CoreNetworks
use inadyn.Plugins.Ddnss
use inadyn.Plugins.Dnsever
use inadyn.Plugins.Dnshome
use inadyn.Plugins.Domaindiscount24
use inadyn.Plugins.Duckdns
use inadyn.Plugins.Dyndns
use inadyn.Plugins.Dynv6
use inadyn.Plugins.Freemyip
use inadyn.Plugins.Ipv64
use inadyn.Plugins.Mydns
use inadyn.Plugins.Myonlineportal
use inadyn.Plugins.Namecheap
use inadyn.Plugins.Regfish
use inadyn.Plugins.Sitelutions
use inadyn.Plugins.Twodns

-- No answer of these counts as a success without status 200.
pub simple_needs_200 :
    (trans : Trans) (info : Info) (alias : Alias)
    → trans.status ≢ pos 200
    → (AllInkl.response trans info alias ≢ rc_ok)
      × (Changeip.response trans info alias ≢ rc_ok)
      × (CoreNetworks.response trans info alias ≢ rc_ok)
      × (Ddnss.response trans info alias ≢ rc_ok)
      × (Dnsever.response trans info alias ≢ rc_ok)
      × (Dnshome.response trans info alias ≢ rc_ok)
      × (Domaindiscount24.response trans info alias ≢ rc_ok)
      × (Duckdns.response trans info alias ≢ rc_ok)
      × (Dyndns.response trans info alias ≢ rc_ok)
      × (Dynv6.response trans info alias ≢ rc_ok)
      × (Freemyip.response trans info alias ≢ rc_ok)
      × (Ipv64.response trans info alias ≢ rc_ok)
      × (Mydns.response trans info alias ≢ rc_ok)
      × (Myonlineportal.response trans info alias ≢ rc_ok)
      × (Namecheap.response trans info alias ≢ rc_ok)
      × (Regfish.response trans info alias ≢ rc_ok)
      × (Sitelutions.response trans info alias ≢ rc_ok)
      × (Twodns.response trans info alias ≢ rc_ok)
unfolding common_response AllInkl.response Changeip.response CoreNetworks.response Ddnss.response
    Dnsever.response Dnshome.response Domaindiscount24.response Duckdns.response Dyndns.response
    Dynv6.response Freemyip.response Ipv64.response Mydns.response Myonlineportal.response
    Namecheap.response Regfish.response Sitelutions.response Twodns.response
simple_needs_200 trans info alias h =
    let refused : (rc : ℕ) → checked trans rc ≢ rc_ok = λ rc. checked-refuses trans rc h in
    (
      refused _,
      refused _,
      refused _,
      refused _,
      refused _,
      refused _,
      refused _,
      refused _,
      refused _,
      refused _,
      refused _,
      refused _,
      refused _,
      refused _,
      refused _,
      refused _,
      refused _,
      refused _,
    )

-- MyDNS.JP never counts as a success: an answer with status 200 is refused as any other. For five other providers an
-- answer counts as a success exactly with status 200, whatever its body says.
pub mydns_never_accepts :
    (trans : Trans) (info : Info) (alias : Alias)
    → (Mydns.response trans info alias ≢ rc_ok)
      × ((AllInkl.response trans info alias ≡ rc_ok) ↔ (trans.status ≡ pos 200))
      × ((Dnsever.response trans info alias ≡ rc_ok) ↔ (trans.status ≡ pos 200))
      × ((Dnshome.response trans info alias ≡ rc_ok) ↔ (trans.status ≡ pos 200))
      × ((Ipv64.response trans info alias ≡ rc_ok) ↔ (trans.status ≡ pos 200))
      × ((Twodns.response trans info alias ≡ rc_ok) ↔ (trans.status ≡ pos 200))
unfolding Mydns.response AllInkl.response Dnsever.response Dnshome.response Ipv64.response
    Twodns.response
mydns_never_accepts trans info alias =
    let exact = checked-always trans in (λ h. ground (arith, h), exact, exact, exact, exact, exact)
