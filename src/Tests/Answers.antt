-- ===== src/Tests/Answers.antt =====
-- Runs of the simple plugins.
use inadyn.Prelude.{◌≢◌, arith}
use inadyn.Prelude.Text.{codes}
use inadyn.Prelude.Int.{pos}
use inadyn.Error.{rc_ok}
use inadyn.Http.{Trans, zero_trans}
use inadyn.Plugins.AllInkl
use inadyn.Plugins.Changeip
use inadyn.Plugins.CoreNetworks
use inadyn.Plugins.Ddnss
use inadyn.Plugins.Dnsever
use inadyn.Plugins.Dnshome
use inadyn.Plugins.Domaindiscount24
use inadyn.Plugins.Duckdns
use inadyn.Plugins.Dyndns
use inadyn.Plugins.Dynv6
use inadyn.Plugins.Freemyip
use inadyn.Plugins.Ipv64
use inadyn.Plugins.Mydns
use inadyn.Plugins.Myonlineportal
use inadyn.Plugins.Namecheap
use inadyn.Plugins.Regfish
use inadyn.Plugins.Sitelutions
use inadyn.Plugins.Twodns
use inadyn.Plugins.Answers.{simple_needs_200}
use inadyn.Tests.Scene.{info, quiet}

-- An answer of a server that asks for a password.
abbrev denied : Trans
denied = record zero_trans { rsp_body = codes "good 8.8.8.8"; status = pos 401 }

simple_needs_200_example :
    (AllInkl.response denied info quiet ≢ rc_ok)
    × (Changeip.response denied info quiet ≢ rc_ok)
    × (CoreNetworks.response denied info quiet ≢ rc_ok)
    × (Ddnss.response denied info quiet ≢ rc_ok)
    × (Dnsever.response denied info quiet ≢ rc_ok)
    × (Dnshome.response denied info quiet ≢ rc_ok)
    × (Domaindiscount24.response denied info quiet ≢ rc_ok)
    × (Duckdns.response denied info quiet ≢ rc_ok)
    × (Dyndns.response denied info quiet ≢ rc_ok)
    × (Dynv6.response denied info quiet ≢ rc_ok)
    × (Freemyip.response denied info quiet ≢ rc_ok)
    × (Ipv64.response denied info quiet ≢ rc_ok)
    × (Mydns.response denied info quiet ≢ rc_ok)
    × (Myonlineportal.response denied info quiet ≢ rc_ok)
    × (Namecheap.response denied info quiet ≢ rc_ok)
    × (Regfish.response denied info quiet ≢ rc_ok)
    × (Sitelutions.response denied info quiet ≢ rc_ok)
    × (Twodns.response denied info quiet ≢ rc_ok)
simple_needs_200_example = simple_needs_200 denied info quiet (ground arith)
