-- ===== src/Plugins/Dnsmax.antt =====
-- The providers of plugins/dnsmax.c. The request names the package and its version, which the build
-- takes from configure.ac.
use inadyn.Prelude.{ℕ, ◌+◌, false, none, List, [], ◌∷◌, ◌++◌, if◌then◌else◌}
use inadyn.Prelude.Text.{Str, codes, contains}
use inadyn.Prelude.Int.{ℤ, negsuc}
use inadyn.Error.{rc_ddns_rsp_notok}
use inadyn.Http.{Trans}
use inadyn.Ddns.State.{Alias, Info, Ctx, System, Plugin}
use inadyn.Ddns.Query.{crlf}
use inadyn.Plugins.Common.{snprintf, checked}
use inadyn.Plugins.Registry.{Entry, Registry}
use inadyn.Plugins.Table.{static_system, Registration, register, register_all, unregister_all}

abbrev pub dnsmax_update_ip_request : Str
dnsmax_update_ip_request =
    codes "GET %s?username=%s&password=%s&resellerid=1&clientname=In-a-dyn&clientversion=2.13.0"
    ++ codes "&protocolversion=2.0&updatehostname=%s&ip=%s HTTP/1.0"
    ++ crlf
    ++ codes "Host: %s"
    ++ crlf
    ++ codes "User-Agent: %s"
    ++ crlf
    ++ crlf

abbrev pub dnsmax_system : System
dnsmax_system =
    static_system (codes "default@dnsmax.com") none false (codes "checkip.dyndns.com") (codes "/")
      (negsuc 0) (codes "update.dnsmax.com") (codes "/update/")

abbrev pub thatip_system : System
thatip_system =
    static_system (codes "default@thatip.com") none false (codes "checkip.dyndns.com") (codes "/")
      (negsuc 0) (codes "update.dnsmax.com") (codes "/update/")

unfoldable pub request : Ctx → Info → Alias → ℤ × Str
request ctx info alias = snprintf ctx.request_buflen info.system.server_req (
    info.server_url ∷ info.creds.username ∷ info.creds.password ∷ alias.name ∷ alias.address
    ∷ info.server_name.name ∷ info.user_agent ∷ [])

unfoldable pub response : Trans → Info → Alias → ℕ
response trans info alias =
    checked trans (if contains trans.rsp_body alias.address then 0 else rc_ddns_rsp_notok)

abbrev pub plugin : Plugin
plugin = record { setup = none; request = request; response = response }

-- The structures at their places in memory.
abbrev pub entry : ℕ → System → Entry
entry place s = record { id = place; system = s; plugin = plugin }

abbrev pub registrations : ℕ → List Registration
registrations place =
    register dnsmax_update_ip_request (entry place dnsmax_system)
    ∷ register dnsmax_update_ip_request (entry (place + 1) thatip_system)
    ∷ []

unfoldable pub plugin_init : ℕ → Registry → Registry
unfolding register_all
plugin_init place plugins = register_all (registrations place) plugins

unfoldable pub plugin_exit : ℕ → Registry → Registry
unfolding unregister_all
plugin_exit place plugins =
    unregister_all (entry place dnsmax_system ∷ entry (place + 1) thatip_system ∷ []) plugins
