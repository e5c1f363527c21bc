-- ===== src/Plugins/Ddnss.antt =====
-- The provider of plugins/ddnss.c.
use inadyn.Prelude.{ℕ, ◌+◌, false, ◌||◌, none, List, [], ◌∷◌, ◌++◌, if◌then◌else◌}
use inadyn.Prelude.Text.{Str, codes, contains}
use inadyn.Prelude.Int.{ℤ, negsuc}
use inadyn.Error.{rc_ddns_rsp_notok}
use inadyn.Http.{Trans}
use inadyn.Ddns.State.{Alias, Info, Ctx, System, Plugin}
use inadyn.Ddns.Query.{crlf}
use inadyn.Plugins.Common.{snprintf, checked}
use inadyn.Plugins.Registry.{Entry, Registry}
use inadyn.Plugins.Table.{static_system, Registration, register, register_all, unregister_all}

abbrev pub update_ip_request : Str
update_ip_request =
    codes "GET %s?user=%s&pwd=%s&host=%s HTTP/1.0"
    ++ crlf
    ++ codes "Host: %s"
    ++ crlf
    ++ codes "User-Agent: %s"
    ++ crlf
    ++ crlf

abbrev pub system : System
system =
    static_system (codes "default@ddnss.de") none false (codes "checkip.dyndns.com") (codes "/")
      (negsuc 0) (codes "ddnss.de") (codes "/upd.php")

unfoldable pub request : Ctx → Info → Alias → ℤ × Str
request ctx info alias = snprintf ctx.request_buflen info.system.server_req (
    info.server_url ∷ info.creds.username ∷ info.creds.password ∷ alias.name ∷ info.server_name.name
    ∷ info.user_agent ∷ [])

unfoldable pub response : Trans → Info → Alias → ℕ
response trans info alias = checked trans (
    if contains trans.rsp_body (codes "Updated") || contains trans.rsp_body (codes "No change")
    then 0
    else rc_ddns_rsp_notok)

abbrev pub plugin : Plugin
plugin = record { setup = none; request = request; response = response }

-- The structures at their places in memory.
abbrev pub entry : ℕ → System → Entry
entry place s = record { id = place; system = s; plugin = plugin }

abbrev pub registrations : ℕ → List Registration
registrations place = register update_ip_request (entry (place + 0) system) ∷ []

unfoldable pub plugin_init : ℕ → Registry → Registry
unfolding register_all
plugin_init place plugins = register_all (registrations place) plugins

unfoldable pub plugin_exit : ℕ → Registry → Registry
unfolding unregister_all
plugin_exit place plugins = unregister_all (entry (place + 0) system ∷ []) plugins
