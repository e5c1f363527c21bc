-- ===== src/Plugins/Domaindiscount24.antt =====
-- The providers of plugins/domaindiscount24.c.
use inadyn.Prelude.{ℕ, ◌+◌, false, none, List, [], ◌∷◌, ◌++◌, if◌then◌else◌}
use inadyn.Prelude.Text.{Str, codes, contains}
use inadyn.Prelude.Int.{ℤ, negsuc}
use inadyn.Error.{rc_ddns_rsp_notok}
use inadyn.Http.{Trans}
use inadyn.Ddns.State.{Alias, Info, Ctx, System, Plugin}
use inadyn.Ddns.Query.{crlf}
use inadyn.Plugins.Common.{snprintf, checked}
use inadyn.Plugins.Registry.{Entry, Registry}
use inadyn.Plugins.Table.{static_system, Registration, register, register_all, unregister_all}

abbrev pub update_ip_request : Str
update_ip_request =
    codes "GET %s?hostname=%s&password=%s&ip=%s HTTP/1.0"
    ++ crlf
    ++ codes "Host: %s"
    ++ crlf
    ++ codes "User-Agent: %s"
    ++ crlf
    ++ crlf

abbrev pub system_ddc24 : System
system_ddc24 =
    static_system (codes "default@domaindiscount24.com") none false (codes "checkip.dyndns.com")
      (codes "/") (negsuc 0) (codes "dynamicdns.key-systems.net") (codes "/update.php")

abbrev pub system_moniker : System
system_moniker =
    static_system (codes "default@moniker.com") none false (codes "checkip.dyndns.com") (codes "/")
      (negsuc 0) (codes "dynamicdns.key-systems.net") (codes "/update.php")

unfoldable pub request : Ctx → Info → Alias → ℤ × Str
request ctx info alias = snprintf ctx.request_buflen info.system.server_req (
    info.server_url ∷ alias.name ∷ info.creds.password ∷ alias.address ∷ info.server_name.name
    ∷ info.user_agent ∷ [])

unfoldable pub response : Trans → Info → Alias → ℕ
response trans info alias =
    checked trans (if contains trans.rsp_body (codes "success") then 0 else rc_ddns_rsp_notok)

abbrev pub plugin : Plugin
plugin = record { setup = none; request = request; response = response }

-- The structures at their places in memory.
abbrev pub entry : ℕ → System → Entry
entry place s = record { id = place; system = s; plugin = plugin }

abbrev pub registrations : ℕ → List Registration
registrations place =
    register update_ip_request (entry (place + 0) system_ddc24)
    ∷ register update_ip_request (entry (place + 1) system_moniker)
    ∷ []

unfoldable pub plugin_init : ℕ → Registry → Registry
unfolding register_all
plugin_init place plugins = register_all (registrations place) plugins

unfoldable pub plugin_exit : ℕ → Registry → Registry
unfolding unregister_all
plugin_exit place plugins =
    unregister_all (entry (place + 0) system_ddc24 ∷ entry (place + 1) system_moniker ∷ []) plugins
