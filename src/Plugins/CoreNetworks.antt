-- ===== src/Plugins/CoreNetworks.antt =====
-- The provider of plugins/core-networks.c.
use inadyn.Prelude.{ℕ, ◌+◌, false, none, List, [], ◌∷◌, ◌++◌, ◌==◌, if◌then◌else◌}
use inadyn.Prelude.Text.{Str, codes, contains}
use inadyn.Prelude.Int.{ℤ, negsuc}
use inadyn.Error.{rc_ddns_rsp_notok}
use inadyn.Http.{Trans}
use inadyn.Ddns.State.{Alias, Info, Ctx, System, Plugin, ddns_get_tcp_force, tcp_force_ipv6}
use inadyn.Ddns.Query.{crlf}
use inadyn.Plugins.Common.{snprintf, checked}
use inadyn.Plugins.Registry.{Entry, Registry}
use inadyn.Plugins.Table.{
  static_system, Registration, register, register_v6, register_all, unregister_all,
}

abbrev pub update_ip_request : Str
update_ip_request =
    codes "GET %s?hostname=%s&myip=%s&%s HTTP/1.0"
    ++ crlf
    ++ codes "Host: %s"
    ++ crlf
    ++ codes "Authorization: Basic %s"
    ++ crlf
    ++ codes "User-Agent: %s"
    ++ crlf
    ++ crlf

abbrev pub system : System
system =
    static_system (codes "default@core-networks.de") none false (codes "checkip.dyndns.com")
      (codes "/") (negsuc 0) (codes "dyndns.core-networks.de") (codes "/")

unfoldable pub request : Ctx → Info → Alias → ℤ × Str
unfolding ddns_get_tcp_force
request ctx info alias =
    let keepip =
      (if ddns_get_tcp_force info == tcp_force_ipv6
        then codes "keepipv4=1"
        else codes "keepipv6=1") in
    snprintf ctx.request_buflen info.system.server_req (
      info.server_url ∷ alias.name ∷ alias.address ∷ keepip ∷ info.server_name.name
      ∷ info.creds.encoded_password ∷ info.user_agent ∷ [])

unfoldable pub response : Trans → Info → Alias → ℕ
response trans info alias =
    checked trans (if contains trans.rsp_body (codes "good") then 0 else rc_ddns_rsp_notok)

abbrev pub plugin : Plugin
plugin = record { setup = none; request = request; response = response }

-- The structures at their places in memory.
abbrev pub entry : ℕ → System → Entry
entry place s = record { id = place; system = s; plugin = plugin }

abbrev pub registrations : ℕ → List Registration
registrations place =
    register update_ip_request (entry (place + 0) system)
    ∷ register_v6 (place + 1) update_ip_request (entry (place + 0) system)
    ∷ []

unfoldable pub plugin_init : ℕ → Registry → Registry
unfolding register_all
plugin_init place plugins = register_all (registrations place) plugins

unfoldable pub plugin_exit : ℕ → Registry → Registry
unfolding unregister_all
plugin_exit place plugins = unregister_all (entry (place + 0) system ∷ []) plugins
