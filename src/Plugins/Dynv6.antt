-- ===== src/Plugins/Dynv6.antt =====
-- The providers of plugins/dynv6.c.
use inadyn.Prelude.{ℕ, ◌+◌, false, ◌||◌, none, some, List, [], ◌∷◌, ◌++◌, if◌then◌else◌}
use inadyn.Prelude.Text.{Str, codes, contains}
use inadyn.Prelude.Int.{ℤ, negsuc}
use inadyn.Error.{rc_ddns_rsp_notok}
use inadyn.Http.{Trans}
use inadyn.Ddns.State.{Alias, Info, Ctx, System, Plugin}
use inadyn.Ddns.Query.{crlf}
use inadyn.Plugins.Common.{snprintf, checked}
use inadyn.Plugins.Registry.{Entry, Registry}
use inadyn.Plugins.Table.{static_system, Registration, register, register_all, unregister_all}

abbrev pub update_ip_request : Str
update_ip_request =
    codes "GET %s?ipv4=%s&hostname=%s&token=%s HTTP/1.0"
    ++ crlf
    ++ codes "Host: %s"
    ++ crlf
    ++ codes "User-Agent: %s"
    ++ crlf
    ++ crlf

abbrev pub update_ip6_request : Str
update_ip6_request =
    codes "GET %s?ipv6=%s&hostname=%s&token=%s HTTP/1.0"
    ++ crlf
    ++ codes "Host: %s"
    ++ crlf
    ++ codes "User-Agent: %s"
    ++ crlf
    ++ crlf

abbrev pub system4 : System
system4 =
    static_system (codes "ipv4@dynv6.com") (some (codes "default@ipv4.dynv6.com")) false
      (codes "checkip.dyndns.com") (codes "/") (negsuc 0) (codes "ipv4.dynv6.com")
      (codes "/api/update")

abbrev pub system6 : System
system6 =
    static_system (codes "ipv6@dynv6.com") (some (codes "default@dynv6.com")) false
      (codes "checkip.dyndns.com") (codes "/") (negsuc 0) (codes "dynv6.com") (codes "/api/update")

-- Without an address the provider takes that of the connection.
unfoldable pub auto_address : Str → Str
auto_address [] = codes "auto"
auto_address (c ∷ s) = c ∷ s

unfoldable pub request : Ctx → Info → Alias → ℤ × Str
unfolding auto_address
request ctx info alias =
    let addr = auto_address alias.address in
    snprintf ctx.request_buflen info.system.server_req (
      info.server_url ∷ addr ∷ alias.name ∷ info.creds.username ∷ info.server_name.name
      ∷ info.user_agent ∷ [])

unfoldable pub response : Trans → Info → Alias → ℕ
response trans info alias = checked trans (
    if contains trans.rsp_body (codes "updated") || contains trans.rsp_body (codes "unchanged")
    then 0
    else rc_ddns_rsp_notok)

abbrev pub plugin : Plugin
plugin = record { setup = none; request = request; response = response }

-- The structures at their places in memory.
abbrev pub entry : ℕ → System → Entry
entry place s = record { id = place; system = s; plugin = plugin }

abbrev pub registrations : ℕ → List Registration
registrations place =
    register update_ip_request (entry (place + 0) system4)
    ∷ register update_ip6_request (entry (place + 1) system6)
    ∷ []

unfoldable pub plugin_init : ℕ → Registry → Registry
unfolding register_all
plugin_init place plugins = register_all (registrations place) plugins

unfoldable pub plugin_exit : ℕ → Registry → Registry
unfolding unregister_all
plugin_exit place plugins =
    unregister_all (entry (place + 0) system4 ∷ entry (place + 1) system6 ∷ []) plugins
