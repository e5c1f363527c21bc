-- ===== src/Plugins/Ipv64.antt =====
-- The providers of plugins/ipv64.c.
use inadyn.Prelude.{ℕ, ◌+◌, false, none, some, List, [], ◌∷◌, ◌++◌}
use inadyn.Prelude.Text.{Str, codes}
use inadyn.Prelude.Int.{ℤ, negsuc}
use inadyn.Http.{Trans}
use inadyn.Ddns.State.{Alias, Info, Ctx, System, Plugin}
use inadyn.Ddns.Query.{crlf}
use inadyn.Plugins.Common.{snprintf, checked}
use inadyn.Plugins.Registry.{Entry, Registry}
use inadyn.Plugins.Table.{static_system, Registration, register, register_all, unregister_all}

abbrev pub update_ip_request : Str
update_ip_request =
    codes "GET %s?token=%s&ip=%s HTTP/1.0"
    ++ crlf
    ++ codes "Host: %s"
    ++ crlf
    ++ codes "Authorization: Basic %s"
    ++ crlf
    ++ codes "User-Agent: %s"
    ++ crlf
    ++ crlf

abbrev pub update_ip6_request : Str
update_ip6_request =
    codes "GET %s?token=%s&ip6=%s HTTP/1.0"
    ++ crlf
    ++ codes "Host: %s"
    ++ crlf
    ++ codes "Authorization: Basic %s"
    ++ crlf
    ++ codes "User-Agent: %s"
    ++ crlf
    ++ crlf

abbrev pub system : System
system =
    static_system (codes "ipv4@ipv64.net") (some (codes "default@ipv64.net")) false
      (codes "ifconfig.me") (codes "/ip") (negsuc 0) (codes "ipv4.ipv64.net") (codes "/nic/update")

abbrev pub system_v6 : System
system_v6 =
    static_system (codes "ipv6@ipv64.net") none false (codes "ifconfig.me") (codes "/ip") (negsuc 0)
      (codes "ipv6.ipv64.net") (codes "/nic/update")

unfoldable pub request : Ctx → Info → Alias → ℤ × Str
request ctx info alias = snprintf ctx.request_buflen info.system.server_req (
    info.server_url ∷ alias.name ∷ alias.address ∷ info.server_name.name
    ∷ info.creds.encoded_password ∷ info.user_agent ∷ [])

unfoldable pub response : Trans → Info → Alias → ℕ
response trans info alias = checked trans 0

abbrev pub plugin : Plugin
plugin = record { setup = none; request = request; response = response }

-- The structures at their places in memory.
abbrev pub entry : ℕ → System → Entry
entry place s = record { id = place; system = s; plugin = plugin }

abbrev pub registrations : ℕ → List Registration
registrations place =
    register update_ip_request (entry (place + 0) system)
    ∷ register update_ip6_request (entry (place + 1) system_v6)
    ∷ []

unfoldable pub plugin_init : ℕ → Registry → Registry
unfolding register_all
plugin_init place plugins = register_all (registrations place) plugins

unfoldable pub plugin_exit : ℕ → Registry → Registry
unfolding unregister_all
plugin_exit place plugins =
    unregister_all (entry (place + 0) system ∷ entry (place + 1) system_v6 ∷ []) plugins
