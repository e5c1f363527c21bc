-- ===== src/Plugins/Goip.antt =====
-- The provider goip.de (plugins/goip.c).
use inadyn.Prelude.{ℕ, false, none, [], ◌∷◌, ◌++◌, if◌then◌else◌}
use inadyn.Prelude.Text.{Str, codes, contains}
use inadyn.Prelude.Int.{ℤ, negsuc}
use inadyn.Error.{rc_ddns_rsp_notok}
use inadyn.Http.{Trans}
use inadyn.Ddns.State.{Alias, Info, Ctx, System}
use inadyn.Ddns.Query.{crlf}
use inadyn.Ddns.State.{Plugin}
use inadyn.Plugins.Registry.{Entry, Registry}
use inadyn.Plugins.Table.{static_system, Registration, register, register_all, unregister_all}
use inadyn.Prelude.{◌+◌, List}
use inadyn.Prelude.Int.{pos}
use inadyn.Plugins.Common.{snprintf, checked}

abbrev pub update_ip_request : Str
update_ip_request =
    codes "GET %s?username=%s&password=%s&subdomain=%s&ip=%s HTTP/1.0"
    ++ crlf
    ++ codes "Host: %s"
    ++ crlf
    ++ codes "User-Agent: %s"
    ++ crlf
    ++ crlf

-- The static structure, with the request that its registration stores.
abbrev pub system : System
system = record {
  name = codes "default@goip.de";
  alias = none;
  cloned = false;
  nousername = false;
  checkip_name = codes "checkip.dyndns.com";
  checkip_url = codes "/";
  checkip_ssl = negsuc 0;
  server_name = codes "www.goip.de";
  server_url = codes "/setip";
  server_req = update_ip_request;
}

unfoldable pub request : Ctx → Info → Alias → ℤ × Str
request ctx info alias = snprintf ctx.request_buflen info.system.server_req (
    info.server_url ∷ info.creds.username ∷ info.creds.password ∷ alias.name ∷ alias.address
    ∷ info.server_name.name ∷ info.user_agent ∷ [])

unfoldable pub response : Trans → Info → Alias → ℕ
response trans info alias =
    checked trans (if contains trans.rsp_body alias.address then 0 else rc_ddns_rsp_notok)

abbrev pub update_ip6_request : Str
update_ip6_request =
    codes "GET %s?username=%s&password=%s&subdomain=%s&ip6=%s HTTP/1.0"
    ++ crlf
    ++ codes "Host: %s"
    ++ crlf
    ++ codes "User-Agent: %s"
    ++ crlf
    ++ crlf

abbrev pub system_v6 : System
system_v6 =
    static_system (codes "ipv6@goip.de") none false (codes "dns64.cloudflare-dns.com")
      (codes "/cdn-cgi/trace") (pos 1) (codes "www.goip.de") (codes "/setip")

abbrev pub plugin : Plugin
plugin = record { setup = none; request = request; response = response }

-- The structures at their places in memory.
abbrev pub entry : ℕ → System → Entry
entry place s = record { id = place; system = s; plugin = plugin }

abbrev pub registrations : ℕ → List Registration
registrations place =
    register update_ip_request (entry (place + 0) system)
    ∷ register update_ip6_request (entry (place + 1) system_v6)
    ∷ []

unfoldable pub plugin_init : ℕ → Registry → Registry
unfolding register_all
plugin_init place plugins = register_all (registrations place) plugins

unfoldable pub plugin_exit : ℕ → Registry → Registry
unfolding unregister_all
plugin_exit place plugins =
    unregister_all (entry (place + 0) system ∷ entry (place + 1) system_v6 ∷ []) plugins
