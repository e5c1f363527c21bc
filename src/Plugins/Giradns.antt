-- ===== src/Plugins/Giradns.antt =====
-- The provider gira.de (plugins/giradns.c).
use inadyn.Prelude.{ℕ, false, none, [], ◌∷◌, ◌++◌, if◌then◌else◌}
use inadyn.Prelude.Text.{Str, codes, contains}
use inadyn.Prelude.Int.{ℤ, pos}
use inadyn.Error.{rc_ok, rc_ddns_rsp_notok}
use inadyn.Http.{Trans}
use inadyn.Ddns.State.{Alias, Info, Ctx, System}
use inadyn.Ddns.Query.{crlf}
use inadyn.Ddns.State.{Plugin}
use inadyn.Plugins.Registry.{Entry, Registry}
use inadyn.Plugins.Table.{static_system, Registration, register, register_all, unregister_all}
use inadyn.Prelude.{◌+◌, List}
use inadyn.Plugins.Common.{snprintf, checked}

abbrev pub update_ip_request : Str
update_ip_request =
    codes "GET %s?u=%s&p=%s&ip=%s HTTP/1.0"
    ++ crlf
    ++ codes "Host: %s"
    ++ crlf
    ++ codes "User-Agent: %s"
    ++ crlf
    ++ crlf

-- The static structure, with the request that its registration stores.
abbrev pub system : System
system = record {
  name = codes "default@gira.de";
  alias = none;
  cloned = false;
  nousername = false;
  checkip_name = codes "ipv4.wtfismyip.com";
  checkip_url = codes "/text";
  checkip_ssl = pos 0;
  server_name = codes "homeserver.gira.de";
  server_url = codes "/hsdyndns.php";
  server_req = update_ip_request;
}

unfoldable pub request : Ctx → Info → Alias → ℤ × Str
request ctx info alias = snprintf ctx.request_buflen info.system.server_req (
    info.server_url ∷ info.creds.username ∷ info.creds.password ∷ alias.address
    ∷ info.server_name.name ∷ info.user_agent ∷ [])

unfoldable pub response : Trans → Info → Alias → ℕ
response trans info alias =
    checked trans (if contains trans.rsp_body (codes "OK") then rc_ok else rc_ddns_rsp_notok)

abbrev pub system_v6 : System
system_v6 =
    static_system (codes "ipv6@gira.de") none false (codes "ipv6@wtfismyip.com") (codes "/text")
      (pos 0) (codes "homeserver.gira.de") (codes "/hsdyndns.php")

abbrev pub plugin : Plugin
plugin = record { setup = none; request = request; response = response }

-- The structures at their places in memory.
abbrev pub entry : ℕ → System → Entry
entry place s = record { id = place; system = s; plugin = plugin }

abbrev pub registrations : ℕ → List Registration
registrations place =
    register update_ip_request (entry (place + 0) system)
    ∷ register update_ip_request (entry (place + 1) system_v6)
    ∷ []

unfoldable pub plugin_init : ℕ → Registry → Registry
unfolding register_all
plugin_init place plugins = register_all (registrations place) plugins

unfoldable pub plugin_exit : ℕ → Registry → Registry
unfolding unregister_all
plugin_exit place plugins =
    unregister_all (entry (place + 0) system ∷ entry (place + 1) system_v6 ∷ []) plugins
