-- ===== src/Plugins/Zoneedit.antt =====
-- The provider zoneedit.com (plugins/zoneedit.c).
use inadyn.Prelude.{ℕ, false, ◌||◌, none, [], ◌∷◌, ◌++◌, if◌then◌else◌}
use inadyn.Prelude.Text.{Str, codes, contains}
use inadyn.Prelude.Int.{ℤ, negsuc}
use inadyn.Error.{
  rc_ddns_rsp_notok, rc_ddns_rsp_auth_fail, rc_ddns_rsp_retry_later, rc_ddns_rsp_too_frequent,
}
use inadyn.Http.{Trans}
use inadyn.Ddns.State.{Alias, Info, Ctx, System}
use inadyn.Ddns.Query.{crlf}
use inadyn.Ddns.State.{Plugin}
use inadyn.Plugins.Registry.{Entry, Registry}
use inadyn.Plugins.Table.{Registration, register, register_v6, register_all, unregister_all}
use inadyn.Prelude.{◌+◌, List}
use inadyn.Plugins.Common.{snprintf, checked}

abbrev pub update_ip_request : Str
update_ip_request =
    codes "GET %s?hostname=%s&myip=%s&wildcard=%s HTTP/1.0"
    ++ crlf
    ++ codes "Host: %s"
    ++ crlf
    ++ codes "Authorization: Basic %s"
    ++ crlf
    ++ codes "User-Agent: %s"
    ++ crlf
    ++ crlf

-- The static structure, with the request that its registration stores.
abbrev pub system : System
system = record {
  name = codes "default@zoneedit.com";
  alias = none;
  cloned = false;
  nousername = false;
  checkip_name = codes "checkip.dyndns.com";
  checkip_url = codes "/";
  checkip_ssl = negsuc 0;
  server_name = codes "api.cp.zoneedit.com";
  server_url = codes "/dyn/dynsite.php";
  server_req = update_ip_request;
}

unfoldable pub request : Ctx → Info → Alias → ℤ × Str
request ctx info alias = snprintf ctx.request_buflen info.system.server_req (
    info.server_url
    ∷ alias.name
    ∷ alias.address
    ∷ (if info.wildcard then codes "ON" else codes "OFF")
    ∷ info.server_name.name
    ∷ info.creds.encoded_password
    ∷ info.user_agent
    ∷ [])

-- NOERROR is the success code.
unfoldable pub response : Trans → Info → Alias → ℕ
response trans info alias =
    let resp = trans.rsp_body in
    checked trans (
      if contains resp (codes "NOERROR")
        || contains resp (codes "no update required")
        || contains resp (codes "OK")
      then 0
      else if contains resp (codes "ACCESS")
      then rc_ddns_rsp_auth_fail
      else if contains resp (codes "TOOSOON")
      then rc_ddns_rsp_retry_later
      else if contains resp (codes "TOO_FREQ")
      then rc_ddns_rsp_too_frequent
      else rc_ddns_rsp_notok)

abbrev pub plugin : Plugin
plugin = record { setup = none; request = request; response = response }

-- The structures at their places in memory.
abbrev pub entry : ℕ → System → Entry
entry place s = record { id = place; system = s; plugin = plugin }

abbrev pub registrations : ℕ → List Registration
registrations place =
    register update_ip_request (entry (place + 0) system)
    ∷ register_v6 (place + 1) update_ip_request (entry (place + 0) system)
    ∷ []

unfoldable pub plugin_init : ℕ → Registry → Registry
unfolding register_all
plugin_init place plugins = register_all (registrations place) plugins

unfoldable pub plugin_exit : ℕ → Registry → Registry
unfolding unregister_all
plugin_exit place plugins = unregister_all (entry (place + 0) system ∷ []) plugins
