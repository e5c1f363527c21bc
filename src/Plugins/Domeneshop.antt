-- ===== src/Plugins/Domeneshop.antt =====
-- The provider domene.shop (plugins/domeneshop.c).
use inadyn.Prelude.{ℕ, false, not, ◌&&◌, none, [], ◌∷◌, ◌++◌, ◌==◌, if◌then◌else◌}
use inadyn.Prelude.Text.{Str, codes, contains}
use inadyn.Prelude.Int.{ℤ, negsuc}
use inadyn.Error.{rc_ok, rc_ddns_rsp_notok}
use inadyn.Http.{Trans, http_status_valid, status_is}
use inadyn.Ddns.State.{Alias, Info, Ctx, System}
use inadyn.Ddns.Query.{crlf}
use inadyn.Ddns.State.{Plugin}
use inadyn.Plugins.Registry.{Entry, Registry}
use inadyn.Plugins.Table.{Registration, register, register_all, unregister_all}
use inadyn.Prelude.{◌+◌, List}
use inadyn.Plugins.Common.{snprintf}

abbrev pub update_ip_request : Str
update_ip_request =
    codes "GET %s?hostname=%s&myip=%s HTTP/1.1"
    ++ crlf
    ++ codes "Host: %s"
    ++ crlf
    ++ codes "Authorization: Basic %s"
    ++ crlf
    ++ codes "User-Agent: %s"
    ++ crlf
    ++ crlf

-- The static structure, with the request that its registration stores.
abbrev pub system : System
system = record {
  name = codes "default@domene.shop";
  alias = none;
  cloned = false;
  nousername = false;
  checkip_name = codes "checkip.dyndns.com";
  checkip_url = codes "/";
  checkip_ssl = negsuc 0;
  server_name = codes "api.domeneshop.no";
  server_url = codes "/v0/dyndns/update";
  server_req = update_ip_request;
}

unfoldable pub request : Ctx → Info → Alias → ℤ × Str
request ctx info alias = snprintf ctx.request_buflen info.system.server_req (
    info.server_url ∷ alias.name ∷ alias.address ∷ info.server_name.name
    ∷ info.creds.encoded_password ∷ info.user_agent ∷ [])

unfoldable pub check_response_code : ℤ → ℕ
check_response_code status = if status_is 204 status then rc_ok else http_status_valid status

-- Every text holds the empty one.
unfoldable pub response : Trans → Info → Alias → ℕ
response trans info alias =
    let rc = check_response_code trans.status in
    if rc == rc_ok && not (contains trans.rsp_body (codes "")) then rc_ddns_rsp_notok else rc

abbrev pub plugin : Plugin
plugin = record { setup = none; request = request; response = response }

-- The structures at their places in memory.
abbrev pub entry : ℕ → System → Entry
entry place s = record { id = place; system = s; plugin = plugin }

abbrev pub registrations : ℕ → List Registration
registrations place = register update_ip_request (entry (place + 0) system) ∷ []

unfoldable pub plugin_init : ℕ → Registry → Registry
unfolding register_all
plugin_init place plugins = register_all (registrations place) plugins

unfoldable pub plugin_exit : ℕ → Registry → Registry
unfolding unregister_all
plugin_exit place plugins = unregister_all (entry (place + 0) system ∷ []) plugins
