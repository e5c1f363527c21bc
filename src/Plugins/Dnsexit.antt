-- ===== src/Plugins/Dnsexit.antt =====
-- The provider dnsexit.com (plugins/dnsexit.c).
use inadyn.Prelude.{ℕ, false, ◌||◌, none, some, [], ◌∷◌, ◌++◌, ◌==◌, if◌then◌else◌}
use inadyn.Prelude.Text.{Str, codes, strstr}
use inadyn.Prelude.Int.{ℤ, pos, negsuc}
use inadyn.Error.{rc_ddns_rsp_notok, rc_ddns_rsp_retry_later}
use inadyn.Http.{Trans, scan_int4}
use inadyn.Ddns.State.{Alias, Info, Ctx, System}
use inadyn.Ddns.Query.{crlf}
use inadyn.Ddns.State.{Plugin}
use inadyn.Plugins.Registry.{Entry, Registry}
use inadyn.Plugins.Table.{Registration, register, register_v6, register_all, unregister_all}
use inadyn.Prelude.{◌+◌, List}
use inadyn.Plugins.Common.{snprintf, checked}

abbrev pub update_ip_request : Str
update_ip_request =
    codes "GET %s?login=%s&password=%s&host=%s&myip=%s HTTP/1.0"
    ++ crlf
    ++ codes "Host: %s"
    ++ crlf
    ++ codes "User-Agent: %s"
    ++ crlf
    ++ crlf

-- The static structure, with the request that its registration stores.
abbrev pub system : System
system = record {
  name = codes "default@dnsexit.com";
  alias = none;
  cloned = false;
  nousername = false;
  checkip_name = codes "ip3.dnsexit.com";
  checkip_url = codes "/";
  checkip_ssl = pos 0;
  server_name = codes "update.dnsexit.com";
  server_url = codes "/RemoteUpdate.sv";
  server_req = update_ip_request;
}

unfoldable pub request : Ctx → Info → Alias → ℤ × Str
request ctx info alias = snprintf ctx.request_buflen info.system.server_req (
    info.server_url ∷ info.creds.username ∷ info.creds.password ∷ alias.name ∷ alias.address
    ∷ info.server_name.name ∷ info.user_agent ∷ [])

-- The code in front of the second line.
unfoldable pub of_code : ℤ → ℕ
of_code (negsuc n) = rc_ddns_rsp_notok
of_code (pos n) =
    if n == 0 || n == 1
    then 0
    else if n == 4 || n == 11
    then rc_ddns_rsp_retry_later
    else rc_ddns_rsp_notok

unfoldable pub second_line : Str → ℕ
second_line [] = rc_ddns_rsp_notok
second_line (c ∷ line) = elim (scan_int4 line) [
  | none ↦ rc_ddns_rsp_notok
  | some (code, rest) ↦ of_code code
]

-- With no second line the code is -1.
unfoldable pub response : Trans → Info → Alias → ℕ
response trans info alias = checked trans (elim (strstr trans.rsp_body (10 ∷ [])) [
  | none ↦ of_code (negsuc 0)
  | some tmp ↦ second_line tmp
])

abbrev pub plugin : Plugin
plugin = record { setup = none; request = request; response = response }

-- The structures at their places in memory.
abbrev pub entry : ℕ → System → Entry
entry place s = record { id = place; system = s; plugin = plugin }

abbrev pub registrations : ℕ → List Registration
registrations place =
    register update_ip_request (entry (place + 0) system)
    ∷ register_v6 (place + 1) update_ip_request (entry (place + 0) system)
    ∷ []

unfoldable pub plugin_init : ℕ → Registry → Registry
unfolding register_all
plugin_init place plugins = register_all (registrations place) plugins

unfoldable pub plugin_exit : ℕ → Registry → Registry
unfolding unregister_all
plugin_exit place plugins = unregister_all (entry (place + 0) system ∷ []) plugins
