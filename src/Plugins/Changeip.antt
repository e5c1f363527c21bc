-- ===== src/Plugins/Changeip.antt =====
-- The providers of plugins/changeip.c.
use inadyn.Prelude.{ℕ, ◌+◌, false, none, List, [], ◌∷◌, ◌++◌}
use inadyn.Prelude.Text.{Str, codes}
use inadyn.Prelude.Int.{ℤ, pos, negsuc}
use inadyn.Http.{Trans}
use inadyn.Ddns.State.{Alias, Info, Ctx, System, Plugin}
use inadyn.Ddns.Query.{crlf}
use inadyn.Plugins.Common.{snprintf, common_response}
use inadyn.Plugins.Registry.{Entry, Registry}
use inadyn.Plugins.Table.{
  static_system, Registration, register, register_v6, register_all, unregister_all,
}

abbrev pub update_ip_request : Str
update_ip_request =
    codes "GET %s?system=dyndns&hostname=%s&myip=%s HTTP/1.0"
    ++ crlf
    ++ codes "Host: %s"
    ++ crlf
    ++ codes "Authorization: Basic %s"
    ++ crlf
    ++ codes "User-Agent: %s"
    ++ crlf
    ++ crlf

abbrev pub system : System
system =
    static_system (codes "default@changeip.com") none false (codes "ip.changeip.com") (codes "/")
      (pos 0) (codes "nic.changeip.com") (codes "/nic/update")

abbrev pub ovh : System
ovh =
    static_system (codes "default@ovh.com") none false (codes "checkip.dyndns.com") (codes "/")
      (negsuc 0) (codes "www.ovh.com") (codes "/nic/update")

abbrev pub strato : System
strato =
    static_system (codes "default@strato.com") none false (codes "checkip.dyndns.com") (codes "/")
      (negsuc 0) (codes "dyndns.strato.com") (codes "/nic/update")

unfoldable pub request : Ctx → Info → Alias → ℤ × Str
request ctx info alias = snprintf ctx.request_buflen info.system.server_req (
    info.server_url ∷ alias.name ∷ alias.address ∷ info.server_name.name
    ∷ info.creds.encoded_password ∷ info.user_agent ∷ [])

unfoldable pub response : Trans → Info → Alias → ℕ
unfolding common_response
response trans info alias = common_response trans info alias

abbrev pub plugin : Plugin
plugin = record { setup = none; request = request; response = response }

-- The structures at their places in memory.
abbrev pub entry : ℕ → System → Entry
entry place s = record { id = place; system = s; plugin = plugin }

abbrev pub registrations : ℕ → List Registration
registrations place =
    register update_ip_request (entry (place + 0) system)
    ∷ register update_ip_request (entry (place + 1) ovh)
    ∷ register_v6 (place + 3) update_ip_request (entry (place + 1) ovh)
    ∷ register update_ip_request (entry (place + 2) strato)
    ∷ register_v6 (place + 4) update_ip_request (entry (place + 2) strato)
    ∷ []

unfoldable pub plugin_init : ℕ → Registry → Registry
unfolding register_all
plugin_init place plugins = register_all (registrations place) plugins

unfoldable pub plugin_exit : ℕ → Registry → Registry
unfolding unregister_all
plugin_exit place plugins =
    unregister_all
      (entry (place + 0) system ∷ entry (place + 1) ovh ∷ entry (place + 2) strato ∷ []) plugins
