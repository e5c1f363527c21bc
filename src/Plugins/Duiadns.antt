-- ===== src/Plugins/Duiadns.antt =====
-- The provider duiadns.net (plugins/duiadns.c).
use inadyn.Prelude.{ℕ, ◌+◌, false, none, List, [], ◌∷◌, ◌++◌, if◌then◌else◌}
use inadyn.Prelude.Text.{Str, codes, contains}
use inadyn.Prelude.Int.{ℤ, pos}
use inadyn.Error.{rc_ddns_rsp_notok}
use inadyn.Http.{Trans}
use inadyn.Ddns.State.{Alias, Info, Ctx, System, Plugin}
use inadyn.Ddns.Query.{crlf}
use inadyn.Plugins.Common.{snprintf, checked}
use inadyn.Plugins.Digest.{Md5, digest_text}
use inadyn.Plugins.Registry.{Entry, Registry}
use inadyn.Plugins.Table.{static_system, Registration, register, register_all, unregister_all}

abbrev pub update_ip_request : Str
update_ip_request =
    codes "GET %s?host=%s&password=%s&ip4=%s HTTP/1.0"
    ++ crlf
    ++ codes "Host: %s"
    ++ crlf
    ++ codes "User-Agent: %s"
    ++ crlf
    ++ crlf

abbrev pub update_ip6_request : Str
update_ip6_request =
    codes "GET %s?host=%s&password=%s&ip6=%s HTTP/1.0"
    ++ crlf
    ++ codes "Host: %s"
    ++ crlf
    ++ codes "User-Agent: %s"
    ++ crlf
    ++ crlf

abbrev pub system : System
system =
    static_system (codes "default@duiadns.net") none false (codes "ipv4.duiadns.net") (codes "/")
      (pos 0) (codes "ipv4.duiadns.net") (codes "/dynamic.duia")

abbrev pub system_v6 : System
system_v6 =
    static_system (codes "ipv6@duiadns.net") none false (codes "ipv6.duiadns.net") (codes "/")
      (pos 0) (codes "ipv6.duiadns.net") (codes "/dynamic.duia")

unfoldable pub request : Md5 → Ctx → Info → Alias → ℤ × Str
unfolding digest_text
request md5 ctx info alias =
    let digeststr = digest_text md5 info.creds.password in
    snprintf ctx.request_buflen info.system.server_req (
      info.server_url ∷ alias.name ∷ digeststr ∷ alias.address ∷ info.server_name.name
      ∷ info.user_agent ∷ [])

unfoldable pub response : Trans → Info → Alias → ℕ
response trans info alias =
    checked trans (if contains trans.rsp_body (codes "Hostname ") then 0 else rc_ddns_rsp_notok)

abbrev pub plugin : Md5 → Plugin
plugin md5 = record { setup = none; request = request md5; response = response }

-- The structures at their places in memory.
abbrev pub entry : Md5 → ℕ → System → Entry
entry md5 place s = record { id = place; system = s; plugin = plugin md5 }

abbrev pub registrations : Md5 → ℕ → List Registration
registrations md5 place =
    register update_ip_request (entry md5 (place + 0) system)
    ∷ register update_ip6_request (entry md5 (place + 1) system_v6)
    ∷ []

unfoldable pub plugin_init : Md5 → ℕ → Registry → Registry
unfolding register_all
plugin_init md5 place plugins = register_all (registrations md5 place) plugins

unfoldable pub plugin_exit : Md5 → ℕ → Registry → Registry
unfolding unregister_all
plugin_exit md5 place plugins =
    unregister_all (entry md5 (place + 0) system ∷ entry md5 (place + 1) system_v6 ∷ []) plugins
