-- ===== src/Plugins/Duckdns.antt =====
-- The provider of plugins/duckdns.c.
use inadyn.Prelude.{
  ℕ, ◌+◌, false, ◌||◌, Option, none, some, List, [], ◌∷◌, ◌++◌, length, if◌then◌else◌,
}
use inadyn.Prelude.Text.{Str, codes, contains, starts_with, strlcpy}
use inadyn.Prelude.Int.{ℤ, pos}
use inadyn.Error.{rc_ddns_rsp_notok}
use inadyn.Http.{Trans}
use inadyn.Ddns.State.{Alias, Info, Ctx, System, Plugin, server_name_len}
use inadyn.Ddns.Query.{crlf}
use inadyn.Plugins.Common.{snprintf, checked}
use inadyn.Plugins.Registry.{Entry, Registry}
use inadyn.Plugins.Table.{
  static_system, Registration, register, register_v6, register_all, unregister_all,
}

abbrev pub update_ip_request : Str
update_ip_request =
    codes "GET %s?domains=%s&token=%s&ip=%s HTTP/1.0"
    ++ crlf
    ++ codes "Host: %s"
    ++ crlf
    ++ codes "User-Agent: %s"
    ++ crlf
    ++ crlf

abbrev pub update_ip6_request : Str
update_ip6_request =
    codes "GET %s?domains=%s&token=%s&ipv6=%s HTTP/1.0"
    ++ crlf
    ++ codes "Host: %s"
    ++ crlf
    ++ codes "User-Agent: %s"
    ++ crlf
    ++ crlf

abbrev pub system : System
system =
    static_system (codes "default@duckdns.org") none false (codes "wtfismyip.com") (codes "/text")
      (pos 0) (codes "www.duckdns.org") (codes "/update")

-- The text before the first occurrence of another, if there is one.
unfoldable pub before : Str → Str → Option Str
before [] needle = if starts_with [] needle then some [] else none
before (c ∷ s) needle =
    let later = before s needle in
    if starts_with (c ∷ s) needle
    then some []
    else elim later [ none ↦ none | some t ↦ some (c ∷ t) ]

-- The name without the domain and the dot before it. (Where the name is the domain alone, strlcpy
-- with a size of 0 leaves the buffer as it is, which is not modelled: here it is empty.)
unfoldable pub sub_name : Str → Str
unfolding before
sub_name name = elim (before name (codes "duckdns.org")) [
  | none ↦ strlcpy server_name_len name
  | some t ↦ strlcpy (length t) t
]

unfoldable pub request : Ctx → Info → Alias → ℤ × Str
unfolding sub_name
request ctx info alias =
    let name = sub_name alias.name in
    snprintf ctx.request_buflen info.system.server_req (
      info.server_url ∷ name ∷ info.creds.username ∷ alias.address ∷ info.server_name.name
      ∷ info.user_agent ∷ [])

unfoldable pub response : Trans → Info → Alias → ℕ
response trans info alias = checked trans (
    if contains trans.rsp_body (codes "OK") || contains trans.rsp_body (codes "good")
    then 0
    else rc_ddns_rsp_notok)

abbrev pub plugin : Plugin
plugin = record { setup = none; request = request; response = response }

-- The structures at their places in memory.
abbrev pub entry : ℕ → System → Entry
entry place s = record { id = place; system = s; plugin = plugin }

abbrev pub registrations : ℕ → List Registration
registrations place =
    register update_ip_request (entry (place + 0) system)
    ∷ register_v6 (place + 1) update_ip6_request (entry (place + 0) system)
    ∷ []

unfoldable pub plugin_init : ℕ → Registry → Registry
unfolding register_all
plugin_init place plugins = register_all (registrations place) plugins

unfoldable pub plugin_exit : ℕ → Registry → Registry
unfolding unregister_all
plugin_exit place plugins = unregister_all (entry (place + 0) system ∷ []) plugins
