-- ===== src/Plugins/Dyndns.antt =====
-- The providers of plugins/dyndns.c, which speak the DynDNS protocol.
mod Systems
unfoldable pub use Systems.*
use inadyn.Prelude.{
  ℕ, ◌+◌, Bool, true, false, ◌||◌, Option, none, some, List, [], ◌∷◌, ◌++◌, ◌==◌, length,
  if◌then◌else◌,
}
use inadyn.Prelude.Text.{Str, codes, contains, starts_with, strlcpy}
use inadyn.Prelude.Int.{ℤ, pos, negsuc}
use inadyn.Error.{rc_ddns_rsp_notok, rc_ddns_rsp_retry_later}
use inadyn.Http.{Trans}
use inadyn.Ddns.State.{
  Alias, Info, Ctx, System, Plugin, ddns_get_tcp_force, tcp_force_ipv6, server_name_len,
}
use inadyn.Ddns.Query.{crlf}
use inadyn.Plugins.Common.{snprintf, checked, common_request, common_response}
use inadyn.Plugins.Registry.{Entry, Registry}
use inadyn.Plugins.Table.{
  static_system, Registration, register, register_v6, register_all, unregister_all,
}

abbrev pub update_ip_request : Str
update_ip_request =
    codes "GET %s?hostname=%s&myip=%s%s HTTP/1.0"
    ++ crlf
    ++ codes "Host: %s"
    ++ crlf
    ++ codes "Authorization: Basic %s"
    ++ crlf
    ++ codes "User-Agent: %s"
    ++ crlf
    ++ crlf

abbrev pub update_ip6_request : Str
update_ip6_request =
    codes "GET %s?hostname=%s&myipv6=%s%s HTTP/1.0"
    ++ crlf
    ++ codes "Host: %s"
    ++ crlf
    ++ codes "Authorization: Basic %s"
    ++ crlf
    ++ codes "User-Agent: %s"
    ++ crlf
    ++ crlf

unfoldable pub request : Ctx → Info → Alias → ℤ × Str
unfolding common_request
request ctx info alias = common_request ctx info alias

unfoldable pub response : Trans → Info → Alias → ℕ
unfolding common_response
response trans info alias = common_response trans info alias

abbrev pub plugin : Plugin
plugin = record { setup = none; request = request; response = response }

-- The structures at their places in memory.
abbrev pub entry : ℕ → System → Entry
entry place s = record { id = place; system = s; plugin = plugin }

abbrev pub registrations : ℕ → List Registration
registrations place =
    register update_ip_request (entry (place + 0) dyndns)
    ∷ register update_ip_request (entry (place + 1) dnsomatic)
    ∷ register_v6 (place + 30) update_ip_request (entry (place + 1) dnsomatic)
    ∷ register update_ip_request (entry (place + 2) selfhost)
    ∷ register_v6 (place + 31) update_ip_request (entry (place + 2) selfhost)
    ∷ register update_ip_request (entry (place + 3) no_ip)
    ∷ register_v6 (place + 32) update_ip_request (entry (place + 3) no_ip)
    ∷ register update_ip_request (entry (place + 4) noip)
    ∷ register_v6 (place + 33) update_ip_request (entry (place + 4) noip)
    ∷ register update_ip_request (entry (place + 5) org_3322)
    ∷ register_v6 (place + 34) update_ip_request (entry (place + 5) org_3322)
    ∷ register update_ip_request (entry (place + 6) henet)
    ∷ register update_ip_request (entry (place + 7) tunnelbroker)
    ∷ register update_ip_request (entry (place + 8) spdyn)
    ∷ register update_ip_request (entry (place + 9) spdyn_v6)
    ∷ register update_ip_request (entry (place + 10) nsupdate_info_ipv4)
    ∷ register update_ip_request (entry (place + 11) nsupdate_info_ipv6)
    ∷ register update_ip_request (entry (place + 12) loopia)
    ∷ register update_ip_request (entry (place + 13) googledomains)
    ∷ register_v6 (place + 35) update_ip_request (entry (place + 13) googledomains)
    ∷ register update_ip_request (entry (place + 14) dynu)
    ∷ register_v6 (place + 36) update_ip6_request (entry (place + 14) dynu)
    ∷ register update_ip_request (entry (place + 15) dyfi)
    ∷ register_v6 (place + 37) update_ip_request (entry (place + 15) dyfi)
    ∷ register update_ip_request (entry (place + 16) dode)
    ∷ register_v6 (place + 38) update_ip_request (entry (place + 16) dode)
    ∷ register update_ip_request (entry (place + 17) domopoli)
    ∷ register_v6 (place + 39) update_ip_request (entry (place + 17) domopoli)
    ∷ register update_ip_request (entry (place + 18) inwx)
    ∷ register update_ip6_request (entry (place + 19) inwxv6)
    ∷ register update_ip_request (entry (place + 20) itsdns)
    ∷ register_v6 (place + 40) update_ip_request (entry (place + 20) itsdns)
    ∷ register update_ip_request (entry (place + 21) opendns)
    ∷ register_v6 (place + 41) update_ip_request (entry (place + 21) opendns)
    ∷ register update_ip_request (entry (place + 22) joker)
    ∷ register update_ip_request (entry (place + 23) schokokeks)
    ∷ register_v6 (place + 42) update_ip_request (entry (place + 23) schokokeks)
    ∷ register update_ip_request (entry (place + 24) variomedia)
    ∷ register_v6 (place + 43) update_ip_request (entry (place + 24) variomedia)
    ∷ register update_ip_request (entry (place + 25) udmedia)
    ∷ register_v6 (place + 44) update_ip_request (entry (place + 25) udmedia)
    ∷ register update_ip_request (entry (place + 26) dyndnsit)
    ∷ register update_ip_request (entry (place + 27) infomaniak)
    ∷ register_v6 (place + 45) update_ip_request (entry (place + 27) infomaniak)
    ∷ register update_ip_request (entry (place + 28) oray)
    ∷ register update_ip_request (entry (place + 29) simplycom)
    ∷ []

unfoldable pub plugin_init : ℕ → Registry → Registry
unfolding register_all
plugin_init place plugins = register_all (registrations place) plugins

unfoldable pub plugin_exit : ℕ → Registry → Registry
unfolding unregister_all
plugin_exit place plugins =
    unregister_all
      (entry (place + 0) dyndns
        ∷ entry (place + 1) dnsomatic
        ∷ entry (place + 2) selfhost
        ∷ entry (place + 3) no_ip
        ∷ entry (place + 4) noip
        ∷ entry (place + 5) org_3322
        ∷ entry (place + 6) henet
        ∷ entry (place + 7) tunnelbroker
        ∷ entry (place + 8) spdyn
        ∷ entry (place + 9) spdyn_v6
        ∷ entry (place + 10) nsupdate_info_ipv4
        ∷ entry (place + 11) nsupdate_info_ipv6
        ∷ entry (place + 12) loopia
        ∷ entry (place + 13) googledomains
        ∷ entry (place + 14) dynu
        ∷ entry (place + 15) dyfi
        ∷ entry (place + 16) dode
        ∷ entry (place + 17) domopoli
        ∷ entry (place + 18) inwx
        ∷ entry (place + 19) inwxv6
        ∷ entry (place + 20) itsdns
        ∷ entry (place + 21) opendns
        ∷ entry (place + 22) joker
        ∷ entry (place + 23) schokokeks
        ∷ entry (place + 24) variomedia
        ∷ entry (place + 25) udmedia
        ∷ entry (place + 26) dyndnsit
        ∷ entry (place + 27) infomaniak
        ∷ entry (place + 28) oray
        ∷ entry (place + 29) simplycom
        ∷ [])
      plugins
