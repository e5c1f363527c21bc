-- ===== src/Plugins/Generic/System.antt =====
-- What the custom provider registers (plugins/generic.c).
use inadyn.Prelude.{ℕ, none, false, List, [], ◌∷◌, ◌++◌}
use inadyn.Prelude.Text.{Str, codes}
use inadyn.Ddns.State.{Plugin, System}
use inadyn.Ddns.Query.{crlf, ddns_my_ip_server, ddns_my_checkip_url, ddns_my_ip_ssl}
use inadyn.Plugins.Registry.{Entry, Registry}
use inadyn.Plugins.Table.{static_system, Registration, register, register_all, unregister_all}

abbrev pub generic_basic_auth_update_ip_request : Str
generic_basic_auth_update_ip_request =
    codes "GET %s%s HTTP/1.0"
    ++ crlf
    ++ codes "Host: %s"
    ++ crlf
    ++ codes "Authorization: Basic %s"
    ++ crlf
    ++ codes "User-Agent: %s"
    ++ crlf
    ++ crlf

abbrev pub generic : System
generic =
    static_system (codes "custom") none false ddns_my_ip_server ddns_my_checkip_url ddns_my_ip_ssl
      [] []

-- The structure at its place in memory, with the functions of the plugin.
abbrev pub entry : Plugin → ℕ → Entry
entry plugin place = record { id = place; system = generic; plugin = plugin }

abbrev pub registrations : Plugin → ℕ → List Registration
registrations plugin place = register generic_basic_auth_update_ip_request (entry plugin place) ∷ []

unfoldable pub plugin_init : Plugin → ℕ → Registry → Registry
unfolding register_all
plugin_init plugin place plugins = register_all (registrations plugin place) plugins

unfoldable pub plugin_exit : Plugin → ℕ → Registry → Registry
unfolding unregister_all
plugin_exit plugin place plugins = unregister_all (entry plugin place ∷ []) plugins
