-- ===== src/Plugins/Table.antt =====
-- A `ddns_system_t` as the plugins write it down, before its registration stores the request; and
-- the constructors and destructors of the plugins as lists of calls of src/plugin.c.
use inadyn.Prelude.{ℕ, Bool, false, Option, List, [], ◌∷◌}
use inadyn.Prelude.Text.{Str}
use inadyn.Prelude.Int.{ℤ}
use inadyn.Ddns.State.{System}
use inadyn.Plugins.Registry.{
  Entry, Registry, plugin_register, plugin_register_v6, plugin_unregister,
}

abbrev pub static_system : Str → Option Str → Bool → Str → Str → ℤ → Str → Str → System
static_system name alias nousername checkip_name checkip_url checkip_ssl server_name server_url =
    record {
      name = name;
      alias = alias;
      cloned = false;
      nousername = nousername;
      checkip_name = checkip_name;
      checkip_url = checkip_url;
      checkip_ssl = checkip_ssl;
      server_name = server_name;
      server_url = server_url;
      server_req = [];
    }

-- A call of plugin_register, or of plugin_register_v6 with the place of the clone.
pub data Registration : Type 0 where
  register : Str → Entry → Registration
  register_v6 : ℕ → Str → Entry → Registration

unfoldable pub register_all : List Registration → Registry → Registry
unfolding plugin_register plugin_register_v6
register_all [] plugins = plugins
register_all (register req e ∷ rest) plugins = register_all rest (plugin_register req e plugins)
register_all (register_v6 place req e ∷ rest) plugins =
    register_all rest (plugin_register_v6 place req e plugins)

unfoldable pub unregister_all : List Entry → Registry → Registry
unfolding plugin_unregister
unregister_all [] plugins = plugins
unregister_all (e ∷ rest) plugins = unregister_all rest (plugin_unregister e plugins)
