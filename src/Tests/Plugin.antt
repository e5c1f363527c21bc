-- ===== src/Tests/Plugin.antt =====
-- Runs of the plugins and of the status filter.
use inadyn.Prelude.{◌≡◌, refl, false, some, [], ◌∷◌, arith}
use inadyn.Prelude.Text.{codes, contains}
use inadyn.Prelude.Int.{pos}
use inadyn.Http.{Trans, zero_trans}
use inadyn.Plugins.Generic.{custom_server_url, specifier}
use inadyn.Plugins.Generic.Expand.{custom_server_url-expand, expand, overruns}
use inadyn.Plugins.Registry.{
  Entry, Registry, search_plugin, before_colon, plugin_find, plugin_register, plugin_register_v6,
  plugin_unregister, name_v6, drop_prefix,
}
use inadyn.Plugins.Registry.Laws.{IsNew, plugin_unregister-plugin_register}
use inadyn.Tests.Scene.{info, quiet, system, accepting}

custom_server_url-expand_example :
    custom_server_url 11 info quiet false (codes "/u=%u&h=%h")
    ≡ some (record { rc = pos 21; text = codes "/u=joe&h=home.example"; overrun = false })
unfolding expand overruns specifier
custom_server_url-expand_example =
    custom_server_url-expand info quiet (ground arith) (ground arith) (ground arith) (ground arith)
      (codes "/u=%u&h=%h") (codes "/u=joe&h=home.example") refl

-- A plugin, and a list that has another one.
abbrev entry : Entry
entry = record { id = 2; system = record system { name = codes "default@b" }; plugin = accepting }

abbrev entries : Registry
entries =
    record { id = 1; system = record system { name = codes "default@a" }; plugin = accepting } ∷ []

entry-IsNew : IsNew 3 entry entries
unfolding plugin_find search_plugin before_colon name_v6 drop_prefix contains
entry-IsNew = record {
  default_name = refl;
  plain = refl;
  plain_v6 = refl;
  missing = refl;
  missing_v6 = refl;
  other = refl;
  new_place = ground arith;
  new_place_v6 = ground arith;
}

plugin_unregister-plugin_register_example :
    plugin_unregister entry (plugin_register_v6 3 [] entry (plugin_register [] entry entries))
    ≡ entries
plugin_unregister-plugin_register_example =
    plugin_unregister-plugin_register 3 [] entry entries entry-IsNew

-- An answer that was cut short before its status.
abbrev unread : Trans
unread = record zero_trans { rsp_body = codes "good 8.8.8.8" }
