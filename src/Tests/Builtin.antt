-- ===== src/Tests/Builtin.antt =====
-- Runs with plugins that are compiled in.
use inadyn.Prelude.{◌≡◌, true, false, has, [], ◌∷◌, All}
use inadyn.Prelude.Text.{codes}
use inadyn.Conf.Provider.{find_system, set_provider_opts}
use inadyn.Plugins.Builtin.{Libraries, dyndns, cloudflare, tunnelbroker, load_all, calls}
use inadyn.Plugins.Builtin.Servers.{registered, set_provider_opts-load_all}
use inadyn.Plugins.Builtin.Names.{set_provider_opts-calls}
use inadyn.Tests.Config.{strtonum, section, defaults}
use inadyn.Tests.Protocol.{jsmn}
use inadyn.Tests.Scene.{accepting}

abbrev libs : Libraries
libs = record {
  md5 = λ s. s;
  sha1 = λ s. s;
  jsmn = jsmn;
  calendar = λ t. codes "Thu Jan  1 00:00:00 1970";
  custom = accepting;
}

set_provider_opts-load_all_example :
    has (
      set_provider_opts strtonum
        (load_all libs ((dyndns, 0) ∷ (cloudflare, 10) ∷ []) [])
        defaults
        (record section { title = codes "no-ip.com:2" })
        false)
    ≡ has
        (find_system (codes "no-ip.com:2") (load_all libs ((dyndns, 0) ∷ (cloudflare, 10) ∷ []) []))
set_provider_opts-load_all_example =
    set_provider_opts-load_all strtonum libs ((dyndns, 0) ∷ (cloudflare, 10) ∷ []) defaults
      (record section { title = codes "no-ip.com:2" }) false

set_provider_opts-calls_example :
    All
      (λ r.
        has (
          set_provider_opts strtonum
            (load_all libs ((dyndns, 0) ∷ (cloudflare, 10) ∷ (tunnelbroker, 20) ∷ []) [])
            defaults
            (record section { title = (registered r).system.name })
            false)
        ≡ true)
      (calls libs cloudflare 10)
set_provider_opts-calls_example =
    set_provider_opts-calls strtonum libs ((dyndns, 0) ∷ []) ((tunnelbroker, 20) ∷ []) cloudflare 10
      defaults section
