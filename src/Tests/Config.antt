-- ===== src/Tests/Config.antt =====
-- Runs of the configuration.
use mathlib.Core.List.{reverse}
use inadyn.Prelude.{
  ◌≡◌, ◌&&◌, not, refl, arith, has, true, false, some, none, [], ◌∷◌, ◌++◌, map, All, all, Returns,
  if◌then◌else◌,
}
use inadyn.Prelude.Text.{codes, contains_case, strcmp_eq}
use inadyn.Prelude.Int.{pos}
use inadyn.Ddns.State.{Alias}
use inadyn.Plugins.Registry.{Registry, plugin_find, search_plugin, before_colon}
use inadyn.Conf.Parsed.{Section, ConfFile}
use inadyn.Conf.Server.{Strtonum, getserver, getserver-print}
use inadyn.Conf.Provider.{Defaults, set_provider_opts}
use inadyn.Conf.File.{Setting, conf_parse_file, missing}
use inadyn.Conf.Fits.{Fits, conf_parse_file-Fits}
use inadyn.Conf.Order.{made, defaults_of, conf_parse_file-ok, conf_parse_file-order}
use inadyn.Conf.Validate.{validate_provider}
use inadyn.Conf.Validate.Laws.{set_provider_opts-validate_provider}
use inadyn.Tests.Scene.{system, accepting, opts, ctx}

abbrev pub strtonum : Strtonum
strtonum = λ s. if strcmp_eq s (codes "8080") then some 8080 else none

abbrev pub plugins : Registry
plugins = record { id = 0; system = system; plugin = accepting } ∷ []

abbrev pub section : Section
section = record {
  title = codes "default@example:1";
  username = some (codes "joe");
  password = some (codes "pw");
  hostname = [];
  alias = some (codes "a.example") ∷ some (codes "b.example") ∷ [];
  ssl = true;
  wildcard = false;
  ttl = pos 60;
  proxied = none;
  iface = none;
  checkip_server = some (codes "ip.example:8080");
  checkip_path = none;
  checkip_ssl = false;
  checkip_command = none;
  user_agent = none;
  append_myip = false;
  ddns_server = none;
  ddns_path = none;
  ddns_response = [];
}

-- A provider that only a part of its name is given of.
abbrev validated : Section
validated = record section { hostname = section.alias; alias = [] }

abbrev pub file : ConfFile
file = record {
  verify_address = true;
  fake_address = false;
  allow_ipv6 = false;
  secure_ssl = true;
  broken_rtc = false;
  ca_trust_file = some (codes "/etc/ssl/ca.pem");
  period = 300;
  iterations = 0;
  forced_update = 600;
  iface = none;
  user_agent = none;
  provider = validated ∷ record validated { title = codes "example:2" } ∷ [];
  custom = [];
}

abbrev pub setting : Setting
setting = record {
  strtonum = strtonum;
  plugins = plugins;
  fexist = λ s. true;
  script_cmd = none;
  use_iface = none;
  ddns_user_agent = codes "inadyn/2.12.0";
}

abbrev pub defaults : Defaults
defaults = record { script_cmd = none; user_agent = codes "inadyn/2.12.0" }

getserver-print_example :
    getserver strtonum (codes "ip.example" ++ (b':' ∷ codes "8080"))
    ≡ some (record { name = codes "ip.example"; port = 8080 })
getserver-print_example =
    getserver-print strtonum (codes "ip.example") (codes "8080") 8080 (ground arith) refl
      (omega arith)

set_provider_opts-validate_provider_example :
    Returns
      (λ p. map (λ (a : Alias). a.name) p.aliases ≡ codes "a.example" ∷ codes "b.example" ∷ [])
      (set_provider_opts strtonum plugins defaults validated false)
unfolding validate_provider plugin_find search_plugin before_colon
set_provider_opts-validate_provider_example =
    set_provider_opts-validate_provider strtonum plugins defaults (ground arith) section validated
      (codes "a.example" ∷ codes "b.example" ∷ []) refl refl

conf_parse_file-Fits_example : All Fits (conf_parse_file setting file ctx opts []).info_list
conf_parse_file-Fits_example = conf_parse_file-Fits setting file ctx opts [] tt

conf_parse_file-ok_example : (conf_parse_file setting file ctx opts []).ok ≡ (
    not (missing setting.fexist file.ca_trust_file)
    && all (λ c. has (made setting (defaults_of setting file) false c)) file.provider
    && true)
conf_parse_file-ok_example = conf_parse_file-ok setting file ctx opts []

conf_parse_file-order_example :
    map some (conf_parse_file setting file ctx opts []).info_list
    ≡ reverse (map (made setting (defaults_of setting file) false) file.provider) ++ []
unfolding conf_parse_file set_provider_opts plugin_find search_plugin before_colon contains_case
    getserver
conf_parse_file-order_example = conf_parse_file-order setting file ctx opts [] refl
