-- ===== src/Conf/Validate/Laws.antt =====
-- A section that was validated can be set up, with all its host names.
use inadyn.Prelude.{
  ℕ, zero, suc, ◌≤◌, ◌<◌, ◌≡◌, ◌≢◌, refl, ap, has, Bool, true, false, Option, none, some, List, [],
  ◌∷◌, arith, All, Returns, IfReturned, leb, length, map, Option-cases, inl, inr,
}
use inadyn.Prelude.Text.{Str, strlcpy, codes}
use inadyn.Ddns.State.{Alias, System, server_name_len, server_url_len}
use inadyn.Plugins.Registry.{Entry, Registry, before_colon, search_plugin, plugin_find}
use inadyn.Conf.Parsed.{Section, ConfFile}
use inadyn.Conf.Server.{Strtonum, getserver}
use inadyn.Conf.Provider.{
  Defaults, ddns_max_alias_number, new_info, find_system, add_aliases, set_servers,
  set_provider_opts, provider_name,
}
use inadyn.Conf.Validate.{
  validate_common, validate_provider, validate_custom, deprecate_alias, validate_hostname,
  validate_period, ddns_min_period, ddns_max_period,
}

-- What a plugin says of its servers fits their buffers.
pub record ServersFit (s : System) : Type 0 where
  pub checkip_name : length s.checkip_name ≤ server_name_len
  pub checkip_url : length s.checkip_url ≤ server_url_len
  pub server_name : length s.server_name ≤ server_name_len
  pub server_url : length s.server_url ≤ server_url_len

-- Each plugin of the list does.
abbrev pub AllServersFit : Registry → Type 0
AllServersFit plugins = All (λ (e : Entry). ServersFit e.system) plugins

search_plugin-ServersFit :
    (name : Str) (loose : Bool) (plugins : Registry)
    → AllServersFit plugins
    → IfReturned (λ e. ServersFit e.system) (search_plugin name loose plugins)
unfolding search_plugin
search_plugin-ServersFit name loose [] h = ground arith
search_plugin-ServersFit name loose (x ∷ rest) h =
    ground (arith, h, search_plugin-ServersFit name loose rest h.1)

pub find_system-ServersFit :
    (name : Str) (plugins : Registry) (e : Entry)
    → AllServersFit plugins
    → find_system name plugins ≡ some e
    → ServersFit e.system
unfolding find_system plugin_find
find_system-ServersFit name plugins e h found =
    let exact = search_plugin-ServersFit (before_colon name) false plugins h in
    let part = search_plugin-ServersFit (before_colon name) true plugins h in
    elim (Option-cases (search_plugin (before_colon name) false plugins)) [
      | inl e ↦ ground (arith, found, e, part)
      | inr (x, e) ↦ ground (arith, found, e, exact)
    ]

le→leb : (a b : ℕ) → a ≤ b → leb a b ≡ true
le→leb a b h = ground arith

getserver_taken :
    (strtonum : Strtonum) (server : Str)
    → length server ≤ server_name_len
    → getserver strtonum server ≢ none
unfolding getserver
getserver_taken strtonum server h fails = ground arith

-- Such a plugin's servers are taken.
pub set_servers-ServersFit :
    (strtonum : Strtonum) (system : System)
    → ServersFit system
    → has (set_servers strtonum system (new_info system)) ≡ true
unfolding set_servers
set_servers-ServersFit strtonum system h =
    let checkip_url = le→leb (length system.checkip_url) server_url_len h.checkip_url in
    let server_url = le→leb (length system.server_url) server_url_len h.server_url in
    elim (Option-cases (getserver strtonum system.checkip_name)) [
      | inl e ↦ absurd (getserver_taken strtonum system.checkip_name h.checkip_name e)
      | inr (checkip, e) ↦ elim (Option-cases (getserver strtonum system.server_name)) [
        | inl e' ↦ absurd (getserver_taken strtonum system.server_name h.server_name e')
        | inr (server, e') ↦ rw (set_servers, e, checkip_url, e', server_url) refl
      ]
    ]

length-map : (names : List Str) → length (map some names) ≡ length names
length-map [] = refl
length-map (s ∷ rest) = omega (arith, length-map rest)

-- Not more names than the table holds: all are kept.
add_aliases-names :
    (room : ℕ) (names : List Str)
    → length names ≤ room
    → map (λ (a : Alias). a.name) (add_aliases room (map some names))
      ≡ map (strlcpy server_name_len) names
unfolding add_aliases
add_aliases-names room [] h = refl
add_aliases-names zero (s ∷ rest) h = absurd (omega arith)
add_aliases-names (suc room) (s ∷ rest) h = ground (arith, add_aliases-names room rest)

-- What is validated: the plugin is there, and the host names fit their table.
record IsValid (plugins : Registry) (provider : Str) (cfg cfg' : Section) : Type 0 where
  found : find_system provider plugins ≢ none
  few : length cfg'.hostname < ddns_max_alias_number
  same_title : cfg'.title ≡ cfg.title

validate_hostname-few :
    (names : List (Option Str))
    → validate_hostname names ≡ true
    → length names < ddns_max_alias_number
unfolding validate_hostname
validate_hostname-few [] h = omega arith
validate_hostname-few (n ∷ rest) h = ground arith

deprecate_alias-title :
    (cfg : Section) → IfReturned (λ cfg'. cfg'.title ≡ cfg.title) (deprecate_alias cfg)
unfolding deprecate_alias
deprecate_alias-title cfg = ground arith

validate_common-IsValid :
    (plugins : Registry) (cfg : Section) (provider : Str) (custom : Bool)
    → IfReturned (IsValid plugins provider cfg) (validate_common plugins cfg provider custom)
unfolding validate_common
validate_common-IsValid plugins cfg provider custom =
    elim (Option-cases (find_system provider plugins)) [
      | inl e ↦ ground (arith, e)
      | inr (ds, e) ↦ elim (Option-cases (deprecate_alias cfg)) [
        | inl e' ↦ ground (arith, e, e')
        | inr (cfg', e') ↦
            ground (arith, e, e', validate_hostname-few cfg'.hostname, deprecate_alias-title cfg)
      ]
    ]

module _ (strtonum : Strtonum) (plugins : Registry) (defaults : Defaults)
    (fit : AllServersFit plugins) where
  set_provider_opts-IsValid :
      (cfg cfg' : Section) (custom : Bool) (names : List Str)
      → IsValid plugins (provider_name cfg custom) cfg cfg'
      → cfg'.hostname ≡ map some names
      → Returns
          (λ p. map (λ (a : Alias). a.name) p.aliases ≡ map (strlcpy server_name_len) names)
          (set_provider_opts strtonum plugins defaults cfg' custom)
  unfolding set_provider_opts
  set_provider_opts-IsValid cfg cfg' custom names v texts =
      let name = provider_name cfg' custom in
      let few : length names ≤ ddns_max_alias_number =
        omega (arith, v.few, length-map names, ap length texts) in
      let same : name ≡ provider_name cfg custom = ground (arith, v) in
      elim (Option-cases (find_system name plugins)) [
        | inl e ↦ ground (arith, e, same, v)
        | inr (x, e) ↦
            let taken =
              set_servers-ServersFit strtonum x.system
                (find_system-ServersFit name plugins x fit e) in
            elim (Option-cases (set_servers strtonum x.system (new_info x.system))) [
              | inl e' ↦ ground (arith, e', taken)
              | inr (info, e') ↦
                  ground (arith, e, e', add_aliases-names ddns_max_alias_number names few, texts)
            ]
      ]

  -- The section that a validation of a `provider` leaves can be set up, and every host name of it
  -- becomes an alias, in the same order, if each plugin's own servers fit their buffers.
  pub set_provider_opts-validate_provider :
      (cfg cfg' : Section) (names : List Str)
      → validate_provider plugins cfg ≡ some cfg'
      → cfg'.hostname ≡ map some names
      → Returns
          (λ p. map (λ (a : Alias). a.name) p.aliases ≡ map (strlcpy server_name_len) names)
          (set_provider_opts strtonum plugins defaults cfg' false)
  unfolding validate_provider
  set_provider_opts-validate_provider cfg cfg' names valid texts =
      set_provider_opts-IsValid cfg cfg' false names
        (ground (arith, valid, validate_common-IsValid plugins cfg cfg.title false)) texts

  -- The same for a `custom` section.
  pub set_provider_opts-validate_custom :
      (cfg cfg' : Section) (names : List Str)
      → validate_custom plugins cfg ≡ some cfg'
      → cfg'.hostname ≡ map some names
      → Returns
          (λ p. map (λ (a : Alias). a.name) p.aliases ≡ map (strlcpy server_name_len) names)
          (set_provider_opts strtonum plugins defaults cfg' true)
  unfolding validate_custom
  set_provider_opts-validate_custom cfg cfg' names valid texts =
      set_provider_opts-IsValid cfg cfg' true names
        (ground (arith, valid, validate_common-IsValid plugins cfg (codes "custom") true)) texts

-- A period that was validated lies in its bounds, and one that does is not changed; nothing else of
-- the file is.
pub validate_period_lem :
    (cfg : ConfFile)
    → (ddns_min_period ≤ (validate_period cfg).period)
      × ((validate_period cfg).period ≤ ddns_max_period)
      × (ddns_min_period ≤ cfg.period → cfg.period ≤ ddns_max_period → validate_period cfg ≡ cfg)
unfolding validate_period
validate_period_lem cfg = ground arith
