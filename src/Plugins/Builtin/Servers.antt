-- ===== src/Plugins/Builtin/Servers.antt =====
-- The texts of the plugins that are compiled in fit their buffers, so that what leads to one of them can
-- be set up (plugins/*.c, src/plugin.c, src/conf.c).
use inadyn.Prelude.{
  ℕ, ◌≡◌, Bool, true, false, ◌&&◌, not, List, [], ◌∷◌, ◌++◌, ◌==◌, any, arith, has, all, leb,
  length, Option-cases, inl, inr, refl,
}
use inadyn.Prelude.Text.{Str, contains}
use inadyn.Ddns.State.{System, server_name_len, server_url_len}
use inadyn.Plugins.Registry.{
  Entry, Registry, plugin_find, clone_v6, plugin_register, plugin_register_v6, drop_prefix, name_v6,
}
use inadyn.Plugins.Table.{Registration, register, register_v6, register_all}
use inadyn.Plugins.Builtin.{
  Libraries, Builtin, load, load_all, calls, all_inkl, changeip, cloudflare, cloudxns,
  core_networks, ddnss, desec, dhis, dnsever, dnsexit, dnshome, dnsmadeeasy, dnsmax, dnspod,
  domaindiscount24, domeneshop, duckdns, duiadns, dyndns, dynv6, easydns, freedns, freemyip,
  generic, giradns, goip, ipv64, mydns, myonlineportal, namecheap, porkbun, regfish, sitelutions,
  tunnelbroker, twodns, yandex, zoneedit,
}
use inadyn.Plugins.AllInkl
use inadyn.Plugins.Changeip
use inadyn.Plugins.Cloudflare
use inadyn.Plugins.Cloudxns
use inadyn.Plugins.CoreNetworks
use inadyn.Plugins.Ddnss
use inadyn.Plugins.Desec
use inadyn.Plugins.Dhis
use inadyn.Plugins.Dnsever
use inadyn.Plugins.Dnsexit
use inadyn.Plugins.Dnshome
use inadyn.Plugins.Dnsmadeeasy
use inadyn.Plugins.Dnsmax
use inadyn.Plugins.Dnspod
use inadyn.Plugins.Domaindiscount24
use inadyn.Plugins.Domeneshop
use inadyn.Plugins.Duckdns
use inadyn.Plugins.Duiadns
use inadyn.Plugins.Dyndns
use inadyn.Plugins.Dynv6
use inadyn.Plugins.Easydns
use inadyn.Plugins.Freedns
use inadyn.Plugins.Freemyip
use inadyn.Plugins.Giradns
use inadyn.Plugins.Goip
use inadyn.Plugins.Ipv64
use inadyn.Plugins.Mydns
use inadyn.Plugins.Myonlineportal
use inadyn.Plugins.Namecheap
use inadyn.Plugins.Porkbun
use inadyn.Plugins.Regfish
use inadyn.Plugins.Sitelutions
use inadyn.Plugins.Tunnelbroker
use inadyn.Plugins.Twodns
use inadyn.Plugins.Yandex
use inadyn.Plugins.Zoneedit
use inadyn.Plugins.Generic.System as GenericSystem
use inadyn.Conf.Validate.Laws.{
  ServersFit, AllServersFit, set_servers-ServersFit, find_system-ServersFit,
}
use inadyn.Conf.Parsed.{Section}
use inadyn.Conf.Server.{Strtonum}
use inadyn.Conf.Provider.{
  Defaults, find_system, provider_name, set_provider_opts, set_servers, new_info,
}

AllServersFit-append :
    (plugins more : Registry)
    → AllServersFit plugins
    → AllServersFit more
    → AllServersFit (plugins ++ more)
AllServersFit-append [] more h k = k
AllServersFit-append (x ∷ rest) more h k = (h.0, AllServersFit-append rest more h.1 k)

same_servers : (s : System) (req : Str) → ServersFit s → ServersFit (record s { server_req = req })
same_servers s req f = record {
  checkip_name = f.checkip_name;
  checkip_url = f.checkip_url;
  server_name = f.server_name;
  server_url = f.server_url;
}

plugin_register-AllServersFit :
    (req : Str) (e : Entry) (plugins : Registry)
    → ServersFit e.system
    → AllServersFit plugins
    → AllServersFit (plugin_register req e plugins)
unfolding plugin_register
plugin_register-AllServersFit req e plugins fit h =
    let more = record e { system = record e.system { server_req = req } } ∷ [] in
    elim (Option-cases (plugin_find e.system.name false plugins)) [
      | inl missing ↦
          rw (plugin_register, missing)
            (AllServersFit-append plugins more h (same_servers e.system req fit, tt))
      | inr (p, found) ↦ ground (arith, found, h)
    ]

-- What a call enters.
abbrev pub registered : Registration → Entry
registered (register req e) = e
registered (register_v6 place req e) = clone_v6 place e

unfoldable servers_fit : System → Bool
servers_fit s =
    leb (length s.checkip_name) server_name_len
    && leb (length s.checkip_url) server_url_len
    && leb (length s.server_name) server_name_len
    && leb (length s.server_url) server_url_len

-- A system whose texts fit, and whose name has no colon.
unfoldable pub sound : System → Bool
unfolding servers_fit
sound s = servers_fit s && not (any (λ c. c == b':') s.name)

sound-ServersFit : (s : System) → sound s ≡ true → ServersFit s
unfolding sound servers_fit
sound-ServersFit s h = ground arith

register_all-AllServersFit :
    (list : List Registration) (plugins : Registry)
    → all (λ r. sound (registered r).system) list ≡ true
    → AllServersFit plugins
    → AllServersFit (register_all list plugins)
unfolding register_all plugin_register_v6
register_all-AllServersFit [] plugins fit h = h
register_all-AllServersFit (register req e ∷ rest) plugins fit h =
    register_all-AllServersFit rest (plugin_register req e plugins) (ground arith)
      (plugin_register-AllServersFit req e plugins (sound-ServersFit e.system (ground arith)) h)
register_all-AllServersFit (register_v6 place req e ∷ rest) plugins fit h =
    register_all-AllServersFit rest (plugin_register_v6 place req e plugins) (ground arith) (
      plugin_register-AllServersFit req (clone_v6 place e) plugins
        (sound-ServersFit (clone_v6 place e).system (ground arith)) h)

-- Each constructor makes its calls, and what they enter is sound.
pub load-calls :
    (libs : Libraries) (b : Builtin) (place : ℕ) (plugins : Registry)
    → (load libs b place plugins ≡ register_all (calls libs b place) plugins)
      × (all (λ r. sound (registered r).system) (calls libs b place) ≡ true)
unfolding load sound servers_fit name_v6 drop_prefix contains AllInkl.plugin_init
    Changeip.plugin_init Cloudflare.plugin_init Cloudxns.plugin_init CoreNetworks.plugin_init
    Ddnss.plugin_init Desec.plugin_init Dhis.plugin_init Dnsever.plugin_init Dnsexit.plugin_init
    Dnshome.plugin_init Dnsmadeeasy.plugin_init Dnsmax.plugin_init Dnspod.plugin_init
    Domaindiscount24.plugin_init Domeneshop.plugin_init Duckdns.plugin_init Duiadns.plugin_init
    Dyndns.plugin_init Dynv6.plugin_init Easydns.plugin_init Freedns.plugin_init
    Freemyip.plugin_init Giradns.plugin_init Goip.plugin_init Ipv64.plugin_init Mydns.plugin_init
    Myonlineportal.plugin_init Namecheap.plugin_init Porkbun.plugin_init Regfish.plugin_init
    Sitelutions.plugin_init Tunnelbroker.plugin_init Twodns.plugin_init Yandex.plugin_init
    Zoneedit.plugin_init GenericSystem.plugin_init
load-calls libs all_inkl place plugins = (refl, refl)
load-calls libs changeip place plugins = (refl, refl)
load-calls libs cloudflare place plugins = (refl, refl)
load-calls libs cloudxns place plugins = (refl, refl)
load-calls libs core_networks place plugins = (refl, refl)
load-calls libs ddnss place plugins = (refl, refl)
load-calls libs desec place plugins = (refl, refl)
load-calls libs dhis place plugins = (refl, refl)
load-calls libs dnsever place plugins = (refl, refl)
load-calls libs dnsexit place plugins = (refl, refl)
load-calls libs dnshome place plugins = (refl, refl)
load-calls libs dnsmadeeasy place plugins = (refl, refl)
load-calls libs dnsmax place plugins = (refl, refl)
load-calls libs dnspod place plugins = (refl, refl)
load-calls libs domaindiscount24 place plugins = (refl, refl)
load-calls libs domeneshop place plugins = (refl, refl)
load-calls libs duckdns place plugins = (refl, refl)
load-calls libs duiadns place plugins = (refl, refl)
load-calls libs dyndns place plugins = (refl, refl)
load-calls libs dynv6 place plugins = (refl, refl)
load-calls libs easydns place plugins = (refl, refl)
load-calls libs freedns place plugins = (refl, refl)
load-calls libs freemyip place plugins = (refl, refl)
load-calls libs generic place plugins = (refl, refl)
load-calls libs giradns place plugins = (refl, refl)
load-calls libs goip place plugins = (refl, refl)
load-calls libs ipv64 place plugins = (refl, refl)
load-calls libs mydns place plugins = (refl, refl)
load-calls libs myonlineportal place plugins = (refl, refl)
load-calls libs namecheap place plugins = (refl, refl)
load-calls libs porkbun place plugins = (refl, refl)
load-calls libs regfish place plugins = (refl, refl)
load-calls libs sitelutions place plugins = (refl, refl)
load-calls libs tunnelbroker place plugins = (refl, refl)
load-calls libs twodns place plugins = (refl, refl)
load-calls libs yandex place plugins = (refl, refl)
load-calls libs zoneedit place plugins = (refl, refl)

load_all-AllServersFit :
    (libs : Libraries) (order : List (Builtin × ℕ)) (plugins : Registry)
    → AllServersFit plugins
    → AllServersFit (load_all libs order plugins)
unfolding load_all
load_all-AllServersFit libs [] plugins h = h
load_all-AllServersFit libs ((b, place) ∷ rest) plugins h =
    let (same, fit) = load-calls libs b place plugins in
    load_all-AllServersFit libs rest (load libs b place plugins)
      (rw same (register_all-AllServersFit (calls libs b place) plugins fit h))

set_provider_opts-find_system :
    (strtonum : Strtonum) (plugins : Registry) (defaults : Defaults) (cfg : Section) (custom : Bool)
    → AllServersFit plugins
    → has (set_provider_opts strtonum plugins defaults cfg custom)
      ≡ has (find_system (provider_name cfg custom) plugins)
unfolding set_provider_opts
set_provider_opts-find_system strtonum plugins defaults cfg custom fit =
    let name = provider_name cfg custom in
    elim (Option-cases (find_system name plugins)) [
      | inl e ↦ rw (set_provider_opts, e) refl
      | inr (x, e) ↦
          let taken =
            set_servers-ServersFit strtonum x.system
              (find_system-ServersFit name plugins x fit e) in
          elim (Option-cases (set_servers strtonum x.system (new_info x.system))) [
            | inl e' ↦ absurd (ground (arith, e', taken))
            | inr (info, e') ↦ rw (set_provider_opts, e, e') refl
          ]
    ]

-- With any of the 37 plugins loaded, in any order, a section of the configuration can be set up exactly
-- when its provider's name, or a part of it, leads to a plugin: no built-in text is too long.
pub set_provider_opts-load_all :
    (strtonum : Strtonum) (libs : Libraries) (order : List (Builtin × ℕ)) (defaults : Defaults)
    (cfg : Section) (custom : Bool)
    → has (set_provider_opts strtonum (load_all libs order []) defaults cfg custom)
      ≡ has (find_system (provider_name cfg custom) (load_all libs order []))
set_provider_opts-load_all strtonum libs order defaults cfg custom =
    set_provider_opts-find_system strtonum (load_all libs order []) defaults cfg custom
      (load_all-AllServersFit libs order [] tt)
