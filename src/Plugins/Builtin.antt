-- ===== src/Plugins/Builtin.antt =====
-- The plugins that plugins/Makefile.am compiles into the program. Their constructors run before `main`,
-- in an order that the linker chooses.
pub mod Servers
pub mod Names
use inadyn.Prelude.{ℕ, List, [], ◌∷◌}
use inadyn.Ddns.State.{Plugin}
use inadyn.Json.{Jsmn}
use inadyn.Plugins.Registry.{Registry}
use inadyn.Plugins.Table.{Registration}
use inadyn.Plugins.AllInkl
use inadyn.Plugins.Changeip
use inadyn.Plugins.Cloudflare
use inadyn.Plugins.Cloudxns
use inadyn.Plugins.CoreNetworks
use inadyn.Plugins.Ddnss
use inadyn.Plugins.Desec
use inadyn.Plugins.Dhis
use inadyn.Plugins.Dnsever
use inadyn.Plugins.Dnsexit
use inadyn.Plugins.Dnshome
use inadyn.Plugins.Dnsmadeeasy
use inadyn.Plugins.Dnsmax
use inadyn.Plugins.Dnspod
use inadyn.Plugins.Domaindiscount24
use inadyn.Plugins.Domeneshop
use inadyn.Plugins.Duckdns
use inadyn.Plugins.Duiadns
use inadyn.Plugins.Dyndns
use inadyn.Plugins.Dynv6
use inadyn.Plugins.Easydns
use inadyn.Plugins.Freedns
use inadyn.Plugins.Freemyip
use inadyn.Plugins.Giradns
use inadyn.Plugins.Goip
use inadyn.Plugins.Ipv64
use inadyn.Plugins.Mydns
use inadyn.Plugins.Myonlineportal
use inadyn.Plugins.Namecheap
use inadyn.Plugins.Porkbun
use inadyn.Plugins.Regfish
use inadyn.Plugins.Sitelutions
use inadyn.Plugins.Tunnelbroker
use inadyn.Plugins.Twodns
use inadyn.Plugins.Yandex
use inadyn.Plugins.Zoneedit
use inadyn.Plugins.Generic.System as GenericSystem
use inadyn.Plugins.Digest.{Md5}
use inadyn.Plugins.Freedns.{Sha1}
use inadyn.Plugins.Cloudxns.{Calendar}

-- What the plugins call that is not in the repository, and the functions of the custom provider, whose
-- request may never return (Generic), as functions that do.
pub record Libraries : Type 0 where
  pub md5 : Md5
  pub sha1 : Sha1
  pub jsmn : Jsmn
  pub calendar : Calendar
  pub custom : Plugin

pub data Builtin : Type 0 where
  all_inkl : Builtin
  changeip : Builtin
  cloudflare : Builtin
  cloudxns : Builtin
  core_networks : Builtin
  ddnss : Builtin
  desec : Builtin
  dhis : Builtin
  dnsever : Builtin
  dnsexit : Builtin
  dnshome : Builtin
  dnsmadeeasy : Builtin
  dnsmax : Builtin
  dnspod : Builtin
  domaindiscount24 : Builtin
  domeneshop : Builtin
  duckdns : Builtin
  duiadns : Builtin
  dyndns : Builtin
  dynv6 : Builtin
  easydns : Builtin
  freedns : Builtin
  freemyip : Builtin
  generic : Builtin
  giradns : Builtin
  goip : Builtin
  ipv64 : Builtin
  mydns : Builtin
  myonlineportal : Builtin
  namecheap : Builtin
  porkbun : Builtin
  regfish : Builtin
  sitelutions : Builtin
  tunnelbroker : Builtin
  twodns : Builtin
  yandex : Builtin
  zoneedit : Builtin

-- The constructor of a plugin, whose structures stand at `place`.
unfoldable pub load : Libraries → Builtin → ℕ → Registry → Registry
unfolding AllInkl.plugin_init Changeip.plugin_init Cloudflare.plugin_init Cloudxns.plugin_init
    CoreNetworks.plugin_init Ddnss.plugin_init Desec.plugin_init Dhis.plugin_init
    Dnsever.plugin_init Dnsexit.plugin_init Dnshome.plugin_init Dnsmadeeasy.plugin_init
    Dnsmax.plugin_init Dnspod.plugin_init Domaindiscount24.plugin_init Domeneshop.plugin_init
    Duckdns.plugin_init Duiadns.plugin_init Dyndns.plugin_init Dynv6.plugin_init Easydns.plugin_init
    Freedns.plugin_init Freemyip.plugin_init GenericSystem.plugin_init Giradns.plugin_init
    Goip.plugin_init Ipv64.plugin_init Mydns.plugin_init Myonlineportal.plugin_init
    Namecheap.plugin_init Porkbun.plugin_init Regfish.plugin_init Sitelutions.plugin_init
    Tunnelbroker.plugin_init Twodns.plugin_init Yandex.plugin_init Zoneedit.plugin_init
load libs all_inkl place plugins = AllInkl.plugin_init place plugins
load libs changeip place plugins = Changeip.plugin_init place plugins
load libs cloudflare place plugins = Cloudflare.plugin_init libs.jsmn place plugins
load libs cloudxns place plugins = Cloudxns.plugin_init libs.md5 libs.calendar place plugins
load libs core_networks place plugins = CoreNetworks.plugin_init place plugins
load libs ddnss place plugins = Ddnss.plugin_init place plugins
load libs desec place plugins = Desec.plugin_init place plugins
load libs dhis place plugins = Dhis.plugin_init place plugins
load libs dnsever place plugins = Dnsever.plugin_init place plugins
load libs dnsexit place plugins = Dnsexit.plugin_init place plugins
load libs dnshome place plugins = Dnshome.plugin_init place plugins
load libs dnsmadeeasy place plugins = Dnsmadeeasy.plugin_init place plugins
load libs dnsmax place plugins = Dnsmax.plugin_init place plugins
load libs dnspod place plugins = Dnspod.plugin_init place plugins
load libs domaindiscount24 place plugins = Domaindiscount24.plugin_init place plugins
load libs domeneshop place plugins = Domeneshop.plugin_init place plugins
load libs duckdns place plugins = Duckdns.plugin_init place plugins
load libs duiadns place plugins = Duiadns.plugin_init libs.md5 place plugins
load libs dyndns place plugins = Dyndns.plugin_init place plugins
load libs dynv6 place plugins = Dynv6.plugin_init place plugins
load libs easydns place plugins = Easydns.plugin_init place plugins
load libs freedns place plugins = Freedns.plugin_init libs.sha1 place plugins
load libs freemyip place plugins = Freemyip.plugin_init place plugins
load libs generic place plugins = GenericSystem.plugin_init libs.custom place plugins
load libs giradns place plugins = Giradns.plugin_init place plugins
load libs goip place plugins = Goip.plugin_init place plugins
load libs ipv64 place plugins = Ipv64.plugin_init place plugins
load libs mydns place plugins = Mydns.plugin_init place plugins
load libs myonlineportal place plugins = Myonlineportal.plugin_init place plugins
load libs namecheap place plugins = Namecheap.plugin_init place plugins
load libs porkbun place plugins = Porkbun.plugin_init libs.jsmn place plugins
load libs regfish place plugins = Regfish.plugin_init place plugins
load libs sitelutions place plugins = Sitelutions.plugin_init place plugins
load libs tunnelbroker place plugins = Tunnelbroker.plugin_init libs.md5 place plugins
load libs twodns place plugins = Twodns.plugin_init place plugins
load libs yandex place plugins = Yandex.plugin_init libs.jsmn place plugins
load libs zoneedit place plugins = Zoneedit.plugin_init place plugins

-- The calls that it makes.
abbrev pub calls : Libraries → Builtin → ℕ → List Registration
calls libs all_inkl place = AllInkl.registrations place
calls libs changeip place = Changeip.registrations place
calls libs cloudflare place = Cloudflare.registrations libs.jsmn place
calls libs cloudxns place = Cloudxns.registrations libs.md5 libs.calendar place
calls libs core_networks place = CoreNetworks.registrations place
calls libs ddnss place = Ddnss.registrations place
calls libs desec place = Desec.registrations place
calls libs dhis place = Dhis.registrations place
calls libs dnsever place = Dnsever.registrations place
calls libs dnsexit place = Dnsexit.registrations place
calls libs dnshome place = Dnshome.registrations place
calls libs dnsmadeeasy place = Dnsmadeeasy.registrations place
calls libs dnsmax place = Dnsmax.registrations place
calls libs dnspod place = Dnspod.registrations place
calls libs domaindiscount24 place = Domaindiscount24.registrations place
calls libs domeneshop place = Domeneshop.registrations place
calls libs duckdns place = Duckdns.registrations place
calls libs duiadns place = Duiadns.registrations libs.md5 place
calls libs dyndns place = Dyndns.registrations place
calls libs dynv6 place = Dynv6.registrations place
calls libs easydns place = Easydns.registrations place
calls libs freedns place = Freedns.registrations libs.sha1 place
calls libs freemyip place = Freemyip.registrations place
calls libs generic place = GenericSystem.registrations libs.custom place
calls libs giradns place = Giradns.registrations place
calls libs goip place = Goip.registrations place
calls libs ipv64 place = Ipv64.registrations place
calls libs mydns place = Mydns.registrations place
calls libs myonlineportal place = Myonlineportal.registrations place
calls libs namecheap place = Namecheap.registrations place
calls libs porkbun place = Porkbun.registrations libs.jsmn place
calls libs regfish place = Regfish.registrations place
calls libs sitelutions place = Sitelutions.registrations place
calls libs tunnelbroker place = Tunnelbroker.registrations libs.md5 place
calls libs twodns place = Twodns.registrations place
calls libs yandex place = Yandex.registrations libs.jsmn place
calls libs zoneedit place = Zoneedit.registrations place

unfoldable pub load_all : Libraries → List (Builtin × ℕ) → Registry → Registry
unfolding load
load_all libs [] plugins = plugins
load_all libs ((b, place) ∷ rest) plugins = load_all libs rest (load libs b place plugins)
