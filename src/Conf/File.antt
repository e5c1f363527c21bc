-- ===== src/Conf/File.antt =====
-- The list of providers and the whole file (`create_provider`, `conf_info_iterator` and
-- `conf_parse_file` of src/conf.c). Memory is never exhausted.
use inadyn.Prelude.{
  ℕ, zero, suc, Bool, true, false, not, Option, none, some, List, [], ◌∷◌, if◌then◌else◌,
}
use inadyn.Prelude.Text.{Str}
use inadyn.Ddns.State.{Ctx, Options, Provider}
use inadyn.Plugins.Registry.{Registry}
use inadyn.Conf.Parsed.{Section, ConfFile}
use inadyn.Conf.Server.{Strtonum}
use inadyn.Conf.Provider.{Defaults, or_default, set_provider_opts}

abbrev pub ddns_error_update_period : ℕ
ddns_error_update_period = 600

-- What the calls read: strtonum, the plugins, and whether a file exists. `script_cmd` and `use_iface`
-- are options of the command line, and `ddns_user_agent` is a constant of the build.
pub record Setting : Type 0 where
  pub strtonum : Strtonum
  pub plugins : Registry
  pub fexist : Str → Bool
  pub script_cmd : Option Str
  pub use_iface : Option Str
  pub ddns_user_agent : Str

-- A provider is put in front of the list. The flag tells of a failure.
unfoldable pub create_provider :
    Setting → Defaults → Bool → Section → List Provider → Bool × List Provider
create_provider s defaults custom cfg list =
    elim (set_provider_opts s.strtonum s.plugins defaults cfg custom) [
      | none ↦ (true, list)
      | some p ↦ (false, p ∷ list)
    ]

-- A loop over the sections; `ret |= create_provider (...)`.
unfoldable pub create_providers :
    Setting → Defaults → Bool → List Section → Bool × List Provider → Bool × List Provider
unfolding create_provider
create_providers s defaults custom [] r = r
create_providers s defaults custom (cfg ∷ rest) (ret, list) =
    let (failed, list') = create_provider s defaults custom cfg list in
    create_providers s defaults custom rest (if failed then true else ret, list')

-- What conf_parse_file leaves: whether it returned the file, and the globals that it set.
pub record Parsed : Type 0 where
  pub ok : Bool
  pub ctx : Ctx
  pub opts : Options
  pub user_agent : Str
  pub secure_ssl : Bool
  pub broken_rtc : Bool
  pub ca_trust_file : Option Str
  pub info_list : List Provider

abbrev pub missing : (Str → Bool) → Option Str → Bool
missing fexist none = false
missing fexist (some file) = not (fexist file)

abbrev pub set_iface : Option Str → Option Str → Str → Str
set_iface (some arg) option old = old
set_iface none none old = []
set_iface none (some ifname) old = ifname

unfoldable pub set_global_ctx : Bool → ConfFile → Ctx → Ctx
set_global_ctx once cfg ctx = record ctx {
  normal_update_period_sec = cfg.period;
  error_update_period_sec = ddns_error_update_period;
  forced_update_period_sec = cfg.forced_update;
  total_iterations = if once then 1 else cfg.iterations;
  forced_update_fake_addr = cfg.fake_address;
}

unfoldable pub set_global_options : Option Str → ConfFile → Options → Options
set_global_options use_iface cfg opts = record opts {
  verify_addr = cfg.verify_address;
  allow_ipv6 = cfg.allow_ipv6;
  iface = set_iface use_iface cfg.iface opts.iface;
}

-- From `cfg_parse` on, which found the file and no error in it. `list` is what info_list holds.
unfoldable pub conf_parse_file : Setting → ConfFile → Ctx → Options → List Provider → Parsed
unfolding create_providers set_global_ctx set_global_options
conf_parse_file s cfg ctx opts list =
    let agent = or_default s.ddns_user_agent cfg.user_agent in
    let defaults : Defaults = record { script_cmd = s.script_cmd; user_agent = agent } in
    let r =
      create_providers s defaults true cfg.custom
        (create_providers s defaults false cfg.provider (false, list)) in
    let stops = missing s.fexist cfg.ca_trust_file in
    record {
      ok = if stops then false else not r.0;
      ctx = set_global_ctx opts.once cfg ctx;
      opts = set_global_options s.use_iface cfg opts;
      user_agent = agent;
      secure_ssl = cfg.secure_ssl;
      broken_rtc = cfg.broken_rtc;
      ca_trust_file = cfg.ca_trust_file;
      info_list = if stops then list else r.1;
    }

-- `static ddns_info_t *ptr`: the rest of the list from the provider that it points to.
unfoldable pub conf_info_iterator :
    Bool → List Provider → List Provider → Option Provider × List Provider
conf_info_iterator true [] ptr = (none, [])
conf_info_iterator true (p ∷ list) ptr = (some p, p ∷ list)
conf_info_iterator false list [] = (none, [])
conf_info_iterator false list (p ∷ []) = (none, [])
conf_info_iterator false list (p ∷ q ∷ rest) = (some q, q ∷ rest)

-- `for (info = conf_info_iterator (1); info; info = conf_info_iterator (0))`, which is how the
-- callers use it; `none` means that the fuel ran out.
unfoldable pub each_info : ℕ → Bool → List Provider → List Provider → Option (List Provider)
unfolding conf_info_iterator
each_info zero first list ptr = none
each_info (suc fuel) first list ptr =
    let (found, ptr') = conf_info_iterator first list ptr in
    let later = each_info fuel false list ptr' in
    elim found [
      | none ↦ some []
      | some p ↦ elim later [ none ↦ none | some rest ↦ some (p ∷ rest) ]
    ]

-- LIST_FOREACH_SAFE with LIST_REMOVE
unfoldable pub conf_info_cleanup : List Provider → List Provider
conf_info_cleanup [] = []
conf_info_cleanup (p ∷ rest) = conf_info_cleanup rest
