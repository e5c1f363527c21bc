-- ===== src/Main/Command.antt =====
-- The options of the command line (`main` of src/main.c, up to the default paths).
use inadyn.Prelude.{ℕ, suc, leb, Bool, true, false, Option, some, List, [], ◌∷◌, if◌then◌else◌}
use inadyn.Prelude.Text.{Str, codes, strcmp_eq}
use inadyn.Ddns.State.{ExecMode, compat, event}

-- What getopt_long finds, with the argument. `opt_help` is also what it returns for an option that
-- is unknown or lacks its argument. The delay is what atoi reads, taken not to be negative.
pub data Opt : Type 0 where
  opt_once opt_force opt_continue_on_error opt_check_config opt_json opt_list opt_foreground
        opt_no_pidfile opt_syslog opt_version opt_help :
      Opt
  opt_cache_dir opt_cmd opt_exec opt_exec_mode opt_config opt_iface opt_ident opt_loglevel
        opt_pidfile opt_drop_privs opt_show_provider :
      Str → Opt
  opt_startup_delay : ℕ → Opt

-- The globals and the variables that the options set. The counter `use_syslog` is split in two.
pub record Settings : Type 0 where
  pub once : Bool
  pub force : Bool
  pub cache_dir : Option Str
  pub script_cmd : Option Str
  pub ignore_errors : Bool
  pub script_exec : Option Str
  pub exec_mode : ExecMode
  pub config : Option Str
  pub check_config : Bool
  pub background : Bool
  pub syslog_up : ℕ
  pub syslog_down : ℕ
  pub use_iface : Option Str
  pub iface : Option Str
  pub ident : Str
  pub json : Bool
  pub list : Bool
  pub pidfile_name : Option Str
  pub privs : Option Str
  pub startup_delay : ℕ

-- With an option, the program goes on or exits with a code.
pub data Choice : Type 0 where
  goes : Settings → Choice
  exits : ℕ → Choice

-- What the options call: log_level of src/log.c (whether it knows the level), and plugin_show, which
-- prints.
pub record Calls : Type 0 where
  pub log_level : Str → Bool
  pub plugin_show : Str → ℕ

-- usage prints, and returns its argument; memory is never exhausted.
unfoldable pub usage : ℕ → ℕ
usage code = code

unfoldable pub set_exec_mode : Str → Settings → Choice
unfolding usage
set_exec_mode arg s =
    if strcmp_eq arg (codes "event")
    then goes (record s { exec_mode = event })
    else if strcmp_eq arg (codes "compat")
    then goes (record s { exec_mode = compat })
    else exits (usage 1)

-- `switch (c)`
unfoldable pub handle_option : Calls → Opt → Settings → Choice
unfolding set_exec_mode usage
handle_option calls opt_once s = goes (record s { once = true })
handle_option calls opt_force s = goes (record s { force = true })
handle_option calls (opt_cache_dir arg) s = goes (record s { cache_dir = some arg })
handle_option calls (opt_cmd arg) s = goes (record s { script_cmd = some arg })
handle_option calls opt_continue_on_error s = goes (record s { ignore_errors = true })
handle_option calls (opt_exec arg) s = goes (record s { script_exec = some arg })
handle_option calls (opt_exec_mode arg) s = set_exec_mode arg s
handle_option calls (opt_config arg) s = goes (record s { config = some arg })
handle_option calls opt_check_config s =
    goes (record s { check_config = true; background = false; syslog_down = suc s.syslog_down })
handle_option calls (opt_iface arg) s = goes (record s { use_iface = some arg; iface = some arg })
handle_option calls (opt_ident arg) s = goes (record s { ident = arg })
handle_option calls opt_json s = goes (record s { json = true })
handle_option calls (opt_loglevel arg) s = if calls.log_level arg then goes s else exits (usage 1)
handle_option calls opt_list s = goes (record s { list = true })
handle_option calls opt_foreground s =
    goes (record s { background = false; syslog_down = suc s.syslog_down })
handle_option calls opt_no_pidfile s = goes (record s { pidfile_name = some [] })
handle_option calls (opt_pidfile arg) s = goes (record s { pidfile_name = some arg })
handle_option calls (opt_drop_privs arg) s = goes (record s { privs = some arg })
handle_option calls opt_syslog s = goes (record s { syslog_up = suc s.syslog_up })
handle_option calls (opt_show_provider arg) s = exits (calls.plugin_show arg)
handle_option calls (opt_startup_delay delay) s = goes (record s { startup_delay = delay })
handle_option calls opt_version s = exits 0
handle_option calls opt_help s = exits (usage 0)

-- The loop over the command line.
unfoldable pub handle_options : Calls → List Opt → Settings → Choice
unfolding handle_option
handle_options calls [] s = goes s
handle_options calls (o ∷ rest) s = elim (handle_option calls o s) [
  | goes s' ↦ handle_options calls rest s'
  | exits code ↦ exits code
]

-- `force` is only allowed with `once`; the first argument of log_init is whether to use syslog.
unfoldable pub drop_force : Settings → Settings
drop_force s = if s.once then s else record s { force = false }

abbrev pub use_syslog : Settings → Bool
use_syslog s = leb s.syslog_down s.syslog_up
