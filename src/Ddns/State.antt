-- ===== src/Ddns/State.antt =====
-- The client's data (include/ddns.h, include/plugin.h) and the options of the command line and the
-- configuration file that are global variables (src/main.c).
-- Integers that only hold 0 or 1 are `Bool`, and times and periods are not negative.
use inadyn.Prelude.{ℕ, Bool, Option, List, if◌then◌else◌}
use inadyn.Prelude.Text.{Str, codes, starts_with}
use inadyn.Prelude.Int.{ℤ}
use inadyn.Http.{Client, Trans}
use inadyn.World.{Env, World}

-- Sizes of buffers, with the terminating NUL.
abbrev pub server_name_len : ℕ
server_name_len = 256

abbrev pub server_url_len : ℕ
server_url_len = 512

abbrev pub username_len : ℕ
username_len = 128

abbrev pub password_len : ℕ
password_len = 256

-- INET6_ADDRSTRLEN
abbrev pub max_address_len : ℕ
max_address_len = 46

-- `ddns_cmd_t`
pub data Cmd : Type 0 where
  no_cmd cmd_stop cmd_restart cmd_forced_update cmd_check_now : Cmd

-- `ddns_exec_mode_t`
pub data ExecMode : Type 0 where
  compat event : ExecMode

-- `ddns_creds_t`; `encoded_password` is empty until it is set.
pub record Creds : Type 0 where
  pub username : Str
  pub password : Str
  pub encoded_password : Str
  pub encoded : Bool

-- `ddns_name_t`
pub record ServerName : Type 0 where
  pub name : Str
  pub port : ℕ

-- `ddns_alias_t`
pub record Alias : Type 0 where
  pub force_addr_update : Bool
  pub ip_has_changed : Bool
  pub address : Str
  pub name : Str
  pub update_required : Bool
  pub last_update : ℕ

-- `ddns_system_t` without its three functions, which are in `Plugin`.
pub record System : Type 0 where
  pub name : Str
  pub alias : Option Str
  pub cloned : Bool
  pub nousername : Bool
  pub checkip_name : Str
  pub checkip_url : Str
  pub checkip_ssl : ℤ
  pub server_name : Str
  pub server_url : Str
  pub server_req : Str

-- `ddns_info_t` without its table of aliases, which is in `Provider`. An empty `ifname` or
-- `checkip_cmd` is one that is not set: the program tests both for NULL and for "".
pub record Info : Type 0 where
  pub creds : Creds
  pub system : System
  pub user_agent : Str
  pub server_name : ServerName
  pub server_url : Str
  pub server : Client
  pub server_response : List Str
  pub ifname : Str
  pub checkip_name : ServerName
  pub checkip_url : Str
  pub checkip_ssl : ℤ
  pub checkip : Client
  pub checkip_cmd : Str
  pub proxy_name : ServerName
  pub wildcard : Bool
  pub ttl : ℤ
  pub proxied : ℤ
  pub provider_data : Option Str
  pub ssl_enabled : Bool
  pub append_myip : Bool

-- `ddns_t`: the fields that the daemon uses. The buffers hold C strings.
pub record Ctx : Type 0 where
  pub cmd : Cmd
  pub update_period : ℕ
  pub normal_update_period_sec : ℕ
  pub error_update_period_sec : ℕ
  pub forced_update_period_sec : ℕ
  pub forced_update_fake_addr : Bool
  pub cmd_check_period : ℕ
  pub total_iterations : ℕ
  pub num_iterations : ℕ
  pub initialized : Bool
  pub work_buf : Str
  pub work_buflen : ℕ
  pub request_buf : Str
  pub request_buflen : ℕ

-- What a `setup` function may write: the two buffers of the context, `info->data`, and the name of the
-- alias.
pub record Ready : Type 0 where
  pub rc : ℕ
  pub request_buf : Str
  pub work_buf : Str
  pub provider_data : Option Str
  pub name : Str
  pub world : World

-- The functions of a `ddns_system_t`. `setup` may be missing; it may query the provider. `request`
-- fills `request_buf` and returns its length, negative on failure.
pub record Plugin : Type 0 where
  pub setup : Option (Env → Ctx → Info → Alias → World → Ready)
  pub request : Ctx → Info → Alias → ℤ × Str
  pub response : Trans → Info → Alias → ℕ

-- A `ddns_info_t` with its aliases and the functions of its system.
pub record Provider : Type 0 where
  pub info : Info
  pub plugin : Plugin
  pub aliases : List Alias

pub record Options : Type 0 where
  pub once : Bool
  pub force : Bool
  pub ignore_errors : Bool
  pub startup_delay : ℕ
  pub allow_ipv6 : Bool
  pub verify_addr : Bool
  pub exec_mode : ExecMode
  pub iface : Str
  pub script_exec : Option Str
  pub cache_dir : Str

abbrev pub tcp_auto : ℕ
tcp_auto = 0

abbrev pub tcp_force_ipv4 : ℕ
tcp_force_ipv4 = 1

abbrev pub tcp_force_ipv6 : ℕ
tcp_force_ipv6 = 2

abbrev pub ipv6_prefix : Str
ipv6_prefix = codes "ipv6"

unfoldable pub ddns_get_tcp_force : Info → ℕ
ddns_get_tcp_force info =
    if starts_with info.system.name ipv6_prefix then tcp_force_ipv6 else tcp_force_ipv4
