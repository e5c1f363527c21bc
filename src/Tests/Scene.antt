-- ===== src/Tests/Scene.antt =====
-- A configuration, an environment and a state of the daemon that the runs share.
use inadyn.Prelude.{true, false, none, some, [], ◌∷◌, ◌++◌, if◌then◌else◌, arith}
use inadyn.Prelude.Text.{codes, strcmp_eq}
use inadyn.Prelude.Int.{pos}
use inadyn.Error.{rc_error, rc_tcp_connect_failed, rc_ddns_rsp_notok}
use inadyn.World.{Env, World}
use inadyn.Http.{Client}
use inadyn.Ddns.State.{Alias, Info, Ctx, System, no_cmd, compat, Plugin, Provider, Options, Ready}
use inadyn.Ddns.Address.{Inet}
use inadyn.Ddns.Address.Find.{NeedsTwoBytes}
use inadyn.Ddns.Query.{Found}
use inadyn.Ddns.Update.{Pass, Table}
use inadyn.Ddns.Loop.{Daemon}

-- Every transfer succeeds and brings the same answer.
abbrev pub online : Env
online = record {
  ssl_open = λ h. 0;
  ssl_send = λ h. 0;
  ssl_recv = λ h. (0, codes "HTTP/1.1 200 OK" ++ 13 ∷ 10 ∷ 13 ∷ 10 ∷ codes "good 8.8.8.8");
  ssl_close = λ h. 0;
  time = λ h. 1000;
  rand = λ h. 6;
  signals = λ h. [];
  can_write = λ h. true;
  nslookup = λ h. none;
  can_fork = λ h. true;
  popen = λ h. some (codes "8.8.8.8");
  errno = λ h. 0;
  ifaddrs = λ h. none;
  ifaddr_ioctl = λ h. none;
}

-- No connection can be made.
abbrev pub offline : Env
offline = record online { ssl_open = λ h. rc_tcp_connect_failed }

-- Two addresses that can be read.
abbrev pub lib : Inet
lib = record {
  pton4 = λ s. if strcmp_eq s (codes "8.8.8.8") then some 134744072 else none;
  ntop4 = λ a. codes "8.8.8.8";
  pton6 = λ s.
      if strcmp_eq s (codes "2001:db8::1")
      then some (0x20 ∷ 0x01 ∷ 0x0d ∷ 0xb8 ∷ 0 ∷ 0 ∷ 0 ∷ 0 ∷ 0 ∷ 0 ∷ 0 ∷ 0 ∷ 0 ∷ 0 ∷ 0 ∷ 1 ∷ [])
      else none;
  ntop6 = λ a. codes "2001:db8::1";
}

pub lib-NeedsTwoBytes : NeedsTwoBytes lib
lib-NeedsTwoBytes = record { no_pton4 = λ c. ground arith; no_pton6 = λ c. ground arith }

abbrev pub opts : Options
opts = record {
  once = false;
  force = false;
  ignore_errors = true;
  startup_delay = 0;
  allow_ipv6 = false;
  verify_addr = true;
  exec_mode = compat;
  iface = [];
  script_exec = none;
  cache_dir = codes "/var/cache/inadyn";
}

abbrev pub client : Client
client = record {
  remote_host = codes "dyn.example";
  port = 80;
  timeout = 0;
  ssl_enabled = pos 0;
  initialized = false;
}

abbrev pub system : System
system = record {
  name = codes "default@example";
  alias = none;
  cloned = false;
  nousername = false;
  checkip_name = codes "ip.example";
  checkip_url = codes "/";
  checkip_ssl = pos 0;
  server_name = codes "dyn.example";
  server_url = codes "/update";
  server_req = codes "GET %s?host=%s&ip=%s HTTP/1.0";
}

abbrev pub info : Info
info = record {
  creds = record {
    username = codes "joe";
    password = codes "pw";
    encoded_password = codes "am9lOnB3";
    encoded = true;
  };
  system = system;
  user_agent = codes "inadyn";
  server_name = record { name = codes "dyn.example"; port = 80 };
  server_url = codes "/update";
  server = client;
  server_response = [];
  ifname = [];
  checkip_name = record { name = codes "ip.example"; port = 80 };
  checkip_url = codes "/";
  checkip_ssl = pos 0;
  checkip = client;
  checkip_cmd = [];
  proxy_name = record { name = []; port = 0 };
  wildcard = false;
  ttl = pos 0;
  proxied = pos 0;
  provider_data = none;
  ssl_enabled = false;
  append_myip = false;
}

-- An alias that is up to date, and one that a forced update was asked for.
abbrev pub quiet : Alias
quiet = record {
  force_addr_update = false;
  ip_has_changed = false;
  address = codes "8.8.8.8";
  name = codes "home.example";
  update_required = false;
  last_update = 900;
}

abbrev pub forced : Alias
forced = record quiet { force_addr_update = true; ip_has_changed = true; update_required = true }

abbrev pub ctx : Ctx
ctx = record {
  cmd = no_cmd;
  update_period = 120;
  normal_update_period_sec = 120;
  error_update_period_sec = 60;
  forced_update_period_sec = 2592000;
  forced_update_fake_addr = false;
  cmd_check_period = 1;
  total_iterations = 2;
  num_iterations = 0;
  initialized = true;
  work_buf = [];
  work_buflen = 500;
  request_buf = [];
  request_buflen = 2500;
}

abbrev pub world : World
world = record { history = []; files = λ path. none; fault = false }

-- A plugin that sends the name, and takes any answer, none, or has a setup that fails.
abbrev pub accepting : Plugin
accepting = record { setup = none; request = λ c i a. (pos 12, a.name); response = λ t i a. 0 }

abbrev pub refusing : Plugin
refusing = record accepting { response = λ t i a. rc_ddns_rsp_notok }

abbrev pub failing_setup : Env → Ctx → Info → Alias → World → Ready
failing_setup env c i a w = record {
  rc = rc_error;
  request_buf = [];
  work_buf = [];
  provider_data = none;
  name = a.name;
  world = w;
}

abbrev pub unprepared : Plugin
unprepared = record accepting { setup = some failing_setup }

abbrev pub pass : Pass
pass = record { rc = 0; ctx = ctx; info = info; changed = 0; world = world }

abbrev pub table : Table
table = record { rc = 0; remember = 0; changed = 0; ctx = ctx; world = world }

abbrev pub provider : Provider
provider = record { info = info; plugin = accepting; aliases = forced ∷ quiet ∷ [] }

abbrev pub daemon : Daemon
daemon = record { ctx = ctx; providers = provider ∷ []; world = world }

abbrev pub asked : Found
asked = record { rc = 0; address = []; ctx = ctx; info = info; world = world }
