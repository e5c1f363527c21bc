-- ===== src/Conf/Provider.antt =====
-- One section of the file (`set_provider_opts` of src/conf.c), in the order of the code.
use inadyn.Prelude.{
  ℕ, zero, suc, Bool, true, false, Option, none, some, List, [], ◌∷◌, ◌==◌, leb, length, map,
  if◌then◌else◌,
}
use inadyn.Prelude.Text.{Str, codes, strlcpy, strcasecmp_eq}
use inadyn.Prelude.Int.{ℤ, pos, negsuc}
use inadyn.Tcp.{tcp_default_timeout}
use inadyn.Http.{Client}
use inadyn.Ddns.State.{
  Alias, Info, Provider, ServerName, System, server_name_len, server_url_len, username_len,
  password_len,
}
use inadyn.Ddns.Send.{bool_int}
use inadyn.Ddns.Query.{ddns_my_ip_server, ddns_my_checkip_url}
use inadyn.Plugins.Registry.{Entry, Registry, plugin_find}
use inadyn.Conf.Parsed.{Section}
use inadyn.Conf.Server.{Strtonum, getserver, cfg_getserver}

abbrev pub ddns_max_alias_number : ℕ
ddns_max_alias_number = 50

abbrev pub max_num_responses : ℕ
max_num_responses = 6

abbrev pub max_response_len : ℕ
max_response_len = 32

-- DDNS_CHECKIP_SSL_UNSUPPORTED and DDNS_CHECKIP_SSL_REQUIRED
abbrev pub ssl_unsupported : ℤ
ssl_unsupported = negsuc 0

abbrev pub ssl_required : ℤ
ssl_required = pos 3

-- `generic_responses` of plugins/generic.c
abbrev pub generic_responses : List Str
generic_responses =
    codes "OK"
    ∷ codes "good"
    ∷ codes "true"
    ∷ codes "updated"
    ∷ codes "success"
    ∷ codes "nochg"
    ∷ []

-- The global variables that a section falls back to.
pub record Defaults : Type 0 where
  pub script_cmd : Option Str
  pub user_agent : Str

-- http_construct
abbrev pub new_client : Client
new_client = record {
  remote_host = [];
  port = 0;
  timeout = tcp_default_timeout;
  ssl_enabled = pos 0;
  initialized = false;
}

-- A text longer than its buffer is not taken; one as long loses its last byte.
unfoldable pub store : ℕ → Option Str → Str → Str
store size none old = old
store size (some str) old = if leb (length str) size then strlcpy size str else old

-- The exact name first, then a part of it.
unfoldable pub find_system : Str → Registry → Option Entry
find_system name plugins = elim (plugin_find name false plugins) [
  | some e ↦ some e
  | none ↦ plugin_find name true plugins
]

-- The alias of a table that calloc cleared.
abbrev pub new_alias : Str → Alias
new_alias name = record {
  force_addr_update = false;
  ip_has_changed = false;
  address = [];
  name = strlcpy server_name_len name;
  update_required = false;
  last_update = 0;
}

-- The loop over the host names, with the room that is left in the table.
unfoldable pub add_aliases : ℕ → List (Option Str) → List Alias
add_aliases room [] = []
add_aliases room (none ∷ rest) = add_aliases room rest
add_aliases zero (some str ∷ rest) = add_aliases zero rest
add_aliases (suc room) (some str ∷ rest) = new_alias str ∷ add_aliases room rest

-- The loop over the responses.
unfoldable pub add_responses : ℕ → List (Option Str) → List Str
add_responses room [] = []
add_responses room (none ∷ rest) = add_responses room rest
add_responses zero (some str ∷ rest) = add_responses zero rest
add_responses (suc room) (some str ∷ rest) = strlcpy max_response_len str ∷ add_responses room rest

unfoldable pub server_responses : List (Option Str) → List Str
unfolding add_responses
server_responses [] = add_responses max_num_responses (map some generic_responses)
server_responses (r ∷ rest) = add_responses max_num_responses (r ∷ rest)

-- What the plugin says of its servers: `none` is the jump to `error`.
unfoldable pub set_servers : Strtonum → System → Info → Option Info
set_servers strtonum system info = elim (getserver strtonum system.checkip_name) [
  | none ↦ none
  | some checkip ↦
      if leb (length system.checkip_url) server_url_len
      then elim (getserver strtonum system.server_name) [
        | none ↦ none
        | some server ↦
            if leb (length system.server_url) server_url_len
            then some (record info {
              system = system;
              checkip_name = checkip;
              checkip_url = strlcpy server_url_len system.checkip_url;
              server_name = server;
              server_url = strlcpy server_url_len system.server_url;
            })
            else none
      ]
      else none
]

abbrev pub or_empty : Option Str → Str
or_empty none = []
or_empty (some s) = s

unfoldable pub set_options : Section → Info → Info
unfolding store
set_options cfg info = record info {
  wildcard = cfg.wildcard;
  ttl = cfg.ttl;
  proxied = elim cfg.proxied [ none ↦ negsuc 0 | some b ↦ bool_int b ];
  ssl_enabled = cfg.ssl;
  creds = record info.creds {
    username = store username_len cfg.username info.creds.username;
    password = store password_len cfg.password info.creds.password;
  };
  ifname = or_empty cfg.iface;
}

-- For a custom provider only.
unfoldable pub set_custom : Strtonum → Section → Info → Info
unfolding store server_responses cfg_getserver
set_custom strtonum cfg info = record info {
  append_myip = cfg.append_myip;
  server_name = elim (cfg_getserver strtonum cfg.ddns_server) [
    | none ↦ info.server_name
    | some n ↦ n
  ];
  server_url = store server_url_len cfg.ddns_path info.server_url;
  server_response = server_responses cfg.ddns_response;
}

-- `switch (system->checkip_ssl)`
unfoldable pub known_checkip_ssl : ℤ → Bool → Bool → ℤ
known_checkip_ssl (negsuc zero) ssl checkip_ssl = pos 0
known_checkip_ssl (negsuc (suc n)) ssl checkip_ssl = if checkip_ssl then bool_int ssl else pos 0
known_checkip_ssl (pos n) ssl checkip_ssl =
    if n == 3 then pos 1 else if checkip_ssl then bool_int ssl else pos 0

-- The path of a server that the section names: "/" where none is given, or one that is too long.
unfoldable pub checkip_path : Option Str → Str
checkip_path none = codes "/"
checkip_path (some str) =
    if leb (length str) server_url_len then strlcpy server_url_len str else codes "/"

-- The server that the section names.
unfoldable pub set_checkip_server : ServerName → Section → Info → Info
unfolding checkip_path
set_checkip_server n cfg info =
    if strcasecmp_eq n.name (codes "default")
    then record info {
      checkip_name = record n { name = ddns_my_ip_server };
      checkip_url = ddns_my_checkip_url;
      checkip_ssl = bool_int cfg.checkip_ssl;
    }
    else record info {
      checkip_name = n;
      checkip_url = checkip_path cfg.checkip_path;
      checkip_ssl = bool_int cfg.checkip_ssl;
    }

unfoldable pub set_checkip : Strtonum → Section → Info → Info
unfolding known_checkip_ssl set_checkip_server cfg_getserver
set_checkip strtonum cfg info = elim (cfg_getserver strtonum cfg.checkip_server) [
  | none ↦ record info {
    checkip_ssl = known_checkip_ssl info.system.checkip_ssl info.ssl_enabled cfg.checkip_ssl;
  }
  | some n ↦ set_checkip_server n cfg info
]

-- An empty command counts as none.
unfoldable pub checkip_command : Option Str → Option Str → Str
checkip_command (some (c ∷ s)) script_cmd = c ∷ s
checkip_command (some []) script_cmd = or_empty script_cmd
checkip_command none script_cmd = or_empty script_cmd

-- The setting of a section, or else the global one.
abbrev pub or_default : Str → Option Str → Str
or_default agent none = agent
or_default agent (some own) = own

unfoldable pub set_agent : Defaults → Section → Info → Info
unfolding checkip_command
set_agent defaults cfg info = record info {
  checkip_cmd = checkip_command cfg.checkip_command defaults.script_cmd;
  user_agent = or_default defaults.user_agent cfg.user_agent;
}

-- The structure after calloc and http_construct.
abbrev pub new_info : System → Info
new_info system = record {
  creds = record { username = []; password = []; encoded_password = []; encoded = false };
  system = system;
  user_agent = [];
  server_name = record { name = []; port = 0 };
  server_url = [];
  server = new_client;
  server_response = [];
  ifname = [];
  checkip_name = record { name = []; port = 0 };
  checkip_url = [];
  checkip_ssl = pos 0;
  checkip = new_client;
  checkip_cmd = [];
  proxy_name = record { name = []; port = 0 };
  wildcard = false;
  ttl = pos 0;
  proxied = pos 0;
  provider_data = none;
  ssl_enabled = false;
  append_myip = false;
}

unfoldable pub set_info : Strtonum → Defaults → Section → Bool → Info → Info
unfolding set_options set_custom set_checkip set_agent
set_info strtonum defaults cfg custom info =
    let info₁ = set_options cfg info in
    let info₂ = (if custom then set_custom strtonum cfg info₁ else info₁) in
    set_agent defaults cfg (set_checkip strtonum cfg info₂)

abbrev pub provider_name : Section → Bool → Str
provider_name cfg custom = if custom then codes "custom" else cfg.title

-- `none` stands for a result of 1.
unfoldable pub set_provider_opts : Strtonum → Registry → Defaults → Section → Bool → Option Provider
unfolding find_system set_servers set_info add_aliases
set_provider_opts strtonum plugins defaults cfg custom =
    elim (find_system (provider_name cfg custom) plugins) [
      | none ↦ none
      | some e ↦ elim (set_servers strtonum e.system (new_info e.system)) [
        | none ↦ none
        | some info ↦ some (record {
          info = set_info strtonum defaults cfg custom info;
          plugin = e.plugin;
          aliases = add_aliases ddns_max_alias_number cfg.hostname;
        })
      ]
    ]
