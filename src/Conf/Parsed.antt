-- ===== src/Conf/Parsed.antt =====
-- What the parser hands to src/conf.c: the values of the options, with their defaults filled in. An
-- option without a value is `none`; so is an element of a list that cannot be read.
use inadyn.Prelude.{ℕ, Bool, Option, List}
use inadyn.Prelude.Text.{Str}
use inadyn.Prelude.Int.{ℤ}

-- A `provider` or a `custom` section. The last three options exist in the latter only.
pub record Section : Type 0 where
  pub title : Str
  pub username : Option Str
  pub password : Option Str
  pub hostname : List (Option Str)
  pub alias : List (Option Str)
  pub ssl : Bool
  pub wildcard : Bool
  pub ttl : ℤ
  pub proxied : Option Bool
  pub iface : Option Str
  pub checkip_server : Option Str
  pub checkip_path : Option Str
  pub checkip_ssl : Bool
  pub checkip_command : Option Str
  pub user_agent : Option Str
  pub append_myip : Bool
  pub ddns_server : Option Str
  pub ddns_path : Option Str
  pub ddns_response : List (Option Str)

-- The whole file.
pub record ConfFile : Type 0 where
  pub verify_address : Bool
  pub fake_address : Bool
  pub allow_ipv6 : Bool
  pub secure_ssl : Bool
  pub broken_rtc : Bool
  pub ca_trust_file : Option Str
  pub period : ℕ
  pub iterations : ℕ
  pub forced_update : ℕ
  pub iface : Option Str
  pub user_agent : Option Str
  pub provider : List Section
  pub custom : List Section
