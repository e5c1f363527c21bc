-- ===== src/Ddns/Backend.antt =====
-- The order in which the ways to ask are tried, and the round over all providers
-- (`get_address_backend` and `get_address` of src/ddns.c).
pub mod Laws
use inadyn.Prelude.{ℕ, Bool, true, false, List, [], ◌∷◌, ◌==◌, if◌then◌else◌}
use inadyn.Prelude.Text.{Str, contains}
use inadyn.Error.{rc_ok}
use inadyn.World.{Env, World}
use inadyn.Ddns.State.{Info, Ctx, Provider, Options}
use inadyn.Ddns.Address.{Inet}
use inadyn.Ddns.Schedule.{compare_addresses}
use inadyn.Ddns.Query.{Found, get_address_cmd, get_address_iface, get_address_remote}
use inadyn.Ddns.Query.{ddns_my_ip_server, ddns_my_checkip_url, ddns_my_ip_ssl}

-- `info` with the built-in server in place of its own.
abbrev pub with_default : Info → Info
with_default info = record info {
  checkip_name = record info.checkip_name { name = ddns_my_ip_server };
  checkip_url = ddns_my_checkip_url;
  checkip_ssl = ddns_my_ip_ssl;
}

-- "restore backup"
abbrev pub restored : Info → Info → Info
restored backup info = record info {
  checkip_name = record info.checkip_name { name = backup.checkip_name.name };
  checkip_url = backup.checkip_url;
  checkip_ssl = backup.checkip_ssl;
}

-- The second attempt, with the built-in server.
unfoldable pub retry_default : Env → Inet → Options → Found → Found
retry_default env lib opts f =
    let f' = get_address_remote env lib opts (record f { info = with_default f.info }) in
    record f' { rc = if f'.rc == rc_ok then 0 else 1; info = restored f.info f'.info }

-- From the remote service on.
unfoldable pub ask_remote : Env → Inet → Options → Found → Found
ask_remote env lib opts f =
    let f' = get_address_remote env lib opts f in
    if f'.rc == rc_ok
    then f'
    else if contains f'.info.checkip_name.name ddns_my_ip_server
    then record f' { rc = 1 }
    else retry_default env lib opts f'

unfoldable pub get_address_backend : Env → Inet → Options → Found → Found
get_address_backend env lib opts f₀ =
    let f = record f₀ { address = [] } in
    elim f.info.checkip_cmd [
      | c ∷ s ↦ get_address_cmd env lib opts f
      | [] ↦ elim f.info.ifname [
        | c ∷ s ↦ get_address_iface env lib opts f.info.ifname f
        | [] ↦ elim opts.iface [
          | c ∷ s ↦ get_address_iface env lib opts opts.iface f
          | [] ↦ ask_remote env lib opts f
        ]
      ]
    ]

-- A provider whose address cannot be had is passed over: its aliases stay as they are.
unfoldable pub get_address :
    Env → Inet → Options → Ctx → List Provider → World → Ctx × List Provider × World
get_address env lib opts ctx [] w = (ctx, [], w)
get_address env lib opts ctx (p ∷ rest) w =
    let f =
      get_address_backend env lib opts
        (record { rc = 0; address = []; ctx = ctx; info = p.info; world = w }) in
    let aliases' = (if f.rc == rc_ok then compare_addresses f.address p.aliases else p.aliases) in
    let (ctx', rest', w') = get_address env lib opts f.ctx rest f.world in
    (ctx', record p { info = f.info; aliases = aliases' } ∷ rest', w')
