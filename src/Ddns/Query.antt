-- ===== src/Ddns/Query.antt =====
-- Asking for the current address (src/ddns.c, `get_address` and the functions below it): from a
-- command, an interface, or a server, with a built-in server as the fallback.
pub mod Laws
use inadyn.Prelude.{
  ℕ, zero, suc, ◌-◌, Bool, true, false, not, ◌&&◌, ◌||◌, Option, none, some, List, [], ◌∷◌, ◌++◌,
  ◌==◌, leb, if◌then◌else◌, length, take,
}
use inadyn.Prelude.Text.{Str, codes, contains, format, starts_with, strcmp_eq, strlcpy}
use inadyn.Prelude.Int.{ℤ, pos, negsuc}
use inadyn.Error.{rc_ok, rc_error, rc_invalid_pointer, rc_ddns_invalid_checkip_rsp}
use inadyn.World.{Env, World, Family, IfAddr, inet, inet6, unspec, piped, queried, emit}
use inadyn.Http.{Client, Trans, zero_trans, http_init, http_exit, http_transaction, c_string}
use inadyn.Ddns.State.{Alias, Info, Ctx, Provider, Options, ServerName, ddns_get_tcp_force}
use inadyn.Ddns.State.{server_name_len, server_url_len}
use inadyn.Ddns.Address.{Inet, is_address_valid, parse_my_address}
use inadyn.Ddns.Schedule.{compare_addresses}

abbrev pub ddns_my_ip_server : Str
ddns_my_ip_server = codes "ifconfig.me"

abbrev pub ddns_my_checkip_url : Str
ddns_my_checkip_url = codes "/ip"

-- DDNS_CHECKIP_SSL_UNSUPPORTED is -1.
abbrev pub ddns_my_ip_ssl : ℤ
ddns_my_ip_ssl = negsuc 0

abbrev pub crlf : Str
crlf = 13 ∷ 10 ∷ []

abbrev pub dyndns_checkip_http_request : Str
dyndns_checkip_http_request =
    codes "GET %s HTTP/1.0"
    ++ crlf
    ++ codes "Host: %s"
    ++ crlf
    ++ codes "User-Agent: %s"
    ++ crlf
    ++ crlf

-- What a way to ask gives: the address is meant where the code is 0.
pub record Found : Type 0 where
  pub rc : ℕ
  pub address : Str
  pub ctx : Ctx
  pub info : Info
  pub world : World

-- The return code of `parse_my_address`, with its address.
unfoldable pub found_in : Inet → Options → Str → Found → Found
found_in lib opts text f = elim (parse_my_address lib opts text) [
  | none ↦ record f { rc = 1 }
  | some address ↦ record f { rc = 0; address = address }
]

-- The client for the check: `init_context` made its remote name a pointer to the name of the proxy,
-- or else of the checkip server, so a change of that name is seen here.
abbrev checkip_client : Info → Client
checkip_client info = record info.checkip {
  remote_host = elim info.proxy_name.name [ [] ↦ info.checkip_name.name | c ∷ s ↦ c ∷ s ];
  ssl_enabled = info.checkip_ssl;
}

-- The state in which `server_transaction` has sent its request, whose length may pass the buffer.
abbrev at_request : Str → Found → Found
at_request request f = record f {
  ctx = record f.ctx { work_buf = []; request_buf = strlcpy f.ctx.request_buflen request };
  world =
      (if leb f.ctx.request_buflen (length request)
        then record f.world { fault = true }
        else f.world);
}

-- A status other than 200 takes the place of every other code. The response is handed on.
unfoldable pub server_transaction : Env → Found → Found × Trans
server_transaction env f₀ =
    let (rc, client, w) =
      http_init env (checkip_client f₀.info) (ddns_get_tcp_force f₀.info) f₀.world in
    let connected = record f₀ { rc = rc; info = record f₀.info { checkip = client }; world = w } in
    if rc == rc_ok
    then (let request =
          format dyndns_checkip_http_request
            (f₀.info.checkip_url ∷ f₀.info.checkip_name.name ∷ f₀.info.user_agent ∷ []) in
        let f = at_request request connected in
        let trans₀ = record zero_trans {
          req = f.ctx.request_buf;
          req_len = pos (length request);
          max_rsp_len = f.ctx.work_buflen - 1;
        } in
        let (rc', trans, w') = http_transaction env client trans₀ f.world in
        let (_, client', w'') = http_exit env client w' in
        (
          record f {
            rc = elim trans.status [
              | pos n ↦ if n == 200 then rc' else rc_ddns_invalid_checkip_rsp
              | negsuc n ↦ rc_ddns_invalid_checkip_rsp
            ];
            ctx = record f.ctx { work_buf = trans.rsp };
            info = record f.info { checkip = client' };
            world = w'';
          },
          trans,
        ))
    else (connected, zero_trans)

unfoldable pub get_address_remote : Env → Inet → Options → Found → Found
get_address_remote env lib opts f₀ = elim f₀.info.checkip_name.name [
  | [] ↦ record f₀ { rc = 1 }
  | c ∷ s ↦
      (let (f, trans) = server_transaction env f₀ in
        if f.rc == rc_ok
        then (if trans.rsp_len == 0
            then record f { rc = rc_invalid_pointer }
            else found_in lib opts trans.rsp_body f)
        else f)
]

-- fread may fill the whole buffer, and the NUL is then written behind it.
unfoldable pub shell_transaction : Env → Str → Found → Found
shell_transaction env cmd f =
    let request = strlcpy f.ctx.request_buflen (
      format (codes "INADYN_PROVIDER=\"%s\" INADYN_USER=\"%s\" %s")
        (f.info.system.name ∷ f.info.creds.username ∷ cmd ∷ [])) in
    let ctx = record f.ctx { request_buf = request } in
    let w = emit (piped request) f.world in
    elim (env.popen f.world.history) [
      | none ↦ record f { rc = env.errno f.world.history; ctx = ctx; world = w }
      | some output ↦ elim (take ctx.work_buflen output) [
        | [] ↦ record f { rc = rc_invalid_pointer; ctx = record ctx { work_buf = [] }; world = w }
        | c ∷ s ↦ record f {
          rc = 0;
          ctx = record ctx { work_buf = c_string (c ∷ s) };
          world = if leb ctx.work_buflen (length (c ∷ s)) then record w { fault = true } else w;
        }
      ]
    ]

unfoldable pub get_address_cmd : Env → Inet → Options → Found → Found
unfolding shell_transaction
get_address_cmd env lib opts f =
    let f' = shell_transaction env f.info.checkip_cmd f in
    if f'.rc == rc_ok then found_in lib opts f'.ctx.work_buf f' else f'

unfoldable pub get_ipv4_address_iface : Env → Inet → Options → Str → Found → Found
get_ipv4_address_iface env lib opts ifname f =
    let w = emit (queried ifname) f.world in
    elim (env.ifaddr_ioctl f.world.history) [
      | none ↦ record f { rc = 1; world = w }
      | some address ↦
          if is_address_valid lib opts inet address
          then record f { rc = 0; address = address; world = w }
          else record f { rc = 1; address = address; world = w }
    ]

-- The text before the first occurrence of `trailer`.
unfoldable pub cut_at : Str → Str → Str
cut_at trailer [] = []
cut_at trailer (c ∷ s) = if starts_with (c ∷ s) trailer then [] else c ∷ cut_at trailer s

-- IFNAMSIZ + 2, for "%" and the name of the interface.
abbrev trailer : Str → Str
trailer ifname = strlcpy 18 (b'%' ∷ ifname)

-- One round over the interfaces: the valid addresses of `ifname` are collected, a line for each.
unfoldable pub collect_address : Inet → Options → Str → ℕ → IfAddr → Str → Str
unfolding cut_at
collect_address lib opts ifname buflen entry text =
    if not (strcmp_eq entry.name ifname) then text else elim entry.family [
      | unspec ↦ text
      | _ ↦ elim entry.host [
        | none ↦ text
        | some host ↦
            if is_address_valid lib opts entry.family (cut_at (trailer ifname) host)
            then strlcpy buflen (text ++ cut_at (trailer ifname) host ++ 10 ∷ [])
            else text
      ]
    ]

unfoldable pub collect_addresses : Inet → Options → Str → ℕ → List IfAddr → Str → Str
collect_addresses lib opts ifname buflen [] text = text
collect_addresses lib opts ifname buflen (entry ∷ rest) text =
    collect_addresses lib opts ifname buflen rest
      (collect_address lib opts ifname buflen entry text)

unfoldable pub get_address_iface : Env → Inet → Options → Str → Found → Found
unfolding get_ipv4_address_iface
get_address_iface env lib opts ifname f = elim (env.ifaddrs f.world.history) [
  | none ↦
      get_ipv4_address_iface env lib opts ifname
        (record f { world = emit (queried ifname) f.world })
  | some entries ↦
      (let text = collect_addresses lib opts ifname f.ctx.work_buflen entries [] in
        found_in lib opts text (record f {
          ctx = record f.ctx { work_buf = text };
          world = emit (queried ifname) f.world;
        }))
]
