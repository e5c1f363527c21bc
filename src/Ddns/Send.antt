-- ===== src/Ddns/Send.antt =====
-- One update of one alias (`send_update` of src/ddns.c), and the entry of its callers.
pub mod Laws
use inadyn.Prelude.{
  ℕ, suc, ◌-◌, ◌≡◌, refl, Bool, true, false, Option, none, some, List, [], ◌∷◌, ◌==◌, leb,
  if◌then◌else◌,
}
use inadyn.Prelude.Text.{Str}
use inadyn.Prelude.Int.{ℤ, pos, negsuc, is_negative, pos_part}
use inadyn.Error.{rc_ok, rc_error}
use inadyn.World.{Env, World}
use inadyn.Http.{Client, Trans, zero_trans, http_init, http_exit, http_transaction}
use inadyn.Ddns.State.{Alias, Info, Ctx, Plugin, ddns_get_tcp_force}

-- What `send_update` changes, and its return code. `changed` is the counter behind the pointer of
-- that name.
pub record Sent : Type 0 where
  pub rc : ℕ
  pub ctx : Ctx
  pub info : Info
  pub alias : Alias
  pub changed : ℕ
  pub world : World

abbrev pub bool_int : Bool → ℤ
bool_int true = pos 1
bool_int false = pos 0

-- The label `exit`.
abbrev pub leave : Env → Sent → Client → Sent
leave env s client =
    let (_, client', w) = http_exit env client s.world in
    record s { info = record s.info { server = client' }; world = w }

-- From the request on: `len` is what the plugin returned, `s.ctx` holds the request. Its terminating
-- NUL is written at `len`, also where that is past the buffer.
abbrev pub transact : Env → Plugin → ℤ → Client → Sent → Sent
transact env plugin len client s =
    if is_negative len
    then leave env (record s { rc = rc_error }) client
    else (let w =
          (if leb s.ctx.request_buflen (pos_part len)
            then record s.world { fault = true }
            else s.world) in
        let trans₀ = record zero_trans {
          req = s.ctx.request_buf;
          req_len = len;
          max_rsp_len = s.ctx.work_buflen - 1;
        } in
        let (rc, trans, w') = http_transaction env client trans₀ w in
        let ctx = record s.ctx { work_buf = trans.rsp } in
        if rc == rc_ok
        then (let rc' = plugin.response trans s.info s.alias in
            if rc' == rc_ok
            then leave env
                (record s {
                  rc = rc';
                  ctx = ctx;
                  alias = record s.alias { force_addr_update = false };
                  changed = suc s.changed;
                  world = w';
                })
                client
            else leave env
                (record s {
                  rc = rc';
                  ctx = ctx;
                  alias = record s.alias { force_addr_update = true };
                  world = w';
                })
                client)
        else leave env
            (record s {
              rc = rc;
              ctx = ctx;
              alias = record s.alias { force_addr_update = true };
              world = w';
            })
            client)

-- From http_init on.
abbrev pub connect : Env → Plugin → Sent → Sent
connect env plugin s =
    let client₀ = record s.info.server { ssl_enabled = bool_int s.info.ssl_enabled } in
    let (rc, client, w) = http_init env client₀ (ddns_get_tcp_force s.info) s.world in
    let info = record s.info { server = client } in
    if rc == rc_ok
    then (let ctx₀ = record s.ctx { work_buf = []; request_buf = [] } in
        let (len, request) = plugin.request ctx₀ info s.alias in
        let ctx = record ctx₀ { request_buf = request } in
        transact env plugin len client (record s { ctx = ctx; info = info; world = w }))
    else record s {
      rc = rc;
      info = info;
      alias = record s.alias { force_addr_update = true };
      world = w;
    }

unfoldable pub send_update : Env → Plugin → Ctx → Info → Alias → ℕ → World → Sent
send_update env plugin ctx info alias changed w =
    let start : Sent = record {
      rc = 0;
      ctx = ctx;
      info = info;
      alias = alias;
      changed = changed;
      world = w;
    } in
    elim plugin.setup [
      | none ↦ connect env plugin start
      | some setup ↦
          (let r = setup env ctx info alias w in
            let ready = record start {
              rc = r.rc;
              ctx = record ctx { request_buf = r.request_buf; work_buf = r.work_buf };
              info = record info { provider_data = r.provider_data };
              alias = record alias { name = r.name };
              world = r.world;
            } in
            if r.rc == rc_ok then connect env plugin ready else ready)
    ]
