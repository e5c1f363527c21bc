-- ===== src/Ddns/Update/Healthy.antt =====
-- What a pass over the aliases reaches when nothing fails (src/ddns.c).
use inadyn.Prelude.{
  ℕ, suc, take, leb, ◌-◌, ◌+◌, ◌≡◌, refl, true, false, some, List, Option-cases, inl, inr, [], ◌∷◌,
  All, not, ◌||◌, arith, if◌then◌else◌,
}
use inadyn.Prelude.Int.{ℤ, pos_part, is_negative}
use inadyn.World.{Env, World, Event, asked_time, emit, sent}
use inadyn.Http.{Client, Trans, zero_trans, http_init, http_exit, http_transaction}
use inadyn.Ddns.State.{
  Alias, Info, Ctx, Plugin, Provider, Options, Ready, compat, ddns_get_tcp_force,
}
use inadyn.Ddns.Schedule.{time_to_check, check_alias, check_aliases, check_alias_update_table}
use inadyn.Ddns.Send.Laws.{send_update_alias}
use inadyn.Ddns.Update.{
  Pass, Table, update_one, update_aliases, update_providers, update_alias_table, remember_rc,
}
use inadyn.Ddns.Send.{Sent, bool_int, transact, connect, send_update}

-- Each connection is made, and each transfer succeeds.
pub record IsOnline (env : Env) : Type 0 where
  pub opens : (h : List Event) → env.ssl_open h ≡ 0
  pub sends : (h : List Event) → env.ssl_send h ≡ 0
  pub receives : (h : List Event) → (env.ssl_recv h).0 ≡ 0

-- Each setup step, where there is one, succeeds, each request can be composed, and each answer is
-- accepted.
pub record IsServed (env : Env) (plugin : Plugin) : Type 0 where
  pub prepares :
      (setup : Env → Ctx → Info → Alias → World → Ready) (ctx : Ctx) (info : Info) (alias : Alias)
      (w : World)
      → plugin.setup ≡ some setup
      → (setup env ctx info alias w).rc ≡ 0
  pub composes :
      (ctx : Ctx) (info : Info) (alias : Alias)
      → is_negative (plugin.request ctx info alias).0 ≡ false
  pub accepts : (trans : Trans) (info : Info) (alias : Alias) → plugin.response trans info alias ≡ 0

module _ (env : Env) (online : IsOnline env) where
  http_init-IsOnline :
      (client : Client) (force : ℕ) (w : World)
      → let (rc, client', w') = http_init env client force w in
        (rc ≡ 0) × (client'.initialized ≡ true)
  unfolding http_init
  http_init-IsOnline client force w = ground (arith, online.opens w.history)

  http_transaction-IsOnline :
      (client : Client) (trans : Trans) (w : World)
      → client.initialized ≡ true
      → (http_transaction env client trans w).0 ≡ 0
  unfolding http_transaction
  http_transaction-IsOnline client trans w h = ground (
    arith,
    online.sends w.history,
    online.receives (sent (take (pos_part trans.req_len) trans.req) ∷ w.history),
  )

  transact-IsOnline :
      (plugin : Plugin) (len : ℤ) (client : Client) (s : Sent)
      → IsServed env plugin
      → is_negative len ≡ false
      → client.initialized ≡ true
      → (transact env plugin len client s).rc ≡ 0
  unfolding http_exit
  transact-IsOnline plugin len client s served composed ready =
      let w =
        (if leb s.ctx.request_buflen (pos_part len)
          then record s.world { fault = true }
          else s.world) in
      let trans₀ = record zero_trans {
        req = s.ctx.request_buf;
        req_len = len;
        max_rsp_len = s.ctx.work_buflen - 1;
      } in
      let trans = (http_transaction env client trans₀ w).1 in
      ground (
        arith,
        http_transaction-IsOnline client trans₀ w ready,
        served.accepts trans s.info s.alias,
      )

  connect-IsOnline :
      (plugin : Plugin) (s : Sent) → IsServed env plugin → (connect env plugin s).rc ≡ 0
  connect-IsOnline plugin s served =
      let client₀ = record s.info.server { ssl_enabled = bool_int s.info.ssl_enabled } in
      let r = http_init env client₀ (ddns_get_tcp_force s.info) s.world in
      let i = http_init-IsOnline client₀ (ddns_get_tcp_force s.info) s.world in
      let info = record s.info { server = r.1 } in
      let ctx₀ = record s.ctx { work_buf = []; request_buf = [] } in
      let req = plugin.request ctx₀ info s.alias in
      let t =
        transact-IsOnline plugin req.0 r.1
          (record s { ctx = record ctx₀ { request_buf = req.1 }; info = info; world = r.2 }) served
          (served.composes ctx₀ info s.alias) i.1 in
      rw i.0 t

  -- One update: it succeeds.
  send_update-IsOnline :
      (plugin : Plugin) (ctx : Ctx) (info : Info) (alias : Alias) (n : ℕ) (w : World)
      → IsServed env plugin
      → (send_update env plugin ctx info alias n w).rc ≡ 0
  unfolding send_update
  send_update-IsOnline plugin ctx info alias n w served =
      let start : Sent = record {
        rc = 0;
        ctx = ctx;
        info = info;
        alias = alias;
        changed = n;
        world = w;
      } in
      elim (Option-cases plugin.setup) [
        | inl e ↦ rw (send_update, e) (connect-IsOnline plugin start served)
        | inr (setup, e) ↦
            (let r = setup env ctx info alias w in
              let ready = record start {
                rc = r.rc;
                ctx = record ctx { request_buf = r.request_buf; work_buf = r.work_buf };
                info = record info { provider_data = r.provider_data };
                alias = record alias { name = r.name };
                world = r.world;
              } in
              rw (send_update, e, served.prepares setup ctx info alias w e)
                (connect-IsOnline plugin ready served))
      ]

-- An alias that is forced is due, which holds after each check.
abbrev pub IsChecked : Alias → Type 0
IsChecked a = (a.update_required || not a.force_addr_update) ≡ true

-- An alias that nothing is to be done for.
abbrev pub IsSettled : Alias → Type 0
IsSettled a = (a.update_required ≡ false) × (a.force_addr_update ≡ false)

abbrev pub due : List Alias → ℕ
due [] = 0
due (a ∷ rest) = if a.update_required then suc (due rest) else due rest

abbrev pub all_due : List Provider → ℕ
all_due [] = 0
all_due (p ∷ rest) = due p.aliases + all_due rest

module _ (env : Env) (opts : Options) (online : IsOnline env) (mode : opts.exec_mode ≡ compat) where
  update_one-IsSettled :
      (plugin : Plugin) (alias : Alias) (s : Pass)
      → IsServed env plugin
      → IsChecked alias
      → let (halt, alias', s') = update_one env opts plugin alias s in
        (halt ≡ false)
        × IsSettled alias'
        × (s'.rc ≡ 0)
        × (s'.changed ≡ (if alias.update_required then suc s.changed else s.changed))
  unfolding update_one
  update_one-IsSettled plugin alias s served checked = ground (
    arith,
    send_update-IsOnline env online plugin s.ctx s.info alias s.changed s.world served,
    send_update_alias env plugin s.ctx s.info alias s.changed s.world,
  )

  update_aliases-IsSettled :
      (plugin : Plugin) (aliases : List Alias) (s : Pass)
      → IsServed env plugin
      → All IsChecked aliases
      → s.rc ≡ 0
      → let (aliases', s') = update_aliases env opts plugin aliases s in
        All IsSettled aliases' × (s'.rc ≡ 0) × (s'.changed ≡ s.changed + due aliases)
  unfolding update_aliases
  update_aliases-IsSettled plugin [] s served checked ok = ground arith
  update_aliases-IsSettled plugin (alias ∷ rest) s served checked ok =
      let o = update_one-IsSettled plugin alias s served checked.0 in
      let on =
        update_aliases-IsSettled plugin rest (update_one env opts plugin alias s).2 served checked.1
          (ground (arith, o)) in
      ground (arith, o, on)

  update_providers-IsSettled :
      (ps : List Provider) (t : Table)
      → All (λ (p : Provider). IsServed env p.plugin) ps
      → All (λ (p : Provider). All IsChecked p.aliases) ps
      → t.rc ≡ 0
      → t.remember ≡ 0
      → let (ps', t') = update_providers env opts ps t in
        All (λ (p : Provider). All IsSettled p.aliases) ps'
        × (t'.rc ≡ 0)
        × (t'.remember ≡ 0)
        × (t'.changed ≡ t.changed + all_due ps)
  unfolding update_providers remember_rc
  update_providers-IsSettled [] t served checked ok clean = ground arith
  update_providers-IsSettled (p ∷ rest) t served checked ok clean =
      let s₀ : Pass = record {
        rc = t.rc;
        ctx = t.ctx;
        info = p.info;
        changed = t.changed;
        world = t.world;
      } in
      let u = update_aliases-IsSettled p.plugin p.aliases s₀ served.0 checked.0 ok in
      let s = (update_aliases env opts p.plugin p.aliases s₀).1 in
      let t' : Table = record {
        rc = s.rc;
        remember = remember_rc s.rc t.remember;
        changed = s.changed;
        ctx = s.ctx;
        world = s.world;
      } in
      let on =
        update_providers-IsSettled rest t' served.1 checked.1 (ground (arith, u))
          (ground (arith, u, clean)) in
      ground (arith, u, on)

check_alias-IsChecked :
    (now : ℕ) (ctx : Ctx) (alias : Alias) → IsChecked (check_alias now ctx alias)
unfolding check_alias time_to_check
check_alias-IsChecked now ctx alias = ground arith

module _ (env : Env) (ctx : Ctx) where
  check_aliases-IsChecked :
      (aliases : List Alias) (w : World) → All IsChecked (check_aliases env ctx aliases w).0
  unfolding check_aliases
  check_aliases-IsChecked [] w = ground arith
  check_aliases-IsChecked (a ∷ rest) w = (
    check_alias-IsChecked (env.time w.history) ctx a,
    check_aliases-IsChecked rest (emit asked_time w),
  )

  check_alias_update_table-IsChecked :
      (ps : List Provider) (w : World)
      → All (λ (p : Provider). IsServed env p.plugin) ps
      → let ps' = (check_alias_update_table env ctx ps w).0 in
        All (λ (p : Provider). IsServed env p.plugin) ps'
        × All (λ (p : Provider). All IsChecked p.aliases) ps'
  unfolding check_alias_update_table
  check_alias_update_table-IsChecked [] w served = ground arith
  check_alias_update_table-IsChecked (p ∷ rest) w served =
      let on =
        check_alias_update_table-IsChecked rest (check_aliases env ctx p.aliases w).1 served.1 in
      ((served.0, on.0), (check_aliases-IsChecked p.aliases w, on.1))

start_table : Ctx → World → Table
start_table ctx w = record { rc = 0; remember = 0; changed = 0; ctx = ctx; world = w }

update_alias_table_real :
    (env : Env) (opts : Options) (ctx : Ctx) (ps : List Provider) (w : World)
    → ctx.forced_update_fake_addr ≡ false
    → update_alias_table env opts ctx ps w ≡ update_providers env opts ps (start_table ctx w)
unfolding update_alias_table start_table
update_alias_table_real env opts ctx ps w real = ground arith

-- In compatibility mode and without fake addresses, where every connection and transfer succeeds, and
-- with every plugin each setup step, where there is one, succeeds, each request can be composed and each
-- answer is accepted, one check and the update behind it bring every alias up to date: none is due or
-- forced any more, as many were changed as the check found due, and the pass reports success.
pub update_alias_table-IsSettled :
    (env : Env) (opts : Options) (ctx : Ctx) (ps : List Provider) (w : World)
    → IsOnline env
    → opts.exec_mode ≡ compat
    → ctx.forced_update_fake_addr ≡ false
    → All (λ (p : Provider). IsServed env p.plugin) ps
    → let (ps₁, w₁) = check_alias_update_table env ctx ps w in
      let (ps₂, t) = update_alias_table env opts ctx ps₁ w₁ in
      All (λ (p : Provider). All IsSettled p.aliases) ps₂
      × (t.rc ≡ 0)
      × (t.remember ≡ 0)
      × (t.changed ≡ all_due ps₁)
unfolding start_table
update_alias_table-IsSettled env opts ctx ps w online mode real served =
    let r = check_alias_update_table env ctx ps w in
    let c = check_alias_update_table-IsChecked env ctx ps w served in
    let u =
      update_providers-IsSettled env opts online mode r.0 (start_table ctx r.1) c.0 c.1 refl refl in
    rw (update_alias_table_real env opts ctx r.0 r.1 real) (u.0, u.1, u.2, omega (arith, u.3))
