-- ===== src/Ddns/Loop/Counters.antt =====
-- A check leaves the counters and the periods of the context alone (src/ddns.c).
use inadyn.Prelude.{List, [], ◌∷◌, arith, if◌then◌else◌}
use inadyn.Prelude.Text.{Str}
use inadyn.World.{Env, World, drew, emit}
use inadyn.Ddns.State.{Alias, Ctx, Plugin, Provider, Options}
use inadyn.Ddns.Send.{send_update}
use inadyn.Ddns.Schedule.{check_alias_update_table}
use inadyn.Ddns.Send.Laws.{SameCounters, send_update_ctx}
use inadyn.Ddns.Update.{
  Pass, Table, update_one, update_aliases, update_providers, fake_aliases, fake_providers,
  fake_pass, update_alias_table,
}
use inadyn.Ddns.Update.{fake_address, remember_rc}
use inadyn.Ddns.Address.{Inet}
use inadyn.Ddns.Query.{
  Found, server_transaction, get_address_remote, get_address_cmd, get_address_iface, found_in,
}
use inadyn.Ddns.Backend.{with_default, retry_default, ask_remote, get_address_backend, get_address}
use inadyn.Ddns.Loop.{Daemon, check_address}

SameCounters-trans : {a b c : Ctx} → SameCounters a b → SameCounters b c → SameCounters a c
SameCounters-trans h k = ground arith

SameCounters-refl : (a : Ctx) → SameCounters a a
SameCounters-refl a = ground arith

module _ (env : Env) (opts : Options) where
  update_one_ctx :
      (plugin : Plugin) (alias : Alias) (s : Pass)
      → SameCounters (update_one env opts plugin alias s).2.ctx s.ctx
  unfolding update_one
  update_one_ctx plugin alias s =
      ground (arith, send_update_ctx env plugin s.ctx s.info alias s.changed s.world)

  update_aliases_ctx :
      (plugin : Plugin) (aliases : List Alias) (s : Pass)
      → SameCounters (update_aliases env opts plugin aliases s).1.ctx s.ctx
  unfolding update_aliases
  update_aliases_ctx plugin [] s = SameCounters-refl s.ctx
  update_aliases_ctx plugin (alias ∷ rest) s = ground (
    arith,
    update_one_ctx plugin alias s,
    update_aliases_ctx plugin rest (update_one env opts plugin alias s).2,
  )

  update_providers_ctx :
      (ps : List Provider) (t : Table) → SameCounters (update_providers env opts ps t).1.ctx t.ctx
  unfolding update_providers
  update_providers_ctx [] t = SameCounters-refl t.ctx
  update_providers_ctx (p ∷ rest) t =
      let s₀ : Pass = record {
        rc = t.rc;
        ctx = t.ctx;
        info = p.info;
        changed = t.changed;
        world = t.world;
      } in
      let s = (update_aliases env opts p.plugin p.aliases s₀).1 in
      let t' : Table = record {
        rc = s.rc;
        remember = remember_rc s.rc t.remember;
        changed = s.changed;
        ctx = s.ctx;
        world = s.world;
      } in
      SameCounters-trans (update_providers_ctx rest t') (update_aliases_ctx p.plugin p.aliases s₀)

  fake_aliases_ctx :
      (plugin : Plugin) (aliases : List Alias) (s : Pass)
      → SameCounters (fake_aliases env plugin aliases s).1.ctx s.ctx
  unfolding fake_aliases
  fake_aliases_ctx plugin [] s = SameCounters-refl s.ctx
  fake_aliases_ctx plugin (alias ∷ rest) s =
      let faked = record alias { address = fake_address (env.rand s.world.history) } in
      let sent = send_update env plugin s.ctx s.info faked 0 (emit drew s.world) in
      let s' : Pass = record s {
        rc = sent.rc;
        ctx = sent.ctx;
        info = sent.info;
        world = sent.world;
      } in
      ground (
        arith,
        send_update_ctx env plugin s.ctx s.info faked 0 (emit drew s.world),
        fake_aliases_ctx plugin rest s,
        fake_aliases_ctx plugin rest s',
      )

  fake_providers_ctx :
      (ps : List Provider) (t : Table) → SameCounters (fake_providers env ps t).1.ctx t.ctx
  unfolding fake_providers
  fake_providers_ctx [] t = SameCounters-refl t.ctx
  fake_providers_ctx (p ∷ rest) t =
      let s₀ : Pass = record {
        rc = t.rc;
        ctx = t.ctx;
        info = p.info;
        changed = t.changed;
        world = t.world;
      } in
      let s = (fake_aliases env p.plugin p.aliases s₀).1 in
      SameCounters-trans
        (fake_providers_ctx rest (record t { rc = s.rc; ctx = s.ctx; world = s.world }))
        (fake_aliases_ctx p.plugin p.aliases s₀)

  update_alias_table_ctx :
      (ctx : Ctx) (ps : List Provider) (w : World)
      → SameCounters (update_alias_table env opts ctx ps w).1.ctx ctx
  unfolding update_alias_table fake_pass
  update_alias_table_ctx ctx ps w =
      let start : Table = record { rc = 0; remember = 0; changed = 0; ctx = ctx; world = w } in
      let (ps', t) =
        (if ctx.forced_update_fake_addr then fake_pass env ps start else (ps, start)) in
      SameCounters-trans (update_providers_ctx ps' t) (ground (arith, fake_providers_ctx ps start))

module _ (env : Env) (lib : Inet) (opts : Options) where
  found_in_ctx : (text : Str) (f : Found) → SameCounters (found_in lib opts text f).ctx f.ctx
  unfolding found_in
  found_in_ctx text f = ground arith

  remote_ctx : (f : Found) → SameCounters (get_address_remote env lib opts f).ctx f.ctx
  unfolding get_address_remote server_transaction
  remote_ctx f =
      ground
        (arith, found_in_ctx (server_transaction env f).1.rsp_body (server_transaction env f).0)

  cmd_ctx : (f : Found) → SameCounters (get_address_cmd env lib opts f).ctx f.ctx
  unfolding get_address_cmd found_in
  cmd_ctx f = ground arith

  iface_ctx :
      (ifname : Str) (f : Found) → SameCounters (get_address_iface env lib opts ifname f).ctx f.ctx
  unfolding get_address_iface found_in
  iface_ctx ifname f = ground arith

  ask_remote_ctx : (f : Found) → SameCounters (ask_remote env lib opts f).ctx f.ctx
  unfolding ask_remote retry_default
  ask_remote_ctx f =
      let f' = get_address_remote env lib opts f in
      ground (arith, remote_ctx f, remote_ctx (record f' { info = with_default f'.info }))

  backend_ctx : (f : Found) → SameCounters (get_address_backend env lib opts f).ctx f.ctx
  unfolding get_address_backend
  backend_ctx f₀ =
      let f : Found = record f₀ { address = [] } in
      ground (arith, cmd_ctx f, iface_ctx f.info.ifname f, iface_ctx opts.iface f, ask_remote_ctx f)

  get_address_ctx :
      (ctx : Ctx) (ps : List Provider) (w : World)
      → SameCounters (get_address env lib opts ctx ps w).0 ctx
  unfolding get_address
  get_address_ctx ctx [] w = SameCounters-refl ctx
  get_address_ctx ctx (p ∷ rest) w =
      let f₀ : Found = record { rc = 0; address = []; ctx = ctx; info = p.info; world = w } in
      let f = get_address_backend env lib opts f₀ in
      SameCounters-trans (get_address_ctx f.ctx rest f.world) (backend_ctx f₀)

  -- One check of all addresses, with its queries and updates, changes no setting and no counter.
  pub check_address_ctx : (d : Daemon) → SameCounters (check_address env lib opts d).1.ctx d.ctx
  unfolding check_address
  check_address_ctx d =
      let (ctx, ps, w) = get_address env lib opts d.ctx d.providers d.world in
      let (ps', w') = check_alias_update_table env ctx ps w in
      SameCounters-trans (update_alias_table_ctx env opts ctx ps' w')
        (get_address_ctx d.ctx d.providers d.world)
