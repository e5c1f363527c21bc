-- ===== src/Ddns/Update.antt =====
-- The pass over all aliases (`update_alias_table` of src/ddns.c) and the script that follows an
-- update (`os_shell_execute` of src/os.c).
pub mod Fake
pub mod Healthy
pub mod Real
pub mod Remember
use inadyn.Prelude.{
  ℕ, zero, suc, ◌+◌, ◌/◌, ◌%◌, ◌≡◌, refl, Bool, true, false, not, ◌&&◌, ◌||◌, Option, none, some,
  List, [], ◌∷◌, ◌++◌, ◌==◌, ltb, if◌then◌else◌,
}
use inadyn.Prelude.Text.{Str, codes, strlcpy}
use inadyn.Error.{rc_ok, rc_os_fork_failure, rc_ddns_rsp_notok, rc_ddns_rsp_auth_fail}
use inadyn.Error.{rc_ddns_rsp_retry_later, rc_ddns_rsp_too_frequent}
use inadyn.World.{Env, World, executed, drew, slept, asked_time, emit}
use inadyn.Cache.{write_cache_file}
use inadyn.Ddns.State.{Alias, Info, Ctx, Plugin, Provider, Options, ExecMode, compat, event}
use inadyn.Ddns.State.{max_address_len}
use inadyn.Ddns.Send.{Sent, send_update}

-- The child's environment carries the arguments; its exit status is not waited for.
unfoldable pub os_shell_execute : Env → Str → Str → Str → Str → ℕ → World → ℕ × World
os_shell_execute env cmd ip name event_name error w =
    if env.can_fork w.history
    then (0, emit (executed cmd ip name event_name error) w)
    else (rc_os_fork_failure, w)

-- The variables of the pass: `rc`, `anychange`, and what it writes.
pub record Pass : Type 0 where
  pub rc : ℕ
  pub ctx : Ctx
  pub info : Info
  pub changed : ℕ
  pub world : World

-- "Run command or script on successful update."
unfoldable pub run_script : Env → Options → Alias → Str → Pass → Pass
unfolding os_shell_execute
run_script env opts alias event_name s = elim opts.script_exec [
  | none ↦ s
  | some cmd ↦ record s {
    world = (os_shell_execute env cmd alias.address alias.name event_name s.rc s.world).1;
  }
]

-- What follows a `send_update` that returned 0.
unfoldable pub record_success : Env → Options → Alias → Pass → Alias × Pass
record_success env opts alias s =
    let now = env.time s.world.history in
    let alias' = record alias { update_required = false; last_update = now } in
    let (_, w) =
      write_cache_file env opts.cache_dir alias' s.info.system.name (emit asked_time s.world) in
    (alias', record s { world = w })

-- One round of the inner loop; the flag is its `break`.
unfoldable pub update_one : Env → Options → Plugin → Alias → Pass → Bool × Alias × Pass
unfolding run_script record_success
update_one env opts plugin alias s =
    if alias.update_required
    then (let sent = send_update env plugin s.ctx s.info alias s.changed s.world in
        let s' : Pass = record {
          rc = sent.rc;
          ctx = sent.ctx;
          info = sent.info;
          changed = sent.changed;
          world = sent.world;
        } in
        if sent.rc == rc_ok
        then (let (alias', s'') = record_success env opts sent.alias s' in
            (false, alias', run_script env opts alias' (codes "update") s''))
        else elim opts.exec_mode [
          | compat ↦ (true, sent.alias, s')
          | event ↦ (false, sent.alias, run_script env opts sent.alias (codes "error") s')
        ])
    else elim opts.exec_mode [
      | compat ↦ (false, alias, record s { rc = 0 })
      | event ↦ (false, alias, run_script env opts alias (codes "nochg") (record s { rc = 0 }))
    ]

-- The inner loop: after a `break` the remaining aliases stay as they are.
unfoldable pub update_aliases : Env → Options → Plugin → List Alias → Pass → List Alias × Pass
update_aliases env opts plugin [] s = ([], s)
update_aliases env opts plugin (alias ∷ rest) s =
    let (halt, alias', s') = update_one env opts plugin alias s in
    let on = update_aliases env opts plugin rest s' in
    if halt then (alias' ∷ rest, s') else (alias' ∷ on.0, on.1)

-- Which return code of a provider is remembered for the caller.
unfoldable pub remember_rc : ℕ → ℕ → ℕ
remember_rc rc remember =
    let remember' =
      (if rc == rc_ddns_rsp_notok || rc == rc_ddns_rsp_auth_fail then rc else remember) in
    if (rc == rc_ddns_rsp_retry_later || rc == rc_ddns_rsp_too_frequent) && remember' == 0
    then rc
    else remember'

-- What a pass over providers hands on.
pub record Table : Type 0 where
  pub rc : ℕ
  pub remember : ℕ
  pub changed : ℕ
  pub ctx : Ctx
  pub world : World

-- The outer loop.
unfoldable pub update_providers : Env → Options → List Provider → Table → List Provider × Table
update_providers env opts [] t = ([], t)
update_providers env opts (p ∷ rest) t =
    let (aliases', s) =
      update_aliases env opts p.plugin p.aliases
        (record { rc = t.rc; ctx = t.ctx; info = p.info; changed = t.changed; world = t.world }) in
    let (rest', t') = update_providers env opts rest (record {
      rc = s.rc;
      remember = remember_rc s.rc t.remember;
      changed = s.changed;
      ctx = s.ctx;
      world = s.world;
    }) in
    (record p { info = s.info; aliases = aliases' } ∷ rest', t')

-- "%d" of a number below 1000.
unfoldable pub decimal : ℕ → Str
decimal n =
    if ltb n 10
    then (b'0' + n) ∷ []
    else if ltb n 100
    then (b'0' + n / 10) ∷ (b'0' + n % 10) ∷ []
    else (b'0' + n / 100) ∷ (b'0' + n / 10 % 10) ∷ (b'0' + n % 10) ∷ []

-- An address in 203.0.113.0/24, from a random number.
unfoldable pub fake_address : ℕ → Str
unfolding decimal
fake_address r = strlcpy max_address_len (codes "203.0.113." ++ decimal ((r + 1) % 255))

-- The inner loop of the pass with fake addresses. TRY leaves it by `break` on an error, before the
-- address is put back.
unfoldable pub fake_aliases : Env → Plugin → List Alias → Pass → List Alias × Pass
unfolding fake_address
fake_aliases env plugin [] s = ([], s)
fake_aliases env plugin (alias ∷ rest) s =
    let faked = record alias { address = fake_address (env.rand s.world.history) } in
    let sent = send_update env plugin s.ctx s.info faked 0 (emit drew s.world) in
    let s' : Pass = record s {
      rc = sent.rc;
      ctx = sent.ctx;
      info = sent.info;
      world = sent.world;
    } in
    let on = fake_aliases env plugin rest (if alias.force_addr_update then s' else s) in
    if alias.force_addr_update
    then (if sent.rc == rc_ok
        then (record sent.alias { address = alias.address } ∷ on.0, on.1)
        else (sent.alias ∷ rest, s'))
    else (alias ∷ on.0, on.1)

unfoldable pub fake_providers : Env → List Provider → Table → List Provider × Table
fake_providers env [] t = ([], t)
fake_providers env (p ∷ rest) t =
    let (aliases', s) =
      fake_aliases env p.plugin p.aliases
        (record { rc = t.rc; ctx = t.ctx; info = p.info; changed = t.changed; world = t.world }) in
    let (rest', t') =
      fake_providers env rest (record t { rc = s.rc; ctx = s.ctx; world = s.world }) in
    (record p { info = s.info; aliases = aliases' } ∷ rest', t')

-- `sleep (3)` ends the pass with fake addresses.
unfoldable pub fake_pass : Env → List Provider → Table → List Provider × Table
fake_pass env ps t =
    let (ps', t') = fake_providers env ps t in (ps', record t' { world = emit (slept 3) t'.world })

unfoldable pub update_alias_table :
    Env → Options → Ctx → List Provider → World → List Provider × Table
unfolding fake_pass
update_alias_table env opts ctx ps w =
    let start : Table = record { rc = 0; remember = 0; changed = 0; ctx = ctx; world = w } in
    let (ps', t) = (if ctx.forced_update_fake_addr then fake_pass env ps start else (ps, start)) in
    update_providers env opts ps' t
