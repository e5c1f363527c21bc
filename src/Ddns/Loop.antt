-- ===== src/Ddns/Loop.antt =====
-- The main loop (src/ddns.c): one check, the filter of errors, and what a command leads to.
pub mod Counters
pub mod Survival
pub mod Laws
use inadyn.Prelude.{
  ℕ, zero, suc, ◌+◌, Bool, true, false, not, ◌&&◌, ◌||◌, List, [], ◌∷◌, map, ◌==◌, leb, ltb,
  if◌then◌else◌, any,
}
use inadyn.Prelude.Text.{Str}
use inadyn.Error.{rc_ok, rc_tcp_invalid_remote_addr, rc_tcp_connect_failed, rc_tcp_send_error}
use inadyn.Error.{rc_tcp_recv_error, rc_os_invalid_ip_address, rc_ddns_rsp_retry_later}
use inadyn.Error.{rc_ddns_invalid_checkip_rsp, rc_ddns_rsp_too_frequent, rc_ddns_rsp_notok}
use inadyn.Error.{rc_ddns_rsp_auth_fail, rc_restart}
use inadyn.World.{Env, World}
use inadyn.Cache.{read_cache_file}
use inadyn.Ddns.State.{Alias, Ctx, Provider, Options, Cmd, no_cmd, cmd_stop, cmd_restart}
use inadyn.Ddns.State.{cmd_forced_update, cmd_check_now}
use inadyn.Ddns.Address.{Inet}
use inadyn.Ddns.Backend.{get_address}
use inadyn.Ddns.Schedule.{check_alias_update_table}
use inadyn.Ddns.Update.{Table, update_alias_table}
use inadyn.Ddns.Command.{deliver, wait_for_cmd}
use inadyn.Ddns.Setup.{init_context, get_encoded_user_passwd}

-- What lives from round to round.
pub record Daemon : Type 0 where
  pub ctx : Ctx
  pub providers : List Provider
  pub world : World

-- Its first two parts always return 0.
unfoldable pub check_address : Env → Inet → Options → Daemon → ℕ × Daemon
check_address env lib opts d =
    let (ctx, ps, w) = get_address env lib opts d.ctx d.providers d.world in
    let (ps', w') = check_alias_update_table env ctx ps w in
    let (ps'', t) = update_alias_table env opts ctx ps' w' in
    (t.remember, record { ctx = t.ctx; providers = ps''; world = t.world })

-- The errors after which the daemon tries again soon.
abbrev pub retry_codes : List ℕ
retry_codes =
    rc_tcp_invalid_remote_addr ∷ rc_tcp_connect_failed ∷ rc_tcp_send_error ∷ rc_tcp_recv_error
    ∷ rc_os_invalid_ip_address ∷ rc_ddns_rsp_retry_later ∷ rc_ddns_invalid_checkip_rsp
    ∷ rc_ddns_rsp_too_frequent ∷ []

-- Whether to leave the loop, and the update period for the next wait.
unfoldable pub check_error : Bool → Ctx → ℕ → Bool × Ctx
check_error ignore_errors ctx rc =
    if rc == rc_ok
    then (false, record ctx { update_period = ctx.normal_update_period_sec })
    else if any (λ code. rc == code) retry_codes
    then (false, record ctx { update_period = ctx.error_update_period_sec })
    else if rc == rc_ddns_rsp_notok || rc == rc_ddns_rsp_auth_fail
    then (not ignore_errors, ctx)
    else (true, ctx)

abbrev pub force_alias : Alias → Alias
force_alias alias = record alias { force_addr_update = true }

-- The loops that set `force_addr_update` of every alias.
unfoldable pub force_all : List Provider → List Provider
force_all = map {A = Provider} (λ p. record p { aliases = map force_alias p.aliases })

-- How a round ends: with a return code, or with another round.
pub data Next : Type 0 where
  stop : ℕ → Daemon → Next
  again : Daemon → Next

abbrev set_cmd : Cmd → Daemon → Daemon
set_cmd cmd d = record d { ctx = record d.ctx { cmd = cmd } }

-- The tests behind the wait.
unfoldable pub obey : Daemon → Next
unfolding force_all
obey d = elim d.ctx.cmd [
  | cmd_stop ↦ stop 0 d
  | cmd_restart ↦ stop rc_restart d
  | cmd_forced_update ↦ again (set_cmd no_cmd (record d { providers = force_all d.providers }))
  | cmd_check_now ↦ again (set_cmd no_cmd d)
  | no_cmd ↦ again d
]

-- `total_iterations != 0 && ++num_iterations >= total_iterations`, after a check that succeeded.
unfoldable pub count_iteration : ℕ → Ctx → Bool × Ctx
count_iteration rc ctx =
    if rc == rc_ok && not (ctx.total_iterations == 0)
    then (
      leb ctx.total_iterations (ctx.num_iterations + 1),
      record ctx { num_iterations = ctx.num_iterations + 1 },
    )
    else (false, ctx)

-- The wait, and what the command that came leads to.
unfoldable pub wait_and_obey : Env → Daemon → Next
unfolding obey
wait_and_obey env d =
    let (ctx, w) = deliver env d.ctx d.world in
    let (ctx', w') = wait_for_cmd env ctx w in obey (record d { ctx = ctx'; world = w' })

-- The error filter, before the wait.
unfoldable pub filter_error : Env → Options → ℕ → Daemon → Next
unfolding check_error
filter_error env opts rc d =
    let (leave, ctx) = check_error opts.ignore_errors d.ctx rc in
    let d' = record d { ctx = ctx } in if leave then stop rc d' else wait_and_obey env d'

-- A restart that was asked for during the check.
unfoldable pub test_restart : Env → Options → ℕ → Daemon → Next
test_restart env opts rc d = elim d.ctx.cmd [
  | cmd_restart ↦ stop rc_restart (set_cmd no_cmd d)
  | _ ↦ filter_error env opts rc d
]

-- What follows the check, with the signals that came during it.
unfoldable pub after_check : Env → Options → ℕ → Daemon → Next
unfolding count_iteration
after_check env opts rc d₀ =
    let (ctx₁, w₁) = deliver env d₀.ctx d₀.world in
    let (done, ctx₂) = count_iteration rc ctx₁ in
    let d = record d₀ { ctx = ctx₂; world = w₁ } in
    if done then stop rc d else test_restart env opts rc d

-- One round of `while (1)`.
unfoldable pub main_round : Env → Inet → Options → Daemon → Next
unfolding after_check
main_round env lib opts d =
    let (rc, d') = check_address env lib opts d in after_check env opts rc d'

-- What the startup delay leads to: the return code that ends the daemon, or the daemon that goes on.
-- The delay applies to the first start only.
unfoldable pub startup : Env → Options → Bool → Daemon → Next
unfolding obey
startup env opts first d =
    if first && not (opts.startup_delay == 0)
    then (let ctx = record d.ctx { update_period = opts.startup_delay } in
        let (ctx', w) = wait_for_cmd env ctx d.world in obey (record d { ctx = ctx'; world = w }))
    else again d

-- The initialisation before the loop. `cached` is the number of iterations kept over a restart.
unfoldable pub initialize : Env → Options → (Str → Str) → ℕ → Daemon → Daemon
unfolding init_context get_encoded_user_passwd force_all
initialize env opts encode cached d =
    let (ctx, ps) = init_context cached d.ctx d.providers in
    let (ps', w) = read_cache_file env opts.cache_dir ps d.world in
    let ps'' = get_encoded_user_passwd encode ps' in
    record {
      ctx = ctx;
      providers = if opts.once && opts.force then force_all ps'' else ps'';
      world = w;
    }

-- The daemon for a bounded number of rounds; `again` says that it is still running.
unfoldable pub run : Env → Inet → Options → ℕ → Daemon → Next
run env lib opts zero d = again d
run env lib opts (suc rounds) d = elim (main_round env lib opts d) [
  | stop rc d' ↦ stop rc d'
  | again d' ↦ run env lib opts rounds d'
]

unfoldable pub ddns_main_loop : Env → Inet → Options → (Str → Str) → Bool → ℕ → ℕ → Daemon → Next
unfolding startup initialize
ddns_main_loop env lib opts encode first cached rounds d = elim (startup env opts first d) [
  | stop rc d' ↦ stop rc d'
  | again d' ↦ run env lib opts rounds (initialize env opts encode cached d')
]
