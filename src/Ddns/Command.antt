-- ===== src/Ddns/Command.antt =====
-- Commands by signals (`unix_signal_handler` of src/os.c) and the wait for one (`wait_for_cmd` of
-- src/ddns.c). Signals arrive at the moments that the model names: between the parts of a round, and
-- during each sleep.
pub mod Laws
use inadyn.Prelude.{ℕ, zero, suc, ◌/◌, Bool, true, false, List, [], ◌∷◌}
use inadyn.World.{Env, World, Signal, sighup, sigint, sigterm, sigusr1, sigusr2, other}
use inadyn.World.{slept, signalled, emit}
use inadyn.Ddns.State.{Ctx, Cmd, no_cmd, cmd_stop, cmd_restart, cmd_forced_update, cmd_check_now}

unfoldable pub unix_signal_handler : Signal → Ctx → Ctx
unix_signal_handler sighup ctx = record ctx { cmd = cmd_restart }
unix_signal_handler sigint ctx = record ctx { cmd = cmd_stop }
unix_signal_handler sigterm ctx = record ctx { cmd = cmd_stop }
unix_signal_handler sigusr1 ctx = record ctx { cmd = cmd_forced_update }
unix_signal_handler sigusr2 ctx = record ctx { cmd = cmd_check_now }
unix_signal_handler other ctx = ctx

unfoldable pub handle_all : List Signal → Ctx → Ctx
unfolding unix_signal_handler
handle_all [] ctx = ctx
handle_all (signal ∷ rest) ctx = handle_all rest (unix_signal_handler signal ctx)

-- The pending signals, in their order.
unfoldable pub deliver : Env → Ctx → World → Ctx × World
unfolding handle_all
deliver env ctx w = (handle_all (env.signals w.history) ctx, emit signalled w)

abbrev pub is_no_cmd : Cmd → Bool
is_no_cmd no_cmd = true
is_no_cmd _ = false

-- `while (counter--)`: a command that has come ends the wait.
unfoldable pub wait_rounds : Env → ℕ → Ctx → World → Ctx × World
wait_rounds env zero ctx w = (ctx, w)
wait_rounds env (suc counter) ctx w =
    let (ctx', w') = deliver env ctx (emit (slept ctx.cmd_check_period) w) in
    elim (is_no_cmd ctx.cmd) [ true ↦ wait_rounds env counter ctx' w' | false ↦ (ctx, w) ]

unfoldable pub wait_for_cmd : Env → Ctx → World → Ctx × World
unfolding wait_rounds
wait_for_cmd env ctx w = elim (is_no_cmd ctx.cmd) [
  | true ↦ wait_rounds env (ctx.update_period / ctx.cmd_check_period) ctx w
  | false ↦ (ctx, w)
]
