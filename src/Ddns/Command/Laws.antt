-- ===== src/Ddns/Command/Laws.antt =====
-- Laws of the commands (src/os.c, src/ddns.c).
use native.Mathlib.Nat.{mod-lt, div-add-mod}
use inadyn.Prelude.{
  ℕ, zero, suc, ◌+◌, ◌*◌, ◌/◌, ◌≤◌, ◌<◌, ◌≡◌, refl, ap, false, List, [], ◌∷◌, arith, ◌⊎◌, ◌∙◌, inr,
}
use inadyn.World.{Env, World, History, slept, Signal, emit}
use inadyn.Ddns.State.{Ctx}
use inadyn.Ddns.Command.{
  deliver, handle_all, unix_signal_handler, wait_rounds, wait_for_cmd, is_no_cmd,
}

-- The seconds slept in a history.
abbrev pub time_slept : History → ℕ
time_slept [] = 0
time_slept (slept n ∷ h) = n + time_slept h
time_slept (_ ∷ h) = time_slept h

handle_all-keeps :
    (signals : List Signal) (ctx : Ctx)
    → handle_all signals ctx ≡ record ctx { cmd = (handle_all signals ctx).cmd }
unfolding handle_all
handle_all-keeps [] ctx = refl
handle_all-keeps (Signal.sighup ∷ rest) ctx =
    handle_all-keeps rest (unix_signal_handler Signal.sighup ctx)
handle_all-keeps (signal ∷ rest) ctx = handle_all-keeps rest (unix_signal_handler signal ctx)

-- Signals change nothing but the command.
pub deliver-keeps :
    (env : Env) (ctx : Ctx) (w : World)
    → ((deliver env ctx w).0 ≡ record ctx { cmd = (deliver env ctx w).0.cmd })
      × (time_slept (deliver env ctx w).1.history ≡ time_slept w.history)
unfolding deliver
deliver-keeps env ctx w = (handle_all-keeps (env.signals w.history) ctx, refl)

-- What a wait does beside its sleeping: it changes nothing of the context but the command.
pub wait_rounds-keeps :
    (env : Env) (counter : ℕ) (ctx : Ctx) (w : World)
    → (wait_rounds env counter ctx w).0 ≡ record ctx { cmd = (wait_rounds env counter ctx w).0.cmd }
unfolding wait_rounds
wait_rounds-keeps env zero ctx w = refl
wait_rounds-keeps env (suc counter) ctx w =
    let w₁ = emit (slept ctx.cmd_check_period) w in
    let (ctx', w') = deliver env ctx w₁ in
    ground (arith, deliver-keeps env ctx w₁, wait_rounds-keeps env counter ctx' w')

wait_rounds-slept :
    (env : Env) (counter period : ℕ) (ctx : Ctx) (w : World)
    → ctx.cmd_check_period ≡ period
    → let r = wait_rounds env counter ctx w in
      (time_slept r.1.history ≤ time_slept w.history + counter * period)
      × ((is_no_cmd r.0.cmd ≡ false)
          ⊎ (time_slept r.1.history ≡ time_slept w.history + counter * period))
unfolding wait_rounds
wait_rounds-slept env zero period ctx w e = (omega arith, inr (omega arith))
wait_rounds-slept env (suc counter) period ctx w e =
    let w₁ = emit (slept ctx.cmd_check_period) w in
    let (ctx', w') = deliver env ctx w₁ in
    let same : ctx'.cmd_check_period ≡ period =
      ap (λ (c : Ctx). c.cmd_check_period) (deliver-keeps env ctx w₁).0 ∙ e in
    ground (arith, (deliver-keeps env ctx w₁).1, wait_rounds-slept env counter period ctx' w' same)

-- A command that is pending is not slept on: the wait returns at once and keeps it.
pub wait_for_cmd-pending :
    (env : Env) (ctx : Ctx) (w : World)
    → is_no_cmd ctx.cmd ≡ false
    → wait_for_cmd env ctx w ≡ (ctx, w)
unfolding wait_for_cmd
wait_for_cmd-pending env ctx w h = ground arith

-- With a check period that is not zero, a wait sleeps for the update period at most; it sleeps for
-- less than the update period by a full check period only if a command has come.
pub wait_for_cmd-slept :
    (env : Env) (ctx : Ctx) (w : World)
    → 0 < ctx.cmd_check_period
    → let r = wait_for_cmd env ctx w in
      (time_slept r.1.history ≤ time_slept w.history + ctx.update_period)
      × ((is_no_cmd r.0.cmd ≡ false)
          ⊎ (time_slept w.history + ctx.update_period
              < time_slept r.1.history + ctx.cmd_check_period))
unfolding wait_for_cmd
wait_for_cmd-slept env ctx w h = ground (
  arith,
  wait_rounds-slept env (ctx.update_period / ctx.cmd_check_period) ctx.cmd_check_period ctx w refl,
  div-add-mod ctx.update_period ctx.cmd_check_period,
  mod-lt ctx.update_period h,
)

pub wait_for_cmd-keeps :
    (env : Env) (ctx : Ctx) (w : World)
    → (wait_for_cmd env ctx w).0 ≡ record ctx { cmd = (wait_for_cmd env ctx w).0.cmd }
unfolding wait_for_cmd
wait_for_cmd-keeps env ctx w =
    ground (arith, wait_rounds-keeps env (ctx.update_period / ctx.cmd_check_period) ctx w)
