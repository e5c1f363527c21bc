-- ===== src/Main/Limit.antt =====
-- The limit on the iterations holds over restarts, and the program never exits with the code of one
-- (src/main.c, src/ddns.c).
use inadyn.Prelude.{ℕ, zero, suc, ◌<◌, ◌≡◌, ◌≢◌, inl, inr, Bool, false, arith}
use mathlib.Core.Path.{subst}
use inadyn.Error.{rc_restart}
use inadyn.Prelude.Text.{Str}
use inadyn.World.{Env}
use inadyn.Ddns.State.{Ctx, Options}
use inadyn.Ddns.Address.{Inet}
use inadyn.Ddns.Command.{deliver, wait_for_cmd}
use inadyn.Ddns.Command.Laws.{deliver-keeps, wait_for_cmd-keeps}
use inadyn.Ddns.Loop.{
  Daemon, Next, stop, again, check_address, after_check, wait_and_obey, filter_error, test_restart,
  main_round, run, obey, count_iteration, check_error, startup, initialize, ddns_main_loop,
}
use inadyn.Ddns.Loop.Counters.{check_address_ctx}
use inadyn.Ddns.Loop.Survival.{check_address-IsReported}
use inadyn.Ddns.Loop.Laws.{Next-cases, main_round_counts}
use inadyn.Ddns.Setup.{init_context}

-- A limit that is set and not reached.
abbrev pub IsBelow : Ctx → Type 0
IsBelow ctx = (ctx.total_iterations ≢ 0) × (ctx.num_iterations < ctx.total_iterations)

-- If the daemon stops for a restart, its limit is that of `ctx`, and not reached.
unfoldable pub StopsBelow : Ctx → Next → Type 0
StopsBelow ctx (again d) = Unit
StopsBelow ctx (stop rc d) =
    rc ≡ rc_restart
    → (d.ctx.total_iterations ≡ ctx.total_iterations)
      × (d.ctx.num_iterations < ctx.total_iterations)

rebase :
    (a b : Ctx) (n : Next)
    → a.total_iterations ≡ b.total_iterations
    → StopsBelow a n
    → StopsBelow b n
unfolding StopsBelow
rebase a b (again d) e h = tt
rebase a b (stop rc d) e h = λ r. ground (arith, e, h r)

module _ (env : Env) (opts : Options) where
  obey-StopsBelow :
      (d : Daemon) → d.ctx.num_iterations < d.ctx.total_iterations → StopsBelow d.ctx (obey d)
  unfolding obey StopsBelow
  obey-StopsBelow d h = ground arith

  wait-StopsBelow :
      (ctx : Ctx) (d : Daemon)
      → d.ctx.num_iterations < d.ctx.total_iterations
      → d.ctx.total_iterations ≡ ctx.total_iterations
      → StopsBelow ctx (wait_and_obey env d)
  unfolding wait_and_obey StopsBelow obey
  wait-StopsBelow ctx d h e =
      let (ctx₁, w) = deliver env d.ctx d.world in
      let (ctx₂, w') = wait_for_cmd env ctx₁ w in
      ground (arith, (deliver-keeps env d.ctx d.world).0, wait_for_cmd-keeps env ctx₁ w)

  after_check-StopsBelow :
      (rc : ℕ) (d : Daemon)
      → rc ≢ rc_restart
      → d.ctx.total_iterations ≢ 0
      → d.ctx.num_iterations < d.ctx.total_iterations
      → StopsBelow d.ctx (after_check env opts rc d)
  unfolding after_check test_restart filter_error StopsBelow
  after_check-StopsBelow rc d other limited h =
      let (ctx₁, w₁) = deliver env d.ctx d.world in
      let (done, ctx₂) = count_iteration rc ctx₁ in
      let d₁ = record d { ctx = (check_error opts.ignore_errors ctx₂ rc).1; world = w₁ } in
      ground (arith, (deliver-keeps env d.ctx d.world).0, wait-StopsBelow d.ctx d₁)

module _ (env : Env) (lib : Inet) (opts : Options) where
  check_address-other : (d : Daemon) → (check_address env lib opts d).0 ≢ rc_restart
  check_address-other d e = ground (arith, check_address-IsReported env lib opts d)

  main_round-StopsBelow :
      (d : Daemon) → IsBelow d.ctx → StopsBelow d.ctx (main_round env lib opts d)
  unfolding main_round
  main_round-StopsBelow d below =
      let (rc, d₁) = check_address env lib opts d in
      let same = check_address_ctx env lib opts d in
      let r =
        after_check-StopsBelow env opts rc d₁ (check_address-other d) (ground (arith, same, below))
          (ground (arith, same, below)) in
      rebase d₁.ctx d.ctx (after_check env opts rc d₁) same.same_total r

  run-StopsBelow :
      (rounds : ℕ) (d : Daemon) → IsBelow d.ctx → StopsBelow d.ctx (run env lib opts rounds d)
  unfolding run
  run-StopsBelow zero d below = unfold StopsBelow in tt
  run-StopsBelow (suc rounds) d below = elim (Next-cases (main_round env lib opts d)) [
    | inl (rc, d₁, e) ↦
        rw (run, e) (subst (λ n. StopsBelow d.ctx n) e (main_round-StopsBelow d below))
    | inr (d₁, e) ↦
        let c = main_round_counts env lib opts d d₁ below.0 below.1 e in
        let on = run-StopsBelow rounds d₁ (ground (arith, c, below)) in
        rw (run, e) (rebase d₁.ctx d.ctx (run env lib opts rounds d₁) c.0 on)
  ]

  initialize-IsBelow :
      (encode : Str → Str) (cached : ℕ) (d : Daemon)
      → d.ctx.initialized ≡ false
      → d.ctx.total_iterations ≢ 0
      → cached < d.ctx.total_iterations
      → let c = (initialize env opts encode cached d).ctx in
        IsBelow c × (c.total_iterations ≡ d.ctx.total_iterations)
  unfolding initialize init_context
  initialize-IsBelow encode cached d new limited below = ground arith

  startup-StopsBelow :
      (first : Bool) (d : Daemon)
      → d.ctx.num_iterations < d.ctx.total_iterations
      → StopsBelow d.ctx (startup env opts first d)
  unfolding startup StopsBelow obey
  startup-StopsBelow first d below =
      let ctx = record d.ctx { update_period = opts.startup_delay } in
      ground (arith, wait_for_cmd-keeps env ctx d.world)

  startup-again :
      (first : Bool) (d d' : Daemon)
      → startup env opts first d ≡ again d'
      → (d'.ctx.total_iterations ≡ d.ctx.total_iterations)
        × (d'.ctx.initialized ≡ d.ctx.initialized)
  unfolding startup obey
  startup-again first d d' h =
      let ctx = record d.ctx { update_period = opts.startup_delay } in
      ground (arith, h, wait_for_cmd-keeps env ctx d.world)

  pub ddns_main_loop-StopsBelow :
      (encode : Str → Str) (first : Bool) (cached rounds : ℕ) (d : Daemon)
      → d.ctx.initialized ≡ false
      → IsBelow d.ctx
      → cached < d.ctx.total_iterations
      → StopsBelow d.ctx (ddns_main_loop env lib opts encode first cached rounds d)
  unfolding ddns_main_loop
  ddns_main_loop-StopsBelow encode first cached rounds d new below kept =
      elim (Next-cases (startup env opts first d)) [
        | inl (rc, d₁, e) ↦
            rw (ddns_main_loop, e)
              (subst (λ n. StopsBelow d.ctx n) e (startup-StopsBelow first d below.1))
        | inr (d₁, e) ↦
            let same = startup-again first d d₁ e in
            let d₂ = initialize env opts encode cached d₁ in
            let i =
              initialize-IsBelow encode cached d₁ (ground (arith, same, new))
                (ground (arith, same, below)) (ground (arith, same, kept)) in
            rw (ddns_main_loop, e)
              (rebase d₂.ctx d.ctx (run env lib opts rounds d₂) (ground (arith, same, i))
                (run-StopsBelow rounds d₂ i.0))
      ]
