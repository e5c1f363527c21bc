-- ===== src/Ddns/Loop/Laws.antt =====
-- Laws of the main loop (src/ddns.c): which errors end the daemon, and how many rounds it makes.
use inadyn.Prelude.{
  ℕ, zero, suc, ◌+◌, ◌<◌, ◌≡◌, ◌≢◌, ◌↔◌, ◌⊎◌, inl, inr, refl, Bool, true, false, ◌==◌, arith, any,
  if◌then◌else◌,
}
use inadyn.Error.{rc_ok, rc_ddns_rsp_notok, rc_ddns_rsp_auth_fail}
use inadyn.World.{Env}
use inadyn.Ddns.State.{Ctx, Options}
use inadyn.Ddns.Address.{Inet}
use inadyn.Ddns.Command.{deliver, wait_for_cmd}
use inadyn.Ddns.Command.Laws.{deliver-keeps, wait_for_cmd-keeps}
use inadyn.Ddns.Loop.{
  Daemon, Next, stop, again, check_address, check_error, retry_codes, after_check, wait_and_obey,
  filter_error, test_restart, main_round, run, obey, count_iteration,
}
use inadyn.Ddns.Loop.Counters.{check_address_ctx}

-- The error filter in one table: the daemon leaves on an error that is neither one to retry nor one of
-- the provider's refusals while these are ignored; and of the context it changes only the period of
-- the next wait, which is the normal period after a success, the error period after an error to
-- retry, and otherwise the one before.
pub check_error_table :
    (ignore_errors : Bool) (ctx : Ctx) (rc : ℕ)
    → let retried = any (λ code. rc == code) retry_codes in
      (((check_error ignore_errors ctx rc).0 ≡ true) ↔ (
        (rc ≢ rc_ok)
        × (retried ≡ false)
        × ((ignore_errors ≡ false) ⊎ ((rc ≢ rc_ddns_rsp_notok) × (rc ≢ rc_ddns_rsp_auth_fail)))))
      × ((check_error ignore_errors ctx rc).1 ≡ record ctx {
        update_period =
            if rc == rc_ok
            then ctx.normal_update_period_sec
            else if retried
            then ctx.error_update_period_sec
            else ctx.update_period;
      })
unfolding check_error
check_error_table ignore_errors ctx rc = ((λ h. ground arith, λ h. ground arith), ground arith)

-- The iterations of two contexts agree.
abbrev SameIterations : Ctx → Ctx → Type 0
SameIterations a b =
    (a.total_iterations ≡ b.total_iterations) × (a.num_iterations ≡ b.num_iterations)

module _ (env : Env) (opts : Options) where
  obey_iterations : (d d' : Daemon) → obey d ≡ again d' → SameIterations d'.ctx d.ctx
  unfolding obey
  obey_iterations d d' h = ground arith

  wait_iterations : (d d' : Daemon) → wait_and_obey env d ≡ again d' → SameIterations d'.ctx d.ctx
  unfolding wait_and_obey
  wait_iterations d d' h =
      let (ctx, w) = deliver env d.ctx d.world in
      let (ctx', w') = wait_for_cmd env ctx w in
      let kept = obey_iterations (record d { ctx = ctx'; world = w' }) d' h in
      ground (arith, kept, (deliver-keeps env d.ctx d.world).0, wait_for_cmd-keeps env ctx w)

  filter_iterations :
      (rc : ℕ) (d d' : Daemon) → test_restart env opts rc d ≡ again d' → SameIterations d'.ctx d.ctx
  unfolding test_restart filter_error
  filter_iterations rc d d' h =
      ground
        (arith, wait_iterations (record d { ctx = (check_error opts.ignore_errors d.ctx rc).1 }) d')

  -- A success counts if iterations are limited, and the round goes on only below the limit.
  after_check_counts :
      (rc : ℕ) (d d' : Daemon)
      → d.ctx.total_iterations ≢ 0
      → after_check env opts rc d ≡ again d'
      → (d'.ctx.total_iterations ≡ d.ctx.total_iterations)
        × (d'.ctx.num_iterations
            ≡ (if rc == rc_ok then suc d.ctx.num_iterations else d.ctx.num_iterations))
        × ((rc ≢ rc_ok) ⊎ (d'.ctx.num_iterations < d'.ctx.total_iterations))
  unfolding after_check
  after_check_counts rc d d' limited h =
      let (ctx₁, w₁) = deliver env d.ctx d.world in
      let (done, ctx₂) = count_iteration rc ctx₁ in
      ground (
        arith,
        (deliver-keeps env d.ctx d.world).0,
        filter_iterations rc (record d { ctx = ctx₂; world = w₁ }) d',
      )

pub Next-cases :
    (n : Next) → ((rc : ℕ) × (d : Daemon) × (n ≡ stop rc d)) ⊎ ((d : Daemon) × (n ≡ again d))
Next-cases (stop rc d) = inl (rc, d, refl)
Next-cases (again d) = inr (d, refl)

-- The checks among the first rounds that succeed.
pub successes : Env → Inet → Options → ℕ → Daemon → ℕ
successes env lib opts zero d = 0
successes env lib opts (suc rounds) d = elim (main_round env lib opts d) [
  | stop rc d' ↦ 0
  | again d' ↦
      (if (check_address env lib opts d).0 == rc_ok then 1 else 0)
      + successes env lib opts rounds d'
]

module _ (env : Env) (lib : Inet) (opts : Options) where
  pub main_round_counts :
      (d d' : Daemon)
      → d.ctx.total_iterations ≢ 0
      → d.ctx.num_iterations < d.ctx.total_iterations
      → main_round env lib opts d ≡ again d'
      → (d'.ctx.total_iterations ≡ d.ctx.total_iterations)
        × (d'.ctx.num_iterations
            ≡ d.ctx.num_iterations + (if (check_address env lib opts d).0 == rc_ok then 1 else 0))
        × (d'.ctx.num_iterations < d'.ctx.total_iterations)
  unfolding main_round
  main_round_counts d d' limited below h =
      let (rc, d₁) = check_address env lib opts d in
      let same = check_address_ctx env lib opts d in
      ground (arith, same, after_check_counts env opts rc d₁ d')

  -- With a limit on the iterations, a daemon that still runs has counted exactly the checks that
  -- succeeded, and these are fewer than the limit: after as many as the limit it has stopped.
  pub run_counts :
      (rounds : ℕ) (d d' : Daemon)
      → d.ctx.total_iterations ≢ 0
      → d.ctx.num_iterations < d.ctx.total_iterations
      → run env lib opts rounds d ≡ again d'
      → (d'.ctx.num_iterations ≡ d.ctx.num_iterations + successes env lib opts rounds d)
        × (d.ctx.num_iterations + successes env lib opts rounds d < d.ctx.total_iterations)
  unfolding run successes
  run_counts zero d d' limited below h = ground arith
  run_counts (suc rounds) d d' limited below h = elim (Next-cases (main_round env lib opts d)) [
    | inl (rc, d₁, e) ↦ ground (arith, e)
    | inr (d₁, e) ↦ ground (arith, e, main_round_counts d d₁, run_counts rounds d₁ d')
  ]
