-- ===== src/Ddns/Loop/Survival.antt =====
-- What can end the daemon once it runs (src/ddns.c).
use inadyn.Prelude.{ℕ, ◌≡◌, ◌⊎◌, refl, true, false, List, [], ◌∷◌, arith, if◌then◌else◌}
use inadyn.Error.{
  rc_ok, rc_restart, rc_ddns_rsp_notok, rc_ddns_rsp_auth_fail, rc_ddns_rsp_retry_later,
  rc_ddns_rsp_too_frequent,
}
use inadyn.World.{Env, World}
use inadyn.Ddns.State.{Ctx, Options, Provider}
use inadyn.Ddns.Address.{Inet}
use inadyn.Ddns.Command.{deliver, wait_for_cmd}
use inadyn.Ddns.Backend.{get_address}
use inadyn.Ddns.Schedule.{check_alias_update_table}
use inadyn.Ddns.Update.{
  Table, update_aliases, update_alias_table, update_providers, fake_providers, fake_pass,
  remember_rc,
}
use inadyn.Ddns.Loop.{
  Daemon, stop, check_address, check_error, after_check, wait_and_obey, filter_error, test_restart,
  main_round, obey, count_iteration,
}

-- The codes that a check can return.
abbrev pub IsReported : ℕ → Type 0
IsReported rc =
    (rc ≡ rc_ok)
    ⊎ (rc ≡ rc_ddns_rsp_notok)
    ⊎ (rc ≡ rc_ddns_rsp_auth_fail)
    ⊎ (rc ≡ rc_ddns_rsp_retry_later)
    ⊎ (rc ≡ rc_ddns_rsp_too_frequent)

remember_rc-IsReported : (rc r : ℕ) → IsReported r → IsReported (remember_rc rc r)
unfolding remember_rc
remember_rc-IsReported rc r h = ground arith

module _ (env : Env) (opts : Options) where
  update_providers-IsReported :
      (ps : List Provider) (t : Table)
      → IsReported t.remember
      → IsReported (update_providers env opts ps t).1.remember
  unfolding update_providers
  update_providers-IsReported [] t h = h
  update_providers-IsReported (p ∷ rest) t h =
      let s =
        (update_aliases env opts p.plugin p.aliases (record {
          rc = t.rc;
          ctx = t.ctx;
          info = p.info;
          changed = t.changed;
          world = t.world;
        })).1 in
      update_providers-IsReported rest
        (record {
          rc = s.rc;
          remember = remember_rc s.rc t.remember;
          changed = s.changed;
          ctx = s.ctx;
          world = s.world;
        })
        (remember_rc-IsReported s.rc t.remember h)

  fake_providers-remember :
      (ps : List Provider) (t : Table) → (fake_providers env ps t).1.remember ≡ t.remember
  unfolding fake_providers
  fake_providers-remember [] t = refl
  fake_providers-remember (p ∷ rest) t = fake_providers-remember rest _

  update_alias_table-IsReported :
      (ctx : Ctx) (ps : List Provider) (w : World)
      → IsReported (update_alias_table env opts ctx ps w).1.remember
  unfolding update_alias_table fake_pass
  update_alias_table-IsReported ctx ps w =
      let start : Table = record { rc = 0; remember = 0; changed = 0; ctx = ctx; world = w } in
      let (ps', t) =
        (if ctx.forced_update_fake_addr then fake_pass env ps start else (ps, start)) in
      update_providers-IsReported ps' t (ground (arith, fake_providers-remember ps start))

  -- After a code that a check reports, a round with errors ignored ends in a command or a limit.
  obey-ends :
      (d : Daemon) (rc : ℕ) (d' : Daemon) → obey d ≡ stop rc d' → (rc ≡ rc_ok) ⊎ (rc ≡ rc_restart)
  unfolding obey
  obey-ends d rc d' h = ground arith

  wait_and_obey-ends :
      (d : Daemon) (rc : ℕ) (d' : Daemon)
      → wait_and_obey env d ≡ stop rc d'
      → (rc ≡ rc_ok) ⊎ (rc ≡ rc_restart)
  unfolding wait_and_obey
  wait_and_obey-ends d rc d' h =
      let (ctx, w) = deliver env d.ctx d.world in
      let (ctx', w') = wait_for_cmd env ctx w in
      obey-ends (record d { ctx = ctx'; world = w' }) rc d' h

  check_error-ignores :
      opts.ignore_errors ≡ true
      → (ctx : Ctx) (rc : ℕ) → IsReported rc
      → (check_error opts.ignore_errors ctx rc).0 ≡ false
  unfolding check_error
  check_error-ignores i ctx rc h = ground arith

  test_restart-ends :
      opts.ignore_errors ≡ true
      → (code : ℕ) (d : Daemon) (rc : ℕ) (d' : Daemon) → IsReported code
      → test_restart env opts code d ≡ stop rc d'
      → (rc ≡ rc_ok) ⊎ (rc ≡ rc_restart)
  unfolding test_restart filter_error
  test_restart-ends i code d rc d' r h = ground (
    arith,
    check_error-ignores i d.ctx code r,
    wait_and_obey-ends (record d { ctx = (check_error opts.ignore_errors d.ctx code).1 }) rc d',
  )

  after_check-ends :
      opts.ignore_errors ≡ true
      → (code : ℕ) (d : Daemon) (rc : ℕ) (d' : Daemon) → IsReported code
      → after_check env opts code d ≡ stop rc d'
      → (rc ≡ rc_ok) ⊎ (rc ≡ rc_restart)
  unfolding after_check
  after_check-ends i code d rc d' r h =
      let (ctx₁, w₁) = deliver env d.ctx d.world in
      let (done, ctx₂) = count_iteration code ctx₁ in
      ground (arith, test_restart-ends i code (record d { ctx = ctx₂; world = w₁ }) rc d' r)

-- A check returns success or one of four codes, all errors of a provider's answer: errors of the
-- network, the system or a request never reach the main loop from it.
pub check_address-IsReported :
    (env : Env) (lib : Inet) (opts : Options) (d : Daemon)
    → IsReported (check_address env lib opts d).0
unfolding check_address
check_address-IsReported env lib opts d =
    let (ctx, ps, w) = get_address env lib opts d.ctx d.providers d.world in
    let (ps', w') = check_alias_update_table env ctx ps w in
    update_alias_table-IsReported env opts ctx ps' w'

-- While errors are ignored no error ends the daemon: a round that is the last returns success or
-- the code of a restart.
pub main_round-ends :
    (env : Env) (lib : Inet) (opts : Options) (d : Daemon) (rc : ℕ) (d' : Daemon)
    → opts.ignore_errors ≡ true
    → main_round env lib opts d ≡ stop rc d'
    → (rc ≡ rc_ok) ⊎ (rc ≡ rc_restart)
unfolding main_round
main_round-ends env lib opts d rc d' i h =
    let (code, d₁) = check_address env lib opts d in
    after_check-ends env opts i code d₁ rc d' (check_address-IsReported env lib opts d) h
