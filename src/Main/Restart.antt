-- ===== src/Main/Restart.antt =====
-- What the loop over restarts keeps (src/main.c).
use inadyn.Prelude.{
  ℕ, zero, suc, ◌<◌, ◌≡◌, ◌≢◌, inl, inr, refl, false, [], some, arith, ◌==◌, Option-cases,
  Bool-cases,
}
use inadyn.Error.{rc_restart}
use inadyn.World.{World}
use inadyn.Ddns.State.{Ctx, Options}
use inadyn.Ddns.Loop.{Daemon, Next, stop, again, ddns_main_loop}
use inadyn.Conf.Parsed.{ConfFile}
use inadyn.Conf.File.{conf_parse_file, set_global_ctx, set_global_options}
use inadyn.Main.Serve.{
  Machine, Start, Attempt, ended, restarted, crashed, running, attempt, configured, after_loop,
  serve, then_serve, alloc_context, new_ctx,
}
use inadyn.Main.Limit.{StopsBelow, ddns_main_loop-StopsBelow}

-- The code of a restart is never the exit code, and the number of iterations that a restart keeps is
-- below the limit.
abbrev pub IsWithin : ℕ → Attempt → Type 0
IsWithin limit (ended rc) = rc ≢ rc_restart
IsWithin limit (restarted s) = (s.cached < limit) × (s.opts.once ≡ false)
IsWithin limit crashed = Unit
IsWithin limit running = Unit

after_loop-IsWithin :
    (limit : ℕ) (ctx : Ctx) (opts : Options) (n : Next)
    → ctx.total_iterations ≡ limit
    → opts.once ≡ false
    → StopsBelow ctx n
    → IsWithin limit (after_loop opts n)
unfolding after_loop StopsBelow
after_loop-IsWithin limit ctx opts (again d) e once h = tt
after_loop-IsWithin limit ctx opts (stop rc d) e once h = elim (Bool-cases (rc == rc_restart)) [
  | inl r ↦ ground (arith, h (ground arith), e, once, r)
  | inr r ↦ ground (arith, r)
]

configured-IsWithin :
    (m : Machine) (rounds limit : ℕ) (s : Start) (cfg : ConfFile)
    → cfg.iterations ≡ limit
    → limit ≢ 0
    → s.cached < limit
    → s.opts.once ≡ false
    → IsWithin limit (configured m rounds s new_ctx cfg)
unfolding configured conf_parse_file set_global_ctx set_global_options
configured-IsWithin m rounds limit s cfg same limited below once =
    let p = conf_parse_file m.setting cfg new_ctx s.opts [] in
    let d : Daemon = record { ctx = p.ctx; providers = p.info_list; world = s.world } in
    let total : p.ctx.total_iterations ≡ limit = ground (arith, same, once) in
    let n = ddns_main_loop m.env m.lib p.opts m.encode s.first s.cached rounds d in
    let b =
      ddns_main_loop-StopsBelow m.env m.lib p.opts m.encode s.first s.cached rounds d refl
        (ground (arith, total, limited), ground (arith, total, limited))
        (ground (arith, total, below)) in
    let w = after_loop-IsWithin limit p.ctx p.opts n total once b in
    elim (Bool-cases p.ok) [
      | inl ok ↦ rw (configured, ok) w
      | inr bad ↦ rw (configured, bad) (ground arith)
    ]

module _ (m : Machine) (rounds limit : ℕ) (limited : limit ≢ 0)
    (same : (w : World) (cfg : ConfFile) → m.reads w ≡ some cfg → cfg.iterations ≡ limit) where
  attempt-IsWithin :
      (s : Start) → s.cached < limit → s.opts.once ≡ false → IsWithin limit (attempt m rounds s)
  unfolding attempt alloc_context
  attempt-IsWithin s below once = elim (Option-cases (m.reads s.world)) [
    | inl e ↦ ground (arith, e)
    | inr (cfg, e) ↦
        ground (
          arith,
          e,
          configured-IsWithin m rounds limit s cfg (same s.world cfg e) limited below once,
        )
  ]

  -- If every configuration that is read has the same limit on the iterations, which is not 0, and the
  -- program is not to run once only, then however often it is restarted the number of iterations
  -- that is kept stays below the limit, and the exit code is never the one of a restart.
  pub serve-IsWithin :
      (starts : ℕ) (s : Start)
      → s.cached < limit
      → s.opts.once ≡ false
      → IsWithin limit (serve m rounds starts s)
  unfolding serve then_serve
  serve-IsWithin zero s below once = (below, once)
  serve-IsWithin (suc starts) s below once =
      (elim (attempt m rounds s)
          as (λ a. IsWithin limit a → IsWithin limit (then_serve (serve m rounds starts) a)) [
            | restarted s' ↦ λ v. serve-IsWithin starts s' v.0 v.1
            | ended rc ↦ λ v. v
            | crashed ↦ λ v. v
            | running ↦ λ v. v
          ])
        (attempt-IsWithin s below once)
