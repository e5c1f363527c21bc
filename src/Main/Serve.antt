-- ===== src/Main/Serve.antt =====
-- The context and the loop over restarts (`alloc_context` and `main` of src/main.c).
use inadyn.Prelude.{
  ℕ, zero, suc, Bool, true, false, ◌&&◌, Option, none, some, [], ◌==◌, if◌then◌else◌,
}
use inadyn.Prelude.Text.{Str}
use inadyn.Error.{
  rc_ok, rc_out_of_memory, rc_restart, rc_file_io_missing_file, rc_os_install_sighandler_failed,
}
use inadyn.World.{Env, World}
use inadyn.Ddns.State.{Ctx, Options, no_cmd}
use inadyn.Ddns.Address.{Inet}
use inadyn.Ddns.Loop.{Next, stop, again, ddns_main_loop}
use inadyn.Conf.Parsed.{ConfFile}
use inadyn.Conf.File.{Setting, conf_parse_file}

abbrev pub ddns_default_period : ℕ
ddns_default_period = 120

abbrev pub ddns_default_iterations : ℕ
ddns_default_iterations = 0

abbrev pub ddns_default_cmd_check_period : ℕ
ddns_default_cmd_check_period = 1

abbrev pub ddns_http_response_buffer_size : ℕ
ddns_http_response_buffer_size = 8192

abbrev pub ddns_http_request_buffer_size : ℕ
ddns_http_request_buffer_size = 2500

-- Whether the three calls of malloc succeed.
pub record Memory : Type 0 where
  pub context : Bool
  pub work_buf : Bool
  pub request_buf : Bool

abbrev pub new_ctx : Ctx
new_ctx = record {
  cmd = no_cmd;
  update_period = ddns_default_period;
  normal_update_period_sec = ddns_default_period;
  error_update_period_sec = 0;
  forced_update_period_sec = 0;
  forced_update_fake_addr = false;
  cmd_check_period = ddns_default_cmd_check_period;
  total_iterations = ddns_default_iterations;
  num_iterations = 0;
  initialized = false;
  work_buf = [];
  work_buflen = ddns_http_response_buffer_size;
  request_buf = [];
  request_buflen = ddns_http_request_buffer_size;
}

-- With no room for a buffer the context is freed, and the result is 0 all the same. A buffer that
-- malloc returns is taken to hold an empty text.
unfoldable pub alloc_context : Memory → ℕ × Option Ctx
alloc_context memory =
    if memory.context
    then if memory.work_buf && memory.request_buf then (0, some new_ctx) else (0, none)
    else (rc_out_of_memory, none)

-- What the loop works with. `installs` tells whether the handlers of signals can be installed, and
-- `reads` is what the parser makes of the file at that time.
pub record Machine : Type 0 where
  pub env : Env
  pub lib : Inet
  pub encode : Str → Str
  pub setting : Setting
  pub memory : World → Memory
  pub installs : World → Bool
  pub reads : World → Option ConfFile

-- What lives from one start to the next: `cached_num_iterations`, `first_startup`, the options and
-- the world.
pub record Start : Type 0 where
  pub cached : ℕ
  pub first : Bool
  pub opts : Options
  pub world : World

-- How a start ends. `crashed` is the use of a context that is NULL; `running` is a daemon that is
-- not done after the rounds that it was given.
pub data Attempt : Type 0 where
  ended : ℕ → Attempt
  restarted : Start → Attempt
  crashed running : Attempt

-- What follows ddns_main_loop. A daemon that ends in its startup delay does not store its number of
-- iterations, but that is the first start, where both are 0.
unfoldable pub after_loop : Options → Next → Attempt
after_loop opts (again d) = running
after_loop opts (stop rc d) =
    if rc == rc_restart
    then restarted
        (record { cached = d.ctx.num_iterations; first = false; opts = opts; world = d.world })
    else ended rc

-- From conf_parse_file on. free_context leaves no provider in the list.
unfoldable pub configured : Machine → ℕ → Start → Ctx → ConfFile → Attempt
unfolding after_loop
configured m rounds s ctx cfg =
    let p = conf_parse_file m.setting cfg ctx s.opts [] in
    if p.ok
    then after_loop p.opts (
        ddns_main_loop m.env m.lib p.opts m.encode s.first s.cached rounds
          (record { ctx = p.ctx; providers = p.info_list; world = s.world }))
    else ended rc_file_io_missing_file

-- One round of `do ... while (restart)`. The handlers are installed once.
unfoldable pub attempt : Machine → ℕ → Start → Attempt
unfolding alloc_context configured
attempt m rounds s =
    let (rc, ctx) = alloc_context (m.memory s.world) in
    let installed = (if s.first then m.installs s.world else true) in
    if rc == rc_ok
    then if installed
      then elim (m.reads s.world) [
        | none ↦ ended rc_file_io_missing_file
        | some cfg ↦ elim ctx [ none ↦ crashed | some c ↦ configured m rounds s c cfg ]
      ]
      else ended rc_os_install_sighandler_failed
    else ended rc

-- What follows a start: the starts behind it, if it ended in a restart.
unfoldable pub then_serve : (Start → Attempt) → Attempt → Attempt
then_serve on (restarted s) = on s
then_serve on (ended rc) = ended rc
then_serve on crashed = crashed
then_serve on running = running

-- The loop for a bounded number of starts.
unfoldable pub serve : Machine → ℕ → ℕ → Start → Attempt
unfolding then_serve
serve m rounds zero s = restarted s
serve m rounds (suc starts) s = then_serve (serve m rounds starts) (attempt m rounds s)
