-- ===== src/Ddns/Send/Laws.antt =====
-- Laws of `send_update` (src/ddns.c): what it may change of the alias, when it asks for a retry, and
-- that it closes what it opens.
use inadyn.Prelude.Text.{Str}
use inadyn.Prelude.{ℕ, suc, ◌≡◌, ◌≢◌, true, false, none, some, ◌==◌, arith, if◌then◌else◌}
use inadyn.Error.{rc_ok, rc_error}
use inadyn.World.{Env, World}
use inadyn.Http.{http_init, http_exit, http_transaction}
use inadyn.Ddns.State.{Alias, Info, Ctx, Plugin}
use inadyn.Ddns.Send.{send_update}

-- Two contexts with the same settings and counters: all but the buffers and the command.
pub record SameCounters (a b : Ctx) : Type 0 where
  pub same_total : a.total_iterations ≡ b.total_iterations
  pub same_num : a.num_iterations ≡ b.num_iterations
  pub same_normal : a.normal_update_period_sec ≡ b.normal_update_period_sec
  pub same_error : a.error_update_period_sec ≡ b.error_update_period_sec
  pub same_forced : a.forced_update_period_sec ≡ b.forced_update_period_sec
  pub same_check : a.cmd_check_period ≡ b.cmd_check_period

-- The name that the plugin's setup leaves, if it has one.
abbrev pub prepared_name : Env → Plugin → Ctx → Info → Alias → World → Str
prepared_name env plugin ctx info alias w = elim plugin.setup [
  | none ↦ alias.name
  | some setup ↦ (setup env ctx info alias w).name
]

-- Whatever the plugin and the network do, an update counts as a change exactly when it returns 0; it
-- then clears `force_addr_update`. No run touches any other field of the alias but its name, which is
-- the one that the plugin's setup leaves, if it has one.
pub send_update_alias :
    (env : Env) (plugin : Plugin) (ctx : Ctx) (info : Info) (alias : Alias) (n : ℕ) (w : World)
    → let s = send_update env plugin ctx info alias n w in
      (s.changed ≡ (if s.rc == rc_ok then suc n else n))
      × ((if s.rc == rc_ok then s.alias.force_addr_update else false) ≡ false)
      × (s.alias ≡ record alias {
        force_addr_update = s.alias.force_addr_update;
        name = prepared_name env plugin ctx info alias w;
      })
unfolding send_update http_init http_exit http_transaction
send_update_alias env plugin ctx info alias n w = ground arith

-- With no setup step, a failure of the connection, the transfer or the provider's answer asks for
-- another try: `force_addr_update` is set after every run that fails with another code than the
-- one of a request that could not be composed.
pub send_update_retries :
    (env : Env) (plugin : Plugin) (ctx : Ctx) (info : Info) (alias : Alias) (n : ℕ) (w : World)
    → plugin.setup ≡ none
    → (send_update env plugin ctx info alias n w).rc ≢ rc_ok
    → (send_update env plugin ctx info alias n w).rc ≢ rc_error
    → (send_update env plugin ctx info alias n w).alias.force_addr_update ≡ true
unfolding send_update http_init http_exit
send_update_retries env plugin ctx info alias n w h k l = ground arith

-- A connection is never left open: if the client is closed before the call, it is closed after it on
-- every path.
pub send_update_closes :
    (env : Env) (plugin : Plugin) (ctx : Ctx) (info : Info) (alias : Alias) (n : ℕ) (w : World)
    → info.server.initialized ≡ false
    → (send_update env plugin ctx info alias n w).info.server.initialized ≡ false
unfolding send_update http_init http_exit
send_update_closes env plugin ctx info alias n w h = ground arith

-- Of the context only the buffers change.
pub send_update_ctx :
    (env : Env) (plugin : Plugin) (ctx : Ctx) (info : Info) (alias : Alias) (n : ℕ) (w : World)
    → SameCounters (send_update env plugin ctx info alias n w).ctx ctx
unfolding send_update
send_update_ctx env plugin ctx info alias n w = ground arith
